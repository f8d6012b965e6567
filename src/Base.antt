-- ===== src/Base.antt =====
-- The names that the modules of the library share: the libraries' own, passed on, and those of
-- the children (Boolean tests, lists indexed by native numbers, loops, texts, binary digits).
mod Tests
mod Lists
mod Texts
mod Decimal
mod Hex
mod Numbers
pub mod Bits
mod Loops
unfoldable pub use Tests.*
unfoldable pub use Lists.*
unfoldable pub use Loops.*
unfoldable pub use Texts.*
unfoldable pub use Decimal.*
unfoldable pub use Hex.*
unfoldable pub use Numbers.*
pub use Prim.Native.String.{String}
pub use Prim.Native.Nat.{
  ℕ, zero, suc, ◌+◌, ◌-◌, ◌*◌, ◌/◌, ◌%◌, ◌^◌, ◌≤◌, ◌<◌, min, max, bit_and, bit_or, bit_xor,
}
pub use mathlib.Core.Path.{◌≡◌, refl, sym, ap, ap₂, ◌∙◌, ◌≡⟨◌⟩◌, ◌∎}
pub use mathlib.Core.Logic.{◌≢◌, ◌↔◌, ◌⊎◌, inl, inr}
pub use mathlib.Core.Bool.{Bool, true, false, not, ◌&&◌, ◌||◌}
pub use mathlib.Core.Option.{Option, none, some}
pub use mathlib.Core.List.{List, [], ◌∷◌, ◌++◌, map, append-nil, append_assoc}
pub use native.Mathlib.Omega.{arith}
