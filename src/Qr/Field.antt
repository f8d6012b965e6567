-- ===== src/Qr/Field.antt =====
-- GF(256) of freenetic-qrcode.js: the tables that `initGF256` fills and `gmul`.
pub mod Laws
-- The tables are module variables of the source; here they are a value that the functions take.
use freenetic.Base.{
  ℕ, zero, suc, ◌+◌, ◌*◌, ◌-◌, bit_and, bit_xor, Bool, true, ◌||◌, List, [], ◌∷◌, ◌==◌,
  if◌then◌else◌, get_or, set, replicate,
}

pub record Tables : Type 0 where
  -- EXP_TABLE, 512 entries
  pub exp : List ℕ
  -- LOG_TABLE, 256 entries
  pub log : List ℕ

pub record Init : Type 0 where
  pub g : ℕ
  pub tables : Tables

-- One round of the first loop of `initGF256`.
init_round : ℕ → Init → Init
init_round i s =
    let doubled = s.g * 2 in
    record {
      g = if bit_and doubled 0x100 == 0 then doubled else bit_xor doubled 0x11d;
      tables = record { exp = set s.tables.exp i s.g; log = set s.tables.log s.g i };
    }

-- The first loop with `n` rounds left, from round `i` on.
init_powers : ℕ → ℕ → Init → Init
init_powers zero i s = s
init_powers (suc n) i s = init_powers n (i + 1) (init_round i s)

-- The second loop, `EXP_TABLE[i] = EXP_TABLE[i - 255]`.
init_wrap : ℕ → ℕ → List ℕ → List ℕ
init_wrap zero i exp = exp
init_wrap (suc n) i exp = init_wrap n (i + 1) (set exp i (get_or exp (i - 255) 0))

-- Entries not yet written count as 0; LOG_TABLE[0] is never written and never read.
unfoldable pub init_gf256 : Tables
unfolding init_round init_powers init_wrap
init_gf256 =
    let start : Init = record {
      g = 1;
      tables = record { exp = replicate 512 0; log = replicate 256 0 };
    } in
    let powers = (init_powers 255 0 start).tables in
    record powers { exp = init_wrap 257 255 powers.exp }

-- On bytes; the tables' reads are then in range.
unfoldable pub gmul : Tables → ℕ → ℕ → ℕ
gmul t a b = if a == 0 || b == 0 then 0 else get_or t.exp (get_or t.log a 0 + get_or t.log b 0) 0
