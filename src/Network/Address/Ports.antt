-- ===== src/Network/Address/Ports.antt =====
-- What `validPort` accepts.
use mathlib.Core.Path.{subst}
use freenetic.Base.{
  trim_start, trim_end, ℕ, ◌≤◌, Bool, true, false, ◌&&◌, ◌≡◌, ◌↔◌, inl, inr, refl, List, [], ◌∷◌,
  ◌++◌, Text, is_decimal, digits_value, Bool-cases, arith,
}
use freenetic.Network.Address.{split_on, port_groups, accepts, in_range, valid_port}
use freenetic.Network.Address.Split.{joined, joined-split_on, split_on-joined, decimal-free}

both : (a b : Bool) → (a && b) ≡ true → (a ≡ true) × (b ≡ true)
both a b e = ground arith

false_ne_true : false ≡ true → ⊥
false_ne_true e = cc

in_range_iff : (m n : ℕ) → (in_range m n ≡ true) ↔ ((1 ≤ m) × (m ≤ n) × (n ≤ 65535))
unfolding in_range
in_range_iff m n = ground arith

-- A port in decimal digits, or, where ranges are allowed, two ports in order with a dash between them.
pub data IsPort (allow_range : Bool) (s : Text) : Type 0 where
  one : is_decimal s ≡ true → 1 ≤ digits_value 0 s → digits_value 0 s ≤ 65535 → IsPort allow_range s
  range :
      (p q : Text)
      → allow_range ≡ true
      → s ≡ p ++ b'-' ∷ q
      → is_decimal p ≡ true
      → is_decimal q ≡ true
      → 1 ≤ digits_value 0 p
      → digits_value 0 p ≤ digits_value 0 q
      → digits_value 0 q ≤ 65535
      → IsPort allow_range s

accepts-IsPort :
    (allow : Bool) (p : Text) (ps : List Text)
    → accepts allow (port_groups p ps) ≡ true
    → IsPort allow (joined b'-' p ps)
unfolding port_groups joined accepts
accepts-IsPort allow p [] h = elim (Bool-cases (is_decimal p)) [
  | inr e ↦ absurd (false_ne_true (rw e at h))
  | inl e ↦
      let (low, _, high) = (in_range_iff (digits_value 0 p) (digits_value 0 p)).0 (rw e at h) in
      one e low high
]
accepts-IsPort allow p (q ∷ []) h = elim (Bool-cases (is_decimal p && is_decimal q)) [
  | inr e ↦ absurd (false_ne_true (rw e at h))
  | inl e ↦ elim (Bool-cases allow) [
    | inr a ↦ absurd (false_ne_true (rw (e, a) at h))
    | inl a ↦
        let (low, order, high) =
          (in_range_iff (digits_value 0 p) (digits_value 0 q)).0 (rw (e, a) at h) in
        let (dp, dq) = both (is_decimal p) (is_decimal q) e in range p q a refl dp dq low order high
  ]
]
accepts-IsPort allow p (q ∷ r ∷ rs) h = absurd (false_ne_true (h))

IsPort-accepts :
    (allow : Bool) (s : Text)
    → IsPort allow s
    → accepts allow (port_groups (split_on b'-' s).0 (split_on b'-' s).1) ≡ true
unfolding port_groups accepts joined
IsPort-accepts allow s (one d low high) =
    let cut = split_on-joined b'-' s [] (decimal-free b'-' s refl d) tt in
    rw (cut, d) ((in_range_iff _ _).1 (low, omega arith, high))
IsPort-accepts allow s (range p q a e dp dq low order high) =
    let cut =
      split_on-joined b'-' p (q ∷ []) (decimal-free b'-' p refl dp)
        (decimal-free b'-' q refl dq, tt) in
    rw (e, cut, dp, dq, a) ((in_range_iff _ _).1 (low, order, high))

-- `validPort` accepts exactly what is, between white space, a port from 1 to 65535 in decimal digits,
-- or, where ranges are allowed, two such ports in order with a dash between them.
pub valid_port_iff :
    (value : Text) (allow_range : Bool)
    → (valid_port value allow_range ≡ true) ↔ IsPort allow_range (trim_end (trim_start value))
unfolding valid_port
valid_port_iff value allow_range =
    let s = trim_end (trim_start value) in
    (
      (λ h. subst (IsPort allow_range) (joined-split_on b'-' s) (accepts-IsPort allow_range _ _ h)),
      IsPort-accepts allow_range s,
    )
