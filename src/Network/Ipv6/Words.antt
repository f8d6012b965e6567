-- ===== src/Network/Ipv6/Words.antt =====
-- What `parseIpv6Words` returns: eight words of 16 bits.
use freenetic.Base.{
  ℕ, zero, suc, ◌+◌, ◌-◌, Bool, true, false, ◌&&◌, ◌||◌, List, [], ◌∷◌, ◌++◌, map, Option, none,
  some, ◌≡◌, inl, inr, arith, leb, le_of_leb, lt_of_leb, ◌==◌, ==_iff, Bool-cases, Option-cases,
  Text, lower, every, is_hex, hex_value, hex_value-lt, All, All-append, length, replicate,
  length-append, length-replicate,
}
use mathlib.Core.Path.{subst}
use native.Mathlib.Nat.{pow-le-pow_right}
use freenetic.Network.Address.{split_on}
use freenetic.Network.Ipv6.{
  is_group, parse_half, parse_halves, join_halves, parse_colons, parse_plain, parse_ipv6_words,
  without_dots, cut_at, cut_double, count_doubles,
}
use freenetic.Network.Ipv6.Round.{IsWord}

abbrev pub IsWords : List ℕ → Type 0
IsWords words = length words ≡ 8 × All IsWord words

none_ne_some {ℓ} : {A : Type ℓ} {x : A} → none ≡ some x → ⊥
none_ne_some e = cc

some_inj : {a b : List ℕ} → some a ≡ some b → a ≡ b
some_inj e = cc

group_value : (g : Text) → is_group g ≡ true → IsWord (hex_value 0 g)
unfolding is_group
group_value g h =
    let short : leb (length g) 4 ≡ true = ground arith in
    let hex : every is_hex g ≡ true = ground arith in
    omega (
      arith,
      le_of_leb (length g) 4 short,
      hex_value-lt g 0 hex,
      pow-le-pow_right {n = 16} (omega arith) (le_of_leb (length g) 4 short),
    )

groups_values : (gs : List Text) → every is_group gs ≡ true → All IsWord (map (hex_value 0) gs)
unfolding every
groups_values [] h = tt
groups_values (g ∷ gs) h = (group_value g (ground arith), groups_values gs (ground arith))

parse_half-words : (s : Text) {ws : List ℕ} → parse_half s ≡ some ws → All IsWord ws
unfolding parse_half
parse_half-words [] {ws} e = let e' : [] ≡ ws = cc in subst (All IsWord) e' tt
parse_half-words (c ∷ s) {ws} e =
    let (g, gs) = split_on b':' (c ∷ s) in
    elim (Bool-cases (every is_group (g ∷ gs))) [
      | inl ok ↦
          let e' : map (hex_value 0) (g ∷ gs) ≡ ws = some_inj (rw ok at e) in
          subst (All IsWord) e' (groups_values (g ∷ gs) ok)
      | inr bad ↦ absurd (none_ne_some (rw bad at e))
    ]

join_halves-IsWords :
    (ls rs : List ℕ) (double : Bool) {ws : List ℕ}
    → All IsWord ls
    → All IsWord rs
    → join_halves ls rs double ≡ some ws
    → IsWords ws
unfolding join_halves
join_halves-IsWords ls rs true {ws} hl hr e = elim (Bool-cases (leb 8 (length ls + length rs))) [
  | inl many ↦ absurd (none_ne_some (rw many at e))
  | inr few ↦
      let gap = replicate (8 - (length ls + length rs)) 0 in
      let e' : ls ++ (gap ++ rs) ≡ ws = some_inj (rw few at e) in
      subst IsWords e' (
        omega (
          arith,
          length-append ls (gap ++ rs),
          length-append gap rs,
          length-replicate {A = ℕ} (8 - (length ls + length rs)) 0,
          lt_of_leb 8 (length ls + length rs) few,
        ),
        All-append IsWord ls (gap ++ rs) hl
            (All-append IsWord gap rs (zeros (8 - (length ls + length rs))) hr),
      )
]
  where
    zeros : (n : ℕ) → All IsWord (replicate n 0)
    zeros zero = tt
    zeros (suc n) = (omega arith, zeros n)
join_halves-IsWords ls rs false {ws} hl hr e = elim (Bool-cases (length ls + length rs == 8)) [
  | inr other ↦ absurd (none_ne_some (rw other at e))
  | inl full ↦
      let e' : ls ++ rs ≡ ws = some_inj (rw full at e) in
      subst IsWords e' (
        omega (arith, length-append ls rs, (==_iff (length ls + length rs) 8).0 full),
        All-append IsWord ls rs hl hr,
      )
]

parse_halves-IsWords :
    (halves : Text × Option Text) {ws : List ℕ} → parse_halves halves ≡ some ws → IsWords ws
unfolding parse_halves
parse_halves-IsWords (left, none) e = elim (Option-cases (parse_half left)) [
  | inl bad ↦ absurd (none_ne_some (rw (bad, parse_halves) at e))
  | inr (ls, ok) ↦
      join_halves-IsWords ls [] false (parse_half-words left ok) tt (rw (ok, parse_halves) at e)
]
parse_halves-IsWords (left, some right) e = elim (Option-cases (parse_half left)) [
  | inl bad ↦ absurd (none_ne_some (rw (bad, parse_halves) at e))
  | inr (ls, ok) ↦ elim (Option-cases (parse_half right)) [
    | inl bad ↦ absurd (none_ne_some (rw (ok, parse_halves, bad) at e))
    | inr (rs, ok') ↦
        join_halves-IsWords ls rs true (parse_half-words left ok) (parse_half-words right ok')
          (rw (ok, parse_halves, ok') at e)
  ]
]

parse_colons-IsWords : (s : Text) {ws : List ℕ} → parse_colons s ≡ some ws → IsWords ws
unfolding parse_colons
parse_colons-IsWords [] e = absurd (none_ne_some e)
parse_colons-IsWords (c ∷ s) e =
    elim (Bool-cases
      (leb (count_doubles (c ∷ s)) 1 && every (λ d. is_hex d || d == b':') (c ∷ s))) [
        | inl ok ↦ parse_halves-IsWords (cut_double (c ∷ s)) (rw ok at e)
        | inr bad ↦ absurd (none_ne_some (rw bad at e))
      ]

pub parse_ipv6_words-IsWords :
    (address : Text) {ws : List ℕ} → parse_ipv6_words address ≡ some ws → IsWords ws
unfolding parse_ipv6_words parse_plain
parse_ipv6_words-IsWords address e = plain (without_dots (lower (cut_at b'%' address).0)) e
  where
    plain : (o : Option Text) {ws : List ℕ} → parse_plain o ≡ some ws → IsWords ws
    plain none e = absurd (none_ne_some e)
    plain (some s) e = parse_colons-IsWords s e
