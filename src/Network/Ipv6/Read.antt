-- ===== src/Network/Ipv6/Read.antt =====
-- How `parseIpv6Words` reads groups with colons between them.
use freenetic.Base.{
  ℕ, Bool, true, false, ◌&&◌, ◌||◌, List, [], ◌∷◌, map, none, some, ◌≡◌, ◌≢◌, refl, ap, ◌∙◌, arith,
  leb, ◌==◌, Text, every, every-append, is_hex, hex_value, All, some_of, lower,
}
use freenetic.Network.Address.{split_on}
use freenetic.Network.Address.Split.{joined, free, split_on-joined}
use freenetic.Network.Ipv6.{
  join_colons, is_group, parse_half, parse_halves, parse_colons, parse_plain, parse_ipv6_words,
  without_dots, cut_at, cut_double, count_doubles,
}
use freenetic.Network.Ipv6.Colons.{IsGroups, join_colons-joined, hex-free, group_form}

-- A character that an address in hexadecimal may have.
abbrev pub in_address : ℕ → Bool
in_address c = is_hex c || c == b':'

pub every_of_All : (p : Text → Bool) (ps : List Text) → All (λ q. p q ≡ true) ps → every p ps ≡ true
unfolding every
every_of_All p [] h = refl
every_of_All p (q ∷ qs) (h, k) = rw (h, every_of_All p qs k) refl

pub frees : (ps : List Text) → IsGroups ps → All (λ q. free b':' q ≡ true) ps
frees [] h = tt
frees (p ∷ ps) (h, k) = let (c, s, e, hex) = group_form p h in (hex-free p hex, frees ps k)

pub cons_ne_nil {ℓ} : {A : Type ℓ} (x : A) (xs : List A) → (x ∷ xs) ≢ []
cons_ne_nil x xs e = cc

pub joined_ne_nil : (p : Text) (ps : List Text) → IsGroups (p ∷ ps) → joined b':' p ps ≢ []
unfolding joined
joined_ne_nil p [] (h, _) = let (c, s, e, _) = group_form p h in rw e (cons_ne_nil c s)
joined_ne_nil p (q ∷ qs) (h, _) = let (c, s, e, _) = group_form p h in rw e (cons_ne_nil c _)

pub parse_half_cons :
    (t p : Text) (ps : List Text)
    → t ≢ []
    → split_on b':' t ≡ (p, ps)
    → every is_group (p ∷ ps) ≡ true
    → parse_half t ≡ some (map (hex_value 0) (p ∷ ps))
unfolding parse_half
parse_half_cons [] p ps ne e h = absurd (ne refl)
parse_half_cons (c ∷ s) p ps ne e h = rw (e, h) refl

pub parse_half-join_colons :
    (ps : List Text) → IsGroups ps → parse_half (join_colons ps) ≡ some (map (hex_value 0) ps)
unfolding parse_half join_colons
parse_half-join_colons [] h = refl
parse_half-join_colons (p ∷ ps) h =
    let (c, s, e, hex) = group_form p h.0 in
    rw (join_colons-joined p ps) (
      parse_half_cons (joined b':' p ps) p ps (joined_ne_nil p ps h)
        (split_on-joined b':' p ps (hex-free p hex) (frees ps h.1))
        (every_of_All is_group (p ∷ ps) h))

pub in_address_of : (s : Text) → every is_hex s ≡ true → every in_address s ≡ true
unfolding every
in_address_of [] h = refl
in_address_of (c ∷ s) h =
    let (h1, h2) = both (is_hex c) (every is_hex s) h in rw (h1, in_address_of s h2) refl
  where
    both : (a b : Bool) → (a && b) ≡ true → (a ≡ true) × (b ≡ true)
    both a b e = ground arith

pub join_colons-in_address :
    (ps : List Text) → IsGroups ps → every in_address (join_colons ps) ≡ true
unfolding join_colons every
join_colons-in_address [] h = refl
join_colons-in_address (p ∷ []) (h, _) = let (c, s, e, hex) = group_form p h in in_address_of p hex
join_colons-in_address (p ∷ q ∷ qs) (h, k) =
    let (c, s, e, hex) = group_form p h in
    rw (every-append in_address p (b':' ∷ join_colons (q ∷ qs)), in_address_of p hex)
      (join_colons-in_address (q ∷ qs) k)

pub parse_colons_halves :
    (s : Text)
    → s ≢ []
    → leb (count_doubles s) 1 ≡ true
    → every in_address s ≡ true
    → parse_colons s ≡ parse_halves (cut_double s)
unfolding parse_colons
parse_colons_halves [] ne few ok = absurd (ne refl)
parse_colons_halves (c ∷ s) ne few ok = rw (few, ok) refl

pub cut_at_absent : (s : Text) → every in_address s ≡ true → cut_at b'%' s ≡ (s, none)
unfolding cut_at every
cut_at_absent [] h = refl
cut_at_absent (c ∷ s) h =
    let e : (c == b'%') ≡ false = ground arith in
    let k : every in_address s ≡ true = ground arith in rw (e, cut_at_absent s k) refl

pub lower_same : (s : Text) → every in_address s ≡ true → lower s ≡ s
unfolding lower every
lower_same [] h = refl
lower_same (c ∷ s) h =
    let e : (leb b'A' c && leb c b'Z') ≡ false = ground arith in
    let k : every in_address s ≡ true = ground arith in rw (e, lower_same s k) refl

pub no_dot : (s : Text) → every in_address s ≡ true → some_of (λ c. c == b'.') s ≡ false
unfolding some_of every
no_dot [] h = refl
no_dot (c ∷ s) h =
    let e : (c == b'.') ≡ false = ground arith in
    let k : every in_address s ≡ true = ground arith in rw (e, no_dot s k) refl

pub without_dots_same : (s : Text) → every in_address s ≡ true → without_dots s ≡ some s
unfolding without_dots
without_dots_same s ok = rw (no_dot s ok) refl

pub parse_ipv6_words_halves :
    (s : Text)
    → s ≢ []
    → leb (count_doubles s) 1 ≡ true
    → every in_address s ≡ true
    → parse_ipv6_words s ≡ parse_halves (cut_double s)
unfolding parse_ipv6_words parse_plain
parse_ipv6_words_halves s ne few ok =
    let e : lower (cut_at b'%' s).0 ≡ s = rw (cut_at_absent s ok) (lower_same s ok) in
    ap (λ t. parse_plain (without_dots t)) e
    ∙ ap parse_plain (without_dots_same s ok)
    ∙ plain s
    ∙ parse_colons_halves s ne few ok
  where
    plain : (s : Text) → parse_plain (some s) ≡ parse_colons s
    plain s = refl
