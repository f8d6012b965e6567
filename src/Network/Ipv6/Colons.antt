-- ===== src/Network/Ipv6/Colons.antt =====
-- Groups with colons between them, as `formatIpv6Words` writes and `parseIpv6Words` reads them.
use freenetic.Base.{
  ℕ, suc, Bool, true, false, not, ◌&&◌, List, [], ◌∷◌, ◌++◌, append-nil, ◌⊎◌, none, some, ◌≡◌, inl,
  inr, refl, sym, ap, ◌∙◌, arith, ◌==◌, if◌then◌else◌, Bool-cases, Text, every, is_hex, All,
}
use freenetic.Network.Address.Split.{joined, free}
use freenetic.Network.Ipv6.{join_colons, is_group, cut_double, count_doubles}

-- No two colons in a row, none at the end, and none at the start where the argument says so.
unfoldable pub tidy : Bool → Text → Bool
tidy after [] = not after
tidy after (c ∷ s) =
    let closed = tidy true s in
    let word = tidy false s in if c == b':' then not after && closed else word

abbrev pub IsGroups : List Text → Type 0
IsGroups ps = All (λ p. is_group p ≡ true) ps

false_ne_true : false ≡ true → ⊥
false_ne_true e = cc

both : (a b : Bool) → (a && b) ≡ true → (a ≡ true) × (b ≡ true)
both a b e = ground arith

tidy_cons :
    (after : Bool) (c : ℕ) (s : Text)
    → tidy after (c ∷ s) ≡ true
    → ((c == b':') ≡ true × tidy true s ≡ true × after ≡ false)
      ⊎ ((c == b':') ≡ false × tidy false s ≡ true)
unfolding tidy
tidy_cons after c s h = elim (Bool-cases (c == b':')) [
  | inl e ↦ let (h1, h2) = both (not after) (tidy true s) (rw e at h) in inl (e, h2, ground arith)
  | inr e ↦ inr (e, rw e at h)
]

no_double :
    (c d : ℕ) (s : Text) (after : Bool)
    → tidy after (c ∷ d ∷ s) ≡ true
    → ((c == b':' && d == b':') ≡ false) × (b : Bool) × tidy b (d ∷ s) ≡ true
no_double c d s after h = elim (tidy_cons after c (d ∷ s) h) [
  | inl (e, k, _) ↦ elim (tidy_cons true d s k) [
    | inl (_, _, absurdity) ↦ absurd (false_ne_true (sym absurdity))
    | inr (other, _) ↦ (rw (e, other) refl, true, k)
  ]
  | inr (e, k) ↦ (rw e refl, false, k)
]

not_last : (c : ℕ) (after : Bool) → tidy after (c ∷ []) ≡ true → (c == b':') ≡ false
unfolding tidy
not_last c after h = elim (tidy_cons after c [] h) [
  | inl (_, k, _) ↦ absurd (false_ne_true k)
  | inr (e, _) ↦ e
]

-- The first double colon is the one behind a tidy text.
pub cut_double-append :
    (after : Bool) (s r : Text)
    → tidy after s ≡ true
    → cut_double (s ++ b':' ∷ b':' ∷ r) ≡ (s, some r)
unfolding cut_double
cut_double-append after [] r h = refl
cut_double-append after (c ∷ []) r h = rw (not_last c after h) refl
cut_double-append after (c ∷ d ∷ s) r h =
    let (apart, b, k) = no_double c d s after h in rw (apart, cut_double-append b (d ∷ s) r k) refl

pub count_doubles-append :
    (after : Bool) (s r : Text)
    → tidy after s ≡ true
    → count_doubles (s ++ b':' ∷ b':' ∷ r) ≡ suc (count_doubles r)
unfolding count_doubles
count_doubles-append after [] r h = refl
count_doubles-append after (c ∷ []) r h = rw (not_last c after h) refl
count_doubles-append after (c ∷ d ∷ s) r h =
    let (apart, b, k) = no_double c d s after h in
    rw (apart, count_doubles-append b (d ∷ s) r k) refl

pub cut_double-tidy : (after : Bool) (s : Text) → tidy after s ≡ true → cut_double s ≡ (s, none)
unfolding cut_double
cut_double-tidy after [] h = refl
cut_double-tidy after (c ∷ []) h = refl
cut_double-tidy after (c ∷ d ∷ s) h =
    let (apart, b, k) = no_double c d s after h in rw (apart, cut_double-tidy b (d ∷ s) k) refl

pub count_doubles-tidy : (after : Bool) (s : Text) → tidy after s ≡ true → count_doubles s ≡ 0
unfolding count_doubles
count_doubles-tidy after [] h = refl
count_doubles-tidy after (c ∷ []) h = refl
count_doubles-tidy after (c ∷ d ∷ s) h =
    let (apart, b, k) = no_double c d s after h in rw (apart, count_doubles-tidy b (d ∷ s) k) refl

hex_other : (c : ℕ) → is_hex c ≡ true → (c == b':') ≡ false
hex_other c h = ground arith

-- The digits of a group, and that there is one.
pub group_form :
    (p : Text) → is_group p ≡ true → (c : ℕ) × (s : Text) × p ≡ c ∷ s × every is_hex p ≡ true
unfolding is_group
group_form [] h = absurd (false_ne_true h)
group_form (c ∷ s) h = (c, s, refl, ground arith)

pub hex-free : (s : Text) → every is_hex s ≡ true → free b':' s ≡ true
unfolding free every
hex-free [] h = refl
hex-free (c ∷ s) h =
    let (h1, h2) = both (is_hex c) (every is_hex s) h in rw (hex_other c h1, hex-free s h2) refl

tidy-hex : (s t : Text) → every is_hex s ≡ true → tidy false (s ++ t) ≡ tidy false t
unfolding tidy every
tidy-hex [] t h = refl
tidy-hex (c ∷ s) t h =
    let (h1, h2) = both (is_hex c) (every is_hex s) h in rw (hex_other c h1, tidy-hex s t h2) refl

tidy-group : (after : Bool) (p t : Text) → is_group p ≡ true → tidy after (p ++ t) ≡ tidy false t
unfolding tidy every
tidy-group after p t h =
    let (c, s, e, k) = group_form p h in
    let k' : (is_hex c && every is_hex s) ≡ true = rw e at k in
    let (h1, h2) = both (is_hex c) (every is_hex s) k' in rw (e, hex_other c h1) (tidy-hex s t h2)

pub tidy-joined :
    (after : Bool) (p : Text) (ps : List Text)
    → IsGroups (p ∷ ps)
    → tidy after (joined b':' p ps) ≡ true
unfolding joined tidy
tidy-joined after p [] (h, _) = let e = tidy-group after p [] h in rw (append-nil p) at e
tidy-joined after p (q ∷ qs) (h, k) =
    tidy-group after p (b':' ∷ joined b':' q qs) h ∙ tidy-joined true q qs k

pub join_colons-joined : (p : Text) (ps : List Text) → join_colons (p ∷ ps) ≡ joined b':' p ps
unfolding join_colons joined
join_colons-joined p [] = refl
join_colons-joined p (q ∷ qs) = ap (λ t. p ++ b':' ∷ t) (join_colons-joined q qs)

pub tidy-join_colons : (ps : List Text) → IsGroups ps → tidy false (join_colons ps) ≡ true
unfolding join_colons tidy
tidy-join_colons [] h = refl
tidy-join_colons (p ∷ ps) h = rw (join_colons-joined p ps) (tidy-joined false p ps h)
