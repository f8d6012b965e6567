-- ===== src/Connections/Endpoints/Bare.antt =====
-- The characters of a host and of a port between brackets, and the splits at a character that a text does not have.
use freenetic.Base.{
  is_space, is_digit, is_decimal, ℕ, Bool, true, false, not, ◌&&◌, ◌||◌, [], ◌∷◌, ◌++◌, none, some,
  ◌≡◌, refl, inl, inr, ◌==◌, ==_iff, Text, every, some_of, Bool-cases, arith, all_below,
  all_below_sound, ◌<◌,
}
use freenetic.Network.Address.Split.{free}
use freenetic.Connections.Fields.{split_last, is_host}
use freenetic.Connections.Tokens.{is_token}

-- A character of a host, brackets left out.
abbrev pub is_bare : ℕ → Bool
is_bare c = is_host c && not (c == b'[' || c == b']')

pub split_last-free : (c : ℕ) (s : Text) → free c s ≡ true → split_last c s ≡ none
unfolding split_last free every
split_last-free c [] h = refl
split_last-free c (d ∷ s) h = elim (Bool-cases (d == c)) [
  | inl e ↦ absurd (false_ne_true (rw (e, not) at h))
  | inr e ↦ rw (split_last-free c s (rw (e, not) at h), e) refl
]
  where
    false_ne_true : false ≡ true → ⊥
    false_ne_true e = cc

pub split_last-append :
    (c : ℕ) (s t : Text) → free c t ≡ true → split_last c (s ++ c ∷ t) ≡ some (s, t)
unfolding split_last
split_last-append c [] t h = rw (split_last-free c t h, (==_iff c c).1 refl) refl
split_last-append c (d ∷ s) t h = rw (split_last-append c s t h) refl

pub free_of_none : (c : ℕ) (s : Text) → some_of (λ d. d == c) s ≡ false → free c s ≡ true
unfolding some_of free every
free_of_none c [] h = refl
free_of_none c (d ∷ s) h =
    let e : (d == c) ≡ false = ground arith in
    let k : some_of (λ d. d == c) s ≡ false = ground arith in rw (e, free_of_none c s k) refl

pub bare-free : (s : Text) → every is_bare s ≡ true → free b']' s ≡ true
unfolding free every
bare-free [] h = refl
bare-free (c ∷ s) h =
    let e : (c == b']') ≡ false = ground arith in
    let k : every is_bare s ≡ true = ground arith in rw (e, bare-free s k) refl

pub token_table : all_below 128 (λ c. not (is_bare c) || is_token c) ≡ true
unfolding all_below is_space
token_table = refl

pub bare_token : (c : ℕ) → is_bare c ≡ true → is_token c ≡ true
bare_token c h =
    apply (is_bare c) (is_token c) h
      (all_below_sound 128 (λ c. not (is_bare c) || is_token c) c token_table (below c h))
  where
    below : (c : ℕ) → is_bare c ≡ true → c < 128
    below c h = ground arith

    apply : (a b : Bool) → a ≡ true → (not a || b) ≡ true → b ≡ true
    apply a b h k = ground arith

pub bare_tokens : (s : Text) → every is_bare s ≡ true → every is_token s ≡ true
unfolding every
bare_tokens [] h = refl
bare_tokens (c ∷ s) h =
    let b : is_bare c ≡ true = ground arith in
    let k : every is_bare s ≡ true = ground arith in rw (bare_token c b, bare_tokens s k) refl

pub digit_bare : (c : ℕ) → is_digit c ≡ true → is_bare c ≡ true
digit_bare c h = ground arith

pub digits_bare : (s : Text) → every is_digit s ≡ true → every is_bare s ≡ true
unfolding every
digits_bare [] h = refl
digits_bare (c ∷ s) h =
    let b : is_digit c ≡ true = ground arith in
    let k : every is_digit s ≡ true = ground arith in rw (digit_bare c b, digits_bare s k) refl

pub decimal_bare : (s : Text) → is_decimal s ≡ true → every is_bare s ≡ true
unfolding is_decimal every
decimal_bare [] h = refl
decimal_bare (c ∷ s) h = digits_bare (c ∷ s) h
