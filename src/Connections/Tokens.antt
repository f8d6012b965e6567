-- ===== src/Connections/Tokens.antt =====
-- `parseList` reads what `listText` writes.
use freenetic.Base.{
  trim_start, trim_end, is_space, ℕ, Bool, true, false, not, ◌&&◌, ◌||◌, List, [], ◌∷◌, ◌++◌, ◌≡◌,
  ◌≢◌, refl, ap, ◌∙◌, ◌==◌, Text, every, if◌then◌else◌, arith, append_assoc, append-nil,
  every-append, All,
}
use freenetic.Connections.Fields.{parse_list, list_text, spaced, split_spaces, non_empty}
use freenetic.Connections.Lines.{is_plain, IsWritable, trim_end-append}

-- A character of an entry of a list.
abbrev pub is_token : ℕ → Bool
is_token c = is_plain c && (not (is_space c) && not (c == b','))

-- An entry that a list can hold.
abbrev pub IsToken : Text → Type 0
IsToken t = t ≢ [] × every is_token t ≡ true

token_cons :
    (c : ℕ) (s : Text)
    → every is_token (c ∷ s) ≡ true
    → is_space c ≡ false
      × (c == b',') ≡ false
      × (c == 13 || (c == 10 || c == b',')) ≡ false
      × is_plain c ≡ true
      × every is_token s ≡ true
unfolding every
token_cons c s h =
    let plain : is_plain c ≡ true =
      both4 (is_plain c) (is_space c) (c == b',') (every is_token s) h in
    let comma : (c == b',') ≡ false =
      comma4 (is_plain c) (is_space c) (c == b',') (every is_token s) h in
    (
      space4 (is_plain c) (is_space c) (c == b',') (every is_token s) h,
      comma,
      ground arith,
      plain,
      rest4 (is_plain c) (is_space c) (c == b',') (every is_token s) h,
    )
  where
    both4 : (a b d e : Bool) → ((a && (not b && not d)) && e) ≡ true → a ≡ true
    both4 a b d e h = ground arith

    space4 : (a b d e : Bool) → ((a && (not b && not d)) && e) ≡ true → b ≡ false
    space4 a b d e h = ground arith

    comma4 : (a b d e : Bool) → ((a && (not b && not d)) && e) ≡ true → d ≡ false
    comma4 a b d e h = ground arith

    rest4 : (a b d e : Bool) → ((a && (not b && not d)) && e) ≡ true → e ≡ true
    rest4 a b d e h = ground arith

spaced-token : (t u : Text) → every is_token t ≡ true → spaced (t ++ u) ≡ t ++ spaced u
unfolding spaced
spaced-token [] u h = refl
spaced-token (c ∷ t) u h =
    let (_, _, same, _, k) = token_cons c t h in rw (same, spaced-token t u k) refl

split_spaces-token :
    (t u : Text)
    → every is_token t ≡ true
    → split_spaces (t ++ u) ≡ (t ++ (split_spaces u).0, (split_spaces u).1)
unfolding split_spaces
split_spaces-token [] u h = refl
split_spaces-token (c ∷ t) u h =
    let (space, _, _, _, k) = token_cons c t h in rw (space, split_spaces-token t u k) refl

non_empty-token : (t : Text) (ps : List Text) → t ≢ [] → non_empty (t ∷ ps) ≡ t ∷ non_empty ps
unfolding non_empty
non_empty-token [] ps ne = absurd (ne refl)
non_empty-token (c ∷ t) ps ne = refl

read_token :
    (t u : Text)
    → every is_token t ≡ true
    → split_spaces (spaced (t ++ u))
      ≡ (t ++ (split_spaces (spaced u)).0, (split_spaces (spaced u)).1)
read_token t u h = ap split_spaces (spaced-token t u h) ∙ split_spaces-token t (spaced u) h

abbrev kept : Text × List Text → List Text
kept (piece, pieces) = non_empty (piece ∷ pieces)

separator :
    (u : Text)
    → split_spaces (spaced (b',' ∷ 32 ∷ u))
      ≡ ([], [] ∷ (split_spaces (spaced u)).0 ∷ (split_spaces (spaced u)).1)
unfolding spaced split_spaces is_space
separator u = refl

-- Entries without white space and commas, written with commas between them, are read as they are.
pub parse_list-list_text : (ts : List Text) → All IsToken ts → parse_list (list_text ts) ≡ ts
unfolding parse_list list_text non_empty
parse_list-list_text [] h = refl
parse_list-list_text (t ∷ []) ((ne, h), _) =
    let e = read_token t [] h in
    let whole : split_spaces (spaced t) ≡ (t, []) = rw (append-nil t) at e in
    ap kept whole ∙ non_empty-token t [] ne
parse_list-list_text (t ∷ u ∷ ts) ((ne, h), hs) =
    let rest = split_spaces (spaced (list_text (u ∷ ts))) in
    let e : split_spaces (spaced (t ++ (b',' ∷ 32 ∷ list_text (u ∷ ts))))
        ≡ (t, [] ∷ rest.0 ∷ rest.1) =
      read_token t (b',' ∷ 32 ∷ list_text (u ∷ ts)) h
      ∙ ap (λ (p : Text × List Text). (t ++ p.0, p.1)) (separator (list_text (u ∷ ts)))
      ∙ ap (λ s. (s, [] ∷ rest.0 ∷ rest.1)) (append-nil t) in
    ap kept e
    ∙ non_empty-token t ([] ∷ rest.0 ∷ rest.1) ne
    ∙ ap (λ ps. t ∷ ps) (parse_list-list_text (u ∷ ts) hs)

plain-token : (t : Text) → every is_token t ≡ true → every is_plain t ≡ true
unfolding every
plain-token [] h = refl
plain-token (c ∷ t) h =
    let (_, _, _, plain, k) = token_cons c t h in rw (plain, plain-token t k) refl

trim_end-token : (t : Text) → every is_token t ≡ true → trim_end t ≡ t
unfolding trim_end
trim_end-token [] h = refl
trim_end-token (c ∷ t) h =
    let (space, _, _, _, k) = token_cons c t h in rw (trim_end-token t k) (last c t space)
  where
    last :
        (c : ℕ) (t : Text)
        → is_space c ≡ false
        → (elim t [ [] ↦ (if is_space c then [] else c ∷ []) | d ∷ v ↦ c ∷ d ∷ v ]) ≡ c ∷ t
    last c [] e = rw e refl
    last c (d ∷ t) e = refl

trim_start-token : (t u : Text) → IsToken t → trim_start (t ++ u) ≡ t ++ u
unfolding trim_start
trim_start-token [] u (ne, h) = absurd (ne refl)
trim_start-token (c ∷ t) u (ne, h) = let (space, _, _, _, k) = token_cons c t h in rw space refl

plain_list : (ts : List Text) → All IsToken ts → every is_plain (list_text ts) ≡ true
unfolding list_text every
plain_list [] h = refl
plain_list (t ∷ []) ((_, h), _) = plain-token t h
plain_list (t ∷ u ∷ ts) ((_, h), hs) =
    every-append is_plain t (b',' ∷ 32 ∷ list_text (u ∷ ts))
    ∙ rw (plain-token t h, plain_list (u ∷ ts) hs) refl

pub list_text-ne_nil : (ts : List Text) → ts ≢ [] → All IsToken ts → list_text ts ≢ []
unfolding list_text
list_text-ne_nil [] ne h = absurd (ne refl)
list_text-ne_nil (t ∷ []) ne ((h, _), _) = h
list_text-ne_nil (t ∷ u ∷ ts) ne h = append_cons t b',' (32 ∷ list_text (u ∷ ts))
  where
    append_cons : (s : Text) (c : ℕ) (t : Text) → (s ++ c ∷ t) ≢ []
    append_cons [] c t e = cc
    append_cons (d ∷ s) c t e = cc

trim_end-list : (ts : List Text) → All IsToken ts → trim_end (list_text ts) ≡ list_text ts
unfolding list_text trim_end is_space
trim_end-list [] h = refl
trim_end-list (t ∷ []) ((_, h), _) = trim_end-token t h
trim_end-list (t ∷ u ∷ ts) (_, hs) =
    let tail = list_text (u ∷ ts) in
    let e =
      trim_end-append (t ++ (b',' ∷ 32 ∷ [])) tail (list_text-ne_nil (u ∷ ts) (λ k. cc) hs)
        (trim_end-list (u ∷ ts) hs) in
    rw (append_assoc t (b',' ∷ 32 ∷ []) tail) at e

trim_start-list : (ts : List Text) → All IsToken ts → trim_start (list_text ts) ≡ list_text ts
unfolding list_text trim_start
trim_start-list [] h = refl
trim_start-list (t ∷ []) (h, _) = let e = trim_start-token t [] h in rw (append-nil t) at e
trim_start-list (t ∷ u ∷ ts) (h, _) = trim_start-token t (b',' ∷ 32 ∷ list_text (u ∷ ts)) h

pub list_text-IsWritable : (ts : List Text) → All IsToken ts → IsWritable (list_text ts)
unfolding IsWritable
list_text-IsWritable ts h = (trim_start-list ts h, trim_end-list ts h, plain_list ts h)
