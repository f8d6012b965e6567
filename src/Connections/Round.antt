-- ===== src/Connections/Round.antt =====
-- `parseConfig` reads what `serializeConfig` writes: the lines that are read one after the other.
pub mod Drafted
pub mod Peers
pub mod Blocks
pub mod Interface
pub mod Awg
pub mod Portable
pub mod Plain
pub mod Whole
use freenetic.Base.{
  ℕ, Bool, true, false, not, ◌&&◌, ◌||◌, List, [], ◌∷◌, ◌++◌, ◌≡◌, refl, sym, ap, ◌∙◌, inl, inr,
  append-nil, append_assoc, Option, none, some, ◌==◌, Text, codes, every, lower, if◌then◌else◌,
  arith, All, All-append, trim_start, trim_end, every-append, map,
}
use freenetic.Network.Address.{split_on}
use freenetic.Network.Address.Split.{free, joined, split_on-joined}
use freenetic.Connections.Fields.{list_text}
use freenetic.Connections.Draft.{
  Reading, apply_line, read_line, line_of, uncommented, read_lines, without_return, read_draft,
  no_draft, item, Draft, interface, peer,
}
use freenetic.Connections.Config.{key_line, optional_line, list_line}
use freenetic.Connections.Lines.{is_plain, IsWritable, IsKey, read_line-key_line}
use freenetic.Connections.Tokens.{IsToken, list_text-IsWritable, list_text-ne_nil}

unfoldable pub fold_lines : List Text → Reading → Reading
fold_lines [] r = r
fold_lines (l ∷ ls) r = fold_lines ls (apply_line (read_line l) r)

pub fold_lines-append :
    (ls ms : List Text) (r : Reading) → fold_lines (ls ++ ms) r ≡ fold_lines ms (fold_lines ls r)
unfolding fold_lines
fold_lines-append [] ms r = refl
fold_lines-append (l ∷ ls) ms r = fold_lines-append ls ms (apply_line (read_line l) r)

-- A line without line ends and comments.
abbrev pub IsPlain : Text → Type 0
IsPlain l = every is_plain l ≡ true

without_return-plain : (l : Text) → IsPlain l → without_return l ≡ l
unfolding without_return every
without_return-plain [] h = refl
without_return-plain (c ∷ []) h = let e : (c == 13) ≡ false = ground arith in rw e refl
without_return-plain (c ∷ d ∷ l) h = ap (λ t. c ∷ t) (without_return-plain (d ∷ l) (ground arith))

plain-free : (l : Text) → IsPlain l → free 10 l ≡ true
unfolding free every
plain-free [] h = refl
plain-free (c ∷ l) h =
    let e : (c == 10) ≡ false = ground arith in
    let k : IsPlain l = ground arith in rw (e, plain-free l k) refl

plains-free : (ls : List Text) → All IsPlain ls → All (λ l. free 10 l ≡ true) ls
plains-free [] h = tt
plains-free (l ∷ ls) (h, hs) = (plain-free l h, plains-free ls hs)

read_lines-fold :
    (l : Text) (ls : List Text) (r : Reading)
    → All IsPlain (l ∷ ls)
    → read_lines l ls r ≡ fold_lines (l ∷ ls) r
unfolding read_lines fold_lines
read_lines-fold l [] r h = refl
read_lines-fold l (m ∷ ms) r (h, hs) =
    ap (λ t. read_lines m ms (apply_line (read_line t) r)) (without_return-plain l h)
    ∙ read_lines-fold m ms (apply_line (read_line l) r) hs

joined-last : (l : Text) (ls : List Text) → joined 10 l ls ++ 10 ∷ [] ≡ joined 10 l (ls ++ [] ∷ [])
unfolding joined
joined-last l [] = refl
joined-last l (m ∷ ms) =
    append_assoc l (10 ∷ joined 10 m ms) (10 ∷ []) ∙ ap (λ t. l ++ 10 ∷ t) (joined-last m ms)

blank_line : IsPlain []
unfolding every
blank_line = refl

-- An empty line changes nothing.
pub fold_lines-blank : (r : Reading) → fold_lines ([] ∷ []) r ≡ r
unfolding fold_lines apply_line read_line uncommented trim_start trim_end line_of
fold_lines-blank r = refl

pub read_draft-joined :
    (l : Text) (ls : List Text)
    → All IsPlain (l ∷ ls)
    → read_draft (joined 10 l ls ++ 10 ∷ [])
      ≡ (fold_lines (l ∷ ls) (record { section = none; draft = no_draft })).draft
unfolding read_draft
read_draft-joined l ls h =
    let start : Reading = record { section = none; draft = no_draft } in
    let lines = ls ++ [] ∷ [] in
    let plain : All IsPlain (l ∷ lines) =
      All-append IsPlain (l ∷ ls) ([] ∷ []) h (blank_line, tt) in
    let cut : split_on 10 (joined 10 l ls ++ 10 ∷ []) ≡ (l, lines) =
      ap (split_on 10) (joined-last l ls)
      ∙ split_on-joined 10 l lines (plain-free l plain.0) (plains-free lines plain.1) in
    ap (λ (p : Text × List Text). (read_lines p.0 p.1 start).draft) cut
    ∙ ap (λ (r : Reading). r.draft)
        (read_lines-fold l lines start plain
          ∙ fold_lines-append (l ∷ ls) ([] ∷ []) start
          ∙ fold_lines-blank (fold_lines (l ∷ ls) start))

-- The effect of a line that is written only for a value that is not empty.
unfoldable pub set_option : Text → Text → Reading → Reading
set_option key [] r = r
set_option key (c ∷ v) r = apply_line (item (lower key) (c ∷ v)) r

unfoldable pub set_list : Text → List Text → Reading → Reading
set_list key [] r = r
set_list key (v ∷ vs) r = apply_line (item (lower key) (list_text (v ∷ vs))) r

pub fold_lines-optional :
    (key v : Text) (r : Reading)
    → IsKey key
    → IsWritable v
    → fold_lines (optional_line key v) r ≡ set_option key v r
unfolding fold_lines optional_line set_option
fold_lines-optional key [] r k h = refl
fold_lines-optional key (c ∷ v) r k h =
    ap (λ l. apply_line l r) (read_line-key_line key (c ∷ v) k h (λ e. cc))

pub fold_lines-list :
    (key : Text) (vs : List Text) (r : Reading)
    → IsKey key
    → All IsToken vs
    → fold_lines (list_line key vs) r ≡ set_list key vs r
unfolding fold_lines list_line set_list
fold_lines-list key [] r k h = refl
fold_lines-list key (v ∷ vs) r k h =
    ap (λ l. apply_line l r)
      (read_line-key_line key (list_text (v ∷ vs)) k (list_text-IsWritable (v ∷ vs) h)
        (list_text-ne_nil (v ∷ vs) (λ e. cc) h))

pub key_line-IsPlain : (key v : Text) → IsKey key → IsWritable v → IsPlain (key_line key v)
unfolding IsKey IsWritable every
key_line-IsPlain [] v k h = absurd k
key_line-IsPlain (c ∷ key) v (_, _, plain, _, _) (_, _, h) =
    every-append is_plain (c ∷ key) (32 ∷ b'=' ∷ 32 ∷ v) ∙ rw (plain, h) refl

pub optional_line-IsPlain :
    (key v : Text) → IsKey key → IsWritable v → All IsPlain (optional_line key v)
unfolding optional_line
optional_line-IsPlain key [] k h = tt
optional_line-IsPlain key (c ∷ v) k h = (key_line-IsPlain key (c ∷ v) k h, tt)

pub list_line-IsPlain :
    (key : Text) (vs : List Text) → IsKey key → All IsToken vs → All IsPlain (list_line key vs)
unfolding list_line
list_line-IsPlain key [] k h = tt
list_line-IsPlain key (v ∷ vs) k h =
    (key_line-IsPlain key (list_text (v ∷ vs)) k (list_text-IsWritable (v ∷ vs) h), tt)
