-- ===== src/Connections/Lines.antt =====
-- One line `key = value` of a configuration, read back.
use freenetic.Base.{
  trim_start, trim_end, is_space, ℕ, Bool, true, false, not, ◌&&◌, ◌||◌, [], ◌∷◌, ◌++◌, Option,
  some, ◌≡◌, ◌≢◌, refl, sym, ap, ap₂, ◌∙◌, inl, inr, ◌==◌, ==_iff, Text, every, some_of, lower,
  if◌then◌else◌, Bool-cases, arith, append_assoc, every-append,
}
use freenetic.Network.Address.Split.{free}
use freenetic.Network.Ipv6.{cut_at}
use freenetic.Connections.Fields.{trim}
use freenetic.Connections.Draft.{
  uncommented, is_line_end, read_line, line_of, item_of, item_of_parts, item_or_other, item,
}
use freenetic.Connections.Config.{key_line}

-- A character that neither ends a line nor starts a comment.
abbrev pub is_plain : ℕ → Bool
is_plain c = not (is_line_end c) && not (c == b'#' || c == b';')

-- Nothing that `trim` takes off, and no line end or comment.
unfoldable pub IsWritable : Text → Type 0
IsWritable s = trim_start s ≡ s × trim_end s ≡ s × every is_plain s ≡ true

pub trim-IsWritable : (s : Text) → IsWritable s → trim s ≡ s
unfolding IsWritable
trim-IsWritable s (e, f, _) = ap trim_end e ∙ f

false_ne_true : false ≡ true → ⊥
false_ne_true e = cc

uncommented-plain : (s : Text) → every is_plain s ≡ true → uncommented s ≡ s
unfolding uncommented every
uncommented-plain [] h = refl
uncommented-plain (c ∷ s) h =
    let e : (c == b'#' || c == b';') ≡ false = ground arith in
    let k : every is_plain s ≡ true = ground arith in rw (e, uncommented-plain s k) refl

no_line_end : (s : Text) → every is_plain s ≡ true → some_of is_line_end s ≡ false
unfolding some_of every
no_line_end [] h = refl
no_line_end (c ∷ s) h =
    let e : is_line_end c ≡ false = ground arith in
    let k : every is_plain s ≡ true = ground arith in rw (e, no_line_end s k) refl

pub trim_end-append : (s t : Text) → t ≢ [] → trim_end t ≡ t → trim_end (s ++ t) ≡ s ++ t
unfolding trim_end
trim_end-append [] t ne e = e
trim_end-append (c ∷ s) t ne e =
    let k = trim_end-append s t ne e in rw k (nonempty (s ++ t) (append_ne_nil s t ne))
  where
    append_ne_nil : (s t : Text) → t ≢ [] → (s ++ t) ≢ []
    append_ne_nil [] t ne = ne
    append_ne_nil (c ∷ s) t ne = λ e. cc

    nonempty :
        (u : Text)
        → u ≢ []
        → (elim u [ [] ↦ (if is_space c then [] else c ∷ []) | d ∷ v ↦ c ∷ d ∷ v ]) ≡ c ∷ u
    nonempty [] ne = absurd (ne refl)
    nonempty (d ∷ v) ne = refl

pub cut_at-append : (c : ℕ) (s t : Text) → free c s ≡ true → cut_at c (s ++ c ∷ t) ≡ (s, some t)
unfolding cut_at free every
cut_at-append c [] t h = rw ((==_iff c c).1 refl) refl
cut_at-append c (d ∷ s) t h = elim (Bool-cases (d == c)) [
  | inl e ↦ absurd (false_ne_true (rw (e, not) at h))
  | inr e ↦ rw (e, cut_at-append c s t (rw (e, not) at h)) refl
]

-- What a key of the format is: its first character, and that reading it gives it back.
unfoldable pub IsKey : Text → Type 0
IsKey [] = ⊥
IsKey (c ∷ k) =
    is_space c ≡ false
    × (c == b'[') ≡ false
    × every is_plain (c ∷ k) ≡ true
    × free b'=' (c ∷ k ++ 32 ∷ []) ≡ true
    × trim (c ∷ k ++ 32 ∷ []) ≡ c ∷ k

item_of_parts-item :
    (c : ℕ) (s key value v : Text)
    → trim (c ∷ s) ≡ key
    → trim value ≡ v
    → every is_plain v ≡ true
    → item_of_parts (c ∷ s, some value) ≡ item (lower key) v
unfolding item_of_parts item_or_other
item_of_parts-item c s key value v ek ev plain =
    ap₂ item_or_other ek ev ∙ rw (no_line_end v plain) refl

trimmed : (c : ℕ) (s : Text) → is_space c ≡ false → trim_end (c ∷ s) ≡ c ∷ s → trim (c ∷ s) ≡ c ∷ s
unfolding trim_start
trimmed c s e k = rw e k

line_of-text : (c : ℕ) (s : Text) → (c == b'[') ≡ false → line_of (c ∷ s) ≡ item_of (c ∷ s)
unfolding line_of
line_of-text c s e = rw e refl

read_line-of : (raw : Text) → trim (uncommented raw) ≡ raw → read_line raw ≡ line_of raw
unfolding read_line
read_line-of raw e = ap line_of e

item_of-of :
    (line : Text) {parts : Text × Option Text}
    → cut_at b'=' line ≡ parts
    → item_of line ≡ item_of_parts parts
unfolding item_of
item_of-of line e = ap item_of_parts e

spaces_around :
    (v : Text) → v ≢ [] → trim_end v ≡ v → trim_end (32 ∷ b'=' ∷ 32 ∷ v) ≡ 32 ∷ b'=' ∷ 32 ∷ v
spaces_around v ne e = trim_end-append (32 ∷ b'=' ∷ 32 ∷ []) v ne e

-- A line with a key and a value is read as that item.
pub read_line-key_line :
    (key v : Text)
    → IsKey key
    → IsWritable v
    → v ≢ []
    → read_line (key_line key v) ≡ item (lower key) v
unfolding IsKey IsWritable every trim_start is_space
read_line-key_line [] v h (vs, ve, vp) ne = absurd h
read_line-key_line (c ∷ k) v (space, bracket, plain, unequal, round) (vs, ve, vp) ne =
    let behind = 32 ∷ b'=' ∷ 32 ∷ v in
    let line = c ∷ k ++ behind in
    let whole : every is_plain line ≡ true =
      every-append is_plain (c ∷ k) behind ∙ rw (plain, vp) refl in
    let kept : trim (uncommented line) ≡ line =
      ap trim (uncommented-plain line whole)
      ∙ trimmed c (k ++ behind) space
          (trim_end-append (c ∷ k) behind (λ e. cc) (spaces_around v ne ve)) in
    let cut : cut_at b'=' line ≡ (c ∷ k ++ 32 ∷ [], some (32 ∷ v)) =
      ap (cut_at b'=') (sym (append_assoc (c ∷ k) (32 ∷ []) (b'=' ∷ 32 ∷ v)))
      ∙ cut_at-append b'=' (c ∷ k ++ 32 ∷ []) (32 ∷ v) unequal in
    read_line-of line kept
    ∙ line_of-text c (k ++ behind) bracket
    ∙ item_of-of line cut
    ∙ item_of_parts-item c (k ++ 32 ∷ []) (c ∷ k) (32 ∷ v) v round (ap trim_end vs ∙ ve) vp
