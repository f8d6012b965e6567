-- ===== src/Network/Ipv6/Round.antt =====
-- `parseIpv6Words` reads what `formatIpv6Words` writes.
use freenetic.Base.{
  ℕ, ◌+◌, ◌-◌, ◌<◌, ◌≤◌, ◌^◌, true, false, List, [], ◌∷◌, ◌++◌, map, none, some, ◌≡◌, ◌≢◌, refl,
  sym, ap, ◌∙◌, arith, ltb, leb_of_le, leb_of_lt, append-nil, All-take, All-drop, take-map,
  drop-map, le_of_ltb, ◌==◌, ==_iff, if-intro, Text, every, every-append, hex_value, to_hex, All,
  length, take, drop, replicate, length-append, length-replicate, length-map, hex_value-to_hex,
  length-to_hex, to_hex-is_hex, to_hex-ne_nil,
}
use freenetic.Network.Ipv6.{
  join_colons, is_group, parse_half, parse_halves, join_halves, parse_ipv6_words, format_ipv6_words,
  best_run, Run,
}
use freenetic.Network.Ipv6.Runs.{IsRun, best_run-IsRun}
use freenetic.Network.Ipv6.Colons.{
  IsGroups, cut_double-append, count_doubles-append, cut_double-tidy, count_doubles-tidy,
  tidy-join_colons, join_colons-joined,
}
use freenetic.Network.Ipv6.Read.{
  in_address, joined_ne_nil, parse_half-join_colons, join_colons-in_address,
  parse_ipv6_words_halves,
}

abbrev pub IsWord : ℕ → Type 0
IsWord w = w < 2 ^ 16

groups_of : (words : List ℕ) → All IsWord words → IsGroups (map to_hex words)
unfolding is_group
groups_of [] h = tt
groups_of (w ∷ ws) (h, k) = (
  rw
      (
        leb_of_le 1 (length (to_hex w)) (positive (to_hex w) (to_hex-ne_nil w)),
        leb_of_le (length (to_hex w)) 4 (length-to_hex w 3 h),
        to_hex-is_hex w,
      )
      refl,
  groups_of ws k,
)
  where
    positive : (s : Text) → s ≢ [] → 1 ≤ length s
    positive [] ne = absurd (ne refl)
    positive (c ∷ s) ne = omega arith

values_of : (words : List ℕ) → map (hex_value 0) (map to_hex words) ≡ words
values_of [] = refl
values_of (w ∷ ws) = rw (hex_value-to_hex w, values_of ws) refl

parse_half-words :
    (words : List ℕ) → All IsWord words → parse_half (join_colons (map to_hex words)) ≡ some words
parse_half-words words h =
    parse_half-join_colons (map to_hex words) (groups_of words h) ∙ ap some (values_of words)

-- The text without a double colon, and the one with it.
format_cases :
    (words : List ℕ) (best : Run)
    → (ltb best.size 2 ≡ true → parse_ipv6_words (join_colons (map to_hex words)) ≡ some words)
    → (ltb best.size 2 ≡ false
        → parse_ipv6_words (
            join_colons (take best.start (map to_hex words))
            ++ (b':' ∷ b':' ∷ join_colons (drop (best.start + best.size) (map to_hex words))))
          ≡ some words)
    → best_run (length words) 0 words (record { start = 0; size = 0 }) ≡ best
    → parse_ipv6_words (format_ipv6_words words) ≡ some words
unfolding format_ipv6_words
format_cases words best short long e =
    rw (e, format_ipv6_words)
      (if-intro (λ t. parse_ipv6_words t ≡ some words) (ltb best.size 2) short long)

join_colons-ne_nil : (ps : List Text) → IsGroups ps → 1 ≤ length ps → join_colons ps ≢ []
join_colons-ne_nil [] h l = absurd (omega arith)
join_colons-ne_nil (p ∷ ps) h l = rw (join_colons-joined p ps) (joined_ne_nil p ps h)

parse_halves_single :
    (s : Text) (ws : List ℕ)
    → parse_half s ≡ some ws
    → parse_halves (s, none) ≡ join_halves ws [] false
unfolding parse_halves
parse_halves_single s ws e = rw (e, parse_halves) refl

parse_halves_double :
    (s t : Text) (ls rs : List ℕ)
    → parse_half s ≡ some ls
    → parse_half t ≡ some rs
    → parse_halves (s, some t) ≡ join_halves ls rs true
unfolding parse_halves
parse_halves_double s t ls rs e f = rw (e, parse_halves, f) refl

join_halves_single : (words : List ℕ) → length words ≡ 8 → join_halves words [] false ≡ some words
unfolding join_halves
join_halves_single words eight =
    let size : (length words + 0 == 8) ≡ true =
      (==_iff (length words + 0) 8).1 (omega (arith, eight)) in
    rw size (ap some (append-nil words))

join_halves_double :
    (ls rs : List ℕ)
    → length ls + length rs < 8
    → join_halves ls rs true ≡ some (ls ++ (replicate (8 - (length ls + length rs)) 0 ++ rs))
unfolding join_halves
join_halves_double ls rs few = rw (leb_of_lt 8 (length ls + length rs) few) refl

parse_short :
    (words : List ℕ)
    → All IsWord words
    → length words ≡ 8
    → parse_ipv6_words (join_colons (map to_hex words)) ≡ some words
parse_short words h eight =
    let ps = map to_hex words in
    let gs = groups_of words h in
    let t = tidy-join_colons ps gs in
    parse_ipv6_words_halves (join_colons ps)
      (join_colons-ne_nil ps gs (omega (arith, length-map words to_hex, eight)))
      (leb_of_le _ _ (omega (arith, count_doubles-tidy false (join_colons ps) t)))
      (join_colons-in_address ps gs)
    ∙ ap parse_halves (cut_double-tidy false (join_colons ps) t)
    ∙ parse_halves_single _ words (parse_half-words words h)
    ∙ join_halves_single words eight

parse_long :
    (left right : List ℕ)
    → All IsWord left
    → All IsWord right
    → length left + length right < 8
    → parse_ipv6_words
        (join_colons (map to_hex left) ++ (b':' ∷ b':' ∷ join_colons (map to_hex right)))
      ≡ some (left ++ (replicate (8 - (length left + length right)) 0 ++ right))
unfolding every
parse_long left right hl hr few =
    let l = join_colons (map to_hex left) in
    let r = join_colons (map to_hex right) in
    let gl = groups_of left hl in
    let gr = groups_of right hr in
    let tl = tidy-join_colons (map to_hex left) gl in
    let tr = tidy-join_colons (map to_hex right) gr in
    let whole : every in_address (l ++ (b':' ∷ b':' ∷ r)) ≡ true =
      every-append in_address l (b':' ∷ b':' ∷ r)
      ∙ rw (join_colons-in_address _ gl, join_colons-in_address _ gr, every) refl in
    parse_ipv6_words_halves (l ++ (b':' ∷ b':' ∷ r)) (append_cons_ne_nil l b':' (b':' ∷ r))
      (leb_of_le _ _
        (omega (arith, count_doubles-append false l r tl, count_doubles-tidy false r tr)))
      whole
    ∙ ap parse_halves (cut_double-append false l r tl)
    ∙ parse_halves_double l r left right (parse_half-words left hl) (parse_half-words right hr)
    ∙ join_halves_double left right few
  where
    append_cons_ne_nil : (s : Text) (c : ℕ) (t : Text) → (s ++ c ∷ t) ≢ []
    append_cons_ne_nil [] c t e = cc
    append_cons_ne_nil (d ∷ s) c t e = cc

-- Eight words below 2 ^ 16, written by formatIpv6Words, are what parseIpv6Words reads.
pub parse_ipv6_words-format_ipv6_words :
    (words : List ℕ)
    → length words ≡ 8
    → All IsWord words
    → parse_ipv6_words (format_ipv6_words words) ≡ some words
parse_ipv6_words-format_ipv6_words words eight h =
    let best = best_run (length words) 0 words (record { start = 0; size = 0 }) in
    let left = take best.start words in
    let right = drop (best.start + best.size) words in
    let kept : left ++ (replicate best.size 0 ++ right) ≡ words =
      unfold IsRun in best_run-IsRun words in
    let size : length left + (best.size + length right) ≡ 8 = omega (
      arith,
      sym (length-append left (replicate best.size 0 ++ right)),
      sym (length-append (replicate best.size 0) right),
      length-replicate {A = ℕ} best.size 0,
      ap length kept,
      eight,
    ) in
    format_cases words best (λ _. parse_short words h eight)
      (λ big.
        let few : length left + length right < 8 = omega (arith, size, le_of_ltb best.size 2 big) in
        let gap : 8 - (length left + length right) ≡ best.size = omega (arith, size) in
        let read =
          parse_long left right (All-take IsWord best.start words h)
            (All-drop IsWord (best.start + best.size) words h) few in
        rw (take-map best.start words to_hex, drop-map (best.start + best.size) words to_hex)
          (read ∙ rw gap (ap some kept)))
      refl
