-- ===== src/Qr/Blocks/Pick.antt =====
-- What `pickVersion` returns: the first version whose capacity holds the text, level M first.
use freenetic.Base.{
  ℕ, zero, suc, ◌+◌, ◌*◌, ◌≤◌, ◌<◌, ◌≡◌, ◌⊎◌, ◌↔◌, refl, sym, ◌∙◌, Bool, all_below, all_below_sound,
  inl, inr, true, none, some, leb, Bool-cases, arith, Option-cases,
}
use mathlib.Core.Path.{subst}
use freenetic.Qr.Blocks.{
  EcLevel, low, medium, Picked, capacity_bytes, count_bits, try_versions, pick_version,
}

-- Mode, length field, data and terminator fit the data code words of the version and level.
abbrev pub Fits : ℕ → ℕ → EcLevel → Type 0
Fits byte_length version ec_level =
    4 + count_bits version + 8 * byte_length + 4 ≤ capacity_bytes version ec_level * 8

-- The first of the versions `from` to `from + n - 1` that fits.
pub record IsFirst (byte_length from n : ℕ) (ec_level : EcLevel) (p : Picked) : Type 0 where
  pub level : p.ec_level ≡ ec_level
  pub lower : from ≤ p.version
  pub upper : p.version < from + n
  pub fits : Fits byte_length p.version ec_level
  pub first : (v : ℕ) → from ≤ v → v < p.version → ¬ Fits byte_length v ec_level

le-cases : (a b : ℕ) → a ≤ b → (a ≡ b) ⊎ (a + 1 ≤ b)
le-cases a b h = grind arith

le-cases' : (a b : ℕ) → (a ≤ b) ⊎ (b < a)
le-cases' a b = grind arith

try_versions-IsFirst :
    (ec_level : EcLevel) (byte_length n from : ℕ) (p : Picked)
    → try_versions ec_level byte_length n from ≡ some p
    → IsFirst byte_length from n ec_level p
unfolding try_versions
try_versions-IsFirst ec_level byte_length zero from p h = cc
try_versions-IsFirst ec_level byte_length (suc n) from p h =
    let header = 4 + count_bits from + 8 * byte_length + 4 in
    elim (Bool-cases (leb header (capacity_bytes from ec_level * 8))) [
      | inl fits ↦
          let h' : some (record { version = from; ec_level = ec_level }) ≡ some p =
            rw (fits, try_versions) at h in
          let e : from ≡ p.version = cc in
          record {
            level = cc;
            lower = omega arith;
            upper = omega arith;
            fits = subst (λ v. Fits byte_length v ec_level) e (ground arith);
            first = λ v a b f. omega arith;
          }
      | inr full ↦
          let r =
            try_versions-IsFirst ec_level byte_length n (from + 1) p
              (rw (full, try_versions) at h) in
          record {
            level = r.level;
            lower = omega (arith, r.lower);
            upper = omega (arith, r.upper);
            fits = r.fits;
            first = λ v a b f. elim (le-cases from v a) [
              | inl same ↦
                  let f' = subst (λ u. Fits byte_length u ec_level) (sym same) f in ground arith
              | inr above ↦ r.first v above b f
            ];
          }
    ]

try_versions-none :
    (ec_level : EcLevel) (byte_length n from : ℕ)
    → try_versions ec_level byte_length n from ≡ none
    → (v : ℕ) → from ≤ v
    → v < from + n
    → ¬ Fits byte_length v ec_level
unfolding try_versions
try_versions-none ec_level byte_length zero from h v p q f = omega arith
try_versions-none ec_level byte_length (suc n) from h v p q f =
    let header = 4 + count_bits from + 8 * byte_length + 4 in
    elim (Bool-cases (leb header (capacity_bytes from ec_level * 8))) [
      | inl fits ↦ cc (rw (fits, try_versions) at h)
      | inr full ↦ elim (le-cases from v p) [
        | inl same ↦ let f' = subst (λ u. Fits byte_length u ec_level) (sym same) f in ground arith
        | inr above ↦
            try_versions-none ec_level byte_length n (from + 1) (rw (full, try_versions) at h) v
              above (omega arith) f
      ]
    ]

-- `pickVersion` returns the lowest version of level M that holds the text; if no version of level M
-- does, the lowest of level L; and null exactly when no version of either level holds it.
pub pick_version-IsFirst :
    (byte_length : ℕ)
    → ((p : Picked) × (pick_version byte_length ≡ some p) × IsFirst byte_length 1 10 medium p)
      ⊎ (((v : ℕ) → 1 ≤ v → v < 11 → ¬ Fits byte_length v medium)
          × (((p : Picked) × (pick_version byte_length ≡ some p) × IsFirst byte_length 1 10 low p)
              ⊎ ((pick_version byte_length ≡ none)
                  × ((v : ℕ) → 1 ≤ v → v < 11 → ¬ Fits byte_length v low))))
unfolding pick_version
pick_version-IsFirst byte_length = elim (Option-cases (try_versions medium byte_length 10 1)) [
  | inr (p, e) ↦ inl (p, rw e, try_versions-IsFirst medium byte_length 10 1 p e)
  | inl none_m ↦ inr (
    (λ v a b. try_versions-none medium byte_length 10 1 none_m v a (omega arith)),
    elim (Option-cases (try_versions low byte_length 10 1)) [
      | inr (p, e) ↦ inl (p, rw (none_m, e), try_versions-IsFirst low byte_length 10 1 p e)
      | inl none_l ↦ inr (
        rw (none_m, none_l),
        (λ v a b. try_versions-none low byte_length 10 1 none_l v a (omega arith)),
      )
    ],
  )
]

room : EcLevel → ℕ → Bool
room ec_level v = leb (capacity_bytes v ec_level * 8) (4 + count_bits v + 8 * 272 + 3)

room_table : (ec_level : EcLevel) → all_below 11 (room ec_level) ≡ true
unfolding all_below room count_bits capacity_bytes
room_table low = refl
room_table medium = refl

too_long : (n v : ℕ) (ec_level : EcLevel) → v < 11 → Fits n v ec_level → n ≤ 271
unfolding room
too_long n v ec_level b f =
    let test = all_below_sound 11 (room ec_level) v (room_table ec_level) b in ground arith

Fits-low_ten : (n : ℕ) → n ≤ 271 → Fits n 10 low
unfolding count_bits capacity_bytes
Fits-low_ten n h = omega arith

-- The encoder refuses a text exactly when it has more than 271 bytes.
pub pick_version-none_iff :
    (byte_length : ℕ) → (pick_version byte_length ≡ none) ↔ (271 < byte_length)
pick_version-none_iff n = elim (pick_version-IsFirst n) [
  | inl (p, e, first) ↦
      let short = too_long n p.version medium (omega (arith, first.upper)) first.fits in
      ((λ h. cc), (λ h. absurd (omega arith)))
  | inr (no_m, inl (p, e, first)) ↦
      let short = too_long n p.version low (omega (arith, first.upper)) first.fits in
      ((λ h. cc), (λ h. absurd (omega arith)))
  | inr (no_m, inr (e, no_l)) ↦ (
    (λ _. elim (le-cases' n 271) [
      | inl short ↦ absurd (no_l 10 (omega arith) (omega arith) (Fits-low_ten n short))
      | inr long ↦ long
    ]),
    (λ _. e),
  )
]

-- A version that is picked holds the text.
pub pick_version-Fits :
    (byte_length : ℕ) (p : Picked)
    → pick_version byte_length ≡ some p
    → Fits byte_length p.version p.ec_level × (p.version < 11)
pick_version-Fits n p h = elim (pick_version-IsFirst n) [
  | inl (p', e, first) ↦ of_first medium p' e first
  | inr (_, inl (p', e, first)) ↦ of_first low p' e first
  | inr (_, inr (e, _)) ↦ absurd (none_ne_some (sym e ∙ h))
]
  where
    none_ne_some : none ≡ some p → ⊥
    none_ne_some e = cc

    of_first :
        (l : EcLevel) (p' : Picked)
        → pick_version n ≡ some p'
        → IsFirst n 1 10 l p'
        → Fits n p.version p.ec_level × (p.version < 11)
    of_first l p' e first =
        let same : p' ≡ p = cc in
        subst (λ (z : Picked). Fits n z.version z.ec_level × (z.version < 11)) same
          (
            subst (λ l'. Fits n p'.version l') (sym first.level) first.fits,
            omega (arith, first.upper),
          )
