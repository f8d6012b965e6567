-- ===== src/Network/Guest/Adopt/Marks.antt =====
-- What the adoption of old sections changes.
use freenetic.Base.{
  Bool, true, false, ◌≡◌, inl, inr, refl, sym, ap, ◌∙◌, List, [], ◌∷◌, some, Text, codes, text_eq,
  if◌then◌else◌, Bool-cases, Option-cases,
}
use freenetic.Multiwan.Values.{is_text, text, Section, option, string_of}
use freenetic.Network.Uci.{Uci, Laws, same_place}
use freenetic.Network.Guest.{has, is_managed, Rule, guest_input_rules, firewall, wireless}
use freenetic.Network.Guest.Frame.{same_place-eq}
use freenetic.Network.Guest.Adopt.{
  is_legacy_rule, mark, adopt_legacy_section, is_legacy_wifi, is_legacy_bridge, mark_each,
  adopt_rules, adopt_named, adopt_legacy_guest,
}

module _ {S : Type 0} (uci : Uci S) (laws : Laws uci) where
  -- Every section of the first state is in the second with the same options but for the mark; the mark
  -- is as it was, or it is set where it was not.
  unfoldable pub Marks : S → S → Type 0
  Marks s s' =
      (c n : Text) (sec : Section)
      → uci.get c n s ≡ some sec
      → (sec' : Section) × (uci.get c n s' ≡ some sec')
        × ((k : Text)
            → text_eq (codes "freenetic_managed") k ≡ false
            → option k sec' ≡ option k sec)
        × (is_managed sec ≡ true → is_managed sec' ≡ true)

  Marks-refl : (s : S) → Marks s s
  unfolding Marks
  Marks-refl s c n sec h = (sec, h, (λ k e. refl), (λ m. m))

  Marks-trans : (s t u : S) → Marks s t → Marks t u → Marks s u
  unfolding Marks
  Marks-trans s t u f g c n sec h =
      let (sec1, h1, same1, m1) = f c n sec h in
      let (sec2, h2, same2, m2) = g c n sec1 h1 in
      (sec2, h2, (λ k e. same2 k e ∙ same1 k e), (λ m. m2 (m1 m)))

  mark-Marks : (c n : Text) (s : S) → Marks s (mark uci c n s)
  unfolding Marks is_managed has text_eq
  mark-Marks c n s c' n' sec h = elim (Bool-cases (same_place c n c' n')) [
    | inr apart ↦ (
      sec,
      laws.get-set_other c n (codes "freenetic_managed") c' n' (text (codes "1")) s apart ∙ h,
      (λ k e. refl),
      (λ m. m),
    )
    | inl same ↦
        let here = same_place-eq uci laws c n c' n' s same ∙ h in
        let (sec', h', set, kept) =
          laws.get-set c n (codes "freenetic_managed") (text (codes "1")) s sec here in
        (
          sec',
          sym (same_place-eq uci laws c n c' n' (mark uci c n s) same) ∙ h',
          kept,
          (λ _. ap (λ z. is_text z (codes "1")) set),
        )
  ]

  if-Marks : (b : Bool) (s t : S) → Marks s t → Marks s (if b then t else s)
  if-Marks true s t h = h
  if-Marks false s t h = Marks-refl s

  adopt_legacy_section-Marks :
      (c n t : Text) (p : Section → Bool) (s : S) → Marks s (adopt_legacy_section uci c n t p s)
  unfolding adopt_legacy_section
  adopt_legacy_section-Marks c n t p s = elim (Option-cases (uci.get c n s)) [
    | inl h ↦ rw (h, adopt_legacy_section) (Marks-refl s)
    | inr (sec, h) ↦ rw (h, adopt_legacy_section) (if-Marks _ s _ (mark-Marks c n s))
  ]

  mark_each-Marks :
      (c : Text) (test : S → Section → Bool) (sections : List Section) (s : S)
      → Marks s (mark_each uci c test sections s)
  unfolding mark_each
  mark_each-Marks c test [] s = Marks-refl s
  mark_each-Marks c test (section ∷ sections) s =
      let name = string_of (option (codes ".name") section) in
      Marks-trans s (if test s section then mark uci c name s else s) _
        (if-Marks (test s section) s (mark uci c name s) (mark-Marks c name s))
        (mark_each-Marks c test sections _)

  adopt_rules-Marks : (rules : List Rule) (s : S) → Marks s (adopt_rules uci rules s)
  unfolding adopt_rules
  adopt_rules-Marks [] s = Marks-refl s
  adopt_rules-Marks (rule ∷ rules) s =
      Marks-trans s _ _
        (adopt_legacy_section-Marks firewall rule.section (codes "rule") (is_legacy_rule rule) s)
        (adopt_rules-Marks rules _)

  adopt_named-Marks : (s : S) → Marks s (adopt_named uci s)
  unfolding adopt_named
  adopt_named-Marks s =
      Marks-trans s _ _
        (Marks-trans s _ _
          (Marks-trans s _ _ (adopt_legacy_section-Marks _ _ _ _ s)
            (adopt_legacy_section-Marks _ _ _ _ _))
          (adopt_legacy_section-Marks _ _ _ _ _))
        (adopt_legacy_section-Marks _ _ _ _ _)

  -- `adoptLegacyGuest` removes no section and changes no option but the mark, which it never takes away.
  pub adopt_legacy_guest-Marks : (s : S) → Marks s (adopt_legacy_guest uci s)
  unfolding adopt_legacy_guest
  adopt_legacy_guest-Marks s =
      let radios = uci.sections wireless (codes "wifi-iface") s in
      let s1 = mark_each uci wireless (is_legacy_wifi uci) radios s in
      let bridges = uci.sections (codes "network") (codes "device") s1 in
      let s2 = mark_each uci (codes "network") (λ _ x. is_legacy_bridge uci x) bridges s1 in
      let wifi = mark_each-Marks wireless (is_legacy_wifi uci) radios s in
      let bridge = mark_each-Marks (codes "network") (λ _ x. is_legacy_bridge uci x) bridges s1 in
      let named = adopt_named-Marks s2 in
      Marks-trans s s2 _ (Marks-trans s s1 s2 wifi bridge) (
        Marks-trans s2 (adopt_named uci s2) _ named
          (adopt_rules-Marks guest_input_rules (adopt_named uci s2)))
