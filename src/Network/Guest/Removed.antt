-- ===== src/Network/Guest/Removed.antt =====
-- The firewall after `removeGuestFirewallRules`, and after a second `ensureGuestFirewall`.
use freenetic.Base.{
  true, false, ◌≡◌, ◌≢◌, inl, inr, refl, sym, ap, ◌∙◌, List, [], ◌∷◌, none, some, Text, codes,
  text_eq, text_eq_iff, Bool-cases, Option-cases, All,
}
use freenetic.Multiwan.Values.{is_text, Value, text, Section, option}
use freenetic.Network.Uci.{Uci, Laws, same_place}
use freenetic.Network.Guest.{
  has, is_managed, Rule, dhcp_rule, dns_rule, guest_input_rules, returned, firewall, set_all,
  ensure_rule, ensure_rules, close_zone, ensure_guest_firewall, remove_rule, remove_rules,
  remove_guest_firewall_rules,
}
use freenetic.Network.Guest.Frame.{Only, set_all-Only}
use freenetic.Network.Guest.Secured.{
  Configured, Configured-Only, Closed, Secured, ensure_guest_firewall-Secured,
}

module _ {S : Type 0} (uci : Uci S) (laws : Laws uci) where
  -- The rule's section is absent, or is not Freenetic's.
  pub Released : Rule → S → Type 0
  Released rule s =
      (sec : Section) → uci.get firewall rule.section s ≡ some sec → is_managed sec ≡ false

  remove_rule-Released : (rule : Rule) (s : S) → Released rule (remove_rule uci rule s)
  unfolding remove_rule Released
  remove_rule-Released rule s sec h = elim (Option-cases (uci.get firewall rule.section s)) [
    | inl e ↦ absurd (none_ne_some (sym e ∙ (rw (e, remove_rule) at h)))
    | inr (existing, e) ↦ elim (Bool-cases (is_managed existing)) [
      | inl k ↦ absurd (
          none_ne_some
            (sym (laws.get-remove firewall rule.section s) ∙ (rw (e, remove_rule, k) at h)))
      | inr k ↦
          let same : some existing ≡ some sec = sym e ∙ (rw (e, remove_rule, k) at h) in
          let eq : existing ≡ sec = cc in rw (← eq) k
    ]
  ]
    where
      none_ne_some : {t : Section} → none ≡ some t → ⊥
      none_ne_some e = cc

  remove_rule-other :
      (rule : Rule) (n : Text) (s : S)
      → same_place firewall rule.section firewall n ≡ false
      → uci.get firewall n (remove_rule uci rule s) ≡ uci.get firewall n s
  unfolding remove_rule
  remove_rule-other rule n s apart = elim (Option-cases (uci.get firewall rule.section s)) [
    | inl e ↦ rw (e, remove_rule) refl
    | inr (existing, e) ↦
        rw (e, remove_rule)
          (elim (Bool-cases (is_managed existing)) [
            | inl k ↦ rw k (laws.get-remove_other firewall rule.section firewall n s apart)
            | inr k ↦ rw k refl
          ])
  ]

  -- After `removeGuestFirewallRules` no section under the name of a guest rule is Freenetic's; every
  -- other section of the firewall is as it was.
  pub remove_guest_firewall_rules-Released :
      (s : S)
      → All (λ rule. Released rule (remove_guest_firewall_rules uci s)) guest_input_rules
        × ((n : Text)
            → n ≢ dhcp_rule.section
            → n ≢ dns_rule.section
            → uci.get firewall n (remove_guest_firewall_rules uci s) ≡ uci.get firewall n s)
  unfolding remove_guest_firewall_rules remove_rules Released same_place
  remove_guest_firewall_rules-Released s =
      let t = remove_rule uci dhcp_rule s in
      (
        (
          (λ sec h.
              remove_rule-Released dhcp_rule s sec
                (sym (remove_rule-other dns_rule dhcp_rule.section t refl) ∙ h)),
          ((λ sec h. remove_rule-Released dns_rule t sec h), tt),
        ),
        (λ n p q.
            remove_rule-other dns_rule n t (apart dns_rule.section n q)
            ∙ remove_rule-other dhcp_rule n s (apart dhcp_rule.section n p)),
      )
    where
      apart : (m n : Text) → n ≢ m → same_place firewall m firewall n ≡ false
      apart m n ne = elim (Bool-cases (text_eq m n)) [
        | inl e ↦ absurd (ne (sym ((text_eq_iff m n).0 e)))
        | inr e ↦ e
      ]

  Managed : (rule : Rule) → Type 0
  Managed rule =
      (sec : Section)
      → All (λ (kv : Text × Value). option kv.0 sec ≡ kv.1) rule.values
      → is_managed sec ≡ true

  dhcp-Managed : Managed dhcp_rule
  unfolding Managed is_managed has
  dhcp-Managed sec (_, (_, (_, (_, (_, (_, (e, _))))))) = ap (λ z. is_text z (codes "1")) e

  dns-Managed : Managed dns_rule
  unfolding Managed is_managed has
  dns-Managed sec (_, (_, (_, (_, (_, (_, (e, _))))))) = ap (λ z. is_text z (codes "1")) e

  ensure_rule-again :
      (rule : Rule) (s : S)
      → Managed rule
      → Configured uci laws rule s
      → ensure_rule uci rule s ≡ returned (set_all uci firewall rule.section rule.values s)
  unfolding ensure_rule Managed Configured
  ensure_rule-again rule s m (sec, h, t, all) = rw (h, ensure_rule, t, m sec all) refl

  close_zone-Only : (s : S) → Only uci laws firewall (codes "guest") s (close_zone uci s)
  unfolding Only
  close_zone-Only s c n apart =
      laws.get-set_other firewall (codes "guest") (codes "input") c n (text (codes "REJECT")) s
        apart

  ensure_rules-cons :
      (rule : Rule) (rules : List Rule) (s t : S)
      → ensure_rule uci rule s ≡ returned t
      → ensure_rules uci (rule ∷ rules) s ≡ ensure_rules uci rules t
  unfolding ensure_rules
  ensure_rules-cons rule rules s t e = rw (e, ensure_rules) refl

  ensure_rules-again :
      (s : S)
      → Configured uci laws dhcp_rule s
      → Configured uci laws dns_rule s
      → (s' : S) × (ensure_rules uci guest_input_rules s ≡ returned s')
  unfolding ensure_rules same_place
  ensure_rules-again s dhcp dns =
      let t = set_all uci firewall dhcp_rule.section dhcp_rule.values s in
      let u = set_all uci firewall dns_rule.section dns_rule.values t in
      let dns' =
        Configured-Only uci laws dns_rule dhcp_rule.section s t refl
          (set_all-Only uci laws firewall dhcp_rule.section dhcp_rule.values s) dns in
      (
        u,
        ensure_rules-cons dhcp_rule (dns_rule ∷ []) s t
              (ensure_rule-again dhcp_rule s dhcp-Managed dhcp)
            ∙ ensure_rules-cons dns_rule [] t u (ensure_rule-again dns_rule t dns-Managed dns'),
      )

  -- Where `ensureGuestFirewall` has returned, a second call returns too.
  pub ensure_guest_firewall-Secured_again :
      (s s1 : S)
      → ensure_guest_firewall uci s ≡ returned s1
      → (s2 : S) × (ensure_guest_firewall uci s1 ≡ returned s2) × Secured uci laws s2
  unfolding ensure_guest_firewall Secured Closed same_place
  ensure_guest_firewall-Secured_again s s1 e =
      let ((zone, h, t, k, set), (dhcp, (dns, _))) =
        ensure_guest_firewall-Secured uci laws s s1 e in
      let (s2, done) =
        ensure_rules-again (close_zone uci s1)
          (Configured-Only uci laws dhcp_rule (codes "guest") s1 (close_zone uci s1) refl
            (close_zone-Only s1) dhcp)
          (Configured-Only uci laws dns_rule (codes "guest") s1 (close_zone uci s1) refl
            (close_zone-Only s1) dns) in
      let again : ensure_guest_firewall uci s1 ≡ returned s2 =
        rw (h, ensure_guest_firewall, t, k) done in
      (s2, again, ensure_guest_firewall-Secured uci laws s1 s2 again)
