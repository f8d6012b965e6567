-- ===== src/Network/Guest/Secured.antt =====
-- The firewall after `ensureGuestFirewall`.
use freenetic.Base.{
  Bool, true, false, not, ◌≡◌, inl, inr, refl, ap, ◌∙◌, List, [], ◌∷◌, some, Text, codes, text_eq,
  text_eq_refl, Option-cases, arith, All,
}
use freenetic.Multiwan.Values.{is_text, Value, text, Section, option}
use freenetic.Network.Uci.{Uci, Laws, same_place}
use freenetic.Network.Guest.{
  has, is_managed, Rule, dhcp_rule, dns_rule, guest_input_rules, Fault, no_zone, zone_not_managed,
  returned, threw, firewall, set_all, ensure_rule, ensure_rules, close_zone, ensure_guest_firewall,
}
use freenetic.Network.Guest.Frame.{Only, Step-cases}
use freenetic.Network.Guest.Values.{
  overlay, set_all-overlay, Went, created, updated, ensure_rule-Went, ensure_rule-Only, passed,
}

-- The assignments of a rule are not undone by later ones of the same rule, and keep the section's type.
pub Settled : Rule → Type 0
Settled rule =
    All (λ (kv : Text × Value). (old : Value) → overlay rule.values kv.0 old ≡ kv.1) rule.values
    × ((old : Value) → overlay rule.values (codes ".type") old ≡ old)

dhcp_rule-Settled : Settled dhcp_rule
unfolding Settled overlay
dhcp_rule-Settled = (
  (
    (λ _. refl),
    ((λ _. refl), ((λ _. refl), ((λ _. refl), ((λ _. refl), ((λ _. refl), ((λ _. refl), tt)))))),
  ),
  (λ _. refl),
)

dns_rule-Settled : Settled dns_rule
unfolding Settled overlay
dns_rule-Settled = (
  (
    (λ _. refl),
    ((λ _. refl), ((λ _. refl), ((λ _. refl), ((λ _. refl), ((λ _. refl), ((λ _. refl), tt)))))),
  ),
  (λ _. refl),
)

All-settled :
    (values : List (Text × Value)) (f : Text → Value → Value) (sec sec' : Section)
    → ((k : Text) → option k sec' ≡ f k (option k sec))
    → (todo : List (Text × Value))
    → All (λ (kv : Text × Value). (old : Value) → f kv.0 old ≡ kv.1) todo
    → All (λ (kv : Text × Value). option kv.0 sec' ≡ kv.1) todo
All-settled values f sec sec' h [] a = tt
All-settled values f sec sec' h (kv ∷ todo) (p, a) =
    (h kv.0 ∙ p (option kv.0 sec), All-settled values f sec sec' h todo a)

module _ {S : Type 0} (uci : Uci S) (laws : Laws uci) where
  -- The rule's section is there, is a rule and has every option of the rule.
  unfoldable pub Configured : Rule → S → Type 0
  Configured rule s =
      (sec : Section) × (uci.get firewall rule.section s ≡ some sec)
      × (has (codes ".type") (codes "rule") sec ≡ true)
      × All (λ (kv : Text × Value). option kv.0 sec ≡ kv.1) rule.values

  has_of_text : (k v : Text) (sec : Section) → option k sec ≡ text v → has k v sec ≡ true
  unfolding has
  has_of_text k v sec e = ap (λ z. is_text z v) e ∙ text_eq_refl v

  has_of_same :
      (k v : Text) (sec sec' : Section)
      → option k sec' ≡ option k sec
      → has k v sec ≡ true
      → has k v sec' ≡ true
  unfolding has
  has_of_same k v sec sec' e h = ap (λ z. is_text z v) e ∙ h

  filled-Configured :
      (rule : Rule) (s s' : S) (sec : Section)
      → Settled rule
      → uci.get firewall rule.section s ≡ some sec
      → has (codes ".type") (codes "rule") sec ≡ true
      → s' ≡ set_all uci firewall rule.section rule.values s
      → Configured rule s'
  unfolding Settled Configured
  filled-Configured rule s s' sec (settled, typed) h t e =
      let (sec', h', all) = set_all-overlay uci laws firewall rule.section rule.values s sec h in
      rw e (
        sec',
        h',
        has_of_same (codes ".type") (codes "rule") sec sec' (all (codes ".type") ∙ typed _) t,
        All-settled rule.values (overlay rule.values) sec sec' all rule.values settled,
      )

  Went-Configured :
      (rule : Rule) (s s' : S) → Settled rule → Went uci laws rule s s' → Configured rule s'
  Went-Configured rule s s' settled (created h e) =
      let (sec, h', t) = laws.get-add firewall (codes "rule") rule.section s in
      filled-Configured rule (uci.add firewall (codes "rule") rule.section s) s' sec settled h'
        (has_of_text (codes ".type") (codes "rule") sec t) e
  Went-Configured rule s s' settled (updated existing h t k e) =
      filled-Configured rule s s' existing settled h t e

  pub Configured-Only :
      (rule : Rule) (n : Text) (s s' : S)
      → same_place firewall n firewall rule.section ≡ false
      → Only uci laws firewall n s s'
      → Configured rule s
      → Configured rule s'
  unfolding Configured Only
  Configured-Only rule n s s' apart only (sec, h, t, all) =
      (sec, only firewall rule.section apart ∙ h, t, all)

  -- The zone is Freenetic's, and rejects what its clients send to the router.
  unfoldable pub Closed : S → Type 0
  Closed s =
      (zone : Section) × (uci.get firewall (codes "guest") s ≡ some zone)
      × (has (codes ".type") (codes "zone") zone ≡ true)
      × (is_managed zone ≡ true)
      × (option (codes "input") zone ≡ text (codes "REJECT"))

  Closed-Only :
      (n : Text) (s s' : S)
      → same_place firewall n firewall (codes "guest") ≡ false
      → Only uci laws firewall n s s'
      → Closed s
      → Closed s'
  unfolding Closed Only
  Closed-Only n s s' apart only (zone, h, t, k, set) =
      (zone, only firewall (codes "guest") apart ∙ h, t, k, set)

  pub close_zone-Closed :
      (s : S) (zone : Section)
      → uci.get firewall (codes "guest") s ≡ some zone
      → has (codes ".type") (codes "zone") zone ≡ true
      → is_managed zone ≡ true
      → Closed (close_zone uci s)
  unfolding Closed is_managed text_eq
  close_zone-Closed s zone h t k =
      let (zone', h', set, kept) =
        laws.get-set firewall (codes "guest") (codes "input") (text (codes "REJECT")) s zone h in
      (
        zone',
        h',
        has_of_same (codes ".type") (codes "zone") zone zone' (kept (codes ".type") refl) t,
        has_of_same (codes "freenetic_managed") (codes "1") zone zone'
            (kept (codes "freenetic_managed") refl) k,
        set,
      )

  ensure_rules-returned :
      (rule : Rule) (rules : List Rule) (s s' : S)
      → ensure_rules uci (rule ∷ rules) s ≡ returned s'
      → (t : S) × (ensure_rule uci rule s ≡ returned t) × (ensure_rules uci rules t ≡ returned s')
  unfolding ensure_rules
  ensure_rules-returned rule rules s s' e = elim (Step-cases (ensure_rule uci rule s)) [
    | inl (t, h) ↦ (t, h, rw (h, ensure_rules) at e)
    | inr (fault, t, h) ↦
        let bad : threw fault t ≡ returned s' = rw (h, ensure_rules) at e in absurd (apart bad)
  ]
    where
      apart : {fault : Fault} {t : S} → threw fault t ≡ returned s' → ⊥
      apart e = cc

  unfoldable pub Secured : S → Type 0
  Secured s = Closed s × All (λ rule. Configured rule s) guest_input_rules

  ensure_rules-Secured :
      (s s' : S) → Closed s → ensure_rules uci guest_input_rules s ≡ returned s' → Secured s'
  unfolding Secured same_place ensure_rules
  ensure_rules-Secured s s' closed e =
      let (t, e1, rest) = ensure_rules-returned dhcp_rule (dns_rule ∷ []) s s' e in
      let (u, e2, done) = ensure_rules-returned dns_rule [] t s' rest in
      let went1 = ensure_rule-Went uci laws dhcp_rule s t e1 in
      let went2 = ensure_rule-Went uci laws dns_rule t u e2 in
      let only1 = ensure_rule-Only uci laws dhcp_rule s t went1 in
      let only2 = ensure_rule-Only uci laws dns_rule t u went2 in
      let dhcp =
        Configured-Only dhcp_rule dns_rule.section t u refl only2
          (Went-Configured dhcp_rule s t dhcp_rule-Settled went1) in
      let dns = Went-Configured dns_rule t u dns_rule-Settled went2 in
      let zone =
        Closed-Only dns_rule.section t u refl only2
          (Closed-Only dhcp_rule.section s t refl only1 closed) in
      let same : u ≡ s' = last u s' done in rw (← same) (zone, (dhcp, (dns, tt)))
    where
      last : (u v : S) → returned u ≡ returned v → u ≡ v
      last u v e = cc

  -- Where `ensureGuestFirewall` returns, the guest zone is Freenetic's and rejects input, and the rules
  -- for DHCP and DNS are there, each with every option that the table gives it.
  pub ensure_guest_firewall-Secured :
      (s s' : S) → ensure_guest_firewall uci s ≡ returned s' → Secured s'
  unfolding ensure_guest_firewall
  ensure_guest_firewall-Secured s s' e = elim (Option-cases (uci.get firewall (codes "guest") s)) [
    | inl h ↦ absurd (threw_ne (rw (h, ensure_guest_firewall) at e))
    | inr (zone, h) ↦
        let (t, e1) =
          passed uci laws (not (has (codes ".type") (codes "zone") zone)) no_zone s _ s'
            (rw (h, ensure_guest_firewall) at e) in
        let (k, e2) = passed uci laws (not (is_managed zone)) zone_not_managed s _ s' e1 in
        ensure_rules-Secured (close_zone uci s) s'
          (close_zone-Closed s zone h (not-false _ t) (not-false _ k)) e2
  ]
    where
      threw_ne : {fault : Fault} → threw fault s ≡ returned s' → ⊥
      threw_ne e = cc

      not-false : (b : Bool) → not b ≡ false → b ≡ true
      not-false b e = ground arith
