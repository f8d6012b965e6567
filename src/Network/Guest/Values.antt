-- ===== src/Network/Guest/Values.antt =====
-- What a section holds after its options are set, and how a call of `ensureRule` that returns went.
use freenetic.Base.{
  Bool, true, false, not, ◌≡◌, inl, inr, refl, sym, ap, ◌∙◌, List, [], ◌∷◌, none, some, Text, codes,
  text_eq, text_eq_iff, if◌then◌else◌, Bool-cases, Option-cases, arith,
}
use freenetic.Multiwan.Values.{Value, Section, option}
use freenetic.Network.Uci.{Uci, Laws}
use freenetic.Network.Guest.{
  has, is_managed, Rule, Fault, not_a_rule, rule_not_managed, Step, returned, threw, firewall,
  set_all, ensure_rule,
}
use freenetic.Network.Guest.Frame.{Only, set_all-Only, add-Only, Only-trans}

-- The value of an option after a list of assignments.
unfoldable pub overlay : List (Text × Value) → Text → Value → Value
unfolding text_eq
overlay [] k old = old
overlay ((key, value) ∷ values) k old = overlay values k (if text_eq key k then value else old)

module _ {S : Type 0} (uci : Uci S) (laws : Laws uci) where
  pub set_all-overlay :
      (c n : Text) (values : List (Text × Value)) (s : S) (sec : Section)
      → uci.get c n s ≡ some sec
      → (sec' : Section) × (uci.get c n (set_all uci c n values s) ≡ some sec')
        × ((k : Text) → option k sec' ≡ overlay values k (option k sec))
  unfolding set_all overlay
  set_all-overlay c n [] s sec h = (sec, h, (λ k. refl))
  set_all-overlay c n ((key, value) ∷ values) s sec h =
      let (sec1, h1, set, kept) = laws.get-set c n key value s sec h in
      let (sec', h', rest) = set_all-overlay c n values (uci.set c n key value s) sec1 h1 in
      (
        sec',
        h',
        (λ k.
            rest k
            ∙ ap (overlay values k) (elim (Bool-cases (text_eq key k)) [
              | inl same ↦
                  rw same (ap (λ z. option z sec1) (sym ((text_eq_iff key k).0 same)) ∙ set)
              | inr other ↦ rw other (kept k other)
            ])),
      )

  -- The two ways in which a call returns.
  pub data Went (rule : Rule) (s s' : S) : Type 0 where
    created :
        uci.get firewall rule.section s ≡ none
        → s'
          ≡ set_all uci firewall rule.section rule.values
              (uci.add firewall (codes "rule") rule.section s)
        → Went rule s s'
    updated :
        (existing : Section)
        → uci.get firewall rule.section s ≡ some existing
        → has (codes ".type") (codes "rule") existing ≡ true
        → is_managed existing ≡ true
        → s' ≡ set_all uci firewall rule.section rule.values s
        → Went rule s s'

  pub passed :
      (b : Bool) (fault : Fault) (s : S) (r : Step S) (s' : S)
      → (if b then threw fault s else r) ≡ returned s'
      → (b ≡ false) × (r ≡ returned s')
  passed true fault s r s' e = absurd (threw_ne_returned e)
    where
      threw_ne_returned : threw fault s ≡ returned s' → ⊥
      threw_ne_returned e = cc
  passed false fault s r s' e = (refl, e)

  pub ensure_rule-Went :
      (rule : Rule) (s s' : S) → ensure_rule uci rule s ≡ returned s' → Went rule s s'
  unfolding ensure_rule
  ensure_rule-Went rule s s' e = elim (Option-cases (uci.get firewall rule.section s)) [
    | inl h ↦ created h (from_returned (rw (h, ensure_rule) at e))
    | inr (existing, h) ↦
        let (t, e1) =
          passed (not (has (codes ".type") (codes "rule") existing)) not_a_rule s _ s'
            (rw (h, ensure_rule) at e) in
        let (k, e2) = passed (not (is_managed existing)) rule_not_managed s _ s' e1 in
        updated existing h (not-false _ t) (not-false _ k) (from_returned e2)
  ]
    where
      from_returned : {t : S} → returned t ≡ returned s' → s' ≡ t
      from_returned e = cc

      not-false : (b : Bool) → not b ≡ false → b ≡ true
      not-false b e = ground arith

  pub ensure_rule-Only :
      (rule : Rule) (s s' : S) → Went rule s s' → Only uci laws firewall rule.section s s'
  ensure_rule-Only rule s s' (created h e) = rw e (
      Only-trans uci laws firewall rule.section s (uci.add firewall (codes "rule") rule.section s) _
        (add-Only uci laws firewall (codes "rule") rule.section s)
        (set_all-Only uci laws firewall rule.section rule.values
          (uci.add firewall (codes "rule") rule.section s)))
  ensure_rule-Only rule s s' (updated existing h t k e) =
      rw e (set_all-Only uci laws firewall rule.section rule.values s)
