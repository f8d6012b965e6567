-- ===== src/Network/Guest/Frame.antt =====
-- What the operations on the guest network's sections leave as it is.
use freenetic.Base.{
  Bool, true, false, not, ◌&&◌, ◌||◌, ◌≡◌, ◌⊎◌, inl, inr, refl, sym, ◌∙◌, List, [], ◌∷◌, none, some,
  Text, text_eq, text_eq_iff, if◌then◌else◌, Bool-cases, arith,
}
use freenetic.Multiwan.Values.{Value, Section}
use freenetic.Network.Uci.{Uci, Laws, same_place}
use freenetic.Network.Guest.{is_managed, Fault, Step, returned, threw, state_of, set_all}

pub not-false : (b : Bool) → not b ≡ false → b ≡ true
not-false b e = ground arith

pub or_right : (a b : Bool) → (a || b) ≡ false → b ≡ false
or_right a b e = ground arith

pub Step-cases :
    {S : Type 0} (r : Step S)
    → ((s : S) × (r ≡ returned s)) ⊎ ((fault : Fault) × (s : S) × (r ≡ threw fault s))
Step-cases (returned s) = inl (s, refl)
Step-cases (threw fault s) = inr (fault, s, refl)

module _ {S : Type 0} (uci : Uci S) (laws : Laws uci) where
  -- Only the section of this name differs between the two states.
  unfoldable pub Only : Text → Text → S → S → Type 0
  Only c n s s' = (c' n' : Text) → same_place c n c' n' ≡ false → uci.get c' n' s' ≡ uci.get c' n' s

  -- Every section of the first state that is not marked as managed is in the second as it was.
  unfoldable pub Spares : S → S → Type 0
  Spares s s' =
      (c n : Text) (sec : Section)
      → uci.get c n s ≡ some sec
      → is_managed sec ≡ false
      → uci.get c n s' ≡ some sec

  pub Spares-refl : (s : S) → Spares s s
  unfolding Spares
  Spares-refl s c n sec h k = h

  pub Spares-trans : (s t u : S) → Spares s t → Spares t u → Spares s u
  unfolding Spares
  Spares-trans s t u f g c n sec h k = g c n sec (f c n sec h k) k

  pub set_all-Only :
      (c n : Text) (values : List (Text × Value)) (s : S) → Only c n s (set_all uci c n values s)
  unfolding set_all Only
  set_all-Only c n [] s c' n' h = refl
  set_all-Only c n ((key, value) ∷ values) s c' n' h =
      set_all-Only c n values (uci.set c n key value s) c' n' h
      ∙ laws.get-set_other c n key c' n' value s h

  pub Only-trans : (c n : Text) (s t u : S) → Only c n s t → Only c n t u → Only c n s u
  unfolding Only
  Only-trans c n s t u f g c' n' h = g c' n' h ∙ f c' n' h

  -- The place is free, or Freenetic's own.
  unfoldable pub Own : Text → Text → S → Type 0
  Own c n s = (sec : Section) → uci.get c n s ≡ some sec → is_managed sec ≡ true

  pub same_place-eq :
      (c n c' n' : Text) (s : S) → same_place c n c' n' ≡ true → uci.get c n s ≡ uci.get c' n' s
  unfolding same_place
  same_place-eq c n c' n' s h =
      let (p, q) = both (text_eq c c') (text_eq n n') h in
      rw ((text_eq_iff c c').0 p, (text_eq_iff n n').0 q) refl
    where
      both : (a b : Bool) → (a && b) ≡ true → (a ≡ true) × (b ≡ true)
      both a b e = ground arith

  pub Own-Spares : (c n : Text) (s s' : S) → Own c n s → Only c n s s' → Spares s s'
  unfolding Own Only Spares
  Own-Spares c n s s' own only c' n' sec h k = elim (Bool-cases (same_place c n c' n')) [
    | inr apart ↦ only c' n' apart ∙ h
    | inl same ↦
        let managed = own sec (same_place-eq c n c' n' s same ∙ h) in
        absurd (true_ne_false (is_managed sec) managed k)
  ]
    where
      true_ne_false : (b : Bool) → b ≡ true → b ≡ false → ⊥
      true_ne_false b e f = cc

  pub add-Only : (c t n : Text) (s : S) → Only c n s (uci.add c t n s)
  unfolding Only
  add-Only c t n s c' n' h = laws.get-add_other c t n c' n' s h

  free : (c n : Text) (s : S) → uci.get c n s ≡ none → Own c n s
  unfolding Own
  free c n s h sec e = cc

  pub owned :
      (c n : Text) (s : S) (sec : Section)
      → uci.get c n s ≡ some sec
      → is_managed sec ≡ true
      → Own c n s
  unfolding Own
  owned c n s sec h k sec' e =
      let same : some sec ≡ some sec' = sym h ∙ e in let eq : sec ≡ sec' = cc in rw (← eq) k

  -- Filling a section, new or owned, spares the others.
  pub set_all-Spares :
      (c n : Text) (values : List (Text × Value)) (s : S)
      → Own c n s
      → Spares s (set_all uci c n values s)
  set_all-Spares c n values s own = Own-Spares c n s _ own (set_all-Only c n values s)

  pub create-Spares :
      (c t n : Text) (values : List (Text × Value)) (s : S)
      → uci.get c n s ≡ none
      → Spares s (set_all uci c n values (uci.add c t n s))
  create-Spares c t n values s h = Own-Spares c n s _ (free c n s h) (
      Only-trans c n s (uci.add c t n s) _ (add-Only c t n s)
        (set_all-Only c n values (uci.add c t n s)))

  pub remove-Only : (c n : Text) (s : S) → Only c n s (uci.remove c n s)
  unfolding Only
  remove-Only c n s c' n' h = laws.get-remove_other c n c' n' s h

  pub set-Spares :
      (c n key : Text) (value : Value) (s : S) → Own c n s → Spares s (uci.set c n key value s)
  unfolding set_all
  set-Spares c n key value s own = set_all-Spares c n ((key, value) ∷ []) s own

  -- A guard: a call that throws changes nothing.
  pub guard-Spares :
      (b : Bool) (fault : Fault) (s : S) (r : Step S)
      → (b ≡ false → Spares s (state_of r))
      → Spares s (state_of (if b then threw fault s else r))
  guard-Spares true fault s r h = Spares-refl s
  guard-Spares false fault s r h = h refl
