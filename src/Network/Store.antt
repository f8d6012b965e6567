-- ===== src/Network/Store.antt =====
-- A store of sections in memory with the documented behaviour of LuCI's `uci` module.
use freenetic.Base.{
  Bool, true, false, ◌&&◌, ◌≡◌, inl, inr, refl, ap, ◌∙◌, List, [], ◌∷◌, Option, none, some, Text,
  codes, text_eq, text_eq_iff, text_eq_refl, if◌then◌else◌, Bool-cases, arith,
}
use freenetic.Multiwan.Values.{Value, text, Section, option}
use freenetic.Network.Uci.{Uci, Laws, same_place}

abbrev pub Store : Type 0
Store = List (Text × Text × Section)

unfoldable pub lookup : Text → Text → Store → Option Section
unfolding same_place
lookup c n [] = none
lookup c n ((a, b, sec) ∷ s) = if same_place a b c n then some sec else lookup c n s

unfoldable pub assign : Text → Text → Text → Value → Store → Store
unfolding same_place
assign c n k v [] = []
assign c n k v ((a, b, sec) ∷ s) =
    (a, b, if same_place a b c n then (k, v) ∷ sec else sec) ∷ assign c n k v s

unfoldable pub delete : Text → Text → Store → Store
unfolding same_place
delete c n [] = []
delete c n ((a, b, sec) ∷ s) =
    if same_place a b c n then delete c n s else (a, b, sec) ∷ delete c n s

abbrev has_type : Text → Value → Bool
has_type t (text u) = text_eq t u
has_type t _ = false

unfoldable pub listed : Text → Text → Store → List Section
unfolding option
listed c t [] = []
listed c t ((a, b, sec) ∷ s) =
    if text_eq a c && has_type t (option (codes ".type") sec)
    then sec ∷ listed c t s
    else listed c t s

abbrev pub store : Uci Store
store = record {
  get = lookup;
  sections = listed;
  add = λ c t n s. (c, n, (codes ".type", text t) ∷ (codes ".name", text n) ∷ []) ∷ s;
  set = assign;
  remove = delete;
}

same_place_refl : (c n : Text) → same_place c n c n ≡ true
unfolding same_place
same_place_refl c n = rw (text_eq_refl c, text_eq_refl n) refl

both : (a b : Bool) → (a && b) ≡ true → (a ≡ true) × (b ≡ true)
both a b e = ground arith

-- Two names of one place name the same places.
same_place-same :
    (a b c n c' n' : Text) → same_place a b c n ≡ true → same_place a b c' n' ≡ same_place c n c' n'
unfolding same_place
same_place-same a b c n c' n' h =
    let (p, q) = both (text_eq a c) (text_eq b n) h in
    rw ((text_eq_iff a c).0 p, (text_eq_iff b n).0 q) refl

option-head : (k : Text) (v : Value) (sec : Section) → option k ((k, v) ∷ sec) ≡ v
unfolding option
option-head k v sec = rw (text_eq_refl k) refl

option-tail :
    (k k' : Text) (v : Value) (sec : Section)
    → text_eq k k' ≡ false
    → option k' ((k, v) ∷ sec) ≡ option k' sec
unfolding option
option-tail k k' v sec h = rw h refl

lookup-assign :
    (c n k : Text) (v : Value) (s : Store) (sec : Section)
    → lookup c n s ≡ some sec
    → lookup c n (assign c n k v s) ≡ some ((k, v) ∷ sec)
unfolding lookup assign
lookup-assign c n k v [] sec h = cc
lookup-assign c n k v ((a, b, sec') ∷ s) sec h = elim (Bool-cases (same_place a b c n)) [
  | inl e ↦
      let h' : some sec' ≡ some sec = rw (e, lookup) at h in
      let same : sec' ≡ sec = cc in rw e (ap (λ t. some ((k, v) ∷ t)) same)
  | inr e ↦ rw e (lookup-assign c n k v s sec (rw (e, lookup) at h))
]

lookup-assign_other :
    (c n k c' n' : Text) (v : Value) (s : Store)
    → same_place c n c' n' ≡ false
    → lookup c' n' (assign c n k v s) ≡ lookup c' n' s
unfolding lookup assign
lookup-assign_other c n k c' n' v [] h = refl
lookup-assign_other c n k c' n' v ((a, b, sec) ∷ s) h = elim (Bool-cases (same_place a b c n)) [
  | inl e ↦ rw (same_place-same a b c n c' n' e ∙ h) (lookup-assign_other c n k c' n' v s h)
  | inr e ↦ rw (e, lookup-assign_other c n k c' n' v s h) refl
]

lookup-delete : (c n : Text) (s : Store) → lookup c n (delete c n s) ≡ none
unfolding lookup delete
lookup-delete c n [] = refl
lookup-delete c n ((a, b, sec) ∷ s) = elim (Bool-cases (same_place a b c n)) [
  | inl e ↦ rw e (lookup-delete c n s)
  | inr e ↦ rw (e, lookup, e) (lookup-delete c n s)
]

lookup-delete_other :
    (c n c' n' : Text) (s : Store)
    → same_place c n c' n' ≡ false
    → lookup c' n' (delete c n s) ≡ lookup c' n' s
unfolding lookup delete
lookup-delete_other c n c' n' [] h = refl
lookup-delete_other c n c' n' ((a, b, sec) ∷ s) h = elim (Bool-cases (same_place a b c n)) [
  | inl e ↦ rw (e, same_place-same a b c n c' n' e ∙ h) (lookup-delete_other c n c' n' s h)
  | inr e ↦ rw (e, lookup, lookup-delete_other c n c' n' s h) refl
]

abbrev added : Text → Text → Section
added t n = (codes ".type", text t) ∷ (codes ".name", text n) ∷ []

pub store-Laws : Laws store
unfolding lookup
store-Laws = record {
  get-add =
      λ c t n s. (added t n, rw (same_place_refl c n) refl, option-head (codes ".type") (text t) _);
  get-add_other = λ c t n c' n' s h. rw h refl;
  get-set = λ c n k v s sec h.
      (_, lookup-assign c n k v s sec h, option-head k v sec, (λ k' e. option-tail k k' v sec e));
  get-set_other = λ c n k c' n' v s h. lookup-assign_other c n k c' n' v s h;
  get-remove = λ c n s. lookup-delete c n s;
  get-remove_other = λ c n c' n' s h. lookup-delete_other c n c' n' s h;
}
