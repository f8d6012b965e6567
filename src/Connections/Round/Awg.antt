-- ===== src/Connections/Round/Awg.antt =====
-- The lines of the AmneziaWG options, read back.
use freenetic.Base.{
  Bool, true, false, not, ◌&&◌, ◌||◌, List, [], ◌∷◌, ◌++◌, ◌≡◌, refl, sym, ap, ap₂, ◌∙◌, append-nil,
  append_assoc, Text, text_eq, every, some_of, lower, All, trim_start, trim_end, is_space, arith,
}
use mathlib.Core.Path.{subst}
use freenetic.Network.Address.Split.{free}
use freenetic.Connections.Draft.{
  apply_line, Draft, set_interface, AwgOption, awg_options, set_awg, set_known, known_awg,
}
use freenetic.Connections.Config.{optional_line, awg_lines, awg_value}
use freenetic.Connections.Lines.{IsWritable, IsKey}
use freenetic.Connections.Round.{fold_lines, fold_lines-append, fold_lines-optional, set_option}
use freenetic.Connections.Round.Interface.{awg_pairs, at_interface, pair_before}

unfoldable pub IsAwgKey : AwgOption → Type 0
IsAwgKey o =
    IsKey o.key
    × ((v : Text) (d : Draft)
        → set_interface (lower o.key) v d
          ≡ record d { awg = set_awg o.name v d.awg; is_awg = true })

pub awg_keys : All IsAwgKey awg_options
unfolding IsAwgKey IsKey is_space every free trim_start trim_end set_interface text_eq lower
    known_awg set_known
awg_keys = (
  ((refl, refl, refl, refl, refl), (λ v d. refl)),
  (
    ((refl, refl, refl, refl, refl), (λ v d. refl)),
    (
      ((refl, refl, refl, refl, refl), (λ v d. refl)),
      (
        ((refl, refl, refl, refl, refl), (λ v d. refl)),
        (
          ((refl, refl, refl, refl, refl), (λ v d. refl)),
          (
            ((refl, refl, refl, refl, refl), (λ v d. refl)),
            (
              ((refl, refl, refl, refl, refl), (λ v d. refl)),
              (
                ((refl, refl, refl, refl, refl), (λ v d. refl)),
                (((refl, refl, refl, refl, refl), (λ v d. refl)), tt),
              ),
            ),
          ),
        ),
      ),
    ),
  ),
)

-- The name of an option that the list does not have.
abbrev is_used : List (Text × Text) → Text → Bool
is_used acc name = some_of (λ (p : Text × Text). text_eq p.0 name) acc

distinct : List AwgOption → Bool
distinct [] = true
distinct (o ∷ os) = not (some_of (λ (q : AwgOption). text_eq o.name q.name) os) && distinct os

awg_distinct : distinct awg_options ≡ true
unfolding distinct some_of text_eq
awg_distinct = refl

set_awg-unused :
    (name v : Text) (acc : List (Text × Text))
    → is_used acc name ≡ false
    → set_awg name v acc ≡ acc ++ (name, v) ∷ []
unfolding set_awg some_of
set_awg-unused name v [] h = refl
set_awg-unused name v ((n, w) ∷ acc) h =
    let e : text_eq n name ≡ false = ground arith in
    let k : is_used acc name ≡ false = ground arith in
    rw e (ap (λ t. (n, w) ∷ t) (set_awg-unused name v acc k))

is_used-append :
    (name n v : Text) (acc : List (Text × Text))
    → is_used acc name ≡ false
    → text_eq n name ≡ false
    → is_used (acc ++ (n, v) ∷ []) name ≡ false
unfolding some_of
is_used-append name n v [] h e = rw e refl
is_used-append name n v ((m, w) ∷ acc) h e =
    let e' : text_eq m name ≡ false = ground arith in
    let k : is_used acc name ≡ false = ground arith in rw (e', is_used-append name n v acc k e) refl

abbrev IsUnused : List (Text × Text) → AwgOption → Type 0
IsUnused acc o = is_used acc o.name ≡ false

apart_behind :
    (o : AwgOption) (v : Text) (os : List AwgOption) (acc : List (Text × Text))
    → some_of (λ (q : AwgOption). text_eq o.name q.name) os ≡ false
    → All (IsUnused acc) os
    → All (IsUnused (acc ++ (o.name, v) ∷ [])) os
unfolding some_of
apart_behind o v [] acc h hs = tt
apart_behind o v (q ∷ os) acc h (u, us) =
    let e : text_eq o.name q.name ≡ false = ground arith in
    let k : some_of (λ (q : AwgOption). text_eq o.name q.name) os ≡ false = ground arith in
    (is_used-append q.name o.name v acc u e, apart_behind o v os acc k us)

abbrev pub is_cons : List (Text × Text) → Bool
is_cons [] = false
is_cons (p ∷ ps) = true

-- The options read so far, and those that are read after them.
abbrev with_awg : Draft → List (Text × Text) → Bool → Draft
with_awg d acc flag = record d { awg = acc; is_awg = flag }

set_option-awg :
    (o : AwgOption) (v : Text) (d : Draft) (acc : List (Text × Text)) (flag : Bool)
    → IsAwgKey o
    → IsUnused acc o
    → set_option o.key v (at_interface (with_awg d acc flag))
      ≡ at_interface
          (with_awg d (acc ++ pair_before o.name v []) (flag || is_cons (pair_before o.name v [])))
unfolding set_option apply_line IsAwgKey pair_before
set_option-awg o [] d acc flag k u =
    ap₂ (λ a f. at_interface (with_awg d a f)) (sym (append-nil acc)) (ground arith)
set_option-awg o (c ∷ v) d acc flag (_, k) u =
    ap at_interface (k (c ∷ v) (with_awg d acc flag))
    ∙ ap₂ (λ a f. at_interface (with_awg d a f)) (set_awg-unused o.name (c ∷ v) acc u)
        (ground arith)

apart_still :
    (o : AwgOption) (v : Text) (os : List AwgOption) (acc : List (Text × Text))
    → some_of (λ (q : AwgOption). text_eq o.name q.name) os ≡ false
    → All (IsUnused acc) os
    → All (IsUnused (acc ++ pair_before o.name v [])) os
unfolding pair_before
apart_still o [] os acc h hs = subst (λ a. All (IsUnused a) os) (sym (append-nil acc)) hs
apart_still o (c ∷ v) os acc h hs = apart_behind o (c ∷ v) os acc h hs

pairs_together :
    (name v : Text) (acc rest : List (Text × Text))
    → (acc ++ pair_before name v []) ++ rest ≡ acc ++ pair_before name v rest
unfolding pair_before
pairs_together name [] acc rest = ap (λ a. a ++ rest) (append-nil acc)
pairs_together name (c ∷ v) acc rest = append_assoc acc ((name, c ∷ v) ∷ []) rest

flags_together :
    (name v : Text) (flag : Bool) (rest : List (Text × Text))
    → ((flag || is_cons (pair_before name v [])) || is_cons rest)
      ≡ (flag || is_cons (pair_before name v rest))
unfolding pair_before
flags_together name [] flag rest = ground arith
flags_together name (c ∷ v) flag rest = ground arith

fold_lines-awg :
    (os : List AwgOption) (awg : List (Text × Text)) (d : Draft) (acc : List (Text × Text))
    (flag : Bool)
    → All IsAwgKey os
    → distinct os ≡ true
    → All (IsUnused acc) os
    → All (λ (o : AwgOption). IsWritable (awg_value o.name awg)) os
    → fold_lines (awg_lines os awg) (at_interface (with_awg d acc flag))
      ≡ at_interface (with_awg d (acc ++ awg_pairs os awg) (flag || is_cons (awg_pairs os awg)))
unfolding awg_lines awg_pairs fold_lines distinct
fold_lines-awg [] awg d acc flag ks ds us ws =
    ap₂ (λ a f. at_interface (with_awg d a f)) (sym (append-nil acc)) (ground arith)
fold_lines-awg (o ∷ os) awg d acc flag (k, ks) ds (u, us) (w, ws) =
    let v = awg_value o.name awg in
    let apart : some_of (λ (q : AwgOption). text_eq o.name q.name) os ≡ false = ground arith in
    let rest : distinct os ≡ true = ground arith in
    let pairs = awg_pairs os awg in
    let key : IsKey o.key = unfold IsAwgKey in k.0 in
    fold_lines-append (optional_line o.key v) (awg_lines os awg)
      (at_interface (with_awg d acc flag))
    ∙ ap (fold_lines (awg_lines os awg)) (
        fold_lines-optional o.key v (at_interface (with_awg d acc flag)) key w
        ∙ set_option-awg o v d acc flag k u)
    ∙ fold_lines-awg os awg d (acc ++ pair_before o.name v [])
        (flag || is_cons (pair_before o.name v [])) ks rest (apart_still o v os acc apart us) ws
    ∙ ap₂ (λ a f. at_interface (with_awg d a f)) (pairs_together o.name v acc pairs)
        (flags_together o.name v flag pairs)

apart_at_start : (os : List AwgOption) → All (IsUnused []) os
unfolding some_of
apart_at_start [] = tt
apart_at_start (o ∷ os) = (refl, apart_at_start os)

pub fold_lines-awg_options :
    (awg : List (Text × Text)) (d : Draft)
    → d.awg ≡ []
    → d.is_awg ≡ false
    → All (λ (o : AwgOption). IsWritable (awg_value o.name awg)) awg_options
    → fold_lines (awg_lines awg_options awg) (at_interface d)
      ≡ at_interface (record d {
        awg = awg_pairs awg_options awg;
        is_awg = is_cons (awg_pairs awg_options awg);
      })
fold_lines-awg_options awg d ea ef ws =
    ap₂ (λ a f. fold_lines (awg_lines awg_options awg) (at_interface (with_awg d a f))) ea ef
    ∙ fold_lines-awg awg_options awg d [] false awg_keys awg_distinct (apart_at_start awg_options)
        ws
