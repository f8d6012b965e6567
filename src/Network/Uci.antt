-- ===== src/Network/Uci.antt =====
-- LuCI's `uci` module, which is not part of the repository: the operations that the source calls, and
-- what it relies on of them.
use freenetic.Base.{Bool, false, ◌&&◌, ◌≡◌, List, Option, none, some, Text, codes, text_eq}
use freenetic.Multiwan.Values.{Value, text, Section, option}

-- `S` is the state of the module: the configurations with the changes that are not saved yet. A
-- configuration and a section are named by texts.
pub record Uci (S : Type 0) : Type 0 where
  pub get : Text → Text → S → Option Section
  pub sections : Text → Text → S → List Section
  pub add : Text → Text → Text → S → S
  pub set : Text → Text → Text → Value → S → S
  pub remove : Text → Text → S → S

unfoldable pub same_place : Text → Text → Text → Text → Bool
unfolding text_eq
same_place config name config' name' = text_eq config config' && text_eq name name'

-- The documented behaviour: an operation changes the section that it names and no other. It is stated
-- for the options that are set here: no name begins with a point, and no value is empty, which
-- `uci.set` takes for a removal.
pub record Laws {S : Type 0} (uci : Uci S) : Type 0 where
  pub get-add :
      (c t n : Text) (s : S)
      → (sec : Section) × (uci.get c n (uci.add c t n s) ≡ some sec)
        × (option (codes ".type") sec ≡ text t)
  pub get-add_other :
      (c t n c' n' : Text) (s : S)
      → same_place c n c' n' ≡ false
      → uci.get c' n' (uci.add c t n s) ≡ uci.get c' n' s
  pub get-set :
      (c n k : Text) (v : Value) (s : S) (sec : Section)
      → uci.get c n s ≡ some sec
      → (sec' : Section) × (uci.get c n (uci.set c n k v s) ≡ some sec')
        × (option k sec' ≡ v)
        × ((k' : Text) → text_eq k k' ≡ false → option k' sec' ≡ option k' sec)
  pub get-set_other :
      (c n k c' n' : Text) (v : Value) (s : S)
      → same_place c n c' n' ≡ false
      → uci.get c' n' (uci.set c n k v s) ≡ uci.get c' n' s
  pub get-remove : (c n : Text) (s : S) → uci.get c n (uci.remove c n s) ≡ none
  pub get-remove_other :
      (c n c' n' : Text) (s : S)
      → same_place c n c' n' ≡ false
      → uci.get c' n' (uci.remove c n s) ≡ uci.get c' n' s
