-- ===== src/Connections/Keys.antt =====
-- The key providers of freenetic-connections-core.js: `normalizeKeyPair`, `generateKeyPair`,
-- `derivePublicKey` and `generatePresharedKey`. What a provider answers is an argument: none where the
-- call is rejected. A field that is missing is as good as an empty one.
use freenetic.Base.{[], ◌∷◌, Option, none, some, or_else, Text}

pub record KeyFields : Type 0 where
  pub private : Text
  pub priv : Text
  pub public : Text
  pub pubkey : Text

-- `result.keys`, and the fields of `result` itself.
pub record KeyReply : Type 0 where
  pub keys : Option KeyFields
  pub fields : KeyFields

pub record KeyPair : Type 0 where
  pub private_key : Text
  pub public_key : Text

abbrev pub or_text : Text → Text → Text
or_text [] t = t
or_text (c ∷ s) t = c ∷ s

-- `result.keys || result`
abbrev pub key_fields : KeyReply → KeyFields
key_fields r = elim (r.keys) [ some fields ↦ fields | none ↦ r.fields ]

unfoldable pub normalize_key_pair : KeyReply → KeyPair
normalize_key_pair r = record {
  private_key = or_text (key_fields r).private (key_fields r).priv;
  public_key = or_text (key_fields r).public (key_fields r).pubkey;
}

-- A pair with an empty key is rejected.
unfoldable pub accept_pair : KeyPair → Option KeyPair
accept_pair k = by_keys k.private_key k.public_key
  where
    by_keys : Text → Text → Option KeyPair
    by_keys (c ∷ s) (d ∷ t) = some k
    by_keys _ _ = none

unfoldable pub accept_text : Text → Option Text
accept_text [] = none
accept_text (c ∷ s) = some (c ∷ s)

-- `.then(f).then(accept)` on what a provider answers.
unfoldable pub answered {ℓ} : {A B : Type ℓ} → (A → Option B) → Option A → Option B
answered f none = none
answered f (some a) = f a

-- Each provider is asked where those before it were rejected or gave no pair.
unfoldable pub generate_key_pair :
    Option KeyReply → Option KeyReply → Option KeyReply → Option KeyPair
unfolding answered accept_pair normalize_key_pair
generate_key_pair luci native amnezia =
    or_else (answered (λ r. accept_pair (normalize_key_pair r)) luci) (
      or_else (answered (λ r. accept_pair (normalize_key_pair r)) native)
        (answered (λ r. accept_pair (normalize_key_pair r)) amnezia))

-- The second provider answers with the fields themselves.
unfoldable pub derive_public_key :
    Option KeyReply → Option KeyFields → Option KeyReply → Option Text
unfolding answered accept_text normalize_key_pair
derive_public_key luci native amnezia =
    or_else (answered (λ r. accept_text (normalize_key_pair r).public_key) luci) (
      or_else (answered (λ (f : KeyFields). accept_text (or_text f.public f.pubkey)) native)
        (answered (λ r. accept_text (normalize_key_pair r).public_key) amnezia))

pub record PresharedReply : Type 0 where
  pub preshared : Text
  pub psk : Text

unfoldable pub generate_preshared_key :
    Option PresharedReply → Option PresharedReply → Option PresharedReply → Option Text
unfolding answered accept_text
generate_preshared_key luci native amnezia =
    or_else (answered psk_of luci) (or_else (answered psk_of native) (answered psk_of amnezia))
  where
    psk_of : PresharedReply → Option Text
    psk_of r = accept_text (or_text r.preshared r.psk)
