-- ===== src/Connections/Round/Drafted.antt =====
-- A peer from the values that are written, and the effect of each line on it.
use freenetic.Base.{
  false, List, [], ◌∷◌, ◌≡◌, refl, ap, Option, none, some, Text, codes, text_eq, lower, All,
}
use freenetic.Connections.Fields.{list_text, endpoint_text}
use freenetic.Connections.Draft.{PeerDraft, no_peer, set_peer}
use freenetic.Connections.Tokens.{IsToken, parse_list-list_text}

abbrev pub some_text : Text → Option Text
some_text [] = none
some_text (c ∷ s) = some (c ∷ s)

abbrev pub some_list : List Text → Option (List Text)
some_list [] = none
some_list (v ∷ vs) = some (v ∷ vs)

-- The effect of an optional line on the peer.
abbrev pub with_option : Text → Text → PeerDraft → PeerDraft
with_option key [] q = q
with_option key (c ∷ v) q = set_peer (lower key) (c ∷ v) q

abbrev pub with_list : Text → List Text → PeerDraft → PeerDraft
with_list key [] q = q
with_list key (v ∷ vs) q = set_peer (lower key) (list_text (v ∷ vs)) q

-- A draft from the values that are written.
abbrev pub drafted : Text → Text → Text → List Text → Text → Text → Text → PeerDraft
drafted public private preshared ips host port keepalive = record {
  public_key = some_text public;
  private_key = some_text private;
  preshared_key = some_text preshared;
  allowed_ips = some_list ips;
  endpoint = endpoint_option host port;
  host = host;
  port = port_option host port;
  keepalive = some_text keepalive;
  route_allowed = false;
}
  where
    endpoint_option : Text → Text → Option Text
    endpoint_option [] port = none
    endpoint_option (c ∷ host) port = some (endpoint_text (c ∷ host) port)

    port_option : Text → Text → Text
    port_option [] port = []
    port_option (c ∷ host) port = port

pub draft_public :
    (v : Text) → with_option (codes "PublicKey") v no_peer ≡ drafted v [] [] [] [] [] []
unfolding set_peer text_eq lower
draft_public [] = refl
draft_public (c ∷ v) = refl

pub draft_private :
    (a v : Text)
    → with_option (codes "PrivateKey") v (drafted a [] [] [] [] [] []) ≡ drafted a v [] [] [] [] []
unfolding set_peer text_eq lower
draft_private a [] = refl
draft_private a (c ∷ v) = refl

pub draft_preshared :
    (a b v : Text)
    → with_option (codes "PresharedKey") v (drafted a b [] [] [] [] []) ≡ drafted a b v [] [] [] []
unfolding set_peer text_eq lower
draft_preshared a b [] = refl
draft_preshared a b (c ∷ v) = refl

pub draft_ips :
    (a b e : Text) (vs : List Text)
    → All IsToken vs
    → with_list (codes "AllowedIPs") vs (drafted a b e [] [] [] []) ≡ drafted a b e vs [] [] []
unfolding set_peer text_eq lower
draft_ips a b e [] h = refl
draft_ips a b e (v ∷ vs) h =
    ap (λ xs. record (drafted a b e [] [] [] []) { allowed_ips = some xs })
      (parse_list-list_text (v ∷ vs) h)

pub draft_keepalive :
    (a b e : Text) (vs : List Text) (host port v : Text)
    → with_option (codes "PersistentKeepalive") v (drafted a b e vs host port [])
      ≡ drafted a b e vs host port v
unfolding set_peer text_eq lower
draft_keepalive a b e vs host port [] = refl
draft_keepalive a b e vs host port (c ∷ v) = refl
