-- ===== src/Connections/Round/Peers.antt =====
-- The lines of the peers, read back.
use freenetic.Base.{
  ℕ, true, false, List, [], ◌∷◌, ◌++◌, ◌≡◌, ◌≢◌, ◌⊎◌, refl, ap, ◌∙◌, inl, inr, some, Text, codes,
  text_eq, every, lower, All, trim_start, trim_end, is_space,
}
use freenetic.Network.Address.Split.{free}
use freenetic.Connections.Fields.{
  list_text, endpoint_text, valid_key, valid_address, valid_host, valid_port,
}
use freenetic.Connections.Draft.{
  Reading, apply_line, item, Draft, PeerDraft, no_peer, peer, set_peer, set_last,
}
use freenetic.Connections.Config.{Peer, optional_line, list_line, endpoint_line, peer_lines}
use freenetic.Connections.Lines.{IsWritable, IsKey, read_line-key_line}
use freenetic.Connections.Tokens.{IsToken}
use freenetic.Connections.Endpoints.{
  IsEndpoint, endpoint-IsToken, endpoint-IsWritable, parse_endpoint-endpoint_text,
}
use freenetic.Connections.Round.{
  fold_lines, fold_lines-append, fold_lines-optional, fold_lines-list, set_option, set_list,
}
use freenetic.Connections.Round.Drafted.{
  with_option, with_list, drafted, draft_public, draft_private, draft_preshared, draft_ips,
  draft_keepalive,
}

-- A peer that a file can hold and that the code accepts.
unfoldable pub IsPortablePeer : Peer → Type 0
IsPortablePeer p =
    (p.public_key ≢ [] × IsWritable p.public_key × valid_key p.public_key false ≡ true)
    × IsWritable p.private_key
    × (IsWritable p.preshared_key × valid_key p.preshared_key true ≡ true)
    × (All IsToken p.allowed_ips × every valid_address p.allowed_ips ≡ true)
    × (p.endpoint_host ≡ []
        ⊎ (IsEndpoint p.endpoint_host p.endpoint_port
            × valid_host p.endpoint_host ≡ true
            × valid_port p.endpoint_port true ≡ true))
    × IsWritable p.keepalive

abbrev pub reading : Draft → List PeerDraft → Reading
reading d qs = record { section = some peer; draft = record d { peers = qs } }

-- The state while the lines of a peer are read, behind the peers `ps`.
abbrev pub at_peer : Draft → List PeerDraft → PeerDraft → Reading
at_peer d ps q = reading d (ps ++ q ∷ [])

set_last-append :
    (f : PeerDraft → PeerDraft) (ps : List PeerDraft) (q : PeerDraft)
    → set_last f (ps ++ q ∷ []) ≡ ps ++ f q ∷ []
unfolding set_last
set_last-append f [] q = refl
set_last-append f (p ∷ []) q = refl
set_last-append f (p ∷ r ∷ ps) q = ap (λ t. p ∷ t) (set_last-append f (r ∷ ps) q)

apply_item :
    (key value : Text) (d : Draft) (ps : List PeerDraft) (q : PeerDraft)
    → apply_line (item key value) (at_peer d ps q) ≡ at_peer d ps (set_peer key value q)
unfolding apply_line
apply_item key value d ps q = ap (reading d) (set_last-append (set_peer key value) ps q)

set_option-peer :
    (key v : Text) (d : Draft) (ps : List PeerDraft) (q : PeerDraft)
    → set_option key v (at_peer d ps q) ≡ at_peer d ps (with_option key v q)
unfolding set_option
set_option-peer key [] d ps q = refl
set_option-peer key (c ∷ v) d ps q = apply_item (lower key) (c ∷ v) d ps q

set_list-peer :
    (key : Text) (vs : List Text) (d : Draft) (ps : List PeerDraft) (q : PeerDraft)
    → set_list key vs (at_peer d ps q) ≡ at_peer d ps (with_list key vs q)
unfolding set_list
set_list-peer key [] d ps q = refl
set_list-peer key (v ∷ vs) d ps q = apply_item (lower key) (list_text (v ∷ vs)) d ps q

-- One optional line, and what follows it.
then_option :
    (key v : Text) (ls : List Text) (d : Draft) (ps : List PeerDraft) (q : PeerDraft)
    → IsKey key
    → IsWritable v
    → fold_lines (optional_line key v ++ ls) (at_peer d ps q)
      ≡ fold_lines ls (at_peer d ps (with_option key v q))
then_option key v ls d ps q k h =
    fold_lines-append (optional_line key v) ls (at_peer d ps q)
    ∙ ap (fold_lines ls)
        (fold_lines-optional key v (at_peer d ps q) k h ∙ set_option-peer key v d ps q)

then_list :
    (key : Text) (vs ls : List Text) (d : Draft) (ps : List PeerDraft) (q : PeerDraft)
    → IsKey key
    → All IsToken vs
    → fold_lines (list_line key vs ++ ls) (at_peer d ps q)
      ≡ fold_lines ls (at_peer d ps (with_list key vs q))
then_list key vs ls d ps q k h =
    fold_lines-append (list_line key vs) ls (at_peer d ps q)
    ∙ ap (fold_lines ls) (fold_lines-list key vs (at_peer d ps q) k h ∙ set_list-peer key vs d ps q)

pub peer_keys :
    IsKey (codes "PublicKey")
    × IsKey (codes "PrivateKey")
    × IsKey (codes "PresharedKey")
    × IsKey (codes "AllowedIPs")
    × IsKey (codes "Endpoint")
    × IsKey (codes "PersistentKeepalive")
unfolding IsKey is_space every free trim_start trim_end
peer_keys = (
  (refl, refl, refl, refl, refl),
  (refl, refl, refl, refl, refl),
  (refl, refl, refl, refl, refl),
  (refl, refl, refl, refl, refl),
  (refl, refl, refl, refl, refl),
  (refl, refl, refl, refl, refl),
)

draft_endpoint :
    (a b e : Text) (vs : List Text) (c : ℕ) (host port : Text)
    → IsEndpoint (c ∷ host) port
    → set_peer
        (lower (codes "Endpoint"))
        (endpoint_text (c ∷ host) port)
        (drafted a b e vs [] [] [])
      ≡ drafted a b e vs (c ∷ host) port []
unfolding set_peer text_eq lower
draft_endpoint a b e vs c host port h =
    ap
      (λ (parts : Text × Text). record (drafted a b e vs (c ∷ host) port []) {
        host = parts.0;
        port = parts.1;
      })
      (parse_endpoint-endpoint_text (c ∷ host) port h)

then_endpoint :
    (a b e : Text) (vs : List Text) (host port : Text) (ls : List Text) (d : Draft)
    (ps : List PeerDraft)
    → host ≡ [] ⊎ IsEndpoint host port
    → fold_lines (endpoint_line host port ++ ls) (at_peer d ps (drafted a b e vs [] [] []))
      ≡ fold_lines ls (at_peer d ps (drafted a b e vs host port []))
unfolding endpoint_line fold_lines
then_endpoint a b e vs [] port ls d ps h = refl
then_endpoint a b e vs (c ∷ host) port ls d ps (inl absurdity) = cc
then_endpoint a b e vs (c ∷ host) port ls d ps (inr h) =
    let value = endpoint_text (c ∷ host) port in
    let q = drafted a b e vs [] [] [] in
    let (_, _, _, _, key, _) = peer_keys in
    ap (λ l. fold_lines ls (apply_line l (at_peer d ps q)))
      (read_line-key_line (codes "Endpoint") value key (endpoint-IsWritable (c ∷ host) port h)
        (endpoint-IsToken (c ∷ host) port h).0)
    ∙ ap (fold_lines ls) (apply_item (lower (codes "Endpoint")) value d ps q)
    ∙ ap (λ r. fold_lines ls (at_peer d ps r)) (draft_endpoint a b e vs c host port h)

unfoldable pub draft_of : Peer → PeerDraft
draft_of p =
    drafted p.public_key p.private_key p.preshared_key p.allowed_ips p.endpoint_host p.endpoint_port
      p.keepalive

pub has_host :
    (p : Peer)
    → IsPortablePeer p
    → p.endpoint_host ≡ [] ⊎ IsEndpoint p.endpoint_host p.endpoint_port
unfolding IsPortablePeer
has_host p (_, _, _, _, inl e, _) = inl e
has_host p (_, _, _, _, inr (h, _, _), _) = inr h

pub fold_lines-peer_lines :
    (p : Peer) (d : Draft) (ps : List PeerDraft)
    → IsPortablePeer p
    → fold_lines (peer_lines p) (at_peer d ps no_peer) ≡ at_peer d ps (draft_of p)
unfolding peer_lines IsPortablePeer draft_of
fold_lines-peer_lines p d ps
      ((ne, wpub, vpub), wpriv, (wpsk, vpsk), (tips, vips), endpoint, wkeep) =
    let (kpub, kpriv, kpsk, kips, kend, kkeep) = peer_keys in
    let a = p.public_key in
    let b = p.private_key in
    let e = p.preshared_key in
    let vs = p.allowed_ips in
    let l5 = optional_line (codes "PersistentKeepalive") p.keepalive in
    let l4 = endpoint_line p.endpoint_host p.endpoint_port ++ l5 in
    let l3 = list_line (codes "AllowedIPs") vs ++ l4 in
    let l2 = optional_line (codes "PresharedKey") e ++ l3 in
    let l1 = optional_line (codes "PrivateKey") b ++ l2 in
    then_option (codes "PublicKey") a l1 d ps no_peer kpub wpub
    ∙ ap (λ q. fold_lines l1 (at_peer d ps q)) (draft_public a)
    ∙ then_option (codes "PrivateKey") b l2 d ps (drafted a [] [] [] [] [] []) kpriv wpriv
    ∙ ap (λ q. fold_lines l2 (at_peer d ps q)) (draft_private a b)
    ∙ then_option (codes "PresharedKey") e l3 d ps (drafted a b [] [] [] [] []) kpsk wpsk
    ∙ ap (λ q. fold_lines l3 (at_peer d ps q)) (draft_preshared a b e)
    ∙ then_list (codes "AllowedIPs") vs l4 d ps (drafted a b e [] [] [] []) kips tips
    ∙ ap (λ q. fold_lines l4 (at_peer d ps q)) (draft_ips a b e vs tips)
    ∙ then_endpoint a b e vs p.endpoint_host p.endpoint_port l5 d ps
        (has_host p ((ne, wpub, vpub), wpriv, (wpsk, vpsk), (tips, vips), endpoint, wkeep))
    ∙ fold_lines-optional (codes "PersistentKeepalive") p.keepalive
        (at_peer d ps (drafted a b e vs p.endpoint_host p.endpoint_port [])) kkeep wkeep
    ∙ set_option-peer (codes "PersistentKeepalive") p.keepalive d ps
        (drafted a b e vs p.endpoint_host p.endpoint_port [])
    ∙ ap (at_peer d ps) (draft_keepalive a b e vs p.endpoint_host p.endpoint_port p.keepalive)
