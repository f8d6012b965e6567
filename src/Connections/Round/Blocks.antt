-- ===== src/Connections/Round/Blocks.antt =====
-- The blocks of all peers, read back, and the checks that they pass.
use freenetic.Base.{
  Bool, true, false, not, ◌&&◌, List, [], ◌∷◌, ◌++◌, ◌≡◌, ◌≢◌, ◌⊎◌, refl, sym, ap, ap₂, arith, ◌∙◌,
  inl, inr, append-nil, append_assoc, Option, none, some, or_else, Text, codes, text_eq, every,
  lower, All, map, trim_start, trim_end, is_space,
}
use freenetic.Connections.Fields.{valid_key, valid_address, valid_host, valid_port, endpoint_text}
use freenetic.Connections.Draft.{
  Head, Reading, apply_line, read_line, line_of, uncommented, header_of, unsnoc, Draft, PeerDraft,
  no_peer, peer,
}
use freenetic.Connections.Config.{
  peer_verdict, bad_endpoint, Peer, peer_lines, all_peer_lines, peer_error, peers_error, is_truthy,
  text_or, list_or,
}
use freenetic.Connections.Endpoints.{IsEndpoint}
use freenetic.Connections.Round.{fold_lines, fold_lines-append}
use freenetic.Connections.Round.Peers.{IsPortablePeer, draft_of, fold_lines-peer_lines, at_peer}
use freenetic.Connections.Round.Drafted.{drafted, some_text, some_list}

abbrev behind : Option Head → Draft → List PeerDraft → Reading
behind s d ps = record { section = s; draft = record d { peers = ps } }

start_peer :
    (s : Option Head) (d : Draft) (ps : List PeerDraft) (ls : List Text)
    → fold_lines ([] ∷ codes "[Peer]" ∷ ls) (behind s d ps) ≡ fold_lines ls (at_peer d ps no_peer)
unfolding fold_lines apply_line read_line line_of uncommented header_of unsnoc trim_start trim_end
    is_space lower text_eq
start_peer s d ps ls = refl

pub fold_lines-all_peer_lines :
    (peers : List Peer) (s : Option Head) (d : Draft) (ps : List PeerDraft)
    → All IsPortablePeer peers
    → (fold_lines (all_peer_lines peers) (behind s d ps)).draft
      ≡ record d { peers = ps ++ map draft_of peers }
unfolding all_peer_lines fold_lines
fold_lines-all_peer_lines [] s d ps h = ap (λ qs. record d { peers = qs }) (sym (append-nil ps))
fold_lines-all_peer_lines (p ∷ peers) s d ps (h, hs) =
    ap (λ (r : Reading). r.draft)
      (start_peer s d ps (peer_lines p ++ all_peer_lines peers)
        ∙ fold_lines-append (peer_lines p) (all_peer_lines peers) (at_peer d ps no_peer)
        ∙ ap (fold_lines (all_peer_lines peers)) (fold_lines-peer_lines p d ps h))
    ∙ fold_lines-all_peer_lines peers (some peer) d (ps ++ draft_of p ∷ []) hs
    ∙ ap (λ qs. record d { peers = qs }) (append_assoc ps (draft_of p ∷ []) (map draft_of peers))

verdict_none :
    (a b c d : Bool) → a ≡ false → b ≡ false → c ≡ false → d ≡ false → peer_verdict a b c d ≡ none
unfolding peer_verdict
verdict_none a b c d ea eb ec ed = rw (ea, eb, ec, ed) refl

pub public_ok :
    (v : Text)
    → v ≢ []
    → valid_key v false ≡ true
    → not (is_truthy (some_text v) && valid_key (text_or (some_text v)) false) ≡ false
public_ok [] ne h = absurd (ne refl)
public_ok (c ∷ v) ne h = rw h refl

preshared_ok :
    (v : Text)
    → valid_key v true ≡ true
    → (is_truthy (some_text v) && not (valid_key (text_or (some_text v)) true)) ≡ false
preshared_ok [] h = refl
preshared_ok (c ∷ v) h = rw h refl

ips_ok :
    (vs : List Text)
    → every valid_address vs ≡ true
    → not (every valid_address (list_or (some_list vs))) ≡ false
unfolding every
ips_ok [] h = refl
ips_ok (v ∷ vs) h = ap not h

and_not : (b g : Bool) → g ≡ true → (b && not g) ≡ false
and_not b g h = ground arith

endpoint_ok :
    (a b e : Text) (vs : List Text) (host port keepalive : Text)
    → host ≡ [] ⊎ (IsEndpoint host port × valid_host host ≡ true × valid_port port true ≡ true)
    → bad_endpoint (drafted a b e vs host port keepalive) ≡ false
unfolding bad_endpoint
endpoint_ok a b e vs [] port keepalive h = refl
endpoint_ok a b e vs (c ∷ host) port keepalive (inl absurdity) = cc
endpoint_ok a b e vs (c ∷ host) port keepalive (inr (_, vhost, vport)) =
    and_not (is_truthy (some (endpoint_text (c ∷ host) port)))
      (valid_host (c ∷ host) && valid_port port true) (ap₂ (λ x y. x && y) vhost vport)

peer_error-draft_of : (p : Peer) → IsPortablePeer p → peer_error (draft_of p) ≡ none
unfolding IsPortablePeer peer_error draft_of
peer_error-draft_of p ((ne, wpub, vpub), wpriv, (wpsk, vpsk), (tips, vips), endpoint, wkeep) =
    verdict_none _ _ _ _ (public_ok p.public_key ne vpub) (preshared_ok p.preshared_key vpsk)
      (ips_ok p.allowed_ips vips)
      (endpoint_ok p.public_key p.private_key p.preshared_key p.allowed_ips p.endpoint_host
        p.endpoint_port p.keepalive endpoint)

pub peers_error-draft_of :
    (ps : List Peer) → All IsPortablePeer ps → peers_error (map draft_of ps) ≡ none
unfolding peers_error
peers_error-draft_of [] h = refl
peers_error-draft_of (p ∷ ps) (h, hs) =
    ap (λ e. or_else e (peers_error (map draft_of ps))) (peer_error-draft_of p h)
    ∙ peers_error-draft_of ps hs
