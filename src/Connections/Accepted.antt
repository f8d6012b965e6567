-- ===== src/Connections/Accepted.antt =====
-- What `parseConfig` accepts.
use freenetic.Base.{
  Bool, true, false, not, ◌&&◌, List, [], ◌∷◌, ◌≡◌, ◌≢◌, refl, Option, none, some, or_else, arith,
  Text, every, All, map, trim_start, trim_end,
}
use mathlib.Core.Path.{subst}
use freenetic.Connections.Fields.{
  valid_key, valid_address, valid_host, valid_port, parse_endpoint, endpoint_of,
}
use freenetic.Connections.Draft.{Draft, PeerDraft, read_draft}
use freenetic.Connections.Config.{
  Connection, Peer, parsed, parse_config, check_draft, outcome, draft_error, draft_verdict,
  bad_addresses, bad_endpoint, connection_of, peer_of, text_or, list_or, is_truthy, peer_error,
  peer_verdict, peers_error, ConfigError,
}
use freenetic.Connections.Read.{IsRead, read_draft-IsRead}

-- A peer with valid keys, addresses and endpoint.
unfoldable pub IsAcceptedPeer : Peer → Type 0
IsAcceptedPeer p =
    (p.public_key ≢ [] × valid_key p.public_key false ≡ true)
    × valid_key p.preshared_key true ≡ true
    × every valid_address p.allowed_ips ≡ true
    × valid_host p.endpoint_host ≡ true
    × valid_port p.endpoint_port true ≡ true

unfoldable pub IsAccepted : Connection → Type 0
IsAccepted c =
    (c.private_key ≢ [] × valid_key c.private_key false ≡ true)
    × every valid_address c.addresses ≡ true
    × All IsAcceptedPeer c.peers

verdict_all :
    (a b c d : Bool) → peer_verdict a b c d ≡ none → a ≡ false × b ≡ false × c ≡ false × d ≡ false
unfolding peer_verdict
verdict_all true b c d h = cc
verdict_all false true c d h = cc
verdict_all false false true d h = cc
verdict_all false false false true h = cc
verdict_all false false false false h = (refl, refl, refl, refl)

public_valid :
    (o : Option Text)
    → not (is_truthy o && valid_key (text_or o) false) ≡ false
    → text_or o ≢ [] × valid_key (text_or o) false ≡ true
public_valid none h = cc
public_valid (some []) h = cc
public_valid (some (c ∷ v)) h = ((λ e. cc), ground arith)

preshared_valid :
    (o : Option Text)
    → (is_truthy o && not (valid_key (text_or o) true)) ≡ false
    → valid_key (text_or o) true ≡ true
unfolding valid_key trim_start trim_end
preshared_valid none h = refl
preshared_valid (some []) h = refl
preshared_valid (some (c ∷ v)) h = double (valid_key (c ∷ v) true) h
  where
    double : (b : Bool) → not b ≡ false → b ≡ true
    double b h = ground arith

third_fails : (a b c : Bool) → not (a && (b && c)) ≡ false → b ≡ true × c ≡ true
third_fails true true true h = (refl, refl)
third_fails true true false h = cc
third_fails true false c h = cc
third_fails false b c h = cc

empty_valid :
    (host port : Text)
    → host ≡ []
    → port ≡ []
    → valid_host host ≡ true × valid_port port true ≡ true
unfolding valid_host valid_port trim_start trim_end every
empty_valid [] [] e f = (refl, refl)
empty_valid (c ∷ host) port e f = cc
empty_valid [] (c ∷ port) e f = cc

by_endpoint :
    (o : Option Text) (host port : Text)
    → host ≡ (parse_endpoint (text_or o)).0
    → port ≡ (parse_endpoint (text_or o)).1
    → (is_truthy o && not (is_truthy (some host) && (valid_host host && valid_port port true)))
      ≡ false
    → valid_host host ≡ true × valid_port port true ≡ true
unfolding parse_endpoint endpoint_of trim_start trim_end
by_endpoint none host port eh ep h = empty_valid host port eh ep
by_endpoint (some []) host port eh ep h = empty_valid host port eh ep
by_endpoint (some (c ∷ v)) host port eh ep h =
    third_fails (is_truthy (some host)) (valid_host host) (valid_port port true) h

endpoint_valid :
    (p : PeerDraft)
    → IsRead p
    → bad_endpoint p ≡ false
    → valid_host p.host ≡ true × valid_port p.port true ≡ true
unfolding IsRead bad_endpoint
endpoint_valid p (eh, ep) h = by_endpoint p.endpoint p.host p.port eh ep h

of_not : (b : Bool) → not b ≡ false → b ≡ true
of_not b h = ground arith

peer_of-IsAcceptedPeer :
    (p : PeerDraft) → IsRead p → peer_error p ≡ none → IsAcceptedPeer (peer_of p)
unfolding IsAcceptedPeer peer_of peer_error
peer_of-IsAcceptedPeer p read e =
    let (a, b, c, d) =
      verdict_all (not (is_truthy p.public_key && valid_key (text_or p.public_key) false))
        (is_truthy p.preshared_key && not (valid_key (text_or p.preshared_key) true))
        (not (every valid_address (list_or p.allowed_ips))) (bad_endpoint p) e in
    let (host, port) = endpoint_valid p read d in
    (
      public_valid p.public_key a,
      preshared_valid p.preshared_key b,
      of_not (every valid_address (list_or p.allowed_ips)) c,
      host,
      port,
    )

first_none : (e f : Option ConfigError) → or_else e f ≡ none → e ≡ none × f ≡ none
first_none none f h = (refl, h)
first_none (some e) f h = cc

peers-IsAcceptedPeer :
    (ps : List PeerDraft)
    → All IsRead ps
    → peers_error ps ≡ none
    → All IsAcceptedPeer (map peer_of ps)
unfolding peers_error
peers-IsAcceptedPeer [] h e = tt
peers-IsAcceptedPeer (p ∷ ps) (h, hs) e =
    let (e1, e2) = first_none (peer_error p) (peers_error ps) e in
    (peer_of-IsAcceptedPeer p h e1, peers-IsAcceptedPeer ps hs e2)

draft_verdict_all :
    (a b : Bool) (e : Option ConfigError)
    → draft_verdict a b e ≡ none
    → a ≡ false × b ≡ false × e ≡ none
unfolding draft_verdict
draft_verdict_all true b e h = cc
draft_verdict_all false true e h = cc
draft_verdict_all false false e h = (refl, refl, h)

addresses_valid :
    (o : Option (List Text)) → bad_addresses o ≡ false → every valid_address (list_or o) ≡ true
unfolding bad_addresses
addresses_valid none h = cc
addresses_valid (some vs) h = of_not (every valid_address vs) h

connection_of-IsAccepted :
    (d : Draft) → All IsRead d.peers → draft_error d ≡ none → IsAccepted (connection_of d)
unfolding IsAccepted connection_of draft_error
connection_of-IsAccepted d read e =
    let (a, b, ps) =
      draft_verdict_all (not (is_truthy d.private_key && valid_key (text_or d.private_key) false))
        (bad_addresses d.addresses) (peers_error d.peers) e in
    (
      public_valid d.private_key a,
      addresses_valid d.addresses b,
      peers-IsAcceptedPeer d.peers read ps,
    )

outcome-parsed :
    (o : Option ConfigError) (c d : Connection) → outcome o c ≡ parsed d → o ≡ none × c ≡ d
unfolding outcome
outcome-parsed none c d h = (refl, parsed_inj c d h)
  where
    parsed_inj : (c d : Connection) → parsed c ≡ parsed d → c ≡ d
    parsed_inj c d h = cc
outcome-parsed (some e) c d h = cc

-- What parseConfig accepts, whatever the text, has a valid private key and valid addresses, and each
-- peer has a valid public key, a valid preshared key or none, valid allowed addresses, a valid host and
-- a port from 1 to 65535 or none.
pub parse_config-IsAccepted :
    (text : Text) (c : Connection) → parse_config text ≡ parsed c → IsAccepted c
unfolding parse_config check_draft
parse_config-IsAccepted text c e =
    let (fine, same) =
      outcome-parsed (draft_error (read_draft text)) (connection_of (read_draft text)) c e in
    subst IsAccepted same (connection_of-IsAccepted (read_draft text) (read_draft-IsRead text) fine)
