-- ===== src/Connections/Round/Whole.antt =====
-- A configuration that is written and read back.
use freenetic.Base.{
  Bool, true, false, not, ◌&&◌, List, [], ◌∷◌, ◌++◌, ◌≡◌, ◌≢◌, refl, ap, ap₂, ◌∙◌, none, some, Text,
  codes, text_eq, every, lower, if◌then◌else◌, All, map, trim_start, trim_end, is_space,
}
use freenetic.Connections.Fields.{valid_address}
use freenetic.Connections.Draft.{
  Reading, apply_line, read_line, line_of, uncommented, header_of, unsnoc, Draft, interface,
  AwgOption, awg_options, no_draft,
}
use freenetic.Connections.Config.{
  Connection, Peer, parsed, parse_config, serialize_config, check_draft, outcome, draft_error,
  draft_verdict, bad_addresses, connection_of, peer_of, text_or, list_or, awg_lines, awg_value,
  interface_lines, all_peer_lines, peers_error,
}
use freenetic.Connections.Lines.{IsWritable}
use freenetic.Connections.Round.{IsPlain, fold_lines, fold_lines-append, read_draft-joined}
use freenetic.Connections.Round.Peers.{draft_of}
use freenetic.Connections.Round.Drafted.{drafted, some_text, some_list}
use freenetic.Connections.Round.Blocks.{fold_lines-all_peer_lines, peers_error-draft_of, public_ok}
use freenetic.Connections.Round.Interface.{awg_pairs, at_interface, written, fold_lines-interface}
use freenetic.Connections.Round.Awg.{is_cons, fold_lines-awg_options}
use freenetic.Connections.Round.Portable.{IsPortable, port_behind, imported_peer, imported}
use freenetic.Connections.Round.Plain.{plain, all_peer_lines-IsPlain, interface_lines-IsPlain}

fold_lines-maybe :
    (b : Bool) (awg : List (Text × Text)) (d : Draft)
    → d.awg ≡ []
    → d.is_awg ≡ false
    → All (λ (o : AwgOption). IsWritable (awg_value o.name awg)) awg_options
    → fold_lines (if b then awg_lines awg_options awg else []) (at_interface d)
      ≡ at_interface (record d {
        awg = if b then awg_pairs awg_options awg else [];
        is_awg = b && is_cons (awg_pairs awg_options awg);
      })
unfolding fold_lines
fold_lines-maybe true awg d ea ef ws = fold_lines-awg_options awg d ea ef ws
fold_lines-maybe false awg d ea ef ws =
    ap₂ (λ a f. at_interface (record d { awg = a; is_awg = f })) ea ef

start_interface :
    (ls : List Text)
    → fold_lines (codes "[Interface]" ∷ ls) (record { section = none; draft = no_draft })
      ≡ fold_lines ls (at_interface no_draft)
unfolding fold_lines apply_line read_line line_of uncommented header_of unsnoc trim_start trim_end
    is_space lower text_eq
start_interface ls = refl

-- The configuration behind the last line.
final : Connection → Draft
final c =
    record (written c.private_key c.addresses c.listen_port c.mtu c.fwmark c.dns
      (if c.is_awg then awg_pairs awg_options c.awg else [])
      (c.is_awg && is_cons (awg_pairs awg_options c.awg))) { peers = map draft_of c.peers }

fold_lines-serialized :
    (c : Connection)
    → IsPortable c
    → (fold_lines
        (codes "[Interface]" ∷ (interface_lines c ++ all_peer_lines c.peers))
        (record { section = none; draft = no_draft })).draft
      ≡ final c
unfolding IsPortable interface_lines final
fold_lines-serialized c (wi, vk, va, wawg, wps) =
    let tail = if c.is_awg then awg_lines awg_options c.awg else [] in
    let before = written c.private_key c.addresses c.listen_port c.mtu c.fwmark c.dns [] false in
    let pairs = awg_pairs awg_options c.awg in
    let d = record before {
      awg = if c.is_awg then pairs else [];
      is_awg = c.is_awg && is_cons pairs;
    } in
    let whole : fold_lines (interface_lines c) (at_interface no_draft) ≡ at_interface d =
      fold_lines-interface c tail wi ∙ fold_lines-maybe c.is_awg c.awg before refl refl wawg in
    ap (λ (r : Reading). r.draft)
      (start_interface (interface_lines c ++ all_peer_lines c.peers)
        ∙ fold_lines-append (interface_lines c) (all_peer_lines c.peers) (at_interface no_draft)
        ∙ ap (fold_lines (all_peer_lines c.peers)) whole)
    ∙ fold_lines-all_peer_lines c.peers (some interface) d [] wps

text_or-some_text : (v : Text) → text_or (some_text v) ≡ v
text_or-some_text [] = refl
text_or-some_text (c ∷ v) = refl

list_or-some_list : (vs : List Text) → list_or (some_list vs) ≡ vs
list_or-some_list [] = refl
list_or-some_list (v ∷ vs) = refl

addresses_ok :
    (vs : List Text)
    → vs ≢ []
    → every valid_address vs ≡ true
    → bad_addresses (some_list vs) ≡ false
unfolding bad_addresses
addresses_ok [] ne h = absurd (ne refl)
addresses_ok (v ∷ vs) ne h = ap not h

draft_error-final : (c : Connection) → IsPortable c → draft_error (final c) ≡ none
unfolding IsPortable final draft_error draft_verdict
draft_error-final c (wi, (ne, vk), (nea, va), wawg, wps) =
    ap₂ (λ a b. draft_verdict a b (peers_error (map draft_of c.peers)))
      (public_ok c.private_key ne vk) (addresses_ok c.addresses nea va)
    ∙ peers_error-draft_of c.peers wps

peer_of-drafted :
    (a b e : Text) (vs : List Text) (host port k : Text)
    → peer_of (drafted a b e vs host port k) ≡ record {
      section = none;
      description = [];
      disabled = false;
      private_key = b;
      preshared_key = e;
      public_key = a;
      allowed_ips = vs;
      endpoint_host = host;
      endpoint_port = port_behind host port;
      keepalive = k;
      route_allowed = false;
    }
unfolding peer_of port_behind
peer_of-drafted a b e vs [] port k =
    rw
      (
        text_or-some_text a,
        text_or-some_text b,
        text_or-some_text e,
        text_or-some_text k,
        list_or-some_list vs,
      )
      refl
peer_of-drafted a b e vs (c ∷ host) port k =
    rw
      (
        text_or-some_text a,
        text_or-some_text b,
        text_or-some_text e,
        text_or-some_text k,
        list_or-some_list vs,
      )
      refl

imported_peers : (ps : List Peer) → map peer_of (map draft_of ps) ≡ map imported_peer ps
unfolding draft_of imported_peer
imported_peers [] = refl
imported_peers (p ∷ ps) =
    ap₂ (λ q qs. q ∷ qs)
      (peer_of-drafted p.public_key p.private_key p.preshared_key p.allowed_ips p.endpoint_host
        p.endpoint_port p.keepalive)
      (imported_peers ps)

connection_of-final : (c : Connection) → connection_of (final c) ≡ imported c
unfolding connection_of final imported
connection_of-final c =
    rw
      (
        text_or-some_text c.private_key,
        list_or-some_list c.addresses,
        list_or-some_list c.dns,
        text_or-some_text c.listen_port,
        text_or-some_text c.mtu,
        text_or-some_text c.fwmark,
        imported_peers c.peers,
      )
      refl

check_draft-none : (d : Draft) → draft_error d ≡ none → check_draft d ≡ parsed (connection_of d)
unfolding check_draft outcome
check_draft-none d e = ap (λ o. outcome o (connection_of d)) e

-- A portable connection, serialized and parsed, is accepted, and is the connection that the file
-- keeps: all keys, addresses, numbers, AmneziaWG options and peers, but not the sections and states.
pub parse_config-serialize_config :
    (c : Connection) → IsPortable c → parse_config (serialize_config c) ≡ parsed (imported c)
unfolding parse_config serialize_config IsPortable every
parse_config-serialize_config c (wi, vk, va, wawg, wps) =
    let h : IsPortable c = (wi, vk, va, wawg, wps) in
    let lines = interface_lines c ++ all_peer_lines c.peers in
    let all_plain : All IsPlain (codes "[Interface]" ∷ lines) = (
      refl,
      plain (interface_lines c) (all_peer_lines c.peers) (interface_lines-IsPlain c h)
          (all_peer_lines-IsPlain c.peers wps),
    ) in
    ap check_draft
      (read_draft-joined (codes "[Interface]") lines all_plain ∙ fold_lines-serialized c h)
    ∙ check_draft-none (final c) (draft_error-final c h)
    ∙ ap parsed (connection_of-final c)
