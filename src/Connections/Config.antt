-- ===== src/Connections/Config.antt =====
-- The configuration files of WireGuard and AmneziaWG in freenetic-connections-core.js: `parseConfig`
-- and `serializeConfig`.
use freenetic.Base.{
  Bool, true, false, not, ◌&&◌, List, [], ◌∷◌, ◌++◌, map, Option, none, some, or_else, Text, codes,
  text_eq, every, if◌then◌else◌,
}
use freenetic.Network.Address.Split.{joined}
use freenetic.Connections.Fields.{
  list_text, valid_key, valid_address, valid_host, valid_port, endpoint_text,
}
use freenetic.Connections.Draft.{AwgOption, awg_options, PeerDraft, Draft, read_draft}

pub data ConfigError : Type 0 where
  private_key_invalid address_invalid public_key_invalid preshared_key_invalid allowed_ips_invalid
        endpoint_invalid :
      ConfigError

pub record Peer : Type 0 where
  pub section : Option Text
  pub description : Text
  pub disabled : Bool
  pub private_key : Text
  pub preshared_key : Text
  pub public_key : Text
  pub allowed_ips : List Text
  pub endpoint_host : Text
  pub endpoint_port : Text
  pub keepalive : Text
  pub route_allowed : Bool

-- The protocol is WireGuard's or AmneziaWG's.
pub record Connection : Type 0 where
  pub section : Option Text
  pub name : Text
  pub is_awg : Bool
  pub enabled : Bool
  pub private_key : Text
  pub public_key : Text
  pub addresses : List Text
  pub dns : List Text
  pub listen_port : Text
  pub mtu : Text
  pub fwmark : Text
  pub nohostroute : Bool
  pub awg : List (Text × Text)
  pub peers : List Peer

-- `value || ''`, `value || []`
abbrev pub text_or : Option Text → Text
text_or none = []
text_or (some s) = s

abbrev pub list_or : Option (List Text) → List Text
list_or none = []
list_or (some xs) = xs

-- A text that is there and not empty is truthy.
abbrev pub is_truthy : Option Text → Bool
is_truthy (some (c ∷ s)) = true
is_truthy _ = false

-- The first test that a peer fails.
unfoldable pub peer_verdict : Bool → Bool → Bool → Bool → Option ConfigError
peer_verdict bad_public bad_preshared bad_ips bad_endpoint =
    if bad_public
    then some public_key_invalid
    else if bad_preshared
    then some preshared_key_invalid
    else if bad_ips
    then some allowed_ips_invalid
    else if bad_endpoint
    then some endpoint_invalid
    else none

unfoldable pub bad_endpoint : PeerDraft → Bool
unfolding valid_host valid_port
bad_endpoint p =
    is_truthy p.endpoint
    && not (is_truthy (some p.host) && (valid_host p.host && valid_port p.port true))

unfoldable pub peer_error : PeerDraft → Option ConfigError
unfolding peer_verdict valid_key every valid_address bad_endpoint
peer_error p =
    peer_verdict (not (is_truthy p.public_key && valid_key (text_or p.public_key) false))
      (is_truthy p.preshared_key && not (valid_key (text_or p.preshared_key) true))
      (not (every valid_address (list_or p.allowed_ips))) (bad_endpoint p)

unfoldable pub peers_error : List PeerDraft → Option ConfigError
unfolding peer_error
peers_error [] = none
peers_error (p ∷ ps) = or_else (peer_error p) (peers_error ps)

-- `!config.addresses || !config.addresses.every(validAddress)`
unfoldable pub bad_addresses : Option (List Text) → Bool
unfolding every valid_address
bad_addresses none = true
bad_addresses (some addresses) = not (every valid_address addresses)

unfoldable pub draft_verdict : Bool → Bool → Option ConfigError → Option ConfigError
draft_verdict bad_private bad_address peers =
    if bad_private
    then some private_key_invalid
    else if bad_address
    then some address_invalid
    else peers

unfoldable pub draft_error : Draft → Option ConfigError
unfolding draft_verdict valid_key bad_addresses peers_error
draft_error d =
    draft_verdict (not (is_truthy d.private_key && valid_key (text_or d.private_key) false))
      (bad_addresses d.addresses) (peers_error d.peers)

unfoldable pub peer_of : PeerDraft → Peer
peer_of p = record {
  section = none;
  description = [];
  disabled = false;
  private_key = text_or p.private_key;
  preshared_key = text_or p.preshared_key;
  public_key = text_or p.public_key;
  allowed_ips = list_or p.allowed_ips;
  endpoint_host = p.host;
  endpoint_port = p.port;
  keepalive = text_or p.keepalive;
  route_allowed = p.route_allowed;
}

unfoldable pub connection_of : Draft → Connection
unfolding peer_of
connection_of d = record {
  section = none;
  name = codes "Imported connection";
  is_awg = d.is_awg;
  enabled = true;
  private_key = text_or d.private_key;
  public_key = [];
  addresses = list_or d.addresses;
  dns = list_or d.dns;
  listen_port = text_or d.listen_port;
  mtu = text_or d.mtu;
  fwmark = text_or d.fwmark;
  nohostroute = false;
  awg = d.awg;
  peers = map peer_of d.peers;
}

pub data Parsed : Type 0 where
  rejected : ConfigError → Parsed
  parsed : Connection → Parsed

unfoldable pub outcome : Option ConfigError → Connection → Parsed
outcome (some e) c = rejected e
outcome none c = parsed c

unfoldable pub check_draft : Draft → Parsed
unfolding draft_error connection_of outcome
check_draft d = outcome (draft_error d) (connection_of d)

unfoldable pub parse_config : Text → Parsed
unfolding read_draft check_draft
parse_config text = check_draft (read_draft text)

abbrev pub key_line : Text → Text → Text
key_line key value = key ++ (32 ∷ b'=' ∷ 32 ∷ value)

-- `key + ' = ' + value`, unless the value is empty.
unfoldable pub optional_line : Text → Text → List Text
optional_line key [] = []
optional_line key (c ∷ value) = key_line key (c ∷ value) ∷ []

unfoldable pub list_line : Text → List Text → List Text
unfolding list_text
list_line key [] = []
list_line key (v ∷ vs) = key_line key (list_text (v ∷ vs)) ∷ []

-- `connection.awg[name]`, where a missing value is as good as an empty one.
unfoldable pub awg_value : Text → List (Text × Text) → Text
unfolding text_eq
awg_value name [] = []
awg_value name ((n, v) ∷ options) =
    let rest = awg_value name options in if text_eq n name then v else rest

unfoldable pub awg_lines : List AwgOption → List (Text × Text) → List Text
unfolding optional_line awg_value
awg_lines [] awg = []
awg_lines (o ∷ os) awg = optional_line o.key (awg_value o.name awg) ++ awg_lines os awg

unfoldable pub interface_lines : Connection → List Text
unfolding optional_line list_line awg_lines
interface_lines c =
    optional_line (codes "PrivateKey") c.private_key
    ++ (list_line (codes "Address") c.addresses
        ++ (optional_line (codes "ListenPort") c.listen_port
            ++ (optional_line (codes "MTU") c.mtu
                ++ (optional_line (codes "FwMark") c.fwmark
                    ++ (list_line (codes "DNS") c.dns
                        ++ (if c.is_awg then awg_lines awg_options c.awg else []))))))

unfoldable pub endpoint_line : Text → Text → List Text
unfolding endpoint_text
endpoint_line [] port = []
endpoint_line (c ∷ host) port = key_line (codes "Endpoint") (endpoint_text (c ∷ host) port) ∷ []

unfoldable pub peer_lines : Peer → List Text
unfolding optional_line list_line endpoint_line
peer_lines p =
    optional_line (codes "PublicKey") p.public_key
    ++ (optional_line (codes "PrivateKey") p.private_key
        ++ (optional_line (codes "PresharedKey") p.preshared_key
            ++ (list_line (codes "AllowedIPs") p.allowed_ips
                ++ (endpoint_line p.endpoint_host p.endpoint_port
                    ++ optional_line (codes "PersistentKeepalive") p.keepalive))))

unfoldable pub all_peer_lines : List Peer → List Text
unfolding peer_lines
all_peer_lines [] = []
all_peer_lines (p ∷ ps) = [] ∷ codes "[Peer]" ∷ (peer_lines p ++ all_peer_lines ps)

unfoldable pub serialize_config : Connection → Text
unfolding joined interface_lines all_peer_lines
serialize_config c =
    joined 10 (codes "[Interface]") (interface_lines c ++ all_peer_lines c.peers) ++ 10 ∷ []
