-- ===== src/Connections/Draft.antt =====
-- The lines of a WireGuard or AmneziaWG configuration in freenetic-connections-core.js, and the loop of
-- `parseConfig` that reads them.
use freenetic.Base.{
  ℕ, Bool, true, false, not, ◌&&◌, ◌||◌, List, [], ◌∷◌, ◌++◌, Option, none, some, ◌==◌, Text, codes,
  text_eq, lower, some_of, if◌then◌else◌,
}
use freenetic.Network.Address.{split_on}
use freenetic.Network.Ipv6.{cut_at}
use freenetic.Connections.Fields.{trim, parse_list, parse_endpoint}
pub mod Items
pub use freenetic.Connections.Draft.Items.{
  AwgOption, Head, interface, peer, Line, header, item, other,
}
unfoldable pub use freenetic.Connections.Draft.Items.{
  awg_options, known_awg, is_line_end, uncommented, unsnoc, header_of, item_or_other, item_of_parts,
  item_of, line_of, read_line,
}

-- A peer while the file is read: an option that the file does not have is undefined.
pub record PeerDraft : Type 0 where
  pub public_key : Option Text
  pub private_key : Option Text
  pub preshared_key : Option Text
  pub allowed_ips : Option (List Text)
  pub endpoint : Option Text
  pub host : Text
  pub port : Text
  pub keepalive : Option Text
  pub route_allowed : Bool

pub record Draft : Type 0 where
  pub private_key : Option Text
  pub addresses : Option (List Text)
  pub listen_port : Option Text
  pub mtu : Option Text
  pub fwmark : Option Text
  pub dns : Option (List Text)
  pub awg : List (Text × Text)
  pub is_awg : Bool
  pub peers : List PeerDraft

-- `section`, and the configuration. The current peer is the last one of the list.
pub record Reading : Type 0 where
  pub section : Option Head
  pub draft : Draft

abbrev pub no_peer : PeerDraft
no_peer = record {
  public_key = none;
  private_key = none;
  preshared_key = none;
  allowed_ips = none;
  endpoint = none;
  host = [];
  port = [];
  keepalive = none;
  route_allowed = false;
}

abbrev pub no_draft : Draft
no_draft = record {
  private_key = none;
  addresses = none;
  listen_port = none;
  mtu = none;
  fwmark = none;
  dns = none;
  awg = [];
  is_awg = false;
  peers = [];
}

-- `target.awg[name] = value`
unfoldable pub set_awg : Text → Text → List (Text × Text) → List (Text × Text)
unfolding text_eq
set_awg name value [] = (name, value) ∷ []
set_awg name value ((n, v) ∷ options) =
    let rest = set_awg name value options in
    if text_eq n name then (n, value) ∷ options else (n, v) ∷ rest

-- An AmneziaWG option, and the protocol.
unfoldable pub set_known : Option Text → Text → Draft → Draft
unfolding set_awg
set_known none value d = d
set_known (some name) value d = record d { awg = set_awg name value d.awg; is_awg = true }

unfoldable pub set_interface : Text → Text → Draft → Draft
unfolding text_eq parse_list known_awg set_known
set_interface key value d =
    if text_eq key (codes "privatekey")
    then record d { private_key = some value }
    else if text_eq key (codes "address") || text_eq key (codes "addresses")
    then record d { addresses = some (parse_list value) }
    else if text_eq key (codes "listenport")
    then record d { listen_port = some value }
    else if text_eq key (codes "mtu")
    then record d { mtu = some value }
    else if text_eq key (codes "fwmark")
    then record d { fwmark = some value }
    else if text_eq key (codes "dns")
    then record d { dns = some (parse_list value) }
    else set_known (known_awg key) value d

unfoldable pub set_peer : Text → Text → PeerDraft → PeerDraft
unfolding text_eq parse_list parse_endpoint lower
set_peer key value p =
    if text_eq key (codes "publickey")
    then record p { public_key = some value }
    else if text_eq key (codes "privatekey")
    then record p { private_key = some value }
    else if text_eq key (codes "presharedkey")
    then record p { preshared_key = some value }
    else if text_eq key (codes "allowedips")
    then record p { allowed_ips = some (parse_list value) }
    else if text_eq key (codes "endpoint")
    then record p {
      endpoint = some value;
      host = (parse_endpoint value).0;
      port = (parse_endpoint value).1;
    }
    else if text_eq key (codes "persistentkeepalive")
    then record p { keepalive = some value }
    else if text_eq key (codes "routeallowedips")
    then record p {
      route_allowed = text_eq value (codes "1") || text_eq (lower value) (codes "true");
    }
    else p

unfoldable pub set_last : (PeerDraft → PeerDraft) → List PeerDraft → List PeerDraft
set_last f [] = []
set_last f (p ∷ []) = f p ∷ []
set_last f (p ∷ q ∷ ps) = p ∷ set_last f (q ∷ ps)

unfoldable pub apply_line : Line → Reading → Reading
unfolding set_interface set_peer set_last
apply_line (header interface) r = record r { section = some interface }
apply_line (header peer) r = record r {
  section = some peer;
  draft = record r.draft { peers = r.draft.peers ++ no_peer ∷ [] };
}
apply_line (item key value) r = elim (r.section) [
  | none ↦ r
  | some interface ↦ record r { draft = set_interface key value r.draft }
  | some peer ↦ record r {
    draft = record r.draft { peers = set_last (set_peer key value) r.draft.peers };
  }
]
apply_line other r = r

-- `split(/\r?\n/)` drops a return in front of each line feed.
unfoldable pub without_return : Text → Text
without_return [] = []
without_return (c ∷ []) = if c == 13 then [] else c ∷ []
without_return (c ∷ d ∷ s) = c ∷ without_return (d ∷ s)

unfoldable pub read_lines : Text → List Text → Reading → Reading
unfolding read_line apply_line without_return
read_lines l [] r = apply_line (read_line l) r
read_lines l (m ∷ ms) r = read_lines m ms (apply_line (read_line (without_return l)) r)

unfoldable pub read_draft : Text → Draft
unfolding split_on read_lines
read_draft text =
    let (line, lines) = split_on 10 text in
    (read_lines line lines (record { section = none; draft = no_draft })).draft
