-- ===== src/Connections/Status.antt =====
-- What freenetic-connections-core.js reads of the running system: the packages, the sections of peers
-- and the state of tunnels. A value `+x || 0` is given as the number it is.
use freenetic.Base.{
  ℕ, Bool, not, ◌&&◌, List, [], ◌∷◌, ◌++◌, Option, none, some, Text, codes, text_eq, some_of,
  starts_with, keep, if◌then◌else◌,
}
use freenetic.Multiwan.Values.{Section, section_name}

-- `packageMap`: the names that are set.
unfoldable pub package_map : List (Option Text) → List Text
package_map [] = []
package_map (none ∷ items) = package_map items
package_map (some [] ∷ items) = package_map items
package_map (some (c ∷ name) ∷ items) = (c ∷ name) ∷ package_map items

unfoldable pub is_edited : Text → Bool
unfolding some_of text_eq
is_edited key = some_of (text_eq key) (
    codes "description"
    ∷ codes "disabled"
    ∷ codes "public_key"
    ∷ codes "private_key"
    ∷ codes "preshared_key"
    ∷ codes "allowed_ips"
    ∷ codes "endpoint_host"
    ∷ codes "endpoint_port"
    ∷ codes "persistent_keepalive"
    ∷ codes "route_allowed_ips"
    ∷ codes "freenetic_managed"
    ∷ [])

-- The keys of a peer that the form does not show.
unfoldable pub advanced_peer_options : List Text → List Text
unfolding keep is_edited starts_with
advanced_peer_options keys =
    keep (λ key. not (starts_with key (codes ".")) && not (is_edited key)) keys

abbrev pub peer_type : Bool → Text
peer_type is_awg = if is_awg then codes "amneziawg_" else codes "wireguard_"

-- The loop over the sections of one type: the first section of each name.
unfoldable pub add_sections : List Text → List Section → List Section
unfolding section_name some_of text_eq
add_sections seen [] = []
add_sections seen (s ∷ sections) = elim (section_name s) [
  | none ↦ add_sections seen sections
  | some name ↦
      let again = some_of (text_eq name) seen in
      let rest = add_sections (if again then seen else name ∷ seen) sections in
      if again then rest else s ∷ rest
]

-- `uci.sections('network', type)` is an argument.
unfoldable pub peer_sections_for : (Text → List Section) → Text → List Section
unfolding add_sections
peer_sections_for sections name =
    add_sections [] (sections (codes "wireguard_" ++ name) ++ sections (codes "amneziawg_" ++ name))

-- A peer as the tunnel's state shows it; a missing text is empty.
pub record PeerState : Type 0 where
  pub public_key : Text
  pub latest_handshake : ℕ
  pub transfer_rx : ℕ
  pub transfer_tx : ℕ
  pub endpoint : Text

pub record DeviceState : Type 0 where
  pub private_key : Text
  pub listen_port : Text
  pub fwmark : Text
  pub peers : List PeerState

-- `peers[key] = …`: a key that is there keeps its place.
unfoldable pub put_peer : PeerState → List PeerState → List PeerState
unfolding text_eq
put_peer p [] = p ∷ []
put_peer p (q ∷ qs) =
    let rest = put_peer p qs in if text_eq q.public_key p.public_key then p ∷ qs else q ∷ rest

unfoldable pub add_peers : List PeerState → List PeerState → List PeerState
unfolding put_peer
add_peers peers [] = peers
add_peers peers (p ∷ ps) = elim (p.public_key) [
  | [] ↦ add_peers peers ps
  | c ∷ key ↦ add_peers (put_peer p peers) ps
]

unfoldable pub normalize_device : DeviceState → DeviceState
unfolding add_peers
normalize_device d = record d { peers = add_peers [] d.peers }

unfoldable pub normalize_dump_status : List (Text × DeviceState) → List (Text × DeviceState)
unfolding normalize_device
normalize_dump_status [] = []
normalize_dump_status ((name, device) ∷ devices) =
    (name, normalize_device device) ∷ normalize_dump_status devices
