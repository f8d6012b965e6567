-- ===== src/Connections/Round/Portable.antt =====
-- The connections that a file can hold, and what the file keeps of them.
use freenetic.Base.{
  true, false, ◌&&◌, [], ◌∷◌, ◌≡◌, ◌≢◌, none, Text, codes, every, if◌then◌else◌, All, map,
}
use freenetic.Connections.Fields.{valid_key, valid_address}
use freenetic.Connections.Draft.{AwgOption, awg_options}
use freenetic.Connections.Config.{Connection, Peer, awg_value}
use freenetic.Connections.Lines.{IsWritable}
use freenetic.Connections.Round.Peers.{IsPortablePeer}
use freenetic.Connections.Round.Interface.{awg_pairs, IsPortableInterface}
use freenetic.Connections.Round.Awg.{is_cons}

-- A connection that a file can hold and that the code accepts.
unfoldable pub IsPortable : Connection → Type 0
IsPortable c =
    IsPortableInterface c
    × (c.private_key ≢ [] × valid_key c.private_key false ≡ true)
    × (c.addresses ≢ [] × every valid_address c.addresses ≡ true)
    × All (λ (o : AwgOption). IsWritable (awg_value o.name c.awg)) awg_options
    × All IsPortablePeer c.peers

unfoldable pub port_behind : Text → Text → Text
port_behind [] port = []
port_behind (c ∷ host) port = port

-- What a file keeps of a peer: not its section, description and state, and not whether it is routed.
unfoldable pub imported_peer : Peer → Peer
unfolding port_behind
imported_peer p = record {
  section = none;
  description = [];
  disabled = false;
  private_key = p.private_key;
  preshared_key = p.preshared_key;
  public_key = p.public_key;
  allowed_ips = p.allowed_ips;
  endpoint_host = p.endpoint_host;
  endpoint_port = port_behind p.endpoint_host p.endpoint_port;
  keepalive = p.keepalive;
  route_allowed = false;
}

-- What a file keeps of a connection.
unfoldable pub imported : Connection → Connection
unfolding imported_peer
imported c = record {
  section = none;
  name = codes "Imported connection";
  is_awg = c.is_awg && is_cons (awg_pairs awg_options c.awg);
  enabled = true;
  private_key = c.private_key;
  public_key = [];
  addresses = c.addresses;
  dns = c.dns;
  listen_port = c.listen_port;
  mtu = c.mtu;
  fwmark = c.fwmark;
  nohostroute = false;
  awg = if c.is_awg then awg_pairs awg_options c.awg else [];
  peers = map imported_peer c.peers;
}
