-- ===== src/Connections/Round/Plain.antt =====
-- No line that is written has a line end or a comment in it.
use freenetic.Base.{
  Bool, true, false, List, [], ◌∷◌, ◌++◌, ◌≡◌, ◌⊎◌, refl, inl, inr, Text, codes, every,
  if◌then◌else◌, All, All-append,
}
use freenetic.Connections.Draft.{AwgOption, awg_options}
use freenetic.Connections.Config.{
  Connection, Peer, endpoint_line, awg_lines, awg_value, interface_lines, peer_lines,
  all_peer_lines,
}
use freenetic.Connections.Lines.{IsWritable}
use freenetic.Connections.Endpoints.{IsEndpoint, endpoint-IsWritable}
use freenetic.Connections.Round.{
  IsPlain, key_line-IsPlain, optional_line-IsPlain, list_line-IsPlain,
}
use freenetic.Connections.Round.Peers.{IsPortablePeer, peer_keys, has_host}
use freenetic.Connections.Round.Interface.{IsPortableInterface, interface_keys}
use freenetic.Connections.Round.Awg.{IsAwgKey, awg_keys}
use freenetic.Connections.Round.Portable.{IsPortable}

pub endpoint_line-IsPlain :
    (host port : Text) → host ≡ [] ⊎ IsEndpoint host port → All IsPlain (endpoint_line host port)
unfolding endpoint_line
endpoint_line-IsPlain [] port h = tt
endpoint_line-IsPlain (c ∷ host) port (inl absurdity) = cc
endpoint_line-IsPlain (c ∷ host) port (inr h) =
    let (_, _, _, _, key, _) = peer_keys in
    (key_line-IsPlain (codes "Endpoint") _ key (endpoint-IsWritable (c ∷ host) port h), tt)

pub plain : (ls ms : List Text) → All IsPlain ls → All IsPlain ms → All IsPlain (ls ++ ms)
plain ls ms h k = All-append IsPlain ls ms h k

pub peer_lines-IsPlain : (p : Peer) → IsPortablePeer p → All IsPlain (peer_lines p)
unfolding peer_lines IsPortablePeer
peer_lines-IsPlain p ((ne, wpub, vpub), wpriv, (wpsk, vpsk), (tips, vips), endpoint, wkeep) =
    let (kpub, kpriv, kpsk, kips, kend, kkeep) = peer_keys in
    plain _ _ (optional_line-IsPlain (codes "PublicKey") p.public_key kpub wpub) (
      plain _ _ (optional_line-IsPlain (codes "PrivateKey") p.private_key kpriv wpriv) (
        plain _ _ (optional_line-IsPlain (codes "PresharedKey") p.preshared_key kpsk wpsk) (
          plain _ _ (list_line-IsPlain (codes "AllowedIPs") p.allowed_ips kips tips) (
            plain _ _
              (endpoint_line-IsPlain p.endpoint_host p.endpoint_port
                (has_host p ((ne, wpub, vpub), wpriv, (wpsk, vpsk), (tips, vips), endpoint, wkeep)))
              (optional_line-IsPlain (codes "PersistentKeepalive") p.keepalive kkeep wkeep)))))

pub all_peer_lines-IsPlain :
    (ps : List Peer) → All IsPortablePeer ps → All IsPlain (all_peer_lines ps)
unfolding all_peer_lines every
all_peer_lines-IsPlain [] h = tt
all_peer_lines-IsPlain (p ∷ ps) (h, hs) = (
  refl,
  (
    refl,
    plain (peer_lines p) (all_peer_lines ps) (peer_lines-IsPlain p h)
        (all_peer_lines-IsPlain ps hs),
  ),
)

pub awg_lines-IsPlain :
    (os : List AwgOption) (awg : List (Text × Text))
    → All IsAwgKey os
    → All (λ (o : AwgOption). IsWritable (awg_value o.name awg)) os
    → All IsPlain (awg_lines os awg)
unfolding awg_lines IsAwgKey
awg_lines-IsPlain [] awg ks ws = tt
awg_lines-IsPlain (o ∷ os) awg ((k, _), ks) (w, ws) =
    plain _ _ (optional_line-IsPlain o.key (awg_value o.name awg) k w)
      (awg_lines-IsPlain os awg ks ws)

pub maybe_awg-IsPlain :
    (b : Bool) (awg : List (Text × Text))
    → All (λ (o : AwgOption). IsWritable (awg_value o.name awg)) awg_options
    → All IsPlain (if b then awg_lines awg_options awg else [])
maybe_awg-IsPlain true awg ws = awg_lines-IsPlain awg_options awg awg_keys ws
maybe_awg-IsPlain false awg ws = tt

pub interface_lines-IsPlain : (c : Connection) → IsPortable c → All IsPlain (interface_lines c)
unfolding interface_lines IsPortable IsPortableInterface
interface_lines-IsPlain c ((wa, was, wp, wm, wf, wds), vk, va, wawg, wps) =
    let (ka, kas, kp, km, kf, kds) = interface_keys in
    plain _ _ (optional_line-IsPlain (codes "PrivateKey") c.private_key ka wa) (
      plain _ _ (list_line-IsPlain (codes "Address") c.addresses kas was) (
        plain _ _ (optional_line-IsPlain (codes "ListenPort") c.listen_port kp wp) (
          plain _ _ (optional_line-IsPlain (codes "MTU") c.mtu km wm) (
            plain _ _ (optional_line-IsPlain (codes "FwMark") c.fwmark kf wf) (
              plain _ _ (list_line-IsPlain (codes "DNS") c.dns kds wds)
                (maybe_awg-IsPlain c.is_awg c.awg wawg))))))
