-- ===== src/Connections/Round/Interface.antt =====
-- The lines of the interface, read back.
use freenetic.Base.{
  Bool, false, List, [], ◌∷◌, ◌++◌, ◌≡◌, refl, ap, ◌∙◌, some, Text, codes, text_eq, every, lower,
  All, trim_start, trim_end, is_space,
}
use freenetic.Network.Address.Split.{free}
use freenetic.Connections.Draft.{
  Reading, apply_line, Draft, interface, set_interface, AwgOption, no_draft,
}
use freenetic.Connections.Config.{Connection, optional_line, list_line, awg_value}
use freenetic.Connections.Lines.{IsWritable, IsKey}
use freenetic.Connections.Tokens.{IsToken, parse_list-list_text}
use freenetic.Connections.Round.{
  fold_lines, fold_lines-append, fold_lines-optional, fold_lines-list, set_option, set_list,
}
use freenetic.Connections.Round.Drafted.{some_text, some_list}

-- An option, where it has a value.
unfoldable pub pair_before : Text → Text → List (Text × Text) → List (Text × Text)
pair_before name [] rest = rest
pair_before name (c ∷ v) rest = (name, c ∷ v) ∷ rest

-- The options that have a value, under their names in UCI, in the order of the table.
unfoldable pub awg_pairs : List AwgOption → List (Text × Text) → List (Text × Text)
unfolding pair_before
awg_pairs [] awg = []
awg_pairs (o ∷ os) awg = pair_before o.name (awg_value o.name awg) (awg_pairs os awg)

abbrev pub at_interface : Draft → Reading
at_interface d = record { section = some interface; draft = d }

then_option :
    (key v : Text) (ls : List Text) (d : Draft)
    → IsKey key
    → IsWritable v
    → fold_lines (optional_line key v ++ ls) (at_interface d)
      ≡ fold_lines ls (set_option key v (at_interface d))
then_option key v ls d k h =
    fold_lines-append (optional_line key v) ls (at_interface d)
    ∙ ap (fold_lines ls) (fold_lines-optional key v (at_interface d) k h)

then_list :
    (key : Text) (vs ls : List Text) (d : Draft)
    → IsKey key
    → All IsToken vs
    → fold_lines (list_line key vs ++ ls) (at_interface d)
      ≡ fold_lines ls (set_list key vs (at_interface d))
then_list key vs ls d k h =
    fold_lines-append (list_line key vs) ls (at_interface d)
    ∙ ap (fold_lines ls) (fold_lines-list key vs (at_interface d) k h)

-- A draft from the values that are written.
abbrev pub written :
    Text → List Text → Text → Text → Text → List Text → List (Text × Text) → Bool → Draft
written private addresses port mtu fwmark dns awg is_awg = record {
  private_key = some_text private;
  addresses = some_list addresses;
  listen_port = some_text port;
  mtu = some_text mtu;
  fwmark = some_text fwmark;
  dns = some_list dns;
  awg = awg;
  is_awg = is_awg;
  peers = [];
}

set_private :
    (v : Text)
    → set_option (codes "PrivateKey") v (at_interface no_draft)
      ≡ at_interface (written v [] [] [] [] [] [] false)
unfolding set_option apply_line set_interface text_eq lower
set_private [] = refl
set_private (c ∷ v) = refl

set_addresses :
    (a : Text) (vs : List Text)
    → All IsToken vs
    → set_list (codes "Address") vs (at_interface (written a [] [] [] [] [] [] false))
      ≡ at_interface (written a vs [] [] [] [] [] false)
unfolding set_list apply_line set_interface text_eq lower
set_addresses a [] h = refl
set_addresses a (v ∷ vs) h =
    ap (λ xs. at_interface (record (written a [] [] [] [] [] [] false) { addresses = some xs }))
      (parse_list-list_text (v ∷ vs) h)

set_port :
    (a : Text) (vs : List Text) (v : Text)
    → set_option (codes "ListenPort") v (at_interface (written a vs [] [] [] [] [] false))
      ≡ at_interface (written a vs v [] [] [] [] false)
unfolding set_option apply_line set_interface text_eq lower
set_port a vs [] = refl
set_port a vs (c ∷ v) = refl

set_mtu :
    (a : Text) (vs : List Text) (p v : Text)
    → set_option (codes "MTU") v (at_interface (written a vs p [] [] [] [] false))
      ≡ at_interface (written a vs p v [] [] [] false)
unfolding set_option apply_line set_interface text_eq lower
set_mtu a vs p [] = refl
set_mtu a vs p (c ∷ v) = refl

set_fwmark :
    (a : Text) (vs : List Text) (p m v : Text)
    → set_option (codes "FwMark") v (at_interface (written a vs p m [] [] [] false))
      ≡ at_interface (written a vs p m v [] [] false)
unfolding set_option apply_line set_interface text_eq lower
set_fwmark a vs p m [] = refl
set_fwmark a vs p m (c ∷ v) = refl

set_dns :
    (a : Text) (vs : List Text) (p m f : Text) (ds : List Text)
    → All IsToken ds
    → set_list (codes "DNS") ds (at_interface (written a vs p m f [] [] false))
      ≡ at_interface (written a vs p m f ds [] false)
unfolding set_list apply_line set_interface text_eq lower
set_dns a vs p m f [] h = refl
set_dns a vs p m f (d ∷ ds) h =
    ap (λ xs. at_interface (record (written a vs p m f [] [] false) { dns = some xs }))
      (parse_list-list_text (d ∷ ds) h)

pub interface_keys :
    IsKey (codes "PrivateKey")
    × IsKey (codes "Address")
    × IsKey (codes "ListenPort")
    × IsKey (codes "MTU")
    × IsKey (codes "FwMark")
    × IsKey (codes "DNS")
unfolding IsKey is_space every free trim_start trim_end
interface_keys = (
  (refl, refl, refl, refl, refl),
  (refl, refl, refl, refl, refl),
  (refl, refl, refl, refl, refl),
  (refl, refl, refl, refl, refl),
  (refl, refl, refl, refl, refl),
  (refl, refl, refl, refl, refl),
)

-- An interface that a file can hold.
unfoldable pub IsPortableInterface : Connection → Type 0
IsPortableInterface c =
    IsWritable c.private_key
    × All IsToken c.addresses
    × IsWritable c.listen_port
    × IsWritable c.mtu
    × IsWritable c.fwmark
    × All IsToken c.dns

-- The lines in front of the AmneziaWG options.
pub fold_lines-interface :
    (c : Connection) (ls : List Text)
    → IsPortableInterface c
    → fold_lines
        (optional_line (codes "PrivateKey") c.private_key
          ++ (list_line (codes "Address") c.addresses
              ++ (optional_line (codes "ListenPort") c.listen_port
                  ++ (optional_line (codes "MTU") c.mtu
                      ++ (optional_line (codes "FwMark") c.fwmark
                          ++ (list_line (codes "DNS") c.dns ++ ls))))))
        (at_interface no_draft)
      ≡ fold_lines ls (
          at_interface
            (written c.private_key c.addresses c.listen_port c.mtu c.fwmark c.dns [] false))
unfolding IsPortableInterface
fold_lines-interface c ls (wa, was, wp, wm, wf, wds) =
    let (ka, kas, kp, km, kf, kds) = interface_keys in
    let a = c.private_key in
    let vs = c.addresses in
    let p = c.listen_port in
    let m = c.mtu in
    let f = c.fwmark in
    let ds = c.dns in
    let l5 = list_line (codes "DNS") ds ++ ls in
    let l4 = optional_line (codes "FwMark") f ++ l5 in
    let l3 = optional_line (codes "MTU") m ++ l4 in
    let l2 = optional_line (codes "ListenPort") p ++ l3 in
    let l1 = list_line (codes "Address") vs ++ l2 in
    then_option (codes "PrivateKey") a l1 no_draft ka wa
    ∙ ap (fold_lines l1) (set_private a)
    ∙ then_list (codes "Address") vs l2 (written a [] [] [] [] [] [] false) kas was
    ∙ ap (fold_lines l2) (set_addresses a vs was)
    ∙ then_option (codes "ListenPort") p l3 (written a vs [] [] [] [] [] false) kp wp
    ∙ ap (fold_lines l3) (set_port a vs p)
    ∙ then_option (codes "MTU") m l4 (written a vs p [] [] [] [] false) km wm
    ∙ ap (fold_lines l4) (set_mtu a vs p m)
    ∙ then_option (codes "FwMark") f l5 (written a vs p m [] [] [] false) kf wf
    ∙ ap (fold_lines l5) (set_fwmark a vs p m f)
    ∙ then_list (codes "DNS") ds ls (written a vs p m f [] [] false) kds wds
    ∙ ap (fold_lines ls) (set_dns a vs p m f ds wds)
