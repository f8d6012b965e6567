-- ===== src/Connections/Read.antt =====
-- The host and the port of each peer that is read are those of its endpoint.
use freenetic.Base.{
  ◌||◌, List, [], ◌∷◌, ◌≡◌, refl, sym, Option, none, some, if-intro, Text, codes, text_eq, All,
  All-append, trim_start, trim_end,
}
use mathlib.Core.Path.{subst}
use freenetic.Network.Address.{split_on}
use freenetic.Connections.Fields.{parse_endpoint, endpoint_of}
use freenetic.Connections.Draft.{
  Head, Line, Reading, apply_line, read_line, read_lines, Draft, PeerDraft, no_peer, no_draft,
  interface, peer, header, item, other, set_interface, set_peer, set_last, read_draft, known_awg,
  set_known, without_return,
}
use freenetic.Connections.Config.{text_or}

-- The host and the port are those of the endpoint.
unfoldable pub IsRead : PeerDraft → Type 0
IsRead p =
    p.host ≡ (parse_endpoint (text_or p.endpoint)).0
    × p.port ≡ (parse_endpoint (text_or p.endpoint)).1

pub no_peer-IsRead : IsRead no_peer
unfolding IsRead parse_endpoint endpoint_of trim_start trim_end
no_peer-IsRead = (refl, refl)

pub set_peer-IsRead : (key value : Text) (p : PeerDraft) → IsRead p → IsRead (set_peer key value p)
unfolding IsRead set_peer
set_peer-IsRead key value p h =
    if-intro IsRead (text_eq key (codes "publickey")) (λ _. h)
      (λ _.
        if-intro IsRead (text_eq key (codes "privatekey")) (λ _. h)
          (λ _.
            if-intro IsRead (text_eq key (codes "presharedkey")) (λ _. h)
              (λ _.
                if-intro IsRead (text_eq key (codes "allowedips")) (λ _. h)
                  (λ _.
                    if-intro IsRead (text_eq key (codes "endpoint")) (λ _. (refl, refl))
                      (λ _.
                        if-intro IsRead (text_eq key (codes "persistentkeepalive")) (λ _. h)
                          (λ _.
                            if-intro IsRead (text_eq key (codes "routeallowedips")) (λ _. h)
                              (λ _. h)))))))

pub set_last-IsRead :
    (f : PeerDraft → PeerDraft) (ps : List PeerDraft)
    → ((p : PeerDraft) → IsRead p → IsRead (f p))
    → All IsRead ps
    → All IsRead (set_last f ps)
unfolding set_last
set_last-IsRead f [] k h = tt
set_last-IsRead f (p ∷ []) k (h, _) = (k p h, tt)
set_last-IsRead f (p ∷ q ∷ ps) k (h, hs) = (h, set_last-IsRead f (q ∷ ps) k hs)

-- The lines of an interface leave the peers alone.
pub set_interface-peers :
    (key value : Text) (d : Draft) → (set_interface key value d).peers ≡ d.peers
unfolding set_interface set_known
set_interface-peers key value d =
    if-intro Same (text_eq key (codes "privatekey")) (λ _. refl)
      (λ _.
        if-intro Same (text_eq key (codes "address") || text_eq key (codes "addresses")) (λ _. refl)
          (λ _.
            if-intro Same (text_eq key (codes "listenport")) (λ _. refl)
              (λ _.
                if-intro Same (text_eq key (codes "mtu")) (λ _. refl)
                  (λ _.
                    if-intro Same (text_eq key (codes "fwmark")) (λ _. refl)
                      (λ _.
                        if-intro Same (text_eq key (codes "dns")) (λ _. refl)
                          (λ _. known (known_awg key)))))))
  where
    Same : Draft → Type 0
    Same e = e.peers ≡ d.peers

    known : (o : Option Text) → (set_known o value d).peers ≡ d.peers
    known none = refl
    known (some name) = refl

pub apply_line-IsRead :
    (l : Line) (s : Option Head) (d : Draft)
    → All IsRead d.peers
    → All IsRead (apply_line l (record { section = s; draft = d })).draft.peers
unfolding apply_line
apply_line-IsRead (header interface) s d h = h
apply_line-IsRead (header peer) s d h =
    All-append IsRead d.peers (no_peer ∷ []) h (no_peer-IsRead, tt)
apply_line-IsRead (item key value) none d h = h
apply_line-IsRead (item key value) (some interface) d h =
    subst (All IsRead) (sym (set_interface-peers key value d)) h
apply_line-IsRead (item key value) (some peer) d h =
    set_last-IsRead (set_peer key value) d.peers (set_peer-IsRead key value) h
apply_line-IsRead other s d h = h

pub read_lines-IsRead :
    (l : Text) (ls : List Text) (r : Reading)
    → All IsRead r.draft.peers
    → All IsRead (read_lines l ls r).draft.peers
unfolding read_lines
read_lines-IsRead l [] r h = apply_line-IsRead (read_line l) r.section r.draft h
read_lines-IsRead l (m ∷ ms) r h =
    let next = apply_line (read_line (without_return l)) r in
    read_lines-IsRead m ms next
      (apply_line-IsRead (read_line (without_return l)) r.section r.draft h)

pub read_draft-IsRead : (text : Text) → All IsRead (read_draft text).peers
unfolding read_draft
read_draft-IsRead text =
    read_lines-IsRead (split_on 10 text).0 (split_on 10 text).1
      (record { section = none; draft = no_draft }) tt
