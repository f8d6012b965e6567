-- ===== src/Dashboard/Wan/Groups.antt =====
-- The connections of `getWanConnections`: interfaces by their devices.
use mathlib.Core.List.{Perm}
use mathlib.Core.List.Perm
use freenetic.Base.{
  false, ◌≡◌, inl, inr, refl, sym, List, [], ◌∷◌, ◌++◌, append_assoc, append-nil, Text, text_eq,
  text_eq_iff, Bool-cases, All, All-append, keep, some_of,
}
use freenetic.Multiwan.Values.{Section}
use freenetic.Dashboard.Wan.{
  Iface, Group, device_of, add_to_groups, group_ifaces, wan_names, wan_connections,
}

module _ {Address Route : Type 0} where
  -- All interfaces of the group are on its device, and there is one.
  unfoldable pub IsOnDevice : Group Address Route → Type 0
  IsOnDevice g = All (λ (e : Iface Address Route). device_of e ≡ g.device) g.ifaces

  -- No two groups have the same device.
  unfoldable pub IsApart : List (Group Address Route) → Type 0
  IsApart [] = Unit
  IsApart (g ∷ gs) =
      All (λ (h : Group Address Route). text_eq g.device h.device ≡ false) gs × IsApart gs

  abbrev pub members : List (Group Address Route) → List (Iface Address Route)
  members [] = []
  members (g ∷ gs) = g.ifaces ++ members gs

  add_to_groups-IsOnDevice :
      (e : Iface Address Route) (gs : List (Group Address Route))
      → All IsOnDevice gs
      → All IsOnDevice (add_to_groups e gs)
  unfolding add_to_groups IsOnDevice
  add_to_groups-IsOnDevice e [] h = ((refl, tt), tt)
  add_to_groups-IsOnDevice e (g ∷ gs) (h, hs) = elim (Bool-cases (text_eq g.device (device_of e))) [
    | inl same ↦ rw same (
      (All-append (λ (i : Iface Address Route). device_of i ≡ g.device) g.ifaces (e ∷ []) h
          (sym ((text_eq_iff g.device (device_of e)).0 same), tt)),
      hs,
    )
    | inr apart ↦ rw apart (h, add_to_groups-IsOnDevice e gs hs)
  ]

  still_apart :
      (d : Text) (e : Iface Address Route) (gs : List (Group Address Route))
      → text_eq d (device_of e) ≡ false
      → All (λ (h : Group Address Route). text_eq d h.device ≡ false) gs
      → All (λ (h : Group Address Route). text_eq d h.device ≡ false) (add_to_groups e gs)
  unfolding add_to_groups
  still_apart d e [] n h = (n, tt)
  still_apart d e (g ∷ gs) n (h, hs) = elim (Bool-cases (text_eq g.device (device_of e))) [
    | inl same ↦ rw same (h, hs)
    | inr apart ↦ rw apart (h, still_apart d e gs n hs)
  ]

  add_to_groups-IsApart :
      (e : Iface Address Route) (gs : List (Group Address Route))
      → IsApart gs
      → IsApart (add_to_groups e gs)
  unfolding add_to_groups IsApart
  add_to_groups-IsApart e [] h = (tt, tt)
  add_to_groups-IsApart e (g ∷ gs) (h, hs) = elim (Bool-cases (text_eq g.device (device_of e))) [
    | inl same ↦ rw same (h, hs)
    | inr apart ↦ rw apart (still_apart g.device e gs apart h, add_to_groups-IsApart e gs hs)
  ]

  -- An element behind a list may as well stand in front of it.
  to_front :
      (e : Iface Address Route) (xs ys : List (Iface Address Route))
      → Perm (xs ++ e ∷ ys) (e ∷ (xs ++ ys))
  to_front e [] ys = Perm.refl (e ∷ ys)
  to_front e (x ∷ xs) ys = Perm.trans (Perm.cons x (to_front e xs ys)) (Perm.swap e x (xs ++ ys))

  below :
      (xs : List (Iface Address Route)) {ys zs : List (Iface Address Route)}
      → Perm ys zs
      → Perm (xs ++ ys) (xs ++ zs)
  below [] p = p
  below (x ∷ xs) p = Perm.cons x (below xs p)

  add_to_groups-members :
      (e : Iface Address Route) (gs : List (Group Address Route))
      → Perm (members (add_to_groups e gs)) (e ∷ members gs)
  unfolding add_to_groups
  add_to_groups-members e [] = Perm.refl (e ∷ [])
  add_to_groups-members e (g ∷ gs) = elim (Bool-cases (text_eq g.device (device_of e))) [
    | inl same ↦
        rw (same, append_assoc g.ifaces (e ∷ []) (members gs)) (to_front e g.ifaces (members gs))
    | inr apart ↦ rw apart (
        Perm.trans (below g.ifaces (add_to_groups-members e gs)) (to_front e g.ifaces (members gs)))
  ]

  group_ifaces-members :
      (es : List (Iface Address Route)) (gs : List (Group Address Route))
      → Perm (members (group_ifaces es gs)) (es ++ members gs)
  unfolding group_ifaces
  group_ifaces-members [] gs = Perm.refl (members gs)
  group_ifaces-members (e ∷ es) gs =
      Perm.trans (group_ifaces-members es (add_to_groups e gs))
        (Perm.trans (below es (add_to_groups-members e gs)) (to_front e es (members gs)))

  group_ifaces-kept :
      (es : List (Iface Address Route)) (gs : List (Group Address Route))
      → All IsOnDevice gs × IsApart gs
      → All IsOnDevice (group_ifaces es gs) × IsApart (group_ifaces es gs)
  unfolding group_ifaces
  group_ifaces-kept [] gs h = h
  group_ifaces-kept (e ∷ es) gs (h, k) =
      group_ifaces-kept es (add_to_groups e gs)
        (add_to_groups-IsOnDevice e gs h, add_to_groups-IsApart e gs k)

  -- The interfaces of the zones with NAT, each once, are the members of the groups; the members of a
  -- group are on its device, and no two groups have the same device.
  pub wan_connections-IsApart :
      (firewall : List Section) (dump : List (Iface Address Route))
      → Perm (members (wan_connections firewall dump)) (
          keep
            (λ (e : Iface Address Route). some_of (text_eq e.interface) (wan_names firewall []))
            dump)
        × All IsOnDevice (wan_connections firewall dump)
        × IsApart (wan_connections firewall dump)
  unfolding wan_connections IsApart
  wan_connections-IsApart firewall dump =
      let es =
        keep (λ (e : Iface Address Route). some_of (text_eq e.interface) (wan_names firewall []))
          dump in
      let p = group_ifaces-members es [] in
      let (on, apart) = group_ifaces-kept es [] (tt, tt) in (rw (append-nil es) at p, on, apart)
