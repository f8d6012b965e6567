-- ===== src/Network/Address/Ipv4.antt =====
-- What `validIPv4` accepts, and which masks `validIPv4Netmask` accepts.
use freenetic.Base.{
  Bool, true, ◌&&◌, ◌≡◌, ◌↔◌, refl, sym, ap, ◌∙◌, List, [], ◌∷◌, ◌++◌, ◌==◌, ==_iff, Text, every,
  is_decimal, length, arith,
}
use freenetic.Network.Address.{split_on, valid_octet, valid_ipv4}
use freenetic.Network.Address.Split.{joined, free, joined-split_on, split_on-joined, decimal-free}

both : (a b : Bool) → (a && b) ≡ true → (a ≡ true) × (b ≡ true)
both a b e = ground arith

valid_octet-free : (s : Text) → valid_octet s ≡ true → free b'.' s ≡ true
unfolding valid_octet
valid_octet-free s h = let (d, _) = both (is_decimal s) _ h in decimal-free b'.' s refl d

-- Four octets, each of one to three digits with a value of at most 255, with points between them.
pub record IsIpv4 (s : Text) : Type 0 where
  pub a : Text
  pub b : Text
  pub c : Text
  pub d : Text
  pub shape : s ≡ a ++ (b'.' ∷ (b ++ (b'.' ∷ (c ++ (b'.' ∷ d)))))
  pub octets : every valid_octet (a ∷ b ∷ c ∷ d ∷ []) ≡ true

four : (ps : List Text) → length ps ≡ 3 → (b c d : Text) × (ps ≡ b ∷ c ∷ d ∷ [])
four [] h = absurd (omega arith)
four (b ∷ []) h = absurd (omega arith)
four (b ∷ c ∷ []) h = absurd (omega arith)
four (b ∷ c ∷ d ∷ []) h = (b, c, d, refl)
four (b ∷ c ∷ d ∷ e ∷ ps) h = absurd (omega arith)

valid_ipv4-shape : (s : Text) → valid_ipv4 s ≡ true → IsIpv4 s
unfolding valid_ipv4 joined
valid_ipv4-shape s h =
    let (size, octets) = both (length (split_on b'.' s).1 == 3) _ h in
    let (b, c, d, e) = four (split_on b'.' s).1 ((==_iff _ _).0 size) in
    record {
      a = (split_on b'.' s).0;
      b = b;
      c = c;
      d = d;
      shape = sym (ap (joined b'.' (split_on b'.' s).0) (sym e) ∙ joined-split_on b'.' s);
      octets = rw e at octets;
    }

pub every-octets :
    (a b c d : Text)
    → every valid_octet (a ∷ b ∷ c ∷ d ∷ []) ≡ true
    → (valid_octet a ≡ true)
      × (valid_octet b ≡ true)
      × (valid_octet c ≡ true)
      × (valid_octet d ≡ true)
unfolding every
every-octets a b c d h = ground arith

pub split-octets :
    (a b c d : Text)
    → every valid_octet (a ∷ b ∷ c ∷ d ∷ []) ≡ true
    → split_on b'.' (joined b'.' a (b ∷ c ∷ d ∷ [])) ≡ (a, b ∷ c ∷ d ∷ [])
split-octets a b c d h =
    let (ha, hb, hc, hd) = every-octets a b c d h in
    split_on-joined b'.' a (b ∷ c ∷ d ∷ []) (valid_octet-free a ha)
      (valid_octet-free b hb, (valid_octet-free c hc, (valid_octet-free d hd, tt)))

IsIpv4-valid : (s : Text) → IsIpv4 s → valid_ipv4 s ≡ true
unfolding valid_ipv4 joined
IsIpv4-valid s r =
    let cut = split-octets r.a r.b r.c r.d r.octets in rw (r.shape, cut, r.octets) refl

-- `validIPv4` accepts exactly four octets with points between them, each of one to three digits with a
-- value of at most 255.
pub valid_ipv4_iff : (s : Text) → (valid_ipv4 s ≡ true) ↔ IsIpv4 s
valid_ipv4_iff s = (valid_ipv4-shape s, IsIpv4-valid s)
