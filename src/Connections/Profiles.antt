-- ===== src/Connections/Profiles.antt =====
-- OpenVPN profiles in freenetic-connections-core.js: their names and paths, and the check of a profile.
pub mod Paths
use freenetic.Base.{
  trim_start, trim_end, ℕ, ◌*◌, Bool, true, false, not, ◌&&◌, ◌||◌, List, [], ◌∷◌, ◌++◌, Option,
  none, some, ◌==◌, leb, Text, codes, text_eq, is_alnum, is_word, lower, length, every, some_of,
  starts_with, line_feeds, drop, is_some, if◌then◌else◌,
}
use freenetic.Network.Ipv6.{cut_at}
use freenetic.Connections.Fields.{trim, split_last}
use freenetic.Connections.Draft.{is_line_end}

abbrev pub openvpn_variants : List Text
openvpn_variants =
    codes "openvpn-openssl"
    ∷ codes "openvpn-mbedtls"
    ∷ codes "openvpn-wolfssl"
    ∷ codes "openvpn"
    ∷ []

-- `packages[name]` is given as a test.
unfoldable pub openvpn_available : (Text → Bool) → Bool
unfolding some_of
openvpn_available packages = some_of packages openvpn_variants

abbrev pub profile_dir : Text
profile_dir = codes "/etc/openvpn/freenetic/"

-- `[A-Za-z0-9_-]`
abbrev pub is_name : ℕ → Bool
is_name c = is_alnum c || (c == b'_' || c == b'-')

unfoldable pub underscored : Text → Text
underscored [] = []
underscored (c ∷ s) = (if is_name c then c else b'_') ∷ underscored s

unfoldable pub openvpn_profile_name : Text → Text
unfolding underscored
openvpn_profile_name section = elim (underscored section) [
  | [] ↦ codes "connection"
  | c ∷ s ↦ c ∷ s
]

unfoldable pub openvpn_profile_path : Text → Text
unfolding openvpn_profile_name
openvpn_profile_path section = profile_dir ++ (openvpn_profile_name section ++ codes ".ovpn")

unfoldable pub stem_of_parts : Text × Option Text → Option Text
unfolding every text_eq
stem_of_parts (c ∷ name, some suffix) =
    if every is_name (c ∷ name) && text_eq suffix (codes "ovpn") then some (c ∷ name) else none
stem_of_parts _ = none

-- The name in `[-A-Za-z0-9_]+\.ovpn`.
unfoldable pub profile_stem : Text → Option Text
unfolding cut_at stem_of_parts
profile_stem filename = stem_of_parts (cut_at b'.' filename)

-- Whether what follows the last slash is the name of a profile.
unfoldable pub is_profile_file : Option (Text × Text) → Bool
unfolding profile_stem
is_profile_file none = false
is_profile_file (some (before, filename)) = is_some (profile_stem filename)

-- `/\/[-A-Za-z0-9_]+\.ovpn$/`: the slash is the last one.
unfoldable pub managed_openvpn_profile : Text → Bool
unfolding starts_with split_last is_profile_file
managed_openvpn_profile path =
    starts_with path profile_dir && is_profile_file (split_last b'/' path)

unfoldable pub stem_or_empty : Option Text → Text
stem_or_empty none = []
stem_or_empty (some name) = name

unfoldable pub openvpn_profile_name_from_path : Text → Text
unfolding starts_with profile_stem stem_or_empty
openvpn_profile_name_from_path path =
    if starts_with path profile_dir
    then stem_or_empty (profile_stem (drop (length profile_dir) path))
    else []

unfoldable pub normalize_openvpn_profile : Text → Text
unfolding line_feeds trim_start trim_end
normalize_openvpn_profile value = trim (line_feeds false value) ++ 10 ∷ []

pub data ProfileError : Type 0 where
  empty nul_character too_large no_profile : ProfileError

-- A directive and a word boundary behind it.
unfoldable pub starts_directive : Text → Bool
unfolding lower starts_with
starts_directive s =
    directive (codes "client")
    || (directive (codes "server")
        || (directive (codes "remote") || (directive (codes "dev") || directive (codes "proto"))))
  where
    at_boundary : Text → Bool
    at_boundary [] = true
    at_boundary (c ∷ s) = not (is_word c)

    directive : Text → Bool
    directive word = starts_with (lower s) word && at_boundary (drop (length word) s)

-- `/(^|\n)\s*(client|server|remote|dev|proto)\b/im`; the flag is true at the start of a line.
unfoldable pub has_directive : Bool → Text → Bool
unfolding starts_directive trim_start
has_directive at_start [] = false
has_directive at_start (c ∷ s) =
    (at_start && starts_directive (trim_start (c ∷ s))) || has_directive (is_line_end c) s

unfoldable pub validate_openvpn_profile : Text → Option ProfileError
unfolding line_feeds trim_start trim_end some_of has_directive
validate_openvpn_profile value = by_text (trim (line_feeds false value))
  where
    by_text : Text → Option ProfileError
    by_text [] = some empty
    by_text (c ∷ s) =
        if some_of (λ d. d == 0) (c ∷ s)
        then some nul_character
        else if not (leb (length (c ∷ s)) (512 * 1024))
        then some too_large
        else if has_directive true (c ∷ s)
        then none
        else some no_profile
