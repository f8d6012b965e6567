-- ===== src/Connections/Draft/Items.antt =====
-- How `parseConfig` of freenetic-connections-core.js reads one line of a file.
use freenetic.Base.{
  ℕ, Bool, not, ◌&&◌, ◌||◌, List, [], ◌∷◌, Option, none, some, ◌==◌, Text, codes, text_eq, lower,
  some_of, if◌then◌else◌,
}
use freenetic.Network.Ipv6.{cut_at}
use freenetic.Connections.Fields.{trim}

-- An AmneziaWG option: its name in UCI and its key in a file.
pub record AwgOption : Type 0 where
  pub name : Text
  pub key : Text

abbrev awg : Text → Text → AwgOption
awg name key = record { name = name; key = key }

abbrev pub awg_options : List AwgOption
awg_options =
    awg (codes "awg_jc") (codes "Jc")
    ∷ awg (codes "awg_jmin") (codes "Jmin")
    ∷ awg (codes "awg_jmax") (codes "Jmax")
    ∷ awg (codes "awg_s1") (codes "S1")
    ∷ awg (codes "awg_s2") (codes "S2")
    ∷ awg (codes "awg_h1") (codes "H1")
    ∷ awg (codes "awg_h2") (codes "H2")
    ∷ awg (codes "awg_h3") (codes "H3")
    ∷ awg (codes "awg_h4") (codes "H4")
    ∷ []

-- `knownAwg[key]`. The table is an object, so that two keys find what every object inherits; as names
-- of an option these are turned into texts.
unfoldable pub known_awg : Text → Option Text
unfolding text_eq lower
known_awg key =
    if text_eq key (codes "constructor")
    then some (codes "function Object() { [native code] }")
    else if text_eq key (codes "__proto__")
    then some (codes "[object Object]")
    else from awg_options
  where
    from : List AwgOption → Option Text
    from [] = none
    from (o ∷ os) = let rest = from os in if text_eq (lower o.key) key then some o.name else rest

-- A character that `.` does not match.
abbrev pub is_line_end : ℕ → Bool
is_line_end c = c == 10 || (c == 13 || (c == 0x2028 || c == 0x2029))

-- `replace(/\s*[#;].*$/, '')`, less the white space, which is trimmed anyway.
unfoldable pub uncommented : Text → Text
unfolding some_of
uncommented [] = []
uncommented (c ∷ s) =
    let rest = uncommented s in
    if (c == b'#' || c == b';') && not (some_of is_line_end s) then [] else c ∷ rest

pub data Head : Type 0 where
  interface peer : Head

pub data Line : Type 0 where
  header : Head → Line
  item : Text → Text → Line
  other : Line

-- The last character and what stands before it.
unfoldable pub unsnoc : ℕ → Text → Text × ℕ
unsnoc c [] = ([], c)
unsnoc c (d ∷ s) = let (before, last) = unsnoc d s in (c ∷ before, last)

-- `/^\[\s*(interface|peer)\s*\]$/i`, behind the bracket.
unfoldable pub header_of : Text → Option Head
unfolding unsnoc lower text_eq
header_of [] = none
header_of (c ∷ s) =
    let (before, last) = unsnoc c s in
    let name = lower (trim before) in
    if last == b']'
    then (if text_eq name (codes "interface")
        then some interface
        else if text_eq name (codes "peer")
        then some peer
        else none)
    else none

unfoldable pub item_or_other : Text → Text → Line
unfolding lower some_of
item_or_other key value = if some_of is_line_end value then other else item (lower key) value

unfoldable pub item_of_parts : Text × Option Text → Line
unfolding item_or_other
item_of_parts (c ∷ key, some value) = item_or_other (trim (c ∷ key)) (trim value)
item_of_parts _ = other

-- `/^([^=]+?)\s*=\s*(.*)$/`, with the key in lower case and both trimmed.
unfoldable pub item_of : Text → Line
unfolding cut_at item_of_parts
item_of line = item_of_parts (cut_at b'=' line)

unfoldable pub line_of : Text → Line
unfolding header_of item_of
line_of [] = other
line_of (c ∷ s) =
    if c == b'['
    then elim (header_of s) [ some h ↦ header h | none ↦ item_of (c ∷ s) ]
    else item_of (c ∷ s)

unfoldable pub read_line : Text → Line
unfolding uncommented line_of
read_line raw = line_of (trim (uncommented raw))
