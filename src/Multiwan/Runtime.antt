-- ===== src/Multiwan/Runtime.antt =====
-- Runtime states in freenetic-multiwan-data.js: what netifd, mwan3 and the package manager report.
-- The reports are JSON; a field is none where the report does not have it.
use freenetic.Base.{
  ℕ, Bool, true, false, ◌||◌, List, [], ◌∷◌, Option, none, some, or_else, ◌==◌, Text, codes,
  text_eq, lower, if◌then◌else◌,
}

-- A Boolean, a number or a text.
pub data Flag : Type 0 where
  truth : Bool → Flag
  number : ℕ → Flag
  word : Text → Flag

-- `value === true || value === 1 || value === '1'`
unfoldable pub is_one : Flag → Bool
unfolding text_eq
is_one (truth b) = b
is_one (number n) = n == 1
is_one (word s) = text_eq s (codes "1")

-- `value === false || value === 0 || value === '0'`
unfoldable pub is_zero : Flag → Bool
unfolding text_eq
is_zero (truth true) = false
is_zero (truth false) = true
is_zero (number n) = n == 0
is_zero (word s) = text_eq s (codes "0")

-- An interface as netifd reports it.
pub record RuntimeEntry : Type 0 where
  pub interface : Option Text
  pub name : Option Text
  pub l3_device : Option Text
  pub device : Option Text
  pub up : Option Flag

-- Nothing, a list, `{ interface: [ … ] }`, or an object keyed by name; none is no object.
pub data RuntimeSource : Type 0 where
  no_runtime : RuntimeSource
  entries : List (Option RuntimeEntry) → RuntimeSource
  interfaces : List (Option RuntimeEntry) → RuntimeSource
  keyed_entries : List (Text × Option RuntimeEntry) → RuntimeSource

-- `Object.assign({ interface: name }, value)`: the value's own field wins.
unfoldable pub named_entries : List (Text × Option RuntimeEntry) → List (Option RuntimeEntry)
named_entries [] = []
named_entries ((name, none) ∷ es) = named_entries es
named_entries ((name, some e) ∷ es) =
    some (record e { interface = or_else e.interface (some name) }) ∷ named_entries es

unfoldable pub normalize_runtime : RuntimeSource → List (Option RuntimeEntry)
unfolding named_entries
normalize_runtime no_runtime = []
normalize_runtime (entries es) = es
normalize_runtime (interfaces es) = es
normalize_runtime (keyed_entries es) = named_entries es

-- `field === name`, where both may be undefined.
abbrev is_field : Option Text → Option Text → Bool
is_field none none = true
is_field none (some name) = false
is_field (some s) none = false
is_field (some s) (some name) = text_eq s name

unfoldable pub has_name : Option Text → RuntimeEntry → Bool
unfolding text_eq
has_name name e =
    is_field e.interface name
    || (is_field e.name name || (is_field e.l3_device name || is_field e.device name))

unfoldable pub find_runtime : List (Option RuntimeEntry) → Option Text → Option RuntimeEntry
unfolding has_name
find_runtime [] name = none
find_runtime (none ∷ es) name = find_runtime es name
find_runtime (some e ∷ es) name =
    let rest = find_runtime es name in if has_name name e then some e else rest

pub data State : Type 0 where
  online offline disabled unknown : State

unfoldable pub runtime_state : Option RuntimeEntry → State
unfolding is_one
runtime_state none = unknown
runtime_state (some e) = elim (e.up) [
  | none ↦ unknown
  | some up ↦ (if is_one up then online else offline)
]

-- An interface as mwan3 reports it.
pub record MwanEntry : Type 0 where
  pub enabled : Option Flag
  pub status : Text
  pub tracking : Text

-- Nothing, `{ interfaces: { … } }`, or the interfaces themselves.
pub data MwanSource : Type 0 where
  no_mwan : MwanSource
  wrapped : List (Text × MwanEntry) → MwanSource
  bare : List (Text × MwanEntry) → MwanSource

unfoldable pub normalize_mwan_runtime : MwanSource → List (Text × MwanEntry)
normalize_mwan_runtime no_mwan = []
normalize_mwan_runtime (wrapped es) = es
normalize_mwan_runtime (bare es) = es

-- `mwanRuntime[name] || null`; the keys of an object are distinct.
unfoldable pub mwan_entry : List (Text × MwanEntry) → Text → Option MwanEntry
unfolding text_eq
mwan_entry [] name = none
mwan_entry ((n, e) ∷ es) name =
    let rest = mwan_entry es name in if text_eq n name then some e else rest

unfoldable pub status_of : Text → Option State
unfolding text_eq
status_of s =
    if text_eq s (codes "online")
    then some online
    else if text_eq s (codes "offline")
    then some offline
    else if text_eq s (codes "disabled")
    then some disabled
    else if text_eq s (codes "unknown")
    then some unknown
    else none

unfoldable pub mwan_runtime_state : Option MwanEntry → Option State
unfolding is_zero status_of lower
mwan_runtime_state none = none
mwan_runtime_state (some e) =
    let by_status = status_of (lower e.status) in
    elim (e.enabled) [
      | none ↦ by_status
      | some flag ↦ (if is_zero flag then some disabled else by_status)
    ]

-- The state of a package: nothing, a value, or an object with its fields.
pub data PackageState : Type 0 where
  no_state : PackageState
  value : Flag → PackageState
  fields : Bool → Bool → PackageState

unfoldable pub package_installed : PackageState → Bool
unfolding is_one
package_installed no_state = false
package_installed (value v) = is_one v
package_installed (fields installed available) = installed

unfoldable pub package_available : PackageState → Bool
unfolding package_installed
package_available no_state = false
package_available (value v) = package_installed (value v)
package_available (fields installed available) = installed || available

-- `{ packages: { … } }` or the packages themselves.
pub data PackageSource : Type 0 where
  no_packages : PackageSource
  wrapped_packages : List (Text × PackageState) → PackageSource
  bare_packages : List (Text × PackageState) → PackageSource

unfoldable pub package_states : PackageSource → List (Text × PackageState)
package_states no_packages = []
package_states (wrapped_packages ps) = ps
package_states (bare_packages ps) = ps

-- `packages[name]`
unfoldable pub package_state : List (Text × PackageState) → Text → PackageState
unfolding text_eq
package_state [] name = no_state
package_state ((n, s) ∷ ps) name =
    let rest = package_state ps name in if text_eq n name then s else rest
