-- ===== src/Policy/Settings.antt =====
-- The plain settings of a policy: toggles, targets and the grid, and what is wrong with them.
use boomerangz.Base.{
  Bool, false, ◌||◌, Option, none, some, List, [], ◌∷◌, ◌++◌, if◌then◌else◌, Text, text_key, ℕ_key,
  ◌=?◌, codes, is_nil, contains,
}
use boomerangz.Base.Result.{Result, ok, err}
use boomerangz.Base.Dict.{Dict, lookup, has}
use boomerangz.Strings.{has_prefix, trim_prefix, split, trim_space}
use boomerangz.Names.{validate_dataset}
use boomerangz.Grid.{Grid, GridError, no_grid}
use boomerangz.Policy.{namespace, Value, PolicyError, defaults, value_of}

abbrev pub is_known : Text → Bool
is_known name =
    has name (defaults false)
    || name =? codes "remote"
    || name =? codes "local"
    || has_prefix name (codes "set_prop:")
    || has_prefix name (codes "ignore_prop:")

unfoldable pub unknown_errors : List Text → List PolicyError
unknown_errors [] = []
unknown_errors (key ∷ names) =
    let rest = unknown_errors names in
    if is_known (trim_prefix key namespace) then rest else PolicyError.unknown_property key ∷ rest

-- `toggle`: what it answers, and what it appends to the errors.
unfoldable pub toggle : Dict Text Value → Text → Bool
toggle values name = value_of values name =? codes "on"

unfoldable pub toggle_errors : Dict Text Value → Text → List PolicyError
toggle_errors values name =
    if value_of values name =? codes "on" || value_of values name =? codes "off"
    then []
    else PolicyError.not_toggle name ∷ []

-- The loop of `ParseTargets`, with the targets seen; `none` is its error.
unfoldable pub targets_from : List Text → List Text → Option (List Text)
targets_from seen [] = some []
targets_from seen (part ∷ parts) =
    let target = trim_space part in
    let again = targets_from seen parts in
    let fresh = targets_from (target ∷ seen) parts in
    if is_nil target
    then none
    else if contains seen target
    then again
    else elim fresh [ none ↦ none | some ts ↦ some (target ∷ ts) ]

unfoldable pub parse_targets : Text → Option (List Text)
unfolding targets_from
parse_targets value = targets_from [] (split b',' value)

unfoldable pub targets : Dict Text Value → Text → List Text
targets values name = elim (lookup (namespace ++ name) values) [
  | none ↦ []
  | some v ↦ elim (parse_targets v.value) [ none ↦ [] | some ts ↦ ts ]
]

unfoldable pub targets_errors : Dict Text Value → Text → List PolicyError
targets_errors values name = elim (lookup (namespace ++ name) values) [
  | none ↦ []
  | some v ↦ elim (parse_targets v.value) [
    | none ↦ PolicyError.bad_targets name ∷ []
    | some ts ↦ []
  ]
]

unfoldable pub remote_errors : List Text → List Text → List PolicyError
remote_errors remotes [] = []
remote_errors remotes (r ∷ rs) =
    let rest = remote_errors remotes rs in
    if contains remotes r then rest else PolicyError.unknown_remote r ∷ rest

unfoldable pub local_errors : List Text → List PolicyError
local_errors [] = []
local_errors (l ∷ ls) = elim (validate_dataset l) [
  | ok _ ↦ local_errors ls
  | err e ↦ PolicyError.bad_local e ∷ local_errors ls
]

unfoldable pub grid_or_none : Result GridError Grid → Grid
grid_or_none (ok g) = g
grid_or_none (err e) = no_grid

unfoldable pub grid_errors : Result GridError Grid → List PolicyError
grid_errors (ok g) = []
grid_errors (err e) = PolicyError.bad_grid e ∷ []

abbrev pub complain : Bool → PolicyError → List PolicyError
complain bad e = if bad then e ∷ [] else []
