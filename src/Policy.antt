-- ===== src/Policy.antt =====
-- internal/policy/resolve.go: what the public properties of a dataset say, and where they are from.
-- A message is a constructor with what it quotes. The messages stand in the order found: their
-- sorting as texts, and dropping equal ones, serves the reader only.
pub mod Settings
pub mod Receive
pub mod Resolve
pub mod Nearest
pub mod Settled
pub mod Sound
pub mod Scope
mod Examples
use boomerangz.Base.{
  is_none, ℕ, zero, suc, ◌+◌, ◌-◌, ◌*◌, ◌/◌, ◌%◌, ◌^◌, ◌≤◌, ◌<◌, ◌≡◌, refl, sym, ap, ◌∙◌, subst,
  ◌≢◌, ◌↔◌, ◌⊎◌, inl, inr, Bool, true, false, not, ◌&&◌, ◌||◌, Option, none, some, List, [], ◌∷◌,
  ◌++◌, map, append_assoc, append-nil, arith, ltb, leb, ◌==◌, if◌then◌else◌, Bool-cases,
  Option-cases, Text, Key, text_dec, text_key, ℕ_key, ◌=?◌, codes, length, is_nil, length-append,
  keep, any, every, All, All-append, contains, remove, IsNodup, contains-append, contains-remove,
  IsNodup-remove, IsNodup-snoc,
}
use boomerangz.Base.Dict.{Dict, lookup, insert, get_or, has, keys}
use boomerangz.Strings.{
  has_prefix, trim_prefix, contains_any, cut, split, trim_space, is_space, is_control,
}
use boomerangz.Names.{NameError, validate_dataset}
use boomerangz.Grid.{Grid, GridError, parse_grid, no_grid}
use boomerangz.Ownership.{Property, Source}

abbrev pub namespace : Text
namespace = codes "org.boomerangz:"

abbrev pub state_namespace : Text
state_namespace = namespace ++ codes "state:"

-- An empty dataset stands for a default.
pub record Value : Type 0 where
  pub value : Text
  pub dataset : Text

pub record Flags : Type 0 where
  pub large_blocks : Bool
  pub compressed : Bool
  pub embedded_data : Bool
  pub raw : Bool
  pub props : Bool
  pub replicate : Bool

pub data PolicyError : Type 0 where
  unknown_property not_toggle bad_targets unknown_remote reserved_property : Text → PolicyError
  raw_override raw_exclude explicit_raw : Text → PolicyError
  bad_grid : GridError → PolicyError
  bad_local : NameError → PolicyError
  bad_incremental raw_required bad_discard : PolicyError

pub data Warning : Type 0 where
  implied_flags : Warning
  set_wins raw_enabled : Text → Warning

pub record Effective : Type 0 where
  pub enabled : Bool
  pub grid : Grid
  pub remote : List Text
  pub local : List Text
  pub incremental : Text
  pub requested : Flags
  pub send : Flags
  pub set_properties : Dict Text Text
  pub ignore_properties : List Text
  pub discard : Text
  pub values : Dict Text Value
  pub warnings : List Warning
  pub errors : List PolicyError

-- `Effective.Valid`.
abbrev pub is_valid : Effective → Bool
is_valid p = is_nil p.errors

unfoldable pub is_public : Text → Bool
is_public name = has_prefix name namespace && not (has_prefix name state_namespace)

-- The loop over the parent's values.
unfoldable pub inherited : Dict Text Value → Dict Text Value
inherited [] = []
inherited ((key, v) ∷ m) =
    let rest = inherited m in if is_nil v.dataset then rest else insert key v rest

abbrev pub is_source_local : Source → Bool
is_source_local Source.local = true
is_source_local Source.received = false
is_source_local (Source.other_source s) = false

abbrev pub is_own : Text → Property → Bool
is_own name p = p.dataset =? name && is_source_local p.source && is_public p.name

-- The loop over the stored properties.
unfoldable pub store_values : Text → List Property → Dict Text Value → Dict Text Value
store_values name [] values = values
store_values name (p ∷ ps) values = store_values name ps (
    if is_own name p
    then insert p.name (record { value = p.value; dataset = name }) values
    else values)

abbrev pub defaults : Bool → List (Text × Text)
defaults encrypted =
    (codes "enabled", codes "off")
    ∷ (codes "policy", codes "12x5m,24x1h,14x1d")
    ∷ (codes "large_blocks", codes "on")
    ∷ (codes "compressed", codes "on")
    ∷ (codes "raw", if encrypted then codes "on" else codes "off")
    ∷ (codes "props", codes "off")
    ∷ (codes "incremental", codes "all")
    ∷ (codes "replicate", codes "off")
    ∷ (codes "discard", codes "off")
    ∷ []

-- The loop over the defaults.
unfoldable pub add_defaults : List (Text × Text) → Dict Text Value → Dict Text Value
add_defaults [] values = values
add_defaults ((key, value) ∷ ds) values = add_defaults ds (
    if has (namespace ++ key) values
    then values
    else insert (namespace ++ key) (record { value = value; dataset = [] }) values)

unfoldable pub resolve_values : Text → Bool → Option Effective → List Property → Dict Text Value
resolve_values name encrypted parent stored =
    add_defaults (defaults encrypted)
      (store_values name stored (elim parent [ none ↦ [] | some p ↦ inherited p.values ]))

abbrev pub value_of : Dict Text Value → Text → Text
value_of values name =
    (get_or (namespace ++ name) values (record { value = []; dataset = [] })).value
