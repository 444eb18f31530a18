-- ===== src/Policy/Nearest.antt =====
-- Where a resolved value comes from.
use boomerangz.Base.{
  ◌≡◌, refl, ap, ◌∙◌, inl, inr, ◌&&◌, Option, none, some, List, [], ◌∷◌, ◌++◌, arith, if◌then◌else◌,
  Bool-cases, Text, text_key, ℕ_key, ◌=?◌, is_nil, IsNodup,
}
use boomerangz.Base.Dict.{
  Dict, lookup, insert, has, keys, lookup-insert, contains-keys_iff, IsNodup-keys-insert,
  lookup-absent,
}
use boomerangz.Ownership.{Property}
use boomerangz.Policy.{
  namespace, Value, Effective, inherited, is_own, store_values, defaults, add_defaults,
  resolve_values,
}
use boomerangz.Policy.Resolve.{Dataset, is_encrypted, resolve, effective}

-- The last own public property of a name.
abbrev pub stored_value : Text → List Property → Text → Option Text
stored_value name [] key = none
stored_value name (p ∷ ps) key = elim (stored_value name ps key) [
  | some v ↦ some v
  | none ↦ if is_own name p && p.name =? key then some p.value else none
]

abbrev pub default_value : List (Text × Text) → Text → Option Value
default_value [] key = none
default_value ((k, value) ∷ ds) key =
    if (namespace ++ k) =? key
    then some (record { value = value; dataset = [] })
    else default_value ds key

-- A value that some dataset configured.
abbrev pub configured : Option Value → Option Value
configured none = none
configured (some v) = if is_nil v.dataset then none else some v

abbrev pub or_else : Option Value → Option Value → Option Value
or_else none other = other
or_else (some v) other = some v

abbrev pub from_parent : Option Effective → Text → Option Value
from_parent none key = none
from_parent (some p) key = configured (lookup key p.values)

abbrev pub from_stored : Text → Option Text → Option Value
from_stored name none = none
from_stored name (some v) = some (record { value = v; dataset = name })

-- The nearest setting: the dataset's own, then what the parent has from a dataset, then the default.
abbrev pub nearest : Dataset → Option Effective → List Property → Text → Option Value
nearest d parent stored key =
    or_else (from_stored d.name (stored_value d.name stored key))
      (or_else (from_parent parent key) (default_value (defaults (is_encrypted d)) key))

lookup-store_values :
    (name : Text) (ps : List Property) (values : Dict Text Value) (key : Text)
    → lookup key (store_values name ps values)
      ≡ or_else (from_stored name (stored_value name ps key)) (lookup key values)
unfolding store_values
lookup-store_values name [] values key = refl
lookup-store_values name (p ∷ ps) values key =
    let v : Value = record { value = p.value; dataset = name } in
    ground (
      arith,
      lookup-store_values name ps (if is_own name p then insert p.name v values else values) key,
      lookup-insert p.name key v values,
    )

lookup-inherited :
    (m : Dict Text Value) (key : Text)
    → IsNodup (keys m)
    → lookup key (inherited m) ≡ configured (lookup key m)
unfolding inherited
lookup-inherited [] key n = refl
lookup-inherited ((k, v) ∷ m) key n =
    ground (
      arith,
      lookup-inherited m key n.1,
      lookup-insert k key v (inherited m),
      lookup-absent k m n.0,
    )

lookup-add_defaults :
    (ds : List (Text × Text)) (values : Dict Text Value) (key : Text)
    → lookup key (add_defaults ds values) ≡ or_else (lookup key values) (default_value ds key)
unfolding add_defaults
lookup-add_defaults [] values key = ground arith
lookup-add_defaults ((k, value) ∷ ds) values key =
    let v : Value = record { value = value; dataset = [] } in
    ground (
      arith,
      lookup-add_defaults ds values key,
      lookup-add_defaults ds (insert (namespace ++ k) v values) key,
      lookup-insert (namespace ++ k) key v values,
      contains-keys_iff (namespace ++ k) values,
    )

-- The values of a parent name each property once.
abbrev pub HasValues : Option Effective → Type 0
HasValues none = Unit
HasValues (some p) = IsNodup (keys p.values)

or_else_assoc : (a b c : Option Value) → or_else (or_else a b) c ≡ or_else a (or_else b c)
or_else_assoc none b c = refl
or_else_assoc (some v) b c = refl

-- A property is resolved to the dataset's last own setting of it, else to what the parent has from a
-- dataset, else to the default, if the parent's values name each property once.
pub resolve-nearest :
    (d : Dataset) (parent : Option Effective) (stored : List Property) (remotes : List Text)
    (key : Text)
    → HasValues parent
    → lookup key (resolve d parent stored remotes).values ≡ nearest d parent stored key
unfolding resolve effective resolve_values
resolve-nearest d none stored remotes key h =
    lookup-add_defaults (defaults (is_encrypted d)) (store_values d.name stored []) key
    ∙ ap (λ o. or_else o (default_value (defaults (is_encrypted d)) key))
        (lookup-store_values d.name stored [] key)
    ∙ or_else_assoc (from_stored d.name (stored_value d.name stored key)) none
        (default_value (defaults (is_encrypted d)) key)
resolve-nearest d (some p) stored remotes key h =
    lookup-add_defaults (defaults (is_encrypted d))
      (store_values d.name stored (inherited p.values)) key
    ∙ ap (λ o. or_else o (default_value (defaults (is_encrypted d)) key))
        (lookup-store_values d.name stored (inherited p.values) key)
    ∙ ap
        (λ o.
          or_else (or_else (from_stored d.name (stored_value d.name stored key)) o)
            (default_value (defaults (is_encrypted d)) key))
        (lookup-inherited p.values key h)
    ∙ or_else_assoc (from_stored d.name (stored_value d.name stored key))
        (configured (lookup key p.values)) (default_value (defaults (is_encrypted d)) key)

IsNodup-inherited : (m : Dict Text Value) → IsNodup (keys (inherited m))
unfolding inherited
IsNodup-inherited [] = tt
IsNodup-inherited ((k, v) ∷ m) =
    ground (arith, IsNodup-inherited m, IsNodup-keys-insert k v (inherited m))

IsNodup-store_values :
    (name : Text) (ps : List Property) (values : Dict Text Value)
    → IsNodup (keys values)
    → IsNodup (keys (store_values name ps values))
unfolding store_values
IsNodup-store_values name [] values n = n
IsNodup-store_values name (p ∷ ps) values n = elim (Bool-cases (is_own name p)) [
  | inl own ↦ rw own (
      IsNodup-store_values name ps
        (insert p.name (record { value = p.value; dataset = name }) values)
        (IsNodup-keys-insert p.name (record { value = p.value; dataset = name }) values n))
  | inr other ↦ rw other (IsNodup-store_values name ps values n)
]

IsNodup-add_defaults :
    (ds : List (Text × Text)) (values : Dict Text Value)
    → IsNodup (keys values)
    → IsNodup (keys (add_defaults ds values))
unfolding add_defaults
IsNodup-add_defaults [] values n = n
IsNodup-add_defaults ((k, value) ∷ ds) values n = elim (Bool-cases (has (namespace ++ k) values)) [
  | inl there ↦ rw there (IsNodup-add_defaults ds values n)
  | inr missing ↦
      let v : Value = record { value = value; dataset = [] } in
      rw missing (
        IsNodup-add_defaults ds (insert (namespace ++ k) v values)
          (IsNodup-keys-insert (namespace ++ k) v values n))
]

-- The values of a resolved policy name each property once, whatever its parent is.
pub resolve-HasValues :
    (d : Dataset) (parent : Option Effective) (stored : List Property) (remotes : List Text)
    → HasValues (some (resolve d parent stored remotes))
unfolding resolve effective resolve_values
resolve-HasValues d none stored remotes =
    IsNodup-add_defaults (defaults (is_encrypted d)) (store_values d.name stored [])
      (IsNodup-store_values d.name stored [] tt)
resolve-HasValues d (some p) stored remotes =
    IsNodup-add_defaults (defaults (is_encrypted d))
      (store_values d.name stored (inherited p.values))
      (IsNodup-store_values d.name stored (inherited p.values) (IsNodup-inherited p.values))
