-- ===== src/Policy/Receive.antt =====
-- The receive properties of a policy: `receiveProperties` and `validateRawReceive`.
use boomerangz.Base.{
  Bool, not, ◌&&◌, ◌||◌, none, some, List, [], ◌∷◌, ◌++◌, map, if◌then◌else◌, Text, text_key, ℕ_key,
  ◌=?◌, codes, is_nil, keep, any, contains,
}
use boomerangz.Base.Sorting.{sort_by, text_leb}
use boomerangz.Base.Dict.{Dict, insert, has, keys}
use boomerangz.Strings.{has_prefix, trim_prefix, contains_any, cut, is_space, is_control}
use boomerangz.Policy.{namespace, Value, PolicyError, Warning, value_of}
use boomerangz.Policy.Settings.{toggle, toggle_errors, complain}

-- What the receive properties come to.
pub record Received : Type 0 where
  pub set : Dict Text Text
  pub ignore : List Text
  pub errors : List PolicyError

abbrev pub is_reserved : Text → Bool
is_reserved target =
    is_nil target
    || has_prefix target namespace
    || contains_any target (codes "=")
    || any (λ r. is_space r || is_control r) target

-- One round of the loop of `receiveProperties`, for a name `kind:target`.
unfoldable pub receive_target : Dict Text Value → Text → Text → Text → Received → Received
receive_target values name kind target r =
    if not (kind =? codes "set_prop") && not (kind =? codes "ignore_prop")
    then r
    else if is_reserved target
    then record r { errors = r.errors ++ PolicyError.reserved_property target ∷ [] }
    else if kind =? codes "set_prop"
    then record r { set = insert target (value_of values name) r.set }
    else record r {
      ignore = if toggle values name then r.ignore ++ target ∷ [] else r.ignore;
      errors = r.errors ++ toggle_errors values name;
    }

unfoldable pub receive_keys : Dict Text Value → List Text → Received → Received
receive_keys values [] r = r
receive_keys values (key ∷ names) r =
    let name = trim_prefix key namespace in
    receive_keys values names (elim (cut b':' name) [
      | none ↦ r
      | some (kind, target) ↦ receive_target values name kind target r
    ])

-- The deletion behind the loop, and its warnings.
abbrev pub ignored : Dict Text Text → List Text → List Text
ignored set ignore = keep (λ key. not (has key set)) ignore

abbrev pub set_warnings : Dict Text Text → List Text → List Warning
set_warnings set ignore = map Warning.set_wins (keep (λ key. has key set) ignore)

-- `validateRawReceive`.
unfoldable pub raw_receive_errors : List Text → Dict Text Text → List Text → List PolicyError
raw_receive_errors [] set ignore = []
raw_receive_errors (key ∷ names) set ignore =
    complain (has key set) (PolicyError.raw_override key)
    ++ (complain (contains ignore key) (PolicyError.raw_exclude key)
        ++ raw_receive_errors names set ignore)

abbrev pub fixed_keys : List Text
fixed_keys = codes "encryption" ∷ codes "keyformat" ∷ codes "pbkdf2iters" ∷ []

abbrev pub no_received : Received
no_received = record { set = []; ignore = []; errors = [] }

abbrev pub received_of : Dict Text Value → Received
received_of values = receive_keys values (sort_by text_leb (keys values)) no_received

abbrev pub raw_errors : Bool → Dict Text Text → List Text → List PolicyError
raw_errors applies set ignore = if applies then raw_receive_errors fixed_keys set ignore else []
