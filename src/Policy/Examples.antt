-- ===== src/Policy/Examples.antt =====
-- A replicated root, a child of it, and an encrypted descendant.
use boomerangz.Base.{
  ◌≡◌, refl, true, false, none, some, List, [], ◌∷◌, ◌++◌, Text, text_dec, text_key, ℕ_key, codes,
}
use boomerangz.Base.Sorting.{sort_by}
use boomerangz.Base.Dict.{lookup}
use boomerangz.Strings.{is_space, is_control}
use boomerangz.Grid.{
  parse_grid, parse_parts, parse_part, match_bucket, parse_bucket, parse_int, is_unit,
}
use boomerangz.Ownership.{Property, Source}
use boomerangz.Policy.{
  namespace, Effective, is_public, inherited, store_values, add_defaults, resolve_values,
}
use boomerangz.Policy.Settings.{
  toggle, toggle_errors, targets, targets_errors, remote_errors, local_errors, grid_errors,
  unknown_errors, parse_targets,
}
use boomerangz.Policy.Receive.{receive_keys, receive_target, raw_receive_errors}
use boomerangz.Policy.Resolve.{
  Dataset, is_encrypted, resolve, effective, setting_errors, effective_send, for_replication_scope,
}
use boomerangz.Policy.Nearest.{nearest, resolve-nearest, resolve-HasValues}
use boomerangz.Policy.Sound.{IsUsable, resolve-IsUsable}

abbrev setting : Text → Text → Text → Property
setting dataset name value = record {
  dataset = dataset;
  name = namespace ++ name;
  value = value;
  source = Source.local;
}

abbrev tank : Dataset
tank = record { name = codes "tank"; encryption_root = codes "-" }

abbrev child : Dataset
child = record { name = codes "tank/a"; encryption_root = codes "tank/a" }

abbrev tank_settings : List Property
tank_settings =
    setting (codes "tank") (codes "enabled") (codes "on")
    ∷ setting (codes "tank") (codes "replicate") (codes "on")
    ∷ setting (codes "tank") (codes "remote") (codes "vault, vault")
    ∷ setting (codes "tank") (codes "set_prop:atime") (codes "off")
    ∷ []

abbrev remotes : List Text
remotes = codes "vault" ∷ []

abbrev tank_policy : Effective
tank_policy = resolve tank none tank_settings remotes

abbrev enabled_key : Text
enabled_key = namespace ++ codes "enabled"

resolve-nearest_example :
    lookup enabled_key (resolve child (some tank_policy) [] remotes).values
    ≡ nearest child (some tank_policy) [] enabled_key
resolve-nearest_example =
    resolve-nearest child (some tank_policy) [] remotes enabled_key
      (resolve-HasValues tank none tank_settings remotes)

tank_fine : tank_policy.errors ≡ []
unfolding resolve effective resolve_values inherited store_values add_defaults is_public toggle
    toggle_errors targets targets_errors remote_errors local_errors grid_errors unknown_errors
    parse_targets receive_keys receive_target raw_receive_errors setting_errors sort_by parse_grid
    parse_parts parse_part match_bucket parse_bucket parse_int is_unit text_dec is_space is_control
tank_fine = refl

resolve-IsUsable_example : IsUsable (is_encrypted tank) remotes tank_policy
resolve-IsUsable_example = resolve-IsUsable tank none tank_settings remotes tank_fine

-- The child is encrypted and inherits `replicate`, and its `raw` is on by default.
abbrev child_policy : Effective
child_policy = resolve child (some tank_policy) [] remotes

child_raw :
    (child_policy.errors ≡ []) × (child_policy.send.raw ≡ true) × (child_policy.enabled ≡ true)
unfolding resolve effective resolve_values inherited store_values add_defaults is_public toggle
    toggle_errors targets targets_errors remote_errors local_errors grid_errors unknown_errors
    parse_targets receive_keys receive_target raw_receive_errors setting_errors sort_by parse_grid
    parse_parts parse_part match_bucket parse_bucket parse_int is_unit text_dec is_space is_control
    effective_send
child_raw = (refl, refl, refl)

two_remotes : tank_policy.remote ≡ codes "vault" ∷ []
unfolding resolve effective resolve_values inherited store_values add_defaults is_public targets
    parse_targets text_dec is_space
two_remotes = refl

abbrev scoped : Effective
scoped = for_replication_scope false (codes "tank/a") tank_policy
