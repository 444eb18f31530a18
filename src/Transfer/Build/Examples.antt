-- ===== src/Transfer/Build/Examples.antt =====
-- A full stream of a root with one owned snapshot to a destination that is absent.
use boomerangz.Base.{
  ◌≡◌, refl, false, Option, none, some, List, [], ◌∷◌, Text, text_dec, text_key, ℕ_key, codes,
}
use boomerangz.Base.Result.{Result, ok, err}
use boomerangz.Base.Sorting.{sort_by}
use boomerangz.Strings.{is_space, is_control}
use boomerangz.Names.{validate_dataset, inside, map_receive_dataset, map_by}
use boomerangz.Stamp.{parse_stamp, format_stamp}
use boomerangz.Ownership.{
  valid_id, ownership, check_name, check_metadata, stored_values, component_name,
}
use boomerangz.Lifecycle.{
  filesystem, current_state, state_version, version_loop, version_of, root_authority, root_values,
  check_root, is_marker, check_active_root, stored_lineage, lineage_loop,
}
use boomerangz.Lifecycle.Examples.{installation_id, tank, tank_snapshot, tank_state, state_of}
use boomerangz.References.{object_map, hex}
use boomerangz.References.Examples.{length_hash, plain_codec}
use boomerangz.Transfer.{
  Row, Identity, TransferError, streams, stream, find_stream, stream_policy, mapped, dataset_of,
}
use boomerangz.Transfer.Examples.{request_of, plain_bindings}
use boomerangz.Transfer.Binding.{anchored, is_clean, target_suspended, stored_target_binding}
use boomerangz.Transfer.Plan.{
  View, choose_canonical, choose_scope, check_states, row_map, check_rows, nearest_row,
  check_identities, scope_policy_of, settle_binding, check_proofs, settle,
}
use boomerangz.Transfer.Choice.{
  Mode, full, choose_endpoint, endpoint_loop, endpoints_loop, endpoint_of, check_existing,
  already_loop, choose_mode, receive_parent, check_parent,
}
use boomerangz.Transfer.Build.{Plan, build, build_settled, assemble}

abbrev backup : Identity
backup = record { name = codes "backup"; kind = filesystem; guid = 22; pool_guid = 21 }

abbrev rows : List Row
rows =
    record { name = tank; kind = filesystem; encryption_root = codes "-" }
    ∷ record { name = codes "backup"; kind = filesystem; encryption_root = codes "-" }
    ∷ []

abbrev view : View
view = record {
  stream_name = [];
  inventory = rows;
  destination_inventory = none;
  source = tank_state;
  destination = state_of [] [] [];
  destination_exists = false;
  destination_identity = backup;
  root_destination_exists = false;
  root_destination_identity = backup;
  binding_identity = backup;
}

abbrev built : Result TransferError Plan
built = build length_hash plain_codec plain_bindings installation_id (request_of []) view

-- What is kept of a plan here: its mode, and the snapshot.
abbrev summary : Result TransferError Plan → Option (Mode × Text)
summary (err e) = none
summary (ok p) = some (p.mode, p.snapshot)

built_full : summary built ≡ some (full, tank_snapshot)
unfolding build settle choose_scope check_active_root stream streams find_stream stream_policy
    choose_canonical mapped map_receive_dataset map_by inside check_states object_map dataset_of
    row_map check_rows check_identities nearest_row scope_policy_of root_authority root_values
    check_root is_marker valid_id current_state state_version version_loop version_of
    target_suspended hex settle_binding anchored is_clean stored_target_binding check_proofs
    build_settled choose_endpoint endpoint_loop ownership check_name check_metadata stored_values
    component_name parse_stamp format_stamp endpoints_loop endpoint_of stored_lineage lineage_loop
    check_existing already_loop choose_mode check_parent receive_parent assemble validate_dataset
    text_dec is_space is_control sort_by
built_full = refl

-- A result that has a summary is a plan.
summary_ok :
    (r : Result TransferError Plan) (mode : Mode) (snapshot : Text)
    → summary r ≡ some (mode, snapshot)
    → (plan : Plan) × (r ≡ ok plan)
summary_ok (err e) mode snapshot same = cc
summary_ok (ok p) mode snapshot same = (p, refl)

abbrev planned : (plan : Plan) × (built ≡ ok plan)
planned = summary_ok built full tank_snapshot built_full
