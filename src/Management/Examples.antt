-- ===== src/Management/Examples.antt =====
-- A run of `Prune` on a root with four snapshots of its own, and runs of `CreateSnapshot` and `AdoptDataset`.
use boomerangz.Base.{
  ℕ, ◌+◌, ◌*◌, ◌≡◌, refl, Bool, true, false, none, List, [], ◌∷◌, ◌++◌, if◌then◌else◌, Text,
  text_dec, text_key, ℕ_key, codes,
}
use boomerangz.Base.Result.{Result, ok}
use boomerangz.Strings.{is_space, is_control}
use boomerangz.Names.{validate_dataset, inside}
use boomerangz.Grid.{Grid, grid_of, minute, cadence}
use boomerangz.Stamp.{parse_stamp, format_stamp}
use boomerangz.Ownership.{
  Property, Metadata, ownership, check_name, check_metadata, stored_values, component_name,
  valid_id, lineage_property, snapshot_property,
}
use boomerangz.Ownership.Examples.{lineage_id, snapshot_id, name_at, new_year}
use boomerangz.Prune.{
  Decision, plan_prune, collect, decide_all, decide, judge, win, spare, place, anchor_from,
  newest_from, window_dec,
}
use boomerangz.Base.Sorting.{sort_by}
use boomerangz.Lifecycle.{
  State, Object, filesystem, snapshot, version_of, state_version, version_loop, current_state,
  root_authority, root_values, check_root, is_marker, snapshots_in, scope_ready, dataset_objects,
  check_active_root, stored_lineage, lineage_loop, validate_members, members_loop, owner_property,
  version_property, evidence_loop, records_readable, keeps_records,
}
use boomerangz.Lifecycle.Backend.{destroy_snapshot, Backend, Run, ◌>>=◌, ◌>>◌}
use boomerangz.Lifecycle.Examples.{
  installation_id, tank, row, tank_rows, tank_objects, tank_state, state_of,
}
use boomerangz.References.Examples.{still, length_hash, plain_codec}
use boomerangz.Transfer.Examples.{policy_of}
use boomerangz.Management.{
  Failure, Retention, check_retention, check_again, new_id, ManagementError, check_created,
  verify_members, verified_in, descendants_loop, decide_adoption, validate_evidence, check_format,
}
use boomerangz.References.{hex, reference_records, records_loop}
use boomerangz.References.Service.{same_state}
use boomerangz.Management.Operations.{
  adopt_dataset, verify_adoption, prune, apply_plan, prune_loop, prune_one, read_scope, inspect_for,
  destroy, create_snapshot, inspect, choose_lineage, new_metadata, draw_id, unchanged, initialize,
  take_members, perform,
}

abbrev each_hour : Grid
each_hour = grid_of (record { count = 24; span = 60 * minute } ∷ []) (24 * 60 * minute)

abbrev half_past : Text
half_past = name_at (codes "20240101T003000.000000000Z")

abbrev twenty_to : Text
twenty_to = name_at (codes "20240101T004000.000000000Z")

abbrev one_oclock : Text
one_oclock = name_at (codes "20240101T010000.000000000Z")

abbrev rows_of : Text → List Property
rows_of name = row name lineage_property lineage_id ∷ row name snapshot_property snapshot_id ∷ []

abbrev object_of : Text → ℕ → Object
object_of name guid = record {
  name = name;
  kind = snapshot;
  guid = guid;
  creation = 0;
  create_txg = 100 + guid;
}

abbrev busy_state : State
busy_state =
    state_of
      (record { name = tank; kind = filesystem; guid = 10; creation = 0; create_txg = 1 }
        ∷ object_of (name_at new_year) 1
        ∷ object_of half_past 2
        ∷ object_of twenty_to 3
        ∷ object_of one_oclock 4
        ∷ [])
      (tank_rows ++ rows_of half_past ++ rows_of twenty_to ++ rows_of one_oclock) []

abbrev retained : Retention
retained = record { dataset = tank; grid = each_hour }

abbrev prunes : Run (Unit {0}) Failure (List Decision)
prunes = prune (still busy_state) installation_id tank (policy_of tank) retained true tt

-- Of two snapshots in a window the younger is destroyed, unless it is the newest.
prunes_second : prunes.calls ≡ destroy_snapshot twenty_to ∷ []
unfolding prune apply_plan prune_loop prune_one read_scope inspect_for destroy check_retention
    check_again check_active_root scope_ready snapshots_in dataset_objects ◌>>=◌ ◌>>◌ root_authority
    root_values check_root current_state state_version version_loop version_of is_marker plan_prune
    collect decide_all decide judge win spare place anchor_from newest_from sort_by window_dec
    cadence ownership check_name check_metadata stored_values component_name valid_id parse_stamp
    format_stamp validate_dataset inside text_dec is_space is_control
prunes_second = refl

-- A pool where a snapshot appears once one is taken.
abbrev taken_state : State
taken_state =
    state_of
      (record { name = tank; kind = filesystem; guid = 10; creation = 0; create_txg = 1 }
        ∷ object_of one_oclock 4
        ∷ [])
      (tank_rows ++ rows_of one_oclock) []

abbrev growing : Backend Bool
growing = record {
  inspect = λ dataset recursive taken. (taken, ok (if taken then taken_state else tank_state));
  list_datasets = λ taken. (taken, ok (tank ∷ []));
  perform = λ call taken. (true, none);
}

-- The bytes of one identity, again and again.
abbrev fixed_bytes : Bool → Bool × Result Text (List ℕ)
fixed_bytes taken = (
  taken,
  ok (
      0x6f ∷ 0xa4 ∷ 0x59 ∷ 0xea ∷ 0xee ∷ 0x8a ∷ 0x4c ∷ 0xa4 ∷ 0x89 ∷ 0x4e ∷ 0xdb ∷ 0x77 ∷ 0xe1
      ∷ 0x60 ∷ 0x35 ∷ 0x5e ∷ []),
)

abbrev created : Run Bool ManagementError Metadata
created =
    create_snapshot growing installation_id fixed_bytes tank (tank ∷ []) 63839667600000000000
      (policy_of tank) false

created_metadata :
    created.result
    ≡ ok (record { lineage = lineage_id; snapshot = snapshot_id; created = 63839667600000000000 })
unfolding create_snapshot inspect choose_lineage new_metadata draw_id new_id unchanged initialize
    take_members perform check_created verify_members verified_in descendants_loop stored_lineage
    lineage_loop validate_members members_loop check_active_root scope_ready snapshots_in
    dataset_objects ◌>>=◌ ◌>>◌ root_authority root_values check_root current_state state_version
    version_loop version_of is_marker same_state ownership check_name check_metadata stored_values
    component_name valid_id parse_stamp format_stamp validate_dataset inside text_dec is_space
    is_control hex
created_metadata = refl

-- A root of another installation, until its marks are written.
abbrev foreign_state : State
foreign_state =
    state_of tank_objects
      (row tank owner_property (codes "0f8fad5b-d9cb-469f-a165-70867728950e")
        ∷ row tank lineage_property lineage_id
        ∷ row tank version_property (codes "2")
        ∷ rows_of (name_at new_year))
      []

abbrev adoptable : Backend Bool
adoptable = record {
  inspect =
      λ dataset recursive written. (written, ok (if written then tank_state else foreign_state));
  list_datasets = λ written. (written, ok (tank ∷ []));
  perform = λ call written. (true, none);
}

abbrev adopts : Run Bool ManagementError Text
adopts = adopt_dataset adoptable installation_id length_hash plain_codec tank (policy_of tank) false

adopted_lineage : adopts.result ≡ ok lineage_id
unfolding adopt_dataset inspect unchanged perform verify_adoption decide_adoption validate_evidence
    check_format evidence_loop reference_records records_loop records_readable keeps_records
    stored_lineage lineage_loop check_active_root snapshots_in ◌>>=◌ ◌>>◌ root_authority root_values
    check_root current_state state_version version_loop version_of is_marker same_state ownership
    check_name check_metadata stored_values component_name valid_id parse_stamp format_stamp
    validate_dataset text_dec is_space is_control
adopted_lineage = refl
