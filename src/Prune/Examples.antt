-- ===== src/Prune/Examples.antt =====
-- A verdicts of five snapshots of one dataset: a kept window, a duplicate, a hold, and the newest.
use boomerangz.Base.Sorting.{sort_by}
use boomerangz.Base.{
  Some, ℕ, ◌+◌, ◌*◌, ◌≤◌, ◌≡◌, refl, inl, inr, true, false, some, List, [], ◌∷◌, map, Text,
  text_dec, text_key, ℕ_key, codes, All,
}
use mathlib.Core.List.{Perm}
use boomerangz.Base.Result.{ok}
use boomerangz.Strings.{is_space, is_control}
use boomerangz.Names.{validate_dataset}
use boomerangz.Stamp.{parse_stamp, format_stamp}
use boomerangz.Grid.{Grid, grid_of, cadence, minute}
use boomerangz.Ownership.{
  Snapshot, Metadata, ownership, check_name, check_metadata, stored_values, component_name,
  valid_id,
}
use boomerangz.Ownership.Examples.{
  lineage_id, name_at, snapshot_at, new_year, first, first_created, first_owned,
}
use boomerangz.Prune.{
  Decision, Reason, Window, plan_prune, collect, decide_all, decide, judge, win, spare, place,
  anchor_from, newest_from, window_dec, candidate_of, snapshot_due, newest_created,
}
use boomerangz.Prune.Safety.{IsExpendable, plan_prune-IsExpendable}
use boomerangz.Prune.Kept.{IsKept, IsNoYounger, window_at, plan_prune-window, plan_prune-newest}
use boomerangz.Prune.Cover.{decided, listed, plan_prune-Perm}

abbrev hour_stamp : Text
hour_stamp = codes "20240101T003000.000000000Z"

abbrev extra_stamp : Text
extra_stamp = codes "20240101T003500.000000000Z"

abbrev held_stamp : Text
held_stamp = codes "20240101T004000.000000000Z"

abbrev last_stamp : Text
last_stamp = codes "20240101T010000.000000000Z"

abbrev inventory : List Snapshot
inventory =
    snapshot_at last_stamp 10 []
    ∷ first
    ∷ snapshot_at hour_stamp 8 []
    ∷ snapshot_at extra_stamp 11 []
    ∷ snapshot_at held_stamp 9 (codes "keep" ∷ [])
    ∷ []

abbrev hourly : Grid
hourly = grid_of (record { count = 24; span = 60 * minute } ∷ []) (24 * 60 * minute)

abbrev first_decision : Decision
first_decision = record {
  snapshot = name_at new_year;
  guid = 7;
  destroy = false;
  reason = Reason.oldest;
}

abbrev hour_decision : Decision
hour_decision = record {
  snapshot = name_at hour_stamp;
  guid = 8;
  destroy = false;
  reason = Reason.oldest;
}

abbrev extra_decision : Decision
extra_decision = record {
  snapshot = name_at extra_stamp;
  guid = 11;
  destroy = true;
  reason = Reason.duplicate;
}

abbrev verdicts : List Decision
verdicts =
    first_decision
    ∷ hour_decision
    ∷ extra_decision
    ∷ record { snapshot = name_at held_stamp; guid = 9; destroy = false; reason = Reason.held }
    ∷ record {
      snapshot = name_at last_stamp;
      guid = 10;
      destroy = false;
      reason = Reason.newest_owned;
    }
    ∷ []

planned : plan_prune (codes "tank") lineage_id hourly inventory ≡ ok verdicts
unfolding plan_prune collect decide_all decide judge win spare place anchor_from newest_from sort_by
    window_dec cadence ownership check_name check_metadata stored_values component_name valid_id
    parse_stamp format_stamp validate_dataset text_dec is_space is_control
planned = refl

plan_prune-IsExpendable_example : Some (IsExpendable lineage_id extra_decision) inventory
plan_prune-IsExpendable_example =
    plan_prune-IsExpendable (codes "tank") lineage_id hourly inventory extra_decision planned
      (inr (inr (inl refl))) refl

plan_prune-Perm_example : Perm (map decided verdicts) (map listed inventory)
plan_prune-Perm_example = plan_prune-Perm (codes "tank") lineage_id hourly inventory planned

first_is_owned : (candidate_of lineage_id first).owned ≡ true
unfolding ownership check_name check_metadata stored_values component_name valid_id parse_stamp
    format_stamp validate_dataset text_dec is_space is_control
first_is_owned = refl

plan_prune-newest_example :
    Some
      (λ k.
        (n : Metadata) × IsKept lineage_id verdicts k n
        × All (IsNoYounger lineage_id n.created) inventory)
      inventory
plan_prune-newest_example =
    plan_prune-newest (codes "tank") lineage_id hourly inventory planned (inr (inl first_is_owned))

abbrev first_window : Window
first_window = record { group = 0; index = 1 }

first_window_at : window_at lineage_id hourly inventory first_created ≡ some first_window
unfolding place anchor_from ownership check_name check_metadata stored_values component_name
    valid_id parse_stamp format_stamp validate_dataset text_dec is_space is_control
first_window_at = refl

plan_prune-window_example :
    Some
      (λ k.
        (n : Metadata) × (n.created ≤ first_created)
        × (window_at lineage_id hourly inventory n.created ≡ some first_window)
        × IsKept lineage_id verdicts k n)
      inventory
plan_prune-window_example =
    plan_prune-window (codes "tank") lineage_id hourly inventory first first_window planned
      (inr (inl refl)) first_owned first_window_at

-- Two hours after the first snapshot, and an hour after the last.
abbrev now : ℕ
now = first_created + 120 * minute

not_due : snapshot_due now (codes "tank") lineage_id hourly inventory ≡ ok false
unfolding snapshot_due newest_created cadence ownership check_name check_metadata stored_values
    component_name valid_id parse_stamp format_stamp validate_dataset text_dec is_space is_control
not_due = refl
