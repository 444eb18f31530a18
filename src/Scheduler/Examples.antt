-- ===== src/Scheduler/Examples.antt =====
-- A root of two members: it fires, is completed, and fires again.
use boomerangz.Base.{
  is_none, ◌*◌, ◌≡◌, refl, true, false, some, [], ◌∷◌, ◌++◌, arith, Text, text_dec, text_key, ℕ_key,
  codes, All,
}
use boomerangz.Base.Dict.{Dict, lookup}
use boomerangz.Grid.{minute, Grid, grid_of, cadence}
use boomerangz.Policy.{Effective, namespace, Flags}
use boomerangz.Scheduler.{
  MemberDeadline, Entry, Deadline, Scheduler, no_scheduler, plan, plan_from, plan_entry,
  time_members, time_found, time_member, install, is_schedulable, active_root, earliest, schedule,
  was_pending,
}
use boomerangz.Scheduler.Rounds.{next_round, round_from, start_root, select_from, complete}
use boomerangz.Scheduler.Selection.{IsTimed, Round, next_round-Round}
use boomerangz.Scheduler.Cadence.{IsKeptFrom, plan_entry-IsKeptFrom}
use boomerangz.Scheduler.Settling.{IsSettledIn, complete-IsSettledIn, install-pending}

abbrev hourly : Grid
hourly = grid_of (record { count = 24; span = 60 * minute } ∷ []) (24 * 60 * minute)

abbrev no_flags : Flags
no_flags = record {
  large_blocks = false;
  compressed = false;
  embedded_data = false;
  raw = false;
  props = false;
  replicate = false;
}

abbrev policy_of : Grid → Effective
policy_of grid = record {
  enabled = true;
  grid = grid;
  remote = [];
  local = [];
  incremental = codes "all";
  requested = no_flags;
  send = no_flags;
  set_properties = [];
  ignore_properties = [];
  discard = codes "off";
  values =
      (namespace ++ codes "enabled", record { value = codes "on"; dataset = codes "tank" }) ∷ [];
  warnings = [];
  errors = [];
}

abbrev tank_name : Text
tank_name = codes "tank"

abbrev tank : Entry
tank = record {
  name = tank_name;
  inspected = true;
  covered_by = [];
  members = tank_name ∷ [];
  policy = policy_of hourly;
}

abbrev planned : Dict Text Deadline
planned = plan (tank ∷ []) 1000 []

abbrev scheduler : Scheduler
scheduler = install planned no_scheduler

abbrev waiting_root : Deadline
waiting_root = record {
  policy = policy_of hourly;
  members = (tank_name, record { grid = hourly; span = 60 * minute; next = 1000 }) ∷ [];
  order = tank_name ∷ [];
  replicate = [];
  pending = false;
}

abbrev ready : Scheduler
ready = record { entries = (tank_name, waiting_root) ∷ []; wakes = 1 }

planned_tank : scheduler ≡ ready
unfolding install plan plan_from plan_entry time_members time_found time_member is_schedulable
    active_root cadence text_dec
planned_tank = refl

ready-IsTimed : All IsTimed ready.entries
unfolding earliest
ready-IsTimed = ((refl, omega arith), tt)

next_round-Round_example : Round 2000 ready (next_round 2000 ready).0 (next_round 2000 ready).1
next_round-Round_example = next_round-Round 2000 ready (refl, tt) ready-IsTimed

abbrev fired_root : Deadline
fired_root = record waiting_root { pending = true }

abbrev fired : Scheduler
fired = record ready { entries = (tank_name, fired_root) ∷ [] }

tank_fires : (next_round 2000 ready).1 ≡ fired
unfolding next_round round_from start_root select_from earliest schedule text_dec
tank_fires = refl

tank_found : is_none (lookup tank_name fired.entries) ≡ false
unfolding text_dec
tank_found = refl

complete-IsSettledIn_example :
    IsSettledIn tank_name fired (complete tank_name (tank_name ∷ []) 3000 [] fired)
complete-IsSettledIn_example =
    complete-IsSettledIn tank_name (tank_name ∷ []) 3000 [] fired tank_found

-- An Update reads the root while it is pending; the root is completed; the Update is installed.
abbrev late_update : Scheduler
late_update =
    install (plan (tank ∷ []) 3500 fired.entries)
      (complete tank_name (tank_name ∷ []) 3000 [] fired)

still_pending : lookup tank_name late_update.entries ≡ some fired_root
unfolding install plan plan_from plan_entry time_members time_found time_member is_schedulable
    active_root cadence text_dec
still_pending = refl

install-pending_example : true ≡ was_pending (lookup tank_name fired.entries)
install-pending_example =
    install-pending (tank ∷ []) 3500 fired (complete tank_name (tank_name ∷ []) 3000 [] fired)
      tank_name still_pending

-- An Update at 9000 keeps the deadline of a member with the same cadence.
abbrev kept_member : MemberDeadline
kept_member = record { grid = hourly; span = 60 * minute; next = 1000 }

member_planned :
    lookup tank_name (plan_entry ((tank_name, tank) ∷ []) 9000 (some waiting_root) tank).members
    ≡ some kept_member
unfolding plan_entry time_members time_found time_member cadence text_dec
member_planned = refl

plan_entry-IsKeptFrom_example : IsKeptFrom 9000 (some waiting_root) tank_name kept_member
plan_entry-IsKeptFrom_example =
    plan_entry-IsKeptFrom ((tank_name, tank) ∷ []) 9000 (some waiting_root) tank tank_name
      kept_member member_planned
