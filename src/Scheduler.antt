-- ===== src/Scheduler.antt =====
-- internal/daemon/scheduler.go, and ActiveRoot of internal/lifecycle/authority.go: when the roots are
-- due for a snapshot. A time is a number of nanoseconds since Go's zero time, all in UTC.
-- Update reads the entries in its loop and replaces them behind it, each under the lock: `plan` is the
-- first part, read at once, and `install` the second. Entries have different names. `wakes` counts the times that the channel `wake` was replaced.
pub mod Rounds
pub mod Selection
pub mod Settling
pub mod Cadence
mod Examples
use boomerangz.Base.{
  is_none, ℕ, zero, suc, ◌+◌, ◌-◌, ◌*◌, ◌/◌, ◌%◌, ◌^◌, ◌≤◌, ◌<◌, ◌≡◌, refl, sym, ap, ◌∙◌, subst,
  ◌≢◌, ◌↔◌, ◌⊎◌, inl, inr, Bool, true, false, not, ◌&&◌, ◌||◌, Option, none, some, List, [], ◌∷◌,
  ◌++◌, map, append_assoc, append-nil, arith, ltb, leb, ◌==◌, if◌then◌else◌, Bool-cases,
  Option-cases, Text, Key, text_dec, text_key, ℕ_key, ◌=?◌, codes, length, is_nil, length-append,
  keep, any, every, All, All-append, contains, remove, IsNodup, contains-append, contains-remove,
  IsNodup-remove, IsNodup-snoc,
}
use boomerangz.Base.Dict.{Dict, lookup, insert, get_or, has, keys}
use boomerangz.Base.Sorting.{sort_by, text_leb}
use boomerangz.Grid.{Grid, cadence}
use boomerangz.Policy.{Effective, Value, namespace, is_valid}

pub record ScheduleMember : Type 0 where
  pub dataset : Text
  pub grid : Grid

pub record Schedule : Type 0 where
  pub dataset : Text
  pub policy : Effective
  pub members : List ScheduleMember
  pub due : List Text
  pub deadline : ℕ

pub record MemberDeadline : Type 0 where
  pub grid : Grid
  pub span : ℕ
  pub next : ℕ

pub record Deadline : Type 0 where
  pub policy : Effective
  pub members : Dict Text MemberDeadline
  pub order : List Text
  pub replicate : List ScheduleMember
  pub pending : Bool

pub record Scheduler : Type 0 where
  pub entries : Dict Text Deadline
  pub wakes : ℕ

-- What the scheduler reads of an entry of discovery.
pub record Entry : Type 0 where
  pub name : Text
  pub inspected : Bool
  pub covered_by : Text
  pub members : List Text
  pub policy : Effective

abbrev pub no_scheduler : Scheduler
no_scheduler = record { entries = []; wakes = 0 }

abbrev pub signal : Scheduler → Scheduler
signal s = record s { wakes = s.wakes + 1 }

earliest_from : ℕ → Dict Text MemberDeadline → ℕ
earliest_from earliest [] = earliest
earliest_from earliest ((name, m) ∷ ms) =
    earliest_from (if earliest == 0 || ltb m.next earliest then m.next else earliest) ms

unfoldable pub earliest : Deadline → ℕ
unfolding earliest_from
earliest d = earliest_from 0 d.members

abbrev pub all_members : Deadline → List Text
all_members d =
    if is_nil d.replicate then d.order else map (λ (m : ScheduleMember). m.dataset) d.replicate

abbrev pub zero_member : MemberDeadline
zero_member = record { grid = record { buckets = []; text = []; horizon = 0 }; span = 0; next = 0 }

-- Whether the time has come; a zero `now` selects none.
abbrev pub is_due : ℕ → ℕ → Bool
is_due now deadline = not (now == 0) && leb deadline now

-- `deadline.schedule`.
unfoldable pub schedule : Text → ℕ → Deadline → Schedule
unfolding earliest
schedule dataset now d =
    let member : Text → MemberDeadline = λ name. get_or name d.members zero_member in
    if is_nil d.replicate
    then record {
      dataset = dataset;
      policy = d.policy;
      members = map (λ name. record { dataset = name; grid = (member name).grid }) d.order;
      due = keep (λ name. is_due now (member name).next) d.order;
      deadline = earliest d;
    }
    else record {
      dataset = dataset;
      policy = d.policy;
      members = d.replicate;
      due = if is_due now (earliest d) then all_members d else [];
      deadline = earliest d;
    }

-- `Lookup`.
unfoldable pub lookup_root : Text → Scheduler → Option Schedule
unfolding schedule
lookup_root dataset s = elim (lookup dataset s.entries) [
  | none ↦ none
  | some d ↦ some (record (schedule dataset 0 d) { due = all_members d })
]

-- `lifecycle.ActiveRoot`, where it gives no error.
unfoldable pub active_root : Effective → Text → Bool
active_root p root =
    let source =
      (get_or (namespace ++ codes "enabled") p.values
        (record { value = []; dataset = [] })).dataset in
    p.enabled && is_valid p && not (is_nil source) && source =? root

unfoldable pub is_schedulable : Entry → Bool
unfolding active_root
is_schedulable e =
    is_nil e.covered_by
    && e.inspected
    && e.policy.enabled
    && is_valid e.policy
    && active_root e.policy e.name

abbrev pub by_name_from : Dict Text Entry → List Entry → Dict Text Entry
by_name_from found [] = found
by_name_from found (e ∷ es) = by_name_from (insert e.name e found) es

-- A deadline is kept while the cadence is the same.
abbrev pub kept_next : ℕ → ℕ → Option MemberDeadline → ℕ
kept_next now span none = now
kept_next now span (some m) = if m.span == span then m.next else now

abbrev pub old_member : Text → Option Deadline → Option MemberDeadline
old_member name none = none
old_member name (some d) = lookup name d.members

abbrev pub was_pending : Option Deadline → Bool
was_pending none = false
was_pending (some d) = d.pending

-- One round of the loop over the timed members, for a member that was found.
unfoldable pub time_member : ℕ → Option Deadline → Text → Grid → Deadline → Deadline
time_member now previous name grid item =
    let old = old_member name previous in
    let next = kept_next now (cadence grid) old in
    if cadence grid == 0 then item else record item {
      members = insert name (record { grid = grid; span = cadence grid; next = next }) item.members;
      order = item.order ++ name ∷ [];
    }

-- A member without an entry is passed over.
unfoldable pub time_found : ℕ → Option Deadline → Text → Deadline → Option Entry → Deadline
unfolding time_member
time_found now previous name item none = item
time_found now previous name item (some e) = time_member now previous name e.policy.grid item

unfoldable pub time_members :
    Dict Text Entry → ℕ → Option Deadline → List Text → Deadline → Deadline
time_members by_name now previous [] item = item
time_members by_name now previous (name ∷ names) item =
    time_members by_name now previous names
      (time_found now previous name item (lookup name by_name))

-- Under `replicate` the root is the only timed member.
abbrev pub timed_members : Entry → List Text
timed_members e = if e.policy.send.replicate then e.name ∷ [] else e.members

abbrev pub untimed : Option Deadline → Entry → Deadline
untimed previous e = record {
  policy = e.policy;
  members = [];
  order = [];
  replicate =
      if e.policy.send.replicate
      then map (λ name. record { dataset = name; grid = e.policy.grid }) e.members
      else [];
  pending = was_pending previous;
}

-- What a schedulable entry is planned as.
unfoldable pub plan_entry : Dict Text Entry → ℕ → Option Deadline → Entry → Deadline
unfolding time_members
plan_entry by_name now previous e =
    time_members by_name now previous (timed_members e) (untimed previous e)

-- The loop of `Update` over the entries: the next entries, and the active roots.
unfoldable pub plan_from :
    Dict Text Entry → ℕ → Dict Text Deadline → List Entry → Dict Text Deadline → Dict Text Deadline
plan_from by_name now old [] next = next
plan_from by_name now old (e ∷ es) next =
    let item = plan_entry by_name now (lookup e.name old) e in
    plan_from by_name now old es
      (if not (is_schedulable e) || is_nil item.order then next else insert e.name item next)

unfoldable pub plan : List Entry → ℕ → Dict Text Deadline → Dict Text Deadline
unfolding plan_from
plan entries now old = plan_from (by_name_from [] entries) now old entries []

unfoldable pub install : Dict Text Deadline → Scheduler → Scheduler
install next s = signal (record s { entries = next })

-- `Update`: the roots that are active now and those that were removed, both sorted; a zero time is
-- refused.
unfoldable pub update : List Entry → ℕ → Scheduler → Option (List Text × List Text × Scheduler)
unfolding install
update entries now s =
    let next = plan entries now s.entries in
    if now == 0
    then none
    else some (
      sort_by text_leb (keys next),
      sort_by text_leb (keep (λ name. not (has name next)) (keys s.entries)),
      install next s,
    )
