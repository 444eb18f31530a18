-- ===== src/Queue.antt =====
-- internal/daemon/queue.go: the bounded, deduplicating round-robin queue of jobs.
-- The mutex orders the calls, so each method is one step on the queue and on the world that the
-- observer and the jobs' closures act on. `ids` is a Go set: only membership in the list counts.
-- `signals` counts the times that the notify channel was closed and made anew.
pub mod Rotation
pub mod Weights
pub mod Valid
pub mod Offer
pub mod Pop
pub mod Remove
pub mod Snapshots
mod Examples
use boomerangz.Base.{
  is_none, ℕ, zero, suc, ◌+◌, ◌-◌, ◌*◌, ◌/◌, ◌%◌, ◌^◌, ◌≤◌, ◌<◌, ◌≡◌, refl, sym, ap, ◌∙◌, subst,
  ◌≢◌, ◌↔◌, ◌⊎◌, inl, inr, Bool, true, false, not, ◌&&◌, ◌||◌, Option, none, some, List, [], ◌∷◌,
  ◌++◌, map, append_assoc, append-nil, arith, ltb, leb, ◌==◌, if◌then◌else◌, Bool-cases,
  Option-cases, Text, Key, text_dec, text_key, ℕ_key, ◌=?◌, codes, length, is_nil, length-append,
  keep, any, every, All, All-append, contains, remove, IsNodup, contains-append, contains-remove,
  IsNodup-remove, IsNodup-snoc,
}
use boomerangz.Base.Result.{Result, ok, err}
use boomerangz.Base.Dict.{Dict, lookup, insert, delete, get_or}
use boomerangz.Jobs.{Job, QueueSnapshot, QueueChange}

pub data QueueError : Type 0 where
  capacity_not_positive incomplete_job queue_closed : QueueError
  capacity_reached : ℕ → QueueError

pub record FairQueue (W : Type 0) : Type 0 where
  pub capacity : ℕ
  pub count : ℕ
  pub groups : Dict Text (List (Job W))
  pub order : List Text
  pub ids : List Text
  pub signals : ℕ
  pub closed : Bool
  pub observe : Option (QueueSnapshot → QueueChange W → W → W)

-- What one look of `Pop` at the queue gives. `cancelled` is the end of its context, and `fault` an
-- index out of range.
pub data Popped (W : Type 0) : Type 0 where
  popped : Job W → Popped W
  drained waiting cancelled fault : Popped W

-- What a waiting `Pop` wakes to: its context is done, or the others have left a queue.
pub data Wake (W : Type 0) : Type 0 where
  context_done : Wake W
  notified : FairQueue W → W → Wake W

module _ {W : Type 0} where
  unfoldable pub new_fair_queue : ℕ → Result QueueError (FairQueue W)
  new_fair_queue capacity =
      if ltb capacity 1
      then err capacity_not_positive
      else ok (record {
        capacity = capacity;
        count = 0;
        groups = [];
        order = [];
        ids = [];
        signals = 0;
        closed = false;
        observe = none;
      })

  abbrev pub jobs_of : Text → Dict Text (List (Job W)) → List (Job W)
  jobs_of group groups = get_or group groups []

  -- The loop of `snapshotLocked`: the identities in the order in which the jobs would be popped.
  -- `jobs[0]` of a group without jobs would fault; the loop stops there.
  unfoldable pub snapshot_ids : ℕ → List Text → Dict Text (List (Job W)) → List Text
  snapshot_ids zero order groups = []
  snapshot_ids (suc fuel) [] groups = []
  snapshot_ids (suc fuel) (group ∷ order) groups = elim (jobs_of group groups) [
    | [] ↦ []
    | job ∷ rest ↦
        job.id
        ∷ snapshot_ids fuel (if is_nil rest then order else order ++ group ∷ [])
            (if is_nil rest then groups else insert group rest groups)
  ]

  -- Each round of the loop takes one job, so the number of jobs is fuel enough.
  unfoldable pub snapshot_locked : FairQueue W → QueueSnapshot
  snapshot_locked q = record {
    capacity = q.capacity;
    pending = q.count;
    ids = snapshot_ids q.count q.order q.groups;
  }

  unfoldable pub observe_locked : FairQueue W → QueueChange W → W → W
  observe_locked q change w = elim q.observe [ none ↦ w | some f ↦ f (snapshot_locked q) change w ]

  -- The metadata that `Offer` asks for.
  abbrev pub is_complete : Job W → Bool
  is_complete job =
      not (
        is_nil job.id || job.run_id == 0 || is_nil job.group || is_nil job.scope || is_none job.run)

  abbrev pub add_job : Job W → FairQueue W → FairQueue W
  add_job job q = record q {
    order = if is_nil (jobs_of job.group q.groups) then q.order ++ job.group ∷ [] else q.order;
    groups = insert job.group (jobs_of job.group q.groups ++ job ∷ []) q.groups;
    ids = job.id ∷ q.ids;
    count = q.count + 1;
    signals = q.signals + 1;
  }

  unfoldable pub offer : Job W → FairQueue W → W → Result QueueError Bool × FairQueue W × W
  unfolding observe_locked
  offer job q w =
      if not (is_complete job)
      then (err incomplete_job, q, w)
      else if q.closed
      then (err queue_closed, q, w)
      else if contains q.ids job.id
      then (ok false, q, w)
      else if leb q.capacity q.count
      then (err (capacity_reached q.capacity), q, w)
      else (
        ok true,
        add_job job q,
        observe_locked (add_job job q) (record { offered = some job; dropped = []; reason = [] }) w,
      )

  abbrev pub take_job : Text → List Text → Job W → List (Job W) → FairQueue W → FairQueue W
  take_job group order job jobs q = record q {
    order = if is_nil jobs then order else order ++ group ∷ [];
    groups = if is_nil jobs then delete group q.groups else insert group jobs q.groups;
    ids = remove job.id q.ids;
    count = q.count - 1;
  }

  pop_group : Text → List Text → List (Job W) → FairQueue W → W → Popped W × FairQueue W × W
  unfolding observe_locked
  pop_group group order [] q w = (fault, q, w)
  pop_group group order (job ∷ jobs) q w = (
    popped job,
    take_job group order job jobs q,
    observe_locked (take_job group order job jobs q)
        (record { offered = none; dropped = []; reason = [] }) w,
  )

  pop_order : List Text → FairQueue W → W → Popped W × FairQueue W × W
  unfolding pop_group
  pop_order [] q w = (fault, q, w)
  pop_order (group ∷ order) q w = pop_group group order (jobs_of group q.groups) q w

  -- The body of the loop of `Pop`, under the lock.
  unfoldable pub pop_step : FairQueue W → W → Popped W × FairQueue W × W
  unfolding pop_order
  pop_step q w =
      if ltb 0 q.count
      then pop_order q.order q w
      else if q.closed
      then (drained, q, w)
      else (waiting, q, w)

  -- A look that found neither a job nor a closed queue goes on to what the wait gives.
  or_wait : Popped W × FairQueue W × W → Popped W × FairQueue W × W → Popped W × FairQueue W × W
  or_wait (waiting, q, w) next = next
  or_wait (popped job, q, w) next = (popped job, q, w)
  or_wait (drained, q, w) next = (drained, q, w)
  or_wait (cancelled, q, w) next = (cancelled, q, w)
  or_wait (fault, q, w) next = (fault, q, w)

  -- The loop of `Pop` over what it wakes to. `waiting` is returned while it still waits.
  unfoldable pub pop : List (Wake W) → FairQueue W → W → Popped W × FairQueue W × W
  unfolding or_wait
  pop [] q w = pop_step q w
  pop (context_done ∷ wakes) q w = or_wait (pop_step q w) (cancelled, q, w)
  pop (notified q' w' ∷ wakes) q w = or_wait (pop_step q w) (pop wakes q' w')

  -- The jobs of a group that belong to a scope, and the others.
  abbrev pub in_scope : Text → List (Job W) → List (Job W)
  in_scope scope = keep (λ job. job.scope =? scope)

  abbrev pub out_of_scope : Text → List (Job W) → List (Job W)
  out_of_scope scope = keep (λ job. not (job.scope =? scope))

  abbrev pub remove_ids : List (Job W) → List Text → List Text
  remove_ids [] ids = ids
  remove_ids (job ∷ jobs) ids = remove_ids jobs (remove job.id ids)

  -- One round of the loop of `RemoveScope`, over one group.
  abbrev pub remove_from : Text → Text → List (Job W) → FairQueue W → FairQueue W
  remove_from scope group jobs q =
      let kept = out_of_scope scope jobs in
      record q {
        groups = if is_nil kept then delete group q.groups else insert group kept q.groups;
        order = if is_nil kept then remove group q.order else q.order;
        ids = remove_ids (in_scope scope jobs) q.ids;
        count = q.count - length (in_scope scope jobs);
      }

  unfoldable pub remove_loop :
      Text → Dict Text (List (Job W)) → FairQueue W → List (Job W) × FairQueue W
  remove_loop scope [] q = ([], q)
  remove_loop scope ((group, jobs) ∷ rest) q =
      let (dropped, q') = remove_loop scope rest (remove_from scope group jobs q) in
      (in_scope scope jobs ++ dropped, q')

  abbrev pub signal : FairQueue W → FairQueue W
  signal q = record q { signals = q.signals + 1 }

  unfoldable pub drop_jobs : List (Job W) → W → W
  drop_jobs [] w = w
  drop_jobs (job ∷ jobs) w = drop_jobs jobs (elim job.drop [ none ↦ w | some f ↦ f w ])

  announce : List (Job W) → Text → FairQueue W → W → FairQueue W × W
  unfolding observe_locked
  announce [] reason q w = (q, w)
  announce (job ∷ jobs) reason q w = (
    signal q,
    observe_locked (signal q) (record { offered = none; dropped = job ∷ jobs; reason = reason }) w,
  )

  unfoldable pub remove_scope : Text → Text → FairQueue W → W → ℕ × FairQueue W × W
  unfolding announce remove_loop
  remove_scope scope reason q w =
      let (dropped, q') = remove_loop scope q.groups q in
      let (q'', w') = announce dropped reason q' w in (length dropped, q'', drop_jobs dropped w')

  abbrev pub all_jobs : Dict Text (List (Job W)) → List (Job W)
  all_jobs [] = []
  all_jobs ((group, jobs) ∷ rest) = jobs ++ all_jobs rest

  unfoldable pub discard_all : Text → FairQueue W → W → ℕ × FairQueue W × W
  unfolding announce
  discard_all reason q w =
      let dropped = all_jobs q.groups in
      let (q', w') =
        announce dropped reason (record q { groups = []; order = []; ids = []; count = 0 }) w in
      (length dropped, q', drop_jobs dropped w')

  unfoldable pub close : FairQueue W → FairQueue W
  close q = if q.closed then q else signal (record q { closed = true })
