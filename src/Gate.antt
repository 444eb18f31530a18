-- ===== src/Gate.antt =====
-- internal/lifecycle/gate.go: the activation gate between the scheduler and its queues.
-- The mutex orders the calls, so each method is one step on the gate. A pointer to a ticket is a
-- number, and `tickets` is the heap of all tickets that were made; a scope keeps the set of those
-- that are registered. `signals` counts the times that a scope's `changed` channel was closed and
-- made anew, so that it names the channel. A ticket's context is what its `Err` returns.
pub mod Valid
pub mod Withdrawn
pub mod Quiescent
pub mod Woken
pub mod Counts
mod Examples
use boomerangz.Base.{
  is_none, Some, ℕ, zero, suc, ◌+◌, ◌-◌, ◌*◌, ◌/◌, ◌%◌, ◌^◌, ◌≤◌, ◌<◌, ◌≡◌, refl, sym, ap, ◌∙◌,
  subst, ◌≢◌, ◌↔◌, ◌⊎◌, inl, inr, Bool, true, false, not, ◌&&◌, ◌||◌, Option, none, some, List, [],
  ◌∷◌, ◌++◌, map, append_assoc, append-nil, arith, ltb, leb, ◌==◌, if◌then◌else◌, Bool-cases,
  Option-cases, Text, Key, text_dec, text_key, ℕ_key, ◌=?◌, codes, length, is_nil, length-append,
  keep, any, every, All, All-append, contains, remove, IsNodup, contains-append, contains-remove,
  IsNodup-remove, IsNodup-snoc,
}
use boomerangz.Base.Result.{Result, ok, err, is_ok, refuse, ◌>>◌}
use boomerangz.Base.Dict.{Dict, lookup, insert, get_or}
use boomerangz.Names.{NameError, validate_dataset, overlaps}

-- `other` is a number that names no kind of work.
pub data WorkKind : Type 0 where
  management transfer : WorkKind
  other : ℕ → WorkKind

-- What `Err` of a context that has ended returns.
pub data Ended : Type 0 where
  canceled deadline_exceeded : Ended

pub data GateError : Type 0 where
  bad_name : NameError → GateError
  invalid_kind disabled finished_or_running still_enabled : GateError
  related_enabled : Text → GateError
  ended : Ended → GateError

pub record Ticket : Type 0 where
  pub scope : Text
  pub kind : WorkKind
  pub ended : Option Ended
  pub running : Bool
  pub finished : Bool

pub record Scope : Type 0 where
  pub enabled : Bool
  pub members : List ℕ
  pub signals : ℕ

pub record Gate : Type 0 where
  pub scopes : Dict Text Scope
  pub tickets : Dict ℕ Ticket
  pub next : ℕ

pub record GateStatus : Type 0 where
  pub enabled : Bool
  pub queued : ℕ
  pub management : ℕ
  pub transfers : ℕ

abbrev pub new_scope : Scope
new_scope = record { enabled = false; members = []; signals = 0 }

abbrev pub scope_of : Text → Gate → Scope
scope_of dataset g = get_or dataset g.scopes new_scope

abbrev pub put : Text → Scope → Gate → Gate
put dataset s g = record g { scopes = insert dataset s g.scopes }

-- `get`: the scope, which is made where it is missing.
unfoldable pub get : Text → Gate → Gate
get dataset g = put dataset (scope_of dataset g) g

unfoldable pub signal : Scope → Scope
signal s = record s { signals = s.signals + 1 }

-- `t.cancel()`: the first cause of an end stays.
unfoldable pub cancel : Ticket → Ticket
cancel t = record t { ended = elim t.ended [ none ↦ some canceled | some why ↦ some why ] }

abbrev pub is_transfer : WorkKind → Bool
is_transfer management = false
is_transfer transfer = true
is_transfer (other k) = false

abbrev pub is_management : WorkKind → Bool
is_management management = true
is_management transfer = false
is_management (other k) = false

-- The body of the loop of `SetEnabled`.
unfoldable pub withdraw : Ticket → Ticket
unfolding cancel
withdraw t = if not t.running || is_transfer t.kind then cancel t else t

abbrev pub change_ticket : (Ticket → Ticket) → ℕ → Dict ℕ Ticket → Dict ℕ Ticket
change_ticket change i heap = elim (lookup i heap) [
  | none ↦ heap
  | some t ↦ insert i (change t) heap
]

unfoldable pub withdraw_all : List ℕ → Dict ℕ Ticket → Dict ℕ Ticket
unfolding withdraw
withdraw_all [] heap = heap
withdraw_all (i ∷ members) heap = withdraw_all members (change_ticket withdraw i heap)

-- `SetEnabled` after the check of the name.
unfoldable pub apply_enabled : Text → Bool → Gate → Gate
unfolding signal withdraw_all
apply_enabled dataset enabled g =
    let s = scope_of dataset g in
    record {
      scopes = insert dataset (signal (record s { enabled = enabled })) g.scopes;
      tickets = if not enabled then withdraw_all s.members g.tickets else g.tickets;
      next = g.next;
    }

-- `if err := zfs.ValidateDataset(dataset); err != nil { return err }`.
abbrev pub checked :
    Result NameError (Unit {0}) → Gate × Result GateError ℕ → Gate → Gate × Result GateError ℕ
checked (err e) called g = (g, err (bad_name e))
checked (ok passed) called g = called

-- A successful call without a value returns 0.
unfoldable pub set_enabled : Text → Bool → Gate → Gate × Result GateError ℕ
unfolding apply_enabled
set_enabled dataset enabled g =
    checked (validate_dataset dataset) (apply_enabled dataset enabled g, ok 0) g

abbrev pub new_ticket : Text → WorkKind → Ticket
new_ticket dataset kind = record {
  scope = dataset;
  kind = kind;
  ended = none;
  running = false;
  finished = false;
}

-- The ticket of `Queue`, made and registered.
unfoldable pub register : Text → WorkKind → Gate → Gate
unfolding signal
register dataset kind g =
    let s = scope_of dataset g in
    record {
      scopes = insert dataset (signal (record s { members = g.next ∷ s.members })) g.scopes;
      tickets = insert g.next (new_ticket dataset kind) g.tickets;
      next = g.next + 1;
    }

-- `Queue` under the lock.
unfoldable pub queue_locked : Option Ended → Text → WorkKind → Gate → Gate × Result GateError ℕ
unfolding register get
queue_locked context dataset kind g =
    if not (scope_of dataset g).enabled then (get dataset g, err disabled) else elim context [
      | some why ↦ (get dataset g, err (ended why))
      | none ↦ (register dataset kind g, ok g.next)
    ]

-- `Queue`; `context` is what `Err` of its context returns. The result is the new ticket.
unfoldable pub queue : Option Ended → Text → WorkKind → Gate → Gate × Result GateError ℕ
unfolding queue_locked
queue context dataset kind g =
    checked (validate_dataset dataset)
      (if not (is_management kind) && not (is_transfer kind)
        then (g, err invalid_kind)
        else queue_locked context dataset kind g)
      g

-- `Start` after its checks.
unfoldable pub run_ticket : ℕ → Ticket → Gate → Gate
unfolding signal
run_ticket i t g = record {
  scopes = insert t.scope (signal (scope_of t.scope g)) g.scopes;
  tickets = insert i (record t { running = true }) g.tickets;
  next = g.next;
}

unfoldable pub start_ticket : ℕ → Ticket → Gate → Gate × Result GateError ℕ
unfolding run_ticket
start_ticket i t g =
    if t.finished || t.running then (g, err finished_or_running) else elim t.ended [
      | some why ↦ (g, err (ended why))
      | none ↦
          if not (scope_of t.scope g).enabled then (g, err disabled) else (run_ticket i t g, ok 0)
    ]

-- A number that names no ticket is no pointer: the call does nothing.
unfoldable pub start : ℕ → Gate → Gate × Result GateError ℕ
unfolding start_ticket
start i g = elim (lookup i g.tickets) [ none ↦ (g, ok 0) | some t ↦ start_ticket i t g ]

unfoldable pub finish_ticket : ℕ → Ticket → Gate → Gate
unfolding signal cancel
finish_ticket i t g =
    let s = scope_of t.scope g in
    if t.finished then g else record {
      scopes = insert t.scope (signal (record s { members = remove i s.members })) g.scopes;
      tickets = insert i (cancel (record t { finished = true })) g.tickets;
      next = g.next;
    }

unfoldable pub finish : ℕ → Gate → Gate
unfolding finish_ticket
finish i g = elim (lookup i g.tickets) [ none ↦ g | some t ↦ finish_ticket i t g ]

-- One ticket's part of the counts of `Status`.
unfoldable pub count_ticket : Ticket → GateStatus → GateStatus
count_ticket t status =
    if not t.running
    then (if is_none t.ended then record status { queued = status.queued + 1 } else status)
    else if is_management t.kind
    then record status { management = status.management + 1 }
    else record status { transfers = status.transfers + 1 }

unfoldable pub count_tickets : List ℕ → Dict ℕ Ticket → GateStatus → GateStatus
unfolding count_ticket
count_tickets [] heap status = status
count_tickets (i ∷ members) heap status =
    count_tickets members heap
      (elim (lookup i heap) [ none ↦ status | some t ↦ count_ticket t status ])

unfoldable pub status : Text → Gate → GateStatus
unfolding count_tickets
status dataset g =
    let s = scope_of dataset g in
    count_tickets s.members g.tickets
      (record { enabled = s.enabled; queued = 0; management = 0; transfers = 0 })

abbrev pub is_running : Dict ℕ Ticket → ℕ → Bool
is_running heap i = elim (lookup i heap) [ none ↦ false | some t ↦ t.running ]

-- One round of a wait: it returns, or it goes to sleep on the channels that it saw.
pub data Look : Type 0 where
  refused : GateError → Look
  idle : Look
  asleep : List (Text × ℕ) → Look

-- A round of `WaitScopeQuiescent`, under the lock.
unfoldable pub look_scope : Text → Gate → Look
look_scope dataset g =
    let s = scope_of dataset g in
    if s.enabled
    then refused still_enabled
    else if any (is_running g.tickets) s.members
    then asleep ((dataset, s.signals) ∷ [])
    else idle

-- The loop of a round of `WaitQuiescent` over the scopes, with `running` and `changes`.
unfoldable pub look_related : Text → Dict ℕ Ticket → Dict Text Scope → Bool → List (Text × ℕ) → Look
unfolding overlaps
look_related dataset heap [] running changes = if not running then idle else asleep changes
look_related dataset heap ((name, s) ∷ scopes) running changes =
    let skipped = look_related dataset heap scopes running changes in
    let taken =
      look_related dataset heap scopes (running || any (is_running heap) s.members)
        (changes ++ (name, s.signals) ∷ []) in
    if not (overlaps name dataset)
    then skipped
    else if s.enabled
    then refused (related_enabled name)
    else taken

-- A round of `WaitQuiescent`, under the lock.
unfoldable pub look_quiescent : Text → Gate → Look
unfolding look_related
look_quiescent dataset g = look_related dataset g.tickets g.scopes false []

-- What a sleeping wait wakes to: its context has ended, or a channel was closed and the gate is
-- another by then.
pub data Wake : Type 0 where
  context_done : Ended → Wake
  changed : Gate → Wake

-- `return ctx.Err()`.
abbrev pub returned : Option Ended → Result GateError ℕ
returned none = ok 0
returned (some why) = err (ended why)

-- The loop of a wait: its rounds look at the gates that the others leave. `none` is a wait that
-- still sleeps when the list ends. `context` is what `Err` returns at the end.
unfoldable pub wait_loop :
    (Gate → Look) → Option Ended → Gate → List Wake → Option (Result GateError ℕ)
wait_loop look context g [] = elim (look g) [
  | refused e ↦ some (err e)
  | idle ↦ some (returned context)
  | asleep changes ↦ none
]
wait_loop look context g (context_done why ∷ wakes) = elim (look g) [
  | refused e ↦ some (err e)
  | idle ↦ some (returned context)
  | asleep changes ↦ some (err (ended why))
]
wait_loop look context g (changed g' ∷ wakes) =
    let rest = wait_loop look context g' wakes in
    elim (look g) [
      | refused e ↦ some (err e)
      | idle ↦ some (returned context)
      | asleep changes ↦ rest
    ]

unfoldable pub wait_quiescent : Text → Option Ended → Gate → List Wake → Option (Result GateError ℕ)
unfolding wait_loop look_quiescent
wait_quiescent dataset context g wakes = elim (validate_dataset dataset) [
  | err e ↦ some (err (bad_name e))
  | ok _ ↦ wait_loop (look_quiescent dataset) context g wakes
]

unfoldable pub wait_scope_quiescent :
    Text → Option Ended → Gate → List Wake → Option (Result GateError ℕ)
unfolding wait_loop look_scope
wait_scope_quiescent dataset context g wakes = elim (validate_dataset dataset) [
  | err e ↦ some (err (bad_name e))
  | ok _ ↦ wait_loop (look_scope dataset) context g wakes
]

-- A ticket's context ends from outside, by its parent.
abbrev pub expire : ℕ → Ended → Gate → Gate
expire i why g = record g {
  tickets =
      change_ticket
        (λ t. record t { ended = elim t.ended [ none ↦ some why | some first ↦ some first ] }) i
        g.tickets;
}

abbrev pub empty_gate : Gate
empty_gate = record { scopes = []; tickets = []; next = 0 }

pub data Step : Gate → Gate → Type 0 where
  sets : (g : Gate) (dataset : Text) (enabled : Bool) → Step g (set_enabled dataset enabled g).0
  queues :
      (g : Gate) (context : Option Ended) (dataset : Text) (kind : WorkKind)
      → Step g (queue context dataset kind g).0
  starts : (g : Gate) (i : ℕ) → Step g (start i g).0
  finishes : (g : Gate) (i : ℕ) → Step g (finish i g)
  expires : (g : Gate) (i : ℕ) (why : Ended) → Step g (expire i why g)
  -- `Status`, and the look of a wait on one scope.
  reads : (g : Gate) (dataset : Text) → Step g (get dataset g)

pub data Reach (g : Gate) : Gate → Type 0 where
  here : Reach g g
  next_step : {h k : Gate} → Reach g h → Step h k → Reach g k
