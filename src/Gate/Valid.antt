-- ===== src/Gate/Valid.antt =====
-- internal/lifecycle/gate.go: what holds of every gate that the calls can reach.
use boomerangz.Base.{
  is_none, ℕ, ◌+◌, ◌≤◌, ◌≡◌, refl, sym, subst, inl, inr, Bool, true, false, not, ◌&&◌, ◌||◌, Option,
  none, some, List, [], ◌∷◌, arith, if◌then◌else◌, Bool-cases, Option-cases, Text, text_key, ℕ_key,
  ◌=?◌, contains, remove, contains-remove,
}
use boomerangz.Base.Dict.{Dict, lookup, insert, lookup-insert}
use boomerangz.Base.Result.{Result, ok, err}
use boomerangz.Names.{NameError, validate_dataset}
use boomerangz.Gate.{
  WorkKind, Ended, GateError, Ticket, Scope, Gate, scope_of, get, cancel, is_transfer,
  is_management, withdraw, change_ticket, withdraw_all, apply_enabled, set_enabled, register,
  queue_locked, queue, run_ticket, start_ticket, start, finish_ticket, finish, expire, empty_gate,
  Step, sets, queues, starts, finishes, expires, reads, Reach, here, next_step, checked,
}

-- A live ticket of the scope.
abbrev pub lives_in : Text → Option Ticket → Bool
lives_in name none = false
lives_in name (some t) = not t.finished && (t.scope =? name)

-- A live ticket of a disabled scope is cancelled, but for running management.
abbrev pub is_quiet_ticket : Bool → Ticket → Bool
is_quiet_ticket enabled t =
    t.finished || enabled || not (is_none t.ended) || (t.running && not (is_transfer t.kind))

abbrev pub is_quiet : Option Ticket → Gate → Bool
is_quiet none g = true
is_quiet (some t) g = is_quiet_ticket (scope_of t.scope g).enabled t

pub record IsValid (g : Gate) : Type 0 where
  -- A scope's set holds exactly the live tickets of that scope.
  pub registered :
      (i : ℕ) (name : Text)
      → contains (scope_of name g).members i ≡ lives_in name (lookup i g.tickets)
  pub quiet : (i : ℕ) → is_quiet (lookup i g.tickets) g ≡ true
  -- The next number names no ticket.
  pub fresh : (i : ℕ) → g.next ≤ i → lookup i g.tickets ≡ none

withdraw-withdraw : (t : Ticket) → withdraw (withdraw t) ≡ withdraw t
unfolding withdraw
withdraw-withdraw t = ground arith

abbrev pub withdrawn_if : Bool → Option Ticket → Option Ticket
withdrawn_if true (some t) = some (withdraw t)
withdrawn_if true none = none
withdrawn_if false o = o

pub lookup-change_ticket :
    (change : Ticket → Ticket) (i j : ℕ) (heap : Dict ℕ Ticket)
    → lookup j (change_ticket change i heap) ≡ (
        if i =? j
        then elim (lookup i heap) [ none ↦ none | some t ↦ some (change t) ]
        else lookup j heap)
lookup-change_ticket change i j heap = elim (Option-cases (lookup i heap)) [
  | inl missing ↦ ground arith
  | inr (t, found) ↦ ground (arith, lookup-insert i j (change t) heap)
]

pub lookup-withdraw_all :
    (members : List ℕ) (j : ℕ) (heap : Dict ℕ Ticket)
    → lookup j (withdraw_all members heap) ≡ withdrawn_if (contains members j) (lookup j heap)
unfolding withdraw_all
lookup-withdraw_all [] j heap = refl
lookup-withdraw_all (i ∷ members) j heap = elim (Option-cases (lookup j heap)) [
  | inl missing ↦ ground (
    arith,
    lookup-withdraw_all members j (change_ticket withdraw i heap),
    lookup-change_ticket withdraw i j heap,
  )
  | inr (t, found) ↦ ground (
    arith,
    lookup-withdraw_all members j (change_ticket withdraw i heap),
    lookup-change_ticket withdraw i j heap,
    withdraw-withdraw t,
  )
]

-- A change that keeps the scope and the end of a ticket's life keeps it in its set.
lives_in-withdrawn_if :
    (b : Bool) (name : Text) (o : Option Ticket)
    → lives_in name (withdrawn_if b o) ≡ lives_in name o
unfolding withdraw
lives_in-withdrawn_if false name o = refl
lives_in-withdrawn_if true name none = refl
lives_in-withdrawn_if true name (some t) = ground arith

-- What `withdraw_all` leaves of a disabled scope is quiet.
quiet-withdrawn_if :
    (dataset : Text) (b : Bool) (o : Option Ticket) (g g' : Gate)
    → is_quiet o g ≡ true
    → b ≡ lives_in dataset o
    → ((name : Text)
        → (scope_of name g').enabled
          ≡ (if dataset =? name then false else (scope_of name g).enabled))
    → is_quiet (withdrawn_if b o) g' ≡ true
unfolding withdraw cancel
quiet-withdrawn_if dataset b none g g' before member enabled = ground arith
quiet-withdrawn_if dataset b (some t) g g' before member enabled = ground (arith, enabled t.scope)

get-IsValid : (dataset : Text) (g : Gate) → IsValid g → IsValid (get dataset g)
unfolding get
get-IsValid dataset g v = record {
  registered = λ i name.
      ground (arith, v.registered i name, lookup-insert dataset name (scope_of dataset g) g.scopes);
  quiet = λ i. elim (Option-cases (lookup i g.tickets)) [
    | inl missing ↦ ground arith
    | inr (t, found) ↦
        ground (arith, v.quiet i, lookup-insert dataset t.scope (scope_of dataset g) g.scopes)
  ];
  fresh = v.fresh;
}

abbrev switched : Text → Bool → Gate → Scope
switched dataset enabled g = record {
  enabled = enabled;
  members = (scope_of dataset g).members;
  signals = (scope_of dataset g).signals + 1;
}

apply_enabled-IsValid :
    (dataset : Text) (enabled : Bool) (g : Gate)
    → IsValid g
    → IsValid (apply_enabled dataset enabled g)
unfolding apply_enabled
apply_enabled-IsValid dataset true g v = record {
  registered = λ i name.
      ground
        (arith, v.registered i name, lookup-insert dataset name (switched dataset true g) g.scopes);
  quiet = λ i. elim (Option-cases (lookup i g.tickets)) [
    | inl missing ↦ ground arith
    | inr (t, found) ↦
        ground (arith, v.quiet i, lookup-insert dataset t.scope (switched dataset true g) g.scopes)
  ];
  fresh = v.fresh;
}
apply_enabled-IsValid dataset false g v = record {
  registered = λ i name. ground (
    arith,
    v.registered i name,
    lookup-insert dataset name (switched dataset false g) g.scopes,
    lookup-withdraw_all (scope_of dataset g).members i g.tickets,
    lives_in-withdrawn_if (contains (scope_of dataset g).members i) name (lookup i g.tickets),
  );
  quiet = λ i.
      subst (λ o. is_quiet o (apply_enabled dataset false g) ≡ true)
        (sym (lookup-withdraw_all (scope_of dataset g).members i g.tickets))
        (quiet-withdrawn_if dataset (contains (scope_of dataset g).members i) (lookup i g.tickets) g
          (apply_enabled dataset false g) (v.quiet i) (v.registered i dataset)
          (λ name. ground (arith, lookup-insert dataset name (switched dataset false g) g.scopes)));
  fresh = λ i h.
      ground (arith, v.fresh i h, lookup-withdraw_all (scope_of dataset g).members i g.tickets);
}

checked-IsValid :
    (r : Result NameError (Unit {0})) (called : Gate × Result GateError ℕ) (g : Gate)
    → IsValid called.0
    → IsValid g
    → IsValid (checked r called g).0
checked-IsValid (err e) called g after before = before
checked-IsValid (ok passed) called g after before = after

-- A call under a test, each branch with its test's outcome.
if-IsValid :
    (b : Bool) (p q : Gate × Result GateError ℕ)
    → (b ≡ true → IsValid p.0)
    → (b ≡ false → IsValid q.0)
    → IsValid (if b then p else q).0
if-IsValid true p q on off = on refl
if-IsValid false p q on off = off refl

set_enabled-IsValid :
    (dataset : Text) (enabled : Bool) (g : Gate)
    → IsValid g
    → IsValid (set_enabled dataset enabled g).0
unfolding set_enabled
set_enabled-IsValid dataset enabled g v =
    checked-IsValid (validate_dataset dataset) _ g (apply_enabled-IsValid dataset enabled g v) v

abbrev joined : Text → Gate → Scope
joined dataset g = record {
  enabled = (scope_of dataset g).enabled;
  members = g.next ∷ (scope_of dataset g).members;
  signals = (scope_of dataset g).signals + 1;
}

abbrev pub queued_ticket : Text → WorkKind → Ticket
queued_ticket dataset kind = record {
  scope = dataset;
  kind = kind;
  ended = none;
  running = false;
  finished = false;
}

register-IsValid :
    (dataset : Text) (kind : WorkKind) (g : Gate)
    → (scope_of dataset g).enabled ≡ true
    → IsValid g
    → IsValid (register dataset kind g)
unfolding register
register-IsValid dataset kind g enabled v = record {
  registered = λ i name. ground (
    arith,
    v.registered i name,
    v.fresh g.next,
    lookup-insert dataset name (joined dataset g) g.scopes,
    lookup-insert g.next i (queued_ticket dataset kind) g.tickets,
  );
  quiet = λ i. elim (Option-cases (lookup i g.tickets)) [
    | inl missing ↦ ground (
      arith,
      lookup-insert g.next i (queued_ticket dataset kind) g.tickets,
      lookup-insert dataset dataset (joined dataset g) g.scopes,
    )
    | inr (t, found) ↦ ground (
      arith,
      v.quiet i,
      v.fresh i,
      lookup-insert g.next i (queued_ticket dataset kind) g.tickets,
      lookup-insert dataset t.scope (joined dataset g) g.scopes,
      lookup-insert dataset dataset (joined dataset g) g.scopes,
    )
  ];
  fresh = λ i h.
      ground (arith, v.fresh i, lookup-insert g.next i (queued_ticket dataset kind) g.tickets);
}

queue_locked-IsValid :
    (context : Option Ended) (dataset : Text) (kind : WorkKind) (g : Gate)
    → IsValid g
    → IsValid (queue_locked context dataset kind g).0
unfolding queue_locked
queue_locked-IsValid (some why) dataset kind g v =
    if-IsValid (not (scope_of dataset g).enabled) _ _ (λ off. get-IsValid dataset g v)
      (λ on. get-IsValid dataset g v)
queue_locked-IsValid none dataset kind g v =
    if-IsValid (not (scope_of dataset g).enabled) _ _ (λ off. get-IsValid dataset g v)
      (λ on. register-IsValid dataset kind g (ground arith) v)

queue-IsValid :
    (context : Option Ended) (dataset : Text) (kind : WorkKind) (g : Gate)
    → IsValid g
    → IsValid (queue context dataset kind g).0
unfolding queue
queue-IsValid context dataset kind g v =
    checked-IsValid (validate_dataset dataset) _ g
      (if-IsValid (not (is_management kind) && not (is_transfer kind)) _ _ (λ invalid. v)
        (λ known. queue_locked-IsValid context dataset kind g v))
      v

-- One ticket and its scope are written: the new ones must agree with each other, and with the
-- tickets and scopes that stay.
module _ (i : ℕ) (t t' : Ticket) (s' : Scope) (g : Gate) (v : IsValid g)
    (found : lookup i g.tickets ≡ some t) (stays : t'.scope ≡ t.scope)
    (kept : s'.enabled ≡ (scope_of t.scope g).enabled)
    (members : (j : ℕ)
      → contains s'.members j
        ≡ (if i =? j then not t'.finished else contains (scope_of t.scope g).members j))
    (calm : is_quiet_ticket s'.enabled t' ≡ true) where
  abbrev written : Gate
  written = record {
    scopes = insert t.scope s' g.scopes;
    tickets = insert i t' g.tickets;
    next = g.next;
  }

  written-IsValid : IsValid written
  written-IsValid = record {
    registered = λ j name. ground (
      arith,
      v.registered j name,
      v.registered i name,
      members j,
      lookup-insert t.scope name s' g.scopes,
      lookup-insert i j t' g.tickets,
    );
    quiet = λ j. elim (Option-cases (lookup j g.tickets)) [
      | inl missing ↦
          ground (arith, lookup-insert i j t' g.tickets, lookup-insert t.scope t.scope s' g.scopes)
      | inr (u, there) ↦ ground (
        arith,
        v.quiet j,
        lookup-insert i j t' g.tickets,
        lookup-insert t.scope u.scope s' g.scopes,
        lookup-insert t.scope t.scope s' g.scopes,
      )
    ];
    fresh = λ j h. ground (arith, v.fresh j h, lookup-insert i j t' g.tickets);
  }

start_ticket-IsValid :
    (i : ℕ) (t : Ticket) (g : Gate)
    → IsValid g
    → lookup i g.tickets ≡ some t
    → IsValid (start_ticket i t g).0
unfolding start_ticket
start_ticket-IsValid i t g v found =
    if-IsValid (t.finished || t.running) _ _ (λ over. v) (λ queued. by_context t.ended refl queued)
  where
    by_context :
        (e : Option Ended)
        → t.ended ≡ e
        → (t.finished || t.running) ≡ false
        → IsValid (
            let p : Gate × Result GateError ℕ = elim e [
              | some why ↦ (g, err (GateError.ended why))
              | none ↦
                  if not (scope_of t.scope g).enabled
                  then (g, err GateError.disabled)
                  else (run_ticket i t g, ok 0)
            ] in
            p.0)
    by_context (some why) over queued = v
    by_context none live queued =
        if-IsValid (not (scope_of t.scope g).enabled) _ _ (λ off. v)
          (λ on.
            written-IsValid i t (record t { running = true })
              (record {
                enabled = (scope_of t.scope g).enabled;
                members = (scope_of t.scope g).members;
                signals = (scope_of t.scope g).signals + 1;
              })
              g v found refl refl (λ j. ground (arith, v.registered i t.scope)) (ground arith))

start-IsValid : (i : ℕ) (g : Gate) → IsValid g → IsValid (start i g).0
unfolding start
start-IsValid i g v = elim (Option-cases (lookup i g.tickets)) [
  | inl missing ↦ rw (missing, start) v
  | inr (t, found) ↦ rw (found, start) (start_ticket-IsValid i t g v found)
]

finish_ticket-IsValid :
    (i : ℕ) (t : Ticket) (g : Gate)
    → IsValid g
    → lookup i g.tickets ≡ some t
    → IsValid (finish_ticket i t g)
unfolding finish_ticket
finish_ticket-IsValid i t g v found = elim (Bool-cases t.finished) [
  | inl over ↦ subst IsValid (sym (ground arith)) v
  | inr live ↦ subst IsValid (sym (ground arith)) (
      written-IsValid i t (cancel (record t { finished = true }))
        (record {
          enabled = (scope_of t.scope g).enabled;
          members = remove i (scope_of t.scope g).members;
          signals = (scope_of t.scope g).signals + 1;
        })
        g v found refl refl (λ j. ground (arith, contains-remove (scope_of t.scope g).members i j))
        (ground arith))
]

finish-IsValid : (i : ℕ) (g : Gate) → IsValid g → IsValid (finish i g)
unfolding finish
finish-IsValid i g v = elim (Option-cases (lookup i g.tickets)) [
  | inl missing ↦ rw (missing, finish) v
  | inr (t, found) ↦ rw (found, finish) (finish_ticket-IsValid i t g v found)
]

expire-IsValid : (i : ℕ) (why : Ended) (g : Gate) → IsValid g → IsValid (expire i why g)
expire-IsValid i why g v =
    let end : Ticket → Ticket =
      λ t. record t { ended = elim t.ended [ none ↦ some why | some first ↦ some first ] } in
    record {
      registered = λ j name. elim (Option-cases (lookup j g.tickets)) [
        | inl missing ↦ ground (arith, v.registered j name, lookup-change_ticket end i j g.tickets)
        | inr (t, found) ↦
            ground (arith, v.registered j name, lookup-change_ticket end i j g.tickets)
      ];
      quiet = λ j. elim (Option-cases (lookup j g.tickets)) [
        | inl missing ↦ ground (arith, v.quiet j, lookup-change_ticket end i j g.tickets)
        | inr (t, found) ↦ ground (arith, v.quiet j, lookup-change_ticket end i j g.tickets)
      ];
      fresh = λ j h. ground (arith, v.fresh j h, lookup-change_ticket end i j g.tickets);
    }

pub Step-IsValid : {g h : Gate} → Step g h → IsValid g → IsValid h
Step-IsValid (sets g dataset enabled) v = set_enabled-IsValid dataset enabled g v
Step-IsValid (queues g context dataset kind) v = queue-IsValid context dataset kind g v
Step-IsValid (starts g i) v = start-IsValid i g v
Step-IsValid (finishes g i) v = finish-IsValid i g v
Step-IsValid (expires g i why) v = expire-IsValid i why g v
Step-IsValid (reads g dataset) v = get-IsValid dataset g v

pub empty_gate-IsValid : IsValid empty_gate
empty_gate-IsValid = record { registered = λ i name. refl; quiet = λ i. refl; fresh = λ i h. refl }

-- Whatever calls are made on a new gate, in whatever order and whether they succeed or not, and
-- whenever contexts end: a scope's set holds exactly the live tickets of the scope; a live ticket
-- of a disabled scope has a context that has ended, unless it is running and is not a transfer;
-- and the number of the next ticket is new.
pub Reach-IsValid : {g : Gate} → Reach empty_gate g → IsValid g
Reach-IsValid here = empty_gate-IsValid
Reach-IsValid (next_step reached step) = Step-IsValid step (Reach-IsValid reached)
