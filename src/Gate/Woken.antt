-- ===== src/Gate/Woken.antt =====
-- internal/lifecycle/gate.go: a wait that sleeps on a scope's channel misses no change of the scope.
use boomerangz.Base.{
  ℕ, ◌+◌, ◌<◌, ◌≡◌, refl, sym, ap, ◌∙◌, subst, inl, inr, Bool, true, false, not, ◌&&◌, ◌||◌, Option,
  none, some, List, [], ◌∷◌, arith, if◌then◌else◌, Bool-cases, Option-cases, Text, text_key, ℕ_key,
  ◌=?◌, any, contains, remove,
}
use boomerangz.Base.Dict.{lookup, insert, get_or, lookup-insert}
use boomerangz.Base.Result.{Result, ok, err}
use boomerangz.Names.{NameError, validate_dataset}
use boomerangz.Gate.{
  WorkKind, Ended, Ticket, Scope, Gate, GateError, asleep, get, cancel, is_transfer, is_management,
  is_running, look_scope, scope_of, new_scope, Step, sets, queues, starts, finishes, expires, reads,
  Reach, here, next_step, checked, set_enabled, apply_enabled, queue, queue_locked, register, start,
  start_ticket, run_ticket, finish, finish_ticket, withdraw,
}
use boomerangz.Gate.Valid.{
  IsValid, lookup-withdraw_all, lookup-change_ticket, withdrawn_if, Step-IsValid, queued_ticket,
}

-- The scope was signalled, or it and what runs in it are the same.
pub data Since (dataset : Text) (g h : Gate) : Type 0 where
  signalled : (scope_of dataset g).signals < (scope_of dataset h).signals → Since dataset g h
  same :
      scope_of dataset h ≡ scope_of dataset g
      → ((i : ℕ)
          → contains (scope_of dataset g).members i ≡ true
          → is_running h.tickets i ≡ is_running g.tickets i)
      → Since dataset g h

Since-refl : (dataset : Text) (g : Gate) → Since dataset g g
Since-refl dataset g = same refl (λ i member. refl)

Since-trans :
    (dataset : Text) (g h k : Gate) → Since dataset g h → Since dataset h k → Since dataset g k
Since-trans dataset g h k (signalled first) (signalled second) = signalled (omega arith)
Since-trans dataset g h k (signalled first) (same scope running) =
    signalled (ground (arith, ap (λ (s : Scope). s.signals) scope))
Since-trans dataset g h k (same scope running) (signalled second) =
    signalled (ground (arith, ap (λ (s : Scope). s.signals) scope))
Since-trans dataset g h k (same scope running) (same scope' running') =
    same (scope' ∙ scope) (λ i member.
      running' i (subst (λ (s : Scope). contains s.members i ≡ true) (sym scope) member)
      ∙ running i member)

Since-if :
    (dataset : Text) (b : Bool) (p q : Gate × Result GateError ℕ) (g : Gate)
    → (b ≡ true → Since dataset g p.0)
    → (b ≡ false → Since dataset g q.0)
    → Since dataset g (if b then p else q).0
Since-if dataset true p q g on off = on refl
Since-if dataset false p q g on off = off refl

Since-checked :
    (dataset : Text) (r : Result NameError (Unit {0})) (called : Gate × Result GateError ℕ)
    (g : Gate)
    → Since dataset g called.0
    → Since dataset g (checked r called g).0
Since-checked dataset (err e) called g after = Since-refl dataset g
Since-checked dataset (ok passed) called g after = after

-- A scope that is written and signalled: another scope stays as it was.
Since-written :
    (dataset name : Text) (s : Scope) (g h : Gate)
    → h.scopes ≡ insert name s g.scopes
    → s.signals ≡ (scope_of name g).signals + 1
    → ((name =? dataset) ≡ false
        → (i : ℕ) → contains (scope_of dataset g).members i ≡ true
        → is_running h.tickets i ≡ is_running g.tickets i)
    → Since dataset g h
Since-written dataset name s g h scopes signals running = elim (Bool-cases (name =? dataset)) [
  | inl same_scope ↦ signalled (
      ground
        (arith, lookup-insert name dataset s g.scopes, ap (λ m. get_or dataset m new_scope) scopes))
  | inr there ↦
      same
        (ap (λ m. get_or dataset m new_scope) scopes
          ∙ ground (arith, lookup-insert name dataset s g.scopes))
        (running there)
]

is_running-withdrawn :
    (b : Bool) (o : Option Ticket)
    → (let r : Bool = elim (withdrawn_if b o) [ none ↦ false | some t ↦ t.running ] in r)
      ≡ (let r : Bool = elim o [ none ↦ false | some t ↦ t.running ] in r)
unfolding withdraw cancel
is_running-withdrawn false o = refl
is_running-withdrawn true none = refl
is_running-withdrawn true (some t) = ground arith

Since-get : (dataset name : Text) (g : Gate) → Since dataset g (get name g)
unfolding get
Since-get dataset name g =
    same (ground (arith, lookup-insert name dataset (scope_of name g) g.scopes)) (λ i member. refl)

Since-enabled :
    (dataset name : Text) (enabled : Bool) (g : Gate)
    → Since dataset g (apply_enabled name enabled g)
unfolding apply_enabled
Since-enabled dataset name true g =
    Since-written dataset name _ g (apply_enabled name true g) refl refl (λ apart i member. refl)
Since-enabled dataset name false g =
    Since-written dataset name _ g (apply_enabled name false g) refl refl (λ apart i member.
      ap (λ o. let r : Bool = elim o [ none ↦ false | some t ↦ t.running ] in r)
        (lookup-withdraw_all (scope_of name g).members i g.tickets)
      ∙ is_running-withdrawn (contains (scope_of name g).members i) (lookup i g.tickets))

Since-register :
    (dataset name : Text) (kind : WorkKind) (g : Gate)
    → IsValid g
    → Since dataset g (register name kind g)
unfolding register
Since-register dataset name kind g v =
    Since-written dataset name _ g (register name kind g) refl refl (λ apart i member. ground (
      arith,
      v.fresh g.next,
      v.registered i dataset,
      lookup-insert g.next i (queued_ticket name kind) g.tickets,
    ))

Since-queue :
    (dataset : Text) (context : Option Ended) (name : Text) (kind : WorkKind) (g : Gate)
    → IsValid g
    → Since dataset g (queue context name kind g).0
unfolding queue queue_locked
Since-queue dataset context name kind g v = Since-checked dataset (validate_dataset name) _ g (
    Since-if dataset (not (is_management kind) && not (is_transfer kind)) _ _ g
      (λ invalid. Since-refl dataset g)
      (λ known.
        Since-if dataset (not (scope_of name g).enabled) _ _ g (λ off. Since-get dataset name g)
          (λ on. by_context context)))
  where
    by_context :
        (c : Option Ended)
        → Since dataset g (
            let p : Gate × Result GateError ℕ = elim c [
              | some why ↦ (get name g, err (GateError.ended why))
              | none ↦ (register name kind g, ok g.next)
            ] in
            p.0)
    by_context none = Since-register dataset name kind g v
    by_context (some why) = Since-get dataset name g

-- Another scope's ticket is written.
Since-ticket :
    (dataset : Text) (i : ℕ) (t t' : Ticket) (s : Scope) (g h : Gate)
    → IsValid g
    → lookup i g.tickets ≡ some t
    → h.scopes ≡ insert t.scope s g.scopes
    → h.tickets ≡ insert i t' g.tickets
    → s.signals ≡ (scope_of t.scope g).signals + 1
    → Since dataset g h
Since-ticket dataset i t t' s g h v found scopes tickets signals =
    Since-written dataset t.scope s g h scopes signals (λ apart j member.
      ap (λ heap. is_running heap j) tickets
      ∙ ground (arith, v.registered j dataset, lookup-insert i j t' g.tickets))

Since-start_ticket :
    (dataset : Text) (i : ℕ) (t : Ticket) (g : Gate)
    → IsValid g
    → lookup i g.tickets ≡ some t
    → Since dataset g (start_ticket i t g).0
unfolding start_ticket run_ticket
Since-start_ticket dataset i t g v found =
    Since-if dataset (t.finished || t.running) _ _ g (λ over. Since-refl dataset g)
      (λ queued. by_context t.ended)
  where
    by_context :
        (e : Option Ended)
        → Since dataset g (
            let p : Gate × Result GateError ℕ = elim e [
              | some why ↦ (g, err (GateError.ended why))
              | none ↦
                  if not (scope_of t.scope g).enabled
                  then (g, err GateError.disabled)
                  else (run_ticket i t g, ok 0)
            ] in
            p.0)
    by_context (some why) = Since-refl dataset g
    by_context none =
        Since-if dataset (not (scope_of t.scope g).enabled) _ _ g (λ off. Since-refl dataset g)
          (λ on.
            Since-ticket dataset i t (record t { running = true }) _ g (run_ticket i t g) v found
              refl refl refl)

Since-finish_ticket :
    (dataset : Text) (i : ℕ) (t : Ticket) (g : Gate)
    → IsValid g
    → lookup i g.tickets ≡ some t
    → Since dataset g (finish_ticket i t g)
unfolding finish_ticket
Since-finish_ticket dataset i t g v found = elim (Bool-cases t.finished) [
  | inl over ↦ subst (Since dataset g) (sym (ground arith)) (Since-refl dataset g)
  | inr live ↦
      Since-ticket dataset i t (cancel (record t { finished = true }))
        (record {
          enabled = (scope_of t.scope g).enabled;
          members = remove i (scope_of t.scope g).members;
          signals = (scope_of t.scope g).signals + 1;
        })
        g (finish_ticket i t g) v found (ground arith) (ground arith) refl
]

Since-step : {g h : Gate} (dataset : Text) → Step g h → IsValid g → Since dataset g h
unfolding set_enabled start finish
Since-step dataset (sets g name enabled) v =
    Since-checked dataset (validate_dataset name) _ g (Since-enabled dataset name enabled g)
Since-step dataset (queues g context name kind) v = Since-queue dataset context name kind g v
Since-step dataset (starts g i) v = elim (Option-cases (lookup i g.tickets)) [
  | inl missing ↦ rw (missing, start) (Since-refl dataset g)
  | inr (t, found) ↦ rw (found, start) (Since-start_ticket dataset i t g v found)
]
Since-step dataset (finishes g i) v = elim (Option-cases (lookup i g.tickets)) [
  | inl missing ↦ rw (missing, finish) (Since-refl dataset g)
  | inr (t, found) ↦ rw (found, finish) (Since-finish_ticket dataset i t g v found)
]
Since-step dataset (expires g i why) v =
    let end : Ticket → Ticket =
      λ t. record t { ended = elim t.ended [ none ↦ some why | some first ↦ some first ] } in
    same refl (λ j member. elim (Option-cases (lookup j g.tickets)) [
      | inl missing ↦ ground (arith, lookup-change_ticket end i j g.tickets)
      | inr (t, found) ↦ ground (arith, lookup-change_ticket end i j g.tickets)
    ])
Since-step dataset (reads g name) v = Since-get dataset name g

Since-reach :
    {g h : Gate} (dataset : Text) → Reach g h → IsValid g → (Since dataset g h) × IsValid h
Since-reach {g} dataset here v = (Since-refl dataset g, v)
Since-reach dataset (next_step reached step) v =
    let before = Since-reach dataset reached v in
    (
      Since-trans dataset _ _ _ before.0 (Since-step dataset step before.1),
      Step-IsValid step before.1,
    )

any-agree :
    (p q : ℕ → Bool) (xs : List ℕ)
    → ((i : ℕ) → contains xs i ≡ true → p i ≡ q i)
    → any p xs ≡ any q xs
any-agree p q [] agree = refl
any-agree p q (x ∷ xs) agree =
    ground (arith, agree x (ground arith), any-agree p q xs (λ i there. agree i (ground arith)))

-- A wait on one scope of a valid gate that went to sleep is not woken too rarely: while the scope's
-- channel is still the one that it sleeps on, whatever calls were made, another look at the scope
-- would make it sleep again.
pub look_scope-asleep :
    (dataset : Text) {g h : Gate} (channel : ℕ)
    → IsValid g
    → look_scope dataset g ≡ asleep ((dataset, channel) ∷ [])
    → Reach g h
    → (scope_of dataset h).signals ≡ channel
    → look_scope dataset h ≡ asleep ((dataset, channel) ∷ [])
unfolding look_scope
look_scope-asleep dataset {g} {h} channel v sleeps later unsignalled =
    elim (Since-reach dataset later v).0 [
      | signalled more ↦ absurd (ground arith)
      | same scope running ↦ ground (
        arith,
        scope,
        any-agree (is_running h.tickets) (is_running g.tickets) (scope_of dataset g).members
            running,
        ap (λ (s : Scope). any (is_running h.tickets) s.members) scope,
        ap (λ (s : Scope). s.enabled) scope,
        ap (λ (s : Scope). s.signals) scope,
      )
    ]
