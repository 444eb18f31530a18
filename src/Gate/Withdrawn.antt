-- ===== src/Gate/Withdrawn.antt =====
-- internal/lifecycle/gate.go: what becomes of the tickets that a deactivation withdraws.
use boomerangz.Base.{
  is_none, ℕ, ◌≡◌, refl, sym, ◌∙◌, subst, ◌⊎◌, inl, inr, Bool, true, false, not, ◌&&◌, Option, none,
  some, arith, if◌then◌else◌, Option-cases, Text, text_key, ℕ_key, contains,
}
use boomerangz.Base.Dict.{lookup, lookup-insert}
use boomerangz.Base.Result.{Result, ok, err}
use boomerangz.Names.{NameError, validate_dataset}
use boomerangz.Gate.{
  WorkKind, Ended, Ticket, Gate, scope_of, get, GateError, cancel, is_transfer, is_management,
  withdraw, apply_enabled, set_enabled, register, queue_locked, queue, run_ticket, start_ticket,
  start, finish_ticket, finish, expire, Step, sets, queues, starts, finishes, expires, reads, Reach,
  here, next_step, checked,
}
use boomerangz.Gate.Valid.{
  IsValid, lives_in, lookup-withdraw_all, lookup-change_ticket, withdrawn_if, Step-IsValid,
  queued_ticket,
}

abbrev pub has_ended : Option Ticket → Bool
has_ended none = false
has_ended (some t) = not (is_none t.ended)

abbrev pub runs : Option Ticket → Bool
runs none = false
runs (some t) = t.running

-- What later calls leave of a ticket whose context has ended: a queued one stays queued.
abbrev Lasts : Option Ticket → Option Ticket → Type 0
Lasts o o' = (has_ended o' ≡ true) × (runs o ≡ false → runs o' ≡ false)

Lasts-if :
    (b : Bool) (p q : Gate × Result GateError ℕ) (i : ℕ) (o : Option Ticket)
    → (b ≡ true → Lasts o (lookup i p.0.tickets))
    → (b ≡ false → Lasts o (lookup i q.0.tickets))
    → Lasts o (lookup i (if b then p else q).0.tickets)
Lasts-if true p q i o on off = on refl
Lasts-if false p q i o on off = off refl

Lasts-checked :
    (r : Result NameError (Unit {0})) (called : Gate × Result GateError ℕ) (g : Gate) (i : ℕ)
    → has_ended (lookup i g.tickets) ≡ true
    → Lasts (lookup i g.tickets) (lookup i called.0.tickets)
    → Lasts (lookup i g.tickets) (lookup i (checked r called g).0.tickets)
Lasts-checked (err e) called g i ended after = (ended, λ queued. queued)
Lasts-checked (ok passed) called g i ended after = after

Lasts-withdrawn_if :
    (b : Bool) (o : Option Ticket) → has_ended o ≡ true → Lasts o (withdrawn_if b o)
unfolding withdraw cancel
Lasts-withdrawn_if false o ended = (ended, λ queued. queued)
Lasts-withdrawn_if true none ended = (ended, λ queued. queued)
Lasts-withdrawn_if true (some t) ended = (ground arith, λ queued. ground arith)

module _ (i : ℕ) (g : Gate) (v : IsValid g) (ended : has_ended (lookup i g.tickets) ≡ true) where
  abbrev before : Option Ticket
  before = lookup i g.tickets

  Lasts-same : Lasts before before
  Lasts-same = (ended, λ queued. queued)

  Lasts-enabled :
      (dataset : Text) (enabled : Bool)
      → Lasts before (lookup i (apply_enabled dataset enabled g).tickets)
  unfolding apply_enabled
  Lasts-enabled dataset true = Lasts-same
  Lasts-enabled dataset false =
      subst (Lasts before) (sym (lookup-withdraw_all (scope_of dataset g).members i g.tickets))
        (Lasts-withdrawn_if (contains (scope_of dataset g).members i) before ended)

  Lasts-register :
      (dataset : Text) (kind : WorkKind) → Lasts before (lookup i (register dataset kind g).tickets)
  unfolding register
  Lasts-register dataset kind =
      let same : lookup i (register dataset kind g).tickets ≡ before =
        ground (arith, v.fresh i, lookup-insert g.next i (queued_ticket dataset kind) g.tickets) in
      subst (Lasts before) (sym same) Lasts-same

  Lasts-queue :
      (context : Option Ended) (dataset : Text) (kind : WorkKind)
      → Lasts before (lookup i (queue context dataset kind g).0.tickets)
  unfolding queue queue_locked get
  Lasts-queue context dataset kind = Lasts-checked (validate_dataset dataset) _ g i ended (
      Lasts-if (not (is_management kind) && not (is_transfer kind)) _ _ i before
        (λ invalid. Lasts-same)
        (λ known.
          Lasts-if (not (scope_of dataset g).enabled) _ _ i before (λ off. Lasts-same)
            (λ on. by_context context)))
    where
      by_context :
          (c : Option Ended)
          → Lasts before (
              lookup i
                (let p : Gate × Result GateError ℕ = elim c [
                  | some why ↦ (get dataset g, err (GateError.ended why))
                  | none ↦ (register dataset kind g, ok g.next)
                ] in
                  p.0).tickets)
      by_context none = Lasts-register dataset kind
      by_context (some why) = Lasts-same

  Lasts-start : (j : ℕ) → Lasts before (lookup i (start j g).0.tickets)
  unfolding start start_ticket run_ticket
  Lasts-start j = elim (Option-cases (lookup j g.tickets)) [
    | inl missing ↦ rw (missing, start) Lasts-same
    | inr (t, found) ↦
        rw (found, start)
          (
            ground (arith, lookup-insert j i (record t { running = true }) g.tickets),
            λ queued. ground (arith, lookup-insert j i (record t { running = true }) g.tickets),
          )
  ]

  Lasts-finish : (j : ℕ) → Lasts before (lookup i (finish j g).tickets)
  unfolding finish finish_ticket cancel
  Lasts-finish j = elim (Option-cases (lookup j g.tickets)) [
    | inl missing ↦ rw (missing, finish) Lasts-same
    | inr (t, found) ↦
        rw (found, finish)
          (
            ground (arith, lookup-insert j i (cancel (record t { finished = true })) g.tickets),
            λ queued.
                ground (arith, lookup-insert j i (cancel (record t { finished = true })) g.tickets),
          )
  ]

  Lasts-expire : (j : ℕ) (why : Ended) → Lasts before (lookup i (expire j why g).tickets)
  Lasts-expire j why =
      let end : Ticket → Ticket =
        λ t. record t { ended = elim t.ended [ none ↦ some why | some first ↦ some first ] } in
      elim (Option-cases (lookup i g.tickets)) [
        | inl missing ↦ (
          ground (arith, lookup-change_ticket end j i g.tickets),
          λ queued. ground (arith, lookup-change_ticket end j i g.tickets),
        )
        | inr (t, found) ↦ (
          ground (arith, lookup-change_ticket end j i g.tickets),
          λ queued. ground (arith, lookup-change_ticket end j i g.tickets),
        )
      ]

Lasts-step :
    {g h : Gate} (i : ℕ)
    → Step g h
    → IsValid g
    → has_ended (lookup i g.tickets) ≡ true
    → Lasts (lookup i g.tickets) (lookup i h.tickets)
unfolding set_enabled get
Lasts-step i (sets g dataset enabled) v ended =
    Lasts-checked (validate_dataset dataset) _ g i ended (Lasts-enabled i g v ended dataset enabled)
Lasts-step i (queues g context dataset kind) v ended = Lasts-queue i g v ended context dataset kind
Lasts-step i (starts g j) v ended = Lasts-start i g v ended j
Lasts-step i (finishes g j) v ended = Lasts-finish i g v ended j
Lasts-step i (expires g j why) v ended = Lasts-expire i g v ended j why
Lasts-step i (reads g dataset) v ended = (ended, λ queued. queued)

Reach-keeps : {g h : Gate} → Reach g h → IsValid g → IsValid h
Reach-keeps here v = v
Reach-keeps (next_step reached step) v = Step-IsValid step (Reach-keeps reached v)

Lasts-reach :
    {g h : Gate} (i : ℕ)
    → Reach g h
    → IsValid g
    → has_ended (lookup i g.tickets) ≡ true
    → Lasts (lookup i g.tickets) (lookup i h.tickets)
Lasts-reach i here v ended = (ended, λ queued. queued)
Lasts-reach i (next_step reached step) v ended =
    let before = Lasts-reach i reached v ended in
    let after = Lasts-step i step (Reach-keeps reached v) before.0 in
    (after.0, λ queued. after.1 (before.1 queued))

withdrawn :
    (dataset : Text) (i : ℕ) (t : Ticket) (g : Gate)
    → IsValid g
    → validate_dataset dataset ≡ ok tt
    → lookup i g.tickets ≡ some t
    → lives_in dataset (some t) ≡ true
    → t.running ≡ false ⊎ (is_transfer t.kind ≡ true)
    → (has_ended (lookup i (set_enabled dataset false g).0.tickets) ≡ true)
      × (runs (lookup i (set_enabled dataset false g).0.tickets) ≡ t.running)
unfolding set_enabled apply_enabled withdraw cancel
withdrawn dataset i t g v valid found live (inl queued) = (
  ground
      (arith, v.registered i dataset, lookup-withdraw_all (scope_of dataset g).members i g.tickets),
  ground
      (arith, v.registered i dataset, lookup-withdraw_all (scope_of dataset g).members i g.tickets),
)
withdrawn dataset i t g v valid found live (inr stream) = (
  ground
      (arith, v.registered i dataset, lookup-withdraw_all (scope_of dataset g).members i g.tickets),
  ground
      (arith, v.registered i dataset, lookup-withdraw_all (scope_of dataset g).members i g.tickets),
)

-- A live ticket of a valid gate that is queued, or is a transfer, when its scope is disabled has
-- from then on a context that has ended; and if it was queued it never runs, whatever calls are
-- made later, an activation of the scope included.
pub set_enabled-withdraws :
    (dataset : Text) (i : ℕ) (t : Ticket) {g h : Gate}
    → IsValid g
    → validate_dataset dataset ≡ ok tt
    → lookup i g.tickets ≡ some t
    → lives_in dataset (some t) ≡ true
    → t.running ≡ false ⊎ (is_transfer t.kind ≡ true)
    → Reach (set_enabled dataset false g).0 h
    → (has_ended (lookup i h.tickets) ≡ true)
      × (t.running ≡ false → runs (lookup i h.tickets) ≡ false)
set_enabled-withdraws dataset i t {g} v valid found live waits later =
    let now = withdrawn dataset i t g v valid found live waits in
    let after = Lasts-reach i later (Step-IsValid (sets g dataset false) v) now.0 in
    (after.0, λ queued. after.1 (now.1 ∙ queued))
