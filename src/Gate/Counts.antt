-- ===== src/Gate/Counts.antt =====
-- internal/lifecycle/gate.go: what `Status` counts, and what it says of a wait.
use boomerangz.Base.{
  is_none, ℕ, ◌+◌, ◌≤◌, ◌<◌, ◌≡◌, refl, sym, ap, ◌∙◌, ◌↔◌, inl, inr, Bool, true, false, not, ◌&&◌,
  none, some, List, [], ◌∷◌, arith, Option-cases, Text, text_key, ℕ_key, any, All, contains,
}
use boomerangz.Base.Dict.{Dict, lookup}
use boomerangz.Gate.{
  Ticket, Gate, GateStatus, is_running, scope_of, status, count_ticket, count_tickets, look_scope,
  idle,
}
use boomerangz.Gate.Valid.{IsValid, lives_in}

-- What the count of a scope's tickets adds to a status.
pub record Adds (before after : GateStatus) (busy : Bool) : Type 0 where
  pub queued : after.queued ≡ before.queued
  pub more : before.management + before.transfers ≤ after.management + after.transfers
  pub busy_more :
      busy ≡ true → before.management + before.transfers < after.management + after.transfers
  pub idle_same :
      busy ≡ false → after.management + after.transfers ≡ before.management + before.transfers

abbrev waits : Dict ℕ Ticket → ℕ → Bool
waits heap i = elim (lookup i heap) [ none ↦ false | some t ↦ not t.running && is_none t.ended ]

count_tickets_lem :
    (members : List ℕ) (heap : Dict ℕ Ticket) (before : GateStatus)
    → any (waits heap) members ≡ false
    → Adds before (count_tickets members heap before) (any (is_running heap) members)
unfolding count_tickets count_ticket
count_tickets_lem [] heap before none_waits = record {
  queued = refl;
  more = omega arith;
  busy_more = λ busy. ground arith;
  idle_same = λ idle. refl;
}
count_tickets_lem (i ∷ members) heap before none_waits = elim (Option-cases (lookup i heap)) [
  | inl missing ↦
      let rest = count_tickets_lem members heap before (ground arith) in
      record {
        queued = ground (arith, rest.queued);
        more = ground (arith, rest.more);
        busy_more = λ busy. ground (arith, rest.busy_more);
        idle_same = λ idle. ground (arith, rest.idle_same);
      }
  | inr (t, found) ↦
      let rest = count_tickets_lem members heap (count_ticket t before) (ground arith) in
      record {
        queued = ground (arith, rest.queued);
        more = ground (arith, rest.more);
        busy_more = λ busy. ground (arith, rest.busy_more, rest.more);
        idle_same = λ idle. ground (arith, rest.idle_same);
      }
]

-- A live ticket of a disabled scope does not wait to run.
none-waits :
    (dataset : Text) (g : Gate) (members : List ℕ)
    → IsValid g
    → (scope_of dataset g).enabled ≡ false
    → All (λ i. lives_in dataset (lookup i g.tickets) ≡ true) members
    → any (waits g.tickets) members ≡ false
none-waits dataset g [] v off live = refl
none-waits dataset g (i ∷ members) v off live = elim (Option-cases (lookup i g.tickets)) [
  | inl missing ↦ ground (arith, none-waits dataset g members v off live.1)
  | inr (t, found) ↦
      let scope : t.scope ≡ dataset = ground (arith, live.0) in
      ground (
        arith,
        none-waits dataset g members v off live.1,
        v.quiet i,
        live.0,
        ap (λ name. (scope_of name g).enabled) scope,
      )
]

All-contained :
    {P : ℕ → Type 0} (members : List ℕ)
    → ((i : ℕ) → contains members i ≡ true → P i)
    → All P members
All-contained [] each = tt
All-contained (i ∷ members) each =
    (each i (ground arith), All-contained members (λ j there. each j (ground arith)))

-- In a valid gate the status of a disabled scope counts no queued work, and what it counts as
-- management and transfers is nothing exactly when a wait on this scope would not sleep.
pub status_disabled :
    (dataset : Text) (g : Gate)
    → IsValid g
    → (scope_of dataset g).enabled ≡ false
    → ((status dataset g).queued ≡ 0)
      × (look_scope dataset g ≡ idle
          ↔ ((status dataset g).management + (status dataset g).transfers ≡ 0))
unfolding status look_scope
status_disabled dataset g v off =
    let members = (scope_of dataset g).members in
    let start : GateStatus = record {
      enabled = (scope_of dataset g).enabled;
      queued = 0;
      management = 0;
      transfers = 0;
    } in
    let counted = count_tickets_lem members g.tickets start (
      none-waits dataset g members v off
        (All-contained members (λ i there. sym (v.registered i dataset) ∙ there))) in
    (
      ground (arith, counted.queued),
      (λ quiet. ground (arith, counted.idle_same), λ zero_left. ground (arith, counted.busy_more)),
    )
