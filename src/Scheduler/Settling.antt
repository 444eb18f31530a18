-- ===== src/Scheduler/Settling.antt =====
-- Complete and Retry settle a root, and what an Update carries over.
use boomerangz.Base.{
  is_none, ℕ, ◌+◌, ◌≡◌, refl, sym, ap, ◌∙◌, inl, inr, Bool, true, false, not, ◌&&◌, ◌||◌, Option,
  none, some, List, [], ◌∷◌, arith, if◌then◌else◌, Bool-cases, Text, text_key, ℕ_key, ◌=?◌, is_nil,
}
use boomerangz.Base.Dict.{Dict, lookup, insert, get_or, lookup-insert}
use boomerangz.Grid.{Grid}
use boomerangz.Scheduler.{
  Deadline, Scheduler, Entry, was_pending, time_member, time_members, plan_entry, plan_from, plan,
  install, is_schedulable, by_name_from, zero_member, time_found, timed_members, untimed,
}
use boomerangz.Scheduler.Rounds.{
  complete, retry, settle, completed_root, retried_root, advance, defer, set_next,
}

set_next-pending : (name : Text) (t : ℕ) (d : Deadline) → (set_next name t d).pending ≡ d.pending
set_next-pending name t d = ground arith

advance-pending : (due : List Text) (t : ℕ) (d : Deadline) → (advance due t d).pending ≡ d.pending
advance-pending [] t d = refl
advance-pending (name ∷ due) t d =
    let next = t + (get_or name d.members zero_member).span in
    advance-pending due t (set_next name next d) ∙ set_next-pending name next d

defer-pending : (deferred : Dict Text ℕ) (d : Deadline) → (defer deferred d).pending ≡ d.pending
defer-pending [] d = refl
defer-pending ((name, at) ∷ deferred) d =
    defer-pending deferred (set_next name at d) ∙ set_next-pending name at d

-- A root that a call leaves settled: it is not pending, and no other root is changed.
pub record IsSettledIn (dataset : Text) (s t : Scheduler) : Type 0 where
  pub root : Deadline
  pub found : lookup dataset t.entries ≡ some root
  pub awake : root.pending ≡ false
  pub others :
      (other : Text) → (dataset =? other) ≡ false → lookup other t.entries ≡ lookup other s.entries

settle-IsSettledIn :
    (dataset : Text) (change : Deadline → Deadline) (s : Scheduler) (o : Option Deadline)
    → is_none o ≡ false
    → ((d : Deadline) → (change d).pending ≡ false)
    → IsSettledIn dataset s (settle dataset change s o)
unfolding settle
settle-IsSettledIn dataset change s none e awake = cc
settle-IsSettledIn dataset change s (some d) e awake = record {
  root = change d;
  found = ground (arith, lookup-insert dataset dataset (change d) s.entries);
  awake = awake d;
  others = λ other h. ground (arith, h, lookup-insert dataset other (change d) s.entries);
}

-- Complete settles a scheduled root: afterwards it is not pending, and no other root is changed.
pub complete-IsSettledIn :
    (dataset : Text) (due : List Text) (t : ℕ) (deferred : Dict Text ℕ) (s : Scheduler)
    → is_none (lookup dataset s.entries) ≡ false
    → IsSettledIn dataset s (complete dataset due t deferred s)
unfolding complete
complete-IsSettledIn dataset due t deferred s h =
    settle-IsSettledIn dataset (completed_root dataset due t deferred) s (lookup dataset s.entries)
      h
      (λ d.
        let advanced = if not (is_nil d.replicate) && not (is_nil due) then dataset ∷ [] else due in
        defer-pending deferred (advance advanced t (record d { pending = false }))
        ∙ advance-pending advanced t (record d { pending = false }))

-- Retry settles a scheduled root: afterwards it is not pending, and no other root is changed.
pub retry-IsSettledIn :
    (dataset : Text) (t : ℕ) (s : Scheduler)
    → is_none (lookup dataset s.entries) ≡ false
    → IsSettledIn dataset s (retry dataset t s)
unfolding retry
retry-IsSettledIn dataset t s h =
    settle-IsSettledIn dataset (retried_root t) s (lookup dataset s.entries) h (λ d. refl)

time_member-pending :
    (now : ℕ) (previous : Option Deadline) (name : Text) (g : Grid) (item : Deadline)
    → (time_member now previous name g item).pending ≡ item.pending
unfolding time_member
time_member-pending now previous name g item = ground arith

time_found-pending :
    (now : ℕ) (previous : Option Deadline) (name : Text) (item : Deadline) (o : Option Entry)
    → (time_found now previous name item o).pending ≡ item.pending
unfolding time_found
time_found-pending now previous name item none = refl
time_found-pending now previous name item (some e) =
    time_member-pending now previous name e.policy.grid item

time_members-pending :
    (by_name : Dict Text Entry) (now : ℕ) (previous : Option Deadline) (names : List Text)
    (item : Deadline)
    → (time_members by_name now previous names item).pending ≡ item.pending
unfolding time_members
time_members-pending by_name now previous [] item = refl
time_members-pending by_name now previous (name ∷ names) item =
    time_members-pending by_name now previous names
      (time_found now previous name item (lookup name by_name))
    ∙ time_found-pending now previous name item (lookup name by_name)

plan_entry-pending :
    (by_name : Dict Text Entry) (now : ℕ) (previous : Option Deadline) (e : Entry)
    → (plan_entry by_name now previous e).pending ≡ was_pending previous
unfolding plan_entry
plan_entry-pending by_name now previous e =
    time_members-pending by_name now previous (timed_members e) (untimed previous e)

-- A planned root is pending when it was pending as the plan read it.
abbrev Carries : Dict Text Deadline → Dict Text Deadline → Type 0
Carries old next =
    (name : Text) (item : Deadline)
    → lookup name next ≡ some item
    → item.pending ≡ was_pending (lookup name old)

Carries-if :
    (left_out : Bool) (old : Dict Text Deadline) (key : Text) (item : Deadline)
    (next : Dict Text Deadline)
    → item.pending ≡ was_pending (lookup key old)
    → Carries old next
    → Carries old (if left_out then next else insert key item next)
Carries-if true old key item next k h name found e = h name found e
Carries-if false old key item next k h name found e = elim (Bool-cases (key =? name)) [
  | inl same ↦
      let is_item : item ≡ found = ground (arith, e, same, lookup-insert key name item next) in
      let is_key : key ≡ name = ground arith in
      ap (λ (d : Deadline). d.pending) (sym is_item)
      ∙ k
      ∙ ap (λ n. was_pending (lookup n old)) is_key
  | inr other ↦ h name found (ground (arith, e, other, lookup-insert key name item next))
]

plan_from-Carries :
    (by_name : Dict Text Entry) (now : ℕ) (old : Dict Text Deadline) (es : List Entry)
    (next : Dict Text Deadline)
    → Carries old next
    → Carries old (plan_from by_name now old es next)
unfolding plan_from
plan_from-Carries by_name now old [] next h = h
plan_from-Carries by_name now old (e ∷ es) next h =
    let item = plan_entry by_name now (lookup e.name old) e in
    let left_out = not (is_schedulable e) || is_nil item.order in
    plan_from-Carries by_name now old es (if left_out then next else insert e.name item next) (
      Carries-if left_out old e.name item next
        (plan_entry-pending by_name now (lookup e.name old) e) h)

-- A root that an Update installs is pending exactly if it was pending when the Update read it, whatever
-- happened to the scheduler in between.
pub install-pending :
    (entries : List Entry) (now : ℕ) (read installed_on : Scheduler) (name : Text) {item : Deadline}
    → lookup name (install (plan entries now read.entries) installed_on).entries ≡ some item
    → item.pending ≡ was_pending (lookup name read.entries)
unfolding install plan
install-pending entries now read installed_on name {item} h =
    plan_from-Carries (by_name_from [] entries) now read.entries entries [] (λ _ _ e. cc e) name
      item h
