-- ===== src/Scheduler/Rounds.antt =====
-- Complete, Retry and a round of Next.
use boomerangz.Base.{
  ℕ, ◌+◌, true, false, not, ◌&&◌, ◌||◌, Option, none, some, List, [], ◌∷◌, ltb, leb, ◌==◌,
  if◌then◌else◌, Text, text_key, ℕ_key, is_nil,
}
use boomerangz.Base.Dict.{Dict, lookup, insert, get_or}
use boomerangz.Scheduler.{
  Schedule, MemberDeadline, Deadline, Scheduler, signal, earliest, zero_member, schedule,
}

abbrev pub set_next : Text → ℕ → Deadline → Deadline
set_next name next d = elim (lookup name d.members) [
  | none ↦ d
  | some m ↦ record d { members = insert name (record m { next = next }) d.members }
]

abbrev pub advance : List Text → ℕ → Deadline → Deadline
advance [] completed d = d
advance (name ∷ due) completed d =
    advance due completed (set_next name (completed + (get_or name d.members zero_member).span) d)

abbrev pub defer : Dict Text ℕ → Deadline → Deadline
defer [] d = d
defer ((name, at) ∷ deferred) d = defer deferred (set_next name at d)

-- A scheduled root is replaced, and the change is announced.
unfoldable pub settle : Text → (Deadline → Deadline) → Scheduler → Option Deadline → Scheduler
settle dataset change s none = s
settle dataset change s (some d) =
    signal (record s { entries = insert dataset (change d) s.entries })

-- Under `replicate` the root advances for all of its members.
abbrev pub completed_root : Text → List Text → ℕ → Dict Text ℕ → Deadline → Deadline
completed_root dataset due completed deferred d = defer deferred (
    advance (if not (is_nil d.replicate) && not (is_nil due) then dataset ∷ [] else due) completed
      (record d { pending = false }))

-- `Complete`.
unfoldable pub complete : Text → List Text → ℕ → Dict Text ℕ → Scheduler → Scheduler
unfolding settle
complete dataset due completed deferred s =
    settle dataset (completed_root dataset due completed deferred) s (lookup dataset s.entries)

abbrev pub hold_back : ℕ → Dict Text MemberDeadline → Dict Text MemberDeadline
hold_back t [] = []
hold_back t ((name, m) ∷ ms) =
    (name, if ltb m.next t then record m { next = t } else m) ∷ hold_back t ms

abbrev pub retried_root : ℕ → Deadline → Deadline
retried_root not_before d = record d { pending = false; members = hold_back not_before d.members }

-- `Retry`.
unfoldable pub retry : Text → ℕ → Scheduler → Scheduler
unfolding settle
retry dataset not_before s = settle dataset (retried_root not_before) s (lookup dataset s.entries)

-- The selection of `Next`: the name and the deadline so far.
unfoldable pub select_from : Text × ℕ → Dict Text Deadline → Text × ℕ
select_from best [] = best
select_from best ((name, d) ∷ entries) =
    select_from
      (if d.pending || not (best.1 == 0) && leb best.1 (earliest d)
        then best
        else (name, earliest d))
      entries

pub data Look : Type 0 where
  -- Nothing may be selected: wait for a change.
  idle : Look
  -- The earliest deadline lies ahead: wait for it, or for a change.
  wait_until : ℕ → Look
  fires : Schedule → Look

unfoldable pub start_root : ℕ → Scheduler → Text → Option Deadline → Look × Scheduler
start_root now s selected none = (idle, s)
start_root now s selected (some d) = (
  fires (schedule selected now (record d { pending = true })),
  record s { entries = insert selected (record d { pending = true }) s.entries },
)

-- What follows a selection; no selection has the empty name.
unfoldable pub round_from : ℕ → Scheduler → Text × ℕ → Look × Scheduler
unfolding start_root
round_from now s (selected, at) =
    if is_nil selected
    then (idle, s)
    else if ltb now at
    then (wait_until at, s)
    else start_root now s selected (lookup selected s.entries)

-- A round of the loop of `Next`, at a time: what it finds, and the scheduler that it leaves.
unfoldable pub next_round : ℕ → Scheduler → Look × Scheduler
unfolding round_from
next_round now s = round_from now s (select_from ([], 0) s.entries)
