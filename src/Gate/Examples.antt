-- ===== src/Gate/Examples.antt =====
-- internal/lifecycle/gate.go on concrete calls: a transfer and a queued ticket that a deactivation
-- withdraws, and the waits that follow.
use boomerangz.Base.{
  Some, ◌≡◌, refl, inl, true, false, Option, none, some, [], ◌∷◌, Text, text_dec, text_key, ℕ_key,
  codes,
}
use boomerangz.Base.Result.{ok, err}
use boomerangz.Base.Dict.{lookup}
use boomerangz.Names.{validate_dataset}
use boomerangz.Strings.{is_space, is_control}
use boomerangz.Gate.{
  management, transfer, Gate, GateError, Ended, canceled, Ticket, asleep, changed, set_enabled,
  queue, start, finish, status, look_scope, wait_quiescent, empty_gate, sets, queues, starts,
  finishes, Reach, here, next_step, scope_of,
}
use boomerangz.Gate.Valid.{IsValid, Reach-IsValid}
use boomerangz.Gate.Withdrawn.{set_enabled-withdraws, has_ended, runs}
use boomerangz.Gate.Quiescent.{wait_quiescent-IsQuiescent, IsQuiescent, seen}
use boomerangz.Gate.Woken.{look_scope-asleep}

abbrev tank : Text
tank = codes "tank/a"

-- The scope is enabled, a transfer runs, and a second ticket is queued.
abbrev opened : Gate
opened = (set_enabled tank true empty_gate).0

abbrev streaming : Gate
streaming = (start 0 (queue none tank transfer opened).0).0

abbrev waiting : Gate
waiting = (queue none tank management streaming).0

abbrev waiting_reached : Reach empty_gate waiting
waiting_reached =
    next_step
      (next_step
        (next_step (next_step here (sets empty_gate tank true)) (queues opened none tank transfer))
        (starts (queue none tank transfer opened).0 0))
      (queues streaming none tank management)

abbrev closed : Gate
closed = (set_enabled tank false waiting).0

abbrev finished : Gate
finished = finish 0 closed

waiting-IsValid : IsValid waiting
waiting-IsValid = Reach-IsValid waiting_reached

Reach-IsValid_example : IsValid waiting
Reach-IsValid_example = Reach-IsValid waiting_reached

-- The second ticket cannot start, and the transfer that runs is counted until it finishes.
second_refused : (start 1 closed).1 ≡ err (GateError.ended canceled)
unfolding start set_enabled queue validate_dataset text_dec is_space is_control
second_refused = refl

closed_status :
    status tank closed ≡ record { enabled = false; queued = 0; management = 0; transfers = 1 }
unfolding start set_enabled queue status validate_dataset text_dec is_space is_control
closed_status = refl

closed_sleeps : look_scope tank closed ≡ asleep ((tank, 5) ∷ [])
unfolding start set_enabled queue look_scope validate_dataset text_dec is_space is_control
closed_sleeps = refl

-- A wait on the parent sleeps through the transfer, and returns when it has finished.
parent_waits : wait_quiescent (codes "tank") none closed (changed finished ∷ []) ≡ some (ok 0)
unfolding wait_quiescent start finish set_enabled queue validate_dataset text_dec is_space
    is_control
parent_waits = refl

closed_reached : Reach empty_gate closed
closed_reached = next_step waiting_reached (sets waiting tank false)

finished_reached : Reach empty_gate finished
finished_reached = next_step closed_reached (finishes closed 0)

wait_quiescent-IsQuiescent_example :
    (◌≡◌ {A = Option Ended} none none)
    × Some (IsQuiescent (codes "tank")) (seen closed (changed finished ∷ []))
wait_quiescent-IsQuiescent_example =
    wait_quiescent-IsQuiescent (codes "tank") none closed (changed finished ∷ []) 0
      (Reach-IsValid closed_reached, (Reach-IsValid finished_reached, tt)) parent_waits

abbrev second : Ticket
second = record { scope = tank; kind = management; ended = none; running = false; finished = false }

tank_valid : validate_dataset tank ≡ ok tt
unfolding validate_dataset text_dec is_space is_control
tank_valid = refl

second_there : lookup 1 waiting.tickets ≡ some second
unfolding start set_enabled queue validate_dataset text_dec is_space is_control
second_there = refl

-- Also after the scope was enabled again.
set_enabled-withdraws_example :
    (has_ended (lookup 1 (set_enabled tank true closed).0.tickets) ≡ true)
    × (false ≡ false → runs (lookup 1 (set_enabled tank true closed).0.tickets) ≡ false)
unfolding text_dec
set_enabled-withdraws_example =
    set_enabled-withdraws tank 1 second waiting-IsValid tank_valid second_there refl (inl refl)
      (next_step here (sets closed tank true))

read_signals : (scope_of tank closed).signals ≡ 5
unfolding start set_enabled queue validate_dataset text_dec is_space is_control
read_signals = refl

look_scope-asleep_example : look_scope tank closed ≡ asleep ((tank, 5) ∷ [])
look_scope-asleep_example =
    look_scope-asleep tank 5 (Reach-IsValid closed_reached) closed_sleeps here read_signals
