-- ===== src/Queue/Examples.antt =====
-- The theorems about the queue at a concrete queue, over a world that counts calls.
use boomerangz.Base.{
  ℕ, ◌+◌, ◌≡◌, refl, subst, false, none, some, [], ◌∷◌, map, Text, text_dec, text_key, ℕ_key, codes,
  length,
}
use boomerangz.Jobs.{Job, no_identity}
use boomerangz.Queue.{FairQueue, new_fair_queue, offer, pop_step, remove_scope, snapshot_locked}
use boomerangz.Queue.Valid.{IsValid, new_fair_queue-IsValid}
use boomerangz.Queue.Offer.{Offered, offer_branches}
use boomerangz.Queue.Pop.{PopStep, pop_step_branches}
use boomerangz.Queue.Snapshots.{drain, snapshot_locked-drain, drain_fair}

abbrev job : Text → Text → Text → Job ℕ
job id group scope = record {
  id = id;
  run_id = 1;
  group = group;
  scope = scope;
  lock_key = [];
  lock_scope = [];
  start_state = [];
  run = some (λ w. (record { state = []; reason = []; silent = false; identity = no_identity }, w));
  after = none;
  drop = some (λ w. w + 1);
}

abbrev first_job : Job ℕ
first_job = job (codes "a1") (codes "a") (codes "tank")

abbrev second_job : Job ℕ
second_job = job (codes "a2") (codes "a") (codes "tank")

abbrev other_job : Job ℕ
other_job = job (codes "b1") (codes "b") (codes "pool")

abbrev none_pending : FairQueue ℕ
none_pending = record {
  capacity = 3;
  count = 0;
  groups = [];
  order = [];
  ids = [];
  signals = 0;
  closed = false;
  observe = none;
}

-- Two jobs of group a, and one of group b.
abbrev three_pending : FairQueue ℕ
three_pending = record {
  capacity = 3;
  count = 3;
  groups = (codes "a", first_job ∷ second_job ∷ []) ∷ (codes "b", other_job ∷ []) ∷ [];
  order = codes "a" ∷ codes "b" ∷ [];
  ids = codes "b1" ∷ codes "a2" ∷ codes "a1" ∷ [];
  signals = 3;
  closed = false;
  observe = none;
}

offered_three :
    (offer other_job (offer second_job (offer first_job none_pending 0).1 0).1 0).1 ≡ three_pending
unfolding offer text_dec
offered_three = refl

none_pending-IsValid : IsValid none_pending
unfolding new_fair_queue
none_pending-IsValid = new_fair_queue-IsValid 3 refl

IsValid-of_Offered :
    {j : Job ℕ} {q : FairQueue ℕ} {w : ℕ} {r : _} → Offered j q w r → IsValid q → IsValid r.1
IsValid-of_Offered (Offered.refused_incomplete h) v = v
IsValid-of_Offered (Offered.refused_closed whole h) v = v
IsValid-of_Offered (Offered.repeated whole opened h) v = v
IsValid-of_Offered (Offered.refused_full whole opened fresh h) v = v
IsValid-of_Offered (Offered.added q' whole opened h room k e) v = k

three_pending-IsValid : IsValid three_pending
three_pending-IsValid =
    let one = (offer first_job none_pending 0).1 in
    let two = (offer second_job one 0).1 in
    subst IsValid offered_three (
      IsValid-of_Offered
        (offer_branches other_job two 0 (
          IsValid-of_Offered
            (offer_branches second_job one 0 (
              IsValid-of_Offered (offer_branches first_job none_pending 0 none_pending-IsValid)
                none_pending-IsValid))
            (IsValid-of_Offered (offer_branches first_job none_pending 0 none_pending-IsValid)
              none_pending-IsValid)))
        (IsValid-of_Offered
          (offer_branches second_job one 0 (
            IsValid-of_Offered (offer_branches first_job none_pending 0 none_pending-IsValid)
              none_pending-IsValid))
          (IsValid-of_Offered (offer_branches first_job none_pending 0 none_pending-IsValid)
            none_pending-IsValid)))

drained_alternately :
    map (λ (j : Job ℕ). j.id) (drain 3 three_pending 0) ≡ codes "a1" ∷ codes "b1" ∷ codes "a2" ∷ []
unfolding drain pop_step text_dec
drained_alternately = refl

removed_two : (remove_scope (codes "tank") [] three_pending 0).0 ≡ 2
unfolding remove_scope text_dec
removed_two = refl

offer_branches_example : Offered first_job three_pending 0 (offer first_job three_pending 0)
offer_branches_example = offer_branches first_job three_pending 0 three_pending-IsValid

pop_step_branches_example : PopStep three_pending 0 (pop_step three_pending 0)
pop_step_branches_example = pop_step_branches three_pending 0 three_pending-IsValid

snapshot_locked-drain_example :
    ((snapshot_locked three_pending).ids ≡ map (λ (j : Job ℕ). j.id) (drain 3 three_pending 0))
    × (length (snapshot_locked three_pending).ids ≡ 3)
snapshot_locked-drain_example = snapshot_locked-drain three_pending 0 three_pending-IsValid

drain_fair_example : drain 2 three_pending 0 ≡ first_job ∷ other_job ∷ []
unfolding text_dec
drain_fair_example =
    drain_fair three_pending 0 ((codes "a", first_job ∷ second_job ∷ []) ∷ []) [] (codes "b")
      other_job [] three_pending-IsValid refl
