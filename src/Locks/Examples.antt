-- ===== src/Locks/Examples.antt =====
-- The theorems about the lock table on two transfers to one target.
use boomerangz.Base.{◌≡◌, refl, ◌↔◌, true, false, [], ◌∷◌, Text, text_dec, text_key, ℕ_key, codes}
use boomerangz.Names.{overlapping_lock_scope}
use boomerangz.Locks.{Waiter, KeyLocks, no_locks, enqueue, attempt, acquired, blocked, release}
use boomerangz.Locks.Exclusion.{
  arrive, acquire, Reach, start, later, IsExclusive, held-IsExclusive, token_of, clear,
}
use boomerangz.Locks.Waiting.{attempt_exact, clear_ahead}

abbrev parent : Waiter
parent = record { pointer = 1; scope = codes "tank/a"; holder = codes "send-a" }

abbrev child : Waiter
child = record { pointer = 2; scope = codes "tank/a/b"; holder = codes "send-b" }

abbrev target : Text
target = codes "backup"

abbrev two_waiting : KeyLocks
two_waiting = enqueue target child (enqueue target parent no_locks)

abbrev one_held : KeyLocks
one_held = (attempt false target parent two_waiting).1

parent_first : attempt false target parent two_waiting ≡ (acquired, one_held)
unfolding attempt enqueue overlapping_lock_scope text_dec
parent_first = refl

child_blocked : (attempt false target child one_held).0 ≡ blocked (codes "send-a")
unfolding attempt enqueue overlapping_lock_scope text_dec
child_blocked = refl

child_after :
    (attempt false target child (release target (codes "tank/a") (codes "send-a") one_held)).0
    ≡ acquired
unfolding attempt enqueue overlapping_lock_scope text_dec release
child_after = refl

queued_Reach : Reach (record { locks = two_waiting; held = [] })
queued_Reach = later (later start (arrive target parent)) (arrive target child)

held_Reach : Reach (record { locks = one_held; held = token_of target parent ∷ [] })
held_Reach = later queued_Reach (acquire target parent one_held parent_first)

held-IsExclusive_example : IsExclusive (token_of target parent ∷ [])
held-IsExclusive_example =
    held-IsExclusive (record { locks = one_held; held = token_of target parent ∷ [] }) held_Reach

attempt_exact_example :
    ((attempt false target child two_waiting).0 ≡ acquired)
    ↔ ((clear (token_of target child) [] ≡ true) × (clear_ahead child (parent ∷ []) ≡ true))
unfolding enqueue text_dec
attempt_exact_example =
    attempt_exact (record { locks = two_waiting; held = [] }) target child (parent ∷ []) []
      queued_Reach refl refl
