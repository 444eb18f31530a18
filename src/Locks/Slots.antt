-- ===== src/Locks/Slots.antt =====
-- What the steps of the lock table do to the counts that it keeps.
use boomerangz.Base.{
  ℕ, zero, suc, ◌+◌, ◌-◌, ◌≡◌, refl, true, false, ◌&&◌, Option, none, some, [], ◌∷◌, arith,
  if◌then◌else◌, Text, text_key, ℕ_key, ◌=?◌, is_nil,
}
use boomerangz.Base.Dict.{Dict, lookup, insert, delete, get_or, keys, lookup-insert, lookup-delete}
use boomerangz.Locks.{
  Waiter, KeyLocks, attempt, acquired, grant, blocker_of, release, find_active, lower,
  remove_waiter_locked,
}

-- The count that the table keeps: a scope that nobody holds has no entry.
abbrev pub entry : ℕ → Option ℕ
entry zero = none
entry (suc n) = some (suc n)

abbrev pub slot : Text → Text → KeyLocks → Option ℕ
slot key scope k = lookup scope (get_or key k.active [])

remove_waiter_locked-active :
    (key : Text) (w : Waiter) (k : KeyLocks) → (remove_waiter_locked key w k).active ≡ k.active
unfolding remove_waiter_locked
remove_waiter_locked-active key w k = ground arith

pub slot-grant :
    (key key' scope' : Text) (w : Waiter) (k : KeyLocks)
    → slot key' scope' (grant key w k) ≡ (
        if key =? key' && w.scope =? scope'
        then some (elim (slot key w.scope k) [ none ↦ 1 | some n ↦ n + 1 ])
        else slot key' scope' k)
unfolding grant
slot-grant key key' scope' w k =
    let inner = get_or key k.active [] in
    let n = get_or w.scope inner 0 + 1 in
    rw (remove_waiter_locked-active key w k) (
      ground (
        arith,
        lookup-insert key key' (insert w.scope n inner) k.active,
        lookup-insert w.scope scope' n inner,
      ))

lookup-lower :
    (scope scope' : Text) (inner : Dict Text ℕ)
    → lookup scope' (lower scope inner)
      ≡ (if scope =? scope' then entry (get_or scope inner 0 - 1) else lookup scope' inner)
lookup-lower scope scope' inner = by_rest (get_or scope inner 0 - 1) refl
  where
    by_rest :
        (n : ℕ)
        → get_or scope inner 0 - 1 ≡ n
        → lookup scope' (lower scope inner)
          ≡ (if scope =? scope' then entry (get_or scope inner 0 - 1) else lookup scope' inner)
    by_rest zero e = rw e (ground (arith, lookup-delete scope scope' inner))
    by_rest (suc n) e = rw e (ground (arith, lookup-insert scope scope' (suc n) inner))

-- A key without an entry and a key with an empty one read the same.
get_or-put :
    {V : Type 0} (key key' : Text) (inner : Dict Text V) (m : Dict Text (Dict Text V))
    → get_or key' (if is_nil inner then delete key m else insert key inner m) []
      ≡ (if key =? key' then inner else get_or key' m [])
get_or-put key key' [] m = ground (arith, lookup-delete key key' m)
get_or-put key key' (x ∷ inner) m = ground (arith, lookup-insert key key' (x ∷ inner) m)

pub slot-release :
    (key scope holder key' scope' : Text) (k : KeyLocks)
    → slot key' scope' (release key scope holder k) ≡ (
        if key =? key' && scope =? scope'
        then entry (elim (slot key scope k) [ none ↦ 0 | some n ↦ n - 1 ])
        else slot key' scope' k)
unfolding release
slot-release key scope holder key' scope' k =
    let inner = get_or key k.active [] in
    rw (get_or-put key key' (lower scope inner) k.active)
      (ground (arith, lookup-lower scope scope' inner))

pub blocker_of-none :
    (key : Text) (w : Waiter) (k : KeyLocks)
    → blocker_of key w k ≡ none
    → find_active w.scope (keys (get_or key k.active [])) ≡ none
unfolding blocker_of
blocker_of-none key w k h = ground arith

pub attempt-acquired :
    (key : Text) (w : Waiter) (k : KeyLocks) {k' : KeyLocks}
    → attempt false key w k ≡ (acquired, k')
    → (blocker_of key w k ≡ none) × (k' ≡ grant key w k)
unfolding attempt
attempt-acquired key w k h = ground arith

pub attempt-cancelled :
    (key : Text) (w : Waiter) (k : KeyLocks) → (attempt true key w k).1.active ≡ k.active
unfolding attempt
attempt-cancelled key w k = remove_waiter_locked-active key w k
