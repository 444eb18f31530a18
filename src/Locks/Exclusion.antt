-- ===== src/Locks/Exclusion.antt =====
-- Two holders of one key never have overlapping scopes, whatever the order of the calls.
use boomerangz.Base.{
  ℕ, ◌+◌, ◌≤◌, ◌≡◌, refl, sym, ap, ◌∙◌, subst, Bool, true, false, not, ◌&&◌, none, List, [], ◌∷◌,
  ◌++◌, arith, if◌then◌else◌, Text, text_key, ℕ_key, ◌=?◌, every, contains,
}
use boomerangz.Base.Dict.{lookup, get_or, keys, contains-keys_iff}
use boomerangz.Names.{overlapping_lock_scope}
use boomerangz.Locks.Slots.{
  entry, slot, slot-grant, slot-release, blocker_of-none, attempt-acquired, attempt-cancelled,
}
use boomerangz.Locks.{
  Waiter, KeyLocks, no_locks, enqueue, attempt, acquired, grant, blocker_of, release, find_active,
}

-- A granted lock whose release is outstanding.
pub record Token : Type 0 where
  pub key : Text
  pub scope : Text
  pub holder : Text

pub record System : Type 0 where
  pub locks : KeyLocks
  pub held : List Token

abbrev pub token_of : Text → Waiter → Token
token_of key w = record { key = key; scope = w.scope; holder = w.holder }

-- What the callers of the lock table may do, in any order.
pub data Step (s : System) : System → Type 0 where
  arrive : (key : Text) (w : Waiter) → Step s (record s { locks = enqueue key w s.locks })
  acquire :
      (key : Text) (w : Waiter) (k : KeyLocks)
      → attempt false key w s.locks ≡ (acquired, k)
      → Step s (record { locks = k; held = token_of key w ∷ s.held })
  cancel : (key : Text) (w : Waiter) → Step s (record s { locks = (attempt true key w s.locks).1 })
  release_one :
      (before : List Token) (t : Token) (after : List Token)
      → s.held ≡ before ++ t ∷ after
      → Step s (record { locks = release t.key t.scope t.holder s.locks; held = before ++ after })

pub data Reach : System → Type 0 where
  start : Reach (record { locks = no_locks; held = [] })
  later : {s t : System} → Reach s → Step s t → Reach t

abbrev pub conflicts : Token → Token → Bool
conflicts t u = t.key =? u.key && overlapping_lock_scope t.scope u.scope

abbrev pub clear : Token → List Token → Bool
clear t ts = every (λ u. not (conflicts u t)) ts

-- No two tokens of the list conflict.
abbrev pub IsExclusive : List Token → Type 0
IsExclusive [] = Unit
IsExclusive (t ∷ ts) = (clear t ts ≡ true) × IsExclusive ts

abbrev pub tally : Text → Text → List Token → ℕ
tally key scope [] = 0
tally key scope (t ∷ ts) = (if t.key =? key && t.scope =? scope then 1 else 0) + tally key scope ts

pub record Inv (s : System) : Type 0 where
  pub exclusive : IsExclusive s.held
  pub counted : (key scope : Text) → slot key scope s.locks ≡ entry (tally key scope s.held)

find_active-none :
    (scope a : Text) (xs : List Text)
    → find_active scope xs ≡ none
    → contains xs a ≡ true
    → overlapping_lock_scope a scope ≡ false
find_active-none scope a [] h m = cc
find_active-none scope a (x ∷ xs) h m = ground (arith, find_active-none scope a xs)

clear_of_tally :
    (key : Text) (w : Waiter) (ts : List Token)
    → ((scope : Text) → 1 ≤ tally key scope ts → overlapping_lock_scope scope w.scope ≡ false)
    → clear (token_of key w) ts ≡ true
clear_of_tally key w [] h = refl
clear_of_tally key w (t ∷ ts) h =
    ground (arith, h t.scope, clear_of_tally key w ts (λ scope m. h scope (omega arith)))

clear-drop :
    (t : Token) (before : List Token) (u : Token) (after : List Token)
    → clear t (before ++ u ∷ after) ≡ true
    → clear t (before ++ after) ≡ true
clear-drop t [] u after h = ground arith
clear-drop t (b ∷ before) u after h = ground (arith, clear-drop t before u after)

IsExclusive-drop :
    (before : List Token) (u : Token) (after : List Token)
    → IsExclusive (before ++ u ∷ after)
    → IsExclusive (before ++ after)
IsExclusive-drop [] u after h = h.1
IsExclusive-drop (b ∷ before) u after h =
    (clear-drop b before u after h.0, IsExclusive-drop before u after h.1)

tally-drop :
    (key scope : Text) (before : List Token) (u : Token) (after : List Token)
    → tally key scope (before ++ u ∷ after)
      ≡ tally key scope (before ++ after) + (if u.key =? key && u.scope =? scope then 1 else 0)
tally-drop key scope [] u after = omega arith
tally-drop key scope (b ∷ before) u after = omega (arith, tally-drop key scope before u after)

-- A scope that no active one blocks overlaps no holder of the key.
pub clear_of_free :
    (key : Text) (w : Waiter) (s : System)
    → Inv s
    → blocker_of key w s.locks ≡ none
    → clear (token_of key w) s.held ≡ true
clear_of_free key w s v free = clear_of_tally key w s.held λ scope m.
    find_active-none w.scope scope (keys (get_or key s.locks.active []))
      (blocker_of-none key w s.locks free)
      (ground (arith, contains-keys_iff scope (get_or key s.locks.active []), v.counted key scope))

acquire-Inv :
    (key : Text) (w : Waiter) (s : System)
    → Inv s
    → blocker_of key w s.locks ≡ none
    → Inv (record { locks = grant key w s.locks; held = token_of key w ∷ s.held })
acquire-Inv key w s v free = record {
  exclusive = (clear_of_free key w s v free, v.exclusive);
  counted = λ key' scope'.
      ground
        (arith, slot-grant key key' scope' w s.locks, v.counted key w.scope, v.counted key' scope');
}

release-Inv :
    (before : List Token) (t : Token) (after : List Token) (s : System)
    → Inv s
    → s.held ≡ before ++ t ∷ after
    → Inv (record { locks = release t.key t.scope t.holder s.locks; held = before ++ after })
release-Inv before t after s v e = record {
  exclusive = IsExclusive-drop before t after (subst IsExclusive e v.exclusive);
  counted = λ key' scope'.
      let now : (key scope : Text)
          → tally key scope s.held ≡ tally key scope (before ++ t ∷ after) =
        λ key scope. ap (tally key scope) e in
      ground (
        arith,
        slot-release t.key t.scope t.holder key' scope' s.locks,
        v.counted t.key t.scope,
        v.counted key' scope',
        now t.key t.scope,
        now key' scope',
        tally-drop t.key t.scope before t after,
        tally-drop key' scope' before t after,
      );
}

-- The invariant reads the active scopes alone.
Inv-active :
    (s : System) (k : KeyLocks)
    → k.active ≡ s.locks.active
    → Inv s
    → Inv (record { locks = k; held = s.held })
Inv-active s k e v = record {
  exclusive = v.exclusive;
  counted = λ key scope. ap (λ m. lookup scope (get_or key m [])) e ∙ v.counted key scope;
}

Step-Inv : {s t : System} → Step s t → Inv s → Inv t
Step-Inv {s} (arrive key w) v = Inv-active s (enqueue key w s.locks) (unfold enqueue in refl) v
Step-Inv {s} (acquire key w k h) v =
    let (free, e) = attempt-acquired key w s.locks h in
    subst (λ l. Inv (record { locks = l; held = token_of key w ∷ s.held })) (sym e)
      (acquire-Inv key w s v free)
Step-Inv {s} (cancel key w) v =
    Inv-active s (attempt true key w s.locks).1 (attempt-cancelled key w s.locks) v
Step-Inv {s} (release_one before t after e) v = release-Inv before t after s v e

pub Reach-Inv : {s : System} → Reach s → Inv s
Reach-Inv start = record { exclusive = tt; counted = λ key scope. refl }
Reach-Inv (later r st) = Step-Inv st (Reach-Inv r)

-- Mutual exclusion: of the locks held in any reachable state no two are on one key with
-- overlapping scopes.
pub held-IsExclusive : (s : System) → Reach s → IsExclusive s.held
held-IsExclusive s r = (Reach-Inv r).exclusive
