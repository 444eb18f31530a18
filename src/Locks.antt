-- ===== src/Locks.antt =====
-- `keyLocks` of internal/daemon/pool.go: locks on scopes within a key, granted in order of arrival.
-- The mutex orders the rounds of `acquireAs`, so each round is one step on the table. A waiter's
-- pointer is its number; `signals` counts the times that the channel `changed` was replaced.
pub mod Slots
pub mod Exclusion
pub mod Waiting
mod Examples
use boomerangz.Base.{
  is_none, ℕ, zero, suc, ◌+◌, ◌-◌, ◌*◌, ◌/◌, ◌%◌, ◌^◌, ◌≤◌, ◌<◌, ◌≡◌, refl, sym, ap, ◌∙◌, subst,
  ◌≢◌, ◌↔◌, ◌⊎◌, inl, inr, Bool, true, false, not, ◌&&◌, ◌||◌, Option, none, some, List, [], ◌∷◌,
  ◌++◌, map, append_assoc, append-nil, arith, ltb, leb, ◌==◌, if◌then◌else◌, Bool-cases,
  Option-cases, Text, Key, text_dec, text_key, ℕ_key, ◌=?◌, codes, length, is_nil, length-append,
  keep, any, every, All, All-append, contains, remove, IsNodup, contains-append, contains-remove,
  IsNodup-remove, IsNodup-snoc,
}
use boomerangz.Base.Dict.{Dict, lookup, insert, delete, get_or, keys}
use boomerangz.Names.{overlapping_lock_scope}

pub record Waiter : Type 0 where
  pub pointer : ℕ
  pub scope : Text
  pub holder : Text

pub record KeyLocks : Type 0 where
  pub active : Dict Text (Dict Text ℕ)
  pub holders : Dict Text (Dict Text (List Text))
  pub waiters : Dict Text (List Waiter)
  pub signals : ℕ

abbrev pub no_locks : KeyLocks
no_locks = record { active = []; holders = []; waiters = []; signals = 0 }

abbrev pub signal_locked : KeyLocks → KeyLocks
signal_locked k = record k { signals = k.signals + 1 }

-- The first waiter with the pointer is taken out.
abbrev pub without : ℕ → List Waiter → List Waiter
without p [] = []
without p (w ∷ ws) = if w.pointer == p then ws else w ∷ without p ws

-- A waiter that is not in the list leaves the table as it is.
unfoldable pub remove_waiter_locked : Text → Waiter → KeyLocks → KeyLocks
remove_waiter_locked key waiter k =
    let ws = get_or key k.waiters [] in
    if any (λ (w : Waiter). w.pointer == waiter.pointer) ws
    then record k {
      waiters =
          if is_nil (without waiter.pointer ws)
          then delete key k.waiters
          else insert key (without waiter.pointer ws) k.waiters;
    }
    else k

-- The head of `acquireAs`: the waiter joins the end of the queue of its key.
unfoldable pub enqueue : Text → Waiter → KeyLocks → KeyLocks
enqueue key waiter k = record k {
  waiters = insert key (get_or key k.waiters [] ++ waiter ∷ []) k.waiters;
}

-- The first active scope that overlaps.
abbrev pub find_active : Text → List Text → Option Text
find_active scope [] = none
find_active scope (a ∷ active) =
    let rest = find_active scope active in if overlapping_lock_scope a scope then some a else rest

-- The first waiter ahead that overlaps.
abbrev pub find_earlier : Waiter → List Waiter → Option Waiter
find_earlier waiter [] = none
find_earlier waiter (w ∷ ws) =
    let rest = find_earlier waiter ws in
    if w.pointer == waiter.pointer
    then none
    else if overlapping_lock_scope w.scope waiter.scope
    then some w
    else rest

abbrev pub first_holder : List Text → Text
first_holder [] = []
first_holder (h ∷ hs) = h

-- What a round of the loop finds: the holder that it waits on, if the scope is blocked.
unfoldable pub blocker_of : Text → Waiter → KeyLocks → Option Text
blocker_of key waiter k = elim (find_active waiter.scope (keys (get_or key k.active []))) [
  | some a ↦ some (first_holder (get_or a (get_or key k.holders []) []))
  | none ↦ elim (find_earlier waiter (get_or key k.waiters [])) [
    | some w ↦ some w.holder
    | none ↦ none
  ]
]

unfoldable pub grant : Text → Waiter → KeyLocks → KeyLocks
unfolding remove_waiter_locked
grant key waiter k =
    let r = remove_waiter_locked key waiter k in
    let inner = get_or key r.active [] in
    let held = get_or key r.holders [] in
    signal_locked (record r {
      active = insert key (insert waiter.scope (get_or waiter.scope inner 0 + 1) inner) r.active;
      holders =
          insert key (insert waiter.scope (get_or waiter.scope held [] ++ waiter.holder ∷ []) held)
            r.holders;
    })

pub data Round : Type 0 where
  cancelled acquired : Round
  blocked : Text → Round

-- One round of the loop of `acquireAs`, under the lock; `done` is the state of its context.
unfoldable pub attempt : Bool → Text → Waiter → KeyLocks → Round × KeyLocks
unfolding blocker_of grant
attempt true key waiter k = (cancelled, signal_locked (remove_waiter_locked key waiter k))
attempt false key waiter k = elim (blocker_of key waiter k) [
  | some holder ↦ (blocked holder, k)
  | none ↦ (acquired, grant key waiter k)
]

-- `slices.Delete` of the first occurrence.
abbrev pub remove_first : Text → List Text → List Text
remove_first h [] = []
remove_first h (x ∷ xs) = let rest = remove_first h xs in if x =? h then xs else x ∷ rest

abbrev pub lower : Text → Dict Text ℕ → Dict Text ℕ
lower scope inner =
    let n = get_or scope inner 0 - 1 in if n == 0 then delete scope inner else insert scope n inner

abbrev pub forget : Text → Text → Dict Text (List Text) → Dict Text (List Text)
forget scope holder held =
    let left = remove_first holder (get_or scope held []) in
    if is_nil left then delete scope held else insert scope left held

-- The function that `acquireAs` returns.
unfoldable pub release : Text → Text → Text → KeyLocks → KeyLocks
release key scope holder k =
    let inner = lower scope (get_or key k.active []) in
    let held = forget scope holder (get_or key k.holders []) in
    signal_locked (record k {
      active = if is_nil inner then delete key k.active else insert key inner k.active;
      holders = if is_nil held then delete key k.holders else insert key held k.holders;
    })
