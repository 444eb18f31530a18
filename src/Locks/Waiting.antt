-- ===== src/Locks/Waiting.antt =====
-- Whom a waiter waits for: no more and no less than the overlapping holders and earlier waiters.
use boomerangz.Base.{
  ◌≤◌, ◌≡◌, refl, sym, subst, ◌↔◌, Bool, true, false, not, none, List, [], ◌∷◌, ◌++◌, arith, ◌==◌,
  Text, text_key, ℕ_key, every, contains,
}
use boomerangz.Base.Dict.{get_or, keys, contains-keys_iff}
use boomerangz.Names.{overlapping_lock_scope}
use boomerangz.Locks.{Waiter, attempt, acquired, blocker_of, find_active, find_earlier}
use boomerangz.Locks.Exclusion.{
  Token, System, token_of, clear, Inv, tally, Reach, Reach-Inv, clear_of_free,
}

-- No waiter of the list overlaps.
abbrev pub clear_ahead : Waiter → List Waiter → Bool
clear_ahead w ws = every (λ (v : Waiter). not (overlapping_lock_scope v.scope w.scope)) ws

-- The waiter's own entry comes behind those ahead of it.
abbrev pub is_ahead : Waiter → List Waiter → Bool
is_ahead w ws = every (λ (v : Waiter). not (v.pointer == w.pointer)) ws

find_earlier-split :
    (w : Waiter) (before after : List Waiter)
    → is_ahead w before ≡ true
    → (find_earlier w (before ++ w ∷ after) ≡ none) ↔ (clear_ahead w before ≡ true)
find_earlier-split w [] after h = (λ _. refl, λ _. ground arith)
find_earlier-split w (v ∷ before) after h =
    let ih = find_earlier-split w before after (ground arith) in
    (λ e. ground (arith, ih.0), λ e. ground (arith, ih.1))

find_active_complete :
    (scope : Text) (xs : List Text)
    → ((a : Text) → contains xs a ≡ true → overlapping_lock_scope a scope ≡ false)
    → find_active scope xs ≡ none
find_active_complete scope [] h = refl
find_active_complete scope (x ∷ xs) h =
    ground (arith, h x, find_active_complete scope xs (λ a m. h a (ground arith)))

tally-clear :
    (key a : Text) (w : Waiter) (ts : List Token)
    → clear (token_of key w) ts ≡ true
    → 1 ≤ tally key a ts
    → overlapping_lock_scope a w.scope ≡ false
tally-clear key a w [] c h = absurd (omega arith)
tally-clear key a w (t ∷ ts) c h = ground (arith, tally-clear key a w ts)

module _ (s : System) (v : Inv s) (key : Text) (w : Waiter) (before after : List Waiter)
    (queued : get_or key s.locks.waiters [] ≡ before ++ w ∷ after)
    (fresh : is_ahead w before ≡ true) where
  free→clear :
      blocker_of key w s.locks ≡ none
      → (clear (token_of key w) s.held ≡ true) × (clear_ahead w before ≡ true)
  unfolding blocker_of
  free→clear h = (
    clear_of_free key w s v h,
    (find_earlier-split w before after fresh).0
        (subst (λ l. find_earlier w l ≡ none) queued (ground arith)),
  )

  clear→free :
      clear (token_of key w) s.held ≡ true
      → clear_ahead w before ≡ true
      → blocker_of key w s.locks ≡ none
  unfolding blocker_of
  clear→free c a =
      let ahead : find_earlier w (get_or key s.locks.waiters []) ≡ none =
        subst (λ l. find_earlier w l ≡ none) (sym queued)
          ((find_earlier-split w before after fresh).1 a) in
      let holders : find_active w.scope (keys (get_or key s.locks.active [])) ≡ none =
        find_active_complete w.scope (keys (get_or key s.locks.active [])) λ a m.
          tally-clear key a w s.held c
            (ground (arith, contains-keys_iff a (get_or key s.locks.active []), v.counted key a)) in
      ground (arith, ahead, holders)

  attempt_free : blocker_of key w s.locks ≡ none → (attempt false key w s.locks).0 ≡ acquired
  unfolding attempt
  attempt_free h = ground arith

  attempt_got : (attempt false key w s.locks).0 ≡ acquired → blocker_of key w s.locks ≡ none
  unfolding attempt
  attempt_got h = ground arith

-- A round of a queued waiter acquires exactly when its scope overlaps that of no holder of the key
-- and of no waiter ahead of it: a holder or an earlier waiter is never passed, and nothing else
-- holds a waiter back.
pub attempt_exact :
    (s : System) (key : Text) (w : Waiter) (before after : List Waiter)
    → Reach s
    → get_or key s.locks.waiters [] ≡ before ++ w ∷ after
    → is_ahead w before ≡ true
    → ((attempt false key w s.locks).0 ≡ acquired)
      ↔ ((clear (token_of key w) s.held ≡ true) × (clear_ahead w before ≡ true))
attempt_exact s key w before after r queued fresh =
    let v = Reach-Inv r in
    (
      λ h.
          free→clear s v key w before after queued fresh
            (attempt_got s v key w before after queued fresh h),
      λ (c, a).
          attempt_free s v key w before after queued fresh
            (clear→free s v key w before after queued fresh c a),
    )
