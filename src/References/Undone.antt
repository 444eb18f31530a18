-- ===== src/References/Undone.antt =====
-- internal/lifecycle/reference.go: the sources that a checkpoint bookmarks, and what a release undoes.
use boomerangz.Ownership.{Snapshot, Metadata}
use boomerangz.Base.{
  ℕ, ◌≡◌, refl, subst, ◌≢◌, inl, inr, Bool, true, false, not, ◌&&◌, some, List, [], ◌∷◌, ◌++◌,
  arith, if◌then◌else◌, Option-cases, Text, text_key, ℕ_key, All, sym, ap, ◌∙◌, keep, contains,
}
use boomerangz.Base.Result.{Result, ok, err, refuse-passed, >>=-eq-ok, ok_injective}
use boomerangz.Base.Dict.{Dict, lookup, get_or}
use boomerangz.Lifecycle.{State, find_owned, has_object, LifecycleError}
use boomerangz.Lifecycle.Backend.{Call, release, destroy_bookmark}
use boomerangz.References.{Reference, ReferenceSource, hold_name, source_snapshot, source_bookmark}
use boomerangz.References.Service.{
  check_source, missing_loop, decide_checkpoint, release_loop, source_held, is_owned, starts_with,
  unproven,
}

-- A bookmark that is missing, of a snapshot that was verified to have its source's GUID.
abbrev pub IsVerified : State → Reference → Dict Text ℕ → ReferenceSource → Type 0
IsVerified state r verified s =
    (lookup (source_snapshot r s.dataset) verified ≡ some s.guid)
    × (s.guid ≢ 0)
    × (has_object state (source_bookmark r s.dataset) ≡ false)

check_source-IsVerified :
    (state : State) (lineage : Text) (r : Reference) (verified : Dict Text ℕ) (s : ReferenceSource)
    → check_source state lineage r verified s ≡ ok true
    → IsVerified state r verified s
unfolding check_source
check_source-IsVerified state lineage r verified s done =
    elim (Option-cases (lookup (source_snapshot r s.dataset) verified)) [
      | inl missing ↦ absurd (ground (arith, missing))
      | inr (guid, found) ↦ (ground arith, λ zero_guid. ground arith, ground arith)
    ]

-- The sources that have no bookmark.
abbrev pub unmarked : State → Reference → List ReferenceSource → List ReferenceSource
unmarked state r found = keep (λ s. not (has_object state (source_bookmark r s.dataset))) found

check_source-mark :
    (state : State) (lineage : Text) (r : Reference) (verified : Dict Text ℕ) (s : ReferenceSource)
    (b : Bool)
    → check_source state lineage r verified s ≡ ok b
    → b ≡ not (has_object state (source_bookmark r s.dataset))
unfolding check_source
check_source-mark state lineage r verified s b done = ground (arith, done)

missing_loop-IsVerified :
    (state : State) (lineage : Text) (r : Reference) (verified : Dict Text ℕ)
    (found missing : List ReferenceSource)
    → missing_loop state lineage r verified found ≡ ok missing
    → (missing ≡ unmarked state r found) × All (IsVerified state r verified) missing
unfolding missing_loop
missing_loop-IsVerified state lineage r verified [] missing done =
    subst (λ m. (m ≡ []) × All (IsVerified state r verified) m) (ok_injective [] missing done)
      (refl, tt)
missing_loop-IsVerified state lineage r verified (s ∷ found) missing done =
    let (b, here, more) = >>=-eq-ok (check_source state lineage r verified s) _ done in
    let (rest, later, last) = >>=-eq-ok (missing_loop state lineage r verified found) _ more in
    let good = missing_loop-IsVerified state lineage r verified found rest later in
    subst (λ m. (m ≡ unmarked state r (s ∷ found)) × All (IsVerified state r verified) m)
      (ok_injective _ missing last)
      (by_test b rest here (check_source-mark state lineage r verified s b here) good.0 good.1)
  where
    by_test :
        (b : Bool) (rest : List ReferenceSource)
        → check_source state lineage r verified s ≡ ok b
        → b ≡ not (has_object state (source_bookmark r s.dataset))
        → rest ≡ unmarked state r found
        → All (IsVerified state r verified) rest
        → ((if b then s ∷ rest else rest) ≡ unmarked state r (s ∷ found))
          × All (IsVerified state r verified) (if b then s ∷ rest else rest)
    by_test true rest here mark same good = (
      ground (arith, mark, same),
      (check_source-IsVerified state lineage r verified s here, good),
    )
    by_test false rest here mark same good = (ground (arith, mark, same), good)

pub missing-IsVerified :
    (state : State) (lineage : Text) (r : Reference) (verified : Dict Text ℕ)
    (found missing : List ReferenceSource)
    → decide_checkpoint state lineage r verified found ≡ ok missing
    → (missing ≡ unmarked state r found) × All (IsVerified state r verified) missing
unfolding decide_checkpoint
missing-IsVerified state lineage r verified found missing done =
    let own = refuse-passed (not (starts_with found r.dataset)) _ done in
    let named = refuse-passed (unproven r found verified) _ own.1 in
    missing_loop-IsVerified state lineage r verified found missing named.1

-- What undoes the sources: the bookmark of each that is there, and the target's hold on its snapshot.
abbrev pub undoing : State → Reference → List ReferenceSource → List Call
undoing state r [] = []
undoing state r (s ∷ found) =
    (if has_object state (source_bookmark r s.dataset)
      then destroy_bookmark (source_bookmark r s.dataset) ∷ []
      else [])
    ++ ((if contains (get_or (source_snapshot r s.dataset) state.holds []) (hold_name r)
          then release (hold_name r) (source_snapshot r s.dataset) ∷ []
          else [])
        ++ undoing state r found)

-- A snapshot that is held is still owned as the reference says.
abbrev pub IsKept : State → Text → Reference → ReferenceSource → Type 0
IsKept state lineage r s =
    contains (get_or (source_snapshot r s.dataset) state.holds []) (hold_name r) ≡ true
    → (snap : Snapshot) × (find_owned state s.dataset (source_snapshot r s.dataset) lineage
        ≡ ok (snap, r.metadata))
      × (snap.guid ≡ s.guid)

is_owned-kept :
    (r : Reference) (s : ReferenceSource) (found : Result LifecycleError (Snapshot × Metadata))
    → is_owned r s found ≡ true
    → (snap : Snapshot) × (found ≡ ok (snap, r.metadata)) × (snap.guid ≡ s.guid)
is_owned-kept r s (err e) good = cc
is_owned-kept r s (ok (snap, m)) good =
    let same : m ≡ r.metadata = ground (arith, good) in
    (snap, ap (λ n. ok (snap, n)) same, ground (arith, good))

pub release_loop-undoing :
    (state : State) (lineage : Text) (r : Reference) (found : List ReferenceSource)
    (calls : List Call)
    → release_loop state lineage r found ≡ ok calls
    → (calls ≡ undoing state r found) × All (IsKept state lineage r) found
unfolding release_loop
release_loop-undoing state lineage r [] calls done = (sym (ok_injective [] calls done), tt)
release_loop-undoing state lineage r (s ∷ found) calls done =
    let owned = find_owned state s.dataset (source_snapshot r s.dataset) lineage in
    let held = source_held state r s in
    let passed = refuse-passed (held && not (is_owned r s owned)) _ done in
    let (rest, later, last) = >>=-eq-ok (release_loop state lineage r found) _ passed.1 in
    let good = release_loop-undoing state lineage r found rest later in
    (
      sym (ok_injective _ calls last)
          ∙ ap
              (λ c.
                (if has_object state (source_bookmark r s.dataset)
                  then destroy_bookmark (source_bookmark r s.dataset) ∷ []
                  else [])
                ++ ((if held then release (hold_name r) (source_snapshot r s.dataset) ∷ [] else [])
                    ++ c))
              good.0,
      (λ is_held. is_owned-kept r s owned (ground (arith, passed.0, is_held)), good.1),
    )
