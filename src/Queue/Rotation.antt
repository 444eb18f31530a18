-- ===== src/Queue/Rotation.antt =====
-- The abstract queue: groups that wait in turn, each with its jobs.
use boomerangz.Base.{
  ℕ, zero, suc, not, Option, none, some, List, [], ◌∷◌, ◌++◌, if◌then◌else◌, Text, text_key, ℕ_key,
  ◌=?◌, is_nil, keep,
}
use boomerangz.Jobs.{Job}

abbrev pub Turn : Type 0 → Type 0
Turn W = Text × List (Job W)

module _ {W : Type 0} where
  -- The first group gives its first job, and goes to the end while it has another.
  abbrev pub rotate : Text → List (Job W) → List (Turn W) → List (Turn W)
  rotate g [] r = r
  rotate g (j ∷ js) r = r ++ (g, j ∷ js) ∷ []

  abbrev pub rotation_pop : List (Turn W) → Option (Job W × List (Turn W))
  rotation_pop [] = none
  rotation_pop ((g, []) ∷ r) = none
  rotation_pop ((g, j ∷ js) ∷ r) = some (j, rotate g js r)

  -- A job joins its group, which comes last if it is new.
  abbrev pub rotation_offer : Job W → List (Turn W) → List (Turn W)
  rotation_offer job [] = (job.group, job ∷ []) ∷ []
  rotation_offer job ((g, js) ∷ r) =
      let rest = rotation_offer job r in
      if g =? job.group then (g, js ++ job ∷ []) ∷ r else (g, js) ∷ rest

  -- The jobs of a scope leave, and so do the groups that lose all of theirs.
  abbrev pub rotation_remove : Text → List (Turn W) → List (Turn W)
  rotation_remove scope [] = []
  rotation_remove scope ((g, js) ∷ r) =
      let rest = rotation_remove scope r in
      let kept = keep (λ (j : Job W). not (j.scope =? scope)) js in
      if is_nil kept then rest else (g, kept) ∷ rest

  -- The jobs in the order in which `n` pops give them.
  unfoldable pub rotation_jobs : ℕ → List (Turn W) → List (Job W)
  rotation_jobs zero r = []
  rotation_jobs (suc n) r = elim (rotation_pop r) [
    | none ↦ []
    | some (j, r') ↦ j ∷ rotation_jobs n r'
  ]
