-- ===== src/Queue/Weights.antt =====
-- Sums over the pending jobs: of all of them, and of those with one identity.
use boomerangz.Base.{
  ℕ, ◌+◌, ◌≡◌, refl, List, [], ◌∷◌, ◌++◌, arith, if◌then◌else◌, Text, text_key, ℕ_key, ◌=?◌,
  IsNodup,
}
use boomerangz.Base.Dict.{Dict, insert, delete, keys, lookup-absent, delete-absent}
use boomerangz.Jobs.{Job}
use boomerangz.Queue.{jobs_of}

module _ {W : Type 0} where
  abbrev pub weigh_jobs : (Job W → ℕ) → List (Job W) → ℕ
  weigh_jobs f [] = 0
  weigh_jobs f (j ∷ js) = f j + weigh_jobs f js

  abbrev pub weigh : (Job W → ℕ) → Dict Text (List (Job W)) → ℕ
  weigh f [] = 0
  weigh f ((g, js) ∷ m) = weigh_jobs f js + weigh f m

  -- One for a job with the identity, and one for every job.
  abbrev pub named : Text → Job W → ℕ
  named x j = if j.id =? x then 1 else 0

  abbrev pub each : Job W → ℕ
  each j = 1

module _ {W : Type 0} (f : Job W → ℕ) where
  pub weigh_jobs-append :
      (xs ys : List (Job W)) → weigh_jobs f (xs ++ ys) ≡ weigh_jobs f xs + weigh_jobs f ys
  weigh_jobs-append [] ys = omega arith
  weigh_jobs-append (x ∷ xs) ys = omega (arith, weigh_jobs-append xs ys)

  pub weigh-insert :
      (g : Text) (js : List (Job W)) (m : Dict Text (List (Job W)))
      → weigh f (insert g js m) + weigh_jobs f (jobs_of g m) ≡ weigh f m + weigh_jobs f js
  weigh-insert g js [] = omega arith
  weigh-insert g js ((h, ks) ∷ m) = ground (arith, weigh-insert g js m)

  pub weigh-delete :
      (g : Text) (m : Dict Text (List (Job W)))
      → IsNodup (keys m)
      → weigh f (delete g m) + weigh_jobs f (jobs_of g m) ≡ weigh f m
  weigh-delete g [] n = refl
  weigh-delete g ((k, js) ∷ m) n =
      ground (arith, weigh-delete g m n.1, delete-absent g m, lookup-absent g m)
