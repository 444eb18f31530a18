-- ===== src/Prune/Order.antt =====
-- Pruning: what sorting keeps, and the order of the creation times.
use boomerangz.Base.Sorting.{insert_by, sort_by}
use boomerangz.Base.{
  Some, ℕ, ◌≤◌, ◌≡◌, subst, ◌⊎◌, inl, inr, Bool, List, [], ◌∷◌, arith, if◌then◌else◌, Bool-cases,
  text_key, ℕ_key, All,
}
use boomerangz.Prune.{Candidate, candidate_leb}

pub Some-map :
    {A : Type 0} {P Q : A → Type 0} (f : (x : A) → P x → Q x) (xs : List A) → Some P xs → Some Q xs
Some-map f [] h = elim h [ ]
Some-map f (x ∷ xs) h = elim h [ inl p ↦ inl (f x p) | inr q ↦ inr (Some-map f xs q) ]

pub All-at :
    {A : Type 0} (P : A → Type 0) {a : A} (xs : List A) → Some (λ x. x ≡ a) xs → All P xs → P a
All-at P [] h k = elim h [ ]
All-at P (x ∷ xs) h k = elim h [ inl e ↦ subst P e k.0 | inr q ↦ All-at P xs q k.1 ]

module _ {A : Type 0} (P : A → Type 0) (le : A → A → Bool) where
  Some-insert_by : (x : A) (xs : List A) → P x ⊎ Some P xs → Some P (insert_by le x xs)
  Some-insert_by x [] h = h
  Some-insert_by x (y ∷ ys) h = elim (Bool-cases (le x y)) [
    | inl here ↦ rw here h
    | inr later ↦ rw later (elim h [
      | inl p ↦ inr (Some-insert_by x ys (inl p))
      | inr (inl q) ↦ inl q
      | inr (inr r) ↦ inr (Some-insert_by x ys (inr r))
    ])
  ]

  pub Some-sort_by : (xs : List A) → Some P xs → Some P (sort_by le xs)
  unfolding sort_by
  Some-sort_by [] h = elim h [ ]
  Some-sort_by (x ∷ xs) h =
      Some-insert_by x (sort_by le xs) (elim h [ inl p ↦ inl p | inr q ↦ inr (Some-sort_by xs q) ])

  Some-insert_back : (x : A) (xs : List A) → Some P (insert_by le x xs) → P x ⊎ Some P xs
  Some-insert_back x [] h = h
  Some-insert_back x (y ∷ ys) h = elim (Bool-cases (le x y)) [
    | inl here ↦ subst (λ b. Some P (if b then x ∷ y ∷ ys else y ∷ insert_by le x ys)) here h
    | inr later ↦
        elim (subst (λ b. Some P (if b then x ∷ y ∷ ys else y ∷ insert_by le x ys)) later h) [
          | inl q ↦ inr (inl q)
          | inr r ↦ elim (Some-insert_back x ys r) [ inl p ↦ inl p | inr s ↦ inr (inr s) ]
        ]
  ]

  pub Some-sort_back : (xs : List A) → Some P (sort_by le xs) → Some P xs
  unfolding sort_by
  Some-sort_back [] h = elim h [ ]
  Some-sort_back (x ∷ xs) h = elim (Some-insert_back x (sort_by le xs) h) [
    | inl p ↦ inl p
    | inr q ↦ inr (Some-sort_back xs q)
  ]

-- The creation times rise.
abbrev pub RisesFrom : ℕ → List Candidate → Type 0
RisesFrom lo [] = Unit
RisesFrom lo (c ∷ cs) = (lo ≤ c.created) × RisesFrom c.created cs

Rises-insert :
    (lo : ℕ) (c : Candidate) (cs : List Candidate)
    → lo ≤ c.created
    → RisesFrom lo cs
    → RisesFrom lo (insert_by candidate_leb c cs)
Rises-insert lo c [] h k = (h, tt)
Rises-insert lo c (d ∷ ds) h k = ground (arith, Rises-insert d.created c ds)

pub Rises-sort : (cs : List Candidate) → RisesFrom 0 (sort_by candidate_leb cs)
unfolding sort_by
Rises-sort [] = tt
Rises-sort (c ∷ cs) = Rises-insert 0 c (sort_by candidate_leb cs) (omega arith) (Rises-sort cs)

pub Rises-later :
    (lo : ℕ) (cs : List Candidate) → RisesFrom lo cs → All (λ (c : Candidate). lo ≤ c.created) cs
Rises-later lo [] h = tt
Rises-later lo (c ∷ cs) h = (h.0, later cs (Rises-later c.created cs h.1))
  where
    later :
        (ds : List Candidate)
        → All (λ (d : Candidate). c.created ≤ d.created) ds
        → All (λ (d : Candidate). lo ≤ d.created) ds
    later [] k = tt
    later (d ∷ ds) k = (omega (arith, h.0, k.0), later ds k.1)
