-- ===== src/Transfer/Build/Chosen.antt =====
-- internal/transfer/plan.go: what the choice of endpoint, mode and base guarantees.
use boomerangz.Base.{
  Some, ◌≤◌, ◌≡◌, subst, ◌⊎◌, inl, inr, Bool, true, ◌&&◌, Option, none, some, List, [], ◌∷◌, arith,
  ltb, Bool-cases, Text, text_key, ℕ_key, All,
}
use boomerangz.Base.Result.{Result, ok, err, is_ok, >>=-eq-ok}
use boomerangz.Prune.Order.{Some-map}
use boomerangz.Lifecycle.{Object, State}
use boomerangz.Transfer.{Member, TransferError, no_snapshot}
use boomerangz.Transfer.Choice.{owned, is_endpoint, txg_of, newer, endpoint_loop, choose_endpoint}

-- An owned snapshot that the stream may end with.
abbrev pub IsCandidate : State → Text → Member → Object → Type 0
IsCandidate state lineage m o = (is_endpoint m o ≡ true) × (is_ok (owned state o lineage) ≡ true)

abbrev is_candidate : State → Text → Member → Object → Bool
is_candidate state lineage m o = is_endpoint m o && is_ok (owned state o lineage)

-- The best of the objects so far is the newest of those that pass.
abbrev IsBest : (Object → Bool) → List Object → Option Object → Option Object → Type 0
IsBest passes objects start best =
    (txg_of start ≤ txg_of best)
    × All (λ o. passes o ≡ true → o.create_txg ≤ txg_of best) objects
    × ((best ≡ start) ⊎ Some (λ o. (best ≡ some o) × (passes o ≡ true)) objects)

endpoint_loop-IsBest :
    (state : State) (lineage : Text) (m : Member) (objects : List Object)
    (start best : Option Object)
    → endpoint_loop state lineage m objects start ≡ ok best
    → IsBest (is_candidate state lineage m) objects start best
unfolding endpoint_loop
endpoint_loop-IsBest state lineage m [] start best done = (ground arith, tt, inl (ground arith))
endpoint_loop-IsBest state lineage m (o ∷ objects) start best done =
    elim (Bool-cases (is_candidate state lineage m o)) [
      | inr other ↦
          let rest = endpoint_loop-IsBest state lineage m objects start best (ground arith) in
          (
            rest.0,
            (λ passes. absurd (ground arith), rest.1),
            elim rest.2 [ inl same ↦ inl same | inr later ↦ inr (inr later) ],
          )
      | inl passes ↦
          let rest =
            endpoint_loop-IsBest state lineage m objects (newer o start) best (ground arith) in
          (
            ground (arith, rest.0),
            (λ again. ground (arith, rest.0), rest.1),
            elim (Bool-cases (ltb (txg_of start) o.create_txg)) [
              | inl new ↦ elim rest.2 [
                | inl same ↦ inr (inl (ground arith, passes))
                | inr later ↦ inr (inr later)
              ]
              | inr old ↦ elim rest.2 [
                | inl same ↦ inl (ground arith)
                | inr later ↦ inr (inr later)
              ]
            ],
          )
    ]

-- The endpoint that is chosen is a snapshot of the stream's dataset, the pinned one where one is
-- pinned, that is proven to be of the root's lineage; and no such snapshot is of a later
-- transaction.
pub choose_endpoint_lem :
    (state : State) (lineage : Text) (m : Member) (endpoint : Object)
    → choose_endpoint state lineage m ≡ ok endpoint
    → Some (λ o. o ≡ endpoint) state.objects
      × IsCandidate state lineage m endpoint
      × All (λ o. IsCandidate state lineage m o → o.create_txg ≤ endpoint.create_txg) state.objects
unfolding choose_endpoint
choose_endpoint_lem state lineage m endpoint done =
    let (best, found, chosen) =
      >>=-eq-ok (endpoint_loop state lineage m state.objects none) _ done in
    let good = endpoint_loop-IsBest state lineage m state.objects none best found in
    by_best best chosen good
  where
    weaken :
        (objects : List Object)
        → All
            (λ o. is_candidate state lineage m o ≡ true → o.create_txg ≤ endpoint.create_txg)
            objects
        → All (λ o. IsCandidate state lineage m o → o.create_txg ≤ endpoint.create_txg) objects
    weaken [] all = tt
    weaken (o ∷ objects) all = (λ c. all.0 (ground (arith, c.0, c.1)), weaken objects all.1)

    by_best :
        (best : Option Object)
        → (let r : Result TransferError Object = elim best [
          | none ↦ err no_snapshot
          | some o ↦ ok o
        ] in
            r)
          ≡ ok endpoint
        → IsBest (is_candidate state lineage m) state.objects none best
        → Some (λ o. o ≡ endpoint) state.objects
          × IsCandidate state lineage m endpoint
          × All
              (λ o. IsCandidate state lineage m o → o.create_txg ≤ endpoint.create_txg)
              state.objects
    by_best none chosen good = cc
    by_best (some o) chosen good =
        let same : o ≡ endpoint = ground arith in
        elim good.2 [
          | inl nothing ↦ absurd (ground arith)
          | inr there ↦ (
            Some-map (λ q p. ground (arith, p.0, same)) state.objects there,
            passed state.objects o same there,
            weaken state.objects (
                subst
                  (λ e.
                    All (λ q. is_candidate state lineage m q ≡ true → q.create_txg ≤ e.create_txg)
                      state.objects)
                  same good.1),
          )
        ]
      where
        passed :
            (objects : List Object) (o : Object)
            → o ≡ endpoint
            → Some (λ q. (some o ≡ some q) × (is_candidate state lineage m q ≡ true)) objects
            → IsCandidate state lineage m endpoint
        passed [] o same there = elim there [ ]
        passed (q ∷ objects) o same (inl p) =
            let here : q ≡ endpoint = ground (arith, p.0, same) in
            subst (IsCandidate state lineage m) here (ground (arith, p.1), ground (arith, p.1))
        passed (q ∷ objects) o same (inr later) = passed objects o same later
