-- ===== src/Prune/Kept.antt =====
-- PlanPrune: the newest owned snapshot stays, and the oldest of each window.
use boomerangz.Base.Sorting.{sort_by}
use boomerangz.Base.{
  Some, ℕ, suc, ◌≤◌, ◌≡◌, refl, sym, ap, ◌∙◌, subst, ◌≢◌, ◌⊎◌, inl, inr, true, false, Option, none,
  some, List, [], ◌∷◌, arith, Option-cases, Text, text_key, ℕ_key, All,
}
use boomerangz.Base.Result.{ok}
use boomerangz.Grid.{Grid}
use boomerangz.Ownership.{Snapshot, Metadata, ownership}
use boomerangz.Prune.{
  Candidate, Decision, Window, candidate_of, candidate_leb, anchor_from, decide_all, decision_leb,
  decide, newest_from, plan_prune, place, time_sub,
}
use boomerangz.Prune.Order.{Some-map, Some-sort_by, Some-sort_back, All-at, Rises-sort}
use boomerangz.Prune.Loop.{KeptIn, newest_kept, window_kept}
use boomerangz.Prune.Safety.{candidates, plan_prune-decides, Some-candidates, owned-ownership}

-- A snapshot of proven ownership that was created at a time, and that a plan keeps.
pub record IsKept (lineage : Text) (ds : List Decision) (s : Snapshot) (m : Metadata) : Type 0 where
  pub owned : ownership s lineage ≡ ok m
  pub kept : Some (λ d. (d.snapshot ≡ s.name) × (d.destroy ≡ false)) ds

ownership-owned :
    (lineage : Text) (s : Snapshot) {m : Metadata}
    → ownership s lineage ≡ ok m
    → candidate_of lineage s ≡ record { snapshot = s; created = m.created; owned = true }
ownership-owned lineage s e = ground (arith, e)

Some-listed :
    (P : Candidate → Type 0) (lineage : Text) (ss : List Snapshot)
    → Some (λ s. P (candidate_of lineage s)) ss
    → Some P (candidates lineage ss)
Some-listed P lineage [] h = elim h [ ]
Some-listed P lineage (s ∷ ss) h = elim h [
  | inl p ↦ inl p
  | inr q ↦ inr (Some-listed P lineage ss q)
]

IsKept-snapshot :
    (lineage : Text) (ds : List Decision) (s : Snapshot) {c : Candidate}
    → candidate_of lineage s ≡ c
    → c.owned ≡ true
    → KeptIn c ds
    → (m : Metadata) × (m.created ≡ c.created) × IsKept lineage ds s m
IsKept-snapshot lineage ds s {c} same o k =
    let (m, owned, created, snapshot) =
      owned-ownership lineage s (ap (λ (x : Candidate). x.owned) same ∙ o) in
    let name : c.snapshot.name ≡ s.name =
      ap (λ (x : Candidate). x.snapshot.name) (sym same) ∙ ap (λ (x : Snapshot). x.name) snapshot in
    (
      m,
      sym created ∙ ap (λ (x : Candidate). x.created) same,
      record { owned = owned; kept = Some-map (λ d p. (p.0 ∙ name, p.1)) ds k },
    )

-- The anchor of a plan, the creation time of the newest owned snapshot.
abbrev pub anchor_of : Text → List Snapshot → ℕ
anchor_of lineage ss = anchor_from 0 (candidates lineage ss)

-- The window of a plan that a creation time lies in.
abbrev pub window_at : Text → Grid → List Snapshot → ℕ → Option Window
window_at lineage grid ss created = place (time_sub (anchor_of lineage ss) created) 0 0 grid.buckets

-- Each window with an owned snapshot keeps an owned snapshot that is no younger than it.
pub plan_prune-window :
    (dataset lineage : Text) (grid : Grid) (ss : List Snapshot) (s : Snapshot) (w : Window)
    {m : Metadata} {ds : List Decision}
    → plan_prune dataset lineage grid ss ≡ ok ds
    → Some (λ k. k ≡ s) ss
    → ownership s lineage ≡ ok m
    → window_at lineage grid ss m.created ≡ some w
    → Some
        (λ k.
          (n : Metadata) × (n.created ≤ m.created)
          × (window_at lineage grid ss n.created ≡ some w)
          × IsKept lineage ds k n)
        ss
unfolding decide_all
plan_prune-window dataset lineage grid ss s w {m} {ds} h member owned inside =
    let cs = candidates lineage ss in
    let c = candidate_of lineage s in
    let sorted = sort_by candidate_leb cs in
    let is_c = ownership-owned lineage s owned in
    let created : c.created ≡ m.created = ap (λ (x : Candidate). x.created) is_c in
    let listed : Some (λ k. k ≡ c) cs =
      Some-listed (λ k. k ≡ c) lineage ss
        (Some-map (λ k e. ap (candidate_of lineage) e) ss member) in
    let k =
      window_kept (anchor_from 0 cs) grid.buckets 0 (newest_from 0 sorted) 0 [] sorted c w
        (Rises-sort cs) (Some-sort_by (λ k. k ≡ c) candidate_leb cs listed)
        (ap (λ (x : Candidate). x.owned) is_c)
        (ap (λ t. window_at lineage grid ss t) created ∙ inside) in
    elim k [
      | inl won ↦ absurd (ground (arith, won))
      | inr r ↦
          Some-map
            (λ k same.
              let (n, time, kept) = IsKept-snapshot lineage ds k same r.owned (
                subst (KeptIn r.candidate) (sym (plan_prune-decides dataset lineage grid ss h))
                  (Some-sort_by _ decision_leb _ r.kept)) in
              (
                n,
                omega (arith, time, r.older, created),
                ap (λ t. window_at lineage grid ss t) time ∙ r.inside,
                kept,
              ))
            ss
            (Some-candidates (λ k. k ≡ r.candidate) lineage ss
              (Some-sort_back (λ k. k ≡ r.candidate) candidate_leb cs r.member))
    ]

Some-newest :
    (i : ℕ) (cs : List Candidate)
    → Some (λ (c : Candidate). c.owned ≡ true) cs
    → newest_from i cs ≢ none
unfolding newest_from
Some-newest i [] h e = elim h [ ]
Some-newest i (c ∷ cs) h e = elim h [
  | inl o ↦ elim (Option-cases (newest_from (suc i) cs)) [
    | inl nothing ↦ ground (arith, o)
    | inr (n, found) ↦ ground (arith, found)
  ]
  | inr later ↦ Some-newest (suc i) cs later (ground arith)
]

All-of :
    {A : Type 0} (P : A → Type 0) (xs : List A) → ((x : A) → Some (λ y. y ≡ x) xs → P x) → All P xs
All-of P [] f = tt
All-of P (x ∷ xs) f = (f x (inl refl), All-of P xs (λ y m. f y (inr m)))

-- A snapshot that is not owned, or was created by then.
abbrev pub IsNoYounger : Text → ℕ → Snapshot → Type 0
IsNoYounger lineage time s =
    ((candidate_of lineage s).owned ≡ false) ⊎ ((candidate_of lineage s).created ≤ time)

-- An owned snapshot stays that no owned snapshot is younger than, if any snapshot is owned.
pub plan_prune-newest :
    (dataset lineage : Text) (grid : Grid) (ss : List Snapshot) {ds : List Decision}
    → plan_prune dataset lineage grid ss ≡ ok ds
    → Some (λ s. (candidate_of lineage s).owned ≡ true) ss
    → Some (λ k. (n : Metadata) × IsKept lineage ds k n × All (IsNoYounger lineage n.created) ss) ss
unfolding decide_all
plan_prune-newest dataset lineage grid ss {ds} h some_owned =
    let cs = candidates lineage ss in
    let sorted = sort_by candidate_leb cs in
    let Owned : Candidate → Type 0 = λ c. c.owned ≡ true in
    let owned : Some Owned sorted =
      Some-sort_by Owned candidate_leb cs (Some-listed Owned lineage ss some_owned) in
    elim (Option-cases (newest_from 0 sorted)) [
      | inl nothing ↦ absurd (Some-newest 0 sorted owned nothing)
      | inr (n, found) ↦
          let r =
            newest_kept (anchor_from 0 cs) grid.buckets 0 0 n [] sorted (Rises-sort cs) found in
          let decided : KeptIn r.candidate (decide_all grid.buckets cs) =
            subst (λ l. KeptIn r.candidate (decide (anchor_from 0 cs) grid.buckets l 0 [] sorted))
              (sym found) r.kept in
          Some-map
            (λ k same.
              let (m, time, kept) = IsKept-snapshot lineage ds k same r.owned (
                subst (KeptIn r.candidate) (sym (plan_prune-decides dataset lineage grid ss h))
                  (Some-sort_by _ decision_leb _ decided)) in
              (
                m,
                kept,
                All-of (IsNoYounger lineage m.created) ss (λ s member.
                    subst (λ t. IsNoYounger lineage t s) (sym time)
                      (All-at
                        (λ (c : Candidate). (c.owned ≡ false) ⊎ (c.created ≤ r.candidate.created))
                        sorted
                        (Some-sort_by (λ c. c ≡ candidate_of lineage s) candidate_leb cs
                          (Some-listed _ lineage ss
                            (Some-map (λ k e. ap (candidate_of lineage) e) ss member)))
                        r.newest)),
              ))
            ss
            (Some-candidates (λ k. k ≡ r.candidate) lineage ss
              (Some-sort_back (λ k. k ≡ r.candidate) candidate_leb cs r.member))
    ]
