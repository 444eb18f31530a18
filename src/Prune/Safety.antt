-- ===== src/Prune/Safety.antt =====
-- PlanPrune: what it destroys is proven, the newest snapshot and the oldest of each window stay.
use boomerangz.Base.Sorting.{sort_by}
use boomerangz.Base.{
  Some, ◌≡◌, refl, sym, ap, ◌∙◌, subst, inl, inr, true, false, not, ◌||◌, List, [], ◌∷◌, ◌++◌, map,
  arith, ◌==◌, Bool-cases, Text, text_key, ℕ_key, codes, is_nil, contains,
}
use boomerangz.Base.Result.{ok, ◌>>=◌, refuse, is_ok, >>=-eq-ok, Result-cases}
use boomerangz.Strings.{has_prefix}
use boomerangz.Names.{validate_dataset}
use boomerangz.Grid.{Grid, cadence}
use boomerangz.Ownership.{Snapshot, Metadata, ownership, valid_id}
use boomerangz.Prune.{
  Candidate, Decision, candidate_of, candidate_leb, collect, anchor_from, decide_all, decision_leb,
  newest_from, plan_prune,
}
use boomerangz.Prune.Order.{Some-map, Some-sort_back}
use boomerangz.Prune.Loop.{IsDestroyable, decide_destroys}

-- The candidates of a list of snapshots.
abbrev pub candidates : Text → List Snapshot → List Candidate
candidates lineage ss = map (candidate_of lineage) ss

collect-candidates :
    (dataset lineage : Text) (seen : List Text) (ss : List Snapshot) {items : List Candidate}
    → collect dataset lineage seen ss ≡ ok items
    → items ≡ candidates lineage ss
unfolding collect
collect-candidates dataset lineage seen [] h = cc
collect-candidates dataset lineage seen (s ∷ ss) {items} h =
    elim (Bool-cases (not (has_prefix s.name (dataset ++ codes "@")) || contains seen s.name)) [
      | inl bad ↦ absurd (ground arith)
      | inr fine ↦
          let chained : (collect dataset lineage (s.name ∷ seen) ss >>= λ items.
          ok (candidate_of lineage s ∷ items))
              ≡ ok items =
            ground arith in
          let (rest, more, e) = >>=-eq-ok (collect dataset lineage (s.name ∷ seen) ss) _ chained in
          let same : items ≡ candidate_of lineage s ∷ rest = cc in
          cc (collect-candidates dataset lineage (s.name ∷ seen) ss more)
    ]

-- The decisions of a plan, of all its snapshots.
pub plan_prune-decides :
    (dataset lineage : Text) (grid : Grid) (ss : List Snapshot) {ds : List Decision}
    → plan_prune dataset lineage grid ss ≡ ok ds
    → ds ≡ sort_by decision_leb (decide_all grid.buckets (candidates lineage ss))
unfolding plan_prune
plan_prune-decides dataset lineage grid ss {ds} h =
    let (_, _, h₁) = >>=-eq-ok (refuse (not (is_ok (validate_dataset dataset))) _) _ h in
    let (_, _, h₂) = >>=-eq-ok (refuse (not (valid_id lineage) || cadence grid == 0) _) _ h₁ in
    let (items, collected, done) = >>=-eq-ok (collect dataset lineage [] ss) _ h₂ in
    let decided : ds ≡ sort_by decision_leb (decide_all grid.buckets items) = cc in
    decided
    ∙ ap (λ cs. sort_by decision_leb (decide_all grid.buckets cs))
        (collect-candidates dataset lineage [] ss collected)

-- A decided snapshot, as it was listed.
pub Some-candidates :
    (P : Candidate → Type 0) (lineage : Text) (ss : List Snapshot)
    → Some P (candidates lineage ss)
    → Some (λ s. P (candidate_of lineage s)) ss
Some-candidates P lineage [] h = elim h [ ]
Some-candidates P lineage (s ∷ ss) h = elim h [
  | inl p ↦ inl p
  | inr q ↦ inr (Some-candidates P lineage ss q)
]

pub owned-ownership :
    (lineage : Text) (s : Snapshot)
    → (candidate_of lineage s).owned ≡ true
    → (m : Metadata) × (ownership s lineage ≡ ok m)
      × ((candidate_of lineage s).created ≡ m.created)
      × ((candidate_of lineage s).snapshot ≡ s)
owned-ownership lineage s h = elim (Result-cases (ownership s lineage)) [
  | inl (m, e) ↦ (m, e, ground (arith, e), ground (arith, e))
  | inr (x, e) ↦ absurd (ground (arith, e))
]

nil_of : (xs : List Text) → is_nil xs ≡ true → xs ≡ []
nil_of [] h = refl
nil_of (x ∷ xs) h = cc

-- What a plan may destroy: a snapshot of proven ownership, without a hold, a clone or a receive that
-- needs it, by its name and GUID.
pub record IsExpendable (lineage : Text) (d : Decision) (s : Snapshot) : Type 0 where
  pub metadata : Metadata
  pub owned : ownership s lineage ≡ ok metadata
  pub named : d.snapshot ≡ s.name
  pub guid : d.guid ≡ s.guid
  pub unheld : s.holds ≡ []
  pub uncloned : s.clones ≡ []
  pub not_resumed : s.resume_required ≡ false

destroyable-IsExpendable :
    (lineage : Text) (d : Decision) (s : Snapshot)
    → IsDestroyable (candidate_of lineage s) d
    → IsExpendable lineage d s
destroyable-IsExpendable lineage d s h =
    let (m, owned, created, same) = owned-ownership lineage s h.owned in
    record {
      metadata = m;
      owned = owned;
      named = h.named ∙ ap (λ (k : Snapshot). k.name) same;
      guid = h.guid ∙ ap (λ (k : Snapshot). k.guid) same;
      unheld = nil_of s.holds (sym (ap (λ (k : Snapshot). is_nil k.holds) same) ∙ h.unheld);
      uncloned = nil_of s.clones (sym (ap (λ (k : Snapshot). is_nil k.clones) same) ∙ h.uncloned);
      not_resumed = sym (ap (λ (k : Snapshot). k.resume_required) same) ∙ h.not_resumed;
    }

-- A plan destroys only listed snapshots of proven ownership that no hold, clone or receive needs.
pub plan_prune-IsExpendable :
    (dataset lineage : Text) (grid : Grid) (ss : List Snapshot) (d : Decision) {ds : List Decision}
    → plan_prune dataset lineage grid ss ≡ ok ds
    → Some (λ e. e ≡ d) ds
    → d.destroy ≡ true
    → Some (IsExpendable lineage d) ss
unfolding decide_all
plan_prune-IsExpendable dataset lineage grid ss d h m k =
    let decided =
      Some-sort_back (λ e. e ≡ d) decision_leb (decide_all grid.buckets (candidates lineage ss))
        (subst (Some (λ e. e ≡ d)) (plan_prune-decides dataset lineage grid ss h) m) in
    let sorted = sort_by candidate_leb (candidates lineage ss) in
    let found =
      decide_destroys (anchor_from 0 (candidates lineage ss)) grid.buckets (newest_from 0 sorted) 0
        [] sorted d decided k in
    Some-map (destroyable-IsExpendable lineage d) ss (
      Some-candidates (λ c. IsDestroyable c d) lineage ss
        (Some-sort_back (λ c. IsDestroyable c d) candidate_leb (candidates lineage ss) found))
