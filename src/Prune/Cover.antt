-- ===== src/Prune/Cover.antt =====
-- PlanPrune decides every snapshot once, and SnapshotDue reads its anchor.
use boomerangz.Base.Sorting.{insert_by, sort_by}
use boomerangz.Base.{
  ℕ, suc, ◌≡◌, refl, sym, ap, ◌∙◌, subst, inl, inr, Bool, not, ◌&&◌, ◌||◌, Option, List, [], ◌∷◌,
  map, arith, ltb, ◌==◌, if◌then◌else◌, Bool-cases, Text, text_key, ℕ_key,
}
use mathlib.Core.List.{Perm, Permᴰ}
use mathlib.Core.List.Permᴰ
use boomerangz.Base.Result.{ok, refuse, is_ok, >>=-eq-ok}
use boomerangz.Names.{validate_dataset}
use boomerangz.Grid.{Bucket, Grid, cadence}
use boomerangz.Ownership.{Snapshot, valid_id}
use boomerangz.Prune.{
  Candidate, Decision, Window, candidate_of, candidate_leb, anchor_from, decide_all, decision_leb,
  decide, newest_from, plan_prune, newest_created, snapshot_due, time_sub, judge, is_at,
}
use boomerangz.Prune.Safety.{candidates, plan_prune-decides}
use boomerangz.Prune.Kept.{anchor_of}

module _ {A B : Type 0} (le : A → A → Bool) (f : A → B) where
  insert-Perm : (x : A) (xs : List A) → Permᴰ (map f (insert_by le x xs)) (f x ∷ map f xs)
  insert-Perm x [] = Permᴰ.refl (f x ∷ [])
  insert-Perm x (y ∷ ys) = elim (Bool-cases (le x y)) [
    | inl here ↦ rw here (Permᴰ.refl (f x ∷ f y ∷ map f ys))
    | inr later ↦
        rw later
          (Permᴰ.trans (Permᴰ.cons refl (insert-Perm x ys)) (Permᴰ.swap {l = map f ys} refl refl))
  ]

  sort-Perm : (xs : List A) → Permᴰ (map f (sort_by le xs)) (map f xs)
  unfolding sort_by
  sort-Perm [] = Permᴰ.nil
  sort-Perm (x ∷ xs) = Permᴰ.trans (insert-Perm x (sort_by le xs)) (Permᴰ.cons refl (sort-Perm xs))

-- The names and GUIDs of decisions and of snapshots.
abbrev pub decided : Decision → Text × ℕ
decided d = (d.snapshot, d.guid)

abbrev pub listed : Snapshot → Text × ℕ
listed s = (s.name, s.guid)

decide-names :
    (anchor : ℕ) (buckets : List Bucket) (last : Option ℕ) (i : ℕ) (winners : List Window)
    (cs : List Candidate)
    → map decided (decide anchor buckets last i winners cs)
      ≡ map (λ (c : Candidate). listed c.snapshot) cs
unfolding decide
decide-names anchor buckets last i winners [] = refl
decide-names anchor buckets last i winners (c ∷ cs) =
    ap (λ ns. listed c.snapshot ∷ ns)
      (decide-names anchor buckets last (suc i) (judge anchor buckets (is_at last i) winners c).1
        cs)

candidate-snapshot : (lineage : Text) (s : Snapshot) → (candidate_of lineage s).snapshot ≡ s
candidate-snapshot lineage s = ground arith

candidates-names :
    (lineage : Text) (ss : List Snapshot)
    → map (λ (c : Candidate). listed c.snapshot) (candidates lineage ss) ≡ map listed ss
candidates-names lineage [] = refl
candidates-names lineage (s ∷ ss) =
    cc (ap listed (candidate-snapshot lineage s), candidates-names lineage ss)

-- A plan decides every listed snapshot once, under its name and GUID, and no other.
pub plan_prune-Perm :
    (dataset lineage : Text) (grid : Grid) (ss : List Snapshot) {ds : List Decision}
    → plan_prune dataset lineage grid ss ≡ ok ds
    → Perm (map decided ds) (map listed ss)
unfolding decide_all
plan_prune-Perm dataset lineage grid ss h =
    let cs = candidates lineage ss in
    let sorted = sort_by candidate_leb cs in
    let decisions = decide_all grid.buckets cs in
    let names : map decided decisions ≡ map (λ (c : Candidate). listed c.snapshot) sorted =
      decide-names (anchor_from 0 cs) grid.buckets (newest_from 0 sorted) 0 [] sorted in
    subst (λ ns. Perm ns (map listed ss))
      (sym (ap (map decided) (plan_prune-decides dataset lineage grid ss h)))
      ∣ Permᴰ.trans (sort-Perm decision_leb decided decisions) (
        subst (λ ns. Permᴰ ns (map listed ss)) (sym names)
          (subst (λ ns. Permᴰ (map (λ (c : Candidate). listed c.snapshot) sorted) ns)
            (candidates-names lineage ss)
            (sort-Perm candidate_leb (λ (c : Candidate). listed c.snapshot) cs))) ∣₁

newest_created-anchor :
    (dataset lineage : Text) (newest : ℕ) (ss : List Snapshot) {t : ℕ}
    → newest_created dataset lineage newest ss ≡ ok t
    → t ≡ anchor_from newest (candidates lineage ss)
unfolding newest_created anchor_from
newest_created-anchor dataset lineage newest [] h = cc
newest_created-anchor dataset lineage newest (s ∷ ss) {t} h =
    newest_created-anchor dataset lineage
      (if (candidate_of lineage s).owned && ltb newest (candidate_of lineage s).created
        then (candidate_of lineage s).created
        else newest)
      ss (ground arith)

-- A snapshot is due exactly when the plan has no anchor, or its anchor is older than the cadence.
pub snapshot_due-anchor :
    (now : ℕ) (dataset lineage : Text) (grid : Grid) (ss : List Snapshot) {due : Bool}
    → snapshot_due now dataset lineage grid ss ≡ ok due
    → due ≡ (anchor_of lineage ss == 0 || ltb (cadence grid) (time_sub now (anchor_of lineage ss)))
unfolding snapshot_due
snapshot_due-anchor now dataset lineage grid ss {due} h =
    let (_, _, h₁) = >>=-eq-ok (refuse (not (is_ok (validate_dataset dataset))) _) _ h in
    let (_, _, h₂) =
      >>=-eq-ok (refuse (not (valid_id lineage) || cadence grid == 0 || now == 0) _) _ h₁ in
    let (t, found, done) = >>=-eq-ok (newest_created dataset lineage 0 ss) _ h₂ in
    let same : due ≡ (t == 0 || ltb (cadence grid) (time_sub now t)) = ground arith in
    same
    ∙ ap (λ t. t == 0 || ltb (cadence grid) (time_sub now t))
        (newest_created-anchor dataset lineage 0 ss found)
