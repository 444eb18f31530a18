-- ===== src/Transfer/Build/Modes.antt =====
-- internal/transfer/plan.go: what the mode of a plan and its base say of the destination.
use boomerangz.Base.{
  Some, ℕ, ◌≤◌, ◌<◌, ◌≡◌, refl, sym, subst, ◌⊎◌, inl, inr, Bool, true, false, ◌&&◌, Option, none,
  some, List, [], ◌∷◌, arith, ltb, Bool-cases, Option-cases, Text, text_key, ℕ_key, ◌=?◌, codes,
  All,
}
use boomerangz.Base.Result.{Result, ok, err, is_ok, ◌>>=◌, ◌>>◌, >>=-eq-ok, ok_injective}
use boomerangz.Base.Dict.{Dict, lookup}
use boomerangz.Prune.Order.{Some-map}
use boomerangz.Lifecycle.{Object, State, is_snapshot, is_bookmark}
use boomerangz.References.{
  Reference, ReferenceError, Codec, source_bookmark, reference_records, target_id,
}
use boomerangz.Transfer.{
  Request, TransferError, no_common_base, of_references, dataset_of, can_resume_from_bookmark,
}
use boomerangz.Transfer.Plan.{View, Settled, objects_of}
use boomerangz.Transfer.Choice.{
  Mode, up_to_date, full, incremental_latest, incremental_all, owned, txg_of, newer, latest_loop,
  is_base, base_loop, is_base_bookmark, bookmark_loop, choose_base, choose_increment, mode_of,
  check_parent, choose_mode,
}

abbrev pub is_received : Text → Object → Bool
is_received target o = is_snapshot o.kind && dataset_of o.name =? target

-- The newest snapshot of the stream's dataset at the destination.
abbrev pub IsLatest : Text → List Object → Object → Type 0
IsLatest target objects latest =
    Some (λ o. (o ≡ latest) × (is_received target o ≡ true)) objects
    × All (λ o. is_received target o ≡ true → o.create_txg ≤ latest.create_txg) objects

abbrev Latest : Text → List Object → Option Object → Option Object → Type 0
Latest target objects start latest =
    (txg_of start ≤ txg_of latest)
    × All (λ o. is_received target o ≡ true → o.create_txg ≤ txg_of latest) objects
    × ((latest ≡ start) ⊎ Some (λ o. (latest ≡ some o) × (is_received target o ≡ true)) objects)

latest_loop-Latest :
    (target : Text) (objects : List Object) (start latest : Option Object)
    → latest_loop target objects start ≡ latest
    → Latest target objects start latest
unfolding latest_loop
latest_loop-Latest target [] start latest done = (ground arith, tt, inl (sym done))
latest_loop-Latest target (o ∷ objects) start latest done =
    elim (Bool-cases (is_received target o)) [
      | inr other ↦
          let rest = latest_loop-Latest target objects start latest (ground arith) in
          (
            rest.0,
            (λ passes. absurd (ground arith), rest.1),
            elim rest.2 [ inl same ↦ inl same | inr later ↦ inr (inr later) ],
          )
      | inl passes ↦
          let rest = latest_loop-Latest target objects (newer o start) latest (ground arith) in
          (
            ground (arith, rest.0),
            (λ again. ground (arith, rest.0), rest.1),
            elim rest.2 [
              | inr later ↦ inr (inr later)
              | inl same ↦ elim (Bool-cases (ltb (txg_of start) o.create_txg)) [
                | inl new ↦ inr (inl (ground arith, passes))
                | inr old ↦ inl (ground arith)
              ]
            ],
          )
    ]

-- The base is the source's own, owned, or the bookmark of a stored proof of the stream and target.
abbrev pub OfSnapshot : View → Settled → Object → Type 0
OfSnapshot view st b =
    (is_snapshot b.kind ≡ true)
    × (dataset_of b.name ≡ st.scope.member.dataset)
    × (is_ok (owned view.source b st.lineage) ≡ true)
    × Some (λ o. o ≡ b) view.source.objects

base_loop-found :
    (state : State) (lineage dataset : Text) (guid limit : ℕ) (objects : List Object) (b : Object)
    → base_loop state lineage dataset guid limit objects ≡ some b
    → (is_base state lineage dataset guid limit b ≡ true) × Some (λ o. o ≡ b) objects
unfolding base_loop
base_loop-found state lineage dataset guid limit [] b found = cc
base_loop-found state lineage dataset guid limit (o ∷ objects) b found =
    elim (Bool-cases (is_base state lineage dataset guid limit o)) [
      | inl passes ↦
          let same : o ≡ b = ground arith in
          (subst (λ q. is_base state lineage dataset guid limit q ≡ true) same passes, inl same)
      | inr other ↦
          let rest = base_loop-found state lineage dataset guid limit objects b (ground arith) in
          (rest.0, inr rest.1)
    ]

bookmark_loop-found :
    (objects : Dict Text Object) (target dataset : Text) (guid limit : ℕ) (refs : List Reference)
    (b : Object)
    → bookmark_loop objects target dataset guid limit refs ≡ some b
    → (is_base_bookmark guid limit b ≡ true)
      × Some
          (λ (r : Reference).
            (r.target_id ≡ target)
            × (r.dataset ≡ dataset)
            × (lookup (source_bookmark r r.dataset) objects ≡ some b))
          refs
unfolding bookmark_loop
bookmark_loop-found objects target dataset guid limit [] b found = cc
bookmark_loop-found objects target dataset guid limit (r ∷ refs) b found =
    elim (Option-cases (lookup (source_bookmark r r.dataset) objects)) [
      | inl missing ↦
          let rest = bookmark_loop-found objects target dataset guid limit refs b (ground arith) in
          (rest.0, inr rest.1)
      | inr (o, there) ↦
          elim (Bool-cases
            (r.target_id =? target && r.dataset =? dataset && is_base_bookmark guid limit o)) [
              | inl passes ↦
                  let same : o ≡ b = ground arith in
                  (
                    subst (λ q. is_base_bookmark guid limit q ≡ true) same (ground arith),
                    inl (ground arith, ground arith, ground arith),
                  )
              | inr other ↦
                  let rest =
                    bookmark_loop-found objects target dataset guid limit refs b (ground arith) in
                  (rest.0, inr rest.1)
            ]
    ]

of_references-ok :
    (refs : List Reference) (found : Result ReferenceError (List Reference))
    → of_references found ≡ ok refs
    → found ≡ ok refs
of_references-ok refs (err e) same = absurd (ground arith)
of_references-ok refs (ok other) same = ground arith

IsLatest-found :
    (target : Text) (objects : List Object) (latest : Object)
    → Latest target objects none (some latest)
    → IsLatest target objects latest
IsLatest-found target objects latest good = elim good.2 [
  | inl nothing ↦ absurd (ground arith)
  | inr there ↦ (Some-map (λ o p. (ground (arith, p.0), p.1)) objects there, good.1)
]

module _ (sha256 : Text → List ℕ) (codec : Codec) where
  abbrev pub OfBookmark : Request → View → Settled → Object → Type 0
  OfBookmark r view st b =
      (is_bookmark b.kind ≡ true)
      × (can_resume_from_bookmark st.policy ≡ true)
      × ((refs : List Reference) × (reference_records sha256 codec view.source r.source st.lineage
            ≡ ok refs)
          × Some
              (λ (q : Reference).
                (q.target_id ≡ target_id sha256 codec st.binding.canonical_target)
                × (q.dataset ≡ st.scope.member.dataset)
                × (lookup (source_bookmark q q.dataset) (objects_of view.source) ≡ some b))
              refs)

  -- The destination's newest snapshot is also at the source, before the endpoint.
  abbrev pub IsCommonBase : Request → View → Settled → Object → Object → Type 0
  IsCommonBase r view st endpoint b =
      ((latest : Object) × IsLatest st.scope.target view.destination.objects latest
        × (b.guid ≡ latest.guid))
      × (b.create_txg < endpoint.create_txg)
      × (OfSnapshot view st b ⊎ OfBookmark r view st b)

  abbrev pub Fits : Request → View → Settled → Object → Bool → Mode → Option Object → Type 0
  Fits r view st endpoint already up_to_date base = (already ≡ true) × (base ≡ none)
  Fits r view st endpoint already full base =
      (already ≡ false) × (view.destination_exists ≡ false) × (base ≡ none)
  Fits r view st endpoint already incremental_latest base =
      (already ≡ false)
      × (view.destination_exists ≡ true)
      × ((b : Object) × (base ≡ some b) × IsCommonBase r view st endpoint b)
  Fits r view st endpoint already incremental_all base =
      (already ≡ false)
      × (view.destination_exists ≡ true)
      × (st.policy.incremental ≡ codes "all")
      × ((b : Object) × (base ≡ some b) × IsCommonBase r view st endpoint b)

  choose_base-found :
      (r : Request) (view : View) (st : Settled) (endpoint latest b : Object)
      → choose_base sha256 codec r view st endpoint latest ≡ ok b
      → (b.guid ≡ latest.guid)
        × (b.create_txg < endpoint.create_txg)
        × (OfSnapshot view st b ⊎ OfBookmark r view st b)
  unfolding choose_base
  choose_base-found r view st endpoint latest b done =
      elim (Option-cases (
        base_loop view.source st.lineage st.scope.member.dataset latest.guid endpoint.create_txg
          view.source.objects)) [
            | inr (o, found) ↦
                let good =
                  base_loop-found view.source st.lineage st.scope.member.dataset latest.guid
                    endpoint.create_txg view.source.objects b (ground arith) in
                (
                  ground (arith, good.0),
                  ground (arith, good.0),
                  inl (
                    ground (arith, good.0),
                    ground (arith, good.0),
                    ground (arith, good.0),
                    good.1,
                  ),
                )
            | inl missing ↦ by_bookmark missing (ground arith) (ground arith)
          ]
    where
      by_bookmark :
          base_loop view.source st.lineage st.scope.member.dataset latest.guid endpoint.create_txg
              view.source.objects
            ≡ none
          → can_resume_from_bookmark st.policy ≡ true
          → (of_references (reference_records sha256 codec view.source r.source st.lineage)
              >>= λ refs.
                  elim (bookmark_loop
                    (objects_of view.source)
                    (target_id sha256 codec st.binding.canonical_target)
                    st.scope.member.dataset
                    latest.guid
                    endpoint.create_txg
                    refs) [ none ↦ err no_common_base | some o ↦ ok o ])
            ≡ ok b
          → (b.guid ≡ latest.guid)
            × (b.create_txg < endpoint.create_txg)
            × (OfSnapshot view st b ⊎ OfBookmark r view st b)
      by_bookmark missing resumes chain =
          let (refs, stored, last) =
            >>=-eq-ok
              (of_references (reference_records sha256 codec view.source r.source st.lineage)) _
              chain in
          let good =
            bookmark_loop-found (objects_of view.source)
              (target_id sha256 codec st.binding.canonical_target) st.scope.member.dataset
              latest.guid endpoint.create_txg refs b (ground arith) in
          (
            ground (arith, good.0),
            ground (arith, good.0),
            inr (ground (arith, good.0), resumes, (refs, of_references-ok refs _ stored, good.1)),
          )

  -- The increment, from what the destination has.
  choose_increment-IsCommonBase :
      (r : Request) (view : View) (st : Settled) (endpoint base : Object)
      → choose_increment sha256 codec r view st endpoint ≡ ok base
      → IsCommonBase r view st endpoint base
  unfolding choose_increment
  choose_increment-IsCommonBase r view st endpoint base done =
      elim (Option-cases (latest_loop st.scope.target view.destination.objects none)) [
        | inl nothing ↦ absurd (ground arith)
        | inr (l, newest) ↦
            let good = choose_base-found r view st endpoint l base (ground arith) in
            (
              (
                l,
                IsLatest-found st.scope.target view.destination.objects l (
                    latest_loop-Latest st.scope.target view.destination.objects none (some l)
                      newest),
                good.0,
              ),
              good.1,
              good.2,
            )
      ]

  -- The mode that is chosen fits the destination. It is up to date only where the destination has all
  -- the endpoints already; full only where it is absent; and else incremental, `all` only by a
  -- policy that says so, from a base whose GUID is that of the newest snapshot of the stream's
  -- dataset at the destination and whose transaction is before the endpoint's. The base is an
  -- owned snapshot of the stream's dataset at the source, or, where the policy can resume from a
  -- bookmark, the bookmark there of a stored proof of this stream and target.
  pub choose_mode-Fits :
      (r : Request) (view : View) (st : Settled) (endpoint : Object) (already : Bool) (mode : Mode)
      (base : Option Object)
      → choose_mode sha256 codec r view st endpoint already ≡ ok (mode, base)
      → Fits r view st endpoint already mode base
  unfolding choose_mode
  choose_mode-Fits r view st endpoint true mode base done =
      subst (λ (p : Mode × Option Object). Fits r view st endpoint true p.0 p.1)
        (ok_injective _ _ done) (refl, refl)
  choose_mode-Fits r view st endpoint false mode base done =
      elim (Bool-cases view.destination_exists) [
        | inr absent ↦
            let (none_left, checked, last) = >>=-eq-ok (check_parent r st) _ (whole absent done) in
            subst (λ (p : Mode × Option Object). Fits r view st endpoint false p.0 p.1)
              (ok_injective _ _ last) (refl, absent, refl)
        | inl there ↦
            let (b, found, last) =
              >>=-eq-ok (choose_increment sha256 codec r view st endpoint) _ (more there done) in
            subst (λ (p : Mode × Option Object). Fits r view st endpoint false p.0 p.1)
              (ok_injective _ _ last)
              (by_policy there b (choose_increment-IsCommonBase r view st endpoint b found))
      ]
    where
      whole :
          view.destination_exists ≡ false
          → choose_mode sha256 codec r view st endpoint false ≡ ok (mode, base)
          → (check_parent r st
              >> (let l : Result TransferError (Mode × Option Object) = ok (full, none) in l))
            ≡ ok (mode, base)
      whole absent done = ground arith

      more :
          view.destination_exists ≡ true
          → choose_mode sha256 codec r view st endpoint false ≡ ok (mode, base)
          → (choose_increment sha256 codec r view st endpoint >>= λ b.
              (let l : Result TransferError (Mode × Option Object) =
                  ok (mode_of sha256 codec st.policy, some b) in
                l))
            ≡ ok (mode, base)
      more there done = ground arith

      by_policy :
          view.destination_exists ≡ true
          → (b : Object) → IsCommonBase r view st endpoint b
          → Fits r view st endpoint false (mode_of sha256 codec st.policy) (some b)
      by_policy there b common = elim (Bool-cases (st.policy.incremental =? codes "all")) [
        | inl all ↦ rw all (refl, there, ground arith, (b, refl, common))
        | inr latest ↦ rw latest (refl, there, (b, refl, common))
      ]
