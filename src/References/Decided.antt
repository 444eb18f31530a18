-- ===== src/References/Decided.antt =====
-- internal/lifecycle/reference.go: what the decision of `ProtectSet` rests on.
use boomerangz.Base.{
  Some, ℕ, ◌≡◌, refl, sym, ap, ◌∙◌, subst, ◌⊎◌, inl, inr, Bool, true, false, not, ◌||◌, Option,
  none, some, List, [], ◌∷◌, arith, Bool-cases, Text, text_key, ℕ_key, ◌=?◌, any, All, keep,
}
use boomerangz.Base.Result.{Result, ok, err, >>=-eq-ok}
use boomerangz.Ownership.{Snapshot, Metadata}
use boomerangz.Lifecycle.{State, LifecycleError, find_owned}
use boomerangz.References.{
  Reference, Codec, dataset_of, hold_name, is_held, same_metadata, property_name, reference_records,
}
use boomerangz.References.Service.{
  Protection, Gathered, gather, asked, find_prior, held_by, conflicts, is_other_instant,
  first_instant, decide_protection,
}

same_metadata-eq : (a b : Metadata) → same_metadata a b ≡ true → a ≡ b
same_metadata-eq a b same = ground arith

-- The snapshot is owned, of the lineage and at that instant.
abbrev pub OwnedAt : State → Text → Metadata → Text → Type 0
OwnedAt state lineage m s =
    (found : Snapshot) × (find_owned state (dataset_of s) s lineage ≡ ok (found, m))

abbrev FirstOf : Option Metadata → Metadata → Type 0
FirstOf none m = Unit {0}
FirstOf (some first) m = first ≡ m

abbrev gathered_with : Text → Text → Metadata → Gathered → Gathered
gathered_with stream s m g = record {
  instant = some (first_instant g.instant m);
  own = g.own || dataset_of s =? stream;
  recursive = g.recursive || not (dataset_of s =? stream);
}

-- One round that went on.
gather-round :
    (state : State) (stream lineage s : Text) (snapshots seen : List Text) (g : Gathered)
    {last : Gathered}
    → gather state stream lineage (s ∷ snapshots) seen g ≡ ok last
    → (found : Snapshot) × (m : Metadata) × (find_owned state (dataset_of s) s lineage
        ≡ ok (found, m))
      × (is_other_instant g.instant m ≡ false)
      × (gather state stream lineage snapshots (s ∷ seen) (gathered_with stream s m g) ≡ ok last)
unfolding gather
gather-round state stream lineage s snapshots seen g {last} done =
    by_owned (find_owned state (dataset_of s) s lineage) refl
  where
    by_owned :
        (r : Result LifecycleError (Snapshot × Metadata))
        → find_owned state (dataset_of s) s lineage ≡ r
        → (found : Snapshot) × (m : Metadata) × (find_owned state (dataset_of s) s lineage
            ≡ ok (found, m))
          × (is_other_instant g.instant m ≡ false)
          × (gather state stream lineage snapshots (s ∷ seen) (gathered_with stream s m g)
              ≡ ok last)
    by_owned (err e) same = absurd (ground arith)
    by_owned (ok (found, m)) same = (found, m, same, ground arith, ground arith)

gather-OwnedAt :
    (state : State) (stream lineage : Text) (snapshots seen : List Text) (g last : Gathered)
    (m : Metadata)
    → gather state stream lineage snapshots seen g ≡ ok last
    → last.instant ≡ some m
    → FirstOf g.instant m × All (OwnedAt state lineage m) snapshots
gather-OwnedAt state stream lineage [] seen g last m done instant =
    (by_instant g.instant (unfold gather in ground arith), tt)
  where
    by_instant : (o : Option Metadata) → o ≡ some m → FirstOf o m
    by_instant none same = tt
    by_instant (some first) same = ground arith
gather-OwnedAt state stream lineage (s ∷ snapshots) seen g last m done instant =
    let (found, n, owned, agrees, next) =
      gather-round state stream lineage s snapshots seen g done in
    let rest =
      gather-OwnedAt state stream lineage snapshots (s ∷ seen) (gathered_with stream s n g) last m
        next instant in
    let here = settle g.instant n agrees rest.0 in
    (here.0, ((found, owned ∙ ap (λ k. ok (found, k)) here.1), rest.1))
  where
    settle :
        (o : Option Metadata) (n : Metadata)
        → is_other_instant o n ≡ false
        → first_instant o n ≡ m
        → FirstOf o m × (n ≡ m)
    settle none n agrees same = (tt, same)
    settle (some first) n agrees same = (same, same_metadata-eq n first (ground arith) ∙ same)

module _ (sha256 : Text → List ℕ) (codec : Codec) where
  -- A proof that was found is one of those stored, and agrees with the one looked for.
  find_prior-found :
      (refs : List Reference) (r : Reference) (exists : Bool) (found : Reference × Bool)
      → find_prior sha256 codec refs r exists ≡ ok found
      → (found.0.metadata ≡ r.metadata)
        × (found.0.dataset ≡ r.dataset)
        × ((found ≡ (r, exists)) ⊎ (found.1 ≡ true) × Some (λ q. q ≡ found.0) refs)
  unfolding find_prior
  find_prior-found [] r exists found done =
      let same : found ≡ (r, exists) = ground arith in
      (
        ap (λ (f : Reference × Bool). f.0.metadata) same,
        ap (λ (f : Reference × Bool). f.0.dataset) same,
        inl same,
      )
  find_prior-found (prior ∷ refs) r exists found done =
      elim (Bool-cases (property_name sha256 codec prior =? property_name sha256 codec r)) [
        | inr apart ↦
            let rest = find_prior-found refs r exists found (ground arith) in
            (
              rest.0,
              rest.1,
              elim rest.2 [ inl same ↦ inl same | inr (there, one) ↦ inr (there, inr one) ],
            )
        | inl named ↦
            let agrees : conflicts prior r ≡ false = ground arith in
            let rest = find_prior-found refs prior true found (ground arith) in
            (
              rest.0 ∙ same_metadata-eq prior.metadata r.metadata (ground arith),
              rest.1 ∙ ground arith,
              inr (elim rest.2 [
                | inl same ↦ (
                  ap (λ (f : Reference × Bool). f.1) same,
                  inl (sym (ap (λ (f : Reference × Bool). f.0) same)),
                )
                | inr (there, one) ↦ (there, inr one)
              ]),
            )
      ]

  none_held :
      (state : State) (r : Reference) (snapshots : List Text)
      → any (held_by sha256 codec state r) snapshots ≡ false
      → All (λ s. is_held state s (hold_name r) ≡ false) snapshots
  none_held state r [] nothing = tt
  none_held state r (s ∷ snapshots) nothing =
      (ground arith, none_held state r snapshots (ground arith))

  asked-reference :
      (g : Gathered) (stream target : Text) (r : Reference)
      → asked sha256 codec g stream target ≡ ok r
      → (r.dataset ≡ stream) × (g.instant ≡ some r.metadata)
  unfolding asked
  asked-reference g stream target r done = (ground arith, ground arith)

  -- A decision to protect is for the stream itself, and each snapshot is owned, of the lineage and
  -- at the instant of the reference. If it takes the proof as stored, it is one of the proofs read
  -- from the state; and if not, none of the snapshots has a hold under the target's tag.
  pub decide_protection_sound :
      (state : State) (dataset lineage stream : Text) (snapshots : List Text) (target : Text)
      (p : Protection)
      → decide_protection sha256 codec state dataset lineage stream snapshots target ≡ ok p
      → (p.reference.dataset ≡ stream)
        × All (OwnedAt state lineage p.reference.metadata) snapshots
        × (p.exists ≡ true
            → (refs : List Reference) × (reference_records sha256 codec state dataset lineage
                ≡ ok refs)
              × Some (λ q. q ≡ p.reference) refs)
        × (p.exists ≡ false → All (λ s. is_held state s (hold_name p.reference) ≡ false) snapshots)
  unfolding decide_protection
  decide_protection_sound state dataset lineage stream snapshots target p done =
      let start : Gathered = record { instant = none; own = false; recursive = false } in
      let (g, gathered, after_g) =
        >>=-eq-ok (gather state stream lineage snapshots [] start) _ done in
      let (r, ask, after_r) = >>=-eq-ok (asked sha256 codec g stream target) _ after_g in
      let (refs, stored, after_refs) =
        >>=-eq-ok (reference_records sha256 codec state dataset lineage) _ after_r in
      let (found, prior, last) = >>=-eq-ok (find_prior sha256 codec refs r false) _ after_refs in
      let asks = asked-reference g stream target r ask in
      let taken = find_prior-found refs r false found prior in
      let reference : p.reference ≡ found.0 = ground arith in
      let exists : p.exists ≡ found.1 = ground arith in
      let owned =
        gather-OwnedAt state stream lineage snapshots [] start g r.metadata gathered asks.1 in
      (
        ap (λ (q : Reference). q.dataset) reference ∙ taken.1 ∙ asks.0,
        subst (λ m. All (OwnedAt state lineage m) snapshots)
            (sym (ap (λ (q : Reference). q.metadata) reference ∙ taken.0)) owned.1,
        λ there. (
          refs,
          stored,
          elim taken.2 [
            | inl same ↦ absurd (ground (arith, ap (λ (f : Reference × Bool). f.1) same))
            | inr (old, one) ↦ subst (λ q'. Some (λ q. q ≡ q') refs) (sym reference) one
          ],
        ),
        λ new.
            subst (λ q. All (λ s. is_held state s (hold_name q) ≡ false) snapshots) (sym reference)
              (none_held state found.0 snapshots (ground arith)),
      )

  -- What is still to be held: the snapshots without a hold under the target's tag.
  pub decide_protection-unheld :
      (state : State) (dataset lineage stream : Text) (snapshots : List Text) (target : Text)
      (p : Protection)
      → decide_protection sha256 codec state dataset lineage stream snapshots target ≡ ok p
      → p.unheld ≡ keep (λ s. not (is_held state s (hold_name p.reference))) snapshots
  unfolding decide_protection
  decide_protection-unheld state dataset lineage stream snapshots target p done =
      let start : Gathered = record { instant = none; own = false; recursive = false } in
      let (g, gathered, after_g) =
        >>=-eq-ok (gather state stream lineage snapshots [] start) _ done in
      let (r, ask, after_r) = >>=-eq-ok (asked sha256 codec g stream target) _ after_g in
      let (refs, stored, after_refs) =
        >>=-eq-ok (reference_records sha256 codec state dataset lineage) _ after_r in
      let (found, prior, last) = >>=-eq-ok (find_prior sha256 codec refs r false) _ after_refs in
      let reference : p.reference ≡ found.0 = ground arith in
      let unheld : p.unheld ≡ keep (λ s. not (is_held state s (hold_name found.0))) snapshots =
        ground arith in
      unheld ∙ ap (λ q. keep (λ s. not (is_held state s (hold_name q))) snapshots) (sym reference)
