-- ===== src/References/Service.antt =====
-- internal/lifecycle/reference.go and inspection.go: what `ProtectSet`, `CheckpointSet`,
-- `ReleaseReference` and `ReleaseCompletedHold` decide by the state that they read.
use boomerangz.Base.{
  is_none, ℕ, Bool, true, false, not, ◌&&◌, ◌||◌, Option, none, some, List, [], ◌∷◌, ◌++◌, ◌==◌,
  if◌then◌else◌, Text, text_key, ℕ_key, ◌=?◌, length, is_nil, keep, any, every, contains,
}
use boomerangz.Base.Result.{Result, ok, err, ◌>>=◌, ◌>>◌, refuse}
use boomerangz.Base.Dict.{Dict, lookup, get_or}
use boomerangz.Strings.{trim_space, contains_any}
use boomerangz.Names.{inside}
use boomerangz.Ownership.{Snapshot, Metadata}
use boomerangz.Lifecycle.{
  State, LifecycleError, check_dataset, root_authority, scope_ready, find_owned, has_object,
}
use boomerangz.Lifecycle.Merge.{same_object, same_property}
use boomerangz.Lifecycle.Backend.{Call, release, destroy_bookmark}
use boomerangz.References.{
  Reference, ReferenceSource, ReferenceError, lifecycle, no_target, no_snapshots, outside_stream,
  duplicate_snapshot, other_instant, no_stream_snapshot, conflicting_proof, unproven_hold,
  missing_proof, unprotected, guid_mismatch, not_protected, hold_changed, owner_changed,
  checkpoint_missing, Codec, of_lifecycle, dataset_of, hold_name, source_snapshot, source_bookmark,
  is_held, sources, same_metadata, same_reference, target_id, property_name, reference_records,
}

-- `reflect.DeepEqual` of two states.
abbrev pub same_list : {A : Type 0} → (A → A → Bool) → List A → List A → Bool
same_list same [] [] = true
same_list same [] (y ∷ ys) = false
same_list same (x ∷ xs) [] = false
same_list same (x ∷ xs) (y ∷ ys) = same x y && same_list same xs ys

abbrev pub same_at : {V : Type 0} → (V → V → Bool) → V → Option V → Bool
same_at same v none = false
same_at same v (some w) = same v w

abbrev pub same_dict : {V : Type 0} → (V → V → Bool) → Dict Text V → Dict Text V → Bool
same_dict same m n =
    length m == length n && every (λ entry. same_at same entry.1 (lookup entry.0 n)) m

abbrev same_text : Text → Text → Bool
same_text a b = a =? b

unfoldable pub same_state : State → State → Bool
same_state a b =
    same_list same_object a.objects b.objects
    && same_list same_property a.properties b.properties
    && same_dict (same_dict same_text) a.received b.received
    && same_dict same_text a.resume_tokens b.resume_tokens
    && same_dict (same_list same_text) a.clones b.clones
    && same_dict (same_list same_text) a.holds b.holds

-- The loop of `proofScope` that collects the datasets to read.
unfoldable pub wanted_loop : Text → Text → List Text → List Text → List Text
wanted_loop root subtree [] wanted = wanted
wanted_loop root subtree (d ∷ datasets) wanted = wanted_loop root subtree datasets (
    if not (d =? root) && not (contains wanted d) && (is_nil subtree || not (inside d subtree))
    then wanted ++ d ∷ []
    else wanted)

unfoldable pub wanted_datasets : Text → Text → List Text → List Text
unfolding wanted_loop
wanted_datasets root subtree datasets =
    let wanted = wanted_loop root subtree datasets [] in
    if not (is_nil subtree) && not (subtree =? root) then wanted ++ subtree ∷ [] else wanted

-- The checks of `ProtectSet` on what it is asked.
unfoldable pub check_request : Text → Text → List Text → Text → Result ReferenceError (Unit {0})
check_request dataset stream snapshots target = do
  of_lifecycle (check_dataset dataset)
  refuse (is_nil (trim_space target) || contains_any target (0 ∷ b'\r' ∷ b'\n' ∷ [])) no_target
  refuse (is_nil snapshots) no_snapshots
  of_lifecycle (check_dataset stream)
  refuse (not (inside stream dataset)) (outside_stream stream)

-- What `ProtectSet` has gathered from the snapshots so far.
pub record Gathered : Type 0 where
  pub instant : Option Metadata
  pub own : Bool
  pub recursive : Bool

abbrev pub is_other_instant : Option Metadata → Metadata → Bool
is_other_instant none m = false
is_other_instant (some first) m = not (same_metadata m first)

abbrev pub first_instant : Option Metadata → Metadata → Metadata
first_instant none m = m
first_instant (some first) m = first

-- The loop over the snapshots, with those seen so far.
unfoldable pub gather :
    State → Text → Text → List Text → List Text → Gathered → Result ReferenceError Gathered
gather state stream lineage [] seen g = ok g
gather state stream lineage (s ∷ snapshots) seen g =
    let dataset = dataset_of s in
    let next = λ (m : Metadata). gather state stream lineage snapshots (s ∷ seen) (record {
      instant = some (first_instant g.instant m);
      own = g.own || dataset =? stream;
      recursive = g.recursive || not (dataset =? stream);
    }) in
    if contains seen s
    then err (duplicate_snapshot s)
    else if not (inside dataset stream)
    then err (outside_stream s)
    else elim (find_owned state dataset s lineage) [
      | err e ↦ err (lifecycle e)
      | ok (found, m) ↦ if is_other_instant g.instant m then err other_instant else next m
    ]

-- What is to be written for a stream: the proof that stands for it, if it is stored, and which
-- snapshots are not yet held.
pub record Protection : Type 0 where
  pub reference : Reference
  pub exists : Bool
  pub unheld : List Text

abbrev pub conflicts : Reference → Reference → Bool
conflicts prior r =
    not (same_reference prior r)
    && (not (same_metadata prior.metadata r.metadata)
        || not (prior.dataset =? r.dataset)
        || not prior.recursive)

module _ (sha256 : Text → List ℕ) (codec : Codec) where
  -- The loop over the stored proofs.
  unfoldable pub find_prior :
      List Reference → Reference → Bool → Result ReferenceError (Reference × Bool)
  find_prior [] r exists = ok (r, exists)
  find_prior (prior ∷ refs) r exists =
      let skipped = find_prior refs r exists in
      let taken = find_prior refs prior true in
      if not (property_name sha256 codec prior =? property_name sha256 codec r)
      then skipped
      else if conflicts prior r
      then err conflicting_proof
      else taken

  -- The reference that the snapshots ask for.
  unfoldable pub asked : Gathered → Text → Text → Result ReferenceError Reference
  asked g stream target = elim g.instant [
    | none ↦ err no_snapshots
    | some m ↦
        if not g.own
        then err no_stream_snapshot
        else ok (record {
          target_id = target_id sha256 codec target;
          dataset = stream;
          metadata = m;
          recursive = g.recursive;
        })
  ]

  abbrev pub held_by : State → Reference → Text → Bool
  held_by state r snapshot = is_held state snapshot (hold_name r)

  -- The decision of `ProtectSet` on the state that it read.
  unfoldable pub decide_protection :
      State → Text → Text → Text → List Text → Text → Result ReferenceError Protection
  unfolding gather asked find_prior
  decide_protection state dataset lineage stream snapshots target =
      gather state stream lineage snapshots []
        (record { instant = none; own = false; recursive = false })
      >>= λ g. asked g stream target >>= λ r.
          reference_records sha256 codec state dataset lineage >>= λ refs.
          find_prior refs r false >>= λ found.
          if not found.1 && any (held_by state found.0) snapshots
          then err unproven_hold
          else ok (record {
            reference = found.0;
            exists = found.1;
            unheld = keep (λ s. not (held_by state found.0 s)) snapshots;
          })

  -- What `referenceState` checks of the state that it read, and the sources of the proof.
  unfoldable pub proven_sources :
      State → Text → Text → Reference → Result ReferenceError (Text × List ReferenceSource)
  proven_sources state dataset installation r = do
    of_lifecycle (scope_ready state dataset)
    lineage ← of_lifecycle (root_authority state dataset installation)
    refs ← reference_records sha256 codec state dataset lineage
    refuse (not (any (λ prior. same_reference prior r) refs)) missing_proof
    found ← sources r state
    ok (lineage, found)

-- The snapshot of a source is still the one that was protected.
unfoldable pub is_protected : Reference → ReferenceSource → Snapshot × Metadata → Bool
is_protected r source (owned, m) =
    owned.guid == source.guid && same_metadata m r.metadata && contains owned.holds (hold_name r)

-- One round of the loop of `CheckpointSet`: whether a bookmark is missing.
unfoldable pub check_source :
    State → Text → Reference → Dict Text ℕ → ReferenceSource → Result ReferenceError Bool
unfolding is_protected
check_source state lineage r verified source =
    let snapshot = source_snapshot r source.dataset in
    let supplied = lookup snapshot verified in
    let owned : Result ReferenceError Bool =
      elim (find_owned state source.dataset snapshot lineage) [
        | err e ↦ err (lifecycle e)
        | ok found ↦ if not (is_protected r source found) then err hold_changed else ok true
      ] in
    if not (is_none supplied) && not (get_or snapshot verified 0 == source.guid)
    then err (guid_mismatch snapshot)
    else if has_object state (source_bookmark r source.dataset)
    then ok false
    else if is_none supplied || get_or snapshot verified 0 == 0
    then err (guid_mismatch snapshot)
    else owned

-- The loop of `CheckpointSet`: the sources whose bookmarks are missing.
unfoldable pub missing_loop :
    State
    → Text
    → Reference
    → Dict Text ℕ
    → List ReferenceSource
    → Result ReferenceError (List ReferenceSource)
unfolding check_source
missing_loop state lineage r verified [] = ok []
missing_loop state lineage r verified (source ∷ found) =
    check_source state lineage r verified source >>= λ missing.
    missing_loop state lineage r verified found >>= λ rest.
    ok (if missing then source ∷ rest else rest)

abbrev pub starts_with : List ReferenceSource → Text → Bool
starts_with [] dataset = false
starts_with (s ∷ rest) dataset = s.dataset =? dataset

abbrev is_source : Reference → List ReferenceSource → Text → Bool
is_source r found snapshot =
    any (λ (s : ReferenceSource). source_snapshot r s.dataset =? snapshot) found

-- A verified snapshot that the proof does not name.
unfoldable pub unproven : Reference → List ReferenceSource → Dict Text ℕ → Bool
unproven r found verified = any (λ entry. not (is_source r found entry.0)) verified

-- The decision of `CheckpointSet`.
unfoldable pub decide_checkpoint :
    State
    → Text
    → Reference
    → Dict Text ℕ
    → List ReferenceSource
    → Result ReferenceError (List ReferenceSource)
unfolding unproven missing_loop
decide_checkpoint state lineage r verified found = do
  refuse (not (starts_with found r.dataset)) (unprotected r.dataset)
  refuse (unproven r found verified) (not_protected r.dataset)
  missing_loop state lineage r verified found

abbrev pub source_held : State → Reference → ReferenceSource → Bool
source_held state r source = is_held state (source_snapshot r source.dataset) (hold_name r)

-- A held snapshot must still be owned as the proof says.
abbrev pub is_owned :
    Reference → ReferenceSource → Result LifecycleError (Snapshot × Metadata) → Bool
is_owned r source (err e) = false
is_owned r source (ok (owned, m)) = owned.guid == source.guid && same_metadata m r.metadata

-- The loop of `ReleaseReference`: the calls that undo each source, bookmark first.
unfoldable pub release_loop :
    State → Text → Reference → List ReferenceSource → Result ReferenceError (List Call)
release_loop state lineage r [] = ok []
release_loop state lineage r (source ∷ found) =
    let snapshot = source_snapshot r source.dataset in
    let mark = source_bookmark r source.dataset in
    let held = source_held state r source in
    refuse (held && not (is_owned r source (find_owned state source.dataset snapshot lineage)))
      owner_changed
    >> (release_loop state lineage r found >>= λ rest. ok (
        (if has_object state mark then destroy_bookmark mark ∷ [] else [])
        ++ ((if held then release (hold_name r) snapshot ∷ [] else []) ++ rest)))

-- The loop of `ReleaseCompletedHold`: the sources that are held, each with its checkpoint.
unfoldable pub completed_loop :
    State → Text → Reference → List ReferenceSource → Result ReferenceError (List ReferenceSource)
completed_loop state lineage r [] = ok []
completed_loop state lineage r (source ∷ found) =
    let rest = completed_loop state lineage r found in
    let snapshot = source_snapshot r source.dataset in
    if not (source_held state r source)
    then rest
    else if not (is_owned r source (find_owned state source.dataset snapshot lineage))
    then err owner_changed
    else if not (has_object state (source_bookmark r source.dataset))
    then err checkpoint_missing
    else rest >>= λ more. ok (source ∷ more)
