-- ===== src/References/Operations.antt =====
-- internal/lifecycle/reference.go and inspection.go: `ProtectSet`, `CheckpointSet`,
-- `ReleaseReference` and `ReleaseCompletedHold` on a backend: they read, decide, read again whether
-- the state is still the same, and write.
use boomerangz.Base.{
  ℕ, Bool, not, ◌&&◌, List, [], ◌∷◌, ◌++◌, map, ltb, if◌then◌else◌, Text, text_key, ℕ_key, ◌=?◌,
  length, is_nil, contains,
}
use boomerangz.Base.Result.{ok, refuse}
use boomerangz.Base.Dict.{Dict}
use boomerangz.Base.Sorting.{text_leb, sort_by}
use boomerangz.Lifecycle.{State, check_dataset, root_authority, scope_ready}
use boomerangz.Lifecycle.Merge.{merge_states}
use boomerangz.Lifecycle.Backend.{
  Call, set_property, inherit_property, hold, release, make_bookmark, Backend, Act, lift, read_as,
  perform_all, ◌>>=◌, ◌>>◌,
}
use boomerangz.References.{
  Reference, ReferenceSource, ReferenceError, backend_failed, state_changed, value_too_long, Codec,
  of_lifecycle, dataset_of, hold_name, source_snapshot, source_bookmark, reference_subtree,
  property_name, encode_reference,
}
use boomerangz.References.Service.{
  same_state, wanted_datasets, Protection, decide_protection, proven_sources, decide_checkpoint,
  release_loop, completed_loop, check_request,
}

-- `MaxUserPropertyValue`.
abbrev pub max_value : ℕ
max_value = 8191

module _ {W : Type 0} (b : Backend W) (sha256 : Text → List ℕ) (codec : Codec)
    (installation : Text) where
  unfoldable pub inspect : Text → Bool → Act W ReferenceError State
  inspect dataset recursive w = read_as backend_failed (b.inspect dataset recursive w)

  unfoldable pub list_datasets : Act W ReferenceError (List Text)
  list_datasets w = read_as backend_failed (b.list_datasets w)

  unfoldable pub perform : List Call → Act W ReferenceError (Unit {0})
  perform calls = perform_all b backend_failed calls

  -- The loop of `proofScope` over the wanted datasets.
  unfoldable pub read_members : Text → List Text → List Text → State → Act W ReferenceError State
  unfolding inspect
  read_members subtree inventory [] state = lift (ok state)
  read_members subtree inventory (d ∷ wanted) state =
      let skipped = read_members subtree inventory wanted state in
      let taken = inspect d (d =? subtree) >>= λ member.
      read_members subtree inventory wanted (merge_states (state ∷ member ∷ [])) in
      if not (contains inventory d) then skipped else taken

  unfoldable pub proof_scope : Text → List Text → Text → Act W ReferenceError State
  unfolding inspect list_datasets read_members
  proof_scope root datasets subtree = do
    state ← inspect root (root =? subtree)
    let wanted = wanted_datasets root subtree datasets
    if is_nil wanted
        then lift (ok state)
        else list_datasets >>= λ inventory.
            read_members subtree inventory (sort_by text_leb wanted) state

  unfoldable pub proof_unchanged : Text → List Text → Text → State → Act W ReferenceError (Unit {0})
  unfolding proof_scope
  proof_unchanged root datasets subtree expected = proof_scope root datasets subtree >>= λ current.
      lift (refuse (not (same_state expected current)) state_changed)

  -- The writes of `ProtectSet`: the proof, where it is new, and then the holds.
  abbrev pub protection_calls : Text → Protection → List Call
  protection_calls dataset p =
      let holds = map (λ s. hold (hold_name p.reference) s) p.unheld in
      let name = property_name sha256 codec p.reference in
      let value = encode_reference sha256 codec p.reference dataset in
      if p.exists then holds else set_property dataset name value ∷ holds

  abbrev pub is_too_long : Text → Protection → Bool
  is_too_long dataset p =
      not p.exists && ltb max_value (length (encode_reference sha256 codec p.reference dataset))

  unfoldable pub write_proof :
      Text → List Text → State → Protection → Act W ReferenceError Reference
  unfolding proof_unchanged perform
  write_proof dataset datasets state p = do
    proof_unchanged dataset datasets [] state
    lift (refuse (is_too_long dataset p) value_too_long)
    perform (protection_calls dataset p)
    lift (ok p.reference)

  -- `ProtectSet` after its decision: a proof that is stored and held needs no write.
  unfoldable pub write_protection :
      Text → List Text → State → Protection → Act W ReferenceError Reference
  unfolding write_proof
  write_protection dataset datasets state p =
      if p.exists && is_nil p.unheld
      then lift (ok p.reference)
      else write_proof dataset datasets state p

  unfoldable pub protect_set : Text → Text → List Text → Text → Act W ReferenceError Reference
  unfolding proof_scope write_protection
  protect_set dataset stream snapshots target = do
    lift (check_request dataset stream snapshots target)
    state ← proof_scope dataset (map dataset_of snapshots) []
    lift (of_lifecycle (scope_ready state dataset))
    lineage ← lift (of_lifecycle (root_authority state dataset installation))
    p ← lift (decide_protection sha256 codec state dataset lineage stream snapshots target)
    write_protection dataset (map dataset_of snapshots) state p

  -- `referenceState`.
  unfoldable pub reference_state :
      Text → Reference → Act W ReferenceError (State × (Text × List ReferenceSource))
  unfolding proof_scope
  reference_state dataset r = do
    lift (of_lifecycle (check_dataset dataset))
    state ← proof_scope dataset (r.dataset ∷ []) (reference_subtree r)
    found ← lift (proven_sources sha256 codec state dataset installation r)
    lift (ok (state, found))

  -- The check that the state is still the same, and the writes.
  unfoldable pub write_unchanged :
      Text → Reference → State → List Call → Act W ReferenceError (Unit {0})
  unfolding proof_unchanged perform
  write_unchanged dataset r state calls = do
    proof_unchanged dataset (r.dataset ∷ []) (reference_subtree r) state
    perform calls

  abbrev pub bookmark_call : Reference → ReferenceSource → Call
  bookmark_call r source =
      make_bookmark (source_snapshot r source.dataset) (source_bookmark r source.dataset)

  unfoldable pub checkpoint_set : Text → Reference → Dict Text ℕ → Act W ReferenceError (Unit {0})
  unfolding reference_state write_unchanged
  checkpoint_set dataset r verified = do
    found ← reference_state dataset r
    missing ← lift (decide_checkpoint found.0 found.1.0 r verified found.1.1)
    let calls = map (bookmark_call r) missing
    if is_nil missing then lift (ok tt) else write_unchanged dataset r found.0 calls

  unfoldable pub release_reference : Text → Reference → Act W ReferenceError (Unit {0})
  unfolding reference_state write_unchanged
  release_reference dataset r = do
    found ← reference_state dataset r
    calls ← lift (release_loop found.0 found.1.0 r found.1.1)
    write_unchanged dataset r found.0
        (calls ++ inherit_property dataset (property_name sha256 codec r) ∷ [])

  abbrev pub release_call : Reference → ReferenceSource → Call
  release_call r source = release (hold_name r) (source_snapshot r source.dataset)

  unfoldable pub release_completed_hold : Text → Reference → Act W ReferenceError (Unit {0})
  unfolding reference_state write_unchanged
  release_completed_hold dataset r = do
    found ← reference_state dataset r
    held ← lift (completed_loop found.0 found.1.0 r found.1.1)
    let calls = map (release_call r) held
    if is_nil held then lift (ok tt) else write_unchanged dataset r found.0 calls
