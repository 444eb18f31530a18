-- ===== src/Management.antt =====
-- internal/lifecycle/service.go: what `CreateSnapshot`, `AdoptDataset` and `Prune` decide by a state
-- that they read, NewMetadata of ownership.go and New of internal/identity/identity.go.
-- The random bytes of an identity are a parameter.
pub mod Operations
pub mod Expendable
pub mod Creation
pub mod Adoption
pub mod Examples
use boomerangz.Base.{
  is_none, Some, ℕ, zero, suc, ◌+◌, ◌-◌, ◌*◌, ◌/◌, ◌%◌, ◌^◌, ◌≤◌, ◌<◌, ◌≡◌, refl, sym, ap, ◌∙◌,
  subst, ◌≢◌, ◌↔◌, ◌⊎◌, inl, inr, Bool, true, false, not, ◌&&◌, ◌||◌, Option, none, some, List, [],
  ◌∷◌, ◌++◌, map, append_assoc, append-nil, arith, ltb, leb, ◌==◌, if◌then◌else◌, Bool-cases,
  Option-cases, Text, Key, text_dec, text_key, ℕ_key, ◌=?◌, codes, length, is_nil, length-append,
  keep, any, every, All, All-append, contains, remove, IsNodup, contains-append, contains-remove,
  IsNodup-remove, IsNodup-snoc,
}
use boomerangz.Base.Result.{Result, ok, err, ◌>>=◌, ◌>>◌, refuse, is_ok}
use boomerangz.Base.Dict.{Dict, lookup, insert, get_or, has}
use boomerangz.Strings.{has_prefix}
use boomerangz.Names.{inside}
use boomerangz.Grid.{Grid, decimal}
use boomerangz.Policy.{Effective, state_namespace}
use boomerangz.Ownership.{
  Snapshot, Metadata, valid_id, component_name, ownership, lineage_property, snapshot_property,
}
use boomerangz.Prune.{PruneError, Decision, plan_prune}
use boomerangz.Lifecycle.{
  State, Object, LifecycleError, check_dataset, owner_property, version_property, current_version,
  current_state, state_version, keeps_records, stored_lineage, root_authority, adoption_lineage,
  snapshots_in, scope_ready, dataset_objects, is_dataset, check_active_root, validate_members,
  lineage_required, evidence_loop,
}
use boomerangz.Lifecycle.Merge.{same_object}
use boomerangz.References.{Codec, ReferenceError, reference_records, hex, last_time}
use boomerangz.References.Service.{same_list}

pub data ManagementError : Type 0 where
  lifecycle : LifecycleError → ManagementError
  references : ReferenceError → ManagementError
  pruning : PruneError → ManagementError
  backend_failed draw_failed : Text → ManagementError
  state_changed unadopted_metadata hidden_metadata : ManagementError
  conflicting_descendant : Text → ManagementError
  bad_time scope_changed identity_changed lineage_changed already_owned : ManagementError
  adoption_unverified : ManagementError
  ineligible snapshot_unverified : Text → ManagementError
  outside : Text → Text → ManagementError

-- An operation that fails may have decided already.
pub record Failure : Type 0 where
  pub plan : List Decision
  pub why : ManagementError

pub record Retention : Type 0 where
  pub dataset : Text
  pub grid : Grid

abbrev pub of_lifecycle : {A : Type 0} → Result LifecycleError A → Result ManagementError A
of_lifecycle (err e) = err (lifecycle e)
of_lifecycle (ok a) = ok a

abbrev pub of_references : {A : Type 0} → Result ReferenceError A → Result ManagementError A
of_references (err e) = err (references e)
of_references (ok a) = ok a

abbrev pub of_prune : {A : Type 0} → Result PruneError A → Result ManagementError A
of_prune (err e) = err (pruning e)
of_prune (ok a) = ok a

abbrev pub with_plan : {A : Type 0} → List Decision → Result ManagementError A → Result Failure A
with_plan plan (err e) = err (record { plan = plan; why = e })
with_plan plan (ok a) = ok a

-- `authorityProperties`.
abbrev pub authority_properties : Text → Text → Dict Text Text
authority_properties installation lineage =
    (lineage_property, lineage)
    ∷ (owner_property, installation)
    ∷ (version_property, decimal current_version)
    ∷ []

-- `Metadata.Properties`.
abbrev pub metadata_properties : Metadata → Dict Text Text
metadata_properties m = (lineage_property, m.lineage) ∷ (snapshot_property, m.snapshot) ∷ []

abbrev pub change_at : ℕ → (ℕ → ℕ) → List ℕ → List ℕ
change_at i change [] = []
change_at zero change (byte ∷ bytes) = change byte ∷ bytes
change_at (suc i) change (byte ∷ bytes) = byte ∷ change_at i change bytes

abbrev pub slice : ℕ → ℕ → List ℕ → List ℕ
slice from zero bytes = []
slice from (suc n) [] = []
slice zero (suc n) (byte ∷ bytes) = byte ∷ slice zero n bytes
slice (suc from) (suc n) (byte ∷ bytes) = slice from (suc n) bytes

-- `identity.New` on its random bytes.
unfoldable pub new_id : List ℕ → Text
new_id bytes =
    let bytes = change_at 6 (λ b. b % 16 + 64) bytes in
    let bytes = change_at 8 (λ b. b % 64 + 128) bytes in
    let value = hex bytes in
    slice 0 8 value
    ++ (codes "-"
        ++ (slice 8 4 value
            ++ (codes "-"
                ++ (slice 12 4 value
                    ++ (codes "-" ++ (slice 16 4 value ++ (codes "-" ++ slice 20 12 value)))))))

-- `NewMetadata`, on the identity that it draws.
abbrev pub check_time : Text → ℕ → Result ManagementError (Unit {0})
check_time lineage now =
    let invalid = not (valid_id lineage) || now == 0 || ltb last_time now in refuse invalid bad_time

-- Whether the lineage of a root is fresh, and if so that no mark of an older one is left.
abbrev pub keeps_marks : Dict Text Text → Bool
keeps_marks values = any (λ (v : Text × Text). has_prefix v.0 state_namespace) values

unfoldable pub check_unmarked : State → Result ManagementError (Unit {0})
check_unmarked state = do
  refuse (any (λ p. has_prefix p.name state_namespace) state.properties) unadopted_metadata
  refuse (any (λ (r : Text × Dict Text Text). keeps_marks r.1) state.received) hidden_metadata

-- The loop over the datasets of the scope.
unfoldable pub descendants_loop : State → Text → List Object → Result ManagementError (Unit {0})
descendants_loop state lineage [] = ok tt
descendants_loop state lineage (o ∷ os) =
    let rest = descendants_loop state lineage os in
    let found = of_lifecycle (stored_lineage state o.name) in
    let checked = found >>= λ child.
    refuse (not (is_nil child) && not (child =? lineage)) (conflicting_descendant o.name) >> rest in
    if not (is_dataset o.kind) then rest else checked

abbrev pub same_objects : State → State → Bool
same_objects a b = same_list same_object (dataset_objects a) (dataset_objects b)

abbrev pub has_authority : State → Text → Text → Text → Bool
has_authority state dataset installation lineage =
    elim (root_authority state dataset installation) [
      | err e ↦ false
      | ok current ↦ current =? lineage
    ]

-- Whether the lineage that was written is the root's authority, in an unchanged scope.
unfoldable pub check_initialized :
    Text → Text → Text → State → State → Result ManagementError (Unit {0})
check_initialized installation dataset lineage state current =
    refuse
      (not (has_authority current dataset installation lineage)
        || not (same_objects state current)
        || not (is_nil current.resume_tokens))
      scope_changed

-- The inner loop of the verification; the last snapshot of the name decides.
abbrev pub proves : Metadata → Text → Snapshot → Bool
proves m lineage s = elim (ownership s lineage) [
  | err e ↦ false
  | ok actual ↦
      (actual.lineage =? m.lineage)
      && (actual.snapshot =? m.snapshot)
      && (actual.created == m.created)
]

unfoldable pub verified_in : Text → Metadata → Text → List Snapshot → Bool → Bool
verified_in name m lineage [] verified = verified
verified_in name m lineage (s ∷ snapshots) verified =
    verified_in name m lineage snapshots
      (if not (s.name =? name) then verified else proves m lineage s)

unfoldable pub verify_members :
    State → Metadata → Text → List Text → Result ManagementError (Unit {0})
unfolding verified_in
verify_members after m lineage [] = ok tt
verify_members after m lineage (member ∷ members) =
    let rest = verify_members after m lineage members in
    let name = member ++ b'@' ∷ component_name m in
    refuse (not (verified_in name m lineage (snapshots_in after member) false))
      (snapshot_unverified member)
    >> rest

-- The checks of `CreateSnapshot` after its writes.
unfoldable pub check_created :
    State → State → Metadata → Text → List Text → Result ManagementError (Unit {0})
unfolding verify_members
check_created state after m lineage members =
    refuse (not (same_objects state after)) scope_changed >> verify_members after m lineage members

-- What `AdoptDataset` decides on before it writes.
abbrev pub lineage_or : State → Text → Text → Result ManagementError Text
lineage_or state dataset lineage =
    if is_nil lineage then of_lifecycle (adoption_lineage state dataset) else ok lineage

-- `CurrentState` is nil only for the current version, which does not get there.
unfoldable pub check_format : State → Text → ℕ → Result ManagementError (Unit {0})
check_format state dataset version =
    if ltb current_version version || ltb version current_version && keeps_records state dataset
    then of_lifecycle (current_state state dataset)
    else ok tt

module _ (sha256 : Text → List ℕ) (codec : Codec) where
  -- `ValidateLineageEvidence`.
  unfoldable pub validate_evidence : State → Text → Text → Result ManagementError (Unit {0})
  unfolding evidence_loop
  validate_evidence state root lineage = do
    refuse (not (valid_id lineage)) (lifecycle lineage_required)
    of_lifecycle (evidence_loop (snapshots_in state root) lineage)
    records ← of_references (reference_records sha256 codec state root lineage)
    ok tt

  unfoldable pub decide_adoption : State → Text → Text → Result ManagementError Text
  unfolding validate_evidence
  decide_adoption state dataset installation = do
    stored ← of_lifecycle (stored_lineage state dataset)
    lineage ← lineage_or state dataset stored
    refuse (has_authority state dataset installation lineage) already_owned
    version ← of_lifecycle (state_version state dataset)
    check_format state dataset version
    validate_evidence state dataset lineage
    ok lineage

-- The checks of `Prune` that read nothing.
unfoldable pub check_retention : Text → Effective → Retention → Result ManagementError (Unit {0})
check_retention root effective retention = do
  of_lifecycle (check_dataset root)
  of_lifecycle (check_active_root effective root)
  of_lifecycle (check_dataset retention.dataset)
  refuse (not (inside retention.dataset root)) (outside retention.dataset root)

abbrev pub is_again : Decision → Decision → Bool
is_again d next = next.snapshot =? d.snapshot && next.guid == d.guid && next.destroy

-- The checks before a deletion, on the state that was read for it.
unfoldable pub check_again :
    Retention → State → Text → Decision → State → Text → Result ManagementError (Unit {0})
check_again retention state lineage d current actual = do
  refuse (not (same_objects state current)) identity_changed
  refuse (not (actual =? lineage)) lineage_changed
  decisions ←
      of_prune (
        plan_prune retention.dataset lineage retention.grid
          (snapshots_in current retention.dataset))
  refuse (not (any (is_again d) decisions)) (ineligible d.snapshot)
