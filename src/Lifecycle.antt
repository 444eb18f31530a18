-- ===== src/Lifecycle.antt =====
-- internal/lifecycle: service.go, authority.go, version.go, inspection.go and what they read of a
-- ZFS state (zfs/executor.go, zfs/state.go): the marks by which a root is this installation's own,
-- and the format its state is written in.
-- A map of maps is keyed by the dataset first. A Go integer of a version marker is read as digits.
pub mod Authority
pub mod Members
pub mod Merge
pub mod Backend
pub mod Examples
use boomerangz.Base.{
  is_none, Some, ℕ, zero, suc, ◌+◌, ◌-◌, ◌*◌, ◌/◌, ◌%◌, ◌^◌, ◌≤◌, ◌<◌, ◌≡◌, refl, sym, ap, ◌∙◌,
  subst, ◌≢◌, ◌↔◌, ◌⊎◌, inl, inr, Bool, true, false, not, ◌&&◌, ◌||◌, Option, none, some, List, [],
  ◌∷◌, ◌++◌, map, append_assoc, append-nil, arith, ltb, leb, ◌==◌, if◌then◌else◌, Bool-cases,
  Option-cases, Text, Key, text_dec, text_key, ℕ_key, ◌=?◌, codes, length, is_nil, length-append,
  keep, any, every, All, All-append, contains, remove, IsNodup, contains-append, contains-remove,
  IsNodup-remove, IsNodup-snoc,
}
use boomerangz.Base.Result.{Result, ok, err, ◌>>=◌, ◌>>◌, refuse, is_ok}
use boomerangz.Base.Dict.{Dict, lookup, insert, get_or, has}
use boomerangz.Strings.{has_prefix}
use boomerangz.Names.{NameError, validate_dataset, inside}
use boomerangz.Grid.{is_digit, digits_value, decimal, max_int64}
use boomerangz.Policy.{Effective, is_valid, Value, namespace, state_namespace, is_source_local}
use boomerangz.Ownership.{
  Property, Source, local, received, other_source, Snapshot, Metadata, OwnershipError, AdoptError,
  valid_id, ownership, adopt, lineage_property, snapshot_property,
}

pub data ObjectType : Type 0 where
  filesystem volume snapshot bookmark : ObjectType

pub record Object : Type 0 where
  pub name : Text
  pub kind : ObjectType
  pub guid : ℕ
  pub creation : ℕ
  pub create_txg : ℕ

pub record State : Type 0 where
  pub objects : List Object
  pub properties : List Property
  pub received : Dict Text (Dict Text Text)
  pub resume_tokens : Dict Text Text
  pub clones : Dict Text (List Text)
  pub holds : Dict Text (List Text)

pub data LifecycleError : Type 0 where
  bad_name : NameError → LifecycleError
  bad_ownership : OwnershipError → LifecycleError
  bad_adoption : AdoptError → LifecycleError
  installation_required lineage_required : LifecycleError
  ambiguous_root lacks_authority : Text → LifecycleError
  foreign_owner : Text → Text → LifecycleError
  conflicting_received ambiguous_lineage : Text → LifecycleError
  invalid_version : Text → LifecycleError
  old_version new_version : Text → ℕ → LifecycleError
  resumable dataset_missing no_members : LifecycleError
  outside_root repeated : Text → LifecycleError
  provenance_only source_policy no_activation : LifecycleError
  inherited_activation : Text → LifecycleError
  inconsistent_evidence : Text → OwnershipError → LifecycleError
  snapshot_missing : LifecycleError

-- `if err := zfs.ValidateDataset(name); err != nil { return err }`.
abbrev pub check_dataset : Text → Result LifecycleError (Unit {0})
check_dataset name = elim (validate_dataset name) [ err e ↦ err (bad_name e) | ok _ ↦ ok tt ]

abbrev pub is_dataset : ObjectType → Bool
is_dataset filesystem = true
is_dataset volume = true
is_dataset snapshot = false
is_dataset bookmark = false

abbrev pub is_snapshot : ObjectType → Bool
is_snapshot snapshot = true
is_snapshot filesystem = false
is_snapshot volume = false
is_snapshot bookmark = false

abbrev pub is_bookmark : ObjectType → Bool
is_bookmark bookmark = true
is_bookmark filesystem = false
is_bookmark volume = false
is_bookmark snapshot = false

abbrev pub owner_property : Text
owner_property = state_namespace ++ codes "owner"

abbrev pub version_property : Text
version_property = state_namespace ++ codes "version"

abbrev pub reference_prefix : Text
reference_prefix = state_namespace ++ codes "reference:"

abbrev pub target_state_prefix : Text
target_state_prefix = state_namespace ++ codes "target:"

abbrev pub current_version : ℕ
current_version = 2

abbrev pub unversioned : ℕ
unversioned = 1

-- `strconv.Atoi` with the tests that follow it: a number of at least 1, printed as `Itoa` prints.
unfoldable pub version_of : Text → Option ℕ
unfolding digits_value decimal
version_of value =
    let n = digits_value 0 value in
    if not (every is_digit value) || n == 0 || ltb max_int64 n || not (decimal n =? value)
    then none
    else some n

abbrev pub is_row : Text → Text → Property → Bool
is_row root name p = p.dataset =? root && p.name =? name && is_source_local p.source

-- The loop of `StateVersion`; 0 is no version so far.
unfoldable pub version_loop : Text → List Property → ℕ → Result LifecycleError ℕ
unfolding version_of
version_loop root [] version = ok version
version_loop root (p ∷ ps) version =
    let skipped = version_loop root ps version in
    let taken = λ (parsed : ℕ). version_loop root ps parsed in
    if not (is_row root version_property p)
    then skipped
    else if not (version == 0)
    then err (invalid_version root)
    else elim (version_of p.value) [
      | none ↦ err (invalid_version root)
      | some parsed ↦ taken parsed
    ]

unfoldable pub state_version : State → Text → Result LifecycleError ℕ
unfolding version_loop
state_version state root = version_loop root state.properties 0 >>= λ version.
    ok (if version == 0 then unversioned else version)

unfoldable pub current_state : State → Text → Result LifecycleError (Unit {0})
unfolding state_version
current_state state root = do
  version ← state_version state root
  refuse (ltb version current_version) (old_version root version)
  refuse (ltb current_version version) (new_version root version)
  ok tt

unfoldable pub keeps_records : State → Text → Bool
keeps_records state root =
    any
      (λ (p : Property).
        p.dataset =? root
        && is_source_local p.source
        && (has_prefix p.name reference_prefix || has_prefix p.name target_state_prefix))
      state.properties

unfoldable pub records_readable : State → Text → Result LifecycleError (Unit {0})
unfolding keeps_records current_state
records_readable state root =
    if not (keeps_records state root) then ok tt else current_state state root

abbrev pub text_at : Text → Dict Text Text → Text
text_at name values = get_or name values []

unfoldable pub is_marker : Text → Bool
is_marker name = name =? owner_property || name =? lineage_property

-- The loop of `RootAuthority` over the stored properties.
unfoldable pub root_values :
    Text → List Property → Dict Text Text → Result LifecycleError (Dict Text Text)
root_values root [] values = ok values
root_values root (p ∷ ps) values =
    let skipped = root_values root ps values in
    let taken = root_values root ps (insert p.name p.value values) in
    if not (p.dataset =? root) || not (is_marker p.name)
    then skipped
    else if not (is_source_local p.source)
        || not (valid_id p.value)
        || not (is_nil (text_at p.name values))
    then err (ambiguous_root root)
    else taken

-- `state.Received[dataset][LineageProperty]`.
abbrev pub hidden_lineage : State → Text → Text
hidden_lineage state dataset = text_at lineage_property (get_or dataset state.received [])

-- The tests of `RootAuthority` on the two markers.
unfoldable pub check_root : State → Text → Text → Dict Text Text → Result LifecycleError Text
check_root state root installation values =
    let owner = text_at owner_property values in
    let lineage = text_at lineage_property values in
    let hidden = hidden_lineage state root in
    do
      refuse (is_nil owner || is_nil lineage) (lacks_authority root)
      refuse (not (owner =? installation)) (foreign_owner root owner)
      refuse (not (is_nil hidden) && not (hidden =? lineage)) (conflicting_received root)
      current_state state root
      ok lineage

unfoldable pub root_authority : State → Text → Text → Result LifecycleError Text
unfolding root_values check_root
root_authority state root installation = do
  refuse (not (valid_id installation)) installation_required
  check_dataset root
  values ← root_values root state.properties []
  check_root state root installation values

abbrev pub is_received : Source → Bool
is_received received = true
is_received local = false
is_received (other_source s) = false

-- The loop of `storedLineage`.
unfoldable pub lineage_loop : Text → List Property → Text → Result LifecycleError Text
lineage_loop dataset [] lineage = ok lineage
lineage_loop dataset (p ∷ ps) lineage =
    let skipped = lineage_loop dataset ps lineage in
    let taken = lineage_loop dataset ps p.value in
    if not (p.dataset =? dataset) || not (p.name =? lineage_property)
    then skipped
    else if not (is_nil lineage)
        || not (valid_id p.value)
        || not (is_source_local p.source) && not (is_received p.source)
    then err (ambiguous_lineage dataset)
    else taken

-- `storedLineage`, and `DatasetLineage`.
unfoldable pub stored_lineage : State → Text → Result LifecycleError Text
unfolding lineage_loop
stored_lineage state dataset = lineage_loop dataset state.properties [] >>= λ lineage.
    let hidden = hidden_lineage state dataset in
    refuse (not (is_nil hidden) && not (hidden =? lineage)) (conflicting_received dataset)
    >> ok lineage

abbrev pub snapshot_of : State → Object → Snapshot
snapshot_of state o = record {
  name = o.name;
  guid = o.guid;
  properties = keep (λ (p : Property). p.dataset =? o.name) state.properties;
  holds = get_or o.name state.holds [];
  clones = get_or o.name state.clones [];
  resume_required = not (is_nil state.resume_tokens);
}

abbrev pub is_snapshot_in : Text → Object → Bool
is_snapshot_in dataset o = is_snapshot o.kind && has_prefix o.name (dataset ++ codes "@")

unfoldable pub snapshots_in : State → Text → List Snapshot
snapshots_in state dataset = map (snapshot_of state) (keep (is_snapshot_in dataset) state.objects)

unfoldable pub scope_ready : State → Text → Result LifecycleError (Unit {0})
scope_ready state dataset = do
  refuse (not (is_nil state.resume_tokens)) resumable
  refuse
      (not (
        any (λ (o : Object). o.name =? dataset && is_dataset o.kind && not (o.guid == 0))
          state.objects))
      dataset_missing
  ok tt

unfoldable pub dataset_objects : State → List Object
dataset_objects state = keep (λ (o : Object). is_dataset o.kind) state.objects

unfoldable pub subtree : State → Text → List Text
unfolding inside
subtree state root =
    map (λ (o : Object). o.name)
      (keep (λ (o : Object). is_dataset o.kind && inside o.name root) state.objects)

-- The loop of `validateMembers`, with the members seen so far.
unfoldable pub members_loop : Text → List Text → List Text → Result LifecycleError (Unit {0})
members_loop root [] seen = ok tt
members_loop root (member ∷ members) seen =
    let rest = members_loop root members (member ∷ seen) in
    do
      check_dataset member
      refuse (not (inside member root)) (outside_root member)
      refuse (contains seen member) (repeated member)
      rest

unfoldable pub validate_members : Text → List Text → Result LifecycleError (Unit {0})
unfolding members_loop
validate_members root members = refuse (is_nil members) no_members >> members_loop root members []

-- `ActiveRoot`.
unfoldable pub check_active_root : Effective → Text → Result LifecycleError (Unit {0})
check_active_root effective root =
    let none_set : Value = record { value = []; dataset = [] } in
    let source = (get_or (namespace ++ codes "enabled") effective.values none_set).dataset in
    do
      refuse (not effective.enabled || not (is_valid effective)) source_policy
      refuse (is_nil source) no_activation
      refuse (not (source =? root)) (inherited_activation source)
      ok tt

abbrev pub is_local_lineage : Text → Text → Property → Bool
is_local_lineage dataset lineage p = is_row dataset lineage_property p && p.value =? lineage

abbrev pub adopted : Result AdoptError Text → Result LifecycleError Text
adopted (err e) = err (bad_adoption e)
adopted (ok lineage) = ok lineage

-- What `AdoptionLineage` does with the stored lineage.
unfoldable pub adopt_stored : State → Text → Text → Result LifecycleError Text
unfolding snapshots_in
adopt_stored state dataset lineage =
    if is_nil lineage
    then adopted (adopt (snapshots_in state dataset))
    else refuse (not (any (is_local_lineage dataset lineage) state.properties)) provenance_only
      >> ok lineage

unfoldable pub adoption_lineage : State → Text → Result LifecycleError Text
unfolding scope_ready stored_lineage adopt_stored
adoption_lineage state dataset = do
  check_dataset dataset
  scope_ready state dataset
  lineage ← stored_lineage state dataset
  adopt_stored state dataset lineage

abbrev pub owned_by : Result OwnershipError Metadata → Result LifecycleError Metadata
owned_by (err e) = err (bad_ownership e)
owned_by (ok m) = ok m

-- The loop of `findOwned`.
unfoldable pub find_loop : List Snapshot → Text → Text → Result LifecycleError (Snapshot × Metadata)
find_loop [] name lineage = err snapshot_missing
find_loop (s ∷ snapshots) name lineage =
    let rest = find_loop snapshots name lineage in
    if not (s.name =? name) then rest else owned_by (ownership s lineage) >>= λ m. ok (s, m)

unfoldable pub find_owned : State → Text → Text → Text → Result LifecycleError (Snapshot × Metadata)
unfolding find_loop snapshots_in
find_owned state dataset name lineage = find_loop (snapshots_in state dataset) name lineage

unfoldable pub has_object : State → Text → Bool
has_object state name = any (λ (o : Object). o.name =? name) state.objects

abbrev pub has_internal : Snapshot → Bool
has_internal s =
    any (λ (p : Property). p.name =? lineage_property || p.name =? snapshot_property) s.properties

-- The loop of `ValidateLineageEvidence` over the snapshots of the root.
unfoldable pub evidence_loop : List Snapshot → Text → Result LifecycleError (Unit {0})
evidence_loop [] lineage = ok tt
evidence_loop (s ∷ snapshots) lineage =
    let rest = evidence_loop snapshots lineage in
    if not (has_internal s)
    then rest
    else elim (ownership s lineage) [ err e ↦ err (inconsistent_evidence s.name e) | ok _ ↦ rest ]
