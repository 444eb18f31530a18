-- ===== src/Transfer/Choice.antt =====
-- internal/transfer/plan.go: the second half of `Build`: the endpoint, the mode with its base, and the
-- snapshots to expect.
use boomerangz.Base.{
  ℕ, ◌-◌, Bool, false, not, ◌&&◌, ◌||◌, Option, none, some, List, [], ◌∷◌, ◌++◌, ltb, ◌==◌,
  if◌then◌else◌, Text, text_key, ℕ_key, ◌=?◌, codes, length, is_nil,
}
use boomerangz.Base.Result.{Result, ok, err, is_ok, ◌>>=◌, ◌>>◌, refuse}
use boomerangz.Base.Dict.{Dict, lookup, has}
use boomerangz.Strings.{trim_prefix, after_last}
use boomerangz.Ownership as Own
use boomerangz.Ownership.{Property, Metadata, OwnershipError}
use boomerangz.Policy.{Effective, Warning}
use boomerangz.Lifecycle.{
  Object, State, is_dataset, is_snapshot, is_bookmark, snapshot_of, stored_lineage,
}
use boomerangz.Lifecycle.Merge.{kind_number}
use boomerangz.References.{Reference, Codec, source_bookmark, reference_records, target_id}
use boomerangz.Transfer.{
  Member, Request, TransferError, ownership_failed, txg_missing, no_snapshot, lineage_conflict,
  endpoint_missing, kinds_differ, destination_lineage, other_guid, pool_root_absent, no_base,
  no_common_base, parent_missing, remote_root_missing, of_lifecycle, of_references, dataset_of,
  can_resume_from_bookmark,
}
use boomerangz.Transfer.Plan.{View, Scope, Settled, objects_of, is_local_transport}

pub record Expected : Type 0 where
  pub source : Text
  pub destination : Text
  pub guid : ℕ
  pub metadata : Option Metadata

pub data PlanWarning : Type 0 where
  of_policy : Warning → PlanWarning
  recursive_semantics : PlanWarning
  foreign : Text → PlanWarning

pub data Mode : Type 0 where
  up_to_date full incremental_latest incremental_all : Mode

-- `ownership` of plan.go.
abbrev pub owned : State → Object → Text → Result OwnershipError Metadata
owned state o lineage = Own.ownership (snapshot_of state o) lineage

abbrev pub is_endpoint : Member → Object → Bool
is_endpoint m o =
    is_snapshot o.kind
    && dataset_of o.name =? m.dataset
    && (is_nil m.snapshot || o.name =? m.snapshot)

abbrev pub txg_of : Option Object → ℕ
txg_of none = 0
txg_of (some o) = o.create_txg

abbrev pub newer : Object → Option Object → Option Object
newer o best = if ltb (txg_of best) o.create_txg then some o else best

-- The loop that chooses the endpoint: the owned snapshot of the greatest transaction.
unfoldable pub endpoint_loop :
    State → Text → Member → List Object → Option Object → Result TransferError (Option Object)
endpoint_loop state lineage m [] best = ok best
endpoint_loop state lineage m (o ∷ objects) best =
    let skipped = endpoint_loop state lineage m objects best in
    let taken = endpoint_loop state lineage m objects (newer o best) in
    if not (is_endpoint m o) || not (is_ok (owned state o lineage))
    then skipped
    else if o.create_txg == 0
    then err txg_missing
    else taken

unfoldable pub choose_endpoint : State → Text → Member → Result TransferError Object
unfolding endpoint_loop
choose_endpoint state lineage m = endpoint_loop state lineage m state.objects none >>= λ best.
    elim best [ none ↦ err no_snapshot | some o ↦ ok o ]

abbrev pub conflicts_with : Text → Text → Bool
conflicts_with lineage found = not (is_nil found) && not (found =? lineage)

-- What is checked of a dataset that the destination has.
unfoldable pub check_existing : State → Text → Object → Text → Result TransferError (Unit {0})
check_existing destination lineage o place =
    let checked = λ (existing : Object). do
      refuse (not (kind_number existing.kind == kind_number o.kind)) kinds_differ
      own ← of_lifecycle (stored_lineage destination place)
      refuse (conflicts_with lineage own) destination_lineage
    in elim (lookup place (objects_of destination)) [
      | none ↦ ok tt
      | some existing ↦ checked existing
    ]

abbrev pub owned_or : Result OwnershipError Metadata → Result TransferError Metadata
owned_or (err e) = err (ownership_failed e)
owned_or (ok m) = ok m

-- The endpoint of one dataset of the stream.
unfoldable pub endpoint_of :
    Request → View → Scope → Text → Text → Object → Result TransferError Expected
unfolding check_existing
endpoint_of r view s lineage component o =
    let place = s.root ++ trim_prefix o.name r.source in
    let name = o.name ++ b'@' ∷ component in
    let found : Result TransferError Object = elim (lookup name (objects_of view.source)) [
      | none ↦ err (endpoint_missing o.name)
      | some snap ↦ ok snap
    ] in
    do
      own ← of_lifecycle (stored_lineage view.source o.name)
      refuse (conflicts_with lineage own) (lineage_conflict o.name)
      snap ← found
      m ← owned_or (owned view.source snap lineage)
      check_existing view.destination lineage o place
      ok (record {
        source = snap.name;
        destination = place ++ b'@' ∷ component;
        guid = snap.guid;
        metadata = some m;
      })

-- The loop over the source's datasets: those of the stream.
unfoldable pub endpoints_loop :
    Request → View → Scope → Bool → Text → Text → List Object → Result TransferError (List Expected)
unfolding endpoint_of
endpoints_loop r view s recursive lineage component [] = ok []
endpoints_loop r view s recursive lineage component (o ∷ objects) =
    let rest = endpoints_loop r view s recursive lineage component objects in
    if not (is_dataset o.kind) || not recursive && not (o.name =? s.member.dataset)
    then rest
    else endpoint_of r view s lineage component o >>= λ e. rest >>= λ es. ok (e ∷ es)

abbrev pub received_as : Option Object → ℕ → Bool
received_as none guid = false
received_as (some o) guid = o.guid == guid

abbrev pub is_other : Option Object → ℕ → Bool
is_other none guid = false
is_other (some o) guid = not (o.guid == guid)

-- Whether the destination has all the endpoints; a name with another GUID is refused.
unfoldable pub already_loop : Dict Text Object → List Expected → Bool → Result TransferError Bool
already_loop there [] already = ok already
already_loop there (e ∷ endpoints) already =
    let found = lookup e.destination there in
    let rest = already_loop there endpoints (already && received_as found e.guid) in
    if is_other found e.guid then err other_guid else rest

-- The part of a name before its last slash, if it has one.
abbrev pub parent_of : Text → Option Text
parent_of name =
    let last = after_last b'/' name in
    if length last == length name
    then none
    else some (Own.take (length name - length last - 1) name)

-- `strings.LastIndexByte(parent, '/')`, and the parent that a full stream needs.
unfoldable pub receive_parent : Request → Scope → Result TransferError Text
receive_parent r s =
    let remote_member = not (is_local_transport r) && not (s.member.dataset =? r.source) in
    if s.policy.discard =? codes "off" && not remote_member
    then elim (parent_of r.destination_root) [ none ↦ err pool_root_absent | some p ↦ ok p ]
    else ok r.destination_root

unfoldable pub check_parent : Request → Settled → Result TransferError (Unit {0})
unfolding receive_parent
check_parent r st =
    let remote_member = not (is_local_transport r) && not (st.scope.member.dataset =? r.source) in
    do
      parent ← receive_parent r st.scope
      refuse
          (not (has parent st.destination_rows)
            && (st.scope.policy.discard =? codes "off" && remote_member))
          (remote_root_missing st.scope.member.dataset)
      refuse (not (has parent st.destination_rows)) (parent_missing parent)

-- The newest snapshot of the destination.
unfoldable pub latest_loop : Text → List Object → Option Object → Option Object
latest_loop target [] latest = latest
latest_loop target (o ∷ objects) latest =
    latest_loop target objects
      (if is_snapshot o.kind && dataset_of o.name =? target then newer o latest else latest)

-- A snapshot of the source that can be the base: the first that is owned.
abbrev pub is_base : State → Text → Text → ℕ → ℕ → Object → Bool
is_base state lineage dataset guid limit o =
    dataset_of o.name =? dataset
    && o.guid == guid
    && ltb o.create_txg limit
    && is_snapshot o.kind
    && is_ok (owned state o lineage)

unfoldable pub base_loop : State → Text → Text → ℕ → ℕ → List Object → Option Object
base_loop state lineage dataset guid limit [] = none
base_loop state lineage dataset guid limit (o ∷ objects) =
    let rest = base_loop state lineage dataset guid limit objects in
    if is_base state lineage dataset guid limit o then some o else rest

-- A bookmark of the source that can be the base.
abbrev pub is_base_bookmark : ℕ → ℕ → Object → Bool
is_base_bookmark guid limit o =
    is_bookmark o.kind && o.guid == guid && ltb 0 o.create_txg && ltb o.create_txg limit

unfoldable pub bookmark_loop :
    Dict Text Object → Text → Text → ℕ → ℕ → List Reference → Option Object
bookmark_loop objects target dataset guid limit [] = none
bookmark_loop objects target dataset guid limit (r ∷ refs) =
    let rest = bookmark_loop objects target dataset guid limit refs in
    if not (r.target_id =? target) || not (r.dataset =? dataset)
    then rest
    else elim (lookup (source_bookmark r r.dataset) objects) [
      | none ↦ rest
      | some o ↦ if is_base_bookmark guid limit o then some o else rest
    ]

module _ (sha256 : Text → List ℕ) (codec : Codec) where
  -- The base of an incremental stream.
  unfoldable pub choose_base :
      Request → View → Settled → Object → Object → Result TransferError Object
  unfolding base_loop bookmark_loop
  choose_base r view st endpoint latest =
      let dataset = st.scope.member.dataset in
      let target = target_id sha256 codec st.binding.canonical_target in
      let marked = do
        refs ← of_references (reference_records sha256 codec view.source r.source st.lineage)
        elim (bookmark_loop (objects_of view.source) target dataset latest.guid endpoint.create_txg
            refs) [ none ↦ err no_common_base | some o ↦ ok o ]
      in elim (base_loop view.source st.lineage dataset latest.guid endpoint.create_txg
        view.source.objects) [
          | some o ↦ ok o
          | none ↦ if can_resume_from_bookmark st.policy then marked else err no_common_base
        ]

  -- The base of an incremental stream, from the destination's newest snapshot.
  unfoldable pub choose_increment : Request → View → Settled → Object → Result TransferError Object
  unfolding latest_loop choose_base
  choose_increment r view st endpoint =
      elim (latest_loop st.scope.target view.destination.objects none) [
        | none ↦ err no_base
        | some latest ↦ choose_base r view st endpoint latest
      ]

  abbrev pub mode_of : Effective → Mode
  mode_of p = if p.incremental =? codes "all" then incremental_all else incremental_latest

  -- The mode, with the base of an incremental stream.
  unfoldable pub choose_mode :
      Request → View → Settled → Object → Bool → Result TransferError (Mode × Option Object)
  unfolding check_parent choose_increment
  choose_mode r view st endpoint already =
      let whole : Result TransferError (Mode × Option Object) =
        check_parent r st >> ok (full, none) in
      let more : Result TransferError (Mode × Option Object) =
        choose_increment r view st endpoint >>= λ base. ok (mode_of st.policy, some base) in
      if already then ok (up_to_date, none) else if not view.destination_exists then whole else more
