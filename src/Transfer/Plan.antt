-- ===== src/Transfer/Plan.antt =====
-- internal/transfer/plan.go: the first half of `Build`, which checks the request and the view of one
-- stream against each other.
use boomerangz.Base.{
  ℕ, Bool, true, false, not, ◌&&◌, ◌||◌, Option, none, some, List, [], ◌∷◌, ltb, ◌==◌,
  if◌then◌else◌, Text, text_key, ℕ_key, ◌=?◌, codes, length, is_nil, any, contains,
}
use boomerangz.Base.Result.{Result, ok, err, ◌>>=◌, ◌>>◌, refuse}
use boomerangz.Base.Dict.{Dict, lookup, insert, has, keys}
use boomerangz.Strings.{contains_any}
use boomerangz.Names.{validate_dataset, inside}
use boomerangz.Policy.{Effective, is_valid}
use boomerangz.Policy.Resolve.{for_replication_scope}
use boomerangz.Lifecycle.{Object, State, is_dataset, check_active_root, root_authority}
use boomerangz.Lifecycle.Merge.{kind_number}
use boomerangz.References.{Reference, Codec, object_map, reference_records, target_id}
use boomerangz.Transfer.{
  Member, Request, Row, Identity, TransferError, source_policy, not_local, canonical_differs,
  not_remote, canonical_required, unsupported_transport, scopes_overlap, source_missing,
  source_escapes, destination_escapes, resumable, member_missing, duplicate_row, incomplete_row,
  duplicate_destination_row, identity_unknown, root_identity_unknown, identity_differs, not_nearest,
  scope_policy, raw_required, suspended, identity_missing, bound_missing, binding_differs,
  member_proofs, of_name, of_lifecycle, of_references, stream, stream_policy, mapped,
  request_transport, canonical_local_target, dataset_of,
}
use boomerangz.Transfer.Binding.{
  TargetBinding, BindingCodec, same_binding, binding_for_target, target_suspended, validate_binding,
  stored_target_binding,
}

pub record View : Type 0 where
  pub stream_name : Text
  pub inventory : List Row
  pub destination_inventory : Option (List Row)
  pub source : State
  pub destination : State
  pub destination_exists : Bool
  pub destination_identity : Identity
  pub root_destination_exists : Bool
  pub root_destination_identity : Identity
  pub binding_identity : Identity

-- What the request says of the stream that is planned.
pub record Scope : Type 0 where
  pub member : Member
  pub policy : Effective
  pub transport : Text
  pub canonical : Text
  pub root : Text
  pub target : Text

abbrev pub is_local_transport : Request → Bool
is_local_transport r = request_transport r =? codes "local"

-- The switch on the transport: the canonical target.
unfoldable pub choose_canonical : Request → Member → Result TransferError Text
choose_canonical r m =
    let own = canonical_local_target r.destination_root in
    let canonical = if is_nil r.canonical_target then own else r.canonical_target in
    let is_root = m.dataset =? r.source in
    let near = do
      refuse (not (contains r.policy.local r.destination_root) && is_root) not_local
      refuse (not (canonical =? own)) canonical_differs
      ok canonical
    in let far = do
      refuse (is_nil r.remote_name || is_root && not (contains r.policy.remote r.remote_name))
          not_remote
      refuse (is_nil r.canonical_target || contains_any r.canonical_target (0 ∷ b'\r' ∷ b'\n' ∷ []))
          canonical_required
      ok r.canonical_target
      in if is_local_transport r
        then near
        else if request_transport r =? codes "ssh" || request_transport r =? codes "native"
        then far
        else err (unsupported_transport (request_transport r))

unfoldable pub choose_scope : Request → View → Result TransferError Scope
unfolding choose_canonical
choose_scope r view = do
  of_name (validate_dataset r.source)
  refuse (not r.policy.enabled || not (is_valid r.policy)) source_policy
  of_lifecycle (check_active_root r.policy r.source)
  m ← stream r (if is_nil view.stream_name then r.source else view.stream_name)
  p ← stream_policy r m
  canonical ← choose_canonical r m
  places ← mapped r m.dataset
  refuse (is_local_transport r && (inside places.0 r.source || inside r.source places.0))
      scopes_overlap
  ok (record {
    member = m;
    policy = p;
    transport = request_transport r;
    canonical = canonical;
    root = places.0;
    target = places.1;
  })

abbrev pub objects_of : State → Dict Text Object
objects_of state = object_map state.objects []

-- A filesystem or volume with a GUID.
abbrev pub is_present : Option Object → Bool
is_present none = false
is_present (some o) = not (o.guid == 0) && is_dataset o.kind

abbrev pub escapes : Text → Object → Bool
escapes scope o = not (inside (dataset_of o.name) scope)

unfoldable pub check_states : Request → View → Scope → Result TransferError (Unit {0})
check_states r view s = do
  refuse (not (is_present (lookup r.source (objects_of view.source)))) source_missing
  refuse (not (is_present (lookup s.member.dataset (objects_of view.source))))
      (member_missing s.member.dataset)
  refuse (any (escapes r.source) view.source.objects) source_escapes
  refuse (any (escapes s.target) view.destination.objects) destination_escapes
  refuse (not (is_nil view.source.resume_tokens) || not (is_nil view.destination.resume_tokens))
      resumable
  ok tt

-- The loop that makes a map of an inventory.
unfoldable pub row_map :
    (Text → TransferError) → List Row → Dict Text Row → Result TransferError (Dict Text Row)
row_map twice [] found = ok found
row_map twice (row ∷ rows) found =
    let rest = row_map twice rows (insert row.name row found) in
    if has row.name found then err (twice row.name) else rest

abbrev pub completes : Object → Option Row → Bool
completes o none = false
completes o (some row) =
    kind_number row.kind == kind_number o.kind && not (is_nil row.encryption_root)

-- The loop over the source's datasets.
unfoldable pub check_rows : Dict Text Row → List Object → Result TransferError (Unit {0})
check_rows rows [] = ok tt
check_rows rows (o ∷ objects) =
    let rest = check_rows rows objects in
    if not (is_dataset o.kind)
    then rest
    else if not (completes o (lookup o.name rows))
    then err (incomplete_row o.name)
    else rest

abbrev pub destination_rows : Request → View → List Row
destination_rows r view =
    if is_local_transport r
    then view.inventory
    else elim view.destination_inventory [ none ↦ view.inventory | some rows ↦ rows ]

abbrev pub is_known : Dict Text Row → Identity → Bool
is_known rows identity = not (is_nil identity.name) && (elim (lookup identity.name rows) [
  | none ↦ false
  | some row ↦ not (is_nil row.name) && kind_number row.kind == kind_number identity.kind
])

-- The longest name of the inventory that the target is or lies in.
unfoldable pub nearest_row : Text → List Text → Text → Text
nearest_row target [] nearest = nearest
nearest_row target (name ∷ names) nearest =
    nearest_row target names
      (if inside target name && ltb (length nearest) (length name) then name else nearest)

abbrev pub is_exact : Text → Identity → Option Object → Bool
is_exact target identity none = false
is_exact target identity (some o) =
    identity.name =? target
    && o.guid == identity.guid
    && kind_number o.kind == kind_number identity.kind

abbrev pub root_misplaced : View → Scope → Bool
root_misplaced view s =
    let name = view.root_destination_identity.name in
    if view.root_destination_exists then not (name =? s.root) else not (inside s.root name)

unfoldable pub check_identities : View → Scope → Dict Text Row → Result TransferError (Unit {0})
unfolding nearest_row
check_identities view s rows = do
  refuse (not (is_known rows view.destination_identity)) identity_unknown
  refuse (not (is_known rows view.root_destination_identity) || root_misplaced view s)
      root_identity_unknown
  let exact =
      is_exact s.target view.destination_identity (lookup s.target (objects_of view.destination))
  refuse (view.destination_exists && not exact) identity_differs
  refuse
      (not view.destination_exists
        && not (nearest_row s.target (keys rows) [] =? view.destination_identity.name))
      not_nearest
  ok tt

abbrev pub is_encrypted_row : Row → Bool
is_encrypted_row row = not (is_nil row.encryption_root) && not (row.encryption_root =? codes "-")

abbrev pub encrypted_at : Text → Dict Text Row → Bool
encrypted_at name rows = elim (lookup name rows) [ none ↦ false | some row ↦ is_encrypted_row row ]

-- The first encrypted dataset below the root.
unfoldable pub encrypted_descendant : Text → List Row → Text
encrypted_descendant source [] = []
encrypted_descendant source (row ∷ rows) =
    let rest = encrypted_descendant source rows in
    if not (row.name =? source) && inside row.name source && is_encrypted_row row
    then row.name
    else rest

-- The policy for the whole scope of a recursive stream.
unfoldable pub scope_policy_of :
    Request → View → Scope → Dict Text Row → Result TransferError Effective
unfolding encrypted_descendant
scope_policy_of r view s rows =
    let encrypted = encrypted_at s.member.dataset rows in
    let descendant = encrypted_descendant r.source view.inventory in
    let p =
      if s.policy.send.replicate
      then for_replication_scope encrypted descendant s.policy
      else s.policy in
    do
      refuse (not (is_valid p)) scope_policy
      refuse (encrypted && p.send.props && not p.send.raw) raw_required
      ok p

abbrev pub is_member_proof : Text → Text → Reference → Bool
is_member_proof target source r = r.target_id =? target && not (r.dataset =? source)

module _ (sha256 : Text → List ℕ) (codec : Codec) (bindings : BindingCodec) where
  -- A stored binding must be the one that is wanted, by the identity that it was bound to where the
  -- root's destination is missing.
  unfoldable pub verify_binding :
      Request → View → Scope → TargetBinding → TargetBinding → Result TransferError TargetBinding
  verify_binding r view s wanted stored = do
    validate_binding sha256 stored
    refuse (not view.root_destination_exists && is_nil view.binding_identity.name) bound_missing
    verified ←
        if view.root_destination_exists
        then ok wanted
        else binding_for_target r s.root view.binding_identity s.transport s.canonical
    refuse (not (same_binding stored verified)) binding_differs
    ok stored

  -- The binding, and whether it is new.
  unfoldable pub settle_binding :
      Request → View → Scope → Result TransferError (TargetBinding × Bool)
  unfolding verify_binding
  settle_binding r view s = do
    refuse (is_nil view.root_destination_identity.name) identity_missing
    wanted ← binding_for_target r s.root view.root_destination_identity s.transport s.canonical
    stored ← stored_target_binding sha256 bindings view.source r.source wanted
    elim stored [
      | none ↦ ok (wanted, true)
      | some b ↦ verify_binding r view s wanted b >>= λ kept. ok (kept, false)
    ]

  -- A recursive stream needs a target that was not last replicated by members.
  unfoldable pub check_proofs :
      Request → View → Effective → Text → TargetBinding → Result TransferError (Unit {0})
  check_proofs r view p lineage b =
      let target = target_id sha256 codec b.canonical_target in
      let checked = do
        refs ← of_references (reference_records sha256 codec view.source r.source lineage)
        refuse (any (is_member_proof target r.source) refs) member_proofs
      in if p.send.replicate then checked else ok tt

-- What is settled before a snapshot is chosen.
pub record Settled : Type 0 where
  pub scope : Scope
  pub policy : Effective
  pub lineage : Text
  pub binding : TargetBinding
  pub binding_new : Bool
  pub destination_rows : Dict Text Row

module _ (sha256 : Text → List ℕ) (codec : Codec) (bindings : BindingCodec)
    (installation : Text) where
  -- `Build`, as far as the check of the member proofs.
  unfoldable pub settle : Request → View → Result TransferError Settled
  unfolding choose_scope check_states row_map check_rows check_identities settle_binding
      check_proofs
  settle r view = do
    s ← choose_scope r view
    check_states r view s
    rows ← row_map duplicate_row view.inventory []
    check_rows rows view.source.objects
    there ← row_map duplicate_destination_row (destination_rows r view) []
    check_identities view s there
    p ← scope_policy_of r view s rows
    lineage ← of_lifecycle (root_authority view.source r.source installation)
    gated ← target_suspended sha256 view.source r.source s.canonical
    refuse gated suspended
    bound ← settle_binding sha256 codec bindings r view s
    check_proofs sha256 codec bindings r view p lineage bound.0
    ok (record {
      scope = s;
      policy = p;
      lineage = lineage;
      binding = bound.0;
      binding_new = bound.1;
      destination_rows = there;
    })
