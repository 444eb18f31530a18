-- ===== src/Transfer.antt =====
-- internal/transfer/plan.go: a request to replicate, its streams and where they are received.
-- Texts that quote nothing but names are constructors with these names.
pub mod Streams
pub mod Binding
pub mod Plan
pub mod Choice
pub mod Build
pub mod Examples
use boomerangz.Base.{
  is_none, Some, ℕ, zero, suc, ◌+◌, ◌-◌, ◌*◌, ◌/◌, ◌%◌, ◌^◌, ◌≤◌, ◌<◌, ◌≡◌, refl, sym, ap, ◌∙◌,
  subst, ◌≢◌, ◌↔◌, ◌⊎◌, inl, inr, Bool, true, false, not, ◌&&◌, ◌||◌, Option, none, some, List, [],
  ◌∷◌, ◌++◌, map, append_assoc, append-nil, arith, ltb, leb, ◌==◌, if◌then◌else◌, Bool-cases,
  Option-cases, Text, Key, text_dec, text_key, ℕ_key, ◌=?◌, codes, length, is_nil, length-append,
  keep, any, every, All, All-append, contains, remove, IsNodup, contains-append, contains-remove,
  IsNodup-remove, IsNodup-snoc,
}
use boomerangz.Base.Result.{Result, ok, err, is_ok, ◌>>=◌, ◌>>◌, refuse}
use boomerangz.Base.Dict.{Dict}
use boomerangz.Base.Sorting.{text_leb, sort_by}
use boomerangz.Strings.{cut, trim_prefix}
use boomerangz.Names.{
  NameError, ReceiveDiscard, receive_exact, receive_drop_first, receive_drop_all, validate_dataset,
  inside, map_receive_dataset,
}
use boomerangz.Policy.{Effective, is_valid}
use boomerangz.Lifecycle.{ObjectType, State, LifecycleError}
use boomerangz.References.{ReferenceError}
use boomerangz.Ownership.{OwnershipError}

pub record Member : Type 0 where
  pub dataset : Text
  pub policy : Effective
  pub snapshot : Text

pub record Request : Type 0 where
  pub source : Text
  pub destination_root : Text
  pub snapshot : Text
  pub policy : Effective
  pub members : List Member
  pub transport : Text
  pub remote_name : Text
  pub canonical_target : Text

-- A row of an inventory, `zfs.Dataset`.
pub record Row : Type 0 where
  pub name : Text
  pub kind : ObjectType
  pub encryption_root : Text

-- `zfs.DatasetIdentity`; an empty name stands for none.
pub record Identity : Type 0 where
  pub name : Text
  pub kind : ObjectType
  pub guid : ℕ
  pub pool_guid : ℕ

pub data TransferError : Type 0 where
  bad_name : NameError → TransferError
  lifecycle : LifecycleError → TransferError
  references : ReferenceError → TransferError
  ownership_failed : OwnershipError → TransferError
  recursive_members : TransferError
  outside_root repeated_member no_stream stream_outside : Text → TransferError
  member_policy member_recursive member_mapping member_target : Text → TransferError
  source_policy not_local canonical_differs not_remote canonical_required : TransferError
  unsupported_transport : Text → TransferError
  scopes_overlap source_missing source_escapes destination_escapes resumable : TransferError
  member_missing duplicate_row incomplete_row duplicate_destination_row : Text → TransferError
  identity_unknown root_identity_unknown identity_differs not_nearest : TransferError
  scope_policy raw_required suspended identity_missing bound_missing : TransferError
  binding_differs member_proofs txg_missing no_snapshot : TransferError
  lineage_conflict endpoint_missing : Text → TransferError
  kinds_differ destination_lineage other_guid pool_root_absent no_base no_common_base :
      TransferError
  parent_missing remote_root_missing : Text → TransferError
  invalid_suspension ambiguous_binding invalid_binding invalid_mapping invalid_anchor :
      TransferError
  mapping_changed : Text → Text → TransferError
  anchor_outside bad_relative_path incomplete_binding : TransferError

abbrev pub of_name : {A : Type 0} → Result NameError A → Result TransferError A
of_name (err e) = err (bad_name e)
of_name (ok a) = ok a

abbrev pub of_lifecycle : {A : Type 0} → Result LifecycleError A → Result TransferError A
of_lifecycle (err e) = err (lifecycle e)
of_lifecycle (ok a) = ok a

abbrev pub of_references : {A : Type 0} → Result ReferenceError A → Result TransferError A
of_references (err e) = err (references e)
of_references (ok a) = ok a

abbrev pub member_leb : Member → Member → Bool
member_leb a b = text_leb a.dataset b.dataset

abbrev pub repeats : Option Text → Text → Bool
repeats none dataset = false
repeats (some last) dataset = last =? dataset

-- The loop of `Streams` over the sorted members, with the last one's dataset.
unfoldable pub check_members : Text → Option Text → List Member → Result TransferError (Unit {0})
check_members source last [] = ok tt
check_members source last (m ∷ members) =
    let rest = check_members source (some m.dataset) members in
    do
      of_name (validate_dataset m.dataset)
      refuse (not (inside m.dataset source)) (outside_root m.dataset)
      refuse (repeats last m.dataset) (repeated_member m.dataset)
      rest

abbrev pub root_member : Request → Member
root_member r = record { dataset = r.source; policy = r.policy; snapshot = r.snapshot }

-- `Streams`.
unfoldable pub streams : Request → Result TransferError (List Member)
unfolding check_members
streams r =
    let members = sort_by member_leb r.members in
    if is_nil r.members
    then ok (root_member r ∷ [])
    else if r.policy.send.replicate
    then err recursive_members
    else check_members r.source none members >> ok members

-- The loop of `stream`.
unfoldable pub find_stream : Text → List Member → Result TransferError Member
find_stream dataset [] = err (no_stream dataset)
find_stream dataset (m ∷ members) =
    let rest = find_stream dataset members in if m.dataset =? dataset then ok m else rest

unfoldable pub stream : Request → Text → Result TransferError Member
unfolding streams find_stream
stream r dataset = streams r >>= λ members. find_stream dataset members

-- `zfs.ReceiveDiscard` of a policy's text.
abbrev pub discard_of : Text → ReceiveDiscard
discard_of text =
    if text =? codes "off"
    then receive_exact
    else if text =? codes "first"
    then receive_drop_first
    else if text =? codes "all"
    then receive_drop_all
    else ReceiveDiscard.other text

-- `mapped`: the root's destination, and the stream's.
unfoldable pub mapped : Request → Text → Result TransferError (Text × Text)
mapped r name = do
  root ← of_name (map_receive_dataset r.source r.destination_root (discard_of r.policy.discard))
  refuse (not (inside name r.source)) (stream_outside name)
  ok (root, root ++ trim_prefix name r.source)

abbrev pub request_transport : Request → Text
request_transport r = if is_nil r.transport then codes "local" else r.transport

abbrev pub canonical_local_target : Text → Text
canonical_local_target root = codes "local:" ++ root

abbrev pub canonical_of : Request → Text
canonical_of r =
    if request_transport r =? codes "local" && is_nil r.canonical_target
    then canonical_local_target r.destination_root
    else r.canonical_target

abbrev pub can_resume_from_bookmark : Effective → Bool
can_resume_from_bookmark p = p.incremental =? codes "latest" && not p.send.replicate

-- Whether the policy sends to the request's target.
abbrev pub is_configured : Request → Effective → Bool
is_configured r p =
    if request_transport r =? codes "local"
    then contains p.local r.destination_root
    else contains p.remote r.remote_name

unfoldable pub stream_policy : Request → Member → Result TransferError Effective
stream_policy r m =
    let p = m.policy in
    let own = do
      refuse (not p.enabled || not (is_valid p)) (member_policy m.dataset)
      refuse p.send.replicate (member_recursive m.dataset)
      refuse (not (p.discard =? r.policy.discard)) (member_mapping m.dataset)
      refuse (not (is_configured r p)) (member_target m.dataset)
      ok p
    in if m.dataset =? r.source then ok r.policy else own

-- `datasetOf`: the part before the first `@`, and of that the part before the first `#`.
abbrev pub before : ℕ → Text → Text
before sep name = elim (cut sep name) [ none ↦ name | some (first, rest) ↦ first ]

unfoldable pub dataset_of : Text → Text
dataset_of name = before b'#' (before b'@' name)
