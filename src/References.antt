-- ===== src/References.antt =====
-- internal/lifecycle/reference.go: the proofs, holds and bookmarks by which a target's snapshots are
-- kept, and inspection.go's `ReleaseCompletedHold`.
-- Parameters: SHA-256 as a function from texts to bytes, and the JSON codec of a stored record. The
-- hierarchy lock makes the calls follow one another, and the backend is taken to be one that offers
-- the reference operations. Two states are compared as `reflect.DeepEqual` compares them, where no
-- difference is made between a nil and an empty map or slice.
pub mod Service
pub mod Read
pub mod Operations
pub mod Sources
pub mod Stored
pub mod Protect
pub mod Decided
pub mod Undone
pub mod Checkpoint
pub mod Examples
use boomerangz.Base.{
  is_none, Some, ℕ, zero, suc, ◌+◌, ◌-◌, ◌*◌, ◌/◌, ◌%◌, ◌^◌, ◌≤◌, ◌<◌, ◌≡◌, refl, sym, ap, ◌∙◌,
  subst, ◌≢◌, ◌↔◌, ◌⊎◌, inl, inr, Bool, true, false, not, ◌&&◌, ◌||◌, Option, none, some, List, [],
  ◌∷◌, ◌++◌, map, append_assoc, append-nil, arith, ltb, leb, ◌==◌, if◌then◌else◌, Bool-cases,
  Option-cases, Text, Key, text_dec, text_key, ℕ_key, ◌=?◌, codes, length, is_nil, length-append,
  keep, any, every, All, All-append, contains, remove, IsNodup, contains-append, contains-remove,
  IsNodup-remove, IsNodup-snoc,
}
use boomerangz.Base.Result.{Result, ok, err, is_ok, refuse}
use boomerangz.Base.Dict.{Dict, lookup, insert, get_or, has}
use boomerangz.Base.Sorting.{text_leb, sort_by}
use boomerangz.Strings.{has_prefix, trim_prefix, cut, split, trim_space, contains_any}
use boomerangz.Names.{validate_dataset, inside}
use boomerangz.Ownership.{
  Property, Source, Snapshot, Metadata, valid_id, snapshot_prefix, component_name,
}
use boomerangz.Policy.{is_source_local}
use boomerangz.Lifecycle.{
  State, Object, LifecycleError, is_dataset, is_bookmark, reference_prefix, records_readable,
  root_authority, scope_ready, find_owned, has_object, check_dataset,
}
use boomerangz.Lifecycle.Merge.{same_object, same_property, merge_states}
use boomerangz.Lifecycle.Backend.{
  Call, set_property, inherit_property, hold, release, make_bookmark, destroy_bookmark, Backend,
  Act, Run, lift, read_as, perform_all, ◌>>=◌, ◌>>◌,
}

pub record Reference : Type 0 where
  pub target_id : Text
  pub dataset : Text
  pub metadata : Metadata
  pub recursive : Bool

-- `referenceRecord`: what the stored value says.
pub record ReferenceRecord : Type 0 where
  pub stream : Text
  pub created : ℕ
  pub recursive : Bool

pub record ReferenceSource : Type 0 where
  pub dataset : Text
  pub guid : ℕ

pub data ReferenceError : Type 0 where
  lifecycle : LifecycleError → ReferenceError
  backend_failed : Text → ReferenceError
  invalid_key invalid_record another_stream no_target no_snapshots state_changed : ReferenceError
  invalid_proof bookmark_mismatch no_guid outside_stream duplicate_snapshot : Text → ReferenceError
  other_instant no_stream_snapshot conflicting_proof unproven_hold missing_proof : ReferenceError
  unprotected guid_mismatch not_protected : Text → ReferenceError
  hold_changed owner_changed checkpoint_missing value_too_long : ReferenceError

-- `json.Marshal` and a strict `Decode` of a record.
pub record Codec : Type 0 where
  pub encode : ReferenceRecord → Text
  pub decode : Text → Option ReferenceRecord
  pub decode-encode : (r : ReferenceRecord) → decode (encode r) ≡ some r

abbrev pub of_lifecycle : {A : Type 0} → Result LifecycleError A → Result ReferenceError A
of_lifecycle (err e) = err (lifecycle e)
of_lifecycle (ok a) = ok a

abbrev pub dataset_of : Text → Text
dataset_of name = elim (cut b'@' name) [ none ↦ name | some (dataset, component) ↦ dataset ]

-- The names of a reference that need no hash.
abbrev pub hold_name : Reference → Text
hold_name r = snapshot_prefix ++ r.target_id

abbrev pub source_snapshot : Reference → Text → Text
source_snapshot r dataset = dataset ++ b'@' ∷ component_name r.metadata

abbrev pub source_bookmark : Reference → Text → Text
source_bookmark r dataset = dataset ++ b'#' ∷ (hold_name r ++ b'-' ∷ r.metadata.snapshot)

abbrev pub reference_subtree : Reference → Text
reference_subtree r = if r.recursive then r.dataset else []

abbrev pub is_held : State → Text → Text → Bool
is_held state snapshot tag = contains (get_or snapshot state.holds []) tag

-- The map of the objects by name: the last of a name counts.
unfoldable pub object_map : List Object → Dict Text Object → Dict Text Object
object_map [] found = found
object_map (o ∷ os) found = object_map os (insert o.name o found)

abbrev pub is_candidate : Reference → Object → Bool
is_candidate r o =
    is_dataset o.kind
    && (o.name =? r.dataset || (r.recursive && has_prefix o.name (r.dataset ++ codes "/")))

-- `slices.Compact`: of equal neighbours the first stays.
abbrev pub compact_from : Text → List Text → List Text
compact_from last [] = []
compact_from last (x ∷ xs) = let rest = compact_from x xs in if last =? x then rest else x ∷ rest

abbrev pub compact : List Text → List Text
compact [] = []
compact (x ∷ xs) = x ∷ compact_from x xs

unfoldable pub candidates : Reference → State → List Text
candidates r state =
    compact (sort_by text_leb (map (λ (o : Object). o.name) (keep (is_candidate r) state.objects)))

abbrev pub guid_of : Option Object → ℕ
guid_of none = 0
guid_of (some o) = o.guid

-- A bookmark that is of another kind, has no GUID, or not that of its snapshot.
abbrev pub mismatches : Option Object → Option Object → Bool
mismatches snapshot none = false
mismatches none (some b) = not (is_bookmark b.kind) || b.guid == 0
mismatches (some s) (some b) = not (is_bookmark b.kind) || b.guid == 0 || not (b.guid == s.guid)

-- One round of the loop of `Sources`: nothing where neither hold nor bookmark is there.
unfoldable pub source_at :
    Reference
    → State
    → Text
    → Option Object
    → Option Object
    → Result ReferenceError (Option ReferenceSource)
source_at r state dataset snapshot bookmark =
    let guid = if is_none snapshot then guid_of bookmark else guid_of snapshot in
    if not (is_held state (source_snapshot r dataset) (hold_name r)) && is_none bookmark
    then ok none
    else if mismatches snapshot bookmark
    then err (bookmark_mismatch dataset)
    else if guid == 0
    then err (no_guid dataset)
    else ok (some (record { dataset = dataset; guid = guid }))

abbrev pub cons_source :
    Option ReferenceSource
    → Result ReferenceError (List ReferenceSource)
    → Result ReferenceError (List ReferenceSource)
cons_source none rest = rest
cons_source (some s) (err e) = err e
cons_source (some s) (ok sources) = ok (s ∷ sources)

unfoldable pub sources_loop :
    Reference → State → Dict Text Object → List Text → Result ReferenceError (List ReferenceSource)
unfolding source_at
sources_loop r state objects [] = ok []
sources_loop r state objects (dataset ∷ datasets) =
    let rest = sources_loop r state objects datasets in
    elim (source_at r state dataset (lookup (source_snapshot r dataset) objects)
      (lookup (source_bookmark r dataset) objects)) [
        | err e ↦ err e
        | ok found ↦ cons_source found rest
      ]

-- `Sources`.
unfoldable pub sources : Reference → State → Result ReferenceError (List ReferenceSource)
unfolding sources_loop candidates object_map
sources r state = sources_loop r state (object_map state.objects []) (candidates r state)

abbrev pub hex_digit : ℕ → ℕ
hex_digit n = if ltb n 10 then b'0' + n else b'a' + (n - 10)

-- `hex.EncodeToString`.
unfoldable pub hex : List ℕ → Text
hex [] = []
hex (byte ∷ bytes) = hex_digit (byte / 16) ∷ hex_digit (byte % 16) ∷ hex bytes

abbrev pub take : ℕ → List ℕ → List ℕ
take zero s = []
take (suc n) [] = []
take (suc n) (c ∷ s) = c ∷ take n s

abbrev pub is_hex_letter : ℕ → Bool
is_hex_letter c = leb b'0' c && leb c b'9' || leb b'a' c && leb c b'f' || leb b'A' c && leb c b'F'

-- The end of the year 9999, in nanoseconds since the first instant of the year 1.
abbrev pub last_time : ℕ
last_time = 3652059 * 86400 * 1000000000

abbrev pub same_metadata : Metadata → Metadata → Bool
same_metadata a b = a.lineage =? b.lineage && a.snapshot =? b.snapshot && a.created == b.created

abbrev pub same_bool : Bool → Bool → Bool
same_bool true b = b
same_bool false b = not b

abbrev pub same_reference : Reference → Reference → Bool
same_reference a b =
    a.target_id =? b.target_id
    && a.dataset =? b.dataset
    && same_metadata a.metadata b.metadata
    && same_bool a.recursive b.recursive

abbrev pub stream_of : Text → Text → Text
stream_of root stream = if is_nil stream then root else root ++ b'/' ∷ stream

module _ (sha256 : Text → List ℕ) (codec : Codec) where
  unfoldable pub target_id : Text → Text
  unfolding hex
  target_id target = hex (sha256 target)

  unfoldable pub stream_id : Text → Text
  unfolding hex
  stream_id dataset = hex (take 16 (sha256 dataset))

  -- `property`, the name under which a reference is stored.
  unfoldable pub property_name : Reference → Text
  property_name r =
      reference_prefix
      ++ (r.target_id ++ b':' ∷ (stream_id r.dataset ++ b':' ∷ r.metadata.snapshot))

  -- What `decodeReference` makes of the key's parts and the record.
  unfoldable pub reference_of :
      Text → Text → Text → Text → Text → ReferenceRecord → Result ReferenceError Reference
  reference_of name root lineage target snapshot record' =
      let stream = stream_of root record'.stream in
      let r : Reference = record {
        target_id = target;
        dataset = stream;
        metadata = record { lineage = lineage; snapshot = snapshot; created = record'.created };
        recursive = record'.recursive;
      } in
      if not (is_ok (validate_dataset stream))
        || record'.created == 0
        || leb last_time record'.created
      then err invalid_record
      else if not (property_name r =? name)
      then err another_stream
      else ok r

  unfoldable pub decode_parts : Property → Text → Text → List Text → Result ReferenceError Reference
  unfolding reference_of
  decode_parts p root lineage (target ∷ stream ∷ snapshot ∷ []) =
      if not (valid_id lineage) || not (length target == 64) || not (valid_id snapshot)
      then err invalid_key
      else if not (every is_hex_letter target)
      then err invalid_key
      else elim (codec.decode p.value) [
        | none ↦ err invalid_record
        | some found ↦ reference_of p.name root lineage target snapshot found
      ]
  decode_parts p root lineage _ = err invalid_key

  unfoldable pub decode_reference : Property → Text → Text → Result ReferenceError Reference
  unfolding decode_parts
  decode_reference p root lineage =
      decode_parts p root lineage (split b':' (trim_prefix p.name reference_prefix))

  unfoldable pub encode_reference : Reference → Text → Text
  encode_reference r root = codec.encode (record {
    stream = if r.dataset =? root then [] else trim_prefix r.dataset (root ++ codes "/");
    created = r.metadata.created;
    recursive = r.recursive;
  })

  abbrev pub is_proof : Text → Property → Bool
  is_proof dataset p =
      p.dataset =? dataset && has_prefix p.name reference_prefix && is_source_local p.source

  abbrev pub cons_reference :
      Reference → Result ReferenceError (List Reference) → Result ReferenceError (List Reference)
  cons_reference r (err e) = err e
  cons_reference r (ok refs) = ok (r ∷ refs)

  -- The loop of `referenceRecords`, with the names seen so far.
  unfoldable pub records_loop :
      Text → Text → List Property → List Text → Result ReferenceError (List Reference)
  unfolding decode_reference
  records_loop dataset lineage [] seen = ok []
  records_loop dataset lineage (p ∷ ps) seen =
      let skipped = records_loop dataset lineage ps seen in
      let rest = records_loop dataset lineage ps (p.name ∷ seen) in
      if not (is_proof dataset p) then skipped else elim (decode_reference p dataset lineage) [
        | err e ↦ err (invalid_proof p.name)
        | ok r ↦ if contains seen p.name then err (invalid_proof p.name) else cons_reference r rest
      ]

  -- `referenceRecords`, and `References`.
  unfoldable pub reference_records : State → Text → Text → Result ReferenceError (List Reference)
  unfolding records_loop
  reference_records state dataset lineage = elim (records_readable state dataset) [
    | err e ↦ err (lifecycle e)
    | ok _ ↦ records_loop dataset lineage state.properties []
  ]
