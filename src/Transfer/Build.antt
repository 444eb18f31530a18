-- ===== src/Transfer/Build.antt =====
-- internal/transfer/plan.go: `Build`, which puts a plan together. Its warnings stand in the order
-- found; their sorting as texts, and dropping equal ones, serves the reader only. An error leaves
-- no plan, where the code returns the part that it has filled in beside the error.
pub mod Chosen
pub mod Modes
pub mod Received
pub mod Placed
pub mod Sound
mod Examples
use boomerangz.Base.{
  is_none, Some, ℕ, zero, suc, ◌+◌, ◌-◌, ◌*◌, ◌/◌, ◌%◌, ◌^◌, ◌≤◌, ◌<◌, ◌≡◌, refl, sym, ap, ◌∙◌,
  subst, ◌≢◌, ◌↔◌, ◌⊎◌, inl, inr, Bool, true, false, not, ◌&&◌, ◌||◌, Option, none, some, List, [],
  ◌∷◌, ◌++◌, map, append_assoc, append-nil, arith, ltb, leb, ◌==◌, if◌then◌else◌, Bool-cases,
  Option-cases, Text, Key, text_dec, text_key, ℕ_key, ◌=?◌, codes, length, is_nil, length-append,
  keep, any, every, All, All-append, contains, remove, IsNodup, contains-append, contains-remove,
  IsNodup-remove, IsNodup-snoc,
}
use boomerangz.Base.Result.{Result, ok, err, is_ok, ◌>>=◌, ◌>>◌, refuse}
use boomerangz.Base.Dict.{Dict, lookup, insert, has, keys}
use boomerangz.Base.Sorting.{text_leb, sort_by}
use boomerangz.Strings.{trim_prefix, has_prefix}
use boomerangz.Names.{ReceiveDiscard, receive_exact}
use boomerangz.Ownership.{Property, Metadata, OwnershipError}
use boomerangz.Policy.{Effective, Warning, Value, is_public}
use boomerangz.Lifecycle.{
  ObjectType, filesystem, volume, snapshot, bookmark, Object, State, is_snapshot, reference_prefix,
  target_state_prefix,
}
use boomerangz.References.{Codec, compact}
use boomerangz.Transfer.{Member, Request, TransferError, dataset_of}
use boomerangz.Transfer.Binding.{TargetBinding, BindingCodec}
use boomerangz.Transfer.Plan.{View, Scope, Settled, objects_of, settle}
use boomerangz.Transfer.Choice.{
  Expected, PlanWarning, of_policy, recursive_semantics, foreign, Mode, up_to_date, full,
  incremental_latest, incremental_all, owned, choose_endpoint, endpoints_loop, already_loop,
  choose_mode, txg_of,
}

pub record SendOptions : Type 0 where
  pub source : Text
  pub snapshot : Text
  pub base : Text
  pub intermediates : Bool
  pub recursive : Bool
  pub large_blocks : Bool
  pub compressed : Bool
  pub embedded_data : Bool
  pub raw : Bool
  pub properties : Bool

pub record ReceiveOptions : Type 0 where
  pub root : Text
  pub discard : ReceiveDiscard
  pub set : Dict Text Text
  pub exclude : List Text

pub record Plan : Type 0 where
  pub source : Text
  pub destination : Text
  pub snapshot : Text
  pub base : Text
  pub lineage : Text
  pub mode : Mode
  pub send : SendOptions
  pub receive : ReceiveOptions
  pub expected : List Expected
  pub endpoints : List Expected
  pub warnings : List PlanWarning
  pub target_binding : TargetBinding
  pub binding_new : Bool

abbrev pub is_hidden : Property → Bool
is_hidden p =
    is_public p.name || has_prefix p.name reference_prefix || has_prefix p.name target_state_prefix

-- `completeReceiveExclusions`.
unfoldable pub receive_exclusions : Effective → State → List Text
receive_exclusions p source = compact (
    sort_by text_leb (
      p.ignore_properties
      ++ (keep is_public (keys p.values)
          ++ map (λ (q : Property). q.name) (keep is_hidden source.properties))))

abbrev canmount : Text
canmount = codes "canmount"

abbrev is_filesystem : Option Object → Bool
is_filesystem none = false
is_filesystem (some o) = elim o.kind [
  | filesystem ↦ true
  | volume ↦ false
  | snapshot ↦ false
  | bookmark ↦ false
]

-- The properties that a receive sets.
unfoldable pub receive_properties : Effective → Option Object → Dict Text Text
receive_properties p sent =
    if is_filesystem sent && not (has canmount p.set_properties)
    then insert canmount (codes "noauto") p.set_properties
    else p.set_properties

abbrev pub name_of : Option Object → Text
name_of none = []
name_of (some o) = o.name

abbrev pub is_all : Mode → Bool
is_all incremental_all = true
is_all incremental_latest = false
is_all full = false
is_all up_to_date = false

abbrev pub is_full : Mode → Bool
is_full full = true
is_full incremental_latest = false
is_full incremental_all = false
is_full up_to_date = false

abbrev pub is_current : Mode → Bool
is_current up_to_date = true
is_current full = false
is_current incremental_latest = false
is_current incremental_all = false

unfoldable pub has_suffix : Text → Text → Bool
has_suffix [] suffix = is_nil suffix
has_suffix (c ∷ s) suffix = (c ∷ s) =? suffix || has_suffix s suffix

-- Whether the stream brings the snapshot: an increment of all between base and endpoint; of a
-- recursive stream the endpoint's component on each dataset, and all where it is full.
unfoldable pub includes : Text → Object → Text → Bool → Mode → ℕ → Object → Bool
unfolding has_suffix
includes dataset endpoint component recursive mode base o =
    if not (is_snapshot o.kind)
      || o.create_txg == 0
      || ltb endpoint.create_txg o.create_txg
      || not recursive && not (dataset_of o.name =? dataset)
      || is_current mode
    then false
    else if is_all mode
    then ltb base o.create_txg
    else if recursive
    then is_full mode || ltb base o.create_txg && has_suffix o.name (b'@' ∷ component)
    else o.name =? endpoint.name

abbrev pub metadata_or : Result OwnershipError Metadata → Option Metadata
metadata_or (err e) = none
metadata_or (ok m) = some m

-- What is expected of a snapshot that the stream brings.
unfoldable pub expected_of : Request → View → Scope → Text → Object → Expected
expected_of r view s lineage o = record {
  source = o.name;
  destination = s.root ++ trim_prefix o.name r.source;
  guid = o.guid;
  metadata = metadata_or (owned view.source o lineage);
}

abbrev pub expected_leb : Expected → Expected → Bool
expected_leb a b = text_leb a.source b.source

abbrev foreign_of : Expected → List PlanWarning → List PlanWarning
foreign_of e warnings = if is_none e.metadata then foreign e.source ∷ warnings else warnings

foreign_warnings : List Expected → List PlanWarning
foreign_warnings [] = []
foreign_warnings (e ∷ es) = foreign_of e (foreign_warnings es)

-- The plan, from what was chosen.
unfoldable pub assemble :
    Request → View → Settled → Object → List Expected → Mode → Option Object → Plan
unfolding includes expected_of receive_exclusions receive_properties foreign_warnings
assemble r view st endpoint endpoints mode base =
    let s = st.scope in
    let p = st.policy in
    let dataset = s.member.dataset in
    let component = trim_prefix endpoint.name (dataset ++ b'@' ∷ []) in
    let recursive = p.send.replicate in
    let brought = map (expected_of r view s st.lineage) (
      keep (includes dataset endpoint component recursive mode (txg_of base))
        view.source.objects) in
    record {
      source = dataset;
      destination = s.target;
      snapshot = endpoint.name;
      base = name_of base;
      lineage = st.lineage;
      mode = mode;
      send = record {
        source = dataset;
        snapshot = endpoint.name;
        base = name_of base;
        intermediates = is_all mode;
        recursive = recursive;
        large_blocks = p.send.large_blocks;
        compressed = p.send.compressed;
        embedded_data = p.send.embedded_data;
        raw = p.send.raw;
        properties = p.send.props;
      };
      receive = record {
        root = s.target;
        discard = receive_exact;
        set = receive_properties p (lookup dataset (objects_of view.source));
        exclude = receive_exclusions p view.source;
      };
      expected = sort_by expected_leb (if is_current mode then endpoints else brought);
      endpoints = sort_by expected_leb endpoints;
      warnings =
          map of_policy p.warnings
          ++ ((if recursive then recursive_semantics ∷ [] else []) ++ foreign_warnings brought);
      target_binding = st.binding;
      binding_new = st.binding_new;
    }

module _ (sha256 : Text → List ℕ) (codec : Codec) (bindings : BindingCodec)
    (installation : Text) where
  -- `Build` from the choice of the endpoint on.
  unfoldable pub build_settled : Request → View → Settled → Result TransferError Plan
  unfolding choose_endpoint endpoints_loop already_loop choose_mode assemble
  build_settled r view st = do
    let dataset = st.scope.member.dataset
    endpoint ← choose_endpoint view.source st.lineage st.scope.member
    let component = trim_prefix endpoint.name (dataset ++ b'@' ∷ [])
    endpoints ←
        endpoints_loop r view st.scope st.policy.send.replicate st.lineage component
          view.source.objects
    already ← already_loop (objects_of view.destination) endpoints view.destination_exists
    chosen ← choose_mode sha256 codec r view st endpoint already
    ok (assemble r view st endpoint endpoints chosen.0 chosen.1)

  unfoldable pub build : Request → View → Result TransferError Plan
  unfolding settle build_settled
  build r view = settle sha256 codec bindings installation r view >>= λ st. build_settled r view st
