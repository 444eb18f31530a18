-- ===== src/Transfer/Binding.antt =====
-- internal/transfer/binding.go: the identity of a target that is kept on the source's root.
-- Parameters: SHA-256, and the JSON codec of a stored record.
pub mod Kept
use boomerangz.Base.{
  is_none, Some, ℕ, zero, suc, ◌+◌, ◌-◌, ◌*◌, ◌/◌, ◌%◌, ◌^◌, ◌≤◌, ◌<◌, ◌≡◌, refl, sym, ap, ◌∙◌,
  subst, ◌≢◌, ◌↔◌, ◌⊎◌, inl, inr, Bool, true, false, not, ◌&&◌, ◌||◌, Option, none, some, List, [],
  ◌∷◌, ◌++◌, map, append_assoc, append-nil, arith, ltb, leb, ◌==◌, if◌then◌else◌, Bool-cases,
  Option-cases, Text, Key, text_dec, text_key, ℕ_key, ◌=?◌, codes, length, is_nil, length-append,
  keep, any, every, All, All-append, contains, remove, IsNodup, contains-append, contains-remove,
  IsNodup-remove, IsNodup-snoc,
}
use boomerangz.Base.Result.{Result, ok, err, is_ok, ◌>>=◌, ◌>>◌, refuse}
use boomerangz.Strings.{cut, split, has_prefix, trim_prefix, slash}
use boomerangz.Names.{validate_dataset, inside}
use boomerangz.Ownership.{Property}
use boomerangz.Lifecycle.{State, is_row, target_state_prefix, current_state}
use boomerangz.References.{hex}
use boomerangz.Transfer.{
  Request, Identity, TransferError, lifecycle, invalid_suspension, ambiguous_binding,
  invalid_binding, invalid_mapping, invalid_anchor, mapping_changed, anchor_outside,
  bad_relative_path, incomplete_binding, of_lifecycle, mapped, request_transport, canonical_of,
}

pub record TargetBinding : Type 0 where
  pub transport : Text
  pub canonical_target : Text
  pub destination_root : Text
  pub mapped_dataset : Text
  pub pool : Text
  pub pool_guid : ℕ
  pub anchor : Text
  pub anchor_guid : ℕ
  pub relative_path : Text

pub record BindingRecord : Type 0 where
  pub pool_guid : ℕ
  pub mapped : Text
  pub anchor_guid : ℕ
  pub anchor : Text

pub record BindingCodec : Type 0 where
  pub encode : BindingRecord → Text
  pub decode : Text → Option BindingRecord
  pub decode-encode : (r : BindingRecord) → decode (encode r) ≡ some r

abbrev pub same_binding : TargetBinding → TargetBinding → Bool
same_binding a b =
    a.transport =? b.transport
    && a.canonical_target =? b.canonical_target
    && a.destination_root =? b.destination_root
    && a.mapped_dataset =? b.mapped_dataset
    && a.pool =? b.pool
    && a.pool_guid == b.pool_guid
    && a.anchor =? b.anchor
    && a.anchor_guid == b.anchor_guid
    && a.relative_path =? b.relative_path

-- `bindingTemplate`.
abbrev pub binding_template : Request → Text → Text → Text → TargetBinding
binding_template r mapped transport canonical = record {
  transport = transport;
  canonical_target = canonical;
  destination_root = r.destination_root;
  mapped_dataset = mapped;
  pool = [];
  pool_guid = 0;
  anchor = [];
  anchor_guid = 0;
  relative_path = [];
}

unfoldable pub binding_target : Request → Result TransferError TargetBinding
binding_target r =
    mapped r r.source >>= λ m. ok (binding_template r m.0 (request_transport r) (canonical_of r))

abbrev is_plain : Text → Bool
is_plain part = not (is_nil part) && not (part =? codes ".") && not (part =? codes "..")

-- The parts of a relative path: after the first plain part, only plain parts.
clean_parts : List Text → Bool
clean_parts [] = true
clean_parts (part ∷ parts) =
    let rest = clean_parts parts in
    if part =? codes ".." then rest else every is_plain (part ∷ parts)

abbrev rooted_parts : List Text → Bool
rooted_parts [] = true
rooted_parts (part ∷ []) = is_nil part || is_plain part
rooted_parts (part ∷ more ∷ parts) = every is_plain (part ∷ more ∷ parts)

drop_first : List Text → List Text
drop_first [] = []
drop_first (part ∷ parts) = parts

-- `path.Clean(p) == p`, for a path that is not empty.
unfoldable pub is_clean : Text → Bool
unfolding clean_parts drop_first
is_clean p =
    p =? codes "."
    || (if has_prefix p (codes "/")
        then rooted_parts (drop_first (split slash p))
        else clean_parts (split slash p))

abbrev pub pool_of : Text → Text
pool_of anchor = elim (cut slash anchor) [ none ↦ anchor | some (pool, rest) ↦ pool ]

-- `anchored`.
unfoldable pub anchored : TargetBinding → Text → ℕ → ℕ → Result TransferError TargetBinding
anchored b anchor pool_guid anchor_guid =
    let relative = trim_prefix b.mapped_dataset (anchor ++ codes "/") in
    let placed : Text → TargetBinding = λ path. record {
      transport = b.transport;
      canonical_target = b.canonical_target;
      destination_root = b.destination_root;
      mapped_dataset = b.mapped_dataset;
      pool = pool_of anchor;
      pool_guid = pool_guid;
      anchor = anchor;
      anchor_guid = anchor_guid;
      relative_path = path;
    } in
    if anchor =? b.mapped_dataset
    then ok (placed [])
    else if not (inside b.mapped_dataset anchor)
    then err anchor_outside
    else if is_nil relative || not (is_clean relative)
    then err bad_relative_path
    else ok (placed relative)

abbrev pub binding_for_target :
    Request → Text → Identity → Text → Text → Result TransferError TargetBinding
binding_for_target r mapped identity transport canonical =
    anchored (binding_template r mapped transport canonical) identity.name identity.pool_guid
      identity.guid

abbrev pub is_transport : Text → Bool
is_transport t = t =? codes "local" || t =? codes "ssh" || t =? codes "native"

module _ (sha256 : Text → List ℕ) where
  abbrev pub binding_property : Text → Text
  binding_property canonical = target_state_prefix ++ hex (sha256 canonical)

  abbrev pub suspended_property : Text → Text
  suspended_property canonical = binding_property canonical ++ codes ":suspended"

  -- The loop of `TargetSuspended`.
  unfoldable pub suspended_loop : Text → Text → List Property → Bool → Result TransferError Bool
  suspended_loop root name [] found = ok found
  suspended_loop root name (p ∷ ps) found =
      let skipped = suspended_loop root name ps found in
      let taken = suspended_loop root name ps true in
      if not (is_row root name p)
      then skipped
      else if found || not (p.value =? codes "unverified")
      then err invalid_suspension
      else taken

  unfoldable pub target_suspended : State → Text → Text → Result TransferError Bool
  unfolding suspended_loop
  target_suspended state root canonical =
      suspended_loop root (suspended_property canonical) state.properties false

  unfoldable pub validate_binding : TargetBinding → Result TransferError (Unit {0})
  validate_binding b = do
    refuse
        (not (is_transport b.transport)
          || is_nil b.canonical_target
          || is_nil b.destination_root
          || is_nil b.mapped_dataset
          || is_nil b.pool
          || b.pool_guid == 0
          || is_nil b.anchor
          || b.anchor_guid == 0)
        incomplete_binding
    refuse (binding_property b.canonical_target =? target_state_prefix) invalid_binding
    ok tt

  module _ (codec : BindingCodec) where
    -- What the loop of `storedTargetBinding` makes of a record.
    unfoldable pub complete_record :
        TargetBinding → BindingRecord → Result TransferError TargetBinding
    complete_record target r =
        let anchor = if is_nil r.anchor then r.mapped else r.anchor in
        do
          refuse (not (is_ok (validate_dataset r.mapped))) invalid_mapping
          refuse (not (r.mapped =? target.mapped_dataset))
              (mapping_changed r.mapped target.mapped_dataset)
          refuse
              (not (is_nil r.anchor)
                && (r.anchor =? r.mapped || not (is_ok (validate_dataset r.anchor))))
              invalid_anchor
          elim (anchored target anchor r.pool_guid r.anchor_guid) [
            | err e ↦ err invalid_binding
            | ok b ↦ ok b
          ]

    unfoldable pub stored_loop :
        State
        → Text
        → TargetBinding
        → List Property
        → Option TargetBinding
        → Result TransferError (Option TargetBinding)
    unfolding complete_record
    stored_loop state root target [] found = ok found
    stored_loop state root target (p ∷ ps) found =
        let skipped = stored_loop state root target ps found in
        let taken = λ (b : TargetBinding). stored_loop state root target ps (some b) in
        let read : Result TransferError (Option TargetBinding) = do
          refuse (not (is_none found)) ambiguous_binding
          of_lifecycle (current_state state root)
          r ← elim (codec.decode p.value) [ none ↦ err invalid_binding | some r ↦ ok r ]
          b ← complete_record target r
          taken b
        in if not (is_row root (binding_property target.canonical_target) p) then skipped else read

    unfoldable pub stored_target_binding :
        State → Text → TargetBinding → Result TransferError (Option TargetBinding)
    unfolding stored_loop
    stored_target_binding state root target = stored_loop state root target state.properties none

    unfoldable pub encode_binding : TargetBinding → Result TransferError Text
    unfolding validate_binding
    encode_binding b =
        validate_binding b
        >> ok (
            codec.encode (record {
              pool_guid = b.pool_guid;
              mapped = b.mapped_dataset;
              anchor_guid = b.anchor_guid;
              anchor = if b.anchor =? b.mapped_dataset then [] else b.anchor;
            }))
