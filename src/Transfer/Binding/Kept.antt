-- ===== src/Transfer/Binding/Kept.antt =====
-- internal/transfer/binding.go: a binding that is stored is read back.
use boomerangz.Base.{
  ℕ, ◌≡◌, refl, sym, ap, ◌∙◌, inl, inr, true, false, Option, none, some, List, [], ◌∷◌, ◌++◌, arith,
  if◌then◌else◌, Bool-cases, Text, text_key, ℕ_key, ◌=?◌, is_nil, All,
}
use boomerangz.Base.Result.{ok, >>=-eq-ok}
use boomerangz.Names.{validate_dataset}
use boomerangz.Ownership.{Property}
use boomerangz.Lifecycle.{State, is_row, current_state}
use boomerangz.Transfer.Binding.{
  TargetBinding, BindingRecord, BindingCodec, anchored, binding_property, validate_binding,
  complete_record, stored_loop, stored_target_binding, encode_binding,
}

-- A binding as it is made for a target: the target completed by an anchor, with valid names.
pub record IsAnchored (target b : TargetBinding) : Type 0 where
  pub completed : anchored target b.anchor b.pool_guid b.anchor_guid ≡ ok b
  pub mapped_same : target.mapped_dataset ≡ b.mapped_dataset
  pub mapped_valid : validate_dataset b.mapped_dataset ≡ ok tt
  pub anchor_valid : validate_dataset b.anchor ≡ ok tt

module _ (sha256 : Text → List ℕ) (codec : BindingCodec) where
  abbrev record_of : TargetBinding → BindingRecord
  record_of b = record {
    pool_guid = b.pool_guid;
    mapped = b.mapped_dataset;
    anchor_guid = b.anchor_guid;
    anchor = if b.anchor =? b.mapped_dataset then [] else b.anchor;
  }

  nonempty : (name : Text) → validate_dataset name ≡ ok tt → is_nil name ≡ false
  unfolding validate_dataset
  nonempty [] valid = absurd (ground arith)
  nonempty (c ∷ s) valid = refl

  complete_record-stored :
      (target b : TargetBinding)
      → IsAnchored target b
      → complete_record sha256 codec target (record_of b) ≡ ok b
  unfolding complete_record
  complete_record-stored target b good = elim (Bool-cases (b.anchor =? b.mapped_dataset)) [
    | inl same ↦
        let at : anchored target b.mapped_dataset b.pool_guid b.anchor_guid ≡ ok b =
          ap (λ a. anchored target a b.pool_guid b.anchor_guid) (sym (ground arith))
          ∙ good.completed in
        ground (arith, at, good.mapped_valid, good.mapped_same)
    | inr apart ↦ ground (
      arith,
      good.completed,
      good.mapped_valid,
      good.mapped_same,
      good.anchor_valid,
      nonempty b.anchor good.anchor_valid,
    )
  ]

  -- No row of the list is the target's.
  abbrev pub Free : Text → TargetBinding → List Property → Type 0
  Free root target ps =
      All (λ p. is_row root (binding_property sha256 target.canonical_target) p ≡ false) ps

  stored_loop-Free :
      (state : State) (root : Text) (target : TargetBinding) (ps : List Property)
      (found : Option TargetBinding)
      → Free root target ps
      → stored_loop sha256 codec state root target ps found ≡ ok found
  unfolding stored_loop
  stored_loop-Free state root target [] found free = refl
  stored_loop-Free state root target (p ∷ ps) found free =
      ground (arith, free.0, stored_loop-Free state root target ps found free.1)

  stored_loop-row :
      (state : State) (root : Text) (target b : TargetBinding) (p : Property)
      (before after : List Property)
      → is_row root (binding_property sha256 target.canonical_target) p ≡ true
      → codec.decode p.value ≡ some (record_of b)
      → current_state state root ≡ ok tt
      → IsAnchored target b
      → Free root target before
      → Free root target after
      → stored_loop sha256 codec state root target (before ++ p ∷ after) none ≡ ok (some b)
  unfolding stored_loop
  stored_loop-row state root target b p [] after row read current good none_before none_after =
      ground (
        arith,
        row,
        read,
        current,
        complete_record-stored target b good,
        stored_loop-Free state root target after (some b) none_after,
      )
  stored_loop-row state root target b p (q ∷ before) after row read current good none_before
        none_after =
      ground (
        arith,
        none_before.0,
        stored_loop-row state root target b p before after row read current good none_before.1
            none_after,
      )

  -- A binding that completes a target, with valid names, and that can be encoded is read back for
  -- that target from the property that stores it, where the root's state has the format of this
  -- build and no other local row of the root has the property's name.
  pub stored_target_binding-encode :
      (state : State) (root value : Text) (target b : TargetBinding) (p : Property)
      (before after : List Property)
      → encode_binding sha256 codec b ≡ ok value
      → p.value ≡ value
      → is_row root (binding_property sha256 target.canonical_target) p ≡ true
      → state.properties ≡ before ++ p ∷ after
      → Free root target before
      → Free root target after
      → current_state state root ≡ ok tt
      → IsAnchored target b
      → stored_target_binding sha256 codec state root target ≡ ok (some b)
  unfolding stored_target_binding encode_binding
  stored_target_binding-encode state root value target b p before after encoded same row rows
        none_before none_after current good =
      let (passed, valid, last) = >>=-eq-ok (validate_binding sha256 b) _ encoded in
      let written : codec.encode (record_of b) ≡ p.value = ground (arith, last, same) in
      let read : codec.decode p.value ≡ some (record_of b) =
        ap codec.decode (sym written) ∙ codec.decode-encode (record_of b) in
      ap (λ ps. stored_loop sha256 codec state root target ps none) rows
      ∙ stored_loop-row state root target b p before after row read current good none_before
          none_after
