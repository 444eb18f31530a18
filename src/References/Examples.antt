-- ===== src/References/Examples.antt =====
-- The proof of one snapshot for one target: stored, held, bookmarked and released.
use boomerangz.Base.{
  Some, ℕ, zero, suc, ◌%◌, ◌≡◌, refl, Bool, true, false, Option, none, some, List, [], ◌∷◌, ◌++◌,
  arith, ◌==◌, Text, text_dec, text_key, ℕ_key, codes, length, All,
}
use boomerangz.Base.Result.{ok}
use boomerangz.Strings.{is_space, is_control}
use boomerangz.Names.{validate_dataset, inside}
use boomerangz.Stamp.{parse_stamp, format_stamp}
use boomerangz.Ownership.{
  valid_id, ownership, check_name, check_metadata, stored_values, component_name,
}
use boomerangz.Ownership.Examples.{lineage_id, first_metadata}
use boomerangz.Lifecycle.{
  State, bookmark, current_state, state_version, version_loop, version_of, root_authority,
  root_values, check_root, is_marker, scope_ready, find_owned, find_loop, snapshots_in,
  keeps_records, records_readable, Object,
}
use boomerangz.Lifecycle.Examples.{
  installation_id, tank, tank_snapshot, tank_rows, tank_objects, state_of, tank_state,
}
use boomerangz.Lifecycle.Backend.{set_property, hold, Backend, Run, perform_all, ◌>>=◌, ◌>>◌}
use boomerangz.References.{
  Reference, ReferenceRecord, ReferenceError, Codec, hold_name, is_held, source_bookmark, target_id,
  hex, property_name, encode_reference, decode_reference, decode_parts, reference_of, records_loop,
  reference_records, stream_id,
}
use boomerangz.References.Stored.{IsSha256, IsStorable, stored_property, decode-encode_reference}
use boomerangz.References.Service.{
  Protection, decide_protection, check_request, wanted_datasets, same_state,
}
use boomerangz.References.Operations.{
  inspect, perform, proof_scope, proof_unchanged, write_proof, write_protection, protect_set,
  checkpoint_set, release_reference,
}
use boomerangz.References.Decided.{OwnedAt, decide_protection_sound}

abbrev zeros : ℕ → List ℕ
zeros zero = []
zeros (suc n) = 0 ∷ zeros n

-- A hash of 32 bytes, of which the last is the text's length.
abbrev pub length_hash : Text → List ℕ
length_hash t = zeros 31 ++ (length t % 256) ∷ []

length_hash-IsSha256 : IsSha256 length_hash
length_hash-IsSha256 = record { bytes = λ t. refl; small = λ t. ground arith }

abbrev encode_flag : Bool → ℕ
encode_flag true = 1
encode_flag false = 0

abbrev decode_flag : ℕ → Bool
decode_flag n = n == 1

abbrev decode_fields : Text → Option ReferenceRecord
decode_fields [] = none
decode_fields (c ∷ []) = none
decode_fields (c ∷ b ∷ s) = some (record { stream = s; created = c; recursive = decode_flag b })

pub decode_fields_lem :
    (r : ReferenceRecord) → decode_fields (r.created ∷ encode_flag r.recursive ∷ r.stream) ≡ some r
decode_fields_lem r = ground arith

-- A codec that writes the fields one after the other.
abbrev pub plain_codec : Codec
plain_codec = record {
  encode = λ (r : ReferenceRecord). r.created ∷ encode_flag r.recursive ∷ r.stream;
  decode = decode_fields;
  decode-encode = decode_fields_lem;
}

abbrev pub backup : Text
backup = codes "local:backup"

abbrev proof : Reference
proof = record {
  target_id = hex (length_hash backup);
  dataset = tank;
  metadata = first_metadata;
  recursive = false;
}

proof-IsStorable : IsStorable length_hash backup tank proof
unfolding validate_dataset inside valid_id text_dec is_space is_control
proof-IsStorable = record {
  target_is = refl;
  dataset_valid = refl;
  dataset_inside = refl;
  lineage_valid = refl;
  snapshot_valid = refl;
  created_set = λ h. omega arith;
  created_small = omega arith;
}

decode-encode_reference_example :
    decode_reference length_hash plain_codec
      (stored_property length_hash plain_codec tank proof)
      tank
      lineage_id
    ≡ ok proof
decode-encode_reference_example =
    decode-encode_reference length_hash plain_codec backup tank proof length_hash-IsSha256
      proof-IsStorable

-- What `ProtectSet` decides for a snapshot of which no proof is stored.
abbrev decided : Protection
decided = record { reference = proof; exists = false; unheld = tank_snapshot ∷ [] }

tank_decided :
    decide_protection length_hash plain_codec tank_state tank lineage_id tank
      (tank_snapshot ∷ [])
      backup
    ≡ ok decided
unfolding decide_protection reference_records records_readable keeps_records find_owned find_loop
    snapshots_in inside ownership check_name check_metadata stored_values component_name valid_id
    parse_stamp format_stamp validate_dataset text_dec is_space is_control target_id property_name
tank_decided = refl

decide_protection_sound_example :
    (tank ≡ tank)
    × All (OwnedAt tank_state lineage_id first_metadata) (tank_snapshot ∷ [])
    × (false ≡ true
        → (refs : List Reference) × (reference_records length_hash plain_codec tank_state tank
              lineage_id
            ≡ ok refs)
          × Some (λ q. q ≡ proof) refs)
    × (false ≡ false
        → All (λ s. is_held tank_state s (hold_name proof) ≡ false) (tank_snapshot ∷ []))
decide_protection_sound_example =
    decide_protection_sound length_hash plain_codec tank_state tank lineage_id tank
      (tank_snapshot ∷ []) backup decided tank_decided

-- A pool that stays as it is: each read gives the same state, and each write succeeds.
abbrev pub still : State → Backend (Unit {0})
still state = record {
  inspect = λ dataset recursive w. (w, ok state);
  list_datasets = λ w. (w, ok (tank ∷ []));
  perform = λ call w. (w, none);
}

abbrev protects : Run (Unit {0}) ReferenceError Reference
protects =
    protect_set (still tank_state) length_hash plain_codec installation_id tank tank
      (tank_snapshot ∷ []) backup tt

-- The same pool with the proof stored and the snapshot held, before its checkpoint and after it.
abbrev held_state : List Object → State
held_state marks =
    state_of (tank_objects ++ marks)
      (stored_property length_hash plain_codec tank proof ∷ tank_rows)
      ((tank_snapshot, hold_name proof ∷ []) ∷ [])

abbrev unmarked_state : State
unmarked_state = held_state []

abbrev stored_state : State
stored_state = held_state (
    record {
      name = source_bookmark proof tank;
      kind = bookmark;
      guid = 7;
      creation = 0;
      create_txg = 100;
    }
    ∷ [])

abbrev checkpoints : Run (Unit {0}) ReferenceError (Unit {0})
checkpoints =
    checkpoint_set (still unmarked_state) length_hash plain_codec installation_id tank proof
      ((tank_snapshot, 7) ∷ []) tt

abbrev releases : Run (Unit {0}) ReferenceError (Unit {0})
releases =
    release_reference (still stored_state) length_hash plain_codec installation_id tank proof tt

-- The proof is stored before the snapshot is held.
protects_calls :
    protects.calls
    ≡ set_property tank
        (property_name length_hash plain_codec proof)
        (encode_reference length_hash plain_codec proof tank)
      ∷ hold (hold_name proof) tank_snapshot
      ∷ []
unfolding protect_set ◌>>=◌ ◌>>◌ check_request inside wanted_datasets scope_ready root_authority
    valid_id is_marker current_state decide_protection find_owned ownership perform_all check_root
    find_loop keeps_records records_readable root_values snapshots_in state_version version_loop
    version_of check_metadata check_name component_name stored_values inspect perform proof_scope
    proof_unchanged write_proof write_protection same_state records_loop reference_records
    validate_dataset text_dec is_space is_control parse_stamp format_stamp target_id stream_id
    property_name encode_reference decode_reference decode_parts reference_of
protects_calls = refl
