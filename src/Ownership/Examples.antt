-- ===== src/Ownership/Examples.antt =====
-- A proven snapshot, and a lineage adopted from it.
use boomerangz.Base.{
  ℕ, ◌*◌, ◌≡◌, refl, ◌≢◌, false, List, [], ◌∷◌, ◌++◌, Text, text_dec, text_key, ℕ_key, codes, All,
}
use boomerangz.Base.Result.{ok, err}
use boomerangz.Strings.{is_space, is_control}
use boomerangz.Names.{validate_dataset}
use boomerangz.Stamp.{parse_stamp, format_stamp}
use boomerangz.Ownership.{
  Snapshot, Source, Metadata, OwnershipError, ownership, check_name, check_metadata, stored_values,
  component_name, valid_id, adopt, adopt_from, adopt_loop, lineage_property, snapshot_property,
}
use boomerangz.Ownership.Proven.{IsProven, ownership-IsProven}
use boomerangz.Ownership.Adoption.{Agrees, adopt-Agrees}

abbrev pub lineage_id : Text
lineage_id = codes "0e37df36-f698-41e6-8eb5-9d0e4a5f6a2b"

abbrev pub snapshot_id : Text
snapshot_id = codes "6fa459ea-ee8a-4ca4-894e-db77e160355e"

abbrev pub name_at : Text → Text
name_at stamp = codes "tank@boomerangz-" ++ (stamp ++ codes "-6fa459ea")

abbrev pub snapshot_at : Text → ℕ → List Text → Snapshot
snapshot_at stamp guid holds = record {
  name = name_at stamp;
  guid = guid;
  properties =
      record {
        dataset = name_at stamp;
        name = lineage_property;
        value = lineage_id;
        source = Source.local;
      }
      ∷ record {
        dataset = name_at stamp;
        name = snapshot_property;
        value = snapshot_id;
        source = Source.received;
      }
      ∷ [];
  holds = holds;
  clones = [];
  resume_required = false;
}

abbrev pub new_year : Text
new_year = codes "20240101T000000.000000000Z"

abbrev pub first : Snapshot
first = snapshot_at new_year 7 []

abbrev pub first_created : ℕ
first_created = 63839664000 * 1000000000

abbrev pub first_metadata : Metadata
first_metadata = record { lineage = lineage_id; snapshot = snapshot_id; created = first_created }

pub first_owned : ownership first lineage_id ≡ ok first_metadata
unfolding ownership check_name check_metadata stored_values component_name valid_id parse_stamp
    format_stamp validate_dataset text_dec is_space is_control
first_owned = refl

ownership-IsProven_example : IsProven first lineage_id first_metadata
ownership-IsProven_example = ownership-IsProven first lineage_id first_owned

foreign_lineage : ownership first snapshot_id ≡ err OwnershipError.mismatched
unfolding ownership check_name check_metadata stored_values component_name valid_id parse_stamp
    format_stamp validate_dataset text_dec is_space is_control
foreign_lineage = refl

first_adopted : adopt (first ∷ []) ≡ ok lineage_id
unfolding adopt adopt_loop adopt_from text_dec
first_adopted = rw first_owned refl

adopt-Agrees_example :
    (lineage_id ≢ []) × All (λ s. All (Agrees lineage_id s) s.properties) (first ∷ [])
adopt-Agrees_example = adopt-Agrees (first ∷ []) first_adopted
