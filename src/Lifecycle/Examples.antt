-- ===== src/Lifecycle/Examples.antt =====
-- A root with its authority, and one owned snapshot.
use boomerangz.Base.{
  Some, ◌≡◌, refl, true, List, [], ◌∷◌, Text, text_dec, text_key, ℕ_key, codes, All,
}
use boomerangz.Base.Result.{ok, err}
use boomerangz.Base.Dict.{Dict}
use boomerangz.Strings.{is_space, is_control}
use boomerangz.Names.{validate_dataset}
use boomerangz.Ownership.{Property, Source, valid_id, lineage_property, snapshot_property}
use boomerangz.Ownership.Examples.{lineage_id, snapshot_id, name_at, new_year}
use boomerangz.Policy.{is_source_local}
use boomerangz.Lifecycle.{
  State, Object, filesystem, snapshot, owner_property, version_property, version_of, state_version,
  version_loop, current_state, root_authority, root_values, check_root, is_marker, old_version,
}
use boomerangz.Lifecycle.Authority.{is_row_of, root_authority-Local}

abbrev pub installation_id : Text
installation_id = codes "3b241101-e2bb-4255-8caf-4136c566a962"

abbrev pub tank : Text
tank = codes "tank"

abbrev pub row : Text → Text → Text → Property
row dataset name value = record {
  dataset = dataset;
  name = name;
  value = value;
  source = Source.local;
}

abbrev pub tank_snapshot : Text
tank_snapshot = name_at new_year

abbrev pub tank_rows : List Property
tank_rows =
    row tank owner_property installation_id
    ∷ row tank lineage_property lineage_id
    ∷ row tank version_property (codes "2")
    ∷ row tank_snapshot lineage_property lineage_id
    ∷ row tank_snapshot snapshot_property snapshot_id
    ∷ []

abbrev pub tank_objects : List Object
tank_objects =
    record { name = tank; kind = filesystem; guid = 10; creation = 0; create_txg = 1 }
    ∷ record { name = tank_snapshot; kind = snapshot; guid = 7; creation = 0; create_txg = 100 }
    ∷ []

abbrev pub state_of : List Object → List Property → Dict Text (List Text) → State
state_of objects properties holds = record {
  objects = objects;
  properties = properties;
  received = [];
  resume_tokens = [];
  clones = [];
  holds = holds;
}

abbrev pub tank_state : State
tank_state = state_of tank_objects tank_rows []

pub tank_current : current_state tank_state tank ≡ ok tt
unfolding current_state state_version version_loop version_of text_dec
tank_current = refl

pub tank_authority : root_authority tank_state tank installation_id ≡ ok lineage_id
unfolding root_authority root_values check_root current_state state_version version_loop version_of
    is_marker valid_id validate_dataset text_dec is_space is_control
tank_authority = refl

root_authority-Local_example :
    Some (λ p. is_row_of tank owner_property p ≡ true) tank_rows
    × Some (λ p. is_row_of tank lineage_property p ≡ true) tank_rows
    × All
        (λ (p : Property).
          is_row_of tank owner_property p ≡ true
          → (is_source_local p.source ≡ true) × (p.value ≡ installation_id))
        tank_rows
    × All
        (λ (p : Property).
          is_row_of tank lineage_property p ≡ true
          → (is_source_local p.source ≡ true) × (p.value ≡ lineage_id))
        tank_rows
root_authority-Local_example =
    root_authority-Local tank_state tank installation_id lineage_id tank_authority

-- A root without a version marker is in the first format, which this build does not read.
unmarked : current_state (state_of tank_objects [] []) tank ≡ err (old_version tank 1)
unfolding current_state state_version version_loop
unmarked = refl
