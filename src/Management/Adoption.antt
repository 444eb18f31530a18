-- ===== src/Management/Adoption.antt =====
-- internal/lifecycle/service.go: what `AdoptDataset` writes, and on what grounds.
use boomerangz.Base.{
  ℕ, ◌≡◌, ◌≢◌, ◌⊎◌, true, false, List, [], ◌∷◌, Text, text_key, ℕ_key, is_nil, All,
}
use boomerangz.Base.Result.{Result, ok}
use boomerangz.Policy.{Effective}
use boomerangz.Ownership.{Snapshot, Metadata, ownership, valid_id}
use boomerangz.Lifecycle.{
  State, stored_lineage, root_authority, snapshots_in, check_active_root, has_internal,
}
use boomerangz.Lifecycle.Backend.{Call, set_properties, Backend}
use boomerangz.References.{Codec}
use boomerangz.Management.{ManagementError, authority_properties, has_authority}
use boomerangz.Management.Operations.{inspect}

-- A snapshot with marks of the program is proven to be of the lineage.
abbrev pub IsEvidence : Text → Snapshot → Type 0
IsEvidence lineage s = has_internal s ≡ true → (m : Metadata) × (ownership s lineage ≡ ok m)

-- The grounds of an adoption: a valid lineage, the stored one if there is one, which this
-- installation does not have yet, and which all marked snapshots of the dataset bear.
pub record Grounds (state : State) (dataset installation lineage : Text) : Type 0 where
  pub stored : Text
  pub stores : stored_lineage state dataset ≡ ok stored
  pub keeps : is_nil stored ≡ false → lineage ≡ stored
  pub valid : valid_id lineage ≡ true
  pub unowned : has_authority state dataset installation lineage ≡ false
  pub evidence : All (IsEvidence lineage) (snapshots_in state dataset)

module _ {W : Type 0} (b : Backend W) (installation : Text) (sha256 : Text → List ℕ)
    (codec : Codec) where
  abbrev pub owning : Text → Text → Call
  owning dataset lineage = set_properties dataset (authority_properties installation lineage)

  -- The grounds were read, and the marks written; and a later state grants authority.
  abbrev pub Adopts : Text → Effective → List Call → Result ManagementError Text → Type 0
  Adopts dataset effective calls result =
      (calls ≡ []) × ((lineage : Text) → result ≢ ok lineage)
      ⊎ ((state : State) × (lineage : Text) × (check_active_root effective dataset ≡ ok tt)
          × ((v : W) × ((b.inspect dataset false v).1 ≡ ok state))
          × Grounds state dataset installation lineage
          × (calls ≡ owning dataset lineage ∷ [])
          × ((made : Text)
              → result ≡ ok made
              → (made ≡ lineage)
                × ((after : State) × (v : W) × ((b.inspect dataset false v).1 ≡ ok after)
                    × (root_authority after dataset installation ≡ ok lineage))))

  Verified : Text → Text → List Call → Result ManagementError Text → Type 0
  Verified dataset lineage calls result =
      (calls ≡ [])
      × ((made : Text)
          → result ≡ ok made
          → (made ≡ lineage)
            × ((after : State) × (v : W) × ((b.inspect dataset false v).1 ≡ ok after)
                × (root_authority after dataset installation ≡ ok lineage)))
