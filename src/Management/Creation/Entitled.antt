-- ===== src/Management/Creation/Entitled.antt =====
-- internal/lifecycle/service.go: what a run of `CreateSnapshot` rests on.
use boomerangz.Base.{
  ℕ, ◌≡◌, refl, ◌≢◌, ◌⊎◌, Bool, true, false, List, [], ◌∷◌, ◌++◌, Text, text_key, ℕ_key, is_nil,
  All,
}
use boomerangz.Base.Result.{Result, ok}
use boomerangz.Ownership.{Metadata}
use boomerangz.Lifecycle.{State, stored_lineage, root_authority}
use boomerangz.Lifecycle.Backend.{Call, Backend, IsQuiet, >>=-IsQuiet}
use boomerangz.Management.{ManagementError, check_unmarked}
use boomerangz.Management.Operations.{inspect, unchanged}
use boomerangz.Management.Creation.{IsKin}
use boomerangz.Management.Creation.Whole.{marks, taking, Writes, inspect-IsQuiet}

module _ {W : Type 0} (b : Backend W) (installation : Text)
    (random : W → W × Result Text (List ℕ)) where
  -- The state of the whole scope was read. A stored lineage has this installation's authority, and
  -- a fresh one is drawn only where no mark of an older one is left.
  pub record IsEntitled (dataset : Text) (state : State) (lineage : Text) (m : Metadata)
      (fresh : Bool) : Type 0 where
    pub reader : W
    pub read : (b.inspect dataset true reader).1 ≡ ok state
    pub stored : Text
    pub stores : stored_lineage state dataset ≡ ok stored
    pub freshness : is_nil stored ≡ fresh
    pub unmarked : fresh ≡ true → check_unmarked state ≡ ok tt
    pub authority : fresh ≡ false → root_authority state dataset installation ≡ ok lineage
    pub kin : All (IsKin state lineage) state.objects
    pub of_lineage : m.lineage ≡ lineage

  abbrev pub Creates : Text → List Text → List Call → Result ManagementError Metadata → Type 0
  Creates dataset members calls result =
      (calls ≡ []) × ((m : Metadata) → result ≢ ok m)
      ⊎ ((state : State) × (lineage : Text) × (m : Metadata) × (fresh : Bool) × IsEntitled dataset
            state lineage m fresh
          × Writes b installation random dataset members lineage m
              (marks b installation random dataset lineage fresh
                ++ taking b installation random members m ∷ [])
              calls result)

  -- The lineage is drawn, or granted.
  Chosen : State → Text → Text → List Call → Result ManagementError Text → Type 0
  Chosen state dataset stored calls result =
      (calls ≡ [])
      × ((lineage : Text)
          → result ≡ ok lineage
          → (is_nil stored ≡ true → check_unmarked state ≡ ok tt)
            × (is_nil stored ≡ false → root_authority state dataset installation ≡ ok lineage))

  Dated : Text → List Call → Result ManagementError Metadata → Type 0
  Dated lineage calls result = (calls ≡ []) × ((m : Metadata) → result ≡ ok m → m.lineage ≡ lineage)

  pub unchanged-IsQuiet :
      (dataset : Text) (state : State) → IsQuiet (unchanged b installation dataset true state)
  unfolding unchanged
  unchanged-IsQuiet dataset state =
      >>=-IsQuiet (inspect b installation dataset true) _
        (inspect-IsQuiet b installation random dataset true) (λ current w. refl)
