-- ===== src/References/Checkpoint.antt =====
-- internal/lifecycle/reference.go: what `CheckpointSet` and `ReleaseReference` write.
use boomerangz.References.Undone.{IsVerified, unmarked, undoing, IsKept}
use boomerangz.References.Read.{ReadsTo, Rechecked}
use boomerangz.Lifecycle.Backend.Runs.{Carried}
use boomerangz.Base.{Some, ℕ, ◌≡◌, ◌⊎◌, false, List, [], ◌∷◌, ◌++◌, map, Text, text_key, ℕ_key, All}
use boomerangz.Base.Result.{Result, ok, is_ok}
use boomerangz.Base.Dict.{Dict}
use boomerangz.Lifecycle.{State, root_authority}
use boomerangz.Lifecycle.Backend.{Call, inherit_property, Backend, Run, make_bookmark}
use boomerangz.References.{
  Reference, ReferenceSource, ReferenceError, Codec, source_snapshot, source_bookmark,
  property_name, reference_records, sources,
}

module _ {W : Type 0} (b : Backend W) (sha256 : Text → List ℕ) (codec : Codec)
    (installation : Text) where
  -- A proof with its sources: the root's authority is granted under a lineage, the reference is one
  -- of those stored, and the state has these sources of it.
  pub record IsProven (state : State) (dataset : Text) (r : Reference) (lineage : Text)
      (found : List ReferenceSource) : Type 0 where
    pub authority : root_authority state dataset installation ≡ ok lineage
    pub records : List Reference
    pub stored : reference_records sha256 codec state dataset lineage ≡ ok records
    pub among : Some (λ q. q ≡ r) records
    pub sources_found : sources r state ≡ ok found

  -- A proof that was read from one world to another.
  abbrev Reads : Text → Reference → W → W → State × (Text × List ReferenceSource) → Type 0
  Reads dataset r w v a = ReadsTo b dataset w a.0 v × IsProven a.0 dataset r a.1.0 a.1.1

  -- A run from a world that wrote nothing and failed; or one that read a proof from that world on and
  -- planned calls by it. If it planned any, it then read the state again, found it the same, and from
  -- that world on carried them out, all of them if it succeeded.
  abbrev pub Follows :
      (State → Text → List ReferenceSource → List Call → Type 0)
      → Text
      → Reference
      → W
      → Run W ReferenceError (Unit {0})
      → Type 0
  Follows Allowed dataset r w run =
      (run.calls ≡ []) × (is_ok run.result ≡ false)
      ⊎ ((state : State) × (lineage : Text) × (found : List ReferenceSource) × (planned : List Call)
          × (v : W) × ReadsTo b dataset w state v
          × IsProven state dataset r lineage found
          × Allowed state lineage found planned
          × ((planned ≡ []) × (run.calls ≡ [])
              ⊎ ((u : W) × Rechecked b sha256 codec installation dataset v state u
                  × Carried b planned u run.calls run.world (is_ok run.result))))

  -- A bookmark for each source that lacks one, all of which were verified.
  abbrev pub Bookmarks :
      Reference → Dict Text ℕ → State → Text → List ReferenceSource → List Call → Type 0
  Bookmarks r verified state lineage found planned =
      (planned
        ≡ map
            (λ (s : ReferenceSource).
              make_bookmark (source_snapshot r s.dataset) (source_bookmark r s.dataset))
            (unmarked state r found))
      × All (IsVerified state r verified) (unmarked state r found)

  -- The calls that undo the sources, and then the removal of the proof.
  abbrev pub Removes : Text → Reference → State → Text → List ReferenceSource → List Call → Type 0
  Removes dataset r state lineage found planned =
      (planned
        ≡ undoing state r found ++ inherit_property dataset (property_name sha256 codec r) ∷ [])
      × All (IsKept state lineage r) found
