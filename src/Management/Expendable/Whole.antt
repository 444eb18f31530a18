-- ===== src/Management/Expendable/Whole.antt =====
-- internal/lifecycle/service.go: a whole run of `Prune`.
use boomerangz.Base.{◌≡◌, List, map, Text, text_key, ℕ_key, keep}
use boomerangz.Base.Result.{Result, ok}
use boomerangz.Prune.{Decision, plan_prune}
use boomerangz.Lifecycle.{State, snapshots_in}
use boomerangz.Lifecycle.Backend.{Call, destroy_snapshot, Backend}
use boomerangz.Management.{Retention}
use boomerangz.Management.Expendable.{Reads, Deletes}

-- The calls that a plan asks for.
abbrev pub deletions : List Decision → List Call
deletions plan = map (λ d. destroy_snapshot d.snapshot) (keep (λ (d : Decision). d.destroy) plan)

module _ {W : Type 0} (b : Backend W) (installation : Text) where
  -- A run with deletions: it read the scope, made the plan of what it read, and deleted from the world
  -- that those reads left on.
  pub record Applied (root : Text) (retention : Retention) (w : W) (calls : List Call) (v : W)
      : Type 0 where
    pub state : State
    pub lineage : Text
    pub start : W
    pub plan : List Decision
    pub reads : Reads b installation root retention.dataset w start state lineage
    pub planned :
        plan_prune retention.dataset lineage retention.grid (snapshots_in state retention.dataset)
        ≡ ok plan
    pub deletes : Deletes b installation root retention lineage start calls v
