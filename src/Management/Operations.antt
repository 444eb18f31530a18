-- ===== src/Management/Operations.antt =====
-- internal/lifecycle/service.go: `CreateSnapshot`, `AdoptDataset` and `Prune` on a backend.
use boomerangz.Base.{
  ℕ, Bool, true, false, not, List, [], ◌∷◌, if◌then◌else◌, Text, text_key, ℕ_key, ◌=?◌, is_nil,
}
use boomerangz.Base.Result.{Result, ok, refuse}
use boomerangz.Policy.{Effective}
use boomerangz.Ownership.{Metadata, component_name}
use boomerangz.Prune.{Decision, plan_prune}
use boomerangz.Lifecycle.{
  State, check_dataset, stored_lineage, root_authority, snapshots_in, scope_ready,
  check_active_root, validate_members,
}
use boomerangz.Lifecycle.Backend.{
  Call, set_properties, take_snapshot, destroy_snapshot, Backend, Act, lift, read_as, wrote, ◌>>=◌,
  ◌>>◌,
}
use boomerangz.References.{Codec}
use boomerangz.References.Service.{same_state}
use boomerangz.Management.{
  ManagementError, Failure, backend_failed, draw_failed, state_changed, adoption_unverified,
  Retention, of_lifecycle, of_prune, with_plan, authority_properties, metadata_properties, new_id,
  check_time, check_unmarked, descendants_loop, check_initialized, check_created, has_authority,
  decide_adoption, check_retention, check_again,
}

module _ {W : Type 0} (b : Backend W) (installation : Text) where
  -- Reads and writes of the operations that fail without a plan.
  unfoldable pub inspect : Text → Bool → Act W ManagementError State
  inspect dataset recursive w = read_as backend_failed (b.inspect dataset recursive w)

  unfoldable pub perform : Call → Act W ManagementError (Unit {0})
  perform c w = wrote backend_failed c (b.perform c w)

  -- `unchanged`.
  unfoldable pub unchanged : Text → Bool → State → Act W ManagementError (Unit {0})
  unfolding inspect
  unchanged dataset recursive expected = inspect dataset recursive >>= λ current.
      lift (refuse (not (same_state expected current)) state_changed)

  -- The closure `read` of `Prune`; a failure carries the plan so far.
  abbrev pub blame : List Decision → Text → Failure
  blame plan why = record { plan = plan; why = backend_failed why }

  unfoldable pub inspect_for : List Decision → Text → Act W Failure State
  inspect_for plan dataset w = read_as (blame plan) (b.inspect dataset false w)

  unfoldable pub read_scope : List Decision → Text → Text → Act W Failure (State × Text)
  unfolding inspect_for
  read_scope plan root dataset = do
    root_state ← inspect_for plan root
    lineage ← lift (with_plan plan (of_lifecycle (root_authority root_state root installation)))
    state ← if dataset =? root then lift (ok root_state) else inspect_for plan dataset
    lift (with_plan plan (of_lifecycle (scope_ready state dataset)))
    lift (ok (state, lineage))

  unfoldable pub destroy : List Decision → Decision → Act W Failure (Unit {0})
  destroy plan d w =
      wrote (blame plan) (destroy_snapshot d.snapshot) (b.perform (destroy_snapshot d.snapshot) w)

  -- One deletion of the loop.
  unfoldable pub prune_one :
      List Decision → Text → Retention → State → Text → Decision → Act W Failure (Unit {0})
  unfolding read_scope destroy
  prune_one plan root retention state lineage d = do
    read ← read_scope plan root retention.dataset
    lift (with_plan plan (check_again retention state lineage d read.0 read.1))
    destroy plan d

  unfoldable pub prune_loop :
      List Decision → Text → Retention → State → Text → List Decision → Act W Failure (Unit {0})
  unfolding prune_one
  prune_loop plan root retention state lineage [] = lift (ok tt)
  prune_loop plan root retention state lineage (d ∷ ds) =
      let rest = prune_loop plan root retention state lineage ds in
      let taken = prune_one plan root retention state lineage d >> rest in
      if not d.destroy then rest else taken

  -- `Prune` after its first plan.
  unfoldable pub apply_plan :
      Text → Retention → Bool → State → Text → List Decision → Act W Failure (List Decision)
  unfolding prune_loop
  apply_plan root retention false state lineage plan = lift (ok plan)
  apply_plan root retention true state lineage plan =
      prune_loop plan root retention state lineage plan >>= λ done. lift (ok plan)

  unfoldable pub prune : Text → Effective → Retention → Bool → Act W Failure (List Decision)
  unfolding apply_plan read_scope
  prune root effective retention apply = do
    lift (with_plan [] (check_retention root effective retention))
    read ← read_scope [] root retention.dataset
    plan ← lift (
        with_plan [] (
          of_prune (
            plan_prune retention.dataset read.1 retention.grid
              (snapshots_in read.0 retention.dataset))))
    apply_plan root retention apply read.0 read.1 plan

  module _ (sha256 : Text → List ℕ) (codec : Codec) where
    -- `AdoptDataset` after it wrote.
    unfoldable pub verify_adoption : Text → Text → Act W ManagementError Text
    unfolding inspect
    verify_adoption dataset lineage = do
      after ← inspect dataset false
      lift (refuse (not (has_authority after dataset installation lineage)) adoption_unverified)
      lift (ok lineage)

    unfoldable pub adopt_dataset : Text → Effective → Act W ManagementError Text
    unfolding inspect unchanged verify_adoption perform
    adopt_dataset dataset effective = do
      lift (of_lifecycle (check_dataset dataset))
      lift (of_lifecycle (check_active_root effective dataset))
      state ← inspect dataset false
      lineage ← lift (decide_adoption sha256 codec state dataset installation)
      unchanged dataset false state
      perform (set_properties dataset (authority_properties installation lineage))
      verify_adoption dataset lineage

  -- The random bytes of an identity, or why there are none.
  module _ (random : W → W × Result Text (List ℕ)) where
    unfoldable pub draw_id : Act W ManagementError Text
    draw_id = (λ w. read_as draw_failed (random w)) >>= λ bytes. lift (ok (new_id bytes))

    -- The lineage of `CreateSnapshot`: a stored one needs authority, a fresh one is drawn.
    unfoldable pub choose_lineage : State → Text → Text → Act W ManagementError Text
    unfolding draw_id
    choose_lineage state dataset stored =
        if is_nil stored
        then lift (check_unmarked state) >> draw_id
        else lift (of_lifecycle (root_authority state dataset installation))

    unfoldable pub new_metadata : Text → ℕ → Act W ManagementError Metadata
    unfolding draw_id
    new_metadata lineage now = do
      lift (check_time lineage now)
      id ← draw_id
      lift (ok (record { lineage = lineage; snapshot = id; created = now }))

    -- The marks of a fresh lineage.
    unfoldable pub initialize : Text → Text → State → Bool → Act W ManagementError (Unit {0})
    unfolding inspect perform
    initialize dataset lineage state false = lift (ok tt)
    initialize dataset lineage state true = do
      perform (set_properties dataset (authority_properties installation lineage))
      current ← inspect dataset true
      lift (check_initialized installation dataset lineage state current)

    unfoldable pub take_members :
        Text → List Text → State → Text → Metadata → Act W ManagementError Metadata
    unfolding inspect perform
    take_members dataset members state lineage m = do
      perform (take_snapshot members (component_name m) (metadata_properties m))
      after ← inspect dataset true
      lift (check_created state after m lineage members)
      lift (ok m)

    unfoldable pub create_snapshot :
        Text → List Text → ℕ → Effective → Act W ManagementError Metadata
    unfolding inspect choose_lineage new_metadata unchanged initialize take_members
    create_snapshot dataset members now effective = do
      lift (of_lifecycle (check_dataset dataset))
      lift (of_lifecycle (check_active_root effective dataset))
      lift (of_lifecycle (validate_members dataset members))
      state ← inspect dataset true
      lift (of_lifecycle (scope_ready state dataset))
      stored ← lift (of_lifecycle (stored_lineage state dataset))
      lineage ← choose_lineage state dataset stored
      lift (descendants_loop state lineage state.objects)
      m ← new_metadata lineage now
      unchanged dataset true state
      initialize dataset lineage state (is_nil stored)
      take_members dataset members state lineage m
