-- ===== src/Management/Creation.antt =====
-- internal/lifecycle/service.go: what `CreateSnapshot` writes, and what it then knows.
pub mod Whole
pub mod Entitled
use boomerangz.Base.{
  is_none, Some, ℕ, zero, suc, ◌+◌, ◌-◌, ◌*◌, ◌/◌, ◌%◌, ◌^◌, ◌≤◌, ◌<◌, ◌≡◌, refl, sym, ap, ◌∙◌,
  subst, ◌≢◌, ◌↔◌, ◌⊎◌, inl, inr, Bool, true, false, not, ◌&&◌, ◌||◌, Option, none, some, List, [],
  ◌∷◌, ◌++◌, map, append_assoc, append-nil, arith, ltb, leb, ◌==◌, if◌then◌else◌, Bool-cases,
  Option-cases, Text, Key, text_dec, text_key, ℕ_key, ◌=?◌, codes, length, is_nil, length-append,
  keep, any, every, All, All-append, contains, remove, IsNodup, contains-append, contains-remove,
  IsNodup-remove, IsNodup-snoc,
}
use boomerangz.Base.Result.{Result, ok, err, refuse-passed, ok_injective, >>=-eq-ok}
use boomerangz.Policy.{Effective}
use boomerangz.Ownership.{Snapshot, Metadata, OwnershipError, component_name, ownership}
use boomerangz.Lifecycle.{
  State, Object, LifecycleError, check_dataset, stored_lineage, root_authority, snapshots_in,
  scope_ready, is_dataset, check_active_root, validate_members,
}
use boomerangz.Lifecycle.Backend.{
  Call, set_properties, take_snapshot, Backend, Act, Run, lift, read_as, read_as-ok, read_calls,
  wrote, follow, Prefix, ◌>>=◌, ◌>>◌, after_quiet, after_lift, IsQuiet, >>=-IsQuiet,
}
use boomerangz.References.Service.{same_state}
use boomerangz.Management.{
  ManagementError, backend_failed, draw_failed, state_changed, scope_changed, snapshot_unverified,
  of_lifecycle, authority_properties, metadata_properties, new_id, check_time, check_unmarked,
  descendants_loop, check_initialized, check_created, same_objects, proves, verified_in,
  verify_members, conflicting_descendant,
}
use boomerangz.Management.Operations.{
  inspect, perform, unchanged, draw_id, choose_lineage, new_metadata, initialize, take_members,
  create_snapshot,
}

pub of_lifecycle-ok :
    {A : Type 0} (r : Result LifecycleError A) (a : A) → of_lifecycle r ≡ ok a → r ≡ ok a
of_lifecycle-ok (ok x) a done = ground arith
of_lifecycle-ok (err e) a done = cc

-- A dataset of the scope has no lineage stored, or that of the root.
abbrev pub IsKin : State → Text → Object → Type 0
IsKin state lineage o =
    is_dataset o.kind ≡ true
    → (child : Text) × (stored_lineage state o.name ≡ ok child)
      × (is_nil child ≡ true ⊎ (child ≡ lineage))

pub descendants_loop-IsKin :
    (state : State) (lineage : Text) (os : List Object)
    → descendants_loop state lineage os ≡ ok tt
    → All (IsKin state lineage) os
unfolding descendants_loop
descendants_loop-IsKin state lineage [] = λ done. tt
descendants_loop-IsKin state lineage (o ∷ os) =
    by_kind (is_dataset o.kind) refl (descendants_loop-IsKin state lineage os)
  where
    rest : Result ManagementError (Unit {0})
    rest = descendants_loop state lineage os

    by_kind :
        (is_set : Bool)
        → is_dataset o.kind ≡ is_set
        → (rest ≡ ok tt → All (IsKin state lineage) os)
        → (if not is_set
            then rest
            else boomerangz.Base.Result.◌>>=◌ (of_lifecycle (stored_lineage state o.name)) (λ child.
              boomerangz.Base.Result.◌>>◌
                (boomerangz.Base.Result.refuse
                  (not (is_nil child) && not (child =? lineage))
                  (conflicting_descendant o.name))
                rest))
          ≡ ok tt
        → All (IsKin state lineage) (o ∷ os)
    by_kind false same later done = (λ is_set. cc, later done)
    by_kind true same later done =
        let (child, stored, after) =
          >>=-eq-ok (of_lifecycle (stored_lineage state o.name)) _ done in
        let (fits, after) =
          refuse-passed (not (is_nil child) && not (child =? lineage))
            (conflicting_descendant o.name) after in
        (
          λ is_set. (
            child,
            of_lifecycle-ok (stored_lineage state o.name) child stored,
            elim (Bool-cases (is_nil child)) [
              | inl empty ↦ inl empty
              | inr full ↦ inr (ground arith)
            ],
          ),
          later after,
        )

-- A snapshot of the name with the metadata.
abbrev pub IsTaken : State → Metadata → Text → Text → Type 0
IsTaken after m lineage member =
    Some (λ s. (s.name ≡ member ++ b'@' ∷ component_name m) × (ownership s lineage ≡ ok m))
      (snapshots_in after member)

proves-ownership :
    (m : Metadata) (lineage : Text) (s : Snapshot)
    → proves m lineage s ≡ true
    → ownership s lineage ≡ ok m
proves-ownership m lineage s = by_proof (ownership s lineage)
  where
    by_proof :
        (r : Result OwnershipError Metadata)
        → (elim r as (λ r. Bool) [
          | err e ↦ false
          | ok actual ↦
              (actual.lineage =? m.lineage)
              && (actual.snapshot =? m.snapshot)
              && (actual.created == m.created)
        ])
          ≡ true
        → r ≡ ok m
    by_proof (err e) same = cc
    by_proof (ok actual) same = ground arith

verified_in-IsTaken :
    (name : Text) (m : Metadata) (lineage : Text) (ss : List Snapshot) (verified : Bool)
    → verified_in name m lineage ss verified ≡ true
    → verified ≡ true ⊎ Some (λ s. (s.name ≡ name) × (ownership s lineage ≡ ok m)) ss
unfolding verified_in
verified_in-IsTaken name m lineage [] verified done = inl done
verified_in-IsTaken name m lineage (s ∷ ss) verified done =
    elim (verified_in-IsTaken name m lineage ss
      (if not (s.name =? name) then verified else proves m lineage s) done) [
        | inr later ↦ inr (inr later)
        | inl here ↦ elim (Bool-cases (s.name =? name)) [
          | inl named ↦ inr (inl (ground arith, proves-ownership m lineage s (ground arith)))
          | inr other ↦ inl (ground arith)
        ]
      ]

pub verify_members-IsTaken :
    (after : State) (m : Metadata) (lineage : Text) (members : List Text)
    → verify_members after m lineage members ≡ ok tt
    → All (IsTaken after m lineage) members
unfolding verify_members
verify_members-IsTaken after m lineage [] done = tt
verify_members-IsTaken after m lineage (member ∷ members) done =
    let name = member ++ b'@' ∷ component_name m in
    let (found, rest) =
      refuse-passed (not (verified_in name m lineage (snapshots_in after member) false))
        (snapshot_unverified member) done in
    (
      elim (verified_in-IsTaken name m lineage (snapshots_in after member) false (ground arith)) [
        | inl none_found ↦ cc
        | inr taken ↦ taken
      ],
      verify_members-IsTaken after m lineage members rest,
    )
