-- ===== src/Management/Expendable.antt =====
-- internal/lifecycle/service.go: what `Prune` destroys.
pub mod Whole
use boomerangz.Base.{
  is_none, Some, ℕ, zero, suc, ◌+◌, ◌-◌, ◌*◌, ◌/◌, ◌%◌, ◌^◌, ◌≤◌, ◌<◌, ◌≡◌, refl, sym, ap, ◌∙◌,
  subst, ◌≢◌, ◌↔◌, ◌⊎◌, inl, inr, Bool, true, false, not, ◌&&◌, ◌||◌, Option, none, some, List, [],
  ◌∷◌, ◌++◌, map, append_assoc, append-nil, arith, ltb, leb, ◌==◌, if◌then◌else◌, Bool-cases,
  Option-cases, Text, Key, text_dec, text_key, ℕ_key, ◌=?◌, codes, length, is_nil, length-append,
  keep, any, every, All, All-append, contains, remove, IsNodup, contains-append, contains-remove,
  IsNodup-remove, IsNodup-snoc,
}
use boomerangz.Base.Result.{Result, ok, err, refuse-passed, ok_injective, >>=-eq-ok}
use boomerangz.Policy.{Effective}
use boomerangz.Ownership.{Snapshot}
use boomerangz.Prune.{Decision, plan_prune}
use boomerangz.Prune.Safety.{IsExpendable, plan_prune-IsExpendable}
use boomerangz.Lifecycle.{State, LifecycleError, root_authority, snapshots_in, scope_ready}
use boomerangz.Lifecycle.Backend.{
  Call, destroy_snapshot, Backend, Act, Run, lift, read_as, read_as-ok, read_calls, wrote, ◌>>=◌,
  ◌>>◌, after_quiet, after_lift, IsQuiet, >>=-All, >>=-done, follow,
}
use boomerangz.Lifecycle.Backend.Runs.{after_run, after_check, >>=-ran, read_as-pair}
use boomerangz.Management.{
  ManagementError, Failure, identity_changed, lineage_changed, Retention, of_lifecycle, of_prune,
  with_plan, check_retention, check_again, is_again, same_objects,
}
use boomerangz.Management.Operations.{
  blame, inspect_for, read_scope, destroy, prune_one, prune_loop, apply_plan, prune,
}

with_plan-ok :
    {A : Type 0} (plan : List Decision) (r : Result LifecycleError A) (a : A)
    → with_plan plan (of_lifecycle r) ≡ ok a
    → r ≡ ok a
with_plan-ok plan (ok x) a done = ground arith
with_plan-ok plan (err e) a done = cc

pub with_plan-eq :
    {A : Type 0} (plan : List Decision) (r : Result ManagementError A) (a : A)
    → with_plan plan r ≡ ok a
    → r ≡ ok a
with_plan-eq plan (ok x) a done = ground arith
with_plan-eq plan (err e) a done = cc

pub of_prune-ok : {A : Type 0} (r : Result _ A) (a : A) → of_prune r ≡ ok a → r ≡ ok a
of_prune-ok (ok x) a done = ground arith
of_prune-ok (err e) a done = cc

any-Some : {A : Type 0} (p : A → Bool) (xs : List A) → any p xs ≡ true → Some (λ x. p x ≡ true) xs
any-Some p [] found = cc
any-Some p (x ∷ xs) found = elim (Bool-cases (p x)) [
  | inl here ↦ inl here
  | inr there ↦ inr (any-Some p xs (ground arith))
]

-- A deletion goes on only where the plan made for it decides to destroy the same snapshot.
check_again_sound :
    (retention : Retention) (state : State) (lineage : Text) (d : Decision) (current : State)
    (actual : Text)
    → check_again retention state lineage d current actual ≡ ok tt
    → (actual ≡ lineage)
      × (ds : List Decision) × (plan_prune retention.dataset lineage retention.grid
            (snapshots_in current retention.dataset)
          ≡ ok ds)
      × Some (λ n. is_again d n ≡ true) ds
unfolding check_again
check_again_sound retention state lineage d current actual done =
    let (same, rest) = refuse-passed (not (same_objects state current)) identity_changed done in
    let (agree, rest) = refuse-passed (not (actual =? lineage)) lineage_changed rest in
    let (ds, planned, rest) =
      >>=-eq-ok
        (of_prune (
          plan_prune retention.dataset lineage retention.grid
            (snapshots_in current retention.dataset)))
        _ rest in
    (
      ground arith,
      ds,
      of_prune-ok
          (plan_prune retention.dataset lineage retention.grid
            (snapshots_in current retention.dataset))
          ds planned,
      any-Some (is_again d) ds (ground arith),
    )

-- The snapshot that the new plan destroys again is expendable in the state it was made of.
again-IsExpendable :
    (retention : Retention) (state : State) (lineage : Text) (d : Decision) (ds all : List Decision)
    → plan_prune retention.dataset lineage retention.grid (snapshots_in state retention.dataset)
      ≡ ok all
    → ((n : Decision) → Some (λ e. e ≡ n) ds → Some (λ e. e ≡ n) all)
    → Some (λ n. is_again d n ≡ true) ds
    → (n : Decision) × (n.snapshot ≡ d.snapshot)
      × Some (IsExpendable lineage n) (snapshots_in state retention.dataset)
again-IsExpendable retention state lineage d [] all planned within none_left = elim none_left [ ]
again-IsExpendable retention state lineage d (n ∷ ds) all planned within (inl here) = (
  n,
  ground arith,
  plan_prune-IsExpendable retention.dataset lineage retention.grid
      (snapshots_in state retention.dataset) n planned (within n (inl refl)) (ground arith),
)
again-IsExpendable retention state lineage d (n ∷ ds) all planned within (inr later) =
    again-IsExpendable retention state lineage d ds all planned (λ m found. within m (inr found))
      later

module _ {W : Type 0} (b : Backend W) (installation : Text) where
  -- Reads from one world to another: the root, which grants authority, and then the dataset, which is
  -- read again only where it is not the root.
  pub record Reads (root dataset : Text) (w v : W) (state : State) (lineage : Text) : Type 0 where
    pub root_state : State
    pub between : W
    pub root_read : b.inspect root false w ≡ (between, ok root_state)
    pub authority : root_authority root_state root installation ≡ ok lineage
    pub read :
        ((dataset ≡ root) × (state ≡ root_state) × (v ≡ between))
        ⊎ ((dataset ≢ root) × (b.inspect dataset false between ≡ (v, ok state)))

  -- Deletions in a row. Each follows reads that begin in the world that the deletion before it left:
  -- they grant authority under the lineage and show a snapshot of its name that is expendable, and
  -- the deletion is made in the world that they leave.
  pub data Deletes (root : Text) (retention : Retention) (lineage : Text)
      : W → List Call → W → Type 0 where
    ended : (w v : W) → Deletes root retention lineage w [] v
    deleted :
        (w u v x : W) (state : State) (d : Decision) (answer : Option Text) (calls : List Call)
        → Reads root retention.dataset w u state lineage
        → Some (IsExpendable lineage d) (snapshots_in state retention.dataset)
        → b.perform (destroy_snapshot d.snapshot) u ≡ (v, answer)
        → Deletes root retention lineage v calls x
        → Deletes root retention lineage w (destroy_snapshot d.snapshot ∷ calls) x

  member_IsQuiet :
      (plan : List Decision) (dataset : Text) (root_state : State) (is_root : Bool)
      → IsQuiet (if is_root then lift (ok root_state) else inspect_for b installation plan dataset)
  unfolding inspect_for
  member_IsQuiet plan dataset root_state true w = refl
  member_IsQuiet plan dataset root_state false w =
      read_calls (blame b installation plan) (b.inspect dataset false w)

  pub read_scope-IsQuiet :
      (plan : List Decision) (root dataset : Text)
      → IsQuiet (read_scope b installation plan root dataset)
  unfolding read_scope inspect_for ◌>>◌
  read_scope-IsQuiet plan root dataset =
      let P : List Call → Result Failure (State × Text) → Type 0 = λ calls result. calls ≡ [] in
      after_quiet P (inspect_for b installation plan root) _
        (λ w. read_calls (blame b installation plan) (b.inspect root false w)) (λ e. refl)
        (λ root_state w read.
          after_lift P (with_plan plan (of_lifecycle (root_authority root_state root installation)))
            _ (λ e. refl)
            (λ lineage w granted.
              after_quiet P
                (if dataset =? root
                  then lift (ok root_state)
                  else inspect_for b installation plan dataset)
                _ (member_IsQuiet plan dataset root_state (dataset =? root)) (λ e. refl)
                (λ state w member.
                  after_lift P (with_plan plan (of_lifecycle (scope_ready state dataset))) _
                    (λ e. refl) (λ u w ready. refl) w)
                w)
            w)

  member_read :
      (plan : List Decision) (root dataset : Text) (root_state state : State) (v : W)
      (is_root : Bool)
      → (dataset =? root) ≡ is_root
      → ((if is_root then lift (ok root_state) else inspect_for b installation plan dataset)
          v).result
        ≡ ok state
      → let u =
          ((if is_root then lift (ok root_state) else inspect_for b installation plan dataset)
            v).world in
        ((dataset ≡ root) × (state ≡ root_state) × (u ≡ v))
        ⊎ ((dataset ≢ root) × (b.inspect dataset false v ≡ (u, ok state)))
  unfolding inspect_for
  member_read plan root dataset root_state state v true same done =
      inl (ground arith, sym (ok_injective root_state state done), refl)
  member_read plan root dataset root_state state v false other done = inr (
    λ same. ground arith,
    read_as-pair (blame b installation plan) (b.inspect dataset false v) state done,
  )

  pub read_scope-Reads :
      (plan : List Decision) (root dataset : Text) (w : W) (state : State) (lineage : Text)
      → (read_scope b installation plan root dataset w).result ≡ ok (state, lineage)
      → Reads root dataset w (read_scope b installation plan root dataset w).world state lineage
  unfolding read_scope inspect_for ◌>>◌
  read_scope-Reads plan root dataset w state lineage done =
      let (root_state, known, next, first) =
        >>=-ran (inspect_for b installation plan root) _ w (state, lineage) done in
      let v = (inspect_for b installation plan root w).world in
      let (l, granted, next, second) =
        >>=-ran (lift (with_plan plan (of_lifecycle (root_authority root_state root installation))))
          _ v (state, lineage) next in
      let member : Act W Failure State =
        if dataset =? root then lift (ok root_state) else inspect_for b installation plan dataset in
      let (s, taken, next, third) = >>=-ran member _ v (state, lineage) next in
      let (u, ready, last, fourth) =
        >>=-ran (lift (with_plan plan (of_lifecycle (scope_ready s dataset)))) _ (member v).world
          (state, lineage) next in
      let same = ok_injective (s, l) (state, lineage) last in
      subst (λ (x : W). Reads root dataset w x state lineage)
        (sym (first ∙ second ∙ third ∙ fourth))
        (subst (λ (p : State × Text). Reads root dataset w (member v).world p.0 p.1) same
          (record {
            root_state = root_state;
            between = v;
            root_read =
                read_as-pair (blame b installation plan) (b.inspect root false w) root_state known;
            authority = with_plan-ok plan (root_authority root_state root installation) l granted;
            read = member_read plan root dataset root_state s v (dataset =? root) refl taken;
          }))

  -- One deletion of the loop: an error before it, or its reads and the deletion.
  abbrev Single : Text → Retention → Text → W → Run W Failure (Unit {0}) → Type 0
  Single root retention lineage w run =
      ((e : Failure) × (v : W) × (run ≡ record { world = v; calls = []; result = err e }))
      ⊎ ((d : Decision) × (state : State) × (u : W) × (v : W) × (answer : Option Text)
          × (result : Result Failure (Unit {0})) × Reads root retention.dataset w u state lineage
          × Some (IsExpendable lineage d) (snapshots_in state retention.dataset)
          × (b.perform (destroy_snapshot d.snapshot) u ≡ (v, answer))
          × (run ≡ record { world = v; calls = destroy_snapshot d.snapshot ∷ []; result = result }))

  prune_one-Single :
      (plan : List Decision) (root : Text) (retention : Retention) (state : State) (lineage : Text)
      (d : Decision) (w : W)
      → Single root retention lineage w
          (prune_one b installation plan root retention state lineage d w)
  unfolding prune_one destroy ◌>>◌
  prune_one-Single plan root retention state lineage d w =
      let P : Run W Failure (Unit {0}) → Type 0 = Single root retention lineage w in
      let failed : (e : Failure) (v : W) → P (record { world = v; calls = []; result = err e }) =
        λ e v. inl (e, v, refl) in
      let u = (read_scope b installation plan root retention.dataset w).world in
      after_run P (read_scope b installation plan root retention.dataset) _
        (read_scope-IsQuiet plan root retention.dataset) failed w
        (λ read known.
          after_check P (with_plan plan (check_again retention state lineage d read.0 read.1)) _
            failed u
            (λ ok_to_go passed.
              let (agree, ds, planned, found) =
                check_again_sound retention state lineage d read.0 read.1 (
                  with_plan-eq plan (check_again retention state lineage d read.0 read.1) tt
                    passed) in
              let (n, same, free) =
                again-IsExpendable retention read.0 lineage d ds ds planned (λ m there. there)
                  found in
              let reads = read_scope-Reads plan root retention.dataset w read.0 read.1 known in
              carried_out u read.0 n same
                (subst (Reads root retention.dataset w u read.0) agree reads) free
                (b.perform (destroy_snapshot d.snapshot) u) refl))
    where
      carried_out :
          (u : W) (now : State) (n : Decision)
          → n.snapshot ≡ d.snapshot
          → Reads root retention.dataset w u now lineage
          → Some (IsExpendable lineage n) (snapshots_in now retention.dataset)
          → (p : W × Option Text) → b.perform (destroy_snapshot d.snapshot) u ≡ p
          → Single root retention lineage w
              (wrote (blame b installation plan) (destroy_snapshot d.snapshot) p)
      carried_out u now n same reads free (v, none) did = inr (
        n,
        now,
        u,
        v,
        none,
        ok tt,
        reads,
        free,
        ap (λ name. b.perform (destroy_snapshot name) u) same ∙ did,
        ap (λ name. record { world = v; calls = destroy_snapshot name ∷ []; result = ok tt })
            (sym same),
      )
      carried_out u now n same reads free (v, some why) did = inr (
        n,
        now,
        u,
        v,
        some why,
        err (blame b installation plan why),
        reads,
        free,
        ap (λ name. b.perform (destroy_snapshot name) u) same ∙ did,
        ap
            (λ name. record {
              world = v;
              calls = destroy_snapshot name ∷ [];
              result = err (blame b installation plan why);
            })
            (sym same),
      )

  -- A deletion and what follows it.
  pub prune_one-Deletes :
      (plan : List Decision) (root : Text) (retention : Retention) (state : State) (lineage : Text)
      (d : Decision) (rest : Act W Failure (Unit {0}))
      → ((v : W) → Deletes root retention lineage v (rest v).calls (rest v).world)
      → (w : W)
      → let run : Run W Failure (Unit {0}) =
          (prune_one b installation plan root retention state lineage d >> rest) w in
        Deletes root retention lineage w run.calls run.world
  unfolding ◌>>◌ ◌>>=◌
  prune_one-Deletes plan root retention state lineage d rest later w =
      elim (prune_one-Single plan root retention state lineage d w) [
        | inl (e, v, same) ↦ subst Holds (sym same) (ended w v)
        | inr (n, now, u, v, answer, result, reads, free, did, same) ↦
            subst Holds (sym same) (onward n now u v answer reads free did result)
      ]
    where
      Holds : Run W Failure (Unit {0}) → Type 0
      Holds run =
          let all : Run W Failure (Unit {0}) =
            follow run.world run.calls run.result (λ done. rest) in
          Deletes root retention lineage w all.calls all.world

      onward :
          (n : Decision) (now : State) (u v : W) (answer : Option Text)
          → Reads root retention.dataset w u now lineage
          → Some (IsExpendable lineage n) (snapshots_in now retention.dataset)
          → b.perform (destroy_snapshot n.snapshot) u ≡ (v, answer)
          → (result : Result Failure (Unit {0}))
          → let all : Run W Failure (Unit {0}) =
              follow v (destroy_snapshot n.snapshot ∷ []) result (λ done. rest) in
            Deletes root retention lineage w all.calls all.world
      onward n now u v answer reads free did (err e) =
          deleted w u v v now n answer [] reads free did (ended v v)
      onward n now u v answer reads free did (ok done) =
          deleted w u v _ now n answer _ reads free did (later v)
