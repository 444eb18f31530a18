-- ===== src/Management/Creation/Whole.antt =====
-- internal/lifecycle/service.go: a whole run of `CreateSnapshot`.
use boomerangz.Base.{
  ℕ, ◌≡◌, refl, sym, ap, ◌∙◌, Bool, true, false, not, Option, none, some, List, [], ◌∷◌, ◌++◌,
  append_assoc, Text, text_key, ℕ_key, All,
}
use boomerangz.Base.Result.{Result, ok, err, refuse-passed, ok_injective}
use boomerangz.Ownership.{Metadata, component_name}
use boomerangz.Lifecycle.{State}
use boomerangz.Lifecycle.Backend.{
  Call, set_properties, take_snapshot, Backend, Act, Run, read_as-ok, read_calls, wrote, follow,
  Prefix, ◌>>=◌, ◌>>◌, after_quiet, after_lift, IsQuiet,
}
use boomerangz.Management.{
  ManagementError, backend_failed, scope_changed, authority_properties, metadata_properties,
  check_created, same_objects,
}
use boomerangz.Management.Operations.{inspect, perform, initialize, take_members}
use boomerangz.Management.Creation.{IsTaken, verify_members-IsTaken}

module _ {W : Type 0} (b : Backend W) (installation : Text)
    (random : W → W × Result Text (List ℕ)) where
  -- The writes: the marks of a fresh lineage, and then the snapshots of all members at once.
  abbrev pub marks : Text → Text → Bool → List Call
  marks dataset lineage true =
      set_properties dataset (authority_properties installation lineage) ∷ []
  marks dataset lineage false = []

  abbrev pub taking : List Text → Metadata → Call
  taking members m = take_snapshot members (component_name m) (metadata_properties m)

  -- Each member's snapshot is found in a state that was read.
  abbrev pub AreTaken : Text → List Text → Text → Metadata → Type 0
  AreTaken dataset members lineage m =
      (after : State) × (v : W) × ((b.inspect dataset true v).1 ≡ ok after)
      × All (IsTaken after m lineage) members

  -- The first of the writes; and all of them, with what they were for, if the run succeeds.
  abbrev pub Writes :
      Text
      → List Text
      → Text
      → Metadata
      → List Call
      → List Call
      → Result ManagementError Metadata
      → Type 0
  Writes dataset members lineage m writes calls result =
      Prefix calls writes
      × ((made : Metadata)
          → result ≡ ok made
          → (made ≡ m) × (calls ≡ writes) × AreTaken dataset members lineage m)

  check_created-IsTaken :
      (state after : State) (m : Metadata) (lineage : Text) (members : List Text)
      → check_created state after m lineage members ≡ ok tt
      → All (IsTaken after m lineage) members
  unfolding check_created
  check_created-IsTaken state after m lineage members done =
      verify_members-IsTaken after m lineage members
        (refuse-passed (not (same_objects state after)) scope_changed done).1

  -- A run that begins with a write.
  pub after_write :
      {B : Type 0} (P : List Call → Result ManagementError B → Type 0) (c : Call)
      (k : Act W ManagementError B)
      → ((e : ManagementError) → P (c ∷ []) (err e))
      → ((v : W) → P (c ∷ (k v).calls) (k v).result)
      → (w : W)
      → P ((perform b installation c >> k) w).calls ((perform b installation c >> k) w).result
  unfolding perform ◌>>◌ ◌>>=◌
  after_write P c k failed next w = by_answer (b.perform c w)
    where
      by_answer :
          (p : W × Option Text)
          → P
              (follow
                (wrote backend_failed c p).world
                (wrote backend_failed c p).calls
                (wrote backend_failed c p).result
                (λ u. k)).calls
              (follow
                (wrote backend_failed c p).world
                (wrote backend_failed c p).calls
                (wrote backend_failed c p).result
                (λ u. k)).result
      by_answer (v, none) = next v
      by_answer (v, some why) = failed (backend_failed why)

  pub inspect-IsQuiet :
      (dataset : Text) (deep : Bool) → IsQuiet (inspect b installation dataset deep)
  unfolding inspect
  inspect-IsQuiet dataset deep w = read_calls backend_failed (b.inspect dataset deep w)

  pub inspect-read :
      (dataset : Text) (deep : Bool) (v : W) (state : State)
      → (inspect b installation dataset deep v).result ≡ ok state
      → (b.inspect dataset deep v).1 ≡ ok state
  unfolding inspect
  inspect-read dataset deep v state = read_as-ok backend_failed (b.inspect dataset deep v) state

  take_members-Writes :
      (dataset : Text) (members : List Text) (state : State) (lineage : Text) (m : Metadata) (w : W)
      → let run : Run W ManagementError Metadata =
          take_members b installation random dataset members state lineage m w in
        Writes dataset members lineage m (taking members m ∷ []) run.calls run.result
  unfolding take_members ◌>>◌
  take_members-Writes dataset members state lineage m =
      let c = taking members m in
      let P : List Call → Result ManagementError Metadata → Type 0 =
        Writes dataset members lineage m (c ∷ []) in
      let failed : (e : ManagementError) → P (c ∷ []) (err e) =
        λ e. (([], refl), λ made done. cc) in
      after_write P c _ failed (
        after_quiet (λ calls result. P (c ∷ calls) result) (inspect b installation dataset true) _
          (inspect-IsQuiet dataset true) failed
          (λ after w read.
            after_lift (λ calls result. P (c ∷ calls) result)
              (check_created state after m lineage members) _ failed
              (λ u w checked. (
                ([], refl),
                λ made done. (
                  sym (ok_injective m made done),
                  refl,
                  (
                    after,
                    read.0,
                    inspect-read dataset true read.0 after read.1,
                    check_created-IsTaken state after m lineage members checked,
                  ),
                ),
              ))
              w))

  initialize-marks :
      (dataset lineage : Text) (state : State) (fresh : Bool) (w : W)
      → let run : Run W ManagementError (Unit {0}) =
          initialize b installation random dataset lineage state fresh w in
        Prefix run.calls (marks dataset lineage fresh)
        × (run.result ≡ ok tt → run.calls ≡ marks dataset lineage fresh)
  unfolding initialize ◌>>◌
  initialize-marks dataset lineage state false w = (([], refl), λ done. refl)
  initialize-marks dataset lineage state true w =
      let c = set_properties dataset (authority_properties installation lineage) in
      let P : List Call → Result ManagementError (Unit {0}) → Type 0 =
        λ calls result. Prefix calls (c ∷ []) × (result ≡ ok tt → calls ≡ c ∷ []) in
      let failed : (e : ManagementError) → P (c ∷ []) (err e) = λ e. (([], refl), λ done. cc) in
      after_write P c _ failed
        (after_quiet (λ calls result. P (c ∷ calls) result) (inspect b installation dataset true) _
          (inspect-IsQuiet dataset true) failed (λ current w read. (([], refl), λ done. refl)))
        w

  -- The writes of a run in their order.
  pub finish-Writes :
      (dataset : Text) (members : List Text) (state : State) (lineage : Text) (m : Metadata)
      (fresh : Bool) (w : W)
      → let run : Run W ManagementError Metadata =
          (initialize b installation random dataset lineage state fresh
              >> take_members b installation random dataset members state lineage m)
            w in
        Writes dataset members lineage m
          (marks dataset lineage fresh ++ taking members m ∷ [])
          run.calls
          run.result
  unfolding ◌>>◌ ◌>>=◌
  finish-Writes dataset members state lineage m fresh w =
      let first = initialize b installation random dataset lineage state fresh w in
      joined first.world first.calls first.result (initialize-marks dataset lineage state fresh w)
    where
      joined :
          (v : W) (calls : List Call) (r : Result ManagementError (Unit {0}))
          → Prefix calls (marks dataset lineage fresh)
            × (r ≡ ok tt → calls ≡ marks dataset lineage fresh)
          → let run : Run W ManagementError Metadata =
              follow v calls r
                (λ u. take_members b installation random dataset members state lineage m) in
            Writes dataset members lineage m
              (marks dataset lineage fresh ++ taking members m ∷ [])
              run.calls
              run.result
      joined v calls (err e) first = (
        (
          first.0.0 ++ taking members m ∷ [],
          ap (λ c. c ++ taking members m ∷ []) first.0.1
              ∙ append_assoc calls first.0.0 (taking members m ∷ []),
        ),
        λ made done. cc,
      )
      joined v calls (ok u) first =
          let taken = take_members-Writes dataset members state lineage m v in
          let all = first.1 refl in
          let run = take_members b installation random dataset members state lineage m v in
          (
            (
              taken.0.0,
              ap (λ c. marks dataset lineage fresh ++ c) taken.0.1
                  ∙ sym (append_assoc (marks dataset lineage fresh) run.calls taken.0.0)
                  ∙ ap (λ c. (c ++ run.calls) ++ taken.0.0) (sym all),
            ),
            λ made done.
                let known = taken.1 made done in
                (
                  known.0,
                  ap (λ c. c ++ run.calls) all ∙ ap (λ c. marks dataset lineage fresh ++ c) known.1,
                  known.2,
                ),
          )
