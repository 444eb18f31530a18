-- ===== src/References/Protect.antt =====
-- internal/lifecycle/reference.go: what `ProtectSet` and `ReleaseReference` write, and in which order.
use boomerangz.References.Read.{ReadsTo, Rechecked, proof_unchanged-Rechecked}
use boomerangz.Lifecycle.Backend.Runs.{Carried, after_run, perform_all-Carried}
use boomerangz.Base.Dict.{get_or}
use boomerangz.Base.{
  ℕ, ◌≡◌, refl, ◌≢◌, ◌⊎◌, inl, inr, Bool, true, false, not, List, [], ◌∷◌, ◌++◌, map, if◌then◌else◌,
  Text, text_key, ℕ_key, ◌=?◌, is_nil, contains, keep,
}
use boomerangz.Base.Result.{Result, ok, is_ok}
use boomerangz.Base.Sorting.{text_leb, sort_by}
use boomerangz.Lifecycle.{State, root_authority}
use boomerangz.Lifecycle.Merge.{merge_states}
use boomerangz.Lifecycle.Backend.{
  Call, set_property, hold, Backend, Act, Run, lift, read_calls, perform_all, ◌>>=◌, ◌>>◌, IsQuiet,
  >>=-IsQuiet,
}
use boomerangz.References.{
  Reference, ReferenceError, backend_failed, Codec, hold_name, property_name, encode_reference,
  reference_subtree,
}
use boomerangz.References.Service.{wanted_datasets, Protection, decide_protection}
use boomerangz.References.Operations.{
  inspect, list_datasets, perform, read_members, proof_scope, proof_unchanged, write_unchanged,
}

module _ {W : Type 0} (b : Backend W) (sha256 : Text → List ℕ) (codec : Codec)
    (installation : Text) where
  read_members-IsQuiet :
      (subtree : Text) (inventory wanted : List Text) (state : State)
      → IsQuiet (read_members b sha256 codec installation subtree inventory wanted state)
  unfolding read_members
  read_members-IsQuiet subtree inventory [] state = λ w. refl
  read_members-IsQuiet subtree inventory (d ∷ wanted) state =
      by_test (not (contains inventory d)) _ _ (read_members-IsQuiet subtree inventory wanted state)
        (>>=-IsQuiet (inspect b sha256 codec installation d (d =? subtree)) _
          (λ w. read_calls backend_failed (b.inspect d (d =? subtree) w))
          (λ member.
            read_members-IsQuiet subtree inventory wanted (merge_states (state ∷ member ∷ []))))
    where
      by_test :
          (absent : Bool) (m n : Act W ReferenceError State)
          → IsQuiet m
          → IsQuiet n
          → IsQuiet (if absent then m else n)
      by_test true m n first second = first
      by_test false m n first second = second

  pub proof_scope-IsQuiet :
      (root : Text) (datasets : List Text) (subtree : Text)
      → IsQuiet (proof_scope b sha256 codec installation root datasets subtree)
  unfolding proof_scope
  proof_scope-IsQuiet root datasets subtree =
      >>=-IsQuiet (inspect b sha256 codec installation root (root =? subtree)) _
        (λ w. read_calls backend_failed (b.inspect root (root =? subtree) w))
        (λ state. more (wanted_datasets root subtree datasets) state)
    where
      more :
          (wanted : List Text) (state : State)
          → IsQuiet (
              if is_nil wanted
              then lift (ok state)
              else list_datasets b sha256 codec installation >>= λ inventory.
                  read_members b sha256 codec installation subtree inventory
                    (sort_by text_leb wanted)
                    state)
      more [] state = λ w. refl
      more (d ∷ wanted) state =
          >>=-IsQuiet (list_datasets b sha256 codec installation) _
            (λ w. read_calls backend_failed (b.list_datasets w))
            (λ inventory.
              read_members-IsQuiet subtree inventory (sort_by text_leb (d ∷ wanted)) state)

  pub proof_unchanged-IsQuiet :
      (root : Text) (datasets : List Text) (subtree : Text) (state : State)
      → IsQuiet (proof_unchanged b sha256 codec installation root datasets subtree state)
  unfolding proof_unchanged
  proof_unchanged-IsQuiet root datasets subtree state =
      >>=-IsQuiet (proof_scope b sha256 codec installation root datasets subtree) _
        (proof_scope-IsQuiet root datasets subtree) (λ current w. refl)

  -- A run that wrote nothing and failed, or carried its calls out, from the world in which the state
  -- was found unchanged on.
  abbrev pub Written : Text → W → State → List Call → Run W ReferenceError (Unit {0}) → Type 0
  Written dataset v state planned run =
      (run.calls ≡ []) × (is_ok run.result ≡ false)
      ⊎ ((u : W) × Rechecked b sha256 codec installation dataset v state u
          × Carried b planned u run.calls run.world (is_ok run.result))

  pub write_unchanged-Written :
      (dataset : Text) (r : Reference) (state : State) (calls : List Call) (v : W)
      → Written dataset v state calls
          (write_unchanged b sha256 codec installation dataset r state calls v)
  unfolding write_unchanged ◌>>◌ perform
  write_unchanged-Written dataset r state calls v =
      let check =
        proof_unchanged b sha256 codec installation dataset (r.dataset ∷ []) (reference_subtree r)
          state in
      after_run (Written dataset v state calls) check (λ done. perform_all b backend_failed calls)
        (proof_unchanged-IsQuiet dataset (r.dataset ∷ []) (reference_subtree r) state)
        (λ e u. inl (refl, refl)) v
        (λ a passed. inr (
          (check v).world,
          proof_unchanged-Rechecked b sha256 codec installation dataset (r.dataset ∷ [])
              (reference_subtree r) state v passed,
          perform_all-Carried b backend_failed calls (check v).world,
        ))

  -- What a protection rests on.
  pub record Decided (dataset stream target : Text) (snapshots : List Text) (state : State)
      (lineage : Text) (p : Protection) : Type 0 where
    pub decided :
        decide_protection sha256 codec state dataset lineage stream snapshots target ≡ ok p
    pub authority : root_authority state dataset installation ≡ ok lineage
    pub unheld :
        p.unheld
        ≡ keep (λ s. not (contains (get_or s state.holds []) (hold_name p.reference))) snapshots

  -- The calls that a protection owes: the proof unless it is stored, then the missing holds.
  abbrev pub owed : Text → Protection → List Call
  owed dataset p =
      (if p.exists
        then []
        else set_property dataset (property_name sha256 codec p.reference)
            (encode_reference sha256 codec p.reference dataset)
          ∷ [])
      ++ map (λ s. hold (hold_name p.reference) s) p.unheld

  -- How a run ends that decided on a protection by a state: it owed nothing; or it wrote nothing and
  -- failed; or it read the state again, found it the same, and carried out what it owed.
  abbrev pub Settles : Text → W → State → Protection → Run W ReferenceError Reference → Type 0
  Settles dataset v state p run =
      (owed dataset p ≡ []) × (run.calls ≡ []) × (run.result ≡ ok p.reference)
      ⊎ ((u : W) × Rechecked b sha256 codec installation dataset v state u
          × Carried b (owed dataset p) u run.calls run.world (is_ok run.result)
          × ((r : Reference) → run.result ≡ ok r → r ≡ p.reference))

  abbrev Fails : Run W ReferenceError Reference → Type 0
  Fails run = (run.calls ≡ []) × ((r : Reference) → run.result ≢ ok r)

  -- A run from a world that wrote nothing and failed; or one that read a state from that world on in
  -- which the root's authority is granted, decided on a protection by it, and settled it.
  abbrev pub Protects : Text → Text → Text → List Text → W → Run W ReferenceError Reference → Type 0
  Protects dataset stream target snapshots w run =
      (run.calls ≡ []) × ((r : Reference) → run.result ≢ ok r)
      ⊎ ((state : State) × (lineage : Text) × (p : Protection) × (v : W) × ReadsTo b dataset w state
            v
          × Decided dataset stream target snapshots state lineage p
          × Settles dataset v state p run)
