-- ===== src/Transfer/Build/Sound.antt =====
-- internal/transfer/plan.go: what a plan that `Build` returns has gone through.
use boomerangz.Base.{
  Some, ℕ, ◌≤◌, ◌≡◌, Bool, true, false, Option, List, [], ◌∷◌, ◌++◌, Text, text_key, ℕ_key, is_nil,
  any, All, ◌↔◌,
}
use boomerangz.Base.Result.{Result, ok}
use boomerangz.Base.Dict.{Dict}
use boomerangz.Strings.{trim_prefix}
use boomerangz.Policy.{is_valid}
use boomerangz.Lifecycle.{Object, root_authority}
use boomerangz.References.{Codec}
use boomerangz.Transfer.{Request, Row, duplicate_row}
use boomerangz.Transfer.Binding.{BindingCodec, target_suspended}
use boomerangz.Transfer.Plan.{View, Scope, Settled, objects_of, escapes, row_map, encrypted_at}
use boomerangz.Transfer.Choice.{Expected}
use boomerangz.Transfer.Build.{expected_leb, Plan, name_of}
use boomerangz.Transfer.Build.Chosen.{IsCandidate}
use boomerangz.Transfer.Build.Placed.{IsScope}
use boomerangz.Transfer.Build.Received.{IsEndpoint, Has, is_streamed}
use boomerangz.Base.Sorting.{sort_by}
use boomerangz.Transfer.Build.Modes.{Fits}

-- What a settled stream rests on: no receive waits to be resumed, the root's authority is granted
-- under the lineage, the target is not suspended, and an encrypted stream with properties is raw.
pub record IsSettled (sha256 : Text → List ℕ) (installation : Text) (r : Request) (view : View)
    (st : Settled) : Type 0 where
  pub scope : IsScope r view st.scope
  pub authority : root_authority view.source r.source installation ≡ ok st.lineage
  pub no_token : is_nil view.source.resume_tokens ≡ true
  pub no_destination_token : is_nil view.destination.resume_tokens ≡ true
  pub inside_source : any (escapes r.source) view.source.objects ≡ false
  pub inside_target : any (escapes st.scope.target) view.destination.objects ≡ false
  pub unsuspended : target_suspended sha256 view.source r.source st.scope.canonical ≡ ok false
  pub policy_valid : is_valid st.policy ≡ true
  pub raw :
      (rows : Dict Text Row)
      → row_map duplicate_row view.inventory [] ≡ ok rows
      → encrypted_at st.scope.member.dataset rows ≡ true
      → st.policy.send.props ≡ true
      → st.policy.send.raw ≡ true

record Checked (r : Request) (view : View) (s : Scope) : Type 0 where
  no_token : is_nil view.source.resume_tokens ≡ true
  no_destination_token : is_nil view.destination.resume_tokens ≡ true
  inside_source : any (escapes r.source) view.source.objects ≡ false
  inside_target : any (escapes s.target) view.destination.objects ≡ false

module _ (sha256 : Text → List ℕ) (codec : Codec) (bindings : BindingCodec)
    (installation : Text) where
  -- What a plan was made of.
  pub record IsPlanned (r : Request) (view : View) (plan : Plan) : Type 0 where
    pub settled : Settled
    pub endpoint : Object
    pub already : Bool
    pub base : Option Object
    pub sound : IsSettled sha256 installation r view settled
    pub newest :
        Some (λ o. o ≡ endpoint) view.source.objects
        × IsCandidate view.source settled.lineage settled.scope.member endpoint
        × All
            (λ o.
              IsCandidate view.source settled.lineage settled.scope.member o
              → o.create_txg ≤ endpoint.create_txg)
            view.source.objects
    pub endpoints : List Expected
    pub covered :
        All
          (λ o.
            is_streamed settled.scope settled.policy.send.replicate o ≡ true
            → Some
                (IsEndpoint r view settled.scope
                  (trim_prefix endpoint.name (settled.scope.member.dataset ++ b'@' ∷ []))
                  o)
                endpoints)
          view.source.objects
    pub received :
        (already ≡ true)
        ↔ ((view.destination_exists ≡ true) × All (Has (objects_of view.destination)) endpoints)
    pub all_endpoints : plan.endpoints ≡ sort_by expected_leb endpoints
    pub fits : Fits sha256 codec r view settled endpoint already plan.mode base
    pub source : plan.source ≡ settled.scope.member.dataset
    pub destination : plan.destination ≡ settled.scope.target
    pub snapshot : plan.snapshot ≡ endpoint.name
    pub base_name : plan.base ≡ name_of base
    pub lineage : plan.lineage ≡ settled.lineage
