-- ===== src/Transfer/Build/Received.antt =====
-- internal/transfer/plan.go: the endpoints of a plan, and whether the destination has them.
use boomerangz.Base.{
  Some, ◌≡◌, refl, sym, ◌∙◌, subst, ◌↔◌, inl, inr, Bool, true, false, not, ◌&&◌, ◌||◌, Option, none,
  some, List, [], ◌∷◌, ◌++◌, arith, Bool-cases, Option-cases, Text, text_key, ℕ_key, ◌=?◌, All,
}
use boomerangz.Base.Result.{Result, ok, err, ◌>>=◌, refuse-passed, >>=-eq-ok, ok_injective}
use boomerangz.Base.Dict.{Dict, lookup}
use boomerangz.Strings.{trim_prefix}
use boomerangz.Lifecycle.{Object, is_dataset, stored_lineage}
use boomerangz.Transfer.{Request, TransferError, endpoint_missing, of_lifecycle}
use boomerangz.Transfer.Plan.{View, Scope, objects_of}
use boomerangz.Transfer.Choice.{
  Expected, conflicts_with, check_existing, owned, owned_or, endpoint_of, endpoints_loop,
  received_as, already_loop,
}

All-map {ℓ} :
    {A : Type ℓ} {P Q : A → Type ℓ} → ((x : A) → P x → Q x) → (xs : List A) → All P xs → All Q xs
All-map f [] all = tt
All-map f (x ∷ xs) all = (f x all.0, All-map f xs all.1)

-- The destination has what an endpoint names, with its GUID.
abbrev pub Has : Dict Text Object → Expected → Type 0
Has there e = (o : Object) × (lookup e.destination there ≡ some o) × (o.guid ≡ e.guid)

received_as-Has :
    (there : Dict Text Object) (e : Expected)
    → received_as (lookup e.destination there) e.guid ≡ true
    → Has there e
received_as-Has there e good = elim (Option-cases (lookup e.destination there)) [
  | inl missing ↦ absurd (ground arith)
  | inr (o, found) ↦ (o, found, ground arith)
]

Has-received_as :
    (there : Dict Text Object) (e : Expected)
    → Has there e
    → received_as (lookup e.destination there) e.guid ≡ true
Has-received_as there e (o, found, same) = ground arith

pub already_loop-exact :
    (there : Dict Text Object) (endpoints : List Expected) (start already : Bool)
    → already_loop there endpoints start ≡ ok already
    → (already ≡ true) ↔ ((start ≡ true) × All (Has there) endpoints)
unfolding already_loop
already_loop-exact there [] start already done =
    let same : start ≡ already = ground arith in
    (λ yes. (same ∙ yes, tt), λ both. sym same ∙ both.0)
already_loop-exact there (e ∷ endpoints) start already done =
    let rest =
      already_loop-exact there endpoints (start && received_as (lookup e.destination there) e.guid)
        already (ground arith) in
    (
      λ yes.
          let both = rest.0 yes in
          (ground (arith, both.0), (received_as-Has there e (ground (arith, both.0)), both.1)),
      λ both. rest.1 (ground (arith, both.0, Has-received_as there e both.1.0), both.1.1),
    )

-- The endpoint of a dataset: the snapshot of the asked name there, at the mapped destination.
abbrev pub IsEndpoint : Request → View → Scope → Text → Object → Expected → Type 0
IsEndpoint r view s component o e =
    (e.destination ≡ (s.root ++ trim_prefix o.name r.source) ++ b'@' ∷ component)
    × (snap : Object) × (lookup (o.name ++ b'@' ∷ component) (objects_of view.source) ≡ some snap)
    × (e.source ≡ snap.name)
    × (e.guid ≡ snap.guid)

found_snapshot :
    (o snap : Object) (found : Option Object)
    → (let r : Result TransferError Object = elim found [
      | none ↦ err (endpoint_missing o.name)
      | some s ↦ ok s
    ] in
        r ≡ ok snap)
    → found ≡ some snap
found_snapshot o snap none done = cc
found_snapshot o snap (some s) done = ground arith

endpoint_of-IsEndpoint :
    (r : Request) (view : View) (s : Scope) (lineage component : Text) (o : Object) (e : Expected)
    → endpoint_of r view s lineage component o ≡ ok e
    → IsEndpoint r view s component o e
unfolding endpoint_of
endpoint_of-IsEndpoint r view s lineage component o e done =
    let (own, stored, after_own) =
      >>=-eq-ok (of_lifecycle (stored_lineage view.source o.name)) _ done in
    let agreed = refuse-passed (conflicts_with lineage own) _ after_own in
    let (snap, found, after_snap) = >>=-eq-ok _ _ agreed.1 in
    let (m, proven, after_m) = >>=-eq-ok (owned_or (owned view.source snap lineage)) _ after_snap in
    let (u, free, last) =
      >>=-eq-ok (check_existing view.destination lineage o (s.root ++ trim_prefix o.name r.source))
        _ after_m in
    subst (IsEndpoint r view s component o) (ok_injective _ e last)
      (refl, snap, found_snapshot o snap _ found, refl, refl)

-- A dataset of the stream: the member's, or any of the source's where the policy replicates.
abbrev pub is_streamed : Scope → Bool → Object → Bool
is_streamed s recursive o = is_dataset o.kind && (recursive || o.name =? s.member.dataset)

pub endpoints_loop-covers :
    (r : Request) (view : View) (s : Scope) (recursive : Bool) (lineage component : Text)
    (objects : List Object) (endpoints : List Expected)
    → endpoints_loop r view s recursive lineage component objects ≡ ok endpoints
    → All
        (λ o. is_streamed s recursive o ≡ true → Some (IsEndpoint r view s component o) endpoints)
        objects
unfolding endpoints_loop
endpoints_loop-covers r view s recursive lineage component [] endpoints done = tt
endpoints_loop-covers r view s recursive lineage component (o ∷ objects) endpoints done =
    elim (Bool-cases
      (not (is_dataset o.kind) || not recursive && not (o.name =? s.member.dataset))) [
        | inl other ↦ (
          λ mine. absurd (ground arith),
          endpoints_loop-covers r view s recursive lineage component objects endpoints
              (ground arith),
        )
        | inr mine ↦
            let (e, made, next) =
              >>=-eq-ok (endpoint_of r view s lineage component o)
                (λ e.
                  endpoints_loop r view s recursive lineage component objects >>= λ es. ok (e ∷ es))
                (taken mine) in
            let (es, rest, last) =
              >>=-eq-ok (endpoints_loop r view s recursive lineage component objects) _ next in
            subst
              (λ all.
                All
                  (λ o.
                    is_streamed s recursive o ≡ true → Some (IsEndpoint r view s component o) all)
                  (o ∷ objects))
              (ok_injective _ endpoints last)
              (
                λ streamed. inl (endpoint_of-IsEndpoint r view s lineage component o e made),
                All-map (λ p there streamed. inr (there streamed)) objects
                    (endpoints_loop-covers r view s recursive lineage component objects es rest),
              )
      ]
  where
    taken :
        (not (is_dataset o.kind) || not recursive && not (o.name =? s.member.dataset)) ≡ false
        → (endpoint_of r view s lineage component o >>= λ e.
            endpoints_loop r view s recursive lineage component objects >>= λ es. ok (e ∷ es))
          ≡ ok endpoints
    taken mine = ground arith
