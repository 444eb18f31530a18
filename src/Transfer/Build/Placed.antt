-- ===== src/Transfer/Build/Placed.antt =====
-- internal/transfer/plan.go: what the scope that `Build` chooses for a stream rests on.
use boomerangz.Base.{
  Some, ◌≡◌, subst, true, false, not, ◌&&◌, ◌||◌, List, [], ◌∷◌, arith, Text, text_key, ℕ_key,
  is_nil, Bool-cases, ◌=?◌, inl, inr, if◌then◌else◌,
}
use boomerangz.Base.Result.{ok, refuse-passed, >>=-eq-ok, ok_injective}
use boomerangz.Names.{validate_dataset, inside}
use boomerangz.Policy.{is_valid}
use boomerangz.Lifecycle.{check_active_root}
use boomerangz.Transfer.{
  Request, of_name, of_lifecycle, stream, stream_policy, mapped, Member, streams, find_stream,
}
use boomerangz.Transfer.Plan.{View, Scope, is_local_transport, choose_canonical, choose_scope}

-- What the scope of a stream rests on.
pub record IsScope (r : Request) (view : View) (s : Scope) : Type 0 where
  pub members : List Member
  pub requested : streams r ≡ ok members
  pub member : Some (λ m. m ≡ s.member) members
  pub asked : s.member.dataset ≡ (if is_nil view.stream_name then r.source else view.stream_name)
  pub enabled : r.policy.enabled ≡ true
  pub active : check_active_root r.policy r.source ≡ ok tt
  pub policy : stream_policy r s.member ≡ ok s.policy
  pub canonical : choose_canonical r s.member ≡ ok s.canonical
  pub places : mapped r s.member.dataset ≡ ok (s.root, s.target)
  pub apart :
      is_local_transport r ≡ true
      → (inside s.root r.source ≡ false) × (inside r.source s.root ≡ false)

find_stream-found :
    (dataset : Text) (members : List Member) (m : Member)
    → find_stream dataset members ≡ ok m
    → (m.dataset ≡ dataset) × Some (λ n. n ≡ m) members
unfolding find_stream
find_stream-found dataset [] m done = cc
find_stream-found dataset (n ∷ members) m done = elim (Bool-cases (n.dataset =? dataset)) [
  | inl this ↦
      let same : n ≡ m = ground arith in
      (subst (λ (o : Member). o.dataset ≡ dataset) same (ground arith), inl same)
  | inr other ↦
      let rest = find_stream-found dataset members m (ground arith) in (rest.0, inr rest.1)
]

stream-found :
    (r : Request) (dataset : Text) (m : Member)
    → stream r dataset ≡ ok m
    → (members : List Member) × (streams r ≡ ok members)
      × (m.dataset ≡ dataset)
      × Some (λ n. n ≡ m) members
unfolding stream
stream-found r dataset m done =
    let (members, known, last) = >>=-eq-ok (streams r) _ done in
    let found = find_stream-found dataset members m last in (members, known, found.0, found.1)

pub choose_scope-IsScope :
    (r : Request) (view : View) (s : Scope) → choose_scope r view ≡ ok s → IsScope r view s
unfolding choose_scope
choose_scope-IsScope r view s done =
    let (_, valid, after_name) = >>=-eq-ok (of_name (validate_dataset r.source)) _ done in
    let on = refuse-passed (not r.policy.enabled || not (is_valid r.policy)) _ after_name in
    let (_, active, after_active) =
      >>=-eq-ok (of_lifecycle (check_active_root r.policy r.source)) _ on.1 in
    let (m, member, after_member) = >>=-eq-ok (stream r _) _ after_active in
    let (p, policy, after_policy) = >>=-eq-ok (stream_policy r m) _ after_member in
    let (c, canonical, after_canonical) = >>=-eq-ok (choose_canonical r m) _ after_policy in
    let (places, placed, after_places) = >>=-eq-ok (mapped r m.dataset) _ after_canonical in
    let apart =
      refuse-passed (is_local_transport r && (inside places.0 r.source || inside r.source places.0))
        _ after_places in
    let found = stream-found r _ m member in
    subst (IsScope r view) (ok_injective _ s apart.1) (record {
      members = found.0;
      requested = found.1;
      member = found.3;
      asked = found.2;
      enabled = ground arith;
      active = ground arith;
      policy = policy;
      canonical = canonical;
      places = placed;
      apart = λ near. (ground (arith, apart.0), ground (arith, apart.0));
    })
