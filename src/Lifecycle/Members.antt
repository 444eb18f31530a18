-- ===== src/Lifecycle/Members.antt =====
-- internal/lifecycle/service.go: which sets of members a snapshot is taken of.
use boomerangz.Base.{
  ◌≡◌, refl, ◌↔◌, true, false, not, List, [], ◌∷◌, arith, Text, text_key, ℕ_key, is_nil, All,
  contains, IsNodup,
}
use boomerangz.Base.Result.{ok, refuse-passed, >>=-eq-ok}
use boomerangz.Names.{inside}
use boomerangz.Lifecycle.{check_dataset, members_loop, validate_members}

-- A member that may be snapshotted under the root.
abbrev pub IsMember : Text → Text → Type 0
IsMember root member = (check_dataset member ≡ ok tt) × (inside member root ≡ true)

abbrev Absent : List Text → List Text → Type 0
Absent seen members = All (λ m. contains seen m ≡ false) members

Absent-cons :
    (seen members : List Text) (a : Text)
    → contains members a ≡ false
    → Absent seen members
    → Absent (a ∷ seen) members
Absent-cons seen [] a new there = tt
Absent-cons seen (m ∷ members) a new there =
    (ground (arith, there.0), Absent-cons seen members a (ground arith) there.1)

Absent-tail :
    (seen members : List Text) (a : Text)
    → Absent (a ∷ seen) members
    → (contains members a ≡ false) × Absent seen members
Absent-tail seen [] a there = (refl, tt)
Absent-tail seen (m ∷ members) a there =
    let rest = Absent-tail seen members a there.1 in
    (ground (arith, there.0, rest.0), (ground (arith, there.0), rest.1))

members_loop_sound :
    (root : Text) (members seen : List Text)
    → members_loop root members seen ≡ ok tt
    → All (IsMember root) members × IsNodup members × Absent seen members
unfolding members_loop
members_loop_sound root [] seen passed = (tt, tt, tt)
members_loop_sound root (m ∷ members) seen passed =
    let valid = >>=-eq-ok (check_dataset m) _ passed in
    let inner = refuse-passed (not (inside m root)) _ valid.2 in
    let new = refuse-passed (contains seen m) _ inner.1 in
    let rest = members_loop_sound root members (m ∷ seen) new.1 in
    let apart = Absent-tail seen members m rest.2 in
    (
      ((ground (arith, valid.1), ground (arith, inner.0)), rest.0),
      (apart.0, rest.1),
      (new.0, apart.1),
    )

members_loop_complete :
    (root : Text) (members seen : List Text)
    → All (IsMember root) members
    → IsNodup members
    → Absent seen members
    → members_loop root members seen ≡ ok tt
unfolding members_loop
members_loop_complete root [] seen each distinct there = refl
members_loop_complete root (m ∷ members) seen each distinct there = ground (
  arith,
  members_loop_complete root members (m ∷ seen) each.1 distinct.1
      (Absent-cons seen members m distinct.0 there.1),
  each.0.0,
  each.0.1,
  there.0,
)

Absent-nil : (members : List Text) → Absent [] members
Absent-nil [] = tt
Absent-nil (m ∷ members) = (refl, Absent-nil members)

-- A set of members is accepted exactly when it is not empty, each member is a valid dataset name
-- that is the root or lies below it, and no member is repeated.
pub validate_members_iff :
    (root : Text) (members : List Text)
    → validate_members root members ≡ ok tt
      ↔ ((is_nil members ≡ false) × All (IsMember root) members × IsNodup members)
unfolding validate_members
validate_members_iff root members = (
  λ passed.
      let some_left = refuse-passed (is_nil members) _ passed in
      let sound = members_loop_sound root members [] some_left.1 in (some_left.0, sound.0, sound.1),
  λ good.
      ground
        (arith, good.0, members_loop_complete root members [] good.1 good.2 (Absent-nil members)),
)
