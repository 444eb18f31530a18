-- ===== src/References/Read.antt =====
-- internal/lifecycle/reference.go: what `proofScope` reads, and what `proofUnchanged` finds unchanged.
use boomerangz.Base.{
  ℕ, ◌≡◌, refl, sym, ap, ◌∙◌, subst, Bool, true, false, not, Option, none, some, List, [], ◌∷◌,
  arith, ◌==◌, if◌then◌else◌, Text, text_key, ℕ_key, ◌=?◌, is_nil, every, All, contains,
}
use boomerangz.Base.Result.{ok, refuse, ok_injective}
use boomerangz.Base.Dict.{Dict, lookup}
use boomerangz.Base.Sorting.{text_leb, sort_by}
use boomerangz.Ownership.{Property, Source, local, received, other_source}
use boomerangz.Lifecycle.{State, Object, ObjectType, filesystem, volume, snapshot, bookmark}
use boomerangz.Lifecycle.Merge.{merge_states, same_object, same_property, same_source, kind_number}
use boomerangz.Lifecycle.Backend.{Backend, Act, lift, ◌>>=◌}
use boomerangz.Lifecycle.Backend.Runs.{>>=-ran, read_as-pair}
use boomerangz.References.{ReferenceError, backend_failed, state_changed, Codec}
use boomerangz.References.Service.{same_state, same_list, same_dict, same_at, wanted_datasets}
use boomerangz.References.Operations.{
  inspect, list_datasets, read_members, proof_scope, proof_unchanged,
}

-- The same objects and properties in the same order, and maps with the same entries.
abbrev pub IsPart : {V : Type 0} → Dict Text V → Dict Text V → Type 0
IsPart m n = All (λ (e : Text × _). lookup e.0 n ≡ some e.1) m

pub record AreSame (a b : State) : Type 0 where
  pub objects : a.objects ≡ b.objects
  pub properties : a.properties ≡ b.properties
  pub tokens : IsPart a.resume_tokens b.resume_tokens
  pub clones : IsPart a.clones b.clones
  pub holds : IsPart a.holds b.holds
  pub received :
      All
        (λ (e : Text × Dict Text Text).
          (values : Dict Text Text) × (lookup e.0 b.received ≡ some values) × IsPart e.1 values)
        a.received

same_list-eq :
    {A : Type 0} (same : A → A → Bool)
    → ((x y : A) → same x y ≡ true → x ≡ y)
    → (xs ys : List A) → same_list same xs ys ≡ true
    → xs ≡ ys
same_list-eq same eq [] [] h = refl
same_list-eq same eq [] (y ∷ ys) h = cc
same_list-eq same eq (x ∷ xs) [] h = cc
same_list-eq same eq (x ∷ xs) (y ∷ ys) h =
    let head = eq x y (ground (arith, h)) in
    let tail = same_list-eq same eq xs ys (ground (arith, h)) in ground (arith, head, tail)

same_text-eq : (x y : Text) → (x =? y) ≡ true → x ≡ y
same_text-eq x y h = ground arith

same_at-lookup :
    {V : Type 0} (same : V → V → Bool) (Fits : V → V → Type 0)
    → ((x y : V) → same x y ≡ true → Fits x y)
    → (v : V) (o : Option V) → same_at same v o ≡ true
    → (u : V) × (o ≡ some u) × Fits v u
same_at-lookup same Fits fits v none h = cc
same_at-lookup same Fits fits v (some u) h = (u, refl, fits v u h)

every-fits :
    {V : Type 0} (same : V → V → Bool) (Fits : V → V → Type 0)
    → ((x y : V) → same x y ≡ true → Fits x y)
    → (m n : Dict Text V) → every (λ (e : Text × V). same_at same e.1 (lookup e.0 n)) m ≡ true
    → All (λ (e : Text × V). (u : V) × (lookup e.0 n ≡ some u) × Fits e.1 u) m
every-fits same Fits fits [] n h = tt
every-fits same Fits fits ((k, v) ∷ m) n h = (
  same_at-lookup same Fits fits v (lookup k n) (ground (arith, h)),
  every-fits same Fits fits m n (ground (arith, h)),
)

exact :
    {V : Type 0} (m n : Dict Text V)
    → All (λ (e : Text × V). (u : V) × (lookup e.0 n ≡ some u) × (e.1 ≡ u)) m
    → IsPart m n
exact [] n h = tt
exact ((k, v) ∷ m) n ((u, found, same), rest) = (found ∙ ap some (sym same), exact m n rest)

same_dict-IsPart :
    {V : Type 0} (same : V → V → Bool)
    → ((x y : V) → same x y ≡ true → x ≡ y)
    → (m n : Dict Text V) → same_dict same m n ≡ true
    → IsPart m n
same_dict-IsPart same eq m n h =
    exact m n (every-fits same (λ x y. x ≡ y) eq m n (ground (arith, h)))

kind_number-eq : (a b : ObjectType) → (kind_number a == kind_number b) ≡ true → a ≡ b
kind_number-eq filesystem filesystem h = refl
kind_number-eq filesystem volume h = cc
kind_number-eq filesystem snapshot h = cc
kind_number-eq filesystem bookmark h = cc
kind_number-eq volume filesystem h = cc
kind_number-eq volume volume h = refl
kind_number-eq volume snapshot h = cc
kind_number-eq volume bookmark h = cc
kind_number-eq snapshot filesystem h = cc
kind_number-eq snapshot volume h = cc
kind_number-eq snapshot snapshot h = refl
kind_number-eq snapshot bookmark h = cc
kind_number-eq bookmark filesystem h = cc
kind_number-eq bookmark volume h = cc
kind_number-eq bookmark snapshot h = cc
kind_number-eq bookmark bookmark h = refl

same_object-eq : (a b : Object) → same_object a b ≡ true → a ≡ b
same_object-eq a b h =
    let kind = kind_number-eq a.kind b.kind (ground (arith, h)) in ground (arith, h, kind)

same_source-eq : (a b : Source) → same_source a b ≡ true → a ≡ b
same_source-eq local local h = refl
same_source-eq local received h = cc
same_source-eq local (other_source t) h = cc
same_source-eq received local h = cc
same_source-eq received received h = refl
same_source-eq received (other_source t) h = cc
same_source-eq (other_source s) local h = cc
same_source-eq (other_source s) received h = cc
same_source-eq (other_source s) (other_source t) h = ap other_source (same_text-eq s t h)

same_property-eq : (a b : Property) → same_property a b ≡ true → a ≡ b
same_property-eq a b h =
    let source = same_source-eq a.source b.source (ground (arith, h)) in ground (arith, h, source)

-- What `reflect.DeepEqual` says of two states.
same_state-AreSame : (a b : State) → same_state a b ≡ true → AreSame a b
unfolding same_state
same_state-AreSame a b h = record {
  objects = same_list-eq same_object same_object-eq a.objects b.objects (ground (arith, h));
  properties =
      same_list-eq same_property same_property-eq a.properties b.properties (ground (arith, h));
  tokens =
      same_dict-IsPart (λ x y. x =? y) same_text-eq a.resume_tokens b.resume_tokens
        (ground (arith, h));
  clones =
      same_dict-IsPart (same_list (λ x y. x =? y)) (same_list-eq (λ x y. x =? y) same_text-eq)
        a.clones b.clones (ground (arith, h));
  holds =
      same_dict-IsPart (same_list (λ x y. x =? y)) (same_list-eq (λ x y. x =? y) same_text-eq)
        a.holds b.holds (ground (arith, h));
  received =
      every-fits (same_dict (λ x y. x =? y)) IsPart (same_dict-IsPart (λ x y. x =? y) same_text-eq)
        a.received b.received (ground (arith, h));
}

-- A state that is read of a root and of other datasets in between two worlds: that of the root, with
-- those of the others merged into it one by one.
pub data ReadsTo {W : Type 0} (b : Backend W) (root : Text) : W → State → W → Type 0 where
  read_root :
      (deep : Bool) (w v : W) (s : State) → b.inspect root deep w ≡ (v, ok s) → ReadsTo b root w s v
  read_names :
      (names : List Text) (w v u : W) (s : State)
      → ReadsTo b root w s v
      → b.list_datasets v ≡ (u, ok names)
      → ReadsTo b root w s u
  read_more :
      (d : Text) (deep : Bool) (w v u : W) (s more : State)
      → ReadsTo b root w s v
      → b.inspect d deep v ≡ (u, ok more)
      → ReadsTo b root w (merge_states (s ∷ more ∷ [])) u

module _ {W : Type 0} (b : Backend W) (sha256 : Text → List ℕ) (codec : Codec)
    (installation : Text) where
  inspect-pair :
      (d : Text) (deep : Bool) (v : W) (s : State)
      → (inspect b sha256 codec installation d deep v).result ≡ ok s
      → b.inspect d deep v ≡ ((inspect b sha256 codec installation d deep v).world, ok s)
  unfolding inspect
  inspect-pair d deep v s = read_as-pair backend_failed (b.inspect d deep v) s

  list_datasets-pair :
      (v : W) (names : List Text)
      → (list_datasets b sha256 codec installation v).result ≡ ok names
      → b.list_datasets v ≡ ((list_datasets b sha256 codec installation v).world, ok names)
  unfolding list_datasets
  list_datasets-pair v names = read_as-pair backend_failed (b.list_datasets v) names

  read_members-ReadsTo :
      (root subtree : Text) (inventory wanted : List Text) (s last : State) (w v : W)
      → ReadsTo b root w s v
      → (read_members b sha256 codec installation subtree inventory wanted s v).result ≡ ok last
      → ReadsTo b root w last
          (read_members b sha256 codec installation subtree inventory wanted s v).world
  unfolding read_members
  read_members-ReadsTo root subtree inventory [] s last w v known =
      λ done. subst (λ t. ReadsTo b root w t v) (ok_injective s last done) known
  read_members-ReadsTo root subtree inventory (d ∷ wanted) s last w v known =
      by_test (not (contains inventory d)) (read_members-ReadsTo root subtree inventory wanted)
    where
      Rest : State → Act W ReferenceError State
      Rest = read_members b sha256 codec installation subtree inventory wanted

      member : Act W ReferenceError State
      member = inspect b sha256 codec installation d (d =? subtree)

      taken : Act W ReferenceError State
      taken = member >>= λ more. Rest (merge_states (s ∷ more ∷ []))

      by_test :
          (absent : Bool)
          → ((t last : State) (w v : W)
              → ReadsTo b root w t v
              → (Rest t v).result ≡ ok last
              → ReadsTo b root w last (Rest t v).world)
          → ((if absent then Rest s else taken) v).result ≡ ok last
          → ReadsTo b root w last ((if absent then Rest s else taken) v).world
      by_test true rest done = rest s last w v known done
      by_test false rest done =
          let (more, read, later, world) =
            >>=-ran member (λ more. Rest (merge_states (s ∷ more ∷ []))) v last done in
          subst (ReadsTo b root w last) (sym world) (
            rest (merge_states (s ∷ more ∷ [])) last w (member v).world
              (read_more d (d =? subtree) w v (member v).world s more known
                (inspect-pair d (d =? subtree) v more read))
              later)

  pub proof_scope-ReadsTo :
      (root : Text) (datasets : List Text) (subtree : Text) (s : State) (w : W)
      → (proof_scope b sha256 codec installation root datasets subtree w).result ≡ ok s
      → ReadsTo b root w s (proof_scope b sha256 codec installation root datasets subtree w).world
  unfolding proof_scope
  proof_scope-ReadsTo root datasets subtree s w done =
      let (first, read, later, world) =
        >>=-ran (inspect b sha256 codec installation root (root =? subtree)) _ w s done in
      let v = (inspect b sha256 codec installation root (root =? subtree) w).world in
      let known =
        read_root (root =? subtree) w v first (inspect-pair root (root =? subtree) w first read) in
      subst (ReadsTo b root w s) (sym world) (
        by_wanted (is_nil (wanted_datasets root subtree datasets))
          (wanted_datasets root subtree datasets) first v known later)
    where
      more : List Text → State → Act W ReferenceError State
      more wanted first = list_datasets b sha256 codec installation >>= λ inventory.
          read_members b sha256 codec installation subtree inventory (sort_by text_leb wanted) first

      by_wanted :
          (nothing : Bool) (wanted : List Text) (first : State) (v : W)
          → ReadsTo b root w first v
          → ((if nothing then lift (ok first) else more wanted first) v).result ≡ ok s
          → ReadsTo b root w s ((if nothing then lift (ok first) else more wanted first) v).world
      by_wanted true wanted first v known done =
          subst (λ t. ReadsTo b root w t v) (ok_injective first s done) known
      by_wanted false wanted first v known done =
          let (names, listed, later, world) =
            >>=-ran (list_datasets b sha256 codec installation)
              (λ inventory.
                read_members b sha256 codec installation subtree inventory (sort_by text_leb wanted)
                  first)
              v s done in
          let u = (list_datasets b sha256 codec installation v).world in
          subst (ReadsTo b root w s) (sym world) (
            read_members-ReadsTo root subtree names (sort_by text_leb wanted) first s w u
              (read_names names w v u first known (list_datasets-pair v names listed)) later)

  -- A state that is found unchanged was read again from the world on, and is the same.
  abbrev pub Rechecked : Text → W → State → W → Type 0
  Rechecked root v state u = (current : State) × ReadsTo b root v current u × AreSame state current

  pub proof_unchanged-Rechecked :
      (root : Text) (datasets : List Text) (subtree : Text) (state : State) (v : W)
      → (proof_unchanged b sha256 codec installation root datasets subtree state v).result ≡ ok tt
      → Rechecked root v state
          (proof_unchanged b sha256 codec installation root datasets subtree state v).world
  unfolding proof_unchanged
  proof_unchanged-Rechecked root datasets subtree state v done =
      let scope = proof_scope b sha256 codec installation root datasets subtree in
      let (current, read, passed, world) =
        >>=-ran scope (λ current. lift (refuse (not (same_state state current)) state_changed)) v tt
          done in
      subst (Rechecked root v state) (sym world) (
        current,
        proof_scope-ReadsTo root datasets subtree current v read,
        same_state-AreSame state current (agreed (same_state state current) passed),
      )
    where
      agreed : (same : Bool) → refuse (not same) state_changed ≡ ok tt → same ≡ true
      agreed true passed = refl
      agreed false passed = cc
