-- ===== src/Ownership/Proven.antt =====
-- What a proof of ownership establishes.
use boomerangz.Base.{
  ◌<◌, ◌≡◌, ◌≢◌, ◌⊎◌, refl, sym, Bool-cases, false, List, All, Some, some, none, ap, ◌∙◌, subst,
  inl, inr, true, not, ◌&&◌, ◌||◌, [], ◌∷◌, ◌++◌, arith, ◌==◌, Option-cases, Text, text_dec,
  text_key, ℕ_key, ◌=?◌,
}
use boomerangz.Base.Result.{ok, is_ok, >>=-eq-ok, refuse-passed}
use boomerangz.Base.Dict.{Dict, lookup, insert, lookup-insert, get_or, has, contains-keys_iff}
use boomerangz.Strings.{has_prefix, cut}
use boomerangz.Strings.Laws.{cut-some}
use boomerangz.Names.{validate_dataset}
use boomerangz.Ownership.{
  Snapshot, Metadata, ownership, check_metadata, check_name, stored_values, component_name,
  valid_id, snapshot_prefix, metadata_of, Property, is_stored, lineage_property, snapshot_property,
}

-- A property that is stored on the snapshot itself, with a value.
abbrev pub IsStored : Text → Text → Text → Property → Type 0
IsStored snapshot name value p =
    (p.name ≡ name) × (p.value ≡ value) × (p.dataset ≡ snapshot) × (is_stored p.source ≡ true)

-- One of the properties of a name is stored on the snapshot with the value, and so are all others.
pub record IsSolely (snapshot name value : Text) (ps : List Property) : Type 0 where
  pub here : Some (IsStored snapshot name value) ps
  pub only : All (λ (p : Property). p.name ≡ name → IsStored snapshot name value p) ps

abbrev IsMark : Text → Type 0
IsMark name = (name ≡ lineage_property) ⊎ (name ≡ snapshot_property)

-- What the loop over the properties leaves under a name that it reads: what was there before, and
-- then no property has the name; or the value of the one that has it.
abbrev Stored : Text → Text → List Property → Dict Text Text → Dict Text Text → Type 0
Stored snapshot name ps values last =
    ((v : Text)
      → lookup name values ≡ some v
      → (lookup name last ≡ some v) × All (λ (p : Property). p.name ≢ name) ps)
    × ((v : Text)
        → lookup name values ≡ none
        → lookup name last ≡ some v
        → IsSolely snapshot name v ps)

=?-eq : (s t : Text) → (s =? t) ≡ true → s ≡ t
=?-eq s t h = ground arith

is_mark :
    (name : Text)
    → IsMark name
    → (not (name =? lineage_property) && not (name =? snapshot_property)) ≡ false
unfolding text_dec
is_mark name (inl is_it) =
    subst (λ n. (not (n =? lineage_property) && not (n =? snapshot_property)) ≡ false) (sym is_it)
      refl
is_mark name (inr is_it) =
    subst (λ n. (not (n =? lineage_property) && not (n =? snapshot_property)) ≡ false) (sym is_it)
      refl

-- A property that the loop reads is stored on the snapshot, and the first of its name.
taken_step :
    (snapshot : Text) (p : Property) (ps : List Property) (values last : Dict Text Text)
    → (not (p.name =? lineage_property) && not (p.name =? snapshot_property)) ≡ false
    → stored_values snapshot (p ∷ ps) values ≡ ok last
    → (p.dataset ≡ snapshot)
      × (is_stored p.source ≡ true)
      × (has p.name values ≡ false)
      × (stored_values snapshot ps (insert p.name p.value values) ≡ ok last)
unfolding stored_values
taken_step snapshot p ps values last mark done =
    (ground (arith, mark), ground (arith, mark), ground (arith, mark), ground (arith, mark))

-- A property of another name changes nothing under the name.
passed_step :
    (snapshot name : Text) (p : Property) (ps : List Property) (values last : Dict Text Text)
    → (p.name =? name) ≡ false
    → stored_values snapshot (p ∷ ps) values ≡ ok last
    → (after : Dict Text Text) × (lookup name after ≡ lookup name values)
      × (stored_values snapshot ps after ≡ ok last)
unfolding stored_values
passed_step snapshot name p ps values last other done =
    elim (Bool-cases (not (p.name =? lineage_property) && not (p.name =? snapshot_property))) [
      | inl skipped ↦ (values, refl, ground (arith, skipped))
      | inr mark ↦
          let (placed, stored, fresh, rest) = taken_step snapshot p ps values last mark done in
          (
            insert p.name p.value values,
            ground (arith, other, lookup-insert p.name name p.value values),
            rest,
          )
    ]

stored_values-Stored :
    (snapshot name : Text)
    → IsMark name
    → (ps : List Property) (values last : Dict Text Text)
    → stored_values snapshot ps values ≡ ok last
    → Stored snapshot name ps values last
unfolding stored_values
stored_values-Stored snapshot name mark [] values last done = (
  λ v there. (ground (arith, there, done), tt),
  λ v missing found. absurd (ground (arith, missing, found, done)),
)
stored_values-Stored snapshot name mark (p ∷ ps) values last done =
    elim (Bool-cases (p.name =? name)) [
      | inl same ↦
          let (placed, stored, fresh, rest) =
            taken_step snapshot p ps values last
              (is_mark p.name (subst IsMark (sym (=?-eq p.name name same)) mark)) done in
          let later =
            (stored_values-Stored snapshot name mark ps (insert p.name p.value values) last rest).0
              p.value (ground (arith, same, lookup-insert p.name name p.value values)) in
          (
            λ v there. absurd (ground (arith, same, fresh, there, contains-keys_iff p.name values)),
            λ v missing found.
                let here : IsStored snapshot name v p =
                  (ground (arith, same), ground (arith, later.0, found), placed, stored) in
                record { here = inl here; only = (λ named. here, none_named ps name v later.1) },
          )
      | inr other ↦
          let after = passed_step snapshot name p ps values last other done in
          let later = stored_values-Stored snapshot name mark ps after.0 last after.2 in
          (
            λ v there.
                let kept = later.0 v (after.1 ∙ there) in
                (kept.0, (λ named. ground (arith, named, other), kept.1)),
            λ v missing found.
                let kept = later.1 v (after.1 ∙ missing) found in
                record {
                  here = inr kept.here;
                  only = (λ named. absurd (ground (arith, named, other)), kept.only);
                },
          )
    ]
  where
    none_named :
        (ps : List Property) (name v : Text)
        → All (λ (p : Property). p.name ≢ name) ps
        → All (λ (p : Property). p.name ≡ name → IsStored snapshot name v p) ps
    none_named [] name v others = tt
    none_named (q ∷ ps) name v others =
        (λ named. absurd (others.0 named), none_named ps name v others.1)

-- The complete contract of name, metadata and lineage.
pub record IsProven (s : Snapshot) (lineage : Text) (m : Metadata) : Type 0 where
  pub dataset : Text
  pub named : s.name ≡ dataset ++ b'@' ∷ component_name m
  pub valid_dataset : is_ok (validate_dataset dataset) ≡ true
  pub valid_lineage : valid_id lineage ≡ true
  pub valid_snapshot : valid_id m.snapshot ≡ true
  pub same_lineage : m.lineage ≡ lineage
  -- The marks of the snapshot: each stored on it with the value, and none with another.
  pub lineage_mark : IsSolely s.name lineage_property lineage s.properties
  pub snapshot_mark : IsSolely s.name snapshot_property m.snapshot s.properties
  pub nonzero_guid : 0 < s.guid
  pub nonzero_time : 0 < m.created

id_full : (id : Text) → valid_id id ≡ true → id ≢ []
unfolding valid_id
id_full [] valid empty = cc
id_full (c ∷ id) valid empty = cc

-- A mark that is read off the properties.
found_mark :
    (s : Snapshot) (name : Text)
    → IsMark name
    → (v : Text) (values : Dict Text Text) → stored_values s.name s.properties [] ≡ ok values
    → get_or name values [] ≡ v
    → v ≢ []
    → IsSolely s.name name v s.properties
found_mark s name mark v values stored read full = elim (Option-cases (lookup name values)) [
  | inl missing ↦ absurd (full (ground (arith, read, missing)))
  | inr (u, found) ↦
      (stored_values-Stored s.name name mark s.properties [] values stored).1 v refl
        (ground (arith, read, found))
]

record IsChecked (component lineage : Text) (read m : Metadata) : Type 0 where
  read_lineage : read.lineage ≡ m.lineage
  read_snapshot : read.snapshot ≡ m.snapshot
  named : component ≡ component_name m
  valid_snapshot : valid_id m.snapshot ≡ true
  same_lineage : m.lineage ≡ lineage
  nonzero_time : 0 < m.created

check_metadata-IsChecked :
    (component lineage : Text) (v : Metadata) {m : Metadata}
    → check_metadata component lineage v ≡ ok m
    → IsChecked component lineage v m
unfolding check_metadata
check_metadata-IsChecked component lineage v {m} h =
    let (ids, h₁) = refuse-passed (not (v.lineage =? lineage) || not (valid_id v.snapshot)) _ h in
    let (time, h₂) = refuse-passed (v.created == 0) _ h₁ in
    let (name, h₃) = refuse-passed (not (component =? component_name v)) _ h₂ in
    let same : v ≡ m = ground arith in
    subst (IsChecked component lineage v) same (record {
      read_lineage = refl;
      read_snapshot = refl;
      named = ground arith;
      valid_snapshot = ground arith;
      same_lineage = ground arith;
      nonzero_time = ground arith;
    })

-- A proven snapshot is named by a valid dataset and by its own metadata, has a GUID, and its
-- properties mark it, in its name, with the lineage that was asked for and with the snapshot of its
-- metadata, and with no other value.
pub ownership-IsProven :
    (s : Snapshot) (lineage : Text) {m : Metadata}
    → ownership s lineage ≡ ok m
    → IsProven s lineage m
unfolding ownership check_name
ownership-IsProven s lineage {m} h =
    let (ids, h₁) = refuse-passed (not (valid_id lineage) || s.guid == 0) _ h in
    elim (Option-cases (cut b'@' s.name)) [
      | inl missing ↦ absurd (ground arith)
      | inr ((dataset, component), found) ↦
          let (named, _) = cut-some b'@' s.name found in
          let chained : check_name s lineage dataset component ≡ ok m = ground (arith, found, h₁) in
          let (valid, h₂) =
            refuse-passed
              (not (is_ok (validate_dataset dataset)) || not (has_prefix component snapshot_prefix))
              _ chained in
          let (values, stored, h₃) = >>=-eq-ok (stored_values s.name s.properties []) _ h₂ in
          let v = check_metadata-IsChecked component lineage (metadata_of component values) h₃ in
          record {
            dataset = dataset;
            named = named ∙ ap (λ c. dataset ++ b'@' ∷ c) v.named;
            valid_dataset = ground arith;
            valid_lineage = ground arith;
            valid_snapshot = v.valid_snapshot;
            same_lineage = v.same_lineage;
            lineage_mark =
                found_mark s lineage_property (inl refl) lineage (values) stored
                  (ground (arith, v.read_lineage, v.same_lineage)) (id_full lineage (ground arith));
            snapshot_mark =
                found_mark s snapshot_property (inr refl) m.snapshot values stored
                  (ground (arith, v.read_snapshot)) (id_full m.snapshot v.valid_snapshot);
            nonzero_guid = ground arith;
            nonzero_time = v.nonzero_time;
          }
    ]
