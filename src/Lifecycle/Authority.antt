-- ===== src/Lifecycle/Authority.antt =====
-- internal/lifecycle/authority.go against service.go: what a root's authority rests on, and that it
-- names the lineage that is stored.
use boomerangz.Base.{
  Some, ◌≡◌, refl, sym, ap, ◌∙◌, subst, inl, inr, Bool, true, false, not, ◌&&◌, ◌||◌, List, [], ◌∷◌,
  arith, Bool-cases, Text, text_dec, text_key, ℕ_key, ◌=?◌, is_nil, All,
}
use boomerangz.Base.Result.{ok, refuse-passed, >>=-eq-ok}
use boomerangz.Base.Dict.{Dict, insert, lookup-insert}
use boomerangz.Policy.{is_source_local}
use boomerangz.Ownership.{Property, valid_id, lineage_property}
use boomerangz.Lifecycle.{
  State, check_dataset, owner_property, text_at, is_marker, root_values, check_root, root_authority,
  hidden_lineage, current_state, lineage_loop, stored_lineage,
}

-- The row says what was read, locally.
abbrev pub Agrees : Text → Dict Text Text → Property → Type 0
Agrees root values p =
    p.dataset =? root ≡ true
    → is_marker p.name ≡ true
    → (is_source_local p.source ≡ true) × (p.value ≡ text_at p.name values)

owner_property-marker : is_marker owner_property ≡ true
unfolding is_marker text_dec
owner_property-marker = refl

lineage_property-marker : is_marker lineage_property ≡ true
unfolding is_marker text_dec
lineage_property-marker = refl

lineage-marker : (name : Text) → (name =? lineage_property) ≡ true → is_marker name ≡ true
unfolding is_marker
lineage-marker name same = elim (Bool-cases (name =? owner_property)) [
  | inl own ↦ rw own refl
  | inr apart ↦ rw (apart, same) refl
]

abbrev pub is_row_of : Text → Text → Property → Bool
is_row_of root name p = p.dataset =? root && p.name =? name

valid_id-nonempty : (value : Text) → valid_id value ≡ true → is_nil value ≡ false
unfolding valid_id
valid_id-nonempty [] valid = sym valid
valid_id-nonempty (c ∷ s) valid = refl

-- What the loop has read stays.
root_values-keeps :
    (root : Text) (ps : List Property) (before after : Dict Text Text) (name : Text)
    → root_values root ps before ≡ ok after
    → is_nil (text_at name before) ≡ false
    → text_at name after ≡ text_at name before
unfolding root_values
root_values-keeps root [] before after name read there = ground arith
root_values-keeps root (p ∷ ps) before after name read there = ground (
  arith,
  root_values-keeps root ps before after name,
  root_values-keeps root ps (insert p.name p.value before) after name,
  lookup-insert p.name name p.value before,
)

-- An accepted row is read into the values that the loop ends with.
accepted :
    (root : Text) (p : Property) (ps : List Property) (before after : Dict Text Text)
    → root_values root ps (insert p.name p.value before) ≡ ok after
    → valid_id p.value ≡ true
    → text_at p.name after ≡ p.value
accepted root p ps before after read valid = ground (
  arith,
  root_values-keeps root ps (insert p.name p.value before) after p.name,
  lookup-insert p.name p.name p.value before,
  valid_id-nonempty p.value valid,
)

root_values-Agrees :
    (root : Text) (ps : List Property) (before after : Dict Text Text)
    → root_values root ps before ≡ ok after
    → All (Agrees root after) ps
unfolding root_values
root_values-Agrees root [] before after read = tt
root_values-Agrees root (p ∷ ps) before after read =
    elim (Bool-cases (not (p.dataset =? root) || not (is_marker p.name))) [
      | inl skipped ↦ (
        λ own marker. absurd (ground arith),
        root_values-Agrees root ps before after (ground arith),
      )
      | inr row ↦
          let rest : root_values root ps (insert p.name p.value before) ≡ ok after = ground arith in
          (
            λ own marker. (ground arith, ground (arith, accepted root p ps before after rest)),
            root_values-Agrees root ps (insert p.name p.value before) after rest,
          )
    ]

-- A marker that was read stands in a row.
root_values-Some :
    (root : Text) (ps : List Property) (before after : Dict Text Text) (name : Text)
    → root_values root ps before ≡ ok after
    → is_nil (text_at name before) ≡ true
    → is_nil (text_at name after) ≡ false
    → Some (λ p. is_row_of root name p ≡ true) ps
unfolding root_values
root_values-Some root [] before after name read nothing something = absurd (ground arith)
root_values-Some root (p ∷ ps) before after name read nothing something =
    elim (Bool-cases (is_row_of root name p)) [
      | inl row ↦ inl row
      | inr apart ↦ elim (Bool-cases (not (p.dataset =? root) || not (is_marker p.name))) [
        | inl skipped ↦
            inr (root_values-Some root ps before after name (ground arith) nothing something)
        | inr marker ↦ inr (
            root_values-Some root ps (insert p.name p.value before) after name (ground arith)
              (ground (arith, lookup-insert p.name name p.value before)) something)
      ]
    ]

-- What a granted authority went through.
pub record Granted (state : State) (root installation lineage : Text) : Type 0 where
  pub values : Dict Text Text
  pub read : root_values root state.properties [] ≡ ok values
  pub owner : text_at owner_property values ≡ installation
  pub named : text_at lineage_property values ≡ lineage
  pub nonempty : is_nil lineage ≡ false
  pub owned : is_nil installation ≡ false
  pub unhidden :
      (not (is_nil (hidden_lineage state root)) && not (hidden_lineage state root =? lineage))
      ≡ false
  pub current : current_state state root ≡ ok tt

pub root_authority-Granted :
    (state : State) (root installation lineage : Text)
    → root_authority state root installation ≡ ok lineage
    → Granted state root installation lineage
unfolding root_authority check_root
root_authority-Granted state root installation lineage granted =
    let valid = refuse-passed (not (valid_id installation)) _ granted in
    let checked = >>=-eq-ok (check_dataset root) _ valid.1 in
    let read = >>=-eq-ok (root_values root state.properties []) _ checked.2 in
    let values = read.0 in
    let both =
      refuse-passed
        (is_nil (text_at owner_property values) || is_nil (text_at lineage_property values)) _
        read.2 in
    let own = refuse-passed (not (text_at owner_property values =? installation)) _ both.1 in
    let unhidden =
      refuse-passed
        (not (is_nil (hidden_lineage state root))
          && not (hidden_lineage state root =? text_at lineage_property values))
        _ own.1 in
    let current = >>=-eq-ok (current_state state root) _ unhidden.1 in
    record {
      values = values;
      read = read.1;
      owner = ground arith;
      named = ground (arith, current.2);
      nonempty = ground (arith, current.2);
      owned = ground (arith, valid_id-nonempty installation);
      unhidden = ground (arith, current.2);
      current = current.1;
    }

-- Where a root's authority is granted, each owner or lineage row stored on the root is set locally
-- and has the value that was granted: there is an owner row, which names this installation, and a
-- lineage row, which names the lineage.
pub root_authority-Local :
    (state : State) (root installation lineage : Text)
    → root_authority state root installation ≡ ok lineage
    → Some (λ p. is_row_of root owner_property p ≡ true) state.properties
      × Some (λ p. is_row_of root lineage_property p ≡ true) state.properties
      × All
          (λ p.
            is_row_of root owner_property p ≡ true
            → (is_source_local p.source ≡ true) × (p.value ≡ installation))
          state.properties
      × All
          (λ p.
            is_row_of root lineage_property p ≡ true
            → (is_source_local p.source ≡ true) × (p.value ≡ lineage))
          state.properties
root_authority-Local state root installation lineage granted =
    let g = root_authority-Granted state root installation lineage granted in
    let agree = root_values-Agrees root state.properties [] g.values g.read in
    (
      root_values-Some root state.properties [] g.values owner_property g.read refl
          (ground (arith, g.owner, g.owned)),
      root_values-Some root state.properties [] g.values lineage_property g.read refl
          (ground (arith, g.named, g.nonempty)),
      each state.properties owner_property installation g.values owner_property-marker g.owner
          agree,
      each state.properties lineage_property lineage g.values lineage_property-marker g.named agree,
    )
  where
    each :
        (ps : List Property) (name wanted : Text) (values : Dict Text Text)
        → is_marker name ≡ true
        → text_at name values ≡ wanted
        → All (Agrees root values) ps
        → All
            (λ p.
              is_row_of root name p ≡ true → (is_source_local p.source ≡ true) × (p.value ≡ wanted))
            ps
    each [] name wanted values marker says agree = tt
    each (p ∷ ps) name wanted values marker says agree = (
      λ row.
          let same : p.name ≡ name = ground arith in
          let here = agree.0 (ground arith) (subst (λ n. is_marker n ≡ true) (sym same) marker) in
          (here.0, here.1 ∙ ap (λ n. text_at n values) same ∙ says),
      each ps name wanted values marker says agree.1,
    )

lineage_loop-read :
    (root : Text) (ps : List Property) (before after : Dict Text Text)
    → root_values root ps before ≡ ok after
    → lineage_loop root ps (text_at lineage_property before) ≡ ok (text_at lineage_property after)
unfolding root_values lineage_loop
lineage_loop-read root [] before after read = ground arith
lineage_loop-read root (p ∷ ps) before after read = ground (
  arith,
  lineage-marker p.name,
  lineage_loop-read root ps before after,
  lineage_loop-read root ps (insert p.name p.value before) after,
  lookup-insert p.name lineage_property p.value before,
)

-- Where a root's authority is granted, the lineage that is stored on the root is unambiguous and is
-- the one that the authority names.
pub stored_lineage-root_authority :
    (state : State) (root installation lineage : Text)
    → root_authority state root installation ≡ ok lineage
    → stored_lineage state root ≡ ok lineage
unfolding stored_lineage
stored_lineage-root_authority state root installation lineage granted =
    let g = root_authority-Granted state root installation lineage granted in
    ground (arith, lineage_loop-read root state.properties [] g.values g.read, g.named, g.unhidden)
