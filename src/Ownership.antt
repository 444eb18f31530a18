-- ===== src/Ownership.antt =====
-- internal/lifecycle/ownership.go and Valid of internal/identity/identity.go: which snapshots are
-- proven to be boomerangz's own.
pub mod Proven
pub mod Adoption
pub mod Examples
use boomerangz.Base.{
  is_none, ℕ, zero, suc, ◌+◌, ◌-◌, ◌*◌, ◌/◌, ◌%◌, ◌^◌, ◌≤◌, ◌<◌, ◌≡◌, refl, sym, ap, ◌∙◌, subst,
  ◌≢◌, ◌↔◌, ◌⊎◌, inl, inr, Bool, true, false, not, ◌&&◌, ◌||◌, Option, none, some, List, [], ◌∷◌,
  ◌++◌, map, append_assoc, append-nil, arith, ltb, leb, ◌==◌, if◌then◌else◌, Bool-cases,
  Option-cases, Text, Key, text_dec, text_key, ℕ_key, ◌=?◌, codes, length, is_nil, length-append,
  keep, any, every, All, All-append, contains, remove, IsNodup, contains-append, contains-remove,
  IsNodup-remove, IsNodup-snoc,
}
use boomerangz.Base.Result.{Result, ok, err, ◌>>=◌, ◌>>◌, refuse, is_ok}
use boomerangz.Base.Dict.{Dict, lookup, insert, get_or, has}
use boomerangz.Strings.{has_prefix, trim_prefix, cut}
use boomerangz.Names.{NameError, validate_dataset}
use boomerangz.Stamp.{parse_stamp, format_stamp}

abbrev pub snapshot_prefix : Text
snapshot_prefix = codes "boomerangz-"

abbrev pub lineage_property : Text
lineage_property = codes "org.boomerangz:state:lineage"

abbrev pub snapshot_property : Text
snapshot_property = codes "org.boomerangz:state:snapshot"

abbrev pub is_between : ℕ → ℕ → ℕ → Bool
is_between lo hi c = leb lo c && leb c hi

abbrev pub is_hex : ℕ → Bool
is_hex c = is_between b'0' b'9' c || is_between b'a' b'f' c

abbrev pub times : ℕ → (ℕ → Bool) → List (ℕ → Bool) → List (ℕ → Bool)
times zero p ps = ps
times (suc n) p ps = p ∷ times n p ps

-- `^[0-9a-f]{8}-[0-9a-f]{4}-[1-8][0-9a-f]{3}-[89ab][0-9a-f]{3}-[0-9a-f]{12}$`.
abbrev pub uuid_pattern : List (ℕ → Bool)
uuid_pattern =
    let dash : ℕ → Bool = λ c. c == b'-' in
    times 8 is_hex (
      dash
      ∷ times 4 is_hex (
          dash
          ∷ is_between b'1' b'8'
          ∷ times 3 is_hex (
              dash
              ∷ (λ c. is_between b'8' b'9' c || is_between b'a' b'b' c)
              ∷ times 3 is_hex (dash ∷ times 12 is_hex []))))

abbrev pub matches : List (ℕ → Bool) → Text → Bool
matches [] [] = true
matches [] (c ∷ s) = false
matches (p ∷ ps) [] = false
matches (p ∷ ps) (c ∷ s) = p c && matches ps s

unfoldable pub valid_id : Text → Bool
valid_id value = matches uuid_pattern value

-- `zfs.PropertySource`, a string of which two values are supported.
pub data Source : Type 0 where
  local received : Source
  other_source : Text → Source

pub record Property : Type 0 where
  pub dataset : Text
  pub name : Text
  pub value : Text
  pub source : Source

pub record Metadata : Type 0 where
  pub lineage : Text
  pub snapshot : Text
  pub created : ℕ

pub record Snapshot : Type 0 where
  pub name : Text
  pub guid : ℕ
  pub properties : List Property
  pub holds : List Text
  pub clones : List Text
  pub resume_required : Bool

pub data OwnershipError : Type 0 where
  ids_required not_established not_stored ambiguous mismatched bad_time bad_name : OwnershipError

abbrev pub is_stored : Source → Bool
is_stored local = true
is_stored received = true
is_stored (other_source s) = false

abbrev pub take : ℕ → Text → Text
take zero s = []
take (suc n) [] = []
take (suc n) (c ∷ s) = c ∷ take n s

-- `Metadata.Name`.
unfoldable pub component_name : Metadata → Text
component_name m =
    if not (valid_id m.snapshot)
    then []
    else snapshot_prefix ++ format_stamp m.created ++ b'-' ∷ take 8 m.snapshot

-- The loop over the stored properties; it leaves all but two names aside.
unfoldable pub stored_values :
    Text → List Property → Dict Text Text → Result OwnershipError (Dict Text Text)
stored_values name [] values = ok values
stored_values name (p ∷ ps) values =
    let skipped = stored_values name ps values in
    let taken = stored_values name ps (insert p.name p.value values) in
    if not (p.name =? lineage_property) && not (p.name =? snapshot_property)
    then skipped
    else if not (p.dataset =? name) || not (is_stored p.source)
    then err OwnershipError.not_stored
    else if has p.name values
    then err OwnershipError.ambiguous
    else taken

-- The stamp of a component, up to the next dash.
abbrev pub stamp_of : Text → Text
stamp_of component =
    let rest = trim_prefix component snapshot_prefix in
    elim (cut b'-' rest) [ none ↦ rest | some (before, after) ↦ before ]

-- A time of zero is the zero time.
abbrev pub created_of : Option ℕ → ℕ
created_of none = 0
created_of (some t) = t

abbrev pub metadata_of : Text → Dict Text Text → Metadata
metadata_of component values = record {
  lineage = get_or lineage_property values [];
  snapshot = get_or snapshot_property values [];
  created = created_of (parse_stamp (stamp_of component));
}

-- The checks on the metadata that was read.
unfoldable pub check_metadata : Text → Text → Metadata → Result OwnershipError Metadata
check_metadata component lineage m = do
  refuse (not (m.lineage =? lineage) || not (valid_id m.snapshot)) OwnershipError.mismatched
  refuse (m.created == 0) OwnershipError.bad_time
  refuse (not (component =? component_name m)) OwnershipError.bad_name
  ok m

-- The checks on the two parts of a snapshot's name.
unfoldable pub check_name : Snapshot → Text → Text → Text → Result OwnershipError Metadata
check_name s lineage dataset component = do
  refuse (not (is_ok (validate_dataset dataset)) || not (has_prefix component snapshot_prefix))
      OwnershipError.not_established
  values ← stored_values s.name s.properties []
  check_metadata component lineage (metadata_of component values)

-- `Ownership`.
unfoldable pub ownership : Snapshot → Text → Result OwnershipError Metadata
ownership s lineage =
    let read : Result OwnershipError Metadata = elim (cut b'@' s.name) [
      | none ↦ err OwnershipError.not_established
      | some (dataset, component) ↦ check_name s lineage dataset component
    ] in
    refuse (not (valid_id lineage) || s.guid == 0) OwnershipError.ids_required >> read

pub data AdoptError : Type 0 where
  several_lineages no_lineage : AdoptError

-- The inner loop of `Adopt`, over the properties of one snapshot.
unfoldable pub adopt_from : Snapshot → List Property → Text → Result AdoptError Text
adopt_from s [] lineage = ok lineage
adopt_from s (p ∷ ps) lineage =
    let skipped = adopt_from s ps lineage in
    let taken = adopt_from s ps p.value in
    if not (p.name =? lineage_property) || not (is_ok (ownership s p.value))
    then skipped
    else if not (is_nil lineage) && not (lineage =? p.value)
    then err AdoptError.several_lineages
    else taken

unfoldable pub adopt_loop : List Snapshot → Text → Result AdoptError Text
unfolding adopt_from
adopt_loop [] lineage = ok lineage
adopt_loop (s ∷ snapshots) lineage =
    adopt_from s s.properties lineage >>= λ lineage. adopt_loop snapshots lineage

unfoldable pub adopt : List Snapshot → Result AdoptError Text
unfolding adopt_loop
adopt snapshots = adopt_loop snapshots [] >>= λ lineage.
    refuse (is_nil lineage) AdoptError.no_lineage >> ok lineage
