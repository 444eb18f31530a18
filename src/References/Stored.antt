-- ===== src/References/Stored.antt =====
-- internal/lifecycle/reference.go: a reference that is stored is read back.
use boomerangz.Base.{
  ℕ, zero, suc, ◌*◌, ◌<◌, ◌≡◌, refl, sym, ap, ◌∙◌, subst, ◌≢◌, inl, inr, Bool, true, false, ◌||◌,
  List, [], ◌∷◌, ◌++◌, append_assoc, arith, ◌==◌, if◌then◌else◌, Bool-cases, Text, text_key, ℕ_key,
  ◌=?◌, codes, length, is_nil, any, every, All,
}
use boomerangz.Base.Result.{ok}
use boomerangz.Strings.{trim_prefix, split, drop_as, slash}
use boomerangz.Strings.Laws.{has_prefix-append, split-append}
use boomerangz.Names.{validate_dataset, inside, is_bad_part}
use boomerangz.Names.Paths.{inside_cases}
use boomerangz.Names.Validity.{IsDataset, validate_dataset_sound, any-append}
use boomerangz.Ownership.{Property, Source, valid_id, uuid_pattern, matches}
use boomerangz.Lifecycle.{reference_prefix}
use boomerangz.References.{
  Reference, ReferenceRecord, Codec, hex, take, is_hex_letter, last_time, stream_of, stream_id,
  property_name, reference_of, decode_parts, decode_reference, encode_reference,
}

abbrev is_colon : ℕ → Bool
is_colon c = c == b':'

drop_as-append : (p s : Text) → drop_as (p ++ s) p ≡ s
drop_as-append [] s = refl
drop_as-append (c ∷ p) s = drop_as-append p s

pub trim_prefix-append : (p s : Text) → trim_prefix (p ++ s) p ≡ s
trim_prefix-append p s = ground (arith, has_prefix-append p s, drop_as-append p s)

split-whole : (sep : ℕ) (s : Text) → any (λ c. c == sep) s ≡ false → split sep s ≡ s ∷ []
split-whole sep [] free = refl
split-whole sep (c ∷ s) free = ground (arith, split-whole sep s (ground arith))

matches-free :
    (ps : List (ℕ → Bool)) (s : Text)
    → any (λ p. p b':') ps ≡ false
    → matches ps s ≡ true
    → any is_colon s ≡ false
matches-free [] [] none_takes match = refl
matches-free [] (c ∷ s) none_takes match = cc
matches-free (p ∷ ps) [] none_takes match = cc
matches-free (p ∷ ps) (c ∷ s) none_takes match = elim (Bool-cases (c == b':')) [
  | inl colon ↦
      let same : c ≡ b':' = ground arith in
      let taken : p c ≡ true = ground arith in
      let refused : p b':' ≡ false = ground arith in
      absurd (contradiction (sym taken ∙ ap p same ∙ refused))
  | inr other ↦ ground (arith, matches-free ps s (ground arith) (ground arith))
]
  where
    contradiction : true ≡ false → ⊥
    contradiction h = cc

valid_id-free : (value : Text) → valid_id value ≡ true → any is_colon value ≡ false
unfolding valid_id
valid_id-free value valid = matches-free uuid_pattern value refl valid

abbrev IsByte : ℕ → Type 0
IsByte c = c < 256

hex-good :
    (bytes : List ℕ)
    → All (λ c. c < 256) bytes
    → (length (hex bytes) ≡ 2 * length bytes)
      × (every is_hex_letter (hex bytes) ≡ true)
      × (any is_colon (hex bytes) ≡ false)
unfolding hex
hex-good [] small = (refl, refl, refl)
hex-good (c ∷ bytes) small =
    let rest = hex-good bytes small.1 in
    (ground (arith, rest.0), ground (arith, rest.1, small.0), ground (arith, rest.2, small.0))

take-small : (n : ℕ) (bytes : List ℕ) → All (λ c. c < 256) bytes → All (λ c. c < 256) (take n bytes)
take-small zero bytes small = tt
take-small (suc n) [] small = tt
take-small (suc n) (c ∷ bytes) small = (small.0, take-small n bytes small.1)

-- What SHA-256 gives: 32 bytes.
pub record IsSha256 (sha256 : Text → List ℕ) : Type 0 where
  pub bytes : (t : Text) → length (sha256 t) ≡ 32
  pub small : (t : Text) → All (λ c. c < 256) (sha256 t)

-- A reference as `ProtectSet` makes it: of a target, with a stream in the root and a snapshot's
-- metadata.
pub record IsStorable (sha256 : Text → List ℕ) (target root : Text) (r : Reference) : Type 0 where
  pub target_is : r.target_id ≡ hex (sha256 target)
  pub dataset_valid : validate_dataset r.dataset ≡ ok tt
  pub dataset_inside : inside r.dataset root ≡ true
  pub lineage_valid : valid_id r.metadata.lineage ≡ true
  pub snapshot_valid : valid_id r.metadata.snapshot ≡ true
  pub created_set : r.metadata.created ≢ 0
  pub created_small : r.metadata.created < last_time

abbrev relative : Text → Text → Text
relative dataset root = if dataset =? root then [] else trim_prefix dataset (root ++ codes "/")

tail-nonempty : (root t : Text) → IsDataset (root ++ slash ∷ t) → is_nil t ≡ false
tail-nonempty root [] valid = absurd (
    contradiction (
      sym valid.parts
      ∙ ap (any is_bad_part) (split-append slash root [])
      ∙ any-append is_bad_part (split slash root) ([] ∷ [])
      ∙ or_true (any is_bad_part (split slash root))))
  where
    or_true : (b : Bool) → (b || true) ≡ true
    or_true true = refl
    or_true false = refl

    contradiction : false ≡ true → ⊥
    contradiction h = cc
tail-nonempty root (c ∷ t) valid = refl

stream_of-relative :
    (dataset root : Text)
    → validate_dataset dataset ≡ ok tt
    → inside dataset root ≡ true
    → stream_of root (relative dataset root) ≡ dataset
stream_of-relative dataset root valid within = elim (inside_cases dataset root within) [
  | inl whole ↦ ground arith
  | inr (t, below) ↦
      let some_left =
        tail-nonempty root t (subst IsDataset below (validate_dataset_sound dataset valid)) in
      let trimmed : trim_prefix dataset (root ++ codes "/") ≡ t =
        ap (λ d. trim_prefix d (root ++ codes "/")) below
        ∙ ap (λ d. trim_prefix d (root ++ codes "/")) (sym (append_assoc root (codes "/") t))
        ∙ trim_prefix-append (root ++ codes "/") t in
      elim (Bool-cases (dataset =? root)) [
        | inl same ↦ ground arith
        | inr apart ↦ ground (arith, trimmed, some_left, below)
      ]
]

split-key :
    (a b c : Text)
    → any is_colon a ≡ false
    → any is_colon b ≡ false
    → any is_colon c ≡ false
    → split b':' (a ++ b':' ∷ (b ++ b':' ∷ c)) ≡ a ∷ b ∷ c ∷ []
split-key a b c free_a free_b free_c =
    split-append b':' a (b ++ b':' ∷ c)
    ∙ ground (
      arith,
      split-append b':' b c,
      split-whole b':' a free_a,
      split-whole b':' b free_b,
      split-whole b':' c free_c,
    )

module _ (sha256 : Text → List ℕ) (codec : Codec) where
  -- The property that `ProtectSet` stores.
  abbrev pub stored_property : Text → Reference → Property
  stored_property root r = record {
    dataset = root;
    name = property_name sha256 codec r;
    value = encode_reference sha256 codec r root;
    source = Source.local;
  }

  reference_of-stored :
      (root : Text) (r : Reference) (found : ReferenceRecord)
      → stream_of root found.stream ≡ r.dataset
      → found.created ≡ r.metadata.created
      → found.recursive ≡ r.recursive
      → validate_dataset r.dataset ≡ ok tt
      → r.metadata.created ≢ 0
      → r.metadata.created < last_time
      → reference_of sha256 codec
          (property_name sha256 codec r)
          root
          r.metadata.lineage
          r.target_id
          r.metadata.snapshot
          found
        ≡ ok r
  unfolding reference_of
  reference_of-stored root r found stream created recursive valid set small =
      let read : Reference = record {
        target_id = r.target_id;
        dataset = stream_of root found.stream;
        metadata = record {
          lineage = r.metadata.lineage;
          snapshot = r.metadata.snapshot;
          created = found.created;
        };
        recursive = found.recursive;
      } in
      let same : read ≡ r = ground arith in
      ground (
        arith,
        same,
        ap (λ q. property_name sha256 codec q) same,
        ap (λ d. validate_dataset d) stream,
      )

  decode_parts-stored :
      (target root : Text) (r : Reference)
      → IsSha256 sha256
      → IsStorable sha256 target root r
      → decode_parts sha256 codec
          (stored_property root r)
          root
          r.metadata.lineage
          (r.target_id ∷ stream_id sha256 codec r.dataset ∷ r.metadata.snapshot ∷ [])
        ≡ ok r
  unfolding decode_parts encode_reference
  decode_parts-stored target root r hash good =
      let record' : ReferenceRecord = record {
        stream = relative r.dataset root;
        created = r.metadata.created;
        recursive = r.recursive;
      } in
      let digits = hex-good (sha256 target) (hash.small target) in
      let letters : every is_hex_letter r.target_id ≡ true =
        ap (every is_hex_letter) good.target_is ∙ digits.1 in
      let long : length r.target_id ≡ 64 =
        ap (λ t. length t) good.target_is ∙ digits.0 ∙ ap (λ n. 2 * n) (hash.bytes target) in
      let stream = stream_of-relative r.dataset root good.dataset_valid good.dataset_inside in
      ground (
        arith,
        letters,
        long,
        codec.decode-encode record',
        reference_of-stored root r record' stream refl refl,
      )

  -- A reference of a target, whose stream is a valid dataset in the root and whose metadata has
  -- valid identities and a time of the years 1 to 9999, is read back from the property that stores
  -- it, for any hash of 32 bytes and any codec that decodes what it encodes.
  pub decode-encode_reference :
      (target root : Text) (r : Reference)
      → IsSha256 sha256
      → IsStorable sha256 target root r
      → decode_reference sha256 codec (stored_property root r) root r.metadata.lineage ≡ ok r
  unfolding decode_reference property_name
  decode-encode_reference target root r hash good =
      let target_free : any is_colon r.target_id ≡ false =
        ap (any is_colon) good.target_is ∙ (hex-good (sha256 target) (hash.small target)).2 in
      let stream_free : any is_colon (stream_id sha256 codec r.dataset) ≡ false =
        unfold stream_id in
        (hex-good (take 16 (sha256 r.dataset))
          (take-small 16 (sha256 r.dataset) (hash.small r.dataset))).2 in
      let parts =
        ap (split b':') (
          trim_prefix-append reference_prefix (
            r.target_id ++ b':' ∷ (stream_id sha256 codec r.dataset ++ b':' ∷ r.metadata.snapshot)))
        ∙ split-key r.target_id (stream_id sha256 codec r.dataset) r.metadata.snapshot target_free
            stream_free (valid_id-free r.metadata.snapshot good.snapshot_valid) in
      ap (decode_parts sha256 codec (stored_property root r) root r.metadata.lineage) parts
      ∙ decode_parts-stored target root r hash good
