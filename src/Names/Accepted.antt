-- ===== src/Names/Accepted.antt =====
-- internal/zfs/name.go: what `validateDataset` accepts, said by components and by code points.
use boomerangz.Base.{
  ℕ, ◌<◌, ◌≡◌, refl, sym, ap, ◌∙◌, subst, ◌≢◌, ◌↔◌, ◌⊎◌, inl, inr, false, List, [], ◌∷◌, arith, leb,
  ◌==◌, Bool-cases, Text, text_key, ℕ_key, codes, is_nil, any, All,
}
use boomerangz.Base.Result.{ok}
use boomerangz.Strings.{is_space, is_control, slash, has_prefix, contains_any, split, join}
use boomerangz.Strings.Laws.{join-split, split-free, split-append, join-cons_head, split_view}
use boomerangz.Names.{is_bad_part, is_bad_rune, validate_dataset}
use boomerangz.Names.Validity.{IsDataset, validate_dataset_sound, validate_dataset_complete}

-- A code point that a name may hold: neither `@` nor `#`, above the controls and the space, outside
-- delete, the second block of controls and the hard space, and none of the wider spaces.
pub record IsPlain (c : ℕ) : Type 0 where
  pub no_snapshot : c ≢ b'@'
  pub no_bookmark : c ≢ b'#'
  pub visible : 32 < c
  pub outside_controls : (c < 127) ⊎ (160 < c)
  pub no_ogham : c ≢ 5760
  pub outside_quads : (c < 8192) ⊎ (8202 < c)
  pub no_line : c ≢ 8232
  pub no_paragraph : c ≢ 8233
  pub no_narrow : c ≢ 8239
  pub no_mathematical : c ≢ 8287
  pub no_ideographic : c ≢ 12288

-- A component: free of slashes, and neither empty nor the directory itself nor its parent.
pub record IsComponent (part : Text) : Type 0 where
  pub free : All (λ c. c ≢ slash) part
  pub nonempty : part ≢ []
  pub no_itself : part ≢ b'.' ∷ []
  pub no_parent : part ≢ b'.' ∷ b'.' ∷ []

-- A dataset name: components joined by slashes, of plain code points, with no dash in front.
pub record IsAccepted (name : Text) : Type 0 where
  pub first : Text
  pub others : List Text
  pub joined : name ≡ join slash (first ∷ others)
  pub components : All IsComponent (first ∷ others)
  pub plain : All IsPlain name
  pub no_dash : (rest : Text) → name ≢ b'-' ∷ rest

rune-IsPlain : (c : ℕ) → is_bad_rune c ≡ false → any (λ x. c == x) (codes "@#") ≡ false → IsPlain c
unfolding is_space is_control
rune-IsPlain c good free = record {
  no_snapshot = λ same. ground arith;
  no_bookmark = λ same. ground arith;
  visible = ground arith;
  outside_controls = elim (Bool-cases (leb c 126)) [
    | inl low ↦ inl (ground arith)
    | inr high ↦ inr (ground arith)
  ];
  no_ogham = λ same. ground arith;
  outside_quads = elim (Bool-cases (leb c 8191)) [
    | inl low ↦ inl (ground arith)
    | inr high ↦ inr (ground arith)
  ];
  no_line = λ same. ground arith;
  no_paragraph = λ same. ground arith;
  no_narrow = λ same. ground arith;
  no_mathematical = λ same. ground arith;
  no_ideographic = λ same. ground arith;
}

IsPlain-rune :
    (c : ℕ) → IsPlain c → (is_bad_rune c ≡ false) × (any (λ x. c == x) (codes "@#") ≡ false)
unfolding is_space is_control
IsPlain-rune c p = (
  ground (
    arith, p.no_snapshot, p.no_bookmark, p.visible, p.outside_controls, p.no_ogham, p.outside_quads,
    p.no_line, p.no_paragraph, p.no_narrow, p.no_mathematical, p.no_ideographic,
  ),
  ground (arith, p.no_snapshot, p.no_bookmark),
)

runes-IsPlain :
    (name : Text)
    → any is_bad_rune name ≡ false
    → contains_any name (codes "@#") ≡ false
    → All IsPlain name
runes-IsPlain [] good free = tt
runes-IsPlain (c ∷ name) good free =
    (rune-IsPlain c (ground arith) (ground arith), runes-IsPlain name (ground arith) (ground arith))

IsPlain-runes :
    (name : Text)
    → All IsPlain name
    → (any is_bad_rune name ≡ false) × (contains_any name (codes "@#") ≡ false)
IsPlain-runes [] all = (refl, refl)
IsPlain-runes (c ∷ name) all =
    let this = IsPlain-rune c all.0 in
    let rest = IsPlain-runes name all.1 in (ground (arith, this, rest), ground (arith, this, rest))

is_free : (w : Text) → any (λ c. c == slash) w ≡ false → All (λ c. c ≢ slash) w
is_free [] free = tt
is_free (c ∷ w) free = (λ same. ground arith, is_free w (ground arith))

free_is : (w : Text) → All (λ c. c ≢ slash) w → any (λ c. c == slash) w ≡ false
free_is [] free = refl
free_is (c ∷ w) free = ground (arith, free.0, free_is w free.1)

parts-IsComponent :
    (parts : List Text)
    → All (λ w. any (λ c. c == slash) w ≡ false) parts
    → any is_bad_part parts ≡ false
    → All IsComponent parts
parts-IsComponent [] free good = tt
parts-IsComponent (w ∷ parts) free good = (
  record {
    free = is_free w free.0;
    nonempty = λ same. ground arith;
    no_itself = λ same. ground arith;
    no_parent = λ same. ground arith;
  },
  parts-IsComponent parts free.1 (ground arith),
)

component_good : (w : Text) → IsComponent w → is_bad_part w ≡ false
component_good w good = ground (arith, good.nonempty, good.no_itself, good.no_parent)

IsComponent-parts : (parts : List Text) → All IsComponent parts → any is_bad_part parts ≡ false
IsComponent-parts [] all = refl
IsComponent-parts (w ∷ parts) all =
    ground (arith, component_good w all.0, IsComponent-parts parts all.1)

split-whole : (w : Text) → any (λ c. c == slash) w ≡ false → split slash w ≡ w ∷ []
split-whole [] free = refl
split-whole (c ∷ w) free = ground (arith, split-whole w (ground arith))

split-join :
    (w : Text) (ws : List Text)
    → All IsComponent (w ∷ ws)
    → split slash (join slash (w ∷ ws)) ≡ w ∷ ws
split-join w [] all = split-whole w (free_is w all.0.free)
split-join w (v ∷ ws) all =
    split-append slash w (join slash (v ∷ ws))
    ∙ rw (split-whole w (free_is w all.0.free), split-join v ws all.1) refl

no_slash_first :
    (w : Text) (ws : List Text)
    → IsComponent w
    → (is_nil (join slash (w ∷ ws)) ≡ false)
      × (has_prefix (join slash (w ∷ ws)) (codes "/") ≡ false)
no_slash_first [] ws good = absurd (good.nonempty refl)
no_slash_first (c ∷ w) ws good = (
  ap is_nil (join-cons_head slash c w ws),
  ap (λ s. has_prefix s (codes "/")) (join-cons_head slash c w ws) ∙ ground (arith, good.free.0),
)

no_dash_first :
    (name : Text) → ((rest : Text) → name ≢ b'-' ∷ rest) → has_prefix name (codes "-") ≡ false
no_dash_first [] none = refl
no_dash_first (c ∷ name) none = elim (Bool-cases (c == b'-')) [
  | inl dash ↦ absurd (none name (ap (λ d. d ∷ name) (ground arith)))
  | inr other ↦ ground arith
]

IsDataset-IsAccepted : (name : Text) → IsDataset name → IsAccepted name
IsDataset-IsAccepted name d =
    let (w, ws, e) = split_view slash name in
    record {
      first = w;
      others = ws;
      joined = sym (join-split slash name) ∙ ap (join slash) e;
      components =
          subst (All IsComponent) e
            (parts-IsComponent (split slash name) (split-free slash name) d.parts);
      plain = runes-IsPlain name d.runes d.no_object;
      no_dash = λ rest same. cc (ap (λ s. has_prefix s (codes "-")) same, d.no_dash);
    }

IsAccepted-IsDataset : (name : Text) → IsAccepted name → IsDataset name
IsAccepted-IsDataset name a =
    let runes = IsPlain-runes name a.plain in
    let front = no_slash_first a.first a.others a.components.0 in
    record {
      nonempty = ap is_nil a.joined ∙ front.0;
      no_slash = ap (λ s. has_prefix s (codes "/")) a.joined ∙ front.1;
      no_dash = no_dash_first name a.no_dash;
      no_object = runes.1;
      parts =
          ap (λ s. any is_bad_part (split slash s)) a.joined
          ∙ ap (any is_bad_part) (split-join a.first a.others a.components)
          ∙ IsComponent-parts (a.first ∷ a.others) a.components;
      runes = runes.0;
    }

-- validateDataset accepts exactly the names that are components joined by slashes, each neither
-- empty nor `.` nor `..`, of code points that are no controls, no white space and neither `@` nor
-- `#`, with no dash in front.
pub validate_dataset_exact : (name : Text) → (validate_dataset name ≡ ok tt) ↔ IsAccepted name
validate_dataset_exact name = (
  λ done. IsDataset-IsAccepted name (validate_dataset_sound name done),
  λ good. validate_dataset_complete name (IsAccepted-IsDataset name good),
)
