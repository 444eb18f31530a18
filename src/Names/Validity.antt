-- ===== src/Names/Validity.antt =====
-- What `validate_dataset` accepts, and what a name built from accepted names is.
use boomerangz.Base.{
  ℕ, ◌≡◌, refl, sym, ap, ◌∙◌, subst, ◌↔◌, ◌⊎◌, inl, inr, Bool, false, not, ◌||◌, List, [], ◌∷◌,
  ◌++◌, arith, ◌==◌, Text, text_key, ℕ_key, codes, is_nil, any,
}
use boomerangz.Base.Result.{ok, is_ok}
use boomerangz.Strings.{is_space, is_control, slash, has_prefix, contains_any, split}
use boomerangz.Strings.Laws.{split-append}
use boomerangz.Names.{
  invalid_dataset, NameError, is_bad_part, is_bad_rune, check_parts, check_runes, validate_dataset,
}

-- What is required of a dataset name, read off by components and by characters.
pub record IsDataset (name : Text) : Type 0 where
  pub nonempty : is_nil name ≡ false
  pub no_slash : has_prefix name (codes "/") ≡ false
  pub no_dash : has_prefix name (codes "-") ≡ false
  pub no_object : contains_any name (codes "@#") ≡ false
  pub parts : any is_bad_part (split slash name) ≡ false
  pub runes : any is_bad_rune name ≡ false

check_parts_ok :
    (name : Text) (parts : List Text) → is_ok (check_parts name parts) ≡ not (any is_bad_part parts)
unfolding check_parts
check_parts_ok name [] = refl
check_parts_ok name (p ∷ ps) = ground (arith, check_parts_ok name ps)

check_runes_ok :
    (e : NameError) (name : Text) → is_ok (check_runes e name) ≡ not (any is_bad_rune name)
unfolding check_runes
check_runes_ok e [] = refl
check_runes_ok e (r ∷ rs) = ground (arith, check_runes_ok e rs)

pub validate_dataset_sound : (name : Text) → validate_dataset name ≡ ok tt → IsDataset name
unfolding validate_dataset
validate_dataset_sound name h =
    ground
      (arith, check_parts_ok name (split slash name), check_runes_ok (invalid_dataset name) name)

pub validate_dataset_complete : (name : Text) → IsDataset name → validate_dataset name ≡ ok tt
unfolding validate_dataset
validate_dataset_complete name h =
    ground
      (arith, check_parts_ok name (split slash name), check_runes_ok (invalid_dataset name) name)

-- As `validate_dataset` reads it.
pub validate_dataset_iff : (name : Text) → (validate_dataset name ≡ ok tt) ↔ IsDataset name
validate_dataset_iff name = (validate_dataset_sound name, validate_dataset_complete name)

pub any-append {ℓ} :
    {A : Type ℓ} (p : A → Bool) (xs ys : List A) → any p (xs ++ ys) ≡ (any p xs || any p ys)
any-append p [] ys = refl
any-append p (x ∷ xs) ys = ground (arith, any-append p xs ys)

-- The part of a dataset name behind a slash, or the whole name.
abbrev pub IsTail : Text → Text → Type 0
IsTail name t = (t ≡ name) ⊎ ((before : Text) × (name ≡ before ++ slash ∷ t))

slash_is_fine : is_bad_rune slash ≡ false
unfolding is_space is_control
slash_is_fine = refl

has_prefix_head :
    (s t : Text) (c : ℕ) → is_nil s ≡ false → has_prefix (s ++ t) (c ∷ []) ≡ has_prefix s (c ∷ [])
has_prefix_head [] t c h = cc
has_prefix_head (d ∷ s) t c h = refl

nonempty_append : (s t : Text) → is_nil s ≡ false → is_nil (s ++ t) ≡ false
nonempty_append [] t h = cc
nonempty_append (c ∷ s) t h = refl

-- What of a name's tail is needed below a root.
record IsTailOk (t : Text) : Type 0 where
  no_object : contains_any t (codes "@#") ≡ false
  parts : any is_bad_part (split slash t) ≡ false
  runes : any is_bad_rune t ≡ false

tail_ok : (name t : Text) → IsDataset name → IsTail name t → IsTailOk t
tail_ok name t d (inl e) =
    subst IsTailOk (sym e) (record { no_object = d.no_object; parts = d.parts; runes = d.runes })
tail_ok name t d (inr (before, e)) = record {
  no_object = ground (
    arith,
    any-append (λ c. any (λ x. c == x) (codes "@#")) before (slash ∷ t),
    ap (λ s. contains_any s (codes "@#")) e,
  );
  parts = ground (
    arith,
    any-append is_bad_part (split slash before) (split slash t),
    split-append slash before t,
    ap (split slash) e,
  );
  runes = ground (arith, any-append is_bad_rune before (slash ∷ t), ap (any is_bad_rune) e);
}

-- A dataset name continued by a tail of another one is a dataset name.
pub join-IsDataset :
    (root name t : Text)
    → IsDataset root
    → IsDataset name
    → IsTail name t
    → IsDataset (root ++ slash ∷ t)
join-IsDataset root name t r d tail = record {
  nonempty = nonempty_append root (slash ∷ t) r.nonempty;
  no_slash = has_prefix_head root (slash ∷ t) b'/' r.nonempty ∙ r.no_slash;
  no_dash = has_prefix_head root (slash ∷ t) b'-' r.nonempty ∙ r.no_dash;
  no_object = ground (
    arith,
    any-append (λ c. any (λ x. c == x) (codes "@#")) root (slash ∷ t),
    r.no_object,
    k.no_object,
  );
  parts = ground (
    arith,
    any-append is_bad_part (split slash root) (split slash t),
    split-append slash root t,
    r.parts,
    k.parts,
  );
  runes = ground (arith, slash_is_fine, any-append is_bad_rune root (slash ∷ t), r.runes, k.runes);
}
  where
    k : IsTailOk t
    k = tail_ok name t d tail
