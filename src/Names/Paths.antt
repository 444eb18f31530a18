-- ===== src/Names/Paths.antt =====
-- The path tests decide the order of the dataset tree.
use boomerangz.Base.{
  ◌≡◌, refl, sym, ap, ◌∙◌, subst, ◌↔◌, ◌⊎◌, inl, inr, true, List, [], ◌∷◌, ◌++◌, append_assoc,
  append-nil, arith, Bool-cases, Text, text_key, ℕ_key, ◌=?◌, codes,
}
use boomerangz.Strings.{slash, has_prefix, split, join}
use boomerangz.Strings.Laws.{
  has_prefix-append, has_prefix_rest, split-append, join-split, join-append, split_view,
}
use boomerangz.Names.{inside, overlaps, overlapping_lock_scope}

-- `a` names the dataset `r` or one below it: the components of `r` begin those of `a`.
abbrev pub IsUnder : Text → Text → Type 0
IsUnder a r = (rest : List Text) × (split slash a ≡ split slash r ++ rest)

-- A name that is not the root's and lies inside it continues it behind a slash.
pub inside_cases : (a r : Text) → inside a r ≡ true → (a ≡ r) ⊎ ((t : Text) × (a ≡ r ++ slash ∷ t))
unfolding inside
inside_cases a r h = elim (Bool-cases (a =? r)) [
  | inl same ↦ inl (ground arith)
  | inr other ↦
      let (t, e) = has_prefix_rest a (r ++ codes "/") (ground arith) in
      inr (t, e ∙ append_assoc r (codes "/") t)
]

pub inside-below : (r t : Text) → inside (r ++ slash ∷ t) r ≡ true
unfolding inside
inside-below r t =
    let p : has_prefix (r ++ slash ∷ t) (r ++ codes "/") ≡ true =
      rw (sym (append_assoc r (codes "/") t)) (has_prefix-append (r ++ codes "/") t) in
    ground arith

pub inside_self : (r : Text) → inside r r ≡ true
unfolding inside
inside_self r = ground arith

inside→IsUnder : (a r : Text) → inside a r ≡ true → IsUnder a r
inside→IsUnder a r h = elim (inside_cases a r h) [
  | inl e ↦ ([], ap (split slash) e ∙ sym (append-nil (split slash r)))
  | inr (t, e) ↦ (split slash t, ap (split slash) e ∙ split-append slash r t)
]

IsUnder→inside : (a r : Text) → IsUnder a r → inside a r ≡ true
IsUnder→inside a r ([], e) =
    let same : a ≡ r =
      sym (join-split slash a)
      ∙ ap (join slash) (e ∙ append-nil (split slash r))
      ∙ join-split slash r in
    subst (λ t. inside t r ≡ true) (sym same) (inside_self r)
IsUnder→inside a r (y ∷ ys, e) =
    let (x, xs, view) = split_view slash r in
    let below : a ≡ r ++ slash ∷ join slash (y ∷ ys) =
      sym (join-split slash a)
      ∙ ap (join slash) (e ∙ ap (λ l. l ++ y ∷ ys) view)
      ∙ join-append slash x xs y ys
      ∙ ap (λ l. join slash l ++ slash ∷ join slash (y ∷ ys)) (sym view)
      ∙ ap (λ t. t ++ slash ∷ join slash (y ∷ ys)) (join-split slash r) in
    subst (λ t. inside t r ≡ true) (sym below) (inside-below r (join slash (y ∷ ys)))

-- A name lies inside a root exactly when the components of the root begin its components.
pub inside_iff : (a r : Text) → (inside a r ≡ true) ↔ IsUnder a r
inside_iff a r = (inside→IsUnder a r, IsUnder→inside a r)

has_prefix_both :
    (x a b : Text)
    → has_prefix x (a ++ codes "/") ≡ true
    → has_prefix x (b ++ codes "/") ≡ true
    → (a ≡ b) ⊎ ((has_prefix a (b ++ codes "/") ≡ true) ⊎ (has_prefix b (a ++ codes "/") ≡ true))
has_prefix_both x [] [] h k = inl refl
has_prefix_both [] [] (d ∷ b) h k = cc
has_prefix_both (c ∷ x) [] (d ∷ b) h k = inr (inr (ground arith))
has_prefix_both [] (d ∷ a) [] h k = cc
has_prefix_both (c ∷ x) (d ∷ a) [] h k = inr (inl (ground arith))
has_prefix_both [] (d ∷ a) (e ∷ b) h k = cc
has_prefix_both (c ∷ x) (d ∷ a) (e ∷ b) h k = ground (arith, has_prefix_both x a b)

-- Two scopes that share a dataset overlap: scopes that do not overlap have disjoint subtrees.
pub overlaps_of_common :
    (x a b : Text) → inside x a ≡ true → inside x b ≡ true → overlaps a b ≡ true
unfolding inside overlaps
overlaps_of_common x a b h k = ground (arith, has_prefix_both x a b)

pub overlaps_sym : (a b : Text) → overlaps a b ≡ overlaps b a
unfolding overlaps
overlaps_sym a b = ground arith

pub overlapping_lock_scope_sym :
    (a b : Text) → overlapping_lock_scope a b ≡ overlapping_lock_scope b a
unfolding overlapping_lock_scope
overlapping_lock_scope_sym a b = ground arith
