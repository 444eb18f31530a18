-- ===== src/Strings/Laws.antt =====
-- Prefixes, splitting and joining.
use boomerangz.Base.{
  ℕ, ◌≡◌, refl, ap, ◌≢◌, ◌⊎◌, inl, inr, true, false, some, List, [], ◌∷◌, ◌++◌, append_assoc, arith,
  ◌==◌, Bool-cases, Option-cases, Text, text_key, ℕ_key, any, All,
}
use boomerangz.Strings.{has_prefix, split, join, cut, after_last}

pub has_prefix-append : (p r : Text) → has_prefix (p ++ r) p ≡ true
has_prefix-append [] r = refl
has_prefix-append (c ∷ p) r = ground (arith, has_prefix-append p r)

pub has_prefix_rest : (s p : Text) → has_prefix s p ≡ true → (r : Text) × (s ≡ p ++ r)
has_prefix_rest s [] h = (s, refl)
has_prefix_rest [] (p ∷ ps) h = cc
has_prefix_rest (c ∷ s) (p ∷ ps) h =
    let (r, e) = has_prefix_rest s ps (ground arith) in (r, ground arith)

pub split_view : (sep : ℕ) (s : Text) → (w : Text) × (ws : List Text) × (split sep s ≡ w ∷ ws)
split_view sep [] = ([], [], refl)
split_view sep (c ∷ s) =
    let (w, ws, e) = split_view sep s in
    elim (Bool-cases (c == sep)) [
      | inl same ↦ ([], split sep s, rw same)
      | inr other ↦ (c ∷ w, ws, rw (other, e))
    ]

join_cons :
    (sep : ℕ) (w : Text) (ws : List Text) → ws ≢ [] → join sep (w ∷ ws) ≡ w ++ sep ∷ join sep ws
join_cons sep w [] h = absurd (h refl)
join_cons sep w (v ∷ ws) h = refl

pub join-cons_head :
    (sep c : ℕ) (w : Text) (ws : List Text) → join sep ((c ∷ w) ∷ ws) ≡ c ∷ join sep (w ∷ ws)
join-cons_head sep c w [] = refl
join-cons_head sep c w (v ∷ ws) = refl

pub join-split : (sep : ℕ) (s : Text) → join sep (split sep s) ≡ s
join-split sep [] = refl
join-split sep (c ∷ s) =
    let (w, ws, e) = split_view sep s in
    elim (Bool-cases (c == sep)) [
      | inl same ↦ ground (arith, e, join-split sep s)
      | inr other ↦ ground (arith, e, join-split sep s, join-cons_head sep c w ws)
    ]

pub join-append :
    (sep : ℕ) (x : Text) (xs : List Text) (y : Text) (ys : List Text)
    → join sep ((x ∷ xs) ++ y ∷ ys) ≡ join sep (x ∷ xs) ++ sep ∷ join sep (y ∷ ys)
join-append sep x [] y ys = refl
join-append sep x (z ∷ xs) y ys = rw (join-append sep z xs y ys) (rw append_assoc refl)

pub split-append : (sep : ℕ) (a b : Text) → split sep (a ++ sep ∷ b) ≡ split sep a ++ split sep b
split-append sep [] b = ground arith
split-append sep (c ∷ a) b =
    let (w, ws, e) = split_view sep a in ground (arith, e, split-append sep a b)

-- Every part of a split text is free of the separator.
pub split-free : (sep : ℕ) (s : Text) → All (λ w. any (λ c. c == sep) w ≡ false) (split sep s)
split-free sep [] = (refl, tt)
split-free sep (c ∷ s) = let (w, ws, e) = split_view sep s in ground (arith, e, split-free sep s)

-- `cut` finds the first separator.
pub cut-some :
    (sep : ℕ) (s : Text) {a b : Text}
    → cut sep s ≡ some (a, b)
    → (s ≡ a ++ sep ∷ b) × (any (λ c. c == sep) a ≡ false)
cut-some sep [] h = cc
cut-some sep (c ∷ s) {a} {b} h = elim (Bool-cases (c == sep)) [
  | inl same ↦ ground arith
  | inr other ↦ elim (Option-cases (cut sep s)) [
    | inl missing ↦ ground arith
    | inr ((x, y), found) ↦ let (e, free) = cut-some sep s found in ground arith
  ]
]

pub after_last_free : (sep : ℕ) (s : Text) → any (λ d. d == sep) (after_last sep s) ≡ false
after_last_free sep [] = refl
after_last_free sep (c ∷ s) = ground (arith, after_last_free sep s)

pub after_last_cases :
    (sep : ℕ) (s : Text)
    → (after_last sep s ≡ s) ⊎ ((before : Text) × (s ≡ before ++ sep ∷ after_last sep s))
after_last_cases sep [] = inl refl
after_last_cases sep (c ∷ s) = elim (Bool-cases (any (λ d. d == sep) s)) [
  | inl later ↦ elim (after_last_cases sep s) [
    | inl e ↦ cc (e, later, after_last_free sep s)
    | inr (before, e) ↦ inr (c ∷ before, rw later (ap (λ t. c ∷ t) e))
  ]
  | inr last ↦ elim (Bool-cases (c == sep)) [
    | inl same ↦ inr ([], ground arith)
    | inr other ↦ inl (ground arith)
  ]
]
