-- ===== src/Grid/Merging.antt =====
-- Sorting and merging buckets: the order of the spans, and what each span counts.
use boomerangz.Base.{
  ℕ, ◌+◌, ◌*◌, ◌≤◌, ◌<◌, ◌≡◌, refl, sym, ap, ◌∙◌, subst, inl, inr, List, [], ◌∷◌, arith, ◌==◌,
  if◌then◌else◌, Bool-cases, text_key, ℕ_key, All,
}
use boomerangz.Grid.{Bucket, insert_bucket, sort_buckets, merge_from, merge_buckets}

-- How many windows of a span there are, and the length of all windows.
abbrev pub tally : ℕ → List Bucket → ℕ
tally s [] = 0
tally s (b ∷ bs) = (if b.span == s then b.count else 0) + tally s bs

abbrev pub length_of : List Bucket → ℕ
length_of [] = 0
length_of (b ∷ bs) = b.count * b.span + length_of bs

abbrev pub SortedFrom : ℕ → List Bucket → Type 0
SortedFrom lo [] = Unit
SortedFrom lo (b ∷ bs) = (lo ≤ b.span) × SortedFrom b.span bs

-- The spans rise strictly, from above `lo`.
abbrev pub AscendingFrom : ℕ → List Bucket → Type 0
AscendingFrom lo [] = Unit
AscendingFrom lo (b ∷ bs) = (lo < b.span) × AscendingFrom b.span bs

tally-insert :
    (s : ℕ) (b : Bucket) (bs : List Bucket) → tally s (insert_bucket b bs) ≡ tally s (b ∷ bs)
tally-insert s b [] = refl
tally-insert s b (c ∷ cs) = ground (arith, tally-insert s b cs)

tally-sort : (s : ℕ) (bs : List Bucket) → tally s (sort_buckets bs) ≡ tally s bs
unfolding sort_buckets
tally-sort s [] = refl
tally-sort s (b ∷ bs) = omega (arith, tally-insert s b (sort_buckets bs), tally-sort s bs)

tally-merge_from :
    (s : ℕ) (b : Bucket) (cs : List Bucket) → tally s (merge_from b cs) ≡ tally s (b ∷ cs)
unfolding merge_from
tally-merge_from s b [] = refl
tally-merge_from s b (c ∷ cs) =
    ground (
      arith,
      tally-merge_from s (record b { count = b.count + c.count }) cs,
      tally-merge_from s c cs,
    )

-- Sorting and merging keep the number of windows of every span.
pub tally-merge_sort :
    (s : ℕ) (bs : List Bucket) → tally s (merge_buckets (sort_buckets bs)) ≡ tally s bs
unfolding merge_buckets
tally-merge_sort s bs = merged (sort_buckets bs) ∙ tally-sort s bs
  where
    merged : (cs : List Bucket) → tally s (merge_buckets cs) ≡ tally s cs
    merged [] = refl
    merged (c ∷ cs) = tally-merge_from s c cs

length_of-insert :
    (b : Bucket) (bs : List Bucket) → length_of (insert_bucket b bs) ≡ length_of (b ∷ bs)
length_of-insert b [] = refl
length_of-insert b (c ∷ cs) = ground (arith, length_of-insert b cs)

length_of-sort : (bs : List Bucket) → length_of (sort_buckets bs) ≡ length_of bs
unfolding sort_buckets
length_of-sort [] = refl
length_of-sort (b ∷ bs) = omega (arith, length_of-insert b (sort_buckets bs), length_of-sort bs)

length_of-merge_from :
    (b : Bucket) (cs : List Bucket) → length_of (merge_from b cs) ≡ length_of (b ∷ cs)
unfolding merge_from
length_of-merge_from b [] = refl
length_of-merge_from b (c ∷ cs) = elim (Bool-cases (b.span == c.span)) [
  | inl same ↦
      let e : b.span ≡ c.span = ground arith in
      rw same (
        length_of-merge_from (record b { count = b.count + c.count }) cs
        ∙ omega (arith, ap (λ (n : ℕ). c.count * n) e))
  | inr other ↦ rw other (ground (arith, length_of-merge_from c cs))
]

-- They keep the length of all windows.
pub length_of-merge_sort :
    (bs : List Bucket) → length_of (merge_buckets (sort_buckets bs)) ≡ length_of bs
unfolding merge_buckets
length_of-merge_sort bs = merged (sort_buckets bs) ∙ length_of-sort bs
  where
    merged : (cs : List Bucket) → length_of (merge_buckets cs) ≡ length_of cs
    merged [] = refl
    merged (c ∷ cs) = length_of-merge_from c cs

SortedFrom-insert :
    (lo : ℕ) (b : Bucket) (bs : List Bucket)
    → lo ≤ b.span
    → SortedFrom lo bs
    → SortedFrom lo (insert_bucket b bs)
SortedFrom-insert lo b [] h k = (h, tt)
SortedFrom-insert lo b (c ∷ cs) h k = ground (arith, SortedFrom-insert c.span b cs)

SortedFrom-sort : (bs : List Bucket) → SortedFrom 0 (sort_buckets bs)
unfolding sort_buckets
SortedFrom-sort [] = tt
SortedFrom-sort (b ∷ bs) =
    SortedFrom-insert 0 b (sort_buckets bs) (omega arith) (SortedFrom-sort bs)

AscendingFrom-merge_from :
    (lo : ℕ) (b : Bucket) (cs : List Bucket)
    → lo < b.span
    → SortedFrom b.span cs
    → AscendingFrom lo (merge_from b cs)
unfolding merge_from
AscendingFrom-merge_from lo b [] h k = (h, tt)
AscendingFrom-merge_from lo b (c ∷ cs) h k = elim (Bool-cases (b.span == c.span)) [
  | inl same ↦
      let e : b.span ≡ c.span = ground arith in
      rw same (
        AscendingFrom-merge_from lo (record b { count = b.count + c.count }) cs h
          (subst (λ n. SortedFrom n cs) (sym e) k.1))
  | inr other ↦ rw other (h, AscendingFrom-merge_from b.span c cs (ground arith) k.1)
]

-- Sorted and merged buckets have strictly rising spans, if none is empty.
pub AscendingFrom-merge_sort :
    (bs : List Bucket)
    → All (λ (b : Bucket). 0 < b.span) bs
    → AscendingFrom 0 (merge_buckets (sort_buckets bs))
unfolding merge_buckets sort_buckets
AscendingFrom-merge_sort bs h = merged (sort_buckets bs) (SortedFrom-sort bs) (positive bs h)
  where
    inserted :
        (b : Bucket) (bs : List Bucket)
        → 0 < b.span
        → All (λ (b : Bucket). 0 < b.span) bs
        → All (λ (b : Bucket). 0 < b.span) (insert_bucket b bs)
    inserted b [] h k = (h, tt)
    inserted b (c ∷ cs) h k = ground (arith, inserted b cs)

    positive :
        (bs : List Bucket)
        → All (λ (b : Bucket). 0 < b.span) bs
        → All (λ (b : Bucket). 0 < b.span) (sort_buckets bs)
    positive [] h = tt
    positive (b ∷ bs) h = inserted b (sort_buckets bs) h.0 (positive bs h.1)

    merged :
        (cs : List Bucket)
        → SortedFrom 0 cs
        → All (λ (b : Bucket). 0 < b.span) cs
        → AscendingFrom 0 (merge_buckets cs)
    merged [] k p = tt
    merged (c ∷ cs) k p = AscendingFrom-merge_from 0 c cs p.0 k.1

-- Two ascending lists that count the same windows are one.
above : (lo s : ℕ) (bs : List Bucket) → s ≤ lo → AscendingFrom lo bs → tally s bs ≡ 0
above lo s [] h k = refl
above lo s (b ∷ bs) h k = ground (arith, above b.span s bs)

pub ascending_unique :
    (lo : ℕ) (xs ys : List Bucket)
    → AscendingFrom lo xs
    → AscendingFrom lo ys
    → All (λ (b : Bucket). 0 < b.count) xs
    → All (λ (b : Bucket). 0 < b.count) ys
    → ((s : ℕ) → tally s xs ≡ tally s ys)
    → xs ≡ ys
ascending_unique lo [] [] a b p q h = refl
ascending_unique lo [] (y ∷ ys) a b p q h = absurd (ground (arith, h y.span, q.0))
ascending_unique lo (x ∷ xs) [] a b p q h = absurd (ground (arith, h x.span, p.0))
ascending_unique lo (x ∷ xs) (y ∷ ys) a b p q h =
    let span : x.span ≡ y.span = ground (
      arith,
      h x.span,
      h y.span,
      p.0,
      q.0,
      above y.span x.span ys,
      above x.span y.span xs,
      above x.span x.span xs,
      above y.span y.span ys,
    ) in
    let count : x.count ≡ y.count =
      ground (arith, h x.span, span, above x.span x.span xs, above y.span x.span ys) in
    let rest : xs ≡ ys =
      ascending_unique x.span xs ys a.1 (subst (λ n. AscendingFrom n ys) (sym span) b.1) p.1 q.1
        (λ s. ground (arith, h s, span, count)) in
    ground (arith, span, count, rest)
