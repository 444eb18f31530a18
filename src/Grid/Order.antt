-- ===== src/Grid/Order.antt =====
-- The written order of the tiers does not matter.
use boomerangz.Base.{
  ℕ, ◌+◌, ◌*◌, ◌<◌, ◌≡◌, refl, sym, ap, ◌∙◌, none, some, List, [], ◌∷◌, map, arith, Text, text_key,
  ℕ_key, All,
}
use native.Mathlib.Nat.{ℕ_set}
use mathlib.Core.Logic.{∥∥₁_elim}
use mathlib.Core.List.{Perm, Permᴰ}
use boomerangz.Base.Result.{ok, >>=-eq-ok}
use boomerangz.Strings.{split, trim_space}
use boomerangz.Grid.{
  Bucket, Grid, match_bucket, parse_part, parse_parts, parse_grid, merge_buckets, sort_buckets,
  grid_of,
}
use boomerangz.Grid.Merging.{tally, tally-merge_sort, length_of, ascending_unique}
use boomerangz.Grid.Parsed.{
  IsSound, parse_grid-IsGrid, parse_grid-parts, parse_part-matched, parse_bucket-same, bucket_of,
}

-- The bucket that a part is read as, when it is read as one.
abbrev read : Text → Bucket
read part = elim (match_bucket (trim_space part)) [
  | none ↦ record { count = 0; span = 0 }
  | some m ↦ bucket_of m
]

parse_part-read :
    (horizon : ℕ) (part : Text) {b : Bucket} → parse_part horizon part ≡ ok b → b ≡ read part
parse_part-read horizon part e =
    let (m, matched, bucket) = parse_part-matched horizon part e in
    ground (arith, matched, parse_bucket-same horizon m bucket)

parse_parts-read :
    (horizon : ℕ) (parts : List Text) {r : List Bucket × ℕ}
    → parse_parts horizon parts ≡ ok r
    → r.0 ≡ map read parts
unfolding parse_parts
parse_parts-read horizon [] {r} e = cc
parse_parts-read horizon (part ∷ parts) {r} e =
    let (b, parsed, e₁) = >>=-eq-ok (parse_part horizon part) _ e in
    let (rest, more, e₂) = >>=-eq-ok (parse_parts (horizon + b.count * b.span) parts) _ e₁ in
    let same : r ≡ (b ∷ rest.0, rest.1) = cc in
    cc (
      ap (λ (p : List Bucket × ℕ). p.0) same,
      parse_part-read horizon part parsed,
      parse_parts-read (horizon + b.count * b.span) parts more,
    )

tally-perm :
    (s : ℕ) {xs ys : List Text} → Permᴰ xs ys → tally s (map read xs) ≡ tally s (map read ys)
tally-perm s Permᴰ.nil = refl
tally-perm s (Permᴰ.cons {a} {b} e p) =
    omega (arith, ap (λ (t : Text). tally s (read t ∷ [])) e, tally-perm s p)
tally-perm s (Permᴰ.swap {a} {b} {a'} {b'} e f) =
    omega (
      arith,
      ap (λ (t : Text). tally s (read t ∷ [])) e,
      ap (λ (t : Text). tally s (read t ∷ [])) f,
    )
tally-perm s (Permᴰ.trans p q) = tally-perm s p ∙ tally-perm s q

counted-All : (bs : List Bucket) → All IsSound bs → All (λ (b : Bucket). 0 < b.count) bs
counted-All [] h = tt
counted-All (b ∷ bs) h = (h.0.counted, counted-All bs h.1)

-- Two accepted texts whose tiers are the same in another order give one grid.
pub parse_grid-order :
    (v w : Text) {g h : Grid}
    → parse_grid v ≡ ok g
    → parse_grid w ≡ ok h
    → Perm (split b',' v) (split b',' w)
    → g ≡ h
parse_grid-order v w {g} {h} eg eh p =
    let (r, rs, gs) = parse_grid-parts v eg in
    let (q, qs, hs) = parse_grid-parts w eh in
    let vg = parse_grid-IsGrid v eg in
    let vh = parse_grid-IsGrid w eh in
    let g_buckets : g.buckets ≡ merge_buckets (sort_buckets r.0) =
      ap (λ (k : Grid). k.buckets) gs in
    let h_buckets : h.buckets ≡ merge_buckets (sort_buckets q.0) =
      ap (λ (k : Grid). k.buckets) hs in
    let same_tally : (s : ℕ) → tally s g.buckets ≡ tally s h.buckets = λ s.
      ap (tally s) g_buckets
      ∙ tally-merge_sort s r.0
      ∙ ap (tally s) (parse_parts-read 0 (split b',' v) rs)
      ∙ ∥∥₁_elim p (ℕ_set _ _) (tally-perm s)
      ∙ ap (tally s) (sym (parse_parts-read 0 (split b',' w) qs))
      ∙ sym (tally-merge_sort s q.0)
      ∙ ap (tally s) (sym h_buckets) in
    let buckets : g.buckets ≡ h.buckets =
      ascending_unique 0 g.buckets h.buckets vg.ascending vh.ascending
        (counted-All g.buckets vg.sounds) (counted-All h.buckets vh.sounds) same_tally in
    let horizon : g.horizon ≡ h.horizon = omega (arith, vg.total, vh.total, ap length_of buckets) in
    vg.printed
    ∙ cc (
      ap (λ (bs : List Bucket). grid_of bs g.horizon) buckets,
      ap (λ (n : ℕ). grid_of h.buckets n) horizon,
    )
    ∙ sym vh.printed
