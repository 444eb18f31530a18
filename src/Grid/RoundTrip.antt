-- ===== src/Grid/RoundTrip.antt =====
-- A grid's text is read back as the grid.
use boomerangz.Base.{
  ℕ, ◌+◌, ◌*◌, ◌≤◌, ◌<◌, ◌≡◌, refl, sym, ap, ◌∙◌, subst, ◌≢◌, false, List, [], ◌∷◌, arith, ◌==◌,
  Text, text_key, ℕ_key, any, All,
}
use native.Mathlib.Nat.{mul-le-mul_right}
use boomerangz.Base.Result.{ok, >>=-eq-ok}
use boomerangz.Strings.{split, join}
use boomerangz.Strings.Laws.{split_view, split-append}
use boomerangz.Grid.{
  Bucket, Grid, max_int64, canonical, parse_part, parse_parts, parse_grid, grid_of, merge_buckets,
  sort_buckets, merge_from, insert_bucket,
}
use boomerangz.Grid.Merging.{length_of, length_of-merge_sort, AscendingFrom}
use boomerangz.Grid.Parsed.{
  IsSound, parse_grid-IsGrid, parse_grid-parts, parse_part-matched, parse_bucket-IsSound,
}
use boomerangz.Grid.Printing.{printed, within, text_in, text_in-no_comma, parse_part-text_in}

-- The text of a sound bucket.
bucket_text : (b : Bucket) → IsSound b → Text
bucket_text b s = let p = printed b s in text_in p.name p.unit b

canonical-nil : canonical [] ≡ []
unfolding canonical
canonical-nil = refl

canonical-cons :
    (b : Bucket) (bs : List Bucket) (s : IsSound b)
    → canonical (b ∷ bs) ≡ bucket_text b s ∷ canonical bs
unfolding canonical bucket_text
canonical-cons b bs s = ground (arith, (printed b s).prints)

parse_part-bucket_text :
    (horizon : ℕ) (b : Bucket) (s : IsSound b)
    → horizon + b.count * b.span ≤ max_int64
    → parse_part horizon (bucket_text b s) ≡ ok b
unfolding bucket_text
parse_part-bucket_text horizon b s fits =
    let p = printed b s in
    parse_part-text_in horizon b p.of_unit
      (within horizon b p.unit s p.of_unit.lasts p.divides fits) s

parse_parts-canonical :
    (horizon : ℕ) (bs : List Bucket)
    → All IsSound bs
    → horizon + length_of bs ≤ max_int64
    → parse_parts horizon (canonical bs) ≡ ok (bs, horizon + length_of bs)
unfolding parse_parts
parse_parts-canonical horizon [] s fits = rw canonical-nil (ground arith)
parse_parts-canonical horizon (b ∷ bs) s fits =
    let here = parse_part-bucket_text horizon b s.0 (omega (arith, fits)) in
    let rest = parse_parts-canonical (horizon + b.count * b.span) bs s.1 (omega (arith, fits)) in
    rw (canonical-cons b bs s.0) (ground (arith, here, rest))

-- Sorting and merging leave rising spans as they are.
insert_self :
    (lo : ℕ) (b : Bucket) (bs : List Bucket) → AscendingFrom b.span bs → insert_bucket b bs ≡ b ∷ bs
insert_self lo b [] h = refl
insert_self lo b (c ∷ cs) h = ground arith

sort_self : (lo : ℕ) (bs : List Bucket) → AscendingFrom lo bs → sort_buckets bs ≡ bs
unfolding sort_buckets
sort_self lo [] h = refl
sort_self lo (b ∷ bs) h = ground (arith, sort_self b.span bs h.1, insert_self lo b bs h.1)

merge_from_self :
    (b : Bucket) (cs : List Bucket) → AscendingFrom b.span cs → merge_from b cs ≡ b ∷ cs
unfolding merge_from
merge_from_self b [] h = refl
merge_from_self b (c ∷ cs) h = ground (arith, merge_from_self c cs h.1)

merge_self : (lo : ℕ) (bs : List Bucket) → AscendingFrom lo bs → merge_buckets bs ≡ bs
unfolding merge_buckets
merge_self lo [] h = refl
merge_self lo (b ∷ bs) h = merge_from_self b bs h.1

split_self : (sep : ℕ) (w : Text) → any (λ c. c == sep) w ≡ false → split sep w ≡ w ∷ []
split_self sep [] h = refl
split_self sep (c ∷ w) h = ground (arith, split_self sep w)

split-join :
    (sep : ℕ) (w : Text) (ws : List Text)
    → All (λ v. any (λ c. c == sep) v ≡ false) (w ∷ ws)
    → split sep (join sep (w ∷ ws)) ≡ w ∷ ws
split-join sep w [] h = split_self sep w h.0
split-join sep w (v ∷ ws) h =
    ground
      (arith, split-append sep w (join sep (v ∷ ws)), split_self sep w h.0, split-join sep v ws h.1)

bucket_text-no_comma : (b : Bucket) (s : IsSound b) → any (λ c. c == b',') (bucket_text b s) ≡ false
unfolding bucket_text
bucket_text-no_comma b s = let p = printed b s in text_in-no_comma b p.of_unit

canonical-no_comma :
    (bs : List Bucket) → All IsSound bs → All (λ v. any (λ c. c == b',') v ≡ false) (canonical bs)
canonical-no_comma [] s = rw canonical-nil tt
canonical-no_comma (b ∷ bs) s =
    rw (canonical-cons b bs s.0) (bucket_text-no_comma b s.0, canonical-no_comma bs s.1)

parse_part-lasts : (part : Text) {b : Bucket} → parse_part 0 part ≡ ok b → 0 < b.count * b.span
parse_part-lasts part {b} e =
    let (m, _, bucket) = parse_part-matched 0 part e in
    let (sound, _) = parse_bucket-IsSound 0 m (omega arith) bucket in
    grind (arith, mul-le-mul_right {m = 1} {n = b.count} b.span sound.counted, sound.lasting)

parse_parts-lasts :
    (parts : List Text) {r : List Bucket × ℕ}
    → parts ≢ []
    → parse_parts 0 parts ≡ ok r
    → 0 < length_of r.0
unfolding parse_parts
parse_parts-lasts [] filled e = absurd (filled refl)
parse_parts-lasts (part ∷ parts) {r} filled e =
    let (b, parsed, e₁) = >>=-eq-ok (parse_part 0 part) _ e in
    let (rest, more, e₂) = >>=-eq-ok (parse_parts (0 + b.count * b.span) parts) _ e₁ in
    let same : r ≡ (b ∷ rest.0, rest.1) = cc in
    subst (λ (p : List Bucket × ℕ). 0 < length_of p.0) (sym same)
      (omega (arith, parse_part-lasts part parsed))

-- A parsed grid has a bucket, since a split text has a part.
buckets_nonempty :
    (value : Text) {g : Grid}
    → parse_grid value ≡ ok g
    → (b : Bucket) × (bs : List Bucket) × (g.buckets ≡ b ∷ bs)
buckets_nonempty value {g} e =
    let (r, parsed, same) = parse_grid-parts value e in
    let (w, ws, parts) = split_view b',' value in
    let lasts = parse_parts-lasts (split b',' value) (λ nothing. cc (parts, nothing)) parsed in
    let long : 0 < length_of g.buckets =
      omega (arith, lasts, length_of-merge_sort r.0, ap (λ (k : Grid). length_of k.buckets) same) in
    filled g.buckets long
  where
    filled :
        (bs : List Bucket) → 0 < length_of bs → (c : Bucket) × (cs : List Bucket) × (bs ≡ c ∷ cs)
    filled [] h = absurd (omega (arith, h))
    filled (c ∷ cs) h = (c, cs, refl)

split-canonical :
    (b : Bucket) (bs : List Bucket)
    → All IsSound (b ∷ bs)
    → split b',' (join b',' (canonical (b ∷ bs))) ≡ canonical (b ∷ bs)
split-canonical b bs s = rw (canonical-cons b bs s.0) (
    split-join b',' (bucket_text b s.0) (canonical bs)
      (bucket_text-no_comma b s.0, canonical-no_comma bs s.1))

-- Sound buckets with rising spans are read back from their text.
parse_grid_self :
    (b : Bucket) (bs : List Bucket)
    → All IsSound (b ∷ bs)
    → AscendingFrom 0 (b ∷ bs)
    → length_of (b ∷ bs) ≤ max_int64
    → parse_grid (join b',' (canonical (b ∷ bs))) ≡ ok (grid_of (b ∷ bs) (length_of (b ∷ bs)))
unfolding parse_grid
parse_grid_self b bs s rising fits =
    let parsed : parse_parts 0 (canonical (b ∷ bs)) ≡ ok (b ∷ bs, 0 + length_of (b ∷ bs)) =
      parse_parts-canonical 0 (b ∷ bs) s (omega (arith, fits)) in
    rw (split-canonical b bs s) (
      rw parsed (
        rw (sort_self 0 (b ∷ bs) rising)
          (rw (merge_self 0 (b ∷ bs) rising) (ap (λ n. ok (grid_of (b ∷ bs) n)) (omega arith)))))

-- The text of an accepted grid is accepted, and parsed to that very grid.
pub parse_grid-text : (value : Text) {g : Grid} → parse_grid value ≡ ok g → parse_grid g.text ≡ ok g
parse_grid-text value {g} e =
    let v = parse_grid-IsGrid value e in
    let (b, bs, filled) = buckets_nonempty value e in
    let total : g.horizon ≡ length_of (b ∷ bs) = v.total ∙ ap length_of filled in
    let same : g ≡ grid_of (b ∷ bs) (length_of (b ∷ bs)) =
      v.printed
      ∙ cc (ap (λ cs. grid_of cs g.horizon) filled, ap (λ (n : ℕ). grid_of (b ∷ bs) n) total) in
    subst (λ (k : Grid). parse_grid k.text ≡ ok k) (sym same)
      (parse_grid_self b bs (subst (λ cs. All IsSound cs) filled v.sounds)
        (subst (AscendingFrom 0) filled v.ascending) (omega (arith, total, v.bounded)))
