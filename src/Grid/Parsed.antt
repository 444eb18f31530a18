-- ===== src/Grid/Parsed.antt =====
-- What holds of a grid that was parsed.
use boomerangz.Base.{
  ℕ, ◌+◌, ◌-◌, ◌*◌, ◌/◌, ◌%◌, ◌≤◌, ◌<◌, ◌≡◌, refl, sym, ap, subst, inl, inr, ◌||◌, some, List, [],
  ◌∷◌, arith, ltb, leb, ◌==◌, Bool-cases, Option-cases, Text, text_key, ℕ_key, All,
}
use native.Mathlib.Nat.{le-div_iff_mul-le}
use boomerangz.Base.Result.{ok, >>=-eq-ok, refuse}
use boomerangz.Strings.{split, trim_space}
use boomerangz.Grid.{
  merge_from, insert_bucket, Bucket, Grid, Match, parse_int, parse_bucket, parse_part, parse_parts,
  parse_grid, grid_of, max_int64, max_int32, minute, unit_span, positive, match_bucket,
  merge_buckets, sort_buckets,
}
use boomerangz.Grid.Merging.{
  length_of, AscendingFrom, length_of-merge_sort, AscendingFrom-merge_sort,
}

-- A bucket of the parser: not empty, and a whole number of minutes long.
pub record IsSound (b : Bucket) : Type 0 where
  pub counted : 0 < b.count
  pub lasting : 0 < b.span
  pub whole_minutes : b.span % minute ≡ 0

unit_minutes : (unit : Text) (a : ℕ) → (a * unit_span unit) % minute ≡ 0
unit_minutes unit a = ground arith

parse_int-le : (bound : ℕ) (s : Text) → positive (parse_int bound s) ≤ bound
unfolding parse_int
parse_int-le bound s = ground arith

-- The numbers of an accepted bucket.
abbrev pub count_of : Match → ℕ
count_of m = positive (parse_int max_int32 m.count_text)

abbrev pub amount_of : Match → ℕ
amount_of m = positive (parse_int max_int64 m.amount_text)

record Accepted (horizon : ℕ) (m : Match) (b : Bucket) : Type 0 where
  some_windows : 0 < count_of m
  some_time : 0 < amount_of m
  within : amount_of m ≤ max_int64 / unit_span m.unit_text
  room : count_of m ≤ (max_int64 - horizon) / (amount_of m * unit_span m.unit_text)
  same : b ≡ record { count = count_of m; span = amount_of m * unit_span m.unit_text }

parse_bucket-Accepted :
    (horizon : ℕ) (m : Match) {b : Bucket} → parse_bucket horizon m ≡ ok b → Accepted horizon m b
unfolding parse_bucket
parse_bucket-Accepted horizon m {b} e =
    let (_, c, e₁) = >>=-eq-ok (refuse (count_of m == 0) _) _ e in
    let (_, a, e₂) =
      >>=-eq-ok
        (refuse (amount_of m == 0 || ltb (max_int64 / unit_span m.unit_text) (amount_of m)) _) _
        e₁ in
    let (_, r, e₃) =
      >>=-eq-ok
        (refuse (ltb ((max_int64 - horizon) / (amount_of m * unit_span m.unit_text)) (count_of m))
          _)
        _ e₂ in
    record {
      some_windows = ground arith;
      some_time = ground arith;
      within = ground arith;
      room = ground arith;
      same = cc;
    }

-- The bucket that a match is read as, when it is accepted.
abbrev pub bucket_of : Match → Bucket
bucket_of m = record { count = count_of m; span = amount_of m * unit_span m.unit_text }

pub parse_bucket-same :
    (horizon : ℕ) (m : Match) {b : Bucket} → parse_bucket horizon m ≡ ok b → b ≡ bucket_of m
parse_bucket-same horizon m e = (parse_bucket-Accepted horizon m e).same

pub parse_bucket-IsSound :
    (horizon : ℕ) (m : Match) {b : Bucket}
    → horizon ≤ max_int64
    → parse_bucket horizon m ≡ ok b
    → IsSound b × (horizon + b.count * b.span ≤ max_int64)
parse_bucket-IsSound horizon m {b} h e =
    let v = parse_bucket-Accepted horizon m e in
    let unit_positive : 0 < unit_span m.unit_text = ground (arith, v.within, v.some_time) in
    let span_positive : 0 < amount_of m * unit_span m.unit_text =
      grind (arith, v.some_time, unit_positive) in
    let fits : count_of m * (amount_of m * unit_span m.unit_text) ≤ max_int64 - horizon =
      (le-div_iff_mul-le span_positive).0 v.room in
    let span : b.span ≡ amount_of m * unit_span m.unit_text = ap (λ (c : Bucket). c.span) v.same in
    let count : b.count ≡ count_of m = ap (λ (c : Bucket). c.count) v.same in
    (
      record {
        counted = rw count v.some_windows;
        lasting = rw span span_positive;
        whole_minutes = rw span (unit_minutes m.unit_text (amount_of m));
      },
      rw (span, count) (omega (arith, fits)),
    )

pub parse_part-matched :
    (horizon : ℕ) (part : Text) {b : Bucket}
    → parse_part horizon part ≡ ok b
    → (m : Match) × (match_bucket (trim_space part) ≡ some m) × (parse_bucket horizon m ≡ ok b)
unfolding parse_part
parse_part-matched horizon part e = elim (Option-cases (match_bucket (trim_space part))) [
  | inl none_matched ↦ absurd (ground arith)
  | inr (m, matched) ↦ (m, matched, ground arith)
]

-- The buckets of an accepted text are sound, and the horizon is the length of all their windows.
parse_parts-IsSound :
    (horizon : ℕ) (parts : List Text) {r : List Bucket × ℕ}
    → horizon ≤ max_int64
    → parse_parts horizon parts ≡ ok r
    → All IsSound r.0 × (r.1 ≡ horizon + length_of r.0) × (r.1 ≤ max_int64)
unfolding parse_parts
parse_parts-IsSound horizon [] {r} h e =
    let same : r ≡ ([], horizon) = cc in
    subst
      (λ (p : List Bucket × ℕ).
        All IsSound p.0 × (p.1 ≡ horizon + length_of p.0) × (p.1 ≤ max_int64))
      (sym same) (tt, omega arith, h)
parse_parts-IsSound horizon (part ∷ parts) {r} h e =
    let (b, parsed, e₁) = >>=-eq-ok (parse_part horizon part) _ e in
    let (m, _, bucket) = parse_part-matched horizon part parsed in
    let (sound, fits) = parse_bucket-IsSound horizon m h bucket in
    let (rest, more, e₂) = >>=-eq-ok (parse_parts (horizon + b.count * b.span) parts) _ e₁ in
    let (sounds, total, bounded) =
      parse_parts-IsSound (horizon + b.count * b.span) parts fits more in
    let same : r ≡ (b ∷ rest.0, rest.1) = cc in
    subst
      (λ (p : List Bucket × ℕ).
        All IsSound p.0 × (p.1 ≡ horizon + length_of p.0) × (p.1 ≤ max_int64))
      (sym same) ((sound, sounds), omega (arith, total), bounded)

-- What a parsed grid is: rising spans of whole minutes, none empty, and a horizon that is the length
-- of all windows and fits an int64.
pub record IsGrid (g : Grid) : Type 0 where
  pub ascending : AscendingFrom 0 g.buckets
  pub sounds : All IsSound g.buckets
  pub total : g.horizon ≡ length_of g.buckets
  pub bounded : g.horizon ≤ max_int64
  pub printed : g ≡ grid_of g.buckets g.horizon

IsSound-sum : (b c : Bucket) → IsSound b → IsSound (record b { count = b.count + c.count })
IsSound-sum b c s = record {
  counted = omega (arith, s.counted);
  lasting = s.lasting;
  whole_minutes = s.whole_minutes;
}

IsSound-merge_from :
    (b : Bucket) (cs : List Bucket) → IsSound b → All IsSound cs → All IsSound (merge_from b cs)
unfolding merge_from
IsSound-merge_from b [] s h = (s, tt)
IsSound-merge_from b (c ∷ cs) s h = elim (Bool-cases (b.span == c.span)) [
  | inl same ↦
      rw same
        (IsSound-merge_from (record b { count = b.count + c.count }) cs (IsSound-sum b c s) h.1)
  | inr other ↦ rw other (s, IsSound-merge_from c cs h.0 h.1)
]

IsSound-insert :
    (b : Bucket) (cs : List Bucket) → IsSound b → All IsSound cs → All IsSound (insert_bucket b cs)
IsSound-insert b [] s h = (s, tt)
IsSound-insert b (c ∷ cs) s h = elim (Bool-cases (leb b.span c.span)) [
  | inl here ↦ rw here (s, h)
  | inr later ↦ rw later (h.0, IsSound-insert b cs s h.1)
]

IsSound-sort : (bs : List Bucket) → All IsSound bs → All IsSound (sort_buckets bs)
unfolding sort_buckets
IsSound-sort [] h = tt
IsSound-sort (b ∷ bs) h = IsSound-insert b (sort_buckets bs) h.0 (IsSound-sort bs h.1)

IsSound-merge : (bs : List Bucket) → All IsSound bs → All IsSound (merge_buckets bs)
unfolding merge_buckets
IsSound-merge [] h = tt
IsSound-merge (b ∷ bs) h = IsSound-merge_from b bs h.0 h.1

lasting-All : (bs : List Bucket) → All IsSound bs → All (λ (b : Bucket). 0 < b.span) bs
lasting-All [] h = tt
lasting-All (b ∷ bs) h = (h.0.lasting, lasting-All bs h.1)

-- The buckets and the horizon that a text was parsed to, before they were sorted.
pub parse_grid-parts :
    (value : Text) {g : Grid}
    → parse_grid value ≡ ok g
    → (r : List Bucket × ℕ) × (parse_parts 0 (split b',' value) ≡ ok r)
      × (g ≡ grid_of (merge_buckets (sort_buckets r.0)) r.1)
unfolding parse_grid
parse_grid-parts value e =
    let (r, parsed, done) = >>=-eq-ok (parse_parts 0 (split b',' value)) _ e in (r, parsed, cc)

-- Every accepted grid has strictly rising spans of whole minutes, no empty bucket, and as its horizon
-- the length of all its windows, which fits an int64.
pub parse_grid-IsGrid : (value : Text) {g : Grid} → parse_grid value ≡ ok g → IsGrid g
parse_grid-IsGrid value e =
    let (r, parsed, same) = parse_grid-parts value e in
    let (sounds, total, bounded) = parse_parts-IsSound 0 (split b',' value) (omega arith) parsed in
    subst IsGrid (sym same) (record {
      ascending = AscendingFrom-merge_sort r.0 (lasting-All r.0 sounds);
      sounds = IsSound-merge (sort_buckets r.0) (IsSound-sort r.0 sounds);
      total = omega (arith, total, length_of-merge_sort r.0);
      bounded = bounded;
      printed = refl;
    })
