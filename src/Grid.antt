-- ===== src/Grid.antt =====
-- internal/policy/grid.go: retention grids, parsed from text, sorted, merged and printed.
-- A duration is a number of nanoseconds within int64; Go's checks keep every one below the bound,
-- so the model needs no wrap-around.
pub mod Decimal
pub mod Merging
pub mod Parsed
pub mod Order
pub mod Units
pub mod Printing
pub mod RoundTrip
pub mod Examples
use boomerangz.Base.{
  is_none, ℕ, zero, suc, ◌+◌, ◌-◌, ◌*◌, ◌/◌, ◌%◌, ◌^◌, ◌≤◌, ◌<◌, ◌≡◌, refl, sym, ap, ◌∙◌, subst,
  ◌≢◌, ◌↔◌, ◌⊎◌, inl, inr, Bool, true, false, not, ◌&&◌, ◌||◌, Option, none, some, List, [], ◌∷◌,
  ◌++◌, map, append_assoc, append-nil, arith, ltb, leb, ◌==◌, if◌then◌else◌, Bool-cases,
  Option-cases, Text, Key, text_dec, text_key, ℕ_key, ◌=?◌, codes, length, is_nil, length-append,
  keep, any, every, All, All-append, contains, remove, IsNodup, contains-append, contains-remove,
  IsNodup-remove, IsNodup-snoc,
}
use boomerangz.Base.Result.{Result, ok, err, ◌>>=◌, ◌>>◌, refuse}
use boomerangz.Base.Dict.{Dict, lookup, get_or}
use boomerangz.Strings.{split, join, trim_space}

pub record Bucket : Type 0 where
  pub count : ℕ
  pub span : ℕ

pub record Grid : Type 0 where
  pub buckets : List Bucket
  pub text : Text
  pub horizon : ℕ

-- The zero value of a grid.
abbrev pub no_grid : Grid
no_grid = record { buckets = []; text = []; horizon = 0 }

pub data GridError : Type 0 where
  invalid_bucket invalid_count invalid_duration : Text → GridError
  horizon_overflow : GridError

abbrev pub max_int64 : ℕ
max_int64 = 9223372036854775807

abbrev pub max_int32 : ℕ
max_int32 = 2147483647

abbrev pub minute : ℕ
minute = 60000000000

-- The units, longest first.
abbrev pub grid_units : List (Text × ℕ)
grid_units =
    (codes "y", 365 * 24 * 60 * minute)
    ∷ (codes "mo", 30 * 24 * 60 * minute)
    ∷ (codes "w", 7 * 24 * 60 * minute)
    ∷ (codes "d", 24 * 60 * minute)
    ∷ (codes "h", 60 * minute)
    ∷ (codes "m", minute)
    ∷ []

abbrev pub is_digit : ℕ → Bool
is_digit c = leb b'0' c && leb c b'9'

-- The longest run of digits at the head, and the rest.
unfoldable pub span_digits : Text → Text × Text
span_digits [] = ([], [])
span_digits (c ∷ s) =
    let (digits, rest) = span_digits s in if is_digit c then (c ∷ digits, rest) else ([], c ∷ s)

-- The groups of `^([0-9]+)x([0-9]+)(mo|[mhdwy])$`.
pub record Match : Type 0 where
  pub count_text : Text
  pub amount_text : Text
  pub unit_text : Text

unfoldable pub is_unit : Text → Bool
is_unit = contains (codes "mo" ∷ codes "m" ∷ codes "h" ∷ codes "d" ∷ codes "w" ∷ codes "y" ∷ [])

match_amount : Text → Text × Text → Option Match
match_amount digits (amount, unit) =
    if is_nil digits || is_nil amount || not (is_unit unit)
    then none
    else some (record { count_text = digits; amount_text = amount; unit_text = unit })

match_x : Text → Text → Option Match
unfolding match_amount span_digits
match_x digits [] = none
match_x digits (c ∷ rest) =
    let m = match_amount digits (span_digits rest) in if c == b'x' then m else none

-- `FindStringSubmatch`: a digit is no `x` and no unit begins with one, so the first way is the only.
unfoldable pub match_bucket : Text → Option Match
unfolding match_x span_digits
match_bucket s = let (digits, rest) = span_digits s in match_x digits rest

unfoldable pub digits_value : ℕ → Text → ℕ
digits_value acc [] = acc
digits_value acc (c ∷ s) = digits_value (acc * 10 + (c - b'0')) s

-- `strconv.ParseInt` of a nonempty run of digits; `none` is its range error.
unfoldable pub parse_int : ℕ → Text → Option ℕ
unfolding digits_value
parse_int bound s = let n = digits_value 0 s in if leb n bound then some n else none

abbrev pub unit_span : Text → ℕ
unit_span name = get_or name grid_units 0

abbrev pub positive : Option ℕ → ℕ
positive none = 0
positive (some n) = n

-- One round of the parsing loop, behind the match; a range error and a zero are refused alike.
unfoldable pub parse_bucket : ℕ → Match → Result GridError Bucket
parse_bucket horizon m = do
  let count = positive (parse_int max_int32 m.count_text)
  refuse (count == 0) (invalid_count m.count_text)
  let amount = positive (parse_int max_int64 m.amount_text)
  let unit = unit_span m.unit_text
  refuse (amount == 0 || ltb (max_int64 / unit) amount)
      (invalid_duration (m.amount_text ++ m.unit_text))
  let span = amount * unit
  refuse (ltb ((max_int64 - horizon) / span) count) horizon_overflow
  ok (record { count = count; span = span })

unfoldable pub parse_part : ℕ → Text → Result GridError Bucket
parse_part horizon part = elim (match_bucket (trim_space part)) [
  | none ↦ err (invalid_bucket part)
  | some m ↦ parse_bucket horizon m
]

-- The parsing loop, with the horizon so far: the buckets in written order, and the horizon.
unfoldable pub parse_parts : ℕ → List Text → Result GridError (List Bucket × ℕ)
parse_parts horizon [] = ok ([], horizon)
parse_parts horizon (part ∷ parts) = parse_part horizon part >>= λ b.
    parse_parts (horizon + b.count * b.span) parts >>= λ r. ok (b ∷ r.0, r.1)

abbrev pub insert_bucket : Bucket → List Bucket → List Bucket
insert_bucket b [] = b ∷ []
insert_bucket b (c ∷ cs) =
    let rest = insert_bucket b cs in if leb b.span c.span then b ∷ c ∷ cs else c ∷ rest

-- `sort.Slice` by span. It may order equal spans otherwise, which the merge makes one.
unfoldable pub sort_buckets : List Bucket → List Bucket
sort_buckets [] = []
sort_buckets (b ∷ bs) = insert_bucket b (sort_buckets bs)

-- The merge loop, with the last merged bucket in hand.
unfoldable pub merge_from : Bucket → List Bucket → List Bucket
merge_from b [] = b ∷ []
merge_from b (c ∷ cs) =
    let rest =
      merge_from (if b.span == c.span then record b { count = b.count + c.count } else c) cs in
    if b.span == c.span then rest else b ∷ rest

unfoldable pub merge_buckets : List Bucket → List Bucket
merge_buckets [] = []
merge_buckets (b ∷ bs) = merge_from b bs

-- `%d` of a number. The number itself is fuel enough for its digits.
unfoldable pub decimal_from : ℕ → ℕ → Text
decimal_from zero n = []
decimal_from (suc fuel) n =
    let ahead = decimal_from fuel (n / 10) in
    if ltb n 10 then (n + b'0') ∷ [] else ahead ++ (n % 10 + b'0') ∷ []

unfoldable pub decimal : ℕ → Text
unfolding decimal_from
decimal n = decimal_from (suc n) n

-- A bucket is printed in the first unit that divides its span, and is left out if none does.
unfoldable pub print_bucket : List (Text × ℕ) → Bucket → Option Text
print_bucket [] b = none
print_bucket ((name, unit) ∷ units) b =
    let rest = print_bucket units b in
    if b.span % unit == 0
    then some (decimal b.count ++ b'x' ∷ (decimal (b.span / unit) ++ name))
    else rest

unfoldable pub canonical : List Bucket → List Text
canonical [] = []
canonical (b ∷ bs) = elim (print_bucket grid_units b) [
  | none ↦ canonical bs
  | some t ↦ t ∷ canonical bs
]

abbrev pub grid_of : List Bucket → ℕ → Grid
grid_of buckets horizon = record {
  buckets = buckets;
  text = join b',' (canonical buckets);
  horizon = horizon;
}

unfoldable pub parse_grid : Text → Result GridError Grid
parse_grid value =
    parse_parts 0 (split b',' value) >>= λ r. ok (grid_of (merge_buckets (sort_buckets r.0)) r.1)

unfoldable pub cadence : Grid → ℕ
cadence g = elim g.buckets [ [] ↦ 0 | b ∷ bs ↦ b.span ]
