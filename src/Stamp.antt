-- ===== src/Stamp.antt =====
-- The creation time in a snapshot's name: Go's layout 20060102T150405.000000000Z of
-- internal/lifecycle/ownership.go, as package time parses and prints it.
-- A time is the number of nanoseconds since the first instant of the year 1, Go's zero time.
mod Examples
use boomerangz.Base.{
  is_none, ℕ, zero, suc, ◌+◌, ◌-◌, ◌*◌, ◌/◌, ◌%◌, ◌^◌, ◌≤◌, ◌<◌, ◌≡◌, refl, sym, ap, ◌∙◌, subst,
  ◌≢◌, ◌↔◌, ◌⊎◌, inl, inr, Bool, true, false, not, ◌&&◌, ◌||◌, Option, none, some, List, [], ◌∷◌,
  ◌++◌, map, append_assoc, append-nil, arith, ltb, leb, ◌==◌, if◌then◌else◌, Bool-cases,
  Option-cases, Text, Key, text_dec, text_key, ℕ_key, ◌=?◌, codes, length, is_nil, length-append,
  keep, any, every, All, All-append, contains, remove, IsNodup, contains-append, contains-remove,
  IsNodup-remove, IsNodup-snoc,
}

abbrev pub second : ℕ
second = 1000000000

abbrev pub day_seconds : ℕ
day_seconds = 86400

abbrev pub is_leap : ℕ → Bool
is_leap year = year % 4 == 0 && (not (year % 100 == 0) || year % 400 == 0)

abbrev pub month_days : ℕ → List ℕ
month_days year =
    31 ∷ (if is_leap year then 29 else 28) ∷ 31 ∷ 30 ∷ 31 ∷ 30 ∷ 31 ∷ 31 ∷ 30 ∷ 31 ∷ 30 ∷ 31 ∷ []

abbrev pub days_before_year : ℕ → ℕ
days_before_year year = let y = year - 1 in y * 365 + y / 4 - y / 100 + y / 400

-- The days before a month, and the days in it; `none` out of range.
unfoldable pub month_start : ℕ → List ℕ → Option (ℕ × ℕ)
month_start month [] = none
month_start month (n ∷ ns) =
    let later = month_start (month - 1) ns in
    if month == 0
    then none
    else if month == 1
    then some (0, n)
    else elim later [ none ↦ none | some (before, days) ↦ some (n + before, days) ]

-- The month of a day of the year, and the day of that month.
unfoldable pub month_of : ℕ → ℕ → List ℕ → ℕ × ℕ
month_of month day [] = (month, day)
month_of month day (n ∷ ns) =
    let later = month_of (suc month) (day - n) ns in if ltb day n then (month, suc day) else later

-- `getnum` of fixed width: so many digits, and the rest.
unfoldable pub take_digits : ℕ → ℕ → Text → Option (ℕ × Text)
take_digits zero acc s = some (acc, s)
take_digits (suc n) acc [] = none
take_digits (suc n) acc (c ∷ s) =
    let rest = take_digits n (acc * 10 + (c - b'0')) s in
    if leb b'0' c && leb c b'9' then rest else none

unfoldable pub take_char : (ℕ → Bool) → Text → Option Text
take_char p [] = none
take_char p (c ∷ s) = if p c then some s else none

-- The fields of a stamp, as they are written.
pub record Fields : Type 0 where
  pub year : ℕ
  pub month : ℕ
  pub day : ℕ
  pub hour : ℕ
  pub minutes : ℕ
  pub seconds : ℕ
  pub nanos : ℕ

infixl 5 ◌>>=◌
abbrev ◌>>=◌ : {A B : Type 0} → Option A → (A → Option B) → Option B
none >>= f = none
some a >>= f = f a

all_read : Text → Fields → Option Fields
all_read s f = if is_nil s then some f else none

-- Go takes a comma where the layout has a point.
unfoldable pub read_fields : Text → Option Fields
unfolding take_digits take_char all_read
read_fields s = do
  (year, s) ← take_digits 4 0 s
  (month, s) ← take_digits 2 0 s
  (day, s) ← take_digits 2 0 s
  s ← take_char (λ c. c == b'T') s
  (hour, s) ← take_digits 2 0 s
  (minutes, s) ← take_digits 2 0 s
  (seconds, s) ← take_digits 2 0 s
  s ← take_char (λ c. c == b'.' || c == b',') s
  (nanos, s) ← take_digits 9 0 s
  s ← take_char (λ c. c == b'Z') s
  all_read s (record {
    year = year;
    month = month;
    day = day;
    hour = hour;
    minutes = minutes;
    seconds = seconds;
    nanos = nanos;
  })

abbrev pub days_of : ℕ → ℕ → ℕ → ℕ
days_of year before day = days_before_year year + before + (day - 1)

-- `time.Parse`: the fields in range, as an instant. The year 0 lies before the zero time, so the
-- caller's test of the year is made here.
unfoldable pub instant_of : Fields → Option ℕ
unfolding month_start
instant_of f = elim (month_start f.month (month_days f.year)) [
  | none ↦ none
  | some (before, days) ↦
      if f.day == 0
        || ltb days f.day
        || leb 24 f.hour
        || leb 60 f.minutes
        || leb 60 f.seconds
        || f.year == 0
      then none
      else some (
          (days_of f.year before f.day * day_seconds + f.hour * 3600 + f.minutes * 60 + f.seconds)
            * second
          + f.nanos)
]

unfoldable pub parse_stamp : Text → Option ℕ
unfolding read_fields instant_of
parse_stamp s = read_fields s >>= instant_of

-- The civil date of a day, the way package time computes it from cycles of 400, 100, 4 and 1 years.
abbrev pub year_and_day : ℕ → ℕ × ℕ
year_and_day days =
    let cycles = days / 146097 in
    let days = days % 146097 in
    let n = days / 36524 in
    let centuries = n - n / 4 in
    let days = days - 36524 * centuries in
    let fours = days / 1461 in
    let days = days % 1461 in
    let m = days / 365 in
    let years = m - m / 4 in
    (suc (cycles * 400 + centuries * 100 + fours * 4 + years), days - 365 * years)

unfoldable pub fields_of : ℕ → Fields
unfolding month_of
fields_of instant =
    let seconds = instant / second in
    let clock = seconds % day_seconds in
    let (year, yday) = year_and_day (seconds / day_seconds) in
    let (month, day) = month_of 1 yday (month_days year) in
    record {
      year = year;
      month = month;
      day = day;
      hour = clock / 3600;
      minutes = clock % 3600 / 60;
      seconds = clock % 60;
      nanos = instant % second;
    }

-- A number in so many digits, with leading zeros.
unfoldable pub digits : ℕ → ℕ → Text
digits zero n = []
digits (suc width) n = digits width (n / 10) ++ (n % 10 + b'0') ∷ []

unfoldable pub print_fields : Fields → Text
unfolding digits
print_fields f =
    digits 4 f.year
    ++ digits 2 f.month
    ++ digits 2 f.day
    ++ b'T' ∷ digits 2 f.hour
    ++ digits 2 f.minutes
    ++ digits 2 f.seconds
    ++ b'.' ∷ digits 9 f.nanos
    ++ b'Z' ∷ []

-- `Format` of a time up to the year 9999.
unfoldable pub format_stamp : ℕ → Text
unfolding print_fields fields_of
format_stamp instant = print_fields (fields_of instant)
