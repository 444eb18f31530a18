-- ===== src/Grid/Printing.antt =====
-- The text of one bucket, and what the parser makes of it.
use boomerangz.Base.{
  ℕ, ◌+◌, ◌-◌, ◌*◌, ◌/◌, ◌%◌, ◌≤◌, ◌<◌, ◌≡◌, refl, sym, ap, subst, inl, inr, Bool, true, false, not,
  ◌||◌, some, List, [], ◌∷◌, ◌++◌, arith, ◌==◌, Bool-cases, Text, text_key, ℕ_key, any, every, All,
}
use native.Mathlib.Nat.{
  le-div_iff_mul-le, mul-le-mul_left, mul-le-mul_right, div-le_self, div-add-mod',
}
use boomerangz.Base.Result.{ok}
use boomerangz.Strings.{trim_space, is_space}
use boomerangz.Grid.{
  Bucket, Match, is_digit, is_unit, grid_units, minute, max_int64, max_int32, decimal, print_bucket,
  match_bucket, parse_int, parse_bucket, parse_part, positive,
}
use boomerangz.Grid.Decimal.{
  every-append, decimal-value, decimal-digits, decimal-nonempty, match_bucket-form, trim_space_self,
}
use boomerangz.Grid.Parsed.{IsSound}
use boomerangz.Grid.Units.{IsGridUnit, known_units}

abbrev pub text_in : Text → ℕ → Bucket → Text
text_in name unit b = decimal b.count ++ b'x' ∷ (decimal (b.span / unit) ++ name)

-- The unit that a bucket is printed in.
pub record IsPrinted (units : List (Text × ℕ)) (b : Bucket) : Type 0 where
  pub name : Text
  pub unit : ℕ
  pub of_unit : IsGridUnit name unit
  pub divides : b.span % unit ≡ 0
  pub prints : print_bucket units b ≡ some (text_in name unit b)

print_bucket_some :
    (units : List (Text × ℕ)) (b : Bucket)
    → All (λ (u : Text × ℕ). IsGridUnit u.0 u.1) units
    → any (λ (u : Text × ℕ). b.span % u.1 == 0) units ≡ true
    → IsPrinted units b
unfolding print_bucket
print_bucket_some [] b k h = cc
print_bucket_some ((name, unit) ∷ units) b k h = elim (Bool-cases (b.span % unit == 0)) [
  | inl fits ↦ record {
    name = name;
    unit = unit;
    of_unit = k.0;
    divides = ground arith;
    prints = rw fits;
  }
  | inr longer ↦
      let r = print_bucket_some units b k.1 (ground arith) in
      record {
        name = r.name;
        unit = r.unit;
        of_unit = r.of_unit;
        divides = r.divides;
        prints = rw longer r.prints;
      }
]

-- A sound bucket is a whole number of minutes, so some unit divides it.
pub printed : (b : Bucket) → IsSound b → IsPrinted grid_units b
printed b s = print_bucket_some grid_units b known_units (ground (arith, s.whole_minutes))

digits_unspaced : (s : Text) → every is_digit s ≡ true → every (λ c. not (is_space c)) s ≡ true
unfolding is_space
digits_unspaced [] h = refl
digits_unspaced (c ∷ s) h = ground (arith, digits_unspaced s)

any-append : (p : ℕ → Bool) (s t : Text) → any p (s ++ t) ≡ (any p s || any p t)
any-append p [] t = refl
any-append p (c ∷ s) t = ground (arith, any-append p s t)

digits_no_comma : (s : Text) → every is_digit s ≡ true → any (λ c. c == b',') s ≡ false
digits_no_comma [] h = refl
digits_no_comma (c ∷ s) h = ground (arith, digits_no_comma s)

x_is_fine : is_space b'x' ≡ false
unfolding is_space
x_is_fine = refl

module _ (b : Bucket) {name : Text} {unit : ℕ} (u : IsGridUnit name unit) where
  text_in-unspaced : every (λ c. not (is_space c)) (text_in name unit b) ≡ true
  text_in-unspaced =
      every-append (λ c. not (is_space c)) (decimal b.count)
        (b'x' ∷ (decimal (b.span / unit) ++ name))
        (digits_unspaced (decimal b.count) (decimal-digits b.count))
        (ground (
          arith,
          x_is_fine,
          every-append (λ c. not (is_space c)) (decimal (b.span / unit)) name
              (digits_unspaced (decimal (b.span / unit)) (decimal-digits (b.span / unit)))
              u.unspaced,
        ))

  pub text_in-no_comma : any (λ c. c == b',') (text_in name unit b) ≡ false
  text_in-no_comma = ground (
    arith,
    any-append (λ c. c == b',') (decimal b.count) (b'x' ∷ (decimal (b.span / unit) ++ name)),
    any-append (λ c. c == b',') (decimal (b.span / unit)) name,
    digits_no_comma (decimal b.count) (decimal-digits b.count),
    digits_no_comma (decimal (b.span / unit)) (decimal-digits (b.span / unit)),
    u.no_comma,
  )

  match_of : Match
  match_of = record {
    count_text = decimal b.count;
    amount_text = decimal (b.span / unit);
    unit_text = name;
  }

  match_bucket-text_in : match_bucket (trim_space (text_in name unit b)) ≡ some match_of
  unfolding match_of
  match_bucket-text_in = rw (trim_space_self (text_in name unit b) text_in-unspaced) (
      subst
        (λ n.
          match_bucket (decimal b.count ++ b'x' ∷ (decimal (b.span / unit) ++ n))
          ≡ some (record {
            count_text = decimal b.count;
            amount_text = decimal (b.span / unit);
            unit_text = n;
          }))
        (sym u.spelled)
        (match_bucket-form (decimal b.count) (decimal (b.span / unit)) u.head u.letters
          (decimal-digits b.count) (decimal-digits (b.span / unit)) (decimal-nonempty b.count)
          (decimal-nonempty (b.span / unit)) u.no_digit
          (subst (λ n. is_unit n ≡ true) u.spelled u.known)))

parse_int-decimal : (bound n : ℕ) → n ≤ bound → positive (parse_int bound (decimal n)) ≡ n
unfolding parse_int
parse_int-decimal bound n h = ground (arith, decimal-value n)

-- The numbers of a bucket that fits are within the parser's limits.
pub record IsWithin (horizon : ℕ) (b : Bucket) (unit : ℕ) : Type 0 where
  pub few : b.count ≤ max_int32
  pub amount : b.span / unit ≤ max_int64
  pub duration : b.span / unit ≤ max_int64 / unit
  pub whole : b.span / unit * unit ≡ b.span
  pub some_time : 0 < b.span / unit
  pub room : b.count ≤ (max_int64 - horizon) / b.span

zero_of : {n : ℕ} → (n == 0) ≡ true → n ≡ 0
zero_of h = ground arith

pub within :
    (horizon : ℕ) (b : Bucket) (unit : ℕ)
    → IsSound b
    → 0 < unit
    → b.span % unit ≡ 0
    → horizon + b.count * b.span ≤ max_int64
    → IsWithin horizon b unit
within horizon b unit s u d fits =
    let whole : b.span / unit * unit ≡ b.span = omega (arith, div-add-mod' b.span unit, d) in
    let long : minute ≤ b.span = omega (arith, s.whole_minutes, s.lasting) in
    let once : b.span ≤ b.count * b.span =
      grind (arith, mul-le-mul_right {m = 1} {n = b.count} b.span s.counted) in
    record {
      few = omega (arith, mul-le-mul_left {m = minute} {n = b.span} b.count long, fits);
      amount = omega (arith, div-le_self b.span unit, once, fits);
      duration = (le-div_iff_mul-le u).1 (omega (arith, whole, once, fits));
      whole = whole;
      some_time = elim (Bool-cases (b.span / unit == 0)) [
        | inl zero_amount ↦
            omega (arith, whole, s.lasting, ap (λ (t : ℕ). t * unit) (zero_of zero_amount))
        | inr some_amount ↦ ground arith
      ];
      room = (le-div_iff_mul-le s.lasting).1 (omega (arith, fits));
    }

module _ (horizon : ℕ) (b : Bucket) {name : Text} {unit : ℕ} (u : IsGridUnit name unit)
    (w : IsWithin horizon b unit) (s : IsSound b) where
  parse_bucket-match_of : parse_bucket horizon (match_of b u) ≡ ok b
  unfolding parse_bucket match_of
  parse_bucket-match_of = ground (
    arith,
    parse_int-decimal max_int32 b.count w.few,
    parse_int-decimal max_int64 (b.span / unit) w.amount,
    u.spans,
    w.duration,
    w.whole,
    w.some_time,
    w.room,
    s.counted,
  )

  pub parse_part-text_in : parse_part horizon (text_in name unit b) ≡ ok b
  unfolding parse_part
  parse_part-text_in = ground (arith, match_bucket-text_in b u, parse_bucket-match_of)
