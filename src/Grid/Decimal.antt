-- ===== src/Grid/Decimal.antt =====
-- Decimal numbers, printed and read, and the match of a printed bucket.
use boomerangz.Base.{
  ℕ, zero, suc, ◌+◌, ◌-◌, ◌*◌, ◌/◌, ◌%◌, ◌<◌, ◌≡◌, refl, ap, ◌∙◌, inl, inr, Bool, true, false, not,
  some, [], ◌∷◌, ◌++◌, arith, ltb, Bool-cases, Text, text_key, ℕ_key, is_nil, every,
}
use boomerangz.Strings.{is_space, trim_space, trim_left, trim_right}
use boomerangz.Grid.{
  is_digit, span_digits, digits_value, decimal, decimal_from, match_bucket, match_x, match_amount,
  is_unit,
}

pub every-append :
    (p : ℕ → Bool) (s t : Text) → every p s ≡ true → every p t ≡ true → every p (s ++ t) ≡ true
every-append p [] t h k = k
every-append p (c ∷ s) t h k = ground (arith, every-append p s t)

digits_value-append :
    (acc : ℕ) (s t : Text) → digits_value acc (s ++ t) ≡ digits_value (digits_value acc s) t
unfolding digits_value
digits_value-append acc [] t = refl
digits_value-append acc (c ∷ s) t = digits_value-append (acc * 10 + (c - b'0')) s t

decimal_from-value : (fuel n : ℕ) → n < fuel → digits_value 0 (decimal_from fuel n) ≡ n
unfolding decimal_from
decimal_from-value zero n h = absurd (omega arith)
decimal_from-value (suc fuel) n h = elim (Bool-cases (ltb n 10)) [
  | inl short ↦ rw short (unfold digits_value in omega arith)
  | inr long ↦
      rw (long, digits_value-append 0 (decimal_from fuel (n / 10)) ((n % 10 + b'0') ∷ []))
        (rw (decimal_from-value fuel (n / 10) (ground arith)) (unfold digits_value in omega arith))
]

decimal_from-digits : (fuel n : ℕ) → every is_digit (decimal_from fuel n) ≡ true
unfolding decimal_from
decimal_from-digits zero n = refl
decimal_from-digits (suc fuel) n = ground (
  arith,
  decimal_from-digits fuel (n / 10),
  every-append is_digit (decimal_from fuel (n / 10)) ((n % 10 + b'0') ∷ []),
)

is_nil-append_cons : (s : Text) (c : ℕ) (t : Text) → is_nil (s ++ c ∷ t) ≡ false
is_nil-append_cons [] c t = refl
is_nil-append_cons (d ∷ s) c t = refl

-- A printed number consists of digits, is not empty, and reads back as the number.
pub decimal-value : (n : ℕ) → digits_value 0 (decimal n) ≡ n
unfolding decimal
decimal-value n = decimal_from-value (suc n) n (omega arith)

pub decimal-digits : (n : ℕ) → every is_digit (decimal n) ≡ true
unfolding decimal
decimal-digits n = decimal_from-digits (suc n) n

pub decimal-nonempty : (n : ℕ) → is_nil (decimal n) ≡ false
unfolding decimal
decimal-nonempty n = ground (arith, is_nil-append_cons (decimal_from n (n / 10)) (n % 10 + b'0') [])

span_digits-append :
    (digits : Text) (c : ℕ) (rest : Text)
    → every is_digit digits ≡ true
    → is_digit c ≡ false
    → span_digits (digits ++ c ∷ rest) ≡ (digits, c ∷ rest)
unfolding span_digits
span_digits-append [] c rest h k = ground arith
span_digits-append (d ∷ digits) c rest h k = ground (arith, span_digits-append digits c rest)

-- A text of the bucket's form is matched to its parts.
pub match_bucket-form :
    (n a : Text) (c : ℕ) (cs : Text)
    → every is_digit n ≡ true
    → every is_digit a ≡ true
    → is_nil n ≡ false
    → is_nil a ≡ false
    → is_digit c ≡ false
    → is_unit (c ∷ cs) ≡ true
    → match_bucket (n ++ b'x' ∷ (a ++ c ∷ cs))
      ≡ some (record { count_text = n; amount_text = a; unit_text = c ∷ cs })
unfolding match_bucket match_x match_amount
match_bucket-form n a c cs dn da en ea dc u =
    ground (
      arith,
      span_digits-append n b'x' (a ++ c ∷ cs) dn,
      span_digits-append a c cs da dc,
      en,
      ea,
      u,
    )

-- A text without spaces is trimmed to itself.
pub trim_space_self : (s : Text) → every (λ c. not (is_space c)) s ≡ true → trim_space s ≡ s
trim_space_self s h = ap trim_right (left s h) ∙ right s h
  where
    left : (t : Text) → every (λ c. not (is_space c)) t ≡ true → trim_left t ≡ t
    left [] k = refl
    left (c ∷ t) k = ground (arith, left t)

    right : (t : Text) → every (λ c. not (is_space c)) t ≡ true → trim_right t ≡ t
    right [] k = refl
    right (c ∷ []) k = ground arith
    right (c ∷ d ∷ t) k = ground (arith, right (d ∷ t))
