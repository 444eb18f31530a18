-- ===== src/Grid/Units.antt =====
-- The units of a grid, as the printer and the parser meet them.
use boomerangz.Base.{
  ℕ, ◌<◌, ◌≡◌, refl, true, false, not, [], ◌∷◌, arith, ◌==◌, Text, text_dec, text_key, ℕ_key, codes,
  any, every, All,
}
use boomerangz.Strings.{is_space}
use boomerangz.Grid.{is_digit, is_unit, unit_span, grid_units}

-- What the text of a bucket needs of its unit.
pub record IsGridUnit (name : Text) (unit : ℕ) : Type 0 where
  pub head : ℕ
  pub letters : Text
  pub spelled : name ≡ head ∷ letters
  pub no_digit : is_digit head ≡ false
  pub known : is_unit name ≡ true
  pub spans : unit_span name ≡ unit
  pub lasts : 0 < unit
  pub unspaced : every (λ c. not (is_space c)) name ≡ true
  pub no_comma : any (λ c. c == b',') name ≡ false

pub known_units : All (λ (u : Text × ℕ). IsGridUnit u.0 u.1) grid_units
unfolding is_unit is_space text_dec
known_units = (
  record {
    head = b'y';
    letters = [];
    spelled = refl;
    no_digit = refl;
    known = refl;
    spans = refl;
    lasts = omega arith;
    unspaced = refl;
    no_comma = refl;
  },
  (
    record {
      head = b'm';
      letters = codes "o";
      spelled = refl;
      no_digit = refl;
      known = refl;
      spans = refl;
      lasts = omega arith;
      unspaced = refl;
      no_comma = refl;
    },
    (
      record {
        head = b'w';
        letters = [];
        spelled = refl;
        no_digit = refl;
        known = refl;
        spans = refl;
        lasts = omega arith;
        unspaced = refl;
        no_comma = refl;
      },
      (
        record {
          head = b'd';
          letters = [];
          spelled = refl;
          no_digit = refl;
          known = refl;
          spans = refl;
          lasts = omega arith;
          unspaced = refl;
          no_comma = refl;
        },
        (
          record {
            head = b'h';
            letters = [];
            spelled = refl;
            no_digit = refl;
            known = refl;
            spans = refl;
            lasts = omega arith;
            unspaced = refl;
            no_comma = refl;
          },
          (
            record {
              head = b'm';
              letters = [];
              spelled = refl;
              no_digit = refl;
              known = refl;
              spans = refl;
              lasts = omega arith;
              unspaced = refl;
              no_comma = refl;
            },
            tt,
          ),
        ),
      ),
    ),
  ),
)
