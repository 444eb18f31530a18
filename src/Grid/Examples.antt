-- ===== src/Grid/Examples.antt =====
-- Grids.
use boomerangz.Base.{ℕ, ◌*◌, ◌≡◌, refl, [], ◌∷◌, Text, text_dec, text_key, ℕ_key, codes}
use mathlib.Core.List.{Permᴰ}
use boomerangz.Grid.Parsed.{IsGrid, parse_grid-IsGrid}
use boomerangz.Grid.Order.{parse_grid-order}
use boomerangz.Grid.RoundTrip.{parse_grid-text}
use boomerangz.Base.Result.{Result, ok, err}
use boomerangz.Strings.{is_space}
use boomerangz.Grid.{
  parse_bucket, parse_int, is_unit, parse_grid, Grid, GridError, grid_of, minute, parse_parts,
  parse_part, match_bucket, sort_buckets, merge_buckets, merge_from, canonical, print_bucket,
  decimal,
}

abbrev text_of : Result GridError Grid → Text
text_of (ok g) = g.text
text_of (err e) = []

default_text : text_of (parse_grid (codes "14x1d, 12x5m,24x60m,2x1d")) ≡ codes "12x5m,24x1h,16x1d"
unfolding parse_grid parse_parts parse_part sort_buckets merge_buckets merge_from canonical
    print_bucket decimal text_dec is_space match_bucket parse_bucket parse_int is_unit
default_text = refl

abbrev day : ℕ
day = 24 * 60 * minute

abbrev two_tiers : Grid
two_tiers =
    grid_of (record { count = 24; span = 60 * minute } ∷ record { count = 16; span = day } ∷ [])
      (17 * day)

day_hours : parse_grid (codes "16x1d,24x60m") ≡ ok two_tiers
unfolding parse_grid parse_parts parse_part sort_buckets merge_buckets merge_from canonical
    print_bucket decimal text_dec is_space match_bucket parse_bucket parse_int is_unit
day_hours = refl

hours_day : parse_grid (codes "24x60m,16x1d") ≡ ok two_tiers
unfolding parse_grid parse_parts parse_part sort_buckets merge_buckets merge_from canonical
    print_bucket decimal text_dec is_space match_bucket parse_bucket parse_int is_unit
hours_day = refl

parse_grid-IsGrid_example : IsGrid two_tiers
parse_grid-IsGrid_example = parse_grid-IsGrid (codes "16x1d,24x60m") day_hours

parse_grid-order_example : two_tiers ≡ two_tiers
parse_grid-order_example =
    parse_grid-order (codes "16x1d,24x60m") (codes "24x60m,16x1d") day_hours hours_day
      ∣ Permᴰ.swap {l = []} refl refl ∣₁

parse_grid-text_example : parse_grid two_tiers.text ≡ ok two_tiers
parse_grid-text_example = parse_grid-text (codes "16x1d,24x60m") day_hours

too_long : parse_grid (codes "2000000000x1y") ≡ err GridError.horizon_overflow
unfolding parse_grid parse_parts parse_part sort_buckets merge_buckets merge_from canonical
    print_bucket decimal text_dec is_space match_bucket parse_bucket parse_int is_unit
too_long = refl
