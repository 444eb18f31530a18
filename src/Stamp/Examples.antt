-- ===== src/Stamp/Examples.antt =====
-- Stamps.
use boomerangz.Base.{◌≡◌, refl, none, some, [], Text, text_key, ℕ_key, codes}
use boomerangz.Stamp.{parse_stamp, format_stamp}

abbrev reprinted : Text → Text
reprinted s = elim (parse_stamp s) [ none ↦ [] | some t ↦ format_stamp t ]

leap_day : reprinted (codes "20240229T235959.123456789Z") ≡ codes "20240229T235959.123456789Z"
unfolding parse_stamp format_stamp
leap_day = refl

century_end : reprinted (codes "20001231T000000.000000001Z") ≡ codes "20001231T000000.000000001Z"
unfolding parse_stamp format_stamp
century_end = refl

late : reprinted (codes "99991231T235959.999999999Z") ≡ codes "99991231T235959.999999999Z"
unfolding parse_stamp format_stamp
late = refl

no_leap_day : parse_stamp (codes "21000229T000000.000000000Z") ≡ none
unfolding parse_stamp
no_leap_day = refl
