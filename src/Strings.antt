-- ===== src/Strings.antt =====
-- What the program uses of Go's packages `strings` and `unicode`, over lists of code points.
pub mod Laws
use boomerangz.Base.{
  ℕ, Bool, true, false, ◌||◌, ◌&&◌, List, [], ◌∷◌, ◌++◌, Option, none, some, Text, if◌then◌else◌,
  ◌==◌, leb, any,
}

abbrev pub slash : ℕ
slash = b'/'

abbrev pub has_prefix : Text → Text → Bool
has_prefix s [] = true
has_prefix [] (p ∷ ps) = false
has_prefix (c ∷ s) (p ∷ ps) = c == p && has_prefix s ps

abbrev pub drop_as : Text → Text → Text
drop_as s [] = s
drop_as [] (p ∷ ps) = []
drop_as (c ∷ s) (p ∷ ps) = drop_as s ps

abbrev pub trim_prefix : Text → Text → Text
trim_prefix s p = if has_prefix s p then drop_as s p else s

abbrev pub contains_any : Text → List ℕ → Bool
contains_any s cs = any (λ c. any (λ d. c == d) cs) s

-- `strings.Cut` at one character: what stands before and after it, where it occurs.
abbrev pub cut : ℕ → Text → Option (Text × Text)
cut sep [] = none
cut sep (c ∷ s) =
    let rest = cut sep s in
    if c == sep then some ([], s) else elim rest [ none ↦ none | some (a, b) ↦ some (c ∷ a, b) ]

abbrev pub cons_head : ℕ → List Text → List Text
cons_head c [] = (c ∷ []) ∷ []
cons_head c (w ∷ ws) = (c ∷ w) ∷ ws

-- `strings.Split` at one character.
abbrev pub split : ℕ → Text → List Text
split sep [] = [] ∷ []
split sep (c ∷ s) = let rest = split sep s in if c == sep then [] ∷ rest else cons_head c rest

abbrev pub join : ℕ → List Text → Text
join sep [] = []
join sep (w ∷ []) = w
join sep (w ∷ v ∷ ws) = w ++ sep ∷ join sep (v ∷ ws)

-- What stands behind the last `sep`, or the whole text: `s[strings.LastIndexByte(s, sep)+1:]`.
abbrev pub after_last : ℕ → Text → Text
after_last sep [] = []
after_last sep (c ∷ s) =
    let later = after_last sep s in
    if any (λ d. d == sep) s then later else if c == sep then s else c ∷ s

unfoldable pub is_space : ℕ → Bool
is_space c =
    leb 0x09 c && leb c 0x0d
    || c == 0x20
    || c == 0x85
    || c == 0xa0
    || c == 0x1680
    || leb 0x2000 c && leb c 0x200a
    || c == 0x2028
    || c == 0x2029
    || c == 0x202f
    || c == 0x205f
    || c == 0x3000

unfoldable pub is_control : ℕ → Bool
is_control c = leb c 0x1f || leb 0x7f c && leb c 0x9f

abbrev pub trim_left : Text → Text
trim_left [] = []
trim_left (c ∷ s) = if is_space c then trim_left s else c ∷ s

-- A space is dropped where only spaces follow it.
abbrev pub keep_right : ℕ → Text → Text
keep_right c [] = if is_space c then [] else c ∷ []
keep_right c (d ∷ r) = c ∷ d ∷ r

abbrev pub trim_right : Text → Text
trim_right [] = []
trim_right (c ∷ s) = keep_right c (trim_right s)

-- `strings.TrimSpace`.
abbrev pub trim_space : Text → Text
trim_space s = trim_right (trim_left s)
