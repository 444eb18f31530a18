-- ===== src/Names.antt =====
-- internal/zfs/name.go, the receive mapping of internal/zfs/stream.go, and the tests on dataset
-- paths that the packages daemon, lifecycle, discovery and transfer each write out.
pub mod Paths
pub mod Validity
pub mod Accepted
pub mod Mapping
mod Examples
use boomerangz.Base.{
  ℕ, zero, suc, ◌+◌, ◌-◌, ◌*◌, ◌/◌, ◌%◌, ◌^◌, ◌≤◌, ◌<◌, ◌≡◌, refl, sym, ap, ◌∙◌, subst, ◌≢◌, ◌↔◌,
  ◌⊎◌, inl, inr, Bool, true, false, not, ◌&&◌, ◌||◌, Option, none, some, List, [], ◌∷◌, ◌++◌, map,
  append_assoc, append-nil, arith, ltb, leb, ◌==◌, if◌then◌else◌, Bool-cases, Option-cases, Text,
  Key, text_dec, text_key, ℕ_key, ◌=?◌, codes, length, is_nil, length-append, keep, any, every, All,
  All-append, contains, remove, IsNodup, contains-append, contains-remove, IsNodup-remove,
  IsNodup-snoc,
}
use boomerangz.Base.Result.{Result, ok, err, ◌>>=◌, ◌>>◌, refuse, is_ok}
use boomerangz.Strings.{
  slash, has_prefix, contains_any, cut, split, after_last, is_space, is_control,
}

pub data NameError : Type 0 where
  invalid_dataset invalid_snapshot invalid_bookmark invalid_component : Text → NameError
  invalid_discard : NameError

-- A component that would name nothing, the directory itself or its parent.
abbrev pub is_bad_part : Text → Bool
is_bad_part part = is_nil part || part =? codes "." || part =? codes ".."

abbrev pub is_bad_rune : ℕ → Bool
is_bad_rune r = is_space r || is_control r

check_parts : Text → List Text → Result NameError (Unit {0})
check_parts name [] = ok tt
check_parts name (part ∷ parts) =
    let rest = check_parts name parts in
    if is_bad_part part then err (invalid_dataset name) else rest

check_runes : NameError → Text → Result NameError (Unit {0})
check_runes error [] = ok tt
check_runes error (r ∷ name) =
    let rest = check_runes error name in if is_bad_rune r then err error else rest

unfoldable pub validate_dataset : Text → Result NameError (Unit {0})
unfolding check_parts check_runes
validate_dataset name = do
  refuse
      (is_nil name
        || has_prefix name (codes "/")
        || has_prefix name (codes "-")
        || contains_any name (codes "@#"))
      (invalid_dataset name)
  check_parts name (split slash name)
  check_runes (invalid_dataset name) name

unfoldable pub validate_component : Text → Result NameError (Unit {0})
unfolding check_runes
validate_component name = do
  refuse (is_nil name || contains_any name (codes "/@#")) (invalid_component name)
  check_runes (invalid_component name) name

-- The parts that `strings.Cut` gives where the separator is missing are not read.
unfoldable pub validate_snapshot : Text → Result NameError (Unit {0})
unfolding validate_dataset validate_component
validate_snapshot name = elim (cut b'@' name) [
  | none ↦ err (invalid_snapshot name)
  | some (dataset, snapshot) ↦
      refuse (contains_any snapshot (codes "@,%")) (invalid_snapshot name)
      >> (validate_dataset dataset >> validate_component snapshot)
]

unfoldable pub validate_bookmark : Text → Result NameError (Unit {0})
unfolding validate_dataset validate_component
validate_bookmark name = elim (cut b'#' name) [
  | none ↦ err (invalid_bookmark name)
  | some (dataset, bookmark) ↦
      refuse (contains_any bookmark (codes "#")) (invalid_bookmark name)
      >> (validate_dataset dataset >> validate_component bookmark)
]

-- `inside` of transfer/plan.go: the dataset is the root or lies below it.
unfoldable pub inside : Text → Text → Bool
inside name root = name =? root || has_prefix name (root ++ codes "/")

-- `overlaps` of discovery.go and `overlappingScope` of lifecycle/service.go.
unfoldable pub overlaps : Text → Text → Bool
overlaps a b = a =? b || has_prefix a (b ++ codes "/") || has_prefix b (a ++ codes "/")

-- `overlappingLockScope` of daemon/pool.go: the empty scope stands for the whole key.
unfoldable pub overlapping_lock_scope : Text → Text → Bool
overlapping_lock_scope a b =
    is_nil a || is_nil b || a =? b || has_prefix a (b ++ codes "/") || has_prefix b (a ++ codes "/")

-- Any text may be given as a discard mode; `other` is one that the switch does not name.
pub data ReceiveDiscard : Type 0 where
  receive_exact receive_drop_first receive_drop_all : ReceiveDiscard
  other : Text → ReceiveDiscard

unfoldable pub map_by : ReceiveDiscard → Text → Text → Result NameError Text
map_by receive_exact source root = ok root
map_by receive_drop_first source root = elim (cut slash source) [
  | none ↦ ok root
  | some (_, suffix) ↦ ok (root ++ slash ∷ suffix)
]
map_by receive_drop_all source root = ok (root ++ slash ∷ after_last slash source)
map_by (other mode) source root = err invalid_discard

unfoldable pub map_receive_dataset : Text → Text → ReceiveDiscard → Result NameError Text
map_receive_dataset source root discard = do
  validate_dataset source
  validate_dataset root
  map_by discard source root
