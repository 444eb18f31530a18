-- ===== src/Base/Lists.antt =====
-- Lists measured by native numbers, and predicates over them.
use Prim.Native.Nat.{ℕ, suc, ◌+◌}
use Prim.Native.Char.{code}
use Prim.Native.String.{String}
use mathlib.Core.Path.{◌≡◌, refl}
use mathlib.Core.Logic.{◌⊎◌}
use mathlib.Core.Bool.{Bool, true, false, ◌||◌, ◌&&◌}
use mathlib.Core.List.{List, [], ◌∷◌, ◌++◌}
use native.Mathlib.Omega.{arith}
use boomerangz.Base.Tests.{Text, Key, ◌=?◌, if◌then◌else◌}

-- The code points of a literal.
abbrev pub codes : String → Text
codes String.[] = []
codes (String.◌∷◌ c s) = code c ∷ codes s

module _ {ℓ} {A : Type ℓ} where
  abbrev pub length : List A → ℕ
  length [] = 0
  length (x ∷ xs) = suc (length xs)

  abbrev pub is_nil : List A → Bool
  is_nil [] = true
  is_nil (x ∷ xs) = false

  pub length-append : (xs ys : List A) → length (xs ++ ys) ≡ length xs + length ys
  length-append [] ys = omega arith
  length-append (x ∷ xs) ys = omega (arith, length-append xs ys)

  -- `keep` is `filter` by a Boolean test.
  abbrev pub keep : (A → Bool) → List A → List A
  keep p [] = []
  keep p (x ∷ xs) = let rest = keep p xs in if p x then x ∷ rest else rest

  abbrev pub any : (A → Bool) → List A → Bool
  any p [] = false
  any p (x ∷ xs) = p x || any p xs

  abbrev pub every : (A → Bool) → List A → Bool
  every p [] = true
  every p (x ∷ xs) = p x && every p xs

  -- Some element has the property.
  abbrev pub Some : (A → Type 0) → List A → Type 0
  Some P [] = ⊥
  Some P (x ∷ xs) = P x ⊎ Some P xs

  -- The property holds of each element.
  module _ {κ} (Holds : A → Type κ) where
    abbrev pub All : List A → Type κ
    All [] = Unit
    All (x ∷ xs) = Holds x × All xs

    pub All-append : (first second : List A) → All first → All second → All (first ++ second)
    All-append [] second none_left there = there
    All-append (x ∷ first) second (here, rest) there = (here, All-append first second rest there)

module _ {K : Type 0} ⦃k : Key K⦄ where
  abbrev pub contains : List K → K → Bool
  contains xs a = any (λ x. x =? a) xs

  -- `slices.DeleteFunc` by equality, and `delete` on a set.
  abbrev pub remove : K → List K → List K
  remove a [] = []
  remove a (x ∷ xs) = let rest = remove a xs in if x =? a then rest else x ∷ rest

  abbrev pub IsNodup : List K → Type 0
  IsNodup [] = Unit
  IsNodup (x ∷ xs) = (contains xs x ≡ false) × IsNodup xs

  pub contains-append :
      (xs ys : List K) (a : K) → contains (xs ++ ys) a ≡ (contains xs a || contains ys a)
  contains-append [] ys a = refl
  contains-append (x ∷ xs) ys a = ground (arith, contains-append xs ys a)

  pub contains-remove :
      (xs : List K) (b a : K) → contains (remove b xs) a ≡ (if b =? a then false else contains xs a)
  contains-remove [] b a = ground arith
  contains-remove (x ∷ xs) b a = ground (arith, contains-remove xs b a)

  pub IsNodup-remove : (xs : List K) (b : K) → IsNodup xs → IsNodup (remove b xs)
  IsNodup-remove [] b h = tt
  IsNodup-remove (x ∷ xs) b h = ground (arith, IsNodup-remove xs b h.1, contains-remove xs b x)

  pub IsNodup-snoc :
      (xs : List K) (a : K) → contains xs a ≡ false → IsNodup xs → IsNodup (xs ++ a ∷ [])
  IsNodup-snoc [] a h n = (refl, tt)
  IsNodup-snoc (x ∷ xs) a h n = ground (arith, IsNodup-snoc xs a, contains-append xs (a ∷ []) x)
