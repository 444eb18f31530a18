-- ===== src/Base/Result.antt =====
-- Go's pair of a value and an error: a call returns the one or the other.
use mathlib.Core.Path.{◌≡◌, refl}
use mathlib.Core.Logic.{◌⊎◌, inl, inr}
use mathlib.Core.Bool.{Bool, true, false}

pub data Result {ℓ κ} (E : Type κ) (A : Type ℓ) : Type (ℓ ⊔ κ) where
  ok : A → Result E A
  err : E → Result E A

-- The errors that a chain of calls can end with.
module _ {μ} {E : Type μ} where
  -- `if bad { return why }`.
  abbrev pub refuse : Bool → E → Result E (Unit {0})
  refuse bad why = elim bad [ true ↦ err why | false ↦ ok tt ]

  module _ {ℓ} {A : Type ℓ} where
    abbrev pub is_ok : Result E A → Bool
    is_ok (err why) = false
    is_ok (ok value) = true

    pub Result-cases :
        (r : Result E A) → ((value : A) × (r ≡ ok value)) ⊎ ((why : E) × (r ≡ err why))
    Result-cases (err why) = inr (why, refl)
    Result-cases (ok value) = inl (value, refl)

    pub ok_injective : (a b : A) → (let r : Result E A = ok a in r) ≡ ok b → a ≡ b
    ok_injective a b same = cc

  module _ {ℓ κ} {A : Type ℓ} {B : Type κ} where
    infixl 5 ◌>>=◌
    abbrev pub ◌>>=◌ : Result E A → (A → Result E B) → Result E B
    err why >>= then_do = err why
    ok value >>= then_do = then_do value

    -- What a successful chain says of its parts.
    pub >>=-eq-ok :
        (r : Result E A) (then_do : A → Result E B) {last : B}
        → r >>= then_do ≡ ok last
        → (value : A) × (r ≡ ok value) × (then_do value ≡ ok last)
    >>=-eq-ok (err why) then_do success = cc
    >>=-eq-ok (ok value) then_do success = (value, refl, success)

  module _ {κ} {B : Type κ} where
    infixl 5 ◌>>◌
    abbrev pub ◌>>◌ : Result E (Unit {0}) → Result E B → Result E B
    check >> rest = check >>= λ _. rest

    -- A chain that succeeds is not refused.
    pub refuse-passed :
        (bad : Bool) (why : E) {rest : Result E B} {last : B}
        → refuse bad why >> rest ≡ ok last
        → (bad ≡ false) × (rest ≡ ok last)
    refuse-passed true why success = cc
    refuse-passed false why success = (refl, success)
