-- ===== src/Base/Dict.antt =====
-- A Go map as an association list. Its order stands for the order of an iteration, which Go
-- leaves open: a statement for every list covers every order.
use mathlib.Core.Path.{◌≡◌, refl}
use mathlib.Core.Bool.{Bool, true, false, not}
use mathlib.Core.List.{List, [], ◌∷◌}
use mathlib.Core.Option.{Option, none, some}
use native.Mathlib.Omega.{arith}
use boomerangz.Base.Tests.{Key, ◌=?◌, if◌then◌else◌, is_none}
use boomerangz.Base.Lists.{contains, IsNodup}

abbrev pub Dict : Type 0 → Type 0 → Type 0
Dict K V = List (K × V)

module _ {K V : Type 0} ⦃k : Key K⦄ where
  abbrev pub lookup : K → Dict K V → Option V
  lookup a [] = none
  lookup a ((b, v) ∷ m) = if b =? a then some v else lookup a m

  abbrev pub insert : K → V → Dict K V → Dict K V
  insert a v [] = (a, v) ∷ []
  insert a v ((b, w) ∷ m) = if b =? a then (a, v) ∷ m else (b, w) ∷ insert a v m

  abbrev pub delete : K → Dict K V → Dict K V
  delete a [] = []
  delete a ((b, w) ∷ m) = let rest = delete a m in if b =? a then rest else (b, w) ∷ rest

  abbrev pub keys : Dict K V → List K
  keys [] = []
  keys ((b, w) ∷ m) = b ∷ keys m

  -- Reading a missing key of a Go map gives the zero value.
  abbrev pub get_or : K → Dict K V → V → V
  get_or a m d = elim (lookup a m) [ none ↦ d | some v ↦ v ]

  abbrev pub has : K → Dict K V → Bool
  has a m = contains (keys m) a

  pub lookup-insert :
      (a b : K) (v : V) (m : Dict K V)
      → lookup b (insert a v m) ≡ (if a =? b then some v else lookup b m)
  lookup-insert a b v [] = refl
  lookup-insert a b v ((c, w) ∷ m) = ground (arith, lookup-insert a b v m)

  pub lookup-delete :
      (a b : K) (m : Dict K V) → lookup b (delete a m) ≡ (if a =? b then none else lookup b m)
  lookup-delete a b [] = ground arith
  lookup-delete a b ((c, w) ∷ m) = ground (arith, lookup-delete a b m)

  pub contains-keys-insert :
      (a b : K) (v : V) (m : Dict K V)
      → contains (keys (insert a v m)) b ≡ (if a =? b then true else contains (keys m) b)
  contains-keys-insert a b v [] = ground arith
  contains-keys-insert a b v ((c, w) ∷ m) = ground (arith, contains-keys-insert a b v m)

  pub contains-keys-delete :
      (a b : K) (m : Dict K V)
      → contains (keys (delete a m)) b ≡ (if a =? b then false else contains (keys m) b)
  contains-keys-delete a b [] = ground arith
  contains-keys-delete a b ((c, w) ∷ m) = ground (arith, contains-keys-delete a b m)

  pub IsNodup-keys-insert :
      (a : K) (v : V) (m : Dict K V) → IsNodup (keys m) → IsNodup (keys (insert a v m))
  IsNodup-keys-insert a v [] n = (refl, tt)
  IsNodup-keys-insert a v ((c, w) ∷ m) n =
      ground (arith, IsNodup-keys-insert a v m n.1, contains-keys-insert a c v m)

  pub IsNodup-keys-delete : (a : K) (m : Dict K V) → IsNodup (keys m) → IsNodup (keys (delete a m))
  IsNodup-keys-delete a [] n = tt
  IsNodup-keys-delete a ((c, w) ∷ m) n =
      ground (arith, IsNodup-keys-delete a m n.1, contains-keys-delete a c m)

  -- A missing key may be read by its absence from the keys, and the other way round.
  pub contains-keys_iff : (a : K) (m : Dict K V) → contains (keys m) a ≡ not (is_none (lookup a m))
  contains-keys_iff a [] = refl
  contains-keys_iff a ((c, w) ∷ m) = ground (arith, contains-keys_iff a m)

  pub lookup-absent : (a : K) (m : Dict K V) → contains (keys m) a ≡ false → lookup a m ≡ none
  lookup-absent a [] h = refl
  lookup-absent a ((c, w) ∷ m) h = ground (arith, lookup-absent a m)

  pub delete-absent : (a : K) (m : Dict K V) → contains (keys m) a ≡ false → delete a m ≡ m
  delete-absent a [] h = refl
  delete-absent a ((c, w) ∷ m) h = ground (arith, delete-absent a m)
