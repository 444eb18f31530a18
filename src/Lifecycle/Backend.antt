-- ===== src/Lifecycle/Backend.antt =====
-- The calls of a ZFS backend by internal/lifecycle: `Backend` of service.go and `referenceBackend`
-- of reference.go, each a parameter. A run keeps the writing calls that it made, in order, whether
-- the backend carried them out or not. What others do to the pool between two calls is part of how
-- the backend changes the world.
pub mod Runs
use boomerangz.Base.{
  ◌≡◌, refl, sym, ap, subst, Bool, Option, none, some, List, [], ◌∷◌, ◌++◌, arith, Text, text_key,
  ℕ_key, All, All-append,
}
use boomerangz.Base.Result.{Result, ok, err}
use boomerangz.Base.Dict.{Dict}
use boomerangz.Lifecycle.{State}

pub data Call : Type 0 where
  -- `SetProperties` of one property, and of several.
  set_property : Text → Text → Text → Call
  set_properties : Text → Dict Text Text → Call
  inherit_property : Text → Text → Call
  hold release : Text → Text → Call
  make_bookmark : Text → Text → Call
  destroy_bookmark : Text → Call
  take_snapshot : List Text → Text → Dict Text Text → Call
  destroy_snapshot : Text → Call

-- A read gives a state or the names of the datasets, or says why it fails; so does a write.
pub record Backend (W : Type 0) : Type 0 where
  pub inspect : Text → Bool → W → W × Result Text State
  pub list_datasets : W → W × Result Text (List Text)
  pub perform : Call → W → W × Option Text

pub record Run (W E A : Type 0) : Type 0 where
  pub world : W
  pub calls : List Call
  pub result : Result E A

-- The first list begins the second.
abbrev pub Prefix : List Call → List Call → Type 0
Prefix first all = (rest : List Call) × (all ≡ first ++ rest)

abbrev pub Act : Type 0 → Type 0 → Type 0 → Type 0
Act W E A = W → Run W E A

module _ {W E : Type 0} where
  abbrev pub lift : {A : Type 0} → Result E A → W → Run W E A
  lift r w = record { world = w; calls = []; result = r }

  -- What follows a run, on its result.
  abbrev pub follow : {A B : Type 0} → W → List Call → Result E A → (A → W → Run W E B) → Run W E B
  follow w calls (err e) k = record { world = w; calls = calls; result = err e }
  follow w calls (ok a) k =
      let next = k a w in
      record { world = next.world; calls = calls ++ next.calls; result = next.result }

  infixl 5 ◌>>=◌ ◌>>◌
  unfoldable pub ◌>>=◌ : {A B : Type 0} → Act W E A → (A → Act W E B) → Act W E B
  ◌>>=◌ m k w = let run = m w in follow run.world run.calls run.result k

  unfoldable pub ◌>>◌ : {B : Type 0} → Act W E (Unit {0}) → Act W E B → Act W E B
  unfolding ◌>>=◌
  ◌>>◌ m k = m >>= λ done. k

  abbrev pub read_as : {A : Type 0} → (Text → E) → W × Result Text A → Run W E A
  read_as fault (w, ok a) = record { world = w; calls = []; result = ok a }
  read_as fault (w, err why) = record { world = w; calls = []; result = err (fault why) }

  abbrev pub wrote : (Text → E) → Call → W × Option Text → Run W E (Unit {0})
  wrote fault call (w, none) = record { world = w; calls = call ∷ []; result = ok tt }
  wrote fault call (w, some why) = record { world = w; calls = call ∷ []; result = err (fault why) }

  module _ (b : Backend W) (fault : Text → E) where
    unfoldable pub perform_all : List Call → W → Run W E (Unit {0})
    unfolding ◌>>=◌ ◌>>◌
    perform_all [] = lift (ok tt)
    perform_all (c ∷ calls) = (λ w. wrote fault c (b.perform c w)) >> perform_all calls

  -- A read makes no call, and what follows it is run on its result.
  pub read_calls :
      {A : Type 0} (fault : Text → E) (p : W × Result Text A) → (read_as fault p).calls ≡ []
  read_calls fault (w, ok a) = refl
  read_calls fault (w, err why) = refl

  -- A part that makes no call may be passed over: the run ends with its error, or goes on.
  pub after_quiet :
      {A B : Type 0} (P : List Call → Result E B → Type 0) (m : Act W E A) (k : A → Act W E B)
      → ((w : W) → (m w).calls ≡ [])
      → ((e : E) → P [] (err e))
      → ((a : A) (w : W) → (v : W) × ((m v).result ≡ ok a) → P (k a w).calls (k a w).result)
      → (w : W) → P ((m >>= k) w).calls ((m >>= k) w).result
  unfolding ◌>>=◌
  after_quiet P m k quiet failed next w = passed (m w).result refl
    where
      passed :
          (r : Result E _)
          → (m w).result ≡ r
          → P (follow (m w).world (m w).calls r k).calls (follow (m w).world (m w).calls r k).result
      passed (err e) same = subst (λ c. P c (err e)) (sym (quiet w)) (failed e)
      passed (ok a) same =
          subst (λ c. P (c ++ (k a (m w).world).calls) (k a (m w).world).result) (sym (quiet w))
            (next a (m w).world (w, same))

  -- Calls in a row: a run makes the first of them, up to the first that fails.
  pub perform_all-Prefix :
      (b : Backend W) (fault : Text → E) (calls : List Call) (w : W)
      → Prefix (perform_all b fault calls w).calls calls
        × ((perform_all b fault calls w).result ≡ ok tt
            → (perform_all b fault calls w).calls ≡ calls)
  unfolding perform_all
  perform_all-Prefix b fault [] w = (([], refl), λ done. refl)
  perform_all-Prefix b fault (c ∷ calls) w = one (b.perform c w) (perform_all-Prefix b fault calls)
    where
      one :
          (p : W × Option Text)
          → ((v : W)
              → Prefix (perform_all b fault calls v).calls calls
                × ((perform_all b fault calls v).result ≡ ok tt
                    → (perform_all b fault calls v).calls ≡ calls))
          → let run : Run W E (Unit {0}) =
              follow
                (wrote fault c p).world
                (wrote fault c p).calls
                (wrote fault c p).result
                (λ done. perform_all b fault calls) in
            Prefix run.calls (c ∷ calls) × (run.result ≡ ok tt → run.calls ≡ c ∷ calls)
      one (v, none) rest =
          (((rest v).0.0, ap (λ l. c ∷ l) (rest v).0.1), λ done. ap (λ l. c ∷ l) ((rest v).1 done))
      one (v, some why) rest = ((calls, refl), λ done. cc)

  abbrev pub IsQuiet : {A : Type 0} → Act W E A → Type 0
  IsQuiet m = (w : W) → (m w).calls ≡ []

  pub >>=-IsQuiet :
      {A B : Type 0} (m : Act W E A) (k : A → Act W E B)
      → IsQuiet m
      → ((a : A) → IsQuiet (k a))
      → IsQuiet (m >>= k)
  >>=-IsQuiet m k first next =
      after_quiet (λ calls r. calls ≡ []) m k first (λ e. refl) (λ a w before. next a w)

  -- The run ends early without a call, or goes on with what the quiet part gave.
  pub after_lift :
      {A B : Type 0} (P : List Call → Result E B → Type 0) (r : Result E A) (k : A → Act W E B)
      → ((e : E) → P [] (err e))
      → ((a : A) (w : W) → r ≡ ok a → P (k a w).calls (k a w).result)
      → (w : W) → P ((lift r >>= k) w).calls ((lift r >>= k) w).result
  after_lift P r k failed next =
      after_quiet P (lift r) k (λ w. refl) failed (λ a w before. next a w before.1)

  -- What holds of every call of a run and of every run that follows its result.
  pub >>=-All :
      {A B : Type 0} (Q : Call → Type 0) (m : Act W E A) (k : A → Act W E B)
      → ((w : W) → All Q (m w).calls)
      → ((a : A) → (v : W) × ((m v).result ≡ ok a) → (w : W) → All Q (k a w).calls)
      → (w : W) → All Q ((m >>= k) w).calls
  unfolding ◌>>=◌
  >>=-All Q m k first next w = passed (m w).result refl
    where
      passed :
          (r : Result E _) → (m w).result ≡ r → All Q (follow (m w).world (m w).calls r k).calls
      passed (err e) same = first w
      passed (ok a) same =
          All-append Q (m w).calls (k a (m w).world).calls (first w) (next a (w, same) (m w).world)

  -- What a successful chain of runs says of its parts.
  pub >>=-done :
      {A B : Type 0} (m : Act W E A) (k : A → Act W E B) (w : W) (last : B)
      → ((m >>= k) w).result ≡ ok last
      → (a : A) × (v : W) × ((m w).result ≡ ok a)
        × ((k a v).result ≡ ok last)
        × (((m >>= k) w).calls ≡ (m w).calls ++ (k a v).calls)
  unfolding ◌>>=◌
  >>=-done m k w last = parts (m w).result
    where
      parts :
          (r : Result E _)
          → (follow (m w).world (m w).calls r k).result ≡ ok last
          → (a : _) × (v : W) × (r ≡ ok a)
            × ((k a v).result ≡ ok last)
            × ((follow (m w).world (m w).calls r k).calls ≡ (m w).calls ++ (k a v).calls)
      parts (err e) done = cc
      parts (ok a) done = (a, (m w).world, refl, done, refl)

  pub read_as-ok :
      {A : Type 0} (fault : Text → E) (p : W × Result Text A) (a : A)
      → (read_as fault p).result ≡ ok a
      → p.1 ≡ ok a
  read_as-ok fault (w, ok x) a done = ground arith
  read_as-ok fault (w, err why) a done = cc
