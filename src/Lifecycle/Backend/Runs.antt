-- ===== src/Lifecycle/Backend/Runs.antt =====
-- Runs against a backend with their worlds: what follows what, and which calls were carried out.
use boomerangz.Base.{
  ◌≡◌, refl, sym, subst, Bool, true, false, Option, none, some, List, [], ◌∷◌, arith, Text,
  text_key, ℕ_key,
}
use boomerangz.Base.Result.{Result, ok, err, is_ok}
use boomerangz.Lifecycle.Backend.{
  Call, Backend, Run, Act, lift, follow, read_as, wrote, perform_all, IsQuiet, ◌>>=◌, ◌>>◌,
}

-- The writes that a plan of calls comes to from one world to another: each is made in the world that
-- the one before it left, up to the first that fails, and all of them if none does.
pub data Carried {W : Type 0} (b : Backend W) : List Call → W → List Call → W → Bool → Type 0 where
  finished : (w : W) → Carried b [] w [] w true
  broken_off :
      (c : Call) (planned : List Call) (w v : W) (why : Text)
      → b.perform c w ≡ (v, some why)
      → Carried b (c ∷ planned) w (c ∷ []) v false
  carried :
      (c : Call) (planned calls : List Call) (w v u : W) (all : Bool)
      → b.perform c w ≡ (v, none)
      → Carried b planned v calls u all
      → Carried b (c ∷ planned) w (c ∷ calls) u all

module _ {W E : Type 0} where
  -- What holds of a run whose first part makes no call: the run ends with its error, or goes on from
  -- the world that it left.
  pub after_run :
      {A B : Type 0} (P : Run W E B → Type 0) (m : Act W E A) (k : A → Act W E B)
      → IsQuiet m
      → ((e : E) (v : W) → P (record { world = v; calls = []; result = err e }))
      → (w : W) → ((a : A) → (m w).result ≡ ok a → P (k a (m w).world))
      → P ((m >>= k) w)
  unfolding ◌>>=◌
  after_run P m k quiet failed w next =
      subst (λ c. P (follow (m w).world c (m w).result k)) (sym (quiet w))
        (passed (m w).result next)
    where
      passed :
          (r : Result E _)
          → ((a : _) → r ≡ ok a → P (k a (m w).world))
          → P (follow (m w).world [] r k)
      passed (err e) next = failed e (m w).world
      passed (ok a) next = next a refl

  pub after_check :
      {A B : Type 0} (P : Run W E B → Type 0) (r : Result E A) (k : A → Act W E B)
      → ((e : E) (v : W) → P (record { world = v; calls = []; result = err e }))
      → (w : W) → ((a : A) → r ≡ ok a → P (k a w))
      → P ((lift r >>= k) w)
  after_check P r k failed w next = after_run P (lift r) k (λ w. refl) failed w next

  -- A successful chain, with its worlds.
  pub >>=-ran :
      {A B : Type 0} (m : Act W E A) (k : A → Act W E B) (w : W) (last : B)
      → ((m >>= k) w).result ≡ ok last
      → (a : A) × ((m w).result ≡ ok a)
        × ((k a (m w).world).result ≡ ok last)
        × (((m >>= k) w).world ≡ (k a (m w).world).world)
  unfolding ◌>>=◌
  >>=-ran m k w last = parts (m w).result
    where
      parts :
          (r : Result E _)
          → (follow (m w).world (m w).calls r k).result ≡ ok last
          → (a : _) × (r ≡ ok a)
            × ((k a (m w).world).result ≡ ok last)
            × ((follow (m w).world (m w).calls r k).world ≡ (k a (m w).world).world)
      parts (err e) done = cc
      parts (ok a) done = (a, refl, done, refl)

  pub read_as-pair :
      {A : Type 0} (fault : Text → E) (p : W × Result Text A) (a : A)
      → (read_as fault p).result ≡ ok a
      → p ≡ ((read_as fault p).world, ok a)
  read_as-pair fault (w, ok x) a done = ground arith
  read_as-pair fault (w, err why) a done = cc

  pub perform_all-Carried :
      (b : Backend W) (fault : Text → E) (calls : List Call) (w : W)
      → let run : Run W E (Unit {0}) = perform_all b fault calls w in
        Carried b calls w run.calls run.world (is_ok run.result)
  unfolding perform_all ◌>>=◌ ◌>>◌
  perform_all-Carried b fault [] w = finished w
  perform_all-Carried b fault (c ∷ calls) w =
      one (b.perform c w) refl (perform_all-Carried b fault calls)
    where
      one :
          (p : W × Option Text)
          → b.perform c w ≡ p
          → ((v : W)
              → Carried b calls v
                  (perform_all b fault calls v).calls
                  (perform_all b fault calls v).world
                  (is_ok (perform_all b fault calls v).result))
          → let run : Run W E (Unit {0}) =
              follow
                (wrote fault c p).world
                (wrote fault c p).calls
                (wrote fault c p).result
                (λ done. perform_all b fault calls) in
            Carried b (c ∷ calls) w run.calls run.world (is_ok run.result)
      one (v, some why) same rest = broken_off c calls w v why same
      one (v, none) same rest = carried c calls _ w v _ _ same (rest v)
