-- ===== src/Jobs.antt =====
-- The values of internal/daemonstate/status.go and internal/daemon/queue.go that jobs are made of.
-- A closure of the program acts on a world `W`, the type of all that it can reach.
use boomerangz.Base.{
  ℕ, zero, suc, Bool, Option, List, [], ◌∷◌, ltb, if◌then◌else◌, Text, text_key, ℕ_key, length,
}

-- What one run of a job acted on.
pub record Identity : Type 0 where
  pub snapshot : Text
  pub base : Text
  pub mode : Text
  pub destination : Text
  pub marker : Text
  pub destroyed : List Text
  pub destroyed_count : ℕ
  pub config_generation : ℕ

abbrev pub no_identity : Identity
no_identity = record {
  snapshot = [];
  base = [];
  mode = [];
  destination = [];
  marker = [];
  destroyed = [];
  destroyed_count = 0;
  config_generation = 0;
}

abbrev pub destroyed_limit : ℕ
destroyed_limit = 64

abbrev pub take : {A : Type 0} → ℕ → List A → List A
take zero xs = []
take (suc n) [] = []
take (suc n) (x ∷ xs) = x ∷ take n xs

unfoldable pub destroyed_identity : List Text → Identity
destroyed_identity names = record no_identity {
  destroyed = if ltb destroyed_limit (length names) then take destroyed_limit names else names;
  destroyed_count = length names;
}

pub record Outcome : Type 0 where
  pub state : Text
  pub reason : Text
  pub silent : Bool
  pub identity : Identity

pub record Job (W : Type 0) : Type 0 where
  pub id : Text
  pub run_id : ℕ
  pub group : Text
  pub scope : Text
  pub lock_key : Text
  pub lock_scope : Text
  pub start_state : Text
  pub run : Option (W → Outcome × W)
  pub after : Option (Outcome → W → W)
  pub drop : Option (W → W)

pub record QueueSnapshot : Type 0 where
  pub capacity : ℕ
  pub pending : ℕ
  pub ids : List Text

-- The jobs that a change to the pending set added or dropped.
pub record QueueChange (W : Type 0) : Type 0 where
  pub offered : Option (Job W)
  pub dropped : List (Job W)
  pub reason : Text
