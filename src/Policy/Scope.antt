-- ===== src/Policy/Scope.antt =====
-- ForReplicationScope: an encrypted dataset below a replication root.
use boomerangz.Base.{◌≡◌, ◌≢◌, ◌⊎◌, true, false, [], Text, text_key, ℕ_key, All, contains}
use boomerangz.Base.Dict.{has}
use boomerangz.Policy.{Effective}
use boomerangz.Policy.Receive.{fixed_keys}
use boomerangz.Policy.Resolve.{raw_dataset}

-- A replicated policy in the scope of an encrypted descendant: it sends raw, by its own setting or since
-- nothing set it, still replicates, and leaves alone what a raw encrypted stream fixes.
pub record IsRawScope (descendant : Text) (p q : Effective) : Type 0 where
  pub replicated : p.send.replicate ≡ true
  pub below : descendant ≢ []
  pub raw : q.send.raw ≡ true
  pub replicate : q.send.replicate ≡ true
  pub chosen : (p.send.raw ≡ true) ⊎ (raw_dataset p ≡ [])
  pub fixed :
      All
        (λ key. (has key q.set_properties ≡ false) × (contains q.ignore_properties key ≡ false))
        fixed_keys
