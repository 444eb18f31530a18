-- ===== src/Policy/Sound.antt =====
-- What holds of a policy without errors.
use boomerangz.Base.{
  ◌≡◌, refl, ◌⊎◌, inl, inr, Bool, true, false, not, ◌&&◌, Option, List, [], ◌∷◌, arith, Text,
  text_key, ℕ_key, codes, All, contains,
}
use boomerangz.Base.Result.{Result, ok, err, is_ok}
use boomerangz.Base.Dict.{Dict, has}
use boomerangz.Names.{validate_dataset}
use boomerangz.Grid.{Grid, GridError, parse_grid}
use boomerangz.Ownership.{Property}
use boomerangz.Policy.{Value, Flags, Effective, value_of, resolve_values}
use boomerangz.Policy.Settings.{
  toggle, toggle_errors, targets, remote_errors, local_errors, grid_or_none, grid_errors,
}
use boomerangz.Policy.Receive.{fixed_keys, ignored, raw_errors, received_of}
use boomerangz.Policy.Resolve.{
  Dataset, is_encrypted, resolve, effective, setting_errors, effective_send, requested_flags,
}
use boomerangz.Policy.Settled.{nil-append, raw_keys_free, setting_errors-IsSettled}

-- The value of a toggle is on or off.
abbrev pub IsToggle : Effective → Text → Type 0
IsToggle p name = (value_of p.values name ≡ codes "on") ⊎ (value_of p.values name ≡ codes "off")

toggle-IsToggle :
    (values : Dict Text Value) (name : Text)
    → toggle_errors values name ≡ []
    → (value_of values name ≡ codes "on") ⊎ (value_of values name ≡ codes "off")
unfolding toggle_errors
toggle-IsToggle values name h = ground arith

remotes_known :
    (remotes rs : List Text)
    → remote_errors remotes rs ≡ []
    → All (λ r. contains remotes r ≡ true) rs
unfolding remote_errors
remotes_known remotes [] h = tt
remotes_known remotes (r ∷ rs) h = ground (arith, remotes_known remotes rs)

locals_valid :
    (ls : List Text) → local_errors ls ≡ [] → All (λ l. is_ok (validate_dataset l) ≡ true) ls
unfolding local_errors
locals_valid [] h = tt
locals_valid (l ∷ ls) h = ground (arith, locals_valid ls)

grid_parsed : (r : Result GridError Grid) → grid_errors r ≡ [] → r ≡ ok (grid_or_none r)
unfolding grid_errors grid_or_none
grid_parsed (ok g) h = refl
grid_parsed (err e) h = cc

ignored-disjoint :
    (set : Dict Text Text) (ignore : List Text)
    → All (λ key. has key set ≡ false) (ignored set ignore)
ignored-disjoint set [] = tt
ignored-disjoint set (key ∷ ignore) = ground (arith, ignored-disjoint set ignore)

-- A policy that may be used.
pub record IsUsable (encrypted : Bool) (remotes : List Text) (p : Effective) : Type 0 where
  pub toggles : All (IsToggle p) (
      codes "enabled"
      ∷ codes "large_blocks"
      ∷ codes "compressed"
      ∷ codes "raw"
      ∷ codes "props"
      ∷ codes "replicate"
      ∷ [])
  pub grid : parse_grid (value_of p.values (codes "policy")) ≡ ok p.grid
  pub remotes_known : All (λ r. contains remotes r ≡ true) p.remote
  pub locals_valid : All (λ l. is_ok (validate_dataset l) ≡ true) p.local
  pub replicates_raw : (p.send.replicate && encrypted && not p.send.raw) ≡ false
  pub replicates_props : (p.send.replicate && not p.send.props) ≡ false
  pub plain_raw :
      (p.send.raw
        && not encrypted
        && not (p.send.large_blocks && p.send.compressed && p.send.embedded_data))
      ≡ false
  pub incremental : (p.incremental ≡ codes "all") ⊎ (p.incremental ≡ codes "latest")
  pub discard : (p.discard ≡ codes "off") ⊎ (p.discard ≡ codes "first") ⊎ (p.discard ≡ codes "all")
  pub disjoint : All (λ key. has key p.set_properties ≡ false) p.ignore_properties
  pub raw_fixed :
      (not (p.send.raw && encrypted) ≡ true)
      ⊎ All
          (λ key. (has key p.set_properties ≡ false) × (contains p.ignore_properties key ≡ false))
          fixed_keys

-- The send flags: what stays of the request, and what follows from it.
effective_send-raw : (e : Bool) (f : Flags) → (effective_send e f).raw ≡ f.raw
unfolding effective_send
effective_send-raw e f = ground arith

effective_send-replicate : (e : Bool) (f : Flags) → (effective_send e f).replicate ≡ f.replicate
unfolding effective_send
effective_send-replicate e f = ground arith

effective_send-props :
    (e : Bool) (f : Flags)
    → ((effective_send e f).replicate && not (effective_send e f).props) ≡ false
unfolding effective_send
effective_send-props e f = ground arith

effective_send-plain :
    (e : Bool) (f : Flags)
    → ((effective_send e f).raw
        && not e
        && not (
            (effective_send e f).large_blocks
            && (effective_send e f).compressed
            && (effective_send e f).embedded_data))
      ≡ false
unfolding effective_send
effective_send-plain e f = ground arith

raw_errors-free :
    (applies : Bool) (set : Dict Text Text) (ignore : List Text)
    → raw_errors applies set ignore ≡ []
    → (not applies ≡ true)
      ⊎ All (λ key. (has key set ≡ false) × (contains ignore key ≡ false)) fixed_keys
raw_errors-free true set ignore h = inr (raw_keys_free fixed_keys set ignore h)
raw_errors-free false set ignore h = inl refl

effective-IsUsable :
    (encrypted : Bool) (remotes : List Text) (values : Dict Text Value)
    → (effective encrypted remotes values).errors ≡ []
    → IsUsable encrypted remotes (effective encrypted remotes values)
unfolding effective
effective-IsUsable encrypted remotes values h =
    let r = received_of values in
    let raw = toggle values (codes "raw") in
    let requested = requested_flags values in
    let (settings, h₁) = nil-append (setting_errors encrypted remotes values) _ h in
    let (_, raw_keys) = nil-append r.errors _ h₁ in
    let s = setting_errors-IsSettled encrypted remotes values settings in
    record {
      toggles = (
        toggle-IsToggle values (codes "enabled") s.enabled,
        (
          toggle-IsToggle values (codes "large_blocks") s.large_blocks,
          (
            toggle-IsToggle values (codes "compressed") s.compressed,
            (
              toggle-IsToggle values (codes "raw") s.raw,
              (
                toggle-IsToggle values (codes "props") s.props,
                (toggle-IsToggle values (codes "replicate") s.replicate, tt),
              ),
            ),
          ),
        ),
      );
      grid = grid_parsed (parse_grid (value_of values (codes "policy"))) s.grid;
      remotes_known = remotes_known remotes (targets values (codes "remote")) s.remote;
      locals_valid = locals_valid (targets values (codes "local")) s.local;
      replicates_raw =
          rw (effective_send-raw encrypted requested, effective_send-replicate encrypted requested)
            s.raw_given;
      replicates_props = effective_send-props encrypted requested;
      plain_raw = effective_send-plain encrypted requested;
      incremental = s.incremental;
      discard = s.discard;
      disjoint = ignored-disjoint r.set r.ignore;
      raw_fixed =
          rw (effective_send-raw encrypted requested)
            (raw_errors-free (raw && encrypted) r.set (ignored r.set r.ignore) raw_keys);
    }

-- A policy that Resolve gives without errors may be used: its toggles are on or off, its grid was
-- parsed, its remotes are configured and its local targets valid names, its send flags agree with each
-- other and with the encryption, and no receive property is both set and ignored or overrides what a
-- raw encrypted stream fixes.
pub resolve-IsUsable :
    (d : Dataset) (parent : Option Effective) (stored : List Property) (remotes : List Text)
    → (resolve d parent stored remotes).errors ≡ []
    → IsUsable (is_encrypted d) remotes (resolve d parent stored remotes)
unfolding resolve
resolve-IsUsable d parent stored remotes h =
    effective-IsUsable (is_encrypted d) remotes
      (resolve_values d.name (is_encrypted d) parent stored) h
