-- ===== src/Policy/Settled.antt =====
-- What the settings come to when nothing is wrong with them.
use boomerangz.Base.{
  ◌≡◌, refl, ◌⊎◌, Bool, true, false, not, ◌&&◌, List, [], ◌∷◌, ◌++◌, arith, Text, text_key, ℕ_key,
  ◌=?◌, codes, is_nil, All, contains,
}
use boomerangz.Base.Dict.{Dict, has, keys}
use boomerangz.Grid.{parse_grid}
use boomerangz.Policy.{Value, PolicyError, value_of}
use boomerangz.Policy.Settings.{
  unknown_errors, targets_errors, toggle, toggle_errors, targets, remote_errors, local_errors,
  grid_errors, complain,
}
use boomerangz.Policy.Receive.{raw_receive_errors}
use boomerangz.Policy.Resolve.{setting_errors}

pub nil-append : {A : Type 0} (xs ys : List A) → xs ++ ys ≡ [] → (xs ≡ []) × (ys ≡ [])
nil-append [] ys h = (refl, h)
nil-append (x ∷ xs) ys h = cc

pub nil_of : {A : Type 0} (xs : List A) → is_nil xs ≡ true → xs ≡ []
nil_of [] h = refl
nil_of (x ∷ xs) h = cc

pub complain-passed : (bad : Bool) (e : PolicyError) → complain bad e ≡ [] → bad ≡ false
complain-passed true e h = cc
complain-passed false e h = refl

pub raw_keys_free :
    (names : List Text) (set : Dict Text Text) (ignore : List Text)
    → raw_receive_errors names set ignore ≡ []
    → All (λ key. (has key set ≡ false) × (contains ignore key ≡ false)) names
unfolding raw_receive_errors
raw_keys_free [] set ignore h = tt
raw_keys_free (key ∷ names) set ignore h =
    let (a, h₁) = nil-append (complain (has key set) (PolicyError.raw_override key)) _ h in
    let (b, h₂) = nil-append (complain (contains ignore key) (PolicyError.raw_exclude key)) _ h₁ in
    (
      (complain-passed (has key set) _ a, complain-passed (contains ignore key) _ b),
      raw_keys_free names set ignore h₂,
    )

-- The settings of values without setting errors.
pub record IsSettled (encrypted : Bool) (remotes : List Text) (values : Dict Text Value)
    : Type 0 where
  pub enabled : toggle_errors values (codes "enabled") ≡ []
  pub grid : grid_errors (parse_grid (value_of values (codes "policy"))) ≡ []
  pub remote : remote_errors remotes (targets values (codes "remote")) ≡ []
  pub local : local_errors (targets values (codes "local")) ≡ []
  pub incremental :
      (value_of values (codes "incremental") ≡ codes "all")
      ⊎ (value_of values (codes "incremental") ≡ codes "latest")
  pub large_blocks : toggle_errors values (codes "large_blocks") ≡ []
  pub compressed : toggle_errors values (codes "compressed") ≡ []
  pub raw : toggle_errors values (codes "raw") ≡ []
  pub props : toggle_errors values (codes "props") ≡ []
  pub replicate : toggle_errors values (codes "replicate") ≡ []
  pub raw_given :
      (toggle values (codes "replicate") && encrypted && not (toggle values (codes "raw"))) ≡ false
  pub discard :
      (value_of values (codes "discard") ≡ codes "off")
      ⊎ (value_of values (codes "discard") ≡ codes "first")
      ⊎ (value_of values (codes "discard") ≡ codes "all")

one_of_two : (v a b : Text) → (not (v =? a) && not (v =? b)) ≡ false → (v ≡ a) ⊎ (v ≡ b)
one_of_two v a b h = ground arith

one_of_three :
    (v a b c : Text)
    → (not (v =? a) && not (v =? b) && not (v =? c)) ≡ false
    → (v ≡ a) ⊎ (v ≡ b) ⊎ (v ≡ c)
one_of_three v a b c h = ground arith

pub setting_errors-IsSettled :
    (encrypted : Bool) (remotes : List Text) (values : Dict Text Value)
    → setting_errors encrypted remotes values ≡ []
    → IsSettled encrypted remotes values
unfolding setting_errors
setting_errors-IsSettled encrypted remotes values h =
    let (_, h) = nil-append (unknown_errors (keys values)) _ h in
    let (enabled, h) = nil-append (toggle_errors values (codes "enabled")) _ h in
    let (grid, h) = nil-append (grid_errors (parse_grid (value_of values (codes "policy")))) _ h in
    let (_, h) = nil-append (targets_errors values (codes "remote")) _ h in
    let (_, h) = nil-append (targets_errors values (codes "local")) _ h in
    let (remote, h) = nil-append (remote_errors remotes (targets values (codes "remote"))) _ h in
    let (local, h) = nil-append (local_errors (targets values (codes "local"))) _ h in
    let (incremental, h) = nil-append (complain _ PolicyError.bad_incremental) _ h in
    let (large_blocks, h) = nil-append (toggle_errors values (codes "large_blocks")) _ h in
    let (compressed, h) = nil-append (toggle_errors values (codes "compressed")) _ h in
    let (raw, h) = nil-append (toggle_errors values (codes "raw")) _ h in
    let (props, h) = nil-append (toggle_errors values (codes "props")) _ h in
    let (replicate, h) = nil-append (toggle_errors values (codes "replicate")) _ h in
    let (raw_given, discard) = nil-append (complain _ PolicyError.raw_required) _ h in
    record {
      enabled = enabled;
      grid = grid;
      remote = remote;
      local = local;
      incremental = one_of_two _ _ _ (complain-passed _ _ incremental);
      large_blocks = large_blocks;
      compressed = compressed;
      raw = raw;
      props = props;
      replicate = replicate;
      raw_given = complain-passed _ _ raw_given;
      discard = one_of_three _ _ _ _ (complain-passed _ _ discard);
    }
