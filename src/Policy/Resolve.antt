-- ===== src/Policy/Resolve.antt =====
-- `Resolve` and `ForReplicationScope`.
use boomerangz.Base.{
  Bool, true, false, not, ◌&&◌, ◌||◌, Option, List, [], ◌∷◌, ◌++◌, if◌then◌else◌, Text, text_key,
  ℕ_key, ◌=?◌, codes, is_nil,
}
use boomerangz.Base.Dict.{Dict, get_or, keys}
use boomerangz.Grid.{parse_grid}
use boomerangz.Ownership.{Property}
use boomerangz.Policy.{
  namespace, Value, Flags, PolicyError, Warning, Effective, resolve_values, value_of,
}
use boomerangz.Policy.Settings.{
  toggle, toggle_errors, targets, targets_errors, remote_errors, local_errors, grid_or_none,
  grid_errors, complain, unknown_errors,
}
use boomerangz.Policy.Receive.{
  received_of, ignored, set_warnings, raw_errors, raw_receive_errors, fixed_keys,
}

abbrev pub requested_flags : Dict Text Value → Flags
requested_flags values = record {
  large_blocks = toggle values (codes "large_blocks");
  compressed = toggle values (codes "compressed");
  embedded_data = false;
  raw = toggle values (codes "raw");
  props = toggle values (codes "props");
  replicate = toggle values (codes "replicate");
}

abbrev pub raw_plain : Bool → Flags → Flags
raw_plain applies f =
    if applies then record f { large_blocks = true; compressed = true; embedded_data = true } else f

unfoldable pub effective_send : Bool → Flags → Flags
effective_send encrypted f =
    raw_plain (f.raw && not encrypted) (record f { props = f.replicate || f.props })

abbrev pub implied_warnings : Bool → Flags → List Warning
implied_warnings applies f =
    if applies && (not f.large_blocks || not f.compressed) then Warning.implied_flags ∷ [] else []

-- The errors of the plain settings, in the order that `Resolve` meets them.
unfoldable pub setting_errors : Bool → List Text → Dict Text Value → List PolicyError
setting_errors encrypted remotes values =
    unknown_errors (keys values)
    ++ (toggle_errors values (codes "enabled")
        ++ (grid_errors (parse_grid (value_of values (codes "policy")))
            ++ (targets_errors values (codes "remote")
                ++ (targets_errors values (codes "local")
                    ++ (remote_errors remotes (targets values (codes "remote"))
                        ++ (local_errors (targets values (codes "local"))
                            ++ (complain
                                  (not (value_of values (codes "incremental") =? codes "all")
                                    && not
                                        (value_of values (codes "incremental") =? codes "latest"))
                                  PolicyError.bad_incremental
                                ++ (toggle_errors values (codes "large_blocks")
                                    ++ (toggle_errors values (codes "compressed")
                                        ++ (toggle_errors values (codes "raw")
                                            ++ (toggle_errors values (codes "props")
                                                ++ (toggle_errors values (codes "replicate")
                                                    ++ (complain
                                                          (toggle values (codes "replicate")
                                                            && encrypted
                                                            && not (toggle values (codes "raw")))
                                                          PolicyError.raw_required
                                                        ++ complain
                                                            (not (
                                                            value_of values (codes "discard")
                                                            =? codes "off")
                                                            && not (
                                                            value_of values (codes "discard")
                                                            =? codes "first")
                                                            && not (
                                                            value_of values (codes "discard")
                                                            =? codes "all"))
                                                            PolicyError.bad_discard)))))))))))))

-- What `Resolve` makes of the values.
unfoldable pub effective : Bool → List Text → Dict Text Value → Effective
effective encrypted remotes values =
    let requested = requested_flags values in
    let r = received_of values in
    record {
      enabled = toggle values (codes "enabled");
      grid = grid_or_none (parse_grid (value_of values (codes "policy")));
      remote = targets values (codes "remote");
      local = targets values (codes "local");
      incremental = value_of values (codes "incremental");
      requested = requested;
      send = effective_send encrypted requested;
      set_properties = r.set;
      ignore_properties = ignored r.set r.ignore;
      discard = value_of values (codes "discard");
      values = values;
      warnings =
          implied_warnings (requested.raw && not encrypted) requested
          ++ set_warnings r.set r.ignore;
      errors =
          setting_errors encrypted remotes values
          ++ (r.errors ++ raw_errors (requested.raw && encrypted) r.set (ignored r.set r.ignore));
    }

-- The dataset of a policy; its encryption root is empty or a dash where it is not encrypted.
pub record Dataset : Type 0 where
  pub name : Text
  pub encryption_root : Text

abbrev pub is_encrypted : Dataset → Bool
is_encrypted d = not (is_nil d.encryption_root) && not (d.encryption_root =? codes "-")

-- `Resolve`.
unfoldable pub resolve : Dataset → Option Effective → List Property → List Text → Effective
resolve d parent stored remotes =
    effective (is_encrypted d) remotes (resolve_values d.name (is_encrypted d) parent stored)

-- The dataset that set `raw`, if one did.
abbrev pub raw_dataset : Effective → Text
raw_dataset p =
    (get_or (namespace ++ codes "raw") p.values (record { value = []; dataset = [] })).dataset

-- `ForReplicationScope`.
unfoldable pub for_replication_scope : Bool → Text → Effective → Effective
for_replication_scope root_encrypted descendant p =
    let send = raw_plain (not p.send.raw && not root_encrypted) (record p.send { raw = true }) in
    if not p.send.replicate || is_nil descendant
    then p
    else if not p.send.raw && not (is_nil (raw_dataset p))
    then record p { errors = p.errors ++ PolicyError.explicit_raw descendant ∷ [] }
    else record p {
      send = send;
      warnings =
          p.warnings
          ++ ((if p.send.raw then [] else Warning.raw_enabled descendant ∷ [])
              ++ implied_warnings (not p.send.raw && not root_encrypted) p.requested);
      errors = p.errors ++ raw_receive_errors fixed_keys p.set_properties p.ignore_properties;
    }
