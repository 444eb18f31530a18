-- ===== src/Transfer/Examples.antt =====
-- A root with a child, both sent to one local destination, and the binding of that destination.
use boomerangz.Base.{
  ℕ, zero, suc, ◌≡◌, refl, ap, true, false, Option, none, some, List, [], ◌∷◌, ◌++◌, arith, Text,
  text_dec, text_key, ℕ_key, codes, length,
}
use boomerangz.Base.Result.{ok}
use boomerangz.Base.Sorting.{sort_by}
use boomerangz.Strings.{is_space, is_control}
use boomerangz.Names.{validate_dataset, inside, map_receive_dataset, map_by}
use boomerangz.Grid.{no_grid}
use boomerangz.Ownership.{Property}
use boomerangz.Policy.{Effective, namespace}
use boomerangz.Lifecycle.{State, current_state, state_version, version_loop, version_of, is_row}
use boomerangz.Lifecycle.Examples.{tank, row, tank_rows, tank_objects, state_of}
use boomerangz.References.{hex}
use boomerangz.References.Examples.{length_hash}
use boomerangz.Transfer.{Member, Request, streams, mapped}
use boomerangz.Transfer.Streams.{mapped_lem}
use boomerangz.Transfer.Binding.{
  TargetBinding, BindingRecord, BindingCodec, anchored, binding_property, stored_target_binding,
  encode_binding, validate_binding, is_clean,
}
use boomerangz.Transfer.Binding.Kept.{IsAnchored, Free, stored_target_binding-encode}

abbrev pub policy_of : Text → Effective
policy_of dataset = record {
  enabled = true;
  grid = no_grid;
  remote = [];
  local = codes "backup/x" ∷ [];
  incremental = codes "latest";
  requested = record {
    large_blocks = true;
    compressed = true;
    embedded_data = false;
    raw = false;
    props = false;
    replicate = false;
  };
  send = record {
    large_blocks = true;
    compressed = true;
    embedded_data = false;
    raw = false;
    props = false;
    replicate = false;
  };
  set_properties = [];
  ignore_properties = [];
  discard = codes "off";
  values = (namespace ++ codes "enabled", record { value = codes "on"; dataset = dataset }) ∷ [];
  warnings = [];
  errors = [];
}

abbrev child : Text
child = codes "tank/a"

abbrev member_of : Text → Member
member_of name = record { dataset = name; policy = policy_of tank; snapshot = [] }

abbrev pub request_of : List Member → Request
request_of members = record {
  source = tank;
  destination_root = codes "backup/x";
  snapshot = [];
  policy = policy_of tank;
  members = members;
  transport = [];
  remote_name = [];
  canonical_target = [];
}

child_mapped :
    mapped (request_of (member_of child ∷ member_of tank ∷ [])) child
    ≡ ok (codes "backup/x", codes "backup/x/a")
unfolding mapped map_receive_dataset map_by inside validate_dataset text_dec is_space is_control
child_mapped = refl

mapped_lem_example :
    (validate_dataset (codes "backup/x") ≡ ok tt)
    × (inside (codes "backup/x") (codes "backup/x") ≡ true)
    × (inside (codes "backup/x/a") (codes "backup/x") ≡ true)
    × (mapped (request_of (member_of child ∷ member_of tank ∷ [])) tank
          ≡ ok (codes "backup/x", codes "backup/x/a")
        → child ≡ tank)
mapped_lem_example =
    mapped_lem (request_of (member_of child ∷ member_of tank ∷ [])) child tank (codes "backup/x")
      (codes "backup/x/a") child_mapped

-- The members stand parents first, however the request lists them.
children_last :
    streams (request_of (member_of child ∷ member_of tank ∷ []))
    ≡ ok (member_of tank ∷ member_of child ∷ [])
unfolding streams inside sort_by validate_dataset text_dec is_space is_control
children_last = refl

-- A codec that writes the lengths of the texts before them.
abbrev take_text : ℕ → Text → Text
take_text zero s = []
take_text (suc n) [] = []
take_text (suc n) (c ∷ s) = c ∷ take_text n s

abbrev drop_text : ℕ → Text → Text
drop_text zero s = s
drop_text (suc n) [] = []
drop_text (suc n) (c ∷ s) = drop_text n s

take_text-append : (s t : Text) → take_text (length s) (s ++ t) ≡ s
take_text-append [] t = refl
take_text-append (c ∷ s) t = ap (λ u. c ∷ u) (take_text-append s t)

drop_text-append : (s t : Text) → drop_text (length s) (s ++ t) ≡ t
drop_text-append [] t = refl
drop_text-append (c ∷ s) t = drop_text-append s t

abbrev decode_binding : Text → Option BindingRecord
decode_binding [] = none
decode_binding (p ∷ []) = none
decode_binding (p ∷ a ∷ []) = none
decode_binding (p ∷ a ∷ n ∷ s) =
    some (record { pool_guid = p; mapped = take_text n s; anchor_guid = a; anchor = drop_text n s })

abbrev encode_record : BindingRecord → Text
encode_record r = r.pool_guid ∷ r.anchor_guid ∷ length r.mapped ∷ (r.mapped ++ r.anchor)

pub decode_binding_lem : (r : BindingRecord) → decode_binding (encode_record r) ≡ some r
decode_binding_lem r =
    ground (arith, take_text-append r.mapped r.anchor, drop_text-append r.mapped r.anchor)

abbrev pub plain_bindings : BindingCodec
plain_bindings = record {
  encode = encode_record;
  decode = decode_binding;
  decode-encode = decode_binding_lem;
}

abbrev target : TargetBinding
target = record {
  transport = codes "local";
  canonical_target = codes "local:backup/x";
  destination_root = codes "backup/x";
  mapped_dataset = codes "backup/x";
  pool = [];
  pool_guid = 0;
  anchor = [];
  anchor_guid = 0;
  relative_path = [];
}

-- The destination is bound to its parent, which is there.
abbrev bound : TargetBinding
bound = record target {
  pool = codes "backup";
  pool_guid = 21;
  anchor = codes "backup";
  anchor_guid = 22;
  relative_path = codes "x";
}

bound-IsAnchored : IsAnchored target bound
unfolding anchored is_clean inside validate_dataset text_dec is_space is_control
bound-IsAnchored = record {
  completed = refl;
  mapped_same = refl;
  mapped_valid = refl;
  anchor_valid = refl;
}

abbrev bound_value : Text
bound_value = encode_record (record {
  pool_guid = 21;
  mapped = codes "backup/x";
  anchor_guid = 22;
  anchor = codes "backup";
})

bound_encoded : encode_binding length_hash plain_bindings bound ≡ ok bound_value
unfolding encode_binding validate_binding hex text_dec
bound_encoded = refl

abbrev bound_row : Property
bound_row = row tank (binding_property length_hash (codes "local:backup/x")) bound_value

abbrev bound_state : State
bound_state = state_of tank_objects (tank_rows ++ bound_row ∷ []) []

bound_row_is : is_row tank (binding_property length_hash (codes "local:backup/x")) bound_row ≡ true
unfolding text_dec hex
bound_row_is = refl

bound_current : current_state bound_state tank ≡ ok tt
unfolding current_state state_version version_loop version_of text_dec hex
bound_current = refl

bound-Free : Free length_hash plain_bindings tank target tank_rows
unfolding text_dec hex
bound-Free = (refl, (refl, (refl, (refl, (refl, tt)))))

stored_target_binding-encode_example :
    stored_target_binding length_hash plain_bindings bound_state tank target ≡ ok (some bound)
stored_target_binding-encode_example =
    stored_target_binding-encode length_hash plain_bindings bound_state tank bound_value target
      bound bound_row tank_rows [] bound_encoded refl bound_row_is refl bound-Free tt bound_current
      bound-IsAnchored
