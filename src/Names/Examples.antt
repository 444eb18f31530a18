-- ===== src/Names/Examples.antt =====
-- The theorems about names at concrete names.
use boomerangz.Base.{◌≡◌, refl, ◌↔◌, text_dec, text_key, ℕ_key, codes}
use boomerangz.Base.Result.{ok}
use boomerangz.Names.{
  validate_dataset, validate_snapshot, map_receive_dataset, receive_drop_first, receive_drop_all,
  invalid_snapshot, map_by,
}
use boomerangz.Names.Accepted.{IsAccepted, validate_dataset_exact}
use boomerangz.Base.Result.{err}

snapshot_list_refused :
    validate_snapshot (codes "tank/a@x,y") ≡ err (invalid_snapshot (codes "tank/a@x,y"))
unfolding validate_snapshot boomerangz.Strings.is_space boomerangz.Strings.is_control text_dec
snapshot_list_refused = refl

snapshot_accepted : validate_snapshot (codes "tank/a@x-1") ≡ ok tt
unfolding validate_snapshot text_dec boomerangz.Strings.is_space boomerangz.Strings.is_control
snapshot_accepted = refl

dropped_first :
    map_receive_dataset (codes "tank/a/b") (codes "backup/x") receive_drop_first
    ≡ ok (codes "backup/x/a/b")
unfolding map_receive_dataset validate_dataset text_dec boomerangz.Strings.is_space
    boomerangz.Strings.is_control map_by
dropped_first = refl

dropped_all :
    map_receive_dataset (codes "tank/a/b") (codes "backup/x") receive_drop_all
    ≡ ok (codes "backup/x/b")
unfolding map_receive_dataset validate_dataset text_dec boomerangz.Strings.is_space
    boomerangz.Strings.is_control map_by
dropped_all = refl

validate_dataset_exact_example :
    (validate_dataset (codes "tank/a") ≡ ok tt) ↔ IsAccepted (codes "tank/a")
validate_dataset_exact_example = validate_dataset_exact (codes "tank/a")
