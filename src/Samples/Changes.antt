-- ===== src/Samples/Changes.antt =====
-- Changes of a configuration: one that the service does not take.
use dns_relay.Prelude.{◌≡◌, refl, true, false, none, some, [], ◌∷◌, refuse}
use dns_relay.Prelude.Slices.{Bytes}
use dns_relay.Admin.{running, restart, start, Files, Replies, apply_config, rollback}
use dns_relay.Admin.Rollback.{IsWhole, apply_config-IsWhole}

abbrev old_config : Bytes
old_config = b'a' ∷ []

abbrev new_config : Bytes
new_config = b'b' ∷ []

abbrev files : Files
files = record { config = some old_config; staged = none; backup = none }

-- The service starts again, and is not healthy.
abbrev sick : Replies
sick = record {
  http_health = λ text. some true;
  status = some running;
  writes_staged = true;
  part_staged = none;
  unstages = true;
  checks = λ text. true;
  backs_up = true;
  part_backup = none;
  renames = true;
  syncs = true;
  restarts = true;
  is_healthy = false;
  restores = true;
  syncs_again = true;
  restarts_again = false;
  starts_again = true;
  stops_again = true;
}

sick_run :
    apply_config files new_config true sick
    ≡ record { result = refuse; files = files; calls = restart ∷ restart ∷ start ∷ [] }
unfolding apply_config rollback
sick_run = refl

apply_config-IsWhole_example :
    IsWhole (some old_config) new_config sick (apply_config files new_config true sick)
apply_config-IsWhole_example = apply_config-IsWhole new_config sick refl refl files true refl
