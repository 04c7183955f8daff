-- ===== src/Admin.antt =====
-- The change of a configuration, dns_relay_admin/src/apply.rs. What the file system, the service manager, toml
-- and the check of a configuration come to are arguments; a service call is an entry of the trace. An error
-- of an operation carries no text.
pub mod Rollback
use dns_relay.Prelude.{
  Bool, true, false, not, Option, none, some, List, [], ◌∷◌, ◌++◌, if◌then◌else◌, Outcome, ok,
  refuse,
}
use dns_relay.Prelude.Slices.{Bytes}

pub data ServiceStatus : Type 0 where
  running : ServiceStatus
  stopped : ServiceStatus

pub data ServiceCall : Type 0 where
  restart : ServiceCall
  start : ServiceCall
  stop : ServiceCall

-- The files of the paths, with their content.
pub record Files : Type 0 where
  pub config : Option Bytes
  pub staged : Option Bytes
  pub backup : Option Bytes

-- `http_health` is what parse_config and exposes_http_health give. Of a step that fails, what it may
-- leave in its file.
pub record Replies : Type 0 where
  pub http_health : Bytes → Option Bool
  pub status : Option ServiceStatus
  pub writes_staged : Bool
  pub part_staged : Option Bytes
  pub unstages : Bool
  pub checks : Bytes → Bool
  pub backs_up : Bool
  pub part_backup : Option Bytes
  pub renames : Bool
  pub syncs : Bool
  pub restarts : Bool
  pub is_healthy : Bool
  pub restores : Bool
  pub syncs_again : Bool
  pub restarts_again : Bool
  pub starts_again : Bool
  pub stops_again : Bool

pub record Applied : Type 0 where
  pub result : Outcome (Unit {0})
  pub files : Files
  pub calls : List ServiceCall

abbrev pub outcome_of : Bool → Outcome (Unit {0})
outcome_of true = ok tt
outcome_of false = refuse

-- An error after `let _ = fs::remove_file(&staged)`.
abbrev pub unstaged : Files → Replies → Applied
unstaged files r = record {
  result = refuse;
  files = if r.unstages then record files { staged = none } else files;
  calls = [];
}

-- The files of a rollback, if its first step succeeds.
abbrev pub restored : Files → Option Bytes → Files
restored files (some _) = record files { config = files.backup; backup = none }
restored files none = record files { config = none }

abbrev pub restart_or_start : Replies → Outcome (Unit {0}) × List ServiceCall
restart_or_start r =
    if r.restarts_again
    then (ok tt, restart ∷ [])
    else (outcome_of r.starts_again, restart ∷ start ∷ [])

abbrev pub service_back : ServiceStatus → Replies → Outcome (Unit {0}) × List ServiceCall
service_back running r = restart_or_start r
service_back stopped r = (outcome_of r.stops_again, stop ∷ [])

-- `rollback`, and the error that follows it: both are errors. `live` is what the path of the
-- configuration held before, if it held something.
unfoldable pub rollback :
    Files → Option Bytes → ServiceStatus → Replies → List ServiceCall → Applied
rollback files live prior r calls =
    if r.restores
    then record {
      result = refuse;
      files = restored files live;
      calls = if r.syncs_again then calls ++ (service_back prior r).1 else calls;
    }
    else record { result = refuse; files = files; calls = calls }

abbrev pub wait_for_http_health : Bool → Replies → Bool
wait_for_http_health has_http_health r = if has_http_health then r.is_healthy else true

-- Whether the service takes the configuration, and the calls.
abbrev pub put_to_use : ServiceStatus → Bool → Bool → Replies → Bool × List ServiceCall
put_to_use running true has_http_health r =
    (if r.restarts then wait_for_http_health has_http_health r else false, restart ∷ [])
put_to_use running false has_http_health r = (wait_for_http_health has_http_health r, [])
put_to_use stopped _ has_http_health r = (true, [])

abbrev pub committed :
    Files → Option Bytes → ServiceStatus → Replies → Bool × List ServiceCall → Applied
committed files live prior r (true, calls) = record { result = ok tt; files = files; calls = calls }
committed files live prior r (false, calls) = rollback files live prior r calls

-- Behind the rename.
abbrev pub renamed : Files → Option Bytes → ServiceStatus → Bool → Bool → Replies → Applied
renamed files live prior restarting has_http_health r =
    if r.syncs
    then committed files live prior r (put_to_use prior restarting has_http_health r)
    else rollback files live prior r []

-- Behind the backup.
abbrev pub backed_up : Files → Option Bytes → ServiceStatus → Bool → Bool → Replies → Applied
backed_up files live prior restarting has_http_health r =
    if r.renames
    then renamed (record files { config = files.staged; staged = none }) live prior restarting
        has_http_health r
    else unstaged files r

abbrev pub with_backup : Files → Option Bytes → ServiceStatus → Bool → Bool → Replies → Applied
with_backup files none prior restarting has_http_health r =
    backed_up files none prior restarting has_http_health r
with_backup files (some live) prior restarting has_http_health r =
    if r.backs_up
    then backed_up (record files { backup = some live }) (some live) prior restarting
        has_http_health r
    else unstaged (record files { backup = r.part_backup }) r

abbrev pub checked : Files → Bytes → ServiceStatus → Bool → Bool → Replies → Applied
checked files config_toml prior restarting has_http_health r =
    if r.checks config_toml
    then with_backup files files.config prior restarting has_http_health r
    else unstaged files r

abbrev pub written : Files → Bytes → Bool → Bool → Replies → Option ServiceStatus → Applied
written files config_toml restarting has_http_health r none = record {
  result = refuse;
  files = files;
  calls = [];
}
written files config_toml restarting has_http_health r (some prior) =
    if r.writes_staged
    then checked (record files { staged = some config_toml }) config_toml prior restarting
        has_http_health r
    else unstaged (record files { staged = r.part_staged }) r

abbrev pub parsed : Files → Bytes → Bool → Replies → Option Bool → Applied
parsed files config_toml restarting r none = record { result = refuse; files = files; calls = [] }
parsed files config_toml restarting r (some has_http_health) =
    written files config_toml restarting has_http_health r r.status

unfoldable pub apply_config : Files → Bytes → Bool → Replies → Applied
unfolding rollback
apply_config files config_toml restarting r =
    parsed files config_toml restarting r (r.http_health config_toml)
