-- ===== src/Expiry/Record.antt =====
-- driftdriver/speedriftd_state.py: `reserve_lease_expiry_stop` and `record_lease_expiry_stop`.
use driftdriver.Base.{
  ℕ, String, Bool, false, ◌||◌, Option, none, some, List, [], ◌∷◌, ◌++◌, is_empty, prefix,
  if◌then◌else◌,
}
use driftdriver.Base.Value.{Value, null, bool, str, equals_zero, is_true}
use driftdriver.Base.Platform.{Platform}
use driftdriver.Control.Authority.{Repository}
use driftdriver.Expiry.Decision.{Marker, plain_text, Decision}

-- What a stop of the service returned: `stop_result`.
pub record StopResult : Type 0 where
  pub exit_code : Value
  pub unknown : Value
  pub stdout : Value
  pub stderr : Value

-- A row of the day's event log.
pub record Event : Type 0 where
  pub ts : String
  pub repo : String
  pub event_type : String
  pub state : String
  pub stopped_lease_key : Value
  pub mode : Value
  pub lease_owner : Value
  pub stop_exit_code : Value
  pub stop_stdout : Value
  pub stop_stderr : Value
  pub stop_succeeded : Bool
  pub stop_unknown : Bool
  pub reconciled : Bool

-- The `wg` commands that the expiry handling runs.
pub data ServiceCall : Type 0 where
  service_status service_stop : ServiceCall

-- The files of a repository that the handling reads and writes, with the calls made so far.
pub record World : Type 0 where
  pub repository : Repository
  pub marker : Option Marker
  pub events : List Event
  pub calls : List ServiceCall

-- `str(decision.get("reason") or "expired_lease")`
abbrev reason_of : Decision → String
reason_of d = if is_empty d.reason then "expired_lease" else d.reason

-- `reserve_lease_expiry_stop`
unfoldable pub reserve_lease_expiry_stop : Platform → ℕ → Decision → World → World
reserve_lease_expiry_stop p now d w = record w {
  marker = some (record {
    repo = str w.repository.name;
    stopped_lease_key = str d.lease_key;
    reserved_at = str (p.iso now);
    stopped_at = str "";
    stop_state = str "stopping";
    reconciled = bool false;
    mode = str d.mode;
    reason = str (reason_of d);
    lease_owner = str d.lease_owner;
    prior_key = str d.prior_key;
    stop_exit_code = null;
    stop_stdout = str "";
    stop_stderr = str "";
  });
}

-- `"stopped"`, `"unknown"` or `"failed"`
unfoldable pub stop_state : StopResult → String
stop_state s =
    if equals_zero s.exit_code then "stopped" else if is_true s.unknown then "unknown" else "failed"

unfoldable pub stop_record : Platform → ℕ → Repository → Decision → StopResult → Bool → Marker
stop_record p now r d s reconciled = record {
  repo = str r.name;
  stopped_lease_key = str d.lease_key;
  reserved_at = null;
  stopped_at = str (p.iso now);
  stop_state = str (stop_state s);
  reconciled = bool reconciled;
  mode = str d.mode;
  reason = str (reason_of d);
  lease_owner = str d.lease_owner;
  prior_key = str d.prior_key;
  stop_exit_code = s.exit_code;
  stop_stdout = str (prefix 500 (plain_text p s.stdout));
  stop_stderr = str (prefix 500 (plain_text p s.stderr));
}

-- `record_lease_expiry_stop`: the record, and the files after it. The marker of a failed stop is
-- removed.
unfoldable pub record_lease_expiry_stop :
    Platform → ℕ → Decision → StopResult → Bool → World → Marker × World
unfolding stop_record stop_state
record_lease_expiry_stop p now d s reconciled w =
    let succeeded = equals_zero s.exit_code in
    let unknown = is_true s.unknown in
    let k = stop_record p now w.repository d s reconciled in
    let event : Event = record {
      ts = p.iso now;
      repo = w.repository.name;
      event_type =
          if succeeded
          then "coordinator_stopped_on_lease_expiry"
          else if unknown
          then "coordinator_stop_unknown_on_lease_expiry"
          else "coordinator_stop_failed_on_lease_expiry";
      state = if succeeded then "expired" else if unknown then "unknown" else "stop_failed";
      stopped_lease_key = k.stopped_lease_key;
      mode = k.mode;
      lease_owner = k.lease_owner;
      stop_exit_code = k.stop_exit_code;
      stop_stdout = k.stop_stdout;
      stop_stderr = k.stop_stderr;
      stop_succeeded = succeeded;
      stop_unknown = unknown;
      reconciled = reconciled;
    } in
    (
      k,
      record w {
        marker = if succeeded || unknown then some k else none;
        events = w.events ++ event ∷ [];
      },
    )
