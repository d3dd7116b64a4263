-- ===== src/Scenarios/Stops.antt =====
-- Runs of driftdriver/speedriftd.py, `handle_lease_expiry`, on a repository whose lease has run out, and
-- on one whose lease was renewed after the snapshot.
use driftdriver.Base.{
  ℕ, ◌≡◌, refl, true, false, Option, none, some, [], left_strip, right_strip, is_space, strip,
  lower, prefix, concat, replace_z,
}
use driftdriver.Base.Value.{
  bool, int, pos, str, Fields, field, end, ok, to_int, get?, is_the_text, equals_zero,
}
use driftdriver.Base.Platform.{str_of, field_text, word}
use driftdriver.Control.State.{Control, update, coerce_lease_ttl, parse_iso_timestamp}
use driftdriver.Control.Normalize.{
  default_ttl, defaults, default_control, is_elevated, settle_mode, lease_flag, settle, normalize,
  normalize_control_state,
}
use driftdriver.Control.Authority.{
  ttl_malformed, dispatch_authority, apply_runtime_gate, Repository, load_control_state,
}
use driftdriver.Expiry.Decision.{
  Marker, marker_or_empty, lease_is_active_raw, lease_identity, stop_unless_recorded,
  evaluate_lease_expiry_stop,
}
use driftdriver.Expiry.Record.{
  World, reserve_lease_expiry_stop, record_lease_expiry_stop, stop_state, stop_record,
}
use driftdriver.Expiry.Service.{exited, Environment, stop_workgraph_service}
use driftdriver.Expiry.Handle.{
  Observation, stopped_key, prior_active_transition, released_transition, release_key,
  same_lease_failed, decide_stop, carry_out, stop_lease, recheck, locked_step, handle_lease_expiry,
}
use driftdriver.Expiry.Effect.{stops, Stopped}
use driftdriver.Expiry.Cycle.{
  Snapshot, Moments, early_expiry, collect_control, late_expiry, run_runtime_cycle,
  run_runtime_loop,
}
use driftdriver.Expiry.Cycles.{Accounted, run_runtime_loop-Accounted}
use driftdriver.Expiry.Once.{target, handle_lease_expiry-Stopped}
use driftdriver.Expiry.Again.{handle_lease_expiry-recorded, handle_lease_expiry_once}
use driftdriver.Scenarios.Toy.{toy, encode, decode, read, value_of}

abbrev lease : ℕ → Fields
lease ttl = field "mode" (str "supervise") (
    field "lease_owner" (str "ana") (
      field "lease_ttl_seconds" (int (pos ttl))
        (field "lease_acquired_at" (str "t") (field "lease_expires_at" (str "bt") end))))

abbrev repository : ℕ → Repository
repository ttl = record { name = "app"; located = ok tt; cfg = end; control = some (lease ttl) }

abbrev expired : Control
expired = record (defaults toy 5 "app" end (pos 0)) {
  mode = str "supervise";
  lease_owner = str "ana";
  lease_acquired_at = str "t";
  lease_ttl_seconds = int (pos 1);
  lease_expires_at = str "bt";
}

abbrev seen : Observation
seen = record {
  control = expired;
  previous = record expired { lease_active = bool true };
  previous_stop = none;
}

abbrev stops_well : Environment
stops_well = record {
  status = exited (pos 0) "" "";
  status_json = none;
  stop = exited (pos 0) "bye" "";
}

abbrev world : ℕ → World
world ttl = record { repository = repository ttl; marker = none; events = []; calls = [] }

abbrev renewed_control : Control
renewed_control = value_of expired (load_control_state toy 5 (repository 0))

renewed :
    (load_control_state toy 5 (repository 0) ≡ ok renewed_control)
    × (lease_is_active_raw toy 5 renewed_control ≡ ok true)
unfolding load_control_state normalize_control_state default_control default_ttl defaults normalize
    settle_mode is_elevated coerce_lease_ttl settle lease_flag update apply_runtime_gate
    dispatch_authority ttl_malformed to_int get? word field_text str_of lower strip left_strip
    right_strip is_space parse_iso_timestamp replace_z toy encode decode read lease_is_active_raw
renewed = (refl, refl)

abbrev run_renewed : Option Marker × World
run_renewed = value_of (none, world 0) (handle_lease_expiry toy 5 stops_well seen (world 0))

renewed_returns : handle_lease_expiry toy 5 stops_well seen (world 0) ≡ ok run_renewed
unfolding handle_lease_expiry prior_active_transition released_transition release_key
    same_lease_failed locked_step recheck stop_lease decide_stop evaluate_lease_expiry_stop
    stop_unless_recorded lease_identity concat carry_out reserve_lease_expiry_stop
    record_lease_expiry_stop stop_state stop_record stop_workgraph_service prefix load_control_state
    normalize_control_state default_control default_ttl defaults normalize settle_mode is_elevated
    coerce_lease_ttl settle lease_flag update apply_runtime_gate dispatch_authority ttl_malformed
    to_int get? word field_text str_of lower strip left_strip right_strip is_space
    parse_iso_timestamp replace_z toy encode decode read lease_is_active_raw
renewed_returns = refl

abbrev run : Option Marker × World
run = value_of (none, world 1) (handle_lease_expiry toy 5 stops_well seen (world 1))

abbrev kept : Marker
kept = marker_or_empty run.0

run_returns : handle_lease_expiry toy 5 stops_well seen (world 1) ≡ ok (some kept, run.1)
unfolding handle_lease_expiry prior_active_transition released_transition release_key
    same_lease_failed locked_step recheck stop_lease decide_stop evaluate_lease_expiry_stop
    stop_unless_recorded lease_identity concat carry_out reserve_lease_expiry_stop
    record_lease_expiry_stop stop_state stop_record stop_workgraph_service prefix load_control_state
    normalize_control_state default_control default_ttl defaults normalize settle_mode is_elevated
    coerce_lease_ttl settle lease_flag update apply_runtime_gate dispatch_authority ttl_malformed
    to_int get? word field_text str_of lower strip left_strip right_strip is_space
    parse_iso_timestamp replace_z toy encode decode read lease_is_active_raw
run_returns = refl

handle_lease_expiry-Stopped_example : Stopped toy (target toy seen) (world 1) kept run.1
handle_lease_expiry-Stopped_example =
    handle_lease_expiry-Stopped toy 5 stops_well seen (world 1) run.1 kept run_returns

abbrev again : Option Marker × World
again = value_of (none, world 1) (handle_lease_expiry toy 6 stops_well seen run.1)

again_returns : handle_lease_expiry toy 6 stops_well seen run.1 ≡ ok again
unfolding handle_lease_expiry prior_active_transition released_transition release_key
    same_lease_failed locked_step recheck stop_lease decide_stop evaluate_lease_expiry_stop
    stop_unless_recorded lease_identity concat carry_out reserve_lease_expiry_stop
    record_lease_expiry_stop stop_state stop_record stop_workgraph_service prefix load_control_state
    normalize_control_state default_control default_ttl defaults normalize settle_mode is_elevated
    coerce_lease_ttl settle lease_flag update apply_runtime_gate dispatch_authority ttl_malformed
    to_int get? word field_text str_of lower strip left_strip right_strip is_space
    parse_iso_timestamp replace_z toy encode decode read lease_is_active_raw
again_returns = refl

run_kept :
    (equals_zero kept.stop_exit_code ≡ true)
    × (stopped_key toy run.1.marker ≡ target toy seen)
    × (is_the_text "stopping" (marker_or_empty run.1.marker).stop_state ≡ false)
unfolding handle_lease_expiry prior_active_transition released_transition release_key
    same_lease_failed locked_step recheck stop_lease decide_stop evaluate_lease_expiry_stop
    stop_unless_recorded lease_identity concat carry_out reserve_lease_expiry_stop
    record_lease_expiry_stop stop_state stop_record stop_workgraph_service prefix load_control_state
    normalize_control_state default_control default_ttl defaults normalize settle_mode is_elevated
    coerce_lease_ttl settle lease_flag update apply_runtime_gate dispatch_authority ttl_malformed
    to_int get? word field_text str_of lower strip left_strip right_strip is_space
    parse_iso_timestamp replace_z toy encode decode read lease_is_active_raw
run_kept = (refl, refl, refl)

handle_lease_expiry_once_example : again ≡ (none, run.1)
handle_lease_expiry_once_example =
    handle_lease_expiry_once toy 5 6 stops_well stops_well seen seen (world 1) run.1 kept again
      run_returns run_kept.0 refl again_returns

handle_lease_expiry-recorded_example : again ≡ (none, run.1)
handle_lease_expiry-recorded_example =
    handle_lease_expiry-recorded toy 6 stops_well seen run.1 again run_kept.1 run_kept.2
      again_returns

-- Two cycles of the daemon after the lease ran out, with nobody else at work.
abbrev moments : ℕ → Moments
moments k = record {
  loaded = 5;
  early = 5;
  collected = 5;
  late = 5;
  early_service = stops_well;
  late_service = stops_well;
  observed = ok tt;
  before_collection = λ r. r;
  before_late = λ r. r;
}

abbrev seen_active : Snapshot
seen_active = record { control = seen.previous; last_lease_expiry_stop = none }

abbrev two_cycles : World × Snapshot
two_cycles = value_of (world 1, seen_active) (run_runtime_loop toy moments 2 (world 1, seen_active))

two_cycles_run :
    (run_runtime_loop toy moments 2 (world 1, seen_active) ≡ ok two_cycles)
    × (stops two_cycles.0 ≡ 1)
unfolding run_runtime_loop run_runtime_cycle early_expiry collect_control late_expiry
    handle_lease_expiry prior_active_transition released_transition release_key same_lease_failed
    locked_step recheck stop_lease decide_stop evaluate_lease_expiry_stop stop_unless_recorded
    lease_identity concat carry_out reserve_lease_expiry_stop record_lease_expiry_stop stop_state
    stop_record stop_workgraph_service prefix load_control_state normalize_control_state
    default_control default_ttl defaults normalize settle_mode is_elevated coerce_lease_ttl settle
    lease_flag update apply_runtime_gate dispatch_authority ttl_malformed to_int get? word
    field_text str_of lower strip left_strip right_strip is_space parse_iso_timestamp replace_z toy
    encode decode read lease_is_active_raw
two_cycles_run = (refl, refl)

run_runtime_loop-Accounted_example : Accounted 2 (world 1) two_cycles.0
run_runtime_loop-Accounted_example =
    run_runtime_loop-Accounted toy moments 2 (world 1) two_cycles.0 seen_active two_cycles.1
      two_cycles_run.0
