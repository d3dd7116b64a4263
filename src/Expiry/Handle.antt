-- ===== src/Expiry/Handle.antt =====
-- driftdriver/speedriftd.py: `handle_lease_expiry`. It holds the expiry lock and the control lock, so it
-- is one step.
use driftdriver.Base.{
  ℕ, String, Bool, true, false, not, ◌&&◌, ◌||◌, Option, none, some, [], ◌∷◌, ◌++◌, is_empty, is_in,
  ◌==◌, if◌then◌else◌,
}
use driftdriver.Base.Value.{
  null, bool, int, pos, str, Result, ok, ◌>>=◌, is_true, is_the_text, equals_zero, or_else,
}
use driftdriver.Base.Platform.{Platform, field_text, word}
use driftdriver.Control.State.{Control, elevated_modes}
use driftdriver.Control.Authority.{load_control_state}
use driftdriver.Expiry.Decision.{
  Marker, marker_or_empty, plain_text, lease_is_active_raw, lease_identity, Decision,
  evaluate_lease_expiry_stop,
}
use driftdriver.Expiry.Record.{
  World, ServiceCall, service_status, service_stop, reserve_lease_expiry_stop,
  record_lease_expiry_stop,
}
use driftdriver.Expiry.Service.{Environment, workgraph_service_running, stop_workgraph_service}

-- The arguments of `handle_lease_expiry`, `previous_control or {}` already taken.
pub record Observation : Type 0 where
  pub control : Control
  pub previous : Control
  pub previous_stop : Option Marker

-- `bool(str(previous_stop.get("stopped_lease_key") or ""))` and a failed stop, if there is a record
abbrev stop_failed : Option Marker → Bool
stop_failed none = false
stop_failed (some k) = not (equals_zero k.stop_exit_code)

abbrev pub stopped_key : Platform → Option Marker → String
stopped_key p k = plain_text p (marker_or_empty k).stopped_lease_key

unfoldable pub prior_active_transition : Platform → Observation → Bool
prior_active_transition p o =
    is_true o.previous.lease_active && is_in (word p o.previous.mode "") elevated_modes

unfoldable pub released_transition : Platform → Observation → Bool
unfolding prior_active_transition
released_transition p o =
    let vacant = is_empty (field_text p o.control.lease_owner) in
    let failed_release =
      vacant && stop_failed o.previous_stop && not (is_empty (stopped_key p o.previous_stop)) in
    (prior_active_transition p o || failed_release) && vacant

unfoldable pub release_key : Platform → Observation → String
release_key p o =
    if is_empty (field_text p o.previous.lease_owner)
    then stopped_key p o.previous_stop
    else lease_identity p o.previous

unfoldable pub same_lease_failed : Platform → Observation → Bool
same_lease_failed p o =
    let expected =
      if released_transition p o then release_key p o else lease_identity p o.control in
    stop_failed o.previous_stop && stopped_key p o.previous_stop == expected

abbrev called : ServiceCall → World → World
called call w = record w { calls = w.calls ++ call ∷ [] }

-- The record of a reconciled stop, by what the status command said of the service.
unfoldable pub conclude :
    Platform → ℕ → Environment → Decision → World → Option Bool → Marker × World
conclude p now env d w none =
    record_lease_expiry_stop p now d
      (record {
        exit_code = null;
        unknown = bool true;
        stdout = str "reconciled with unverifiable service state; no duplicate stop issued";
        stderr = str "";
      })
      true w
conclude p now env d w (some false) =
    record_lease_expiry_stop p now d
      (record {
        exit_code = int (pos 0);
        unknown = null;
        stdout = str "reconciled stopped service state";
        stderr = str "";
      })
      true w
conclude p now env d w (some true) =
    record_lease_expiry_stop p now d (stop_workgraph_service env) true (called service_stop w)

-- The reconciliation of a stop that was reserved and has no outcome on record.
unfoldable pub reconcile : Platform → ℕ → Environment → String → Marker → World → Marker × World
reconcile p now env lease_key marker w =
    let decision : Decision = record {
      lease_key = lease_key;
      reason = plain_text p (or_else marker.reason (str "expired_lease"));
      mode = plain_text p marker.mode;
      lease_owner = plain_text p marker.lease_owner;
      prior_key = plain_text p marker.prior_key;
    } in
    conclude p now env decision (called service_status w) (workgraph_service_running p env)

-- The decision of the locked step, if there is to be a stop.
unfoldable pub decide_stop :
    Platform → ℕ → Observation → Control → Option Marker → String → Result (Option Decision)
decide_stop p now o locked marker lease_key =
    let prior_key = stopped_key p marker in
    if released_transition p o
    then ok (
        if prior_key == lease_key
        then none
        else some (record {
          lease_key = lease_key;
          reason = "released_lease";
          mode = word p o.previous.mode "";
          lease_owner =
              field_text p
                (or_else o.previous.lease_owner (marker_or_empty o.previous_stop).lease_owner);
          prior_key = prior_key;
        }))
    else evaluate_lease_expiry_stop p now locked marker

-- Reserve, stop, record.
unfoldable pub carry_out :
    Platform → ℕ → Environment → World → Option Decision → Option Marker × World
carry_out p now env w none = (none, w)
carry_out p now env w (some d) =
    let reserved = reserve_lease_expiry_stop p now d w in
    let (k, w') =
      record_lease_expiry_stop p now d (stop_workgraph_service env) false
        (called service_stop reserved) in
    (some k, w')

abbrev pub is_stopping : Platform → Marker → String → Bool
is_stopping p marker lease_key =
    plain_text p marker.stopped_lease_key == lease_key && is_the_text "stopping" marker.stop_state

-- The step under the locks, for the lease `lease_key`.
unfoldable pub stop_lease :
    Platform
    → ℕ
    → Environment
    → Observation
    → Control
    → String
    → World
    → Result (Option Marker × World)
stop_lease p now env o locked lease_key w =
    let marker = marker_or_empty w.marker in
    if is_stopping p marker lease_key
    then ok (let (k, w') = reconcile p now env lease_key marker w in (some k, w'))
    else decide_stop p now o locked w.marker lease_key >>= λ d. ok (carry_out p now env w d)

-- The checks of the control state that the step loads.
unfoldable pub recheck :
    Platform
    → ℕ
    → Environment
    → Observation
    → World
    → Control
    → Bool
    → Result (Option Marker × World)
recheck p now env o w locked active =
    let same = lease_identity p locked == lease_identity p o.control in
    if active
    then ok (none, w)
    else if released_transition p o
    then if is_empty (field_text p locked.lease_owner)
      then stop_lease p now env o locked (release_key p o) w
      else ok (none, w)
    else if same
    then stop_lease p now env o locked (lease_identity p locked) w
    else ok (none, w)

-- The body of the two `with` blocks.
unfoldable pub locked_step :
    Platform → ℕ → Environment → Observation → World → Result (Option Marker × World)
locked_step p now env o w = do
  locked ← load_control_state p now w.repository
  active ← lease_is_active_raw p now locked
  recheck p now env o w locked active

-- `handle_lease_expiry`
unfoldable pub handle_lease_expiry :
    Platform → ℕ → Environment → Observation → World → Result (Option Marker × World)
handle_lease_expiry p now env o w =
    if not (prior_active_transition p o || same_lease_failed p o)
    then ok (none, w)
    else if not (is_in (word p o.control.mode "") elevated_modes)
    then ok (none, w)
    else lease_is_active_raw p now o.control >>= λ active.
        (if active then ok (none, w) else locked_step p now env o w)
