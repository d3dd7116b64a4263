-- ===== src/Autopilot/Health.antt =====
-- driftdriver/worker_monitor.py: the liveness of a worker from its events, and what to do with a dead one;
-- and `_run_health_check` of driftdriver/project_autopilot.py.
use driftdriver.Base.{
  ℕ, String, Bool, true, false, Option, none, some, List, [], ◌∷◌, is_empty, is_in, strip, leb, ltb,
  ◌==◌, if◌then◌else◌,
}
use driftdriver.Base.Value.{
  Value, null, bool, int, real, str, dict, Result, ok, err, ◌>>=◌, Fault, truthy, get_or, pos,
}
use driftdriver.Base.Act.{resume}
use driftdriver.Router.Ready.{same_key, hashed}
use driftdriver.Autopilot.State.{
  Outside, WorkerContext, AutopilotRun, Status, Step, change, store, escalate, fail,
}

-- `WorkerHealthState.status`
pub data Liveness : Type 0 where
  alive stale dead finished unknown : Liveness

-- A worker's health, with the age that the timestamp of its last event gives.
pub record WorkerHealth : Type 0 where
  pub status : Liveness
  pub last_event_type : Value
  pub last_event_age : Option ℕ

abbrev or_later : Option Value → Option Value → Option Value
or_later none v = v
or_later (some w) v = some w

-- The last line that is JSON; blank lines are passed over.
unfoldable pub last_valid : (String → Option Value) → List String → Option Value
last_valid loads [] = none
last_valid loads (line ∷ lines) =
    or_later (last_valid loads lines) (if is_empty (strip line) then none else loads (strip line))

-- `parse_last_event`, for the lines of the file's last 8192 bytes
unfoldable pub parse_last_event : Outside → Value → Option Value
parse_last_event o session = elim (o.events session) [
  | none ↦ none
  | some lines ↦ last_valid o.loads lines
]

-- `_event_timestamp`, as the age of the event.
unfoldable pub event_age : Outside → Value → Option ℕ
event_age o (bool b) = o.age (bool b)
event_age o (int n) = o.age (int n)
event_age o (real r) = o.age (real r)
event_age o (str s) = o.age (str s)
event_age o _ = none

unfoldable pub liveness_of_age : Option ℕ → Liveness
liveness_of_age none = dead
liveness_of_age (some age) = if ltb age 300 then alive else if ltb age 600 then stale else dead

abbrev pub is_final : Value → Bool
is_final (str s) = is_in s ("session_end" ∷ "stop" ∷ "completed" ∷ "failed" ∷ [])
is_final _ = false

abbrev no_event : WorkerHealth
no_event = record { status = unknown; last_event_type = str ""; last_event_age = none }

unfoldable pub health_of : Outside → Option Value → Result WorkerHealth
health_of o (some (dict event)) =
    let age = event_age o (get_or "ts" (int (pos 0)) event) in
    let kind = get_or "event" (str "") event in
    ok (record {
      status = if is_final kind then finished else liveness_of_age age;
      last_event_type = kind;
      last_event_age = age;
    })
health_of o none = ok no_event
health_of o (some null) = ok no_event
health_of o (some _) = err Fault.attribute_error

-- `check_worker_liveness`
unfoldable pub check_worker_liveness : Outside → Value → Result WorkerHealth
check_worker_liveness o session = health_of o (parse_last_event o session)

-- The two tests of `detect_dead_workers`.
unfoldable pub is_dead : ℕ → WorkerHealth → Bool
is_dead timeout h = elim h.status [
  | dead ↦ true
  | stale ↦ elim h.last_event_age [ none ↦ false | some age ↦ leb timeout age ]
  | _ ↦ false
]

-- `detect_dead_workers`: the rows, of a session and its task, whose worker is dead.
unfoldable pub detect_dead_workers {ℓ} :
    {A : Type ℓ} → Outside → ℕ → List (Value × A) → Result (List (Value × A))
detect_dead_workers o timeout [] = ok []
detect_dead_workers o timeout (row ∷ rows) = check_worker_liveness o row.0 >>= λ h.
    detect_dead_workers o timeout rows >>= λ rest.
    ok (if is_dead timeout h then row ∷ rest else rest)

-- `TriageAction.action`
pub data Triage : Type 0 where
  restart abandon escalated : Triage

-- `triage_dead_worker`
unfoldable pub triage_dead_worker : ℕ → String → Triage
triage_dead_worker drift_fails strategy =
    if strategy == "abandon"
    then abandon
    else if strategy == "aggressive"
    then (if leb 3 drift_fails then escalated else restart)
    else escalated

-- A task with its worker.
abbrev pub Assigned : Type 0
Assigned = String × WorkerContext

-- `running[session_id] = task_id`
unfoldable pub put_session : Value → Assigned → List (Value × Assigned) → List (Value × Assigned)
put_session session row [] = (session, row) ∷ []
put_session session row (old ∷ rest) =
    if same_key old.0 session then (old.0, row) ∷ rest else old ∷ put_session session row rest

-- `ctx.status == "running" and ctx.session_id`
abbrev pub is_running : Status → Value → Bool
is_running Status.running session = truthy session
is_running _ session = false

-- The map of the running workers.
unfoldable pub running_workers :
    List Assigned → List (Value × Assigned) → Result (List (Value × Assigned))
running_workers [] found = ok found
running_workers ((id, ctx) ∷ workers) found =
    let others = running_workers workers found in
    if is_running ctx.status ctx.session_id
    then (hashed ctx.session_id >>= λ session.
        running_workers workers (put_session session (id, ctx) found))
    else others

abbrev with_status : Status → WorkerContext → WorkerContext
with_status status ctx = record ctx { status = status }

abbrev act_on : Triage → Assigned → AutopilotRun → AutopilotRun
act_on restart (id, ctx) r = r
act_on abandon (id, ctx) r = fail id (store id (with_status Status.failed ctx) r)
act_on escalated (id, ctx) r = escalate id (store id (with_status Status.escalated ctx) r)

-- The loop over the dead workers.
unfoldable pub triage_each : List (Value × Assigned) → AutopilotRun → AutopilotRun
triage_each [] r = r
triage_each (row ∷ rows) r =
    triage_each rows (act_on (triage_dead_worker (row.1).1.drift_fail_count "conservative") row.1 r)

-- What `_run_health_check` does to the run.
unfoldable pub checked_run : Outside → AutopilotRun → Result AutopilotRun
checked_run o r = running_workers r.workers [] >>= λ rows.
    detect_dead_workers o 600 rows >>= λ dead. ok (triage_each dead r)

-- `_run_health_check`
unfoldable pub run_health_check : Outside → Step (Unit {0})
run_health_check o s = resume (s, checked_run o s.run) (λ r. change (λ _. r))
