-- ===== src/Autopilot/Loop.antt =====
-- driftdriver/project_autopilot.py: `run_autopilot_loop`. A turn of the `while` loop says how the run ends,
-- or nothing; the loop runs on fuel, `none` where it is used up.
use driftdriver.Base.{
  ℕ, zero, suc, ◌-◌, String, Bool, true, false, not, ◌||◌, ◌&&◌, Option, none, some, List, [], ◌∷◌,
  keep, length, is_in, if◌then◌else◌,
}
use driftdriver.Base.Value.{Fields, ok, ℤ, pos, negsuc}
use driftdriver.Base.Platform.{Platform}
use driftdriver.Base.Act.{return, lift, resume, ◌>>=◌}
use driftdriver.Autopilot.State.{
  AutopilotConfig, AutopilotRun, WorkerContext, Status, Outside, checked, evolved, Step, happen,
  change, check, id_of, store, complete, fail, escalate,
}
use driftdriver.Autopilot.Tasks.{get_ready_tasks}
use driftdriver.Autopilot.Drift.{
  Score, red, DriftResult, run_drift_check, should_escalate, detect_recurring_findings,
  trigger_evolve,
}
use driftdriver.Autopilot.Health.{run_health_check}
use driftdriver.Autopilot.Dispatch.{dispatch_task}
use driftdriver.Autopilot.Peers.{run_peer_dispatch}

-- How a run ends: nothing is left to do, or dispatch is denied.
pub data Ending : Type 0 where
  finished denied : Ending

-- The check of the authority, which a dry run leaves out.
unfoldable pub permitted : Platform → Outside → AutopilotConfig → Step Bool
permitted p o c = if c.dry_run then return true else (check p o >>= λ v. return v.enabled)

-- The id is in one of the three sets.
unfoldable pub is_processed : AutopilotRun → String → Bool
is_processed r id =
    is_in id r.completed_tasks || is_in id r.failed_tasks || is_in id r.escalated_tasks

unfoldable pub actionable_of : AutopilotRun → List Fields → List Fields
actionable_of r ready = keep (λ t. not (is_processed r (id_of t))) ready

unfoldable pub take {ℓ} : {A : Type ℓ} → ℕ → List A → List A
take zero xs = []
take (suc n) [] = []
take (suc n) (x ∷ xs) = x ∷ take n xs

-- `xs[:n]`
unfoldable pub slice {ℓ} : {A : Type ℓ} → ℤ → List A → List A
slice (pos n) xs = take n xs
slice (negsuc n) xs = take (length xs - suc n) xs

unfoldable pub batch_of : AutopilotConfig → List String → List Fields → List Fields
batch_of c peer_dispatched actionable =
    slice c.max_parallel (keep (λ t. not (is_in (id_of t) peer_dispatched)) actionable)

abbrev pub is_red : Score → Bool
is_red red = true
is_red _ = false

-- The worker with the result of its drift check.
abbrev pub graded : DriftResult → WorkerContext → WorkerContext
graded d ctx = record ctx {
  drift_findings = d.findings;
  drift_fail_count = if is_red d.score then suc ctx.drift_fail_count else ctx.drift_fail_count;
}

abbrev pub conclude_escalated : String → WorkerContext → AutopilotRun → AutopilotRun
conclude_escalated id ctx r = escalate id (store id (record ctx { status = Status.escalated }) r)

-- What follows the drift check of a task.
unfoldable pub settle_drift :
    AutopilotConfig → String → DriftResult → WorkerContext → AutopilotRun → AutopilotRun
settle_drift c id d ctx r =
    let g = graded d ctx in
    if is_red d.score && should_escalate g c.drift_failure_threshold
    then conclude_escalated id g r
    else complete id (store id g r)

-- The drift check of a task whose worker has ended well.
unfoldable pub check_drift : Outside → AutopilotConfig → String → WorkerContext → Step Bool
check_drift o c id ctx = happen (checked id) >>= λ _.
    lift (run_drift_check o id) >>= λ d. change (settle_drift c id d ctx) >>= λ _. return true

-- What follows the dispatch of a task, by the status of its worker; `false` ends the run.
unfoldable pub follow : Outside → AutopilotConfig → String → WorkerContext → Status → Step Bool
follow o c id ctx Status.blocked = return false
follow o c id ctx Status.failed = change (fail id) >>= λ _. return true
follow o c id ctx _ = check_drift o c id ctx

unfoldable pub dispatch_one : Platform → Outside → AutopilotConfig → Fields → Step Bool
dispatch_one p o c task =
    if c.dry_run
    then (change (complete (id_of task)) >>= λ _. return true)
    else (dispatch_task p o c task >>= λ ctx. follow o c (id_of task) ctx ctx.status)

abbrev pub go_on : Step Bool → Bool → Step Bool
go_on later true = later
go_on later false = return false

-- The loop over the batch; `false` ends the run.
unfoldable pub dispatch_each : Platform → Outside → AutopilotConfig → List Fields → Step Bool
dispatch_each p o c [] = return true
dispatch_each p o c (task ∷ batch) = dispatch_one p o c task >>= go_on (dispatch_each p o c batch)

abbrev has_some {ℓ} : {A : Type ℓ} → List A → Bool
has_some [] = false
has_some (x ∷ xs) = true

unfoldable pub evolve_if : Outside → Bool → Step (Unit {0})
evolve_if o true = happen evolved >>= λ _. lift (trigger_evolve o) >>= λ _. return tt
evolve_if o false = return tt

-- The check for findings that recur, which a dry run leaves out.
unfoldable pub learn : Outside → AutopilotConfig → Step (Unit {0})
learn o c s =
    let recurs = has_some (detect_recurring_findings s.run c.drift_failure_threshold) in
    evolve_if o (not c.dry_run && recurs) s

abbrev pub end_of_batch : Outside → AutopilotConfig → Bool → Step (Option Ending)
end_of_batch o c true = learn o c >>= λ _. return none
end_of_batch o c false = return (some denied)

unfoldable pub run_batch :
    Platform → Outside → AutopilotConfig → List Fields → Bool → Step (Option Ending)
run_batch p o c batch true = dispatch_each p o c batch >>= end_of_batch o c
run_batch p o c batch false = return (some denied)

-- The second phase, once the peers have taken tasks.
unfoldable pub local_phase :
    Platform → Outside → AutopilotConfig → List Fields → List String → Step (Option Ending)
local_phase p o c actionable peer_dispatched =
    permitted p o c >>= run_batch p o c (batch_of c peer_dispatched actionable)

unfoldable pub ask_peers :
    Platform → Outside → AutopilotConfig → List Fields → Bool → Step (Option Ending)
ask_peers p o c actionable false s = (s, ok (some denied))
ask_peers p o c actionable true s =
    (run_peer_dispatch p o c (o.peers s.run.loop_count) actionable >>= local_phase p o c actionable)
      s

-- Both phases, for the tasks that are left.
unfoldable pub work :
    Platform → Outside → AutopilotConfig → Bool → List Fields → Step (Option Ending)
work p o c registry [] = return (some finished)
work p o c registry (t ∷ ts) =
    if registry
    then (permitted p o c >>= ask_peers p o c (t ∷ ts))
    else local_phase p o c (t ∷ ts) []

unfoldable pub look : Platform → Outside → AutopilotConfig → Bool → Bool → Step (Option Ending)
look p o c registry false s = (s, ok (some denied))
look p o c registry true s =
    resume (s, get_ready_tasks p o s.run.loop_count)
      (λ ready. work p o c registry (actionable_of s.run ready))

abbrev pub next_turn : AutopilotRun → AutopilotRun
next_turn r = record r { loop_count = suc r.loop_count }

-- The body of the `while` loop.
unfoldable pub turn : Platform → Outside → AutopilotConfig → Bool → Step (Option Ending)
turn p o c registry =
    change next_turn >>= λ _. run_health_check o >>= λ _. permitted p o c >>= look p o c registry

abbrev pub or_again : Step (Option Ending) → Option Ending → Step (Option Ending)
or_again again (some e) = return (some e)
or_again again none = again

unfoldable pub turns : Platform → Outside → AutopilotConfig → Bool → ℕ → Step (Option Ending)
turns p o c registry zero = return none
turns p o c registry (suc fuel) = turn p o c registry >>= or_again (turns p o c registry fuel)

-- `_init_peer_registry`, unless the configuration forbids it
unfoldable pub has_registry : Outside → AutopilotConfig → Bool
has_registry o c = not c.no_peer_dispatch && has_some (o.peers 0)

unfoldable pub run_if : Platform → Outside → AutopilotConfig → ℕ → Bool → Step (Option Ending)
run_if p o c fuel true = turns p o c (has_registry o c) fuel
run_if p o c fuel false = return (some denied)

-- `run_autopilot_loop`
unfoldable pub run_autopilot_loop : Platform → Outside → AutopilotConfig → ℕ → Step (Option Ending)
run_autopilot_loop p o c fuel = permitted p o c >>= run_if p o c fuel
