-- ===== src/Autopilot/Dispatch.antt =====
-- driftdriver/project_autopilot.py: `_unclaim_claimed_task` and `dispatch_task`. Every check and what it
-- permits are under one lock; the checks are moments of their own.
use driftdriver.Base.{
  ℕ, suc, String, Option, none, some, List, [], ◌∷◌, is_empty, strip, left_strip, prefix,
  starts_with, concat, if◌then◌else◌,
}
use driftdriver.Base.Value.{
  Value, null, str, dict, Fields, field, end, Result, ok, err, is_zero, truthy,
}
use driftdriver.Base.Platform.{Platform}
use driftdriver.Base.Act.{return, lift, resume, ◌>>=◌}
use driftdriver.Control.Authority.{Verdict}
use driftdriver.Directive.Action.{claim_task, Directive}
use driftdriver.Directive.Shim.{Surroundings, Effects, execute}
use driftdriver.Autopilot.State.{
  AutopilotConfig, WorkerContext, Status, Completed, Communicated, ended, overdue, raised, Outside,
  directed, launched, unclaimed, State, Step, happen, change, run_command, check, id_of, text_at,
  store,
}
use driftdriver.Autopilot.Tasks.{build_worker_prompt, extra_env}
use driftdriver.Autopilot.Talk.{launch_worker, get_of, converse}

-- A new context of a task.
abbrev pub context : Fields → Status → String → WorkerContext
context task status response = record {
  task_id = id_of task;
  task_title = text_at "title" task;
  worker_name = concat ("ap-" ∷ id_of task ∷ []);
  session_id = null;
  status = status;
  response = response;
  drift_findings = [];
  drift_fail_count = 0;
}

abbrev or_text : String → String → String
or_text a b = if is_empty a then b else a

-- The text for a failure to unclaim.
unfoldable pub unclaim_problem : Outside → Result Completed → Option String
unclaim_problem o (ok c) =
    if is_zero c.returncode
    then none
    else some (
        concat (
          "unclaim failed: "
          ∷ prefix 180 (strip (or_text c.stderr (or_text c.stdout "command failed")))
          ∷ []))
unclaim_problem o (err f) = some (concat ("unclaim failed: " ∷ o.fault_text f ∷ []))

-- `_unclaim_claimed_task`
unfoldable pub unclaim_claimed_task : Outside → String → Step (Option String)
unclaim_claimed_task o id = happen (unclaimed id) >>= λ _.
    return (unclaim_problem o (run_command o.fault_text (o.unclaim id)))

abbrev pub with_problem : String → Option String → String
with_problem response none = response
with_problem response (some problem) = concat (response ∷ "; " ∷ problem ∷ [])

-- The directive of the claim.
unfoldable pub claim_directive : Outside → AutopilotConfig → Fields → Directive
claim_directive o c task = record {
  source = "project_autopilot";
  repo = c.project_name;
  action = claim_task;
  params = dict (
      field "task_id" (str (id_of task))
        (field "agent" (str (concat ("ap-" ∷ id_of task ∷ []))) end));
  reason = "autopilot claiming task for execution";
  authority = none;
  priority = "normal";
  id = o.directive_id (id_of task);
  timestamp = o.timestamp (id_of task);
}

-- The shim at check number `k`: the repository is as that moment finds it.
abbrev pub shim_at : Outside → ℕ → Surroundings
shim_at o k = record o.shim { repository = λ path. (o.moment k).1 }

-- `shim.execute(directive)`
unfoldable pub executed :
    Platform → Outside → AutopilotConfig → Fields → State → Effects × Result String
executed p o c task s =
    execute p (o.moment s.checks).0 (shim_at o s.checks) (claim_directive o c task) s.effects

abbrev pub claimed_state : Fields → Effects → State → State
claimed_state task effects s = record s {
  checks = suc s.checks;
  effects = effects;
  happenings = directed (id_of task) ∷ s.happenings;
}

-- The claim, whose answer the code drops; the shim's own admission is one more check.
unfoldable pub claim : Platform → Outside → AutopilotConfig → Fields → Step (Unit {0})
claim p o c task s =
    let x = executed p o c task s in resume (claimed_state task x.0 s, x.1) (λ _. return tt)

-- `run.workers[task["id"]] = ctx; return ctx`
abbrev pub finish : Fields → Status → String → Step WorkerContext
finish task status response = change (store (id_of task) (context task status response)) >>= λ _.
    return (context task status response)

-- A dispatch that is over before the worker has an entry in the run.
abbrev pub refuse : Fields → String → Step WorkerContext
refuse task response = return (context task Status.blocked response)

unfoldable pub give_up : Outside → Fields → String → Step WorkerContext
give_up o task response = unclaim_claimed_task o (id_of task) >>= λ problem.
    finish task Status.failed (with_problem response problem)

abbrev cli_command : String → List String
cli_command prompt =
    "claude" ∷ "--print" ∷ "--dangerously-skip-permissions" ∷ "--no-session-persistence" ∷ "-p"
    ∷ prompt ∷ []

-- The end of the fallback worker.
unfoldable pub conclude : Outside → Fields → Communicated → Step WorkerContext
conclude o task (ended c) =
    finish task (if is_zero c.returncode then Status.completed else Status.failed) c.stdout
conclude o task (overdue text) = give_up o task (concat ("worker timed out: " ∷ text ∷ []))
conclude o task (raised f) = lift (err f)

unfoldable pub started : Outside → Fields → Result (Unit {0}) → Step WorkerContext
started o task (ok x) = conclude o task (o.communicate (id_of task))
started o task (err f) = give_up o task (concat ("worker launch failed: " ∷ o.fault_text f ∷ []))

-- The fallback: direct CLI execution.
unfoldable pub run_cli : Outside → AutopilotConfig → Fields → Step WorkerContext
run_cli o c task = happen (launched (id_of task)) >>= λ _.
    started o task
      (o.start (id_of task) (cli_command (build_worker_prompt task c.project_dir)) (extra_env task))

-- The status and the response of a session worker that answered, or whose conversation raised.
unfoldable pub answered : Outside → Result String → Status × String
answered o (err f) = (Status.failed, concat ("worker conversation failed: " ∷ o.fault_text f ∷ []))
answered o (ok response) =
    let text = or_text response "worker conversation returned no output" in
    (if starts_with (left_strip text) "Error:" then Status.failed else Status.completed, text)

-- The context in the run with the session that it had.
abbrev pub finish_session : Fields → Value → Status × String → Step WorkerContext
finish_session task session r =
    let ctx : WorkerContext = record (context task r.0 r.1) { session_id = session } in
    change (store (id_of task) ctx) >>= λ _. return ctx

-- `stop_worker` in the `finally`, for a session that has an id.
abbrev pub stop_session : Outside → Fields → Value → Result (Unit {0})
stop_session o task session = if truthy session then o.stop (id_of task) else ok tt

unfoldable pub talk : Platform → Outside → Fields → Value → Step WorkerContext
talk p o task session =
    let r = answered o (converse p o (id_of task)) in
    lift (stop_session o task session) >>= λ _. finish_session task session r

unfoldable pub talk_to : Platform → Outside → Fields → Value → Step WorkerContext
talk_to p o task null = finish task Status.failed "worker launch failed"
talk_to p o task info = lift (get_of "session_id" info) >>= talk p o task

-- The way over the session driver.
unfoldable pub run_session : Platform → Outside → Fields → Step WorkerContext
run_session p o task = happen (launched (id_of task)) >>= λ _.
    lift (launch_worker o (concat ("ap-" ∷ id_of task ∷ [])) (extra_env task)) >>= talk_to p o task

-- After the second check.
unfoldable pub launch_if :
    Platform → Outside → AutopilotConfig → Fields → Verdict → Step WorkerContext
launch_if p o c task v =
    if v.enabled
    then (if o.has_driver then run_session p o task else run_cli o c task)
    else (unclaim_claimed_task o (id_of task) >>= λ problem.
        refuse task (with_problem v.reason problem))

-- After the first check.
unfoldable pub claim_if :
    Platform → Outside → AutopilotConfig → Fields → Verdict → Step WorkerContext
claim_if p o c task v =
    if v.enabled
    then (claim p o c task >>= λ _. check p o >>= launch_if p o c task)
    else refuse task v.reason

-- `dispatch_task`
unfoldable pub dispatch_task : Platform → Outside → AutopilotConfig → Fields → Step WorkerContext
dispatch_task p o c task = check p o >>= claim_if p o c task
