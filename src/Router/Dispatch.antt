-- ===== src/Router/Dispatch.antt =====
-- driftdriver/task_router.py: `dispatch_task` and the dispatchers that it calls.
use driftdriver.Base.{
  String, Bool, true, false, Option, none, some, List, [], ◌∷◌, is_empty, strip, prefix, concat,
  leb, ◌==◌, if◌then◌else◌,
}
use driftdriver.Base.Value.{
  Value, str, list, dict, nil, Fields, field, end, Result, ok, err, is_zero, truthy, get, get_or,
}
use driftdriver.Base.Platform.{Platform, str_of}
use driftdriver.Control.Authority.{Verdict}
use driftdriver.Directive.Command.{each}
use driftdriver.Router.Match.{ExecutorConfig}
use driftdriver.Router.Act.{
  Ran, exited, timed_out, broken, crashed, Posted, accepted, refused, raised, Outside, posted,
  unlocked, spawned, Act, return, resume, ◌>>=◌, lift, happen, dispatch_admission,
}
use driftdriver.Router.Schedule.{first_tag, parse_schedule_tag, infer_category, infer_urgency}

pub record DispatchResult : Type 0 where
  pub task_id : String
  pub dispatched : Bool
  pub executor : String
  pub error : Option String
  pub skipped_reason : Option String

abbrev pub done_by : String → ExecutorConfig → DispatchResult
done_by id x = record {
  task_id = id;
  dispatched = true;
  executor = x.name;
  error = none;
  skipped_reason = none;
}

abbrev pub failed_by : String → ExecutorConfig → String → DispatchResult
failed_by id x e = record {
  task_id = id;
  dispatched = false;
  executor = x.name;
  error = some e;
  skipped_reason = none;
}

abbrev pub skipped_by : String → String → String → DispatchResult
skipped_by id name why = record {
  task_id = id;
  dispatched = false;
  executor = name;
  error = none;
  skipped_reason = some why;
}

-- `str(task.get("id", "unknown"))`
abbrev pub task_id_of : Platform → Fields → String
task_id_of p task = str_of p (get_or "id" (str "unknown") task)

-- The payload of a TaskRequest.
unfoldable pub payload_of : Outside → String → Fields → String → String → Fields
payload_of o id task category urgency = field "task_id" (str id) (
    field "source" (str "speedrift-router") (
      field "category" (str category) (
        field "urgency" (str urgency) (
          field "context"
            (dict (
              field "title" (get_or "title" (str "") task) (
                field "description" (get_or "description" (str "") task) (
                  field "tags" (get_or "tags" (list nil) task) (
                    field "repo" (str o.repo_name)
                      (field "repo_path" (str o.repo_path) (field "wg_task_id" (str id) end)))))))
            end))))

unfoldable pub post_result : String → ExecutorConfig → Posted → Result DispatchResult
post_result id x accepted = ok (done_by id x)
post_result id x (refused e) = ok (failed_by id x e)
post_result id x (raised f) = err f

-- `_dispatch_http`
unfoldable pub dispatch_http : Platform → Outside → Fields → ExecutorConfig → Act DispatchResult
dispatch_http p o task x =
    let id = task_id_of p task in
    lift (infer_category p task) >>= λ category. lift (infer_urgency task) >>= λ urgency.
    happen (posted id) >>= λ _.
    lift (post_result id x (o.post x.endpoint (payload_of o id task category urgency)))

-- `a or b`, for texts
abbrev pub text_or : String → String → String
text_or a b = if is_empty a then b else a

unfoldable pub spawn_result : String → ExecutorConfig → Ran → Result DispatchResult
spawn_result id x (exited code out problem) = ok (
    if is_zero code
    then done_by id x
    else failed_by id x
        (text_or (prefix 200 (strip problem)) (text_or (prefix 200 (strip out)) "spawn failed")))
spawn_result id x timed_out =
    ok (failed_by id x "wg spawn timed out (30s) — possible graph lock or daemon issue")
spawn_result id x (broken e) = ok (failed_by id x e)
spawn_result id x (crashed f) = err f

unfoldable pub spawn_command : String → String → String → Value → List Value
spawn_command wg_dir id kind model =
    str "wg"
    ∷ str "--dir"
    ∷ str wg_dir
    ∷ str "spawn"
    ∷ str id
    ∷ str "--executor"
    ∷ str kind
    ∷ (if truthy model then str "--model" ∷ model ∷ [] else [])

-- The removal of a stale graph lock.
abbrev pub clear_lock : Outside → Act (Unit {0})
clear_lock o = if o.locked then happen unlocked else return tt

unfoldable pub spawn_in :
    Outside → Fields → ExecutorConfig → String → String → String → Act DispatchResult
spawn_in o task x kind id wg_dir =
    let cmd = spawn_command wg_dir id kind (get "model" task) in
    clear_lock o >>= λ _. happen (spawned id cmd) >>= λ _. lift (spawn_result id x (o.spawn cmd))

-- The verdict decides.
unfoldable pub spawn_admitted :
    Platform → Outside → Fields → ExecutorConfig → String → Verdict → Act DispatchResult
spawn_admitted p o task x kind v =
    let id = task_id_of p task in
    if v.enabled
    then (λ r. resume (r, o.wg_dir) (spawn_in o task x kind id))
    else return (
        skipped_by id x.name (
          concat ("dispatch admission denied: " ∷ text_or v.reason "dispatch not authorized" ∷ [])))

-- `_dispatch_wg_spawn`
unfoldable pub dispatch_wg_spawn :
    Platform → Outside → Fields → ExecutorConfig → String → Act DispatchResult
dispatch_wg_spawn p o task x kind = dispatch_admission p o >>= spawn_admitted p o task x kind

unfoldable scheduled : Outside → String → ExecutorConfig → Option String → DispatchResult
scheduled o id x none = skipped_by id x.name "No parseable schedule tag found"
scheduled o id x (some tag) = elim (parse_schedule_tag o.utc_instant o.clock tag) [
  | none ↦ skipped_by id x.name "No parseable schedule tag found"
  | some t ↦ if leb t o.clock then done_by id x else skipped_by id x.name "Schedule not yet arrived"
]

-- `_dispatch_schedule`; the text of the skipped reason is without the instant.
unfoldable pub dispatch_schedule :
    Platform → Outside → Fields → ExecutorConfig → Result DispatchResult
unfolding scheduled
dispatch_schedule p o task x = elim (each (get_or "tags" (list nil) task)) [
  | err f ↦ err f
  | ok tags ↦ elim (first_tag "schedule:" tags) [
    | err f ↦ err f
    | ok found ↦ ok (scheduled o (task_id_of p task) x found)
  ]
]

-- `dispatch_task`
unfoldable pub dispatch_task : Platform → Outside → Fields → ExecutorConfig → Act DispatchResult
dispatch_task p o task x =
    let id = task_id_of p task in
    if x.kind == "wg-daemon"
    then return (skipped_by id x.name "wg-daemon handles this task")
    else if x.kind == "http"
    then dispatch_http p o task x
    else if x.kind == "claude"
    then dispatch_wg_spawn p o task x "claude"
    else if x.kind == "pi"
    then dispatch_wg_spawn p o task x "pi"
    else if x.kind == "schedule"
    then lift (dispatch_schedule p o task x)
    else return (failed_by id x (concat ("Unknown executor type: " ∷ x.kind ∷ [])))
