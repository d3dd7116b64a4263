-- ===== src/Router/Completion.antt =====
-- driftdriver/task_router.py: `check_agent_completions`.
use driftdriver.Base.{
  String, Bool, true, false, ◌&&◌, Option, none, some, List, [], ◌∷◌, is_empty, lower, prefix,
  concat, ◌==◌, if◌then◌else◌,
}
use driftdriver.Base.Value.{Value, str, dict, Fields, Fault, err, get, get_or, is_the_text}
use driftdriver.Base.Platform.{Platform, str_of}
use driftdriver.Router.Match.{ExecutorConfig, RoutingConfig, match_executor}
use driftdriver.Router.Ready.{node_fields, is_task}
use driftdriver.Router.Act.{
  Answer, got, missed, Outside, logged, marked_done, marked_failed, Act, return, ◌>>=◌, lift,
  happen, uncaught,
}
use driftdriver.Router.Evidence.{completion_failure_reason}

pub record CompletionResult : Type 0 where
  pub task_id : String
  pub completed : Bool
  pub summary : Option String
  pub error : Option String

abbrev ended : String → Option String → Option String → Option CompletionResult
ended id summary error =
    some (record { task_id = id; completed = true; summary = summary; error = error })

-- `_run_wg(..., "log", ...)`
abbrev write_log : Outside → String → String → Act (Unit {0})
write_log o id text = happen (logged id) >>= λ _. lift (uncaught (o.log id text))

unfoldable pub reject : Outside → String → String → String → Act (Option CompletionResult)
reject o id text reason = write_log o id (concat (text ∷ reason ∷ [])) >>= λ _.
    happen (marked_failed id reason) >>= λ _.
    lift (uncaught (o.fail id reason)) >>= λ _. return (ended id none (some reason))

unfoldable pub accept : Platform → Outside → String → Fields → Act (Option CompletionResult)
accept p o id answer =
    let summary = str_of p (get_or "summary" (str "") answer) in
    write_log o id (concat ("Completed by agent via router. Summary: " ∷ prefix 200 summary ∷ []))
    >>= λ _. happen (marked_done id) >>= λ _.
        lift (uncaught (o.finish id)) >>= λ _. return (ended id (some (prefix 500 summary)) none)

unfoldable pub conclude_done :
    Platform → Outside → String → Fields → Option String → Act (Option CompletionResult)
conclude_done p o id answer (some reason) = reject o id "Rejected agent done via router: " reason
conclude_done p o id answer none = accept p o id answer

-- `str(data.get("status", "")).lower()`
abbrev pub agent_status : Platform → Fields → String
agent_status p answer = lower (str_of p (get_or "status" (str "") answer))

unfoldable pub judge : Platform → Outside → Fields → String → Answer → Act (Option CompletionResult)
judge p o node id (missed e) = return (
    some (record {
      task_id = id;
      completed = false;
      summary = none;
      error = some (concat ("Status check failed: " ∷ prefix 100 e ∷ []));
    }))
judge p o node id (got (dict answer)) =
    if agent_status p answer == "done"
    then (lift (completion_failure_reason p node answer) >>= conclude_done p o id answer)
    else if agent_status p answer == "failed"
    then reject o id "Failed by agent via router: "
        (prefix 500 (str_of p (get_or "error" (str "Agent reported failure") answer)))
    else return none
judge p o node id (got v) = lift (err Fault.attribute_error)

-- `check_url.rstrip("/")`
unfoldable pub strip_slashes : String → String
strip_slashes String.[] = String.[]
strip_slashes (String.◌∷◌ c s) =
    let rest = strip_slashes s in
    if (String.◌∷◌ c String.[] == "/") && is_empty rest then String.[] else String.◌∷◌ c rest

abbrev pub status_url : ExecutorConfig → String → String
status_url x id = concat (strip_slashes x.endpoint ∷ "/" ∷ id ∷ [])

-- `str(node.get("id", ""))`
abbrev pub node_id : Platform → Fields → String
node_id p node = str_of p (get_or "id" (str "") node)

unfoldable pub check_matched :
    Platform → Outside → Fields → Option ExecutorConfig → Act (Option CompletionResult)
check_matched p o node none = return none
check_matched p o node (some x) =
    let id = node_id p node in
    if x.kind == "http" then judge p o node id (o.poll (status_url x id)) else return none

-- One turn of the loop; `none` is a task that is left alone.
unfoldable pub check_node :
    Platform → Outside → RoutingConfig → Fields → Act (Option CompletionResult)
check_node p o config node =
    if is_task node && is_the_text "in-progress" (get "status" node)
    then (lift (match_executor node config) >>= check_matched p o node)
    else return none

abbrev add_result : Option CompletionResult → List CompletionResult → List CompletionResult
add_result none rs = rs
add_result (some c) rs = c ∷ rs

unfoldable pub check_all :
    Platform → Outside → RoutingConfig → List Value → Act (List CompletionResult)
check_all p o config [] = return []
check_all p o config (v ∷ vs) = lift (node_fields v) >>= λ node.
    check_node p o config node >>= λ c. check_all p o config vs >>= λ rs. return (add_result c rs)

-- `check_agent_completions`
unfoldable pub check_agent_completions :
    Platform → Outside → RoutingConfig → List Value → Act (List CompletionResult)
check_agent_completions p o config nodes = lift o.wg_dir >>= λ _. check_all p o config nodes
