-- ===== src/Router/Loop.antt =====
-- driftdriver/task_router.py: `claim_task`, `_unclaim_task` and the loop of `route_ready_tasks`.
use driftdriver.Base.{
  String, Bool, false, not, ◌&&◌, none, some, List, [], ◌∷◌, is_empty, concat, ◌==◌, if◌then◌else◌,
}
use driftdriver.Base.Value.{Value, Fields, Result, ok, err, is_zero}
use driftdriver.Base.Platform.{Platform, str_of}
use driftdriver.Control.Authority.{Verdict}
use driftdriver.Directive.Command.{item}
use driftdriver.Router.Match.{ExecutorConfig, RoutingConfig}
use driftdriver.Router.Choice.{Routing, held, sent, route_task}
use driftdriver.Router.Act.{
  Ran, exited, crashed, Outside, claimed, unclaimed, logged, Act, return, resume, ◌>>=◌, lift,
  happen, dispatch_admission, uncaught,
}
use driftdriver.Router.Ready.{find_ready_tasks}
use driftdriver.Router.Dispatch.{DispatchResult, failed_by, skipped_by, dispatch_task}

-- Whether `wg claim` succeeded; a timeout and an `OSError` are caught.
unfoldable pub claim_result : Ran → Result Bool
claim_result (exited code out problem) = ok (is_zero code)
claim_result (crashed f) = err f
claim_result _ = ok false

unfoldable pub note_claim : String → String → Bool → Act Bool
note_claim id actor b = happen (claimed id actor b) >>= λ _. return b

unfoldable pub claim_admitted : Outside → String → String → Verdict → Act Bool
claim_admitted o id actor v =
    if v.enabled
    then (lift (claim_result (o.claim id actor)) >>= note_claim id actor)
    else return false

-- `claim_task`
unfoldable pub claim_task : Platform → Outside → String → String → Act Bool
claim_task p o id actor = dispatch_admission p o >>= claim_admitted o id actor

abbrev pub unclaim_log : String
unclaim_log = "Unclaimed by router: dispatch failed, returning to open"

-- `_unclaim_task`
unfoldable pub unclaim_task : Outside → String → Act (Unit {0})
unclaim_task o id = happen (unclaimed id) >>= λ _. lift (uncaught (o.unclaim id)) >>= λ _.
    happen (logged id) >>= λ _. lift (uncaught (o.log id unclaim_log))

-- `not result.dispatched and result.error`
abbrev pub gives_back : DispatchResult → Bool
gives_back r = not r.dispatched && elim r.error [ none ↦ false | some e ↦ not (is_empty e) ]

unfoldable pub give_back : Outside → String → DispatchResult → Act DispatchResult
give_back o id r = if gives_back r then (unclaim_task o id >>= λ _. return r) else return r

-- The dispatch of a task that was to be claimed, and its return if it was claimed in vain.
unfoldable pub dispatch_if_claimed :
    Platform → Outside → Fields → String → ExecutorConfig → Bool → Act DispatchResult
dispatch_if_claimed p o task id x got =
    if got
    then (dispatch_task p o task x >>= give_back o id)
    else return (failed_by id x "Failed to claim task")

-- The way by HTTP: claim, dispatch, and give back.
unfoldable pub send_http :
    Platform → Outside → Fields → ExecutorConfig → String → Act DispatchResult
send_http p o task x id = claim_task p o id x.name >>= dispatch_if_claimed p o task id x

-- `str(task["id"])`
abbrev id_text : Platform → Fields → Act String
id_text p task r = resume (r, item "id" task) (λ v. return (str_of p v))

abbrev pub holding : String → String
holding owner =
    concat ("Task owner '" ∷ owner ∷ "' has no configured executor; holding for manual work" ∷ [])

unfoldable pub route_one : Platform → Outside → Routing → Fields → Act DispatchResult
route_one p o (held owner) raw =
    id_text p raw >>= λ id. return (skipped_by id owner (holding owner))
route_one p o (sent x task) raw =
    if x.kind == "http" then (id_text p task >>= send_http p o task x) else dispatch_task p o task x

-- The loop over the ready tasks.
unfoldable pub route_all :
    Platform → Outside → Fields → RoutingConfig → List Fields → Act (List DispatchResult)
route_all p o cfg config [] = return []
route_all p o cfg config (raw ∷ ready) = lift (route_task p cfg config raw) >>= λ where_to.
    route_one p o where_to raw >>= λ result.
    route_all p o cfg config ready >>= λ results. return (result ∷ results)

unfoldable pub route_admitted :
    Platform → Outside → Fields → RoutingConfig → List Value → Verdict → Act (List DispatchResult)
route_admitted p o cfg config nodes v =
    if v.enabled
    then (lift o.wg_dir >>= λ _.
        lift (find_ready_tasks o.utc_instant o.clock nodes) >>= route_all p o cfg config)
    else return []

-- `route_ready_tasks`, for the nodes of the graph and the `speedriftd` section `cfg` of the policy
unfoldable pub route_ready_tasks :
    Platform → Outside → Fields → RoutingConfig → List Value → Act (List DispatchResult)
route_ready_tasks p o cfg config nodes =
    dispatch_admission p o >>= route_admitted p o cfg config nodes
