-- ===== src/Autopilot/Peers.antt =====
-- driftdriver/project_autopilot.py: the dispatch of annotated tasks to peers.
use driftdriver.Base.{
  String, Bool, true, false, Option, none, some, List, [], ◌∷◌, is_in, is_empty, concat, ◌==◌,
  if◌then◌else◌,
}
use driftdriver.Base.Value.{str, list, Fields, field, end, Result, ok, err, texts, truthy}
use driftdriver.Base.Platform.{Platform}
use driftdriver.Base.Act.{return, lift, ◌>>=◌}
use driftdriver.Control.Authority.{Verdict}
use driftdriver.Autopilot.Text.{peer_annotation}
use driftdriver.Autopilot.State.{
  AutopilotConfig, WorkerContext, Status, Outside, Added, added, ipc_error, crashed, asked, Step,
  happen, change, check, id_of, text_at, store, complete,
}
use driftdriver.Autopilot.Dispatch.{context}

pub record PeerAssignment : Type 0 where
  pub peer_name : String
  pub task_id : String

-- The assignment of one task.
unfoldable pub assign : List String → Fields → Option PeerAssignment
assign peers task = elim (peer_annotation (text_at "description" task)) [
  | none ↦ none
  | some peer ↦
      if is_in peer peers then some (record { peer_name = peer; task_id = id_of task }) else none
]

abbrev with_assignment : Option PeerAssignment → List PeerAssignment → List PeerAssignment
with_assignment none rest = rest
with_assignment (some a) rest = a ∷ rest

unfoldable pub assign_each : List String → List Fields → List PeerAssignment
assign_each peers [] = []
assign_each peers (task ∷ tasks) = with_assignment (assign peers task) (assign_each peers tasks)

-- `_plan_peer_dispatch`, without the prompts, which nothing reads; without peers nothing is assigned.
unfoldable pub plan_peer_dispatch : List String → List Fields → List PeerAssignment
plan_peer_dispatch peers ready_tasks = assign_each peers ready_tasks

-- `next((t for t in actionable if t["id"] == id), None)`
unfoldable pub find_task : String → List Fields → Option Fields
find_task id [] = none
find_task id (task ∷ tasks) = if id_of task == id then some task else find_task id tasks

-- The request of `_dispatch_to_peer`.
unfoldable pub peer_request : AutopilotConfig → Fields → Fields
peer_request c task = field "title" (str (text_at "title" task)) (
    field "description" (str (text_at "description" task)) (
      field "tags" (list (texts ("federation" ∷ concat ("origin:" ∷ c.project_name ∷ []) ∷ [])))
        (field "origin" (str (concat ("peer:" ∷ c.project_name ∷ []))) end)))

-- Whether the peer took the task.
unfoldable pub taken : Added → Result Bool
taken (added id) = ok (truthy id)
taken ipc_error = ok false
taken (crashed f) = err f

-- `_dispatch_to_peer`, whether it returns a remote id
unfoldable pub dispatch_to_peer : Outside → AutopilotConfig → String → Fields → Step Bool
dispatch_to_peer o c peer task = happen (asked peer (id_of task)) >>= λ _.
    lift (elim (o.socket peer) [
      | none ↦ ok false
      | some path ↦
          if is_empty path then ok false else taken (o.add_task path (peer_request c task))
    ])

abbrev pub peer_context : String → Fields → WorkerContext
peer_context peer task = record (context task Status.completed "") {
  worker_name = concat ("peer-" ∷ peer ∷ "-" ∷ id_of task ∷ []);
}

-- What follows the request: the task is the peer's, or the loop goes on.
unfoldable pub if_taken : PeerAssignment → Fields → Step (List String) → Bool → Step (List String)
if_taken a task later false = later
if_taken a task later true =
    change (λ r. complete (id_of task) (store (id_of task) (peer_context a.peer_name task) r))
    >>= λ _. later >>= λ ids. return (id_of task ∷ ids)

-- What follows the check; a denial ends the loop.
unfoldable pub if_permitted :
    Outside
    → AutopilotConfig
    → PeerAssignment
    → Fields
    → Step (List String)
    → Verdict
    → Step (List String)
if_permitted o c a task later v =
    if v.enabled
    then (dispatch_to_peer o c a.peer_name task >>= if_taken a task later)
    else return []

unfoldable pub send_assigned :
    Platform
    → Outside
    → AutopilotConfig
    → PeerAssignment
    → Option Fields
    → Step (List String)
    → Step (List String)
send_assigned p o c a none later = later
send_assigned p o c a (some task) later =
    if c.dry_run
    then (later >>= λ ids. return (id_of task ∷ ids))
    else (check p o >>= if_permitted o c a task later)

-- The loop over the assignments: the ids that it appends to `dispatched`.
unfoldable pub dispatch_assigned :
    Platform → Outside → AutopilotConfig → List Fields → List PeerAssignment → Step (List String)
dispatch_assigned p o c actionable [] = return []
dispatch_assigned p o c actionable (a ∷ rest) =
    send_assigned p o c a (find_task a.task_id actionable) (dispatch_assigned p o c actionable rest)

-- `_run_peer_dispatch`: the ids of the tasks that it dispatched.
unfoldable pub run_peer_dispatch :
    Platform → Outside → AutopilotConfig → List String → List Fields → Step (List String)
run_peer_dispatch p o c peers actionable =
    dispatch_assigned p o c actionable (plan_peer_dispatch peers actionable)
