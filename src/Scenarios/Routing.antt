-- ===== src/Scenarios/Routing.antt =====
-- Runs of driftdriver/task_router.py: the loop of the router and the poll of the agents, over one task.
use driftdriver.Base.{String, ◌≡◌, refl, true, false, Option, some, List, [], ◌∷◌}
use driftdriver.Base.Value.{Value, pos, str, dict, Fields, field, end, ok, get?}
use driftdriver.Directive.Command.{item, each}
use driftdriver.Router.Act.{Ran, exited, accepted, got, Outside, Run}
use driftdriver.Router.Ready.{
  same_key, statuses, status_of, all_met, parse_task_datetime, not_before_allows_dispatch, is_ready,
  ready_among, find_ready_tasks,
}
use driftdriver.Router.Loop.{route_ready_tasks}
use driftdriver.Router.License.{IsGuarded}
use driftdriver.Router.Guarded.{start, route_ready_tasks-IsGuarded}
use driftdriver.Router.Picks.{Picks, find_ready_tasks-Picks}
use driftdriver.Router.Completion.{check_agent_completions}
use driftdriver.Router.Vouched.{AllVouched, check_agent_completions-AllVouched}
use driftdriver.Router.Match.{RoutingConfig}
use driftdriver.Scenarios.Toy.{toy, decode, read, value_of}

abbrev routes : RoutingConfig
routes = record {
  enabled = true;
  default_executor = "claude";
  executors =
      (
        "ana",
        record { name = "ana"; kind = "http"; endpoint = "http://ana"; tag_match = "agent:a*:*" },
      )
      ∷ ("any", record { name = "any"; kind = "pi"; endpoint = ""; tag_match = "agent:ana" })
      ∷ [];
}

abbrev fine : Ran
fine = exited (pos 0) "" ""

-- A repository in the mode supervise under a lease of ana without an end, or a new one.
abbrev office_of : Option Fields → Outside
office_of control = record {
  moment = λ k. (5, record { name = "app"; located = ok tt; cfg = end; control = control });
  clock = 5;
  utc_instant = read;
  wg_dir = ok "app/.workgraph";
  repo_name = "app";
  repo_path = "/app";
  locked = false;
  claim = λ id actor. fine;
  unclaim = λ id. fine;
  log = λ id text. fine;
  spawn = λ args. fine;
  post = λ url payload. accepted;
  poll = λ url. got (dict (field "status" (str "Done") end));
  finish = λ id. fine;
  fail = λ id reason. fine;
}

abbrev office : Outside
office = office_of (some (field "mode" (str "supervise") (field "lease_owner" (str "ana") end)))

abbrev task_in : String → Value
task_in status = dict (
    field "kind" (str "task")
      (field "id" (str "t1") (field "status" (str status) (field "agent" (str "ana") end))))

route_ready_tasks-IsGuarded_example :
    IsGuarded toy office
      (route_ready_tasks toy office end routes (task_in "open" ∷ []) start).0.happenings
route_ready_tasks-IsGuarded_example =
    route_ready_tasks-IsGuarded toy office end routes (task_in "open" ∷ [])

abbrev graph : List Value
graph = task_in "open" ∷ task_in "done" ∷ []

abbrev picked : List Fields
picked = value_of [] (find_ready_tasks read 5 graph)

graph_picks : find_ready_tasks read 5 graph ≡ ok picked
unfolding find_ready_tasks statuses ready_among is_ready all_met status_of same_key
    not_before_allows_dispatch parse_task_datetime get? read decode item each
graph_picks = refl

find_ready_tasks-Picks_example :
    (table : List (Value × Value)) × (statuses graph ≡ ok table) × Picks read 5 table graph picked
find_ready_tasks-Picks_example = find_ready_tasks-Picks read 5 graph picked graph_picks

-- The agents of all owners behind one endpoint.
abbrev agents : RoutingConfig
agents = record {
  enabled = true;
  default_executor = "claude";
  executors =
      (
        "all",
        record { name = "all"; kind = "http"; endpoint = "http://all"; tag_match = "agent:*" },
      )
      ∷ [];
}

abbrev polled : Run
polled =
    (check_agent_completions toy office agents (task_in "in-progress" ∷ [])
      (record { checks = 0; happenings = [] })).0

check_agent_completions-AllVouched_example :
    AllVouched toy office agents (task_in "in-progress" ∷ []) polled.happenings
check_agent_completions-AllVouched_example =
    check_agent_completions-AllVouched toy office agents (task_in "in-progress" ∷ []) 0
