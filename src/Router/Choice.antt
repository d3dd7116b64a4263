-- ===== src/Router/Choice.antt =====
-- driftdriver/task_router.py, the choice in the loop of `route_ready_tasks`, and
-- driftdriver/manual_owner.py, `apply_manual_owner_policy`.
use driftdriver.Base.{String, Option, none, some, [], ◌∷◌, is_in, ◌==◌, if◌then◌else◌}
use driftdriver.Base.Value.{Value, str, Fields, Result, ok, ◌>>=◌, get, or_else, put}
use driftdriver.Base.Platform.{Platform, str_of, word}
use driftdriver.Router.Match.{
  ExecutorConfig, RoutingConfig, task_owner, match_executor, owner_has_executor,
}

-- `normalize_manual_owner_policy`
unfoldable pub normalize_manual_owner_policy : Platform → Value → String
normalize_manual_owner_policy p value =
    let mode = word p value "hold" in if is_in mode ("hold" ∷ "assist" ∷ []) then mode else "hold"

-- `apply_manual_owner_policy` for the policy's section `cfg`; a task that is held is `none`.
unfoldable pub apply_manual_owner_policy :
    Platform → Fields → RoutingConfig → Fields → Option Fields
apply_manual_owner_policy p cfg config task = elim (task_owner task) [
  | none ↦ some task
  | some owner ↦
      if owner_has_executor owner config.executors
      then some task
      else if normalize_manual_owner_policy p (get "manual_owner_policy" cfg) == "assist"
      then some (put "manual_owner_id" (str owner) (put "manual_owner_policy" (str "assist") task))
      else none
]

-- What becomes of a task: it is held, under a name for the report, or sent to an executor.
pub data Routing : Type 0 where
  held : String → Routing
  sent : ExecutorConfig → Fields → Routing

abbrev default_config : String → ExecutorConfig
default_config name = record { name = name; kind = name; endpoint = ""; tag_match = "" }

-- The choice once `match_executor` has answered.
unfoldable pub choose : Platform → RoutingConfig → Fields → Option ExecutorConfig → Routing
choose p config task (some executor) = sent executor task
choose p config task none =
    let assist = str_of p (or_else (get "manual_owner_policy" task) (str "")) == "assist" in
    elim (task_owner task) [
      | none ↦ sent (default_config config.default_executor) task
      | some owner ↦
          if assist then sent (default_config config.default_executor) task else held owner
    ]

-- The name in the report of a task that the policy holds.
abbrev reported : RoutingConfig → Option String → String
reported config none = config.default_executor
reported config (some owner) = owner

abbrev pub route_annotated : Platform → RoutingConfig → Fields → Option Fields → Result Routing
route_annotated p config raw none = ok (held (reported config (task_owner raw)))
route_annotated p config raw (some task) =
    match_executor task config >>= λ found. ok (choose p config task found)

-- The body of the loop up to the claim.
unfoldable pub route_task : Platform → Fields → RoutingConfig → Fields → Result Routing
route_task p cfg config raw =
    route_annotated p config raw (apply_manual_owner_policy p cfg config raw)
