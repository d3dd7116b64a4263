-- ===== src/Directive/Action.antt =====
-- driftdriver/directives.py: the actions and the directive; `directives_allowed_for_mode` of
-- driftdriver/speedriftd_state.py.
use driftdriver.Base.{String, ◌≡◌, refl, Option, none, some, List, [], ◌∷◌, ◌==◌, if◌then◌else◌}
use driftdriver.Base.Value.{Value, ℤ}

pub data Action : Type 0 where
  create_task claim_task complete_task fail_task start_service stop_service log_to_task : Action
  evolve_prompt dispatch_to_peer block_task create_validation create_upstream_pr : Action
  abandon_task reschedule_task : Action

-- `action.value`
unfoldable pub action_value : Action → String
action_value create_task = "create_task"
action_value claim_task = "claim_task"
action_value complete_task = "complete_task"
action_value fail_task = "fail_task"
action_value start_service = "start_service"
action_value stop_service = "stop_service"
action_value log_to_task = "log_to_task"
action_value evolve_prompt = "evolve_prompt"
action_value dispatch_to_peer = "dispatch_to_peer"
action_value block_task = "block_task"
action_value create_validation = "create_validation"
action_value create_upstream_pr = "create_upstream_pr"
action_value abandon_task = "abandon_task"
action_value reschedule_task = "reschedule_task"

abbrev pub all_actions : List Action
all_actions =
    create_task ∷ claim_task ∷ complete_task ∷ fail_task ∷ start_service ∷ stop_service
    ∷ log_to_task ∷ evolve_prompt ∷ dispatch_to_peer ∷ block_task ∷ create_validation
    ∷ create_upstream_pr ∷ abandon_task ∷ reschedule_task ∷ []

search_action : String → List Action → Option Action
search_action s [] = none
search_action s (a ∷ rest) = if action_value a == s then some a else search_action s rest

-- `Action(text)`; `none` is the `ValueError`.
unfoldable pub action_of : String → Option Action
unfolding search_action action_value
action_of s = search_action s all_actions

-- Reading back an action's name gives the action.
action_of-action_value : (a : Action) → action_of (action_value a) ≡ some a
unfolding action_of
action_of-action_value create_task = refl
action_of-action_value _ = refl

-- `directives_allowed_for_mode`
unfoldable pub directives_allowed_for_mode : String → List String
directives_allowed_for_mode mode =
    if mode == "supervise"
    then "start_service" ∷ "stop_service" ∷ "log_to_task" ∷ []
    else if mode == "autonomous"
    then "create_task" ∷ "claim_task" ∷ "complete_task" ∷ "fail_task" ∷ "start_service"
      ∷ "stop_service" ∷ "log_to_task" ∷ "evolve_prompt" ∷ "dispatch_to_peer" ∷ "block_task"
      ∷ "create_validation" ∷ "create_upstream_pr" ∷ []
    else []

pub record Authority : Type 0 where
  pub actor : String
  pub actor_class : String
  pub budget_remaining : ℤ

pub record Directive : Type 0 where
  pub source : String
  pub repo : String
  pub action : Action
  pub params : Value
  pub reason : String
  pub authority : Option Authority
  pub priority : String
  pub id : String
  pub timestamp : String
