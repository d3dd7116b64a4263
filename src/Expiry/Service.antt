-- ===== src/Expiry/Service.antt =====
-- driftdriver/speedriftd.py: `_workgraph_service_running` and `_stop_workgraph_service`.
use driftdriver.Base.{String, Bool, Option, none, some, [], ◌∷◌, is_in, ◌==◌, prefix, if◌then◌else◌}
use driftdriver.Base.Value.{
  Value, null, int, ℤ, str, dict, Fields, end, is_true, is_bool, is_zero, or_else, get, as_dict,
}
use driftdriver.Base.Platform.{Platform, word}
use driftdriver.Expiry.Record.{StopResult}

-- What running `wg` gives: an exception with its text, or an exit code with both outputs.
pub data Ran : Type 0 where
  raised : String → Ran
  exited : ℤ → String → String → Ran

-- What the environment answers: the status command with the JSON that its output parses to, if it does,
-- and the stop command.
pub record Environment : Type 0 where
  pub status : Ran
  pub status_json : Option Value
  pub stop : Ran

abbrev fields_of : Value → Fields
fields_of (dict d) = d
fields_of _ = end

running_flag : Platform → Fields → Option Bool
running_flag p status =
    let service = fields_of (get "service" status) in
    let inner = get "running" service in
    let outer = get "running" status in
    let state = word p (or_else (get "status" status) (get "status" service)) "" in
    if is_bool inner
    then some (is_true inner)
    else if is_bool outer
    then some (is_true outer)
    else if is_in state ("running" ∷ "stopped" ∷ [])
    then some (state == "running")
    else none

abbrev status_fields : Option Value → Option Fields
status_fields none = none
status_fields (some v) = as_dict v

-- `_workgraph_service_running`
unfoldable pub workgraph_service_running : Platform → Environment → Option Bool
unfolding running_flag
workgraph_service_running p env = elim env.status [
  | raised message ↦ none
  | exited code stdout stderr ↦
      if is_zero code
      then elim (status_fields env.status_json) [ none ↦ none | some d ↦ running_flag p d ]
      else none
]

-- `_stop_workgraph_service`
unfoldable pub stop_workgraph_service : Environment → StopResult
stop_workgraph_service env = elim env.stop [
  | raised message ↦ record {
    exit_code = null;
    unknown = null;
    stdout = str "";
    stderr = str (prefix 200 message);
  }
  | exited code stdout stderr ↦ record {
    exit_code = int code;
    unknown = null;
    stdout = str (prefix 500 stdout);
    stderr = str (prefix 500 stderr);
  }
]
