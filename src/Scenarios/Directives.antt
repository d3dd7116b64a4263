-- ===== src/Scenarios/Directives.antt =====
-- Runs of driftdriver/executor_shim.py, driftdriver/directive_schemas.py, driftdriver/authority.py and
-- driftdriver/budget_ledger.py.
use driftdriver.Base.{
  ◌≡◌, ◌↔◌, refl, true, false, none, [], ◌∷◌, left_strip, right_strip, is_space, strip, lower,
  replace_z, some,
}
use driftdriver.Base.Value.{pos, str, dict, Fields, field, end, ok, to_int, get?}
use driftdriver.Base.Platform.{str_of, field_text, word}
use driftdriver.Control.State.{update, coerce_lease_ttl, parse_iso_timestamp}
use driftdriver.Control.Normalize.{
  default_ttl, defaults, default_control, is_elevated, settle_mode, lease_flag, settle, normalize,
  normalize_control_state,
}
use driftdriver.Control.Authority.{
  Verdict, ttl_malformed, dispatch_authority, apply_runtime_gate, Repository, load_control_state,
  unavailable, fail_closed, load_dispatch_authority,
}
use driftdriver.Budget.Actor.{Actor}
use driftdriver.Directive.Action.{Action, claim_task, log_to_task, Directive}
use driftdriver.Directive.Schema.{
  Invalid, schema, validate_params, required_violations, type_violations, required_issue,
  type_matches, spec_of, unknown_fields, sorted,
}
use driftdriver.Directive.Log.{append, mark_completed}
use driftdriver.Directive.Command.{Command, build_command, item}
use driftdriver.Directive.Shim.{
  Outcome, Surroundings, Effects, execute, is_dispatch, project_dir, params_of, execute_validated,
  execute_admitted, admit, run_command, resolve_cwd,
}
use driftdriver.Directive.Valid.{AllRequired, AllTyped, AllKnown, validate_params_iff}
use driftdriver.Directive.Lease.{execute-denied}
use driftdriver.Directive.Buildable.{build_command_total}
use driftdriver.Directive.Runs.{execute-Runs}
use driftdriver.Directive.Lifecycle.{Concluded, execute-Concluded}
use driftdriver.Scenarios.Toy.{toy, encode, decode, read, value_of}

abbrev pub fresh : Repository
fresh = record { name = "app"; located = ok tt; cfg = end; control = none }

abbrev pub around : Surroundings
around = record {
  wg_dir = "app/.workgraph";
  parent = λ path. "app";
  file_name = λ path. "app";
  repository = λ path. fresh;
  run = λ cmd cwd. Outcome.finished (pos 0) "done" "";
  error_text = λ i. "invalid";
}

abbrev pub nothing_yet : Effects
nothing_yet = record { log = record { pending = []; completed = []; failed = [] }; ran = [] }

abbrev directive : Action → Fields → Directive
directive action params = record {
  source = "factory";
  repo = "app";
  action = action;
  params = dict params;
  reason = "";
  authority = none;
  priority = "normal";
  id = "d1";
  timestamp = "t";
}

abbrev claim : Directive
claim = directive claim_task (field "task_id" (str "t1") end)

abbrev note_params : Fields
note_params = field "task_id" (str "t1") (field "message" (str "hello") end)

abbrev note : Directive
note = directive log_to_task note_params

abbrev denied : Verdict
denied = value_of unavailable (load_dispatch_authority toy 5 fresh)

fresh_denies :
    (load_dispatch_authority toy 5 (around.repository (project_dir toy around (params_of claim)))
      ≡ ok denied)
    × (denied.enabled ≡ false)
unfolding load_dispatch_authority fail_closed load_control_state normalize_control_state
    default_control default_ttl defaults normalize settle_mode is_elevated coerce_lease_ttl settle
    lease_flag update apply_runtime_gate dispatch_authority ttl_malformed to_int get? word
    field_text str_of lower strip left_strip right_strip is_space parse_iso_timestamp replace_z toy
    encode decode read
fresh_denies = (refl, refl)

execute-denied_example :
    ((execute toy 5 around claim nothing_yet).0.ran ≡ [])
    × (validate_params claim.action claim.params ≡ none
        → (execute toy 5 around claim nothing_yet).1 ≡ ok "blocked")
    × ((i : Invalid)
        → validate_params claim.action claim.params ≡ some i
        → (execute toy 5 around claim nothing_yet).1 ≡ ok "failed")
execute-denied_example =
    execute-denied toy 5 around claim denied nothing_yet refl fresh_denies.0 fresh_denies.1

note_runs : (execute toy 5 around note nothing_yet).1 ≡ ok "completed"
unfolding execute validate_params schema required_violations required_issue type_violations
    type_matches spec_of unknown_fields sorted get? strip left_strip right_strip is_space
    execute_validated admit execute_admitted run_command build_command item resolve_cwd
    driftdriver.Directive.Shim.settle toy encode append mark_completed
note_runs = refl

execute-Concluded_example :
    Concluded note
      (append note nothing_yet.log)
      (execute toy 5 around note nothing_yet).0.log
      "completed"
execute-Concluded_example = execute-Concluded toy 5 around note nothing_yet "completed" note_runs

validate_params_iff_example : (validate_params log_to_task (dict note_params) ≡ none) ↔ (
    AllRequired (schema log_to_task) note_params
    × AllTyped (schema log_to_task) note_params
    × AllKnown (schema log_to_task) note_params)
validate_params_iff_example = validate_params_iff log_to_task note_params

abbrev daemon : Actor
daemon = record { id = "d1"; actor_class = "daemon"; name = "drift"; repo = "app" }

note_valid : validate_params log_to_task (dict note_params) ≡ none
unfolding validate_params schema required_violations required_issue type_violations type_matches
    spec_of unknown_fields sorted get? strip left_strip right_strip is_space
note_valid = refl

build_command_total_example :
    (c : Command) × (build_command toy "app/.workgraph" log_to_task note_params ≡ ok c)
build_command_total_example =
    build_command_total toy "app/.workgraph" log_to_task note_params note_valid

note_admitted :
    admit toy 5 around log_to_task note_params
    ≡ ok (true, "action does not require lease admission")
unfolding admit
note_admitted = refl

execute-Runs_example :
    (c : Command) × (build_command toy "app/.workgraph" log_to_task note_params ≡ ok c)
    × ((execute toy 5 around note nothing_yet).0.ran
        ≡ (c, resolve_cwd around log_to_task note_params) ∷ [])
execute-Runs_example =
    execute-Runs toy 5 around note nothing_yet "action does not require lease admission" note_valid
      note_admitted
