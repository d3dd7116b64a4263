-- ===== src/Directive/Shim.antt =====
-- driftdriver/executor_shim.py: `ExecutorShim.execute` and its lease gate.
use driftdriver.Base.{
  ℕ, String, Bool, true, false, not, Option, none, some, List, [], ◌∷◌, ◌++◌, is_empty, prefix,
  ◌==◌, if◌then◌else◌,
}
use driftdriver.Base.Value.{
  Value, str, dict, Fields, end, Fault, Result, ok, err, ◌>>=◌, truthy, get, get_or, ℤ, pos, negsuc,
  is_zero,
}
use driftdriver.Base.Platform.{Platform, str_of}
use driftdriver.Control.Authority.{Repository, load_dispatch_authority}
use driftdriver.Directive.Action.{
  Action, claim_task, start_service, stop_service, create_upstream_pr, Directive,
}
use driftdriver.Directive.Schema.{Invalid, validate_params}
use driftdriver.Directive.Log.{Failure, DirectiveLog, append, mark_completed, mark_failed}
use driftdriver.Directive.Command.{Command, build_command}

-- What `subprocess.run` gives: a result, a timeout, or another exception.
pub data Outcome : Type 0 where
  finished : ℤ → String → String → Outcome
  timed_out : Outcome
  raised : Fault → Outcome

-- What the shim takes from around it: the paths (`pathlib`), the repository at a path, the commands'
-- outcomes in their working directory, and the text of a validation error.
pub record Surroundings : Type 0 where
  pub wg_dir : String
  pub parent : String → String
  pub file_name : String → String
  pub repository : String → Repository
  pub run : Command → Value → Outcome
  pub error_text : Invalid → String

-- The log, and the commands that were run, with their working directories.
pub record Effects : Type 0 where
  pub log : DirectiveLog
  pub ran : List (Command × Value)

abbrev pub is_dispatch : Action → Bool
is_dispatch claim_task = true
is_dispatch start_service = true
is_dispatch _ = false

abbrev pub params_of : Directive → Fields
params_of d = elim d.params [ dict p ↦ p | _ ↦ end ]

-- The repository whose lease decides.
unfoldable pub project_dir : Platform → Surroundings → Fields → String
project_dir p s params =
    let raw = get "repo" params in
    let candidate = str_of p raw in
    if truthy raw
    then if s.file_name candidate == ".workgraph" then s.parent candidate else candidate
    else s.parent s.wg_dir

abbrev or_text : String → String → String
or_text default reason = if is_empty reason then default else reason

-- `_admit`
unfoldable pub admit : Platform → ℕ → Surroundings → Action → Fields → Result (Bool × String)
admit p now s action params =
    if not (is_dispatch action)
    then ok (true, "action does not require lease admission")
    else load_dispatch_authority p now (s.repository (project_dir p s params)) >>= λ v. ok (
        if v.enabled
        then (true, or_text "admitted" v.reason)
        else (false, or_text "dispatch not authorized" v.reason))

-- `_resolve_cwd`
unfoldable pub resolve_cwd : Surroundings → Action → Fields → Value
resolve_cwd s start_service params = get_or "repo" (str (s.parent s.wg_dir)) params
resolve_cwd s stop_service params = get_or "repo" (str (s.parent s.wg_dir)) params
resolve_cwd s create_upstream_pr params = get_or "repo" (str (s.parent s.wg_dir)) params
resolve_cwd s _ params = str (s.parent s.wg_dir)

abbrev failure : Platform → ℕ → Directive → ℤ → String → String → Option Bool → Bool → Failure
failure p now d exit_code error error_code retryable repairable = record {
  directive_id = d.id;
  exit_code = exit_code;
  error = error;
  failed_at = p.iso now;
  directive = some d;
  error_code = error_code;
  retryable = retryable;
  repairable = repairable;
}

fail : Failure → Effects → Effects
fail f e = record e { log = mark_failed f e.log }

-- What is logged and returned for the outcome of a command.
unfoldable pub settle : Platform → ℕ → Directive → Outcome → Effects → Effects × Result String
unfolding fail
settle p now d (finished code stdout stderr) e =
    if is_zero code
    then (
      record e {
        log =
            mark_completed
              (record {
                directive_id = d.id;
                exit_code = code;
                output = prefix 2000 stdout;
                completed_at = p.iso now;
              })
              e.log;
      },
      ok "completed",
    )
    else (
      fail (failure p now d code (prefix 2000 stderr) "directive_execution_failed" none false) e,
      ok "failed",
    )
settle p now d timed_out e = (
  fail (failure p now d (negsuc 0) "timeout" "directive_execution_timeout" none false) e,
  ok "failed",
)
settle p now d (raised f) e = (e, err f)

unfoldable pub run_command :
    Platform → ℕ → Surroundings → Directive → Result Command → Effects → Effects × Result String
run_command p now s d (err f) e = (e, err f)
run_command p now s d (ok cmd) e =
    let cwd = resolve_cwd s d.action (params_of d) in
    settle p now d (s.run cmd cwd) (record e { ran = e.ran ++ (cmd, cwd) ∷ [] })

unfoldable pub execute_admitted :
    Platform
    → ℕ
    → Surroundings
    → Directive
    → Result (Bool × String)
    → Effects
    → Effects × Result String
unfolding fail
execute_admitted p now s d (err f) e = (e, err f)
execute_admitted p now s d (ok (false, reason)) e = (
  fail (failure p now d (pos 0) reason "directive_admission_denied" (some true) false) e,
  ok "blocked",
)
execute_admitted p now s d (ok (true, reason)) e =
    run_command p now s d (build_command p s.wg_dir d.action (params_of d)) e

unfoldable pub execute_validated :
    Platform → ℕ → Surroundings → Directive → Option Invalid → Effects → Effects × Result String
unfolding fail
execute_validated p now s d (some invalid) e = (
  fail
      (failure p now d (pos 2) (s.error_text invalid) "invalid_directive_arguments" (some true)
        true)
      e,
  ok "failed",
)
execute_validated p now s d none e =
    execute_admitted p now s d (admit p now s d.action (params_of d)) e

-- `execute`: the effects, and what it returns or raises.
unfoldable pub execute : Platform → ℕ → Surroundings → Directive → Effects → Effects × Result String
execute p now s d e =
    execute_validated p now s d (validate_params d.action d.params)
      (record e { log = append d e.log })
