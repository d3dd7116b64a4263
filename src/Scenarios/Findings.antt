-- ===== src/Scenarios/Findings.antt =====
-- A run of driftdriver/drift_task_guard.py: a daemon files one finding in a repository with no policy.
use driftdriver.Base.{
  ℕ, ◌≡◌, refl, true, String, Option, none, some, List, [], ◌∷◌, arith, left_strip, right_strip,
  is_space, strip, lower, prefix, concat, starts_with, contains,
}
use driftdriver.Base.Value.{
  Value, int, to_int, get_or, pos, str, list, dict, cons, nil, texts, field, end, ok, get?,
  all_text,
}
use driftdriver.Base.Platform.{str_of}
use driftdriver.Budget.Actor.{Actor, default_authority}
use driftdriver.Budget.Policy.{
  Policy, find, default_budget, get_authority, get_budget, can_do, load_authority_policy,
}
use driftdriver.Budget.Quality.{apply_quality_modifier}
use driftdriver.Budget.Ledger.{recent_count, parse_ledger, count_entries}
use driftdriver.Budget.Check.{check_budget}
use driftdriver.Directive.Schema.{
  schema, validate_params, required_violations, type_violations, required_issue, type_matches,
  spec_of, unknown_fields, sorted,
}
use driftdriver.Directive.Log.{append, mark_completed}
use driftdriver.Directive.Command.{build_command, item, each, flagged, repeated, optional}
use driftdriver.Directive.Shim.{
  Outcome, Surroundings, execute, execute_validated, execute_admitted, admit, run_command,
  resolve_cwd,
}
use driftdriver.Guard.Tasks.{count_active, count_active_drift_tasks, count_all_active_drift_tasks}
use driftdriver.Guard.Outcome.{extract_desired_outcome, stamp_desired_outcome}
use driftdriver.Guard.Add.{
  Finding, Inputs, Books, resolve_actor, hour, get_global_ceiling, directive_for, account, emit,
  emit_described, under_ceiling, under_budget, tally, look_up, with_policy, guarded_add_drift_task,
}
use driftdriver.Guard.Created.{Created, guarded_add_drift_task-Created}
use driftdriver.Guard.Rate.{AtMost, guarded_add_drift_task_rate}
use driftdriver.Guard.Refused.{IsAccounted, guarded_add_drift_task-IsAccounted}
use driftdriver.Guard.Repeated.{Ignored, task_prefix, escalate_repeated_findings}
use driftdriver.Guard.Taken.{AllTaken, Files, escalate_repeated_findings-Files}
use driftdriver.Scenarios.Toy.{toy, encode}

abbrev daemon : Actor
daemon = record { id = "d1"; actor_class = "daemon"; name = "drift"; repo = "app" }

abbrev finding : Finding
finding = record {
  task_id = "fix-1";
  title = "Fix";
  description = "Fix it";
  lane_tag = "qa";
  extra_tags = [];
  after = "";
}

abbrev inputs : Inputs
inputs = record {
  toml = none;
  show_code = pos 1;
  show_error = "not found";
  listed = some (
      list (
        cons
          (dict
            (field "status" (str "open") (field "tags" (list (texts ("drift" ∷ "qa" ∷ []))) end)))
          nil));
  quality = none;
  north_star = none;
  directive_id = "x1";
  can_escalate = true;
  surroundings = record {
    wg_dir = "app/.workgraph";
    parent = λ path. "app";
    file_name = λ path. "app";
    repository = λ path. record { name = "app"; located = ok tt; cfg = end; control = none };
    run = λ cmd cwd. Outcome.finished (pos 0) "added" "";
    error_text = λ i. "invalid";
  };
}

abbrev books : Books
books = record {
  effects = record { log = record { pending = []; completed = []; failed = [] }; ran = [] };
  ledger = [];
  escalations = [];
}

abbrev filed : Books
filed = (guarded_add_drift_task toy 5 inputs (some daemon) finding books).0

files : guarded_add_drift_task toy 5 inputs (some daemon) finding books ≡ (filed, ok "created")
unfolding guarded_add_drift_task with_policy look_up tally under_budget under_ceiling emit account
    get_global_ceiling emit_described directive_for resolve_actor extract_desired_outcome
    stamp_desired_outcome count_active count_active_drift_tasks count_all_active_drift_tasks
    load_authority_policy can_do get_authority default_authority find default_budget get_budget
    apply_quality_modifier recent_count parse_ledger count_entries check_budget execute
    validate_params schema required_violations required_issue type_violations type_matches spec_of
    unknown_fields sorted get? all_text strip left_strip right_strip is_space execute_validated
    admit execute_admitted run_command build_command item each flagged repeated optional resolve_cwd
    driftdriver.Directive.Shim.settle append mark_completed lower contains starts_with concat str_of
    prefix toy encode driftdriver.Guard.Tasks.is_active driftdriver.Base.Value.has_text
files = refl

guarded_add_drift_task-Created_example : Created toy 5 inputs daemon finding books filed
unfolding resolve_actor
guarded_add_drift_task-Created_example =
    guarded_add_drift_task-Created toy 5 inputs (some daemon) finding books filed files

guarded_add_drift_task_rate_example :
    (policy : Policy) × (n : ℕ) × (load_authority_policy toy none ≡ ok policy)
    × (recent_count toy 5 "d1" "create" hour filed.ledger ≡ ok n)
    × AtMost n
        (get_budget "daemon" (apply_quality_modifier "daemon" policy none)).max_creates_per_hour
unfolding resolve_actor toy
guarded_add_drift_task_rate_example =
    guarded_add_drift_task_rate toy 5 inputs (some daemon) finding books filed files (omega arith)

guarded_add_drift_task-IsAccounted_example :
    IsAccounted inputs books (guarded_add_drift_task toy 5 inputs (some daemon) finding books)
guarded_add_drift_task-IsAccounted_example =
    guarded_add_drift_task-IsAccounted toy 5 inputs (some daemon) finding books

abbrev ignored_row : String → Option Value
ignored_row outcome = some (
    dict (
      field "outcome" (str outcome)
        (field "lane" (str "core") (field "finding_key" (str "churn_loc") end))))

abbrev ledger_lines : List (Option Value)
ledger_lines =
    ignored_row "ignored"
    ∷ none
    ∷ ignored_row "resolved"
    ∷ ignored_row "ignored"
    ∷ ignored_row "ignored"
    ∷ []

after_three : to_int (get_or "escalate_after_ignores" (int (pos 3)) end) ≡ ok (pos 3)
unfolding to_int get?
after_three = refl

escalate_repeated_findings-Files_example :
    (rows : List Ignored) × AllTaken toy 3 ledger_lines rows
    × Files toy
        (λ k. (5, inputs))
        3
        (task_prefix toy end)
        0
        rows
        books
        (escalate_repeated_findings toy (λ k. (5, inputs)) end (some (ok ledger_lines)) books)
escalate_repeated_findings-Files_example =
    escalate_repeated_findings-Files toy (λ k. (5, inputs)) end ledger_lines 2 books tt after_three
