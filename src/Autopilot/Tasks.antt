-- ===== src/Autopilot/Tasks.antt =====
-- driftdriver/project_autopilot.py: `_parse_ready_output`, `get_task_details`, `get_ready_tasks`, and the
-- prompt of a worker.
use driftdriver.Base.{
  ℕ, String, Bool, true, false, ◌||◌, Option, none, some, List, [], ◌∷◌, ◌++◌, is_empty, strip,
  starts_with, concat, any, ◌==◌, if◌then◌else◌,
}
use driftdriver.Base.Value.{str, Fields, field, end, Result, ok, ◌>>=◌, is_zero}
use driftdriver.Base.Platform.{Platform}
use driftdriver.Router.Match.{RoutingConfig}
use driftdriver.Router.Choice.{apply_manual_owner_policy}
use driftdriver.Autopilot.Text.{splitlines, split_once, join_lines}
use driftdriver.Autopilot.State.{Outside, Completed, run_command, text_at}

unfoldable pub task_fields : String → String → String → Fields
task_fields id title description =
    field "id" (str id) (field "title" (str title) (field "description" (str description) end))

-- One line of the listing.
unfoldable pub parse_ready_line : String → Option Fields
parse_ready_line line =
    if is_empty line || starts_with line "Ready tasks:"
    then none
    else elim (split_once " - " line) [
      | none ↦ none
      | some parts ↦ some (task_fields (strip parts.0) (strip parts.1) "")
    ]

abbrev pub with_task : Option Fields → List Fields → List Fields
with_task none tasks = tasks
with_task (some task) tasks = task ∷ tasks

unfoldable pub parse_ready_lines : List String → List Fields
parse_ready_lines [] = []
parse_ready_lines (line ∷ lines) =
    with_task (parse_ready_line (strip line)) (parse_ready_lines lines)

-- `_parse_ready_output`
unfoldable pub parse_ready_output : String → List Fields
parse_ready_output stdout = parse_ready_lines (splitlines (strip stdout))

-- What the loop of `get_task_details` has found.
pub record Details : Type 0 where
  pub title : String
  pub description_lines : List String
  pub in_description : Bool

abbrev after_colon : String → String
after_colon line = elim (split_once ":" line) [ none ↦ "" | some parts ↦ strip parts.1 ]

abbrev add_line : String → Details → Details
add_line line d = record d { description_lines = d.description_lines ++ line ∷ [] }

unfoldable pub read_line : String → Details → Details
read_line line d =
    if starts_with line "Title:"
    then record d { title = after_colon line }
    else if starts_with line "Description:"
    then (let opened : Details = record d { in_description = true } in
        if is_empty (after_colon line) then opened else add_line (after_colon line) opened)
    else if d.in_description
    then (if any (starts_with line) ("Status:" ∷ "Blocked" ∷ "Log:" ∷ "Dependencies:" ∷ [])
        then record d { in_description = false }
        else add_line line d)
    else d

unfoldable pub read_lines : List String → Details → Details
read_lines [] d = d
read_lines (line ∷ lines) d = read_lines lines (read_line line d)

abbrev nothing_read : Details
nothing_read = record { title = ""; description_lines = []; in_description = false }

-- The details in the output of `wg show`.
unfoldable pub parse_details : String → String → Fields
parse_details id stdout =
    let d = read_lines (splitlines (strip stdout)) nothing_read in
    task_fields id d.title (strip (join_lines d.description_lines))

-- `get_task_details`, in turn `turn` of the loop
unfoldable pub get_task_details : Outside → ℕ → String → Result (Option Fields)
get_task_details o turn id = run_command o.fault_text (o.show turn id) >>= λ c.
    ok (if is_zero c.returncode then some (parse_details id c.stdout) else none)

-- `details if details else task`
abbrev pub or_task : Option Fields → Fields → Fields
or_task none task = task
or_task (some details) task = details

-- A call without a routing configuration: no executor serves any owner.
abbrev pub no_executors : RoutingConfig
no_executors = record { enabled = false; default_executor = ""; executors = [] }

unfoldable pub prepare_each : Platform → Outside → ℕ → List Fields → Result (List Fields)
prepare_each p o turn [] = ok []
prepare_each p o turn (task ∷ tasks) = get_task_details o turn (text_at "id" task) >>= λ details.
    prepare_each p o turn tasks >>= λ rest.
    ok (with_task (apply_manual_owner_policy p o.cfg no_executors (or_task details task)) rest)

unfoldable pub listed : Completed → List Fields
listed c = if is_zero c.returncode then parse_ready_output c.stdout else []

-- `get_ready_tasks`
unfoldable pub get_ready_tasks : Platform → Outside → ℕ → Result (List Fields)
get_ready_tasks p o turn =
    run_command o.fault_text (o.ready turn) >>= λ c. prepare_each p o turn (listed c)

abbrev is_assist : Fields → Bool
is_assist task = text_at "manual_owner_policy" task == "assist"

abbrev or_owner : String → String
or_owner s = if is_empty s then "the owner" else s

-- `build_worker_prompt`, with the template of the prompt
unfoldable pub build_worker_prompt : Fields → String → String
build_worker_prompt task project_dir =
    let id = text_at "id" task in
    let owner = or_owner (text_at "manual_owner_id" task) in
    let check_line =
      concat
        ("   ./.workgraph/drifts check --task " ∷ id ∷ " --write-log --create-followups\n" ∷ []) in
    let prompt =
      "You are working in: "
      ∷ project_dir
      ∷ "\n\nTask: "
      ∷ id
      ∷ " — "
      ∷ text_at "title" task
      ∷ "\n\n"
      ∷ text_at "description" task
      ∷ "\n\n## Protocol\n1. At start, run drift check:\n"
      ∷ check_line
      ∷ "2. Follow TDD: write failing tests first, implement, verify green.\n"
      ∷ "3. Log progress: wg log "
      ∷ id
      ∷ " \"message\"\n4. Before completion, run drift check again:\n"
      ∷ check_line
      ∷ "5. If clean, mark done: wg done "
      ∷ id
      ∷ "\n6. If drift findings exist, fix them or create follow-up tasks.\n"
      ∷ "7. If you are stuck and need human judgment, run:\n   wg fail "
      ∷ id
      ∷ " --reason \"description of what needs human input\"\n"
      ∷ [] in
    if is_assist task
    then concat (
        prompt
        ++ "\n## Manual Owner Assist Mode\n- This task remains owned by " ∷ owner
          ∷ "; you may investigate and make progress, but do not close it.\n"
          ∷ "- If you need owner input or believe the work is ready for review, record that with `wg log "
          ∷ id ∷ " \"...\"`.\n- Before you stop, leave the task open with `wg unclaim " ∷ id
          ∷ "` unless the owner explicitly delegated terminal authority.\n- Do not run `wg done "
          ∷ id ∷ "` or `wg fail " ∷ id ∷ "` in this mode.\n" ∷ [])
    else concat prompt

-- The environment of a worker, beyond the inherited one.
unfoldable pub extra_env : Fields → List (String × String)
extra_env task =
    if is_assist task
    then ("WG_MANUAL_OWNER_ASSIST", "1")
      ∷ ("WG_MANUAL_OWNER_ID", text_at "manual_owner_id" task)
      ∷ ("WG_TASK_ID", text_at "id" task)
      ∷ []
    else []
