-- ===== src/Directive/Command.antt =====
-- driftdriver/executor_shim.py: `_build_command`. An argument is a value: only the validation makes it a
-- text.
use driftdriver.Base.{String, true, false, none, some, List, [], ◌∷◌, ◌++◌, map, concat}
use driftdriver.Base.Value.{
  Value, str, list, dict, Values, nil, cons, Fields, Fault, Result, ok, err, ◌>>=◌, truthy, get?,
  get, get_or, keys,
}
use driftdriver.Base.Platform.{Platform, str_of}
use driftdriver.Directive.Action.{
  Action, create_task, claim_task, complete_task, fail_task, start_service, stop_service,
  log_to_task, evolve_prompt, dispatch_to_peer, block_task, create_validation, create_upstream_pr,
  abandon_task, reschedule_task,
}

abbrev pub Command : Type 0
Command = List Value

-- `p[key]`
unfoldable pub item : String → Fields → Result Value
item key p = elim (get? key p) [ none ↦ err Fault.key_error | some v ↦ ok v ]

abbrev words : List String → Command
words = map str

letters : String → Values
letters String.[] = nil
letters (String.◌∷◌ c s) = cons (str (String.◌∷◌ c String.[])) (letters s)

key_values : List String → Values
key_values [] = nil
key_values (k ∷ ks) = cons (str k) (key_values ks)

-- `for x in value`
unfoldable pub each : Value → Result Values
unfolding letters key_values
each (list vs) = ok vs
each (str s) = ok (letters s)
each (dict d) = ok (key_values (keys d))
each _ = err Fault.type_error

-- `for x in ...: cmd += [flag, x]`
unfoldable pub flagged : String → Values → Command
flagged flag nil = []
flagged flag (cons v vs) = str flag ∷ v ∷ flagged flag vs

-- `for x in p.get(key, []): cmd += [flag, x]`
unfoldable pub repeated : String → String → Fields → Result Command
repeated flag key p = each (get_or key (list nil) p) >>= λ vs. ok (flagged flag vs)

-- `if p.get(key): cmd += [flag, p[key]]`
unfoldable pub optional : String → String → Fields → Command
optional flag key p = elim (truthy (get key p)) [ true ↦ str flag ∷ get key p ∷ [] | false ↦ [] ]

-- `if p.get("after_hours"): cmd += ["--after", str(p["after_hours"])]`
hours : Platform → Fields → Command
hours pl p = elim (truthy (get "after_hours" p)) [
  | true ↦ str "--after" ∷ str (str_of pl (get "after_hours" p)) ∷ []
  | false ↦ []
]

-- `_build_command`
unfoldable pub build_command : Platform → String → Action → Fields → Result Command
unfolding hours
build_command pl wg_dir create_task p = do
  title ← item "title" p
  task_id ← item "task_id" p
  tags ← repeated "-t" "tags" p
  after ← repeated "--after" "after" p
  ok (
      words ("wg" ∷ "--dir" ∷ wg_dir ∷ "add" ∷ [])
      ++ title ∷ str "--id" ∷ task_id ∷ str "--no-place" ∷ []
      ++ optional "-d" "description" p
      ++ optional "--assign" "assign" p
      ++ optional "--model" "model" p
      ++ tags
      ++ after)
build_command pl wg_dir claim_task p = do
  task_id ← item "task_id" p
  ok (words ("wg" ∷ "--dir" ∷ wg_dir ∷ "claim" ∷ []) ++ task_id ∷ optional "--actor" "agent" p)
build_command pl wg_dir complete_task p = do
  task_id ← item "task_id" p
  artifacts ← repeated "--artifact" "artifacts" p
  ok (words ("wg" ∷ "--dir" ∷ wg_dir ∷ "done" ∷ []) ++ task_id ∷ artifacts)
build_command pl wg_dir fail_task p = do
  task_id ← item "task_id" p
  ok (words ("wg" ∷ "--dir" ∷ wg_dir ∷ "fail" ∷ []) ++ task_id ∷ optional "-m" "reason" p)
build_command pl wg_dir start_service p =
    ok (
      words ("wg" ∷ "--dir" ∷ [])
      ++ get_or "repo" (str wg_dir) p ∷ words ("service" ∷ "start" ∷ []))
build_command pl wg_dir stop_service p =
    ok (
      words ("wg" ∷ "--dir" ∷ []) ++ get_or "repo" (str wg_dir) p ∷ words ("service" ∷ "stop" ∷ []))
build_command pl wg_dir log_to_task p = do
  task_id ← item "task_id" p
  message ← item "message" p
  ok (words ("wg" ∷ "--dir" ∷ wg_dir ∷ "log" ∷ []) ++ task_id ∷ message ∷ [])
build_command pl wg_dir evolve_prompt p =
    ok (words ("wg" ∷ "--dir" ∷ wg_dir ∷ "evolve" ∷ "run" ∷ []))
build_command pl wg_dir dispatch_to_peer p = do
  repo ← item "repo" p
  task_id ← item "task_id" p
  ok (
      words ("wg" ∷ "--dir" ∷ wg_dir ∷ "peer" ∷ "dispatch" ∷ "--repo" ∷ [])
      ++ repo ∷ str "--task" ∷ task_id ∷ [])
build_command pl wg_dir block_task p = do
  task_id ← item "task_id" p
  ok (words ("wg" ∷ "--dir" ∷ wg_dir ∷ "pause" ∷ []) ++ task_id ∷ [])
build_command pl wg_dir create_validation p = do
  parent ← item "parent_task_id" p
  let parent_text = str_of pl parent
  ok (
      words (
        "wg"
        ∷ "--dir"
        ∷ wg_dir
        ∷ "add"
        ∷ concat ("validate: " ∷ parent_text ∷ [])
        ∷ "--id"
        ∷ concat ("validate-" ∷ parent_text ∷ [])
        ∷ "--no-place"
        ∷ "--after"
        ∷ [])
      ++ parent ∷ words ("-t" ∷ "validation" ∷ "-d" ∷ [])
      ++ get_or "criteria" (str "Verify task deliverables") p ∷ [])
build_command pl wg_dir create_upstream_pr p = ok (
    words ("gh" ∷ "pr" ∷ "create" ∷ "--draft" ∷ "--title" ∷ [])
    ++ get_or "title" (str "upstream contribution") p ∷ str "--body" ∷ get_or "body" (str "") p ∷ []
    ++ optional "--base" "base" p
    ++ optional "--head" "head" p)
build_command pl wg_dir abandon_task p = do
  task_id ← item "task_id" p
  ok (words ("wg" ∷ "--dir" ∷ wg_dir ∷ "abandon" ∷ []) ++ task_id ∷ [])
build_command pl wg_dir reschedule_task p = do
  task_id ← item "task_id" p
  ok (words ("wg" ∷ "--dir" ∷ wg_dir ∷ "reschedule" ∷ []) ++ task_id ∷ hours pl p)
