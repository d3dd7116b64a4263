-- ===== src/Autopilot/Drift.antt =====
-- driftdriver/project_autopilot.py: the drift check of a task, findings that recur, and `trigger_evolve`.
use driftdriver.Base.{
  ℕ, String, Bool, true, false, not, ◌&&◌, List, [], ◌∷◌, length, keep, map, is_empty, is_in, strip,
  lower, starts_with, contains, concat, leb, ◌==◌, if◌then◌else◌,
}
use driftdriver.Base.Value.{Result, ok, ◌>>=◌, is_zero, ℤ, pos, negsuc}
use driftdriver.Autopilot.Text.{splitlines, drop_text, without_places, collapse}
use driftdriver.Autopilot.State.{Outside, Completed, WorkerContext, AutopilotRun, run_command}

-- The values of `score`
pub data Score : Type 0 where
  green yellow red unknown : Score

pub record DriftResult : Type 0 where
  pub score : Score
  pub findings : List String

-- The score after one line of the output, in lower case.
unfoldable pub score_after : String → Score → Score
score_after line score =
    if contains line "score:"
    then (if contains line "red" then red else if contains line "yellow" then yellow else score)
    else score

unfoldable pub read_score : List String → Score → Score
read_score [] score = score
read_score (line ∷ lines) score = read_score lines (score_after (lower (strip line)) score)

unfoldable pub read_findings : List String → List String
read_findings [] = []
read_findings (line ∷ lines) =
    let rest = read_findings lines in
    if contains (lower (strip line)) "finding" && not (is_empty (strip line))
    then strip line ∷ rest
    else rest

unfoldable pub parse_drift : Completed → DriftResult
parse_drift c =
    let lines = splitlines (concat (c.stdout ∷ c.stderr ∷ [])) in
    record { score = read_score lines green; findings = read_findings lines }

-- `run_drift_check`; an exception of `subprocess.run` goes through.
unfoldable pub run_drift_check : Outside → String → Result DriftResult
run_drift_check o id =
    if o.has_drifts
    then (o.drift id >>= λ c. ok (parse_drift c))
    else ok (record { score = unknown; findings = [] })

-- `n >= threshold`
unfoldable pub at_least : ℤ → ℕ → Bool
at_least (pos t) n = leb t n
at_least (negsuc t) n = true

-- `should_escalate`
unfoldable pub should_escalate : WorkerContext → ℤ → Bool
should_escalate ctx threshold = at_least threshold ctx.drift_fail_count

abbrev without_prefix : String → ℕ → String → String
without_prefix prefix n text = if starts_with text prefix then strip (drop_text n text) else text

-- `_normalize_finding`
unfoldable pub normalize_finding : String → String
normalize_finding finding =
    let text = without_prefix "finding (red):" 14 (
      without_prefix "finding (yellow):" 17
        (without_prefix "finding:" 8 (lower (strip finding)))) in
    strip (collapse false (without_places 0 text))

-- `finding_tasks.setdefault(key, set()).add(task_id)`
unfoldable pub add_task_of :
    String → String → List (String × List String) → List (String × List String)
add_task_of key id [] = (key, id ∷ []) ∷ []
add_task_of key id ((k, ids) ∷ rest) =
    if k == key
    then (k, if is_in id ids then ids else id ∷ ids) ∷ rest
    else (k, ids) ∷ add_task_of key id rest

unfoldable pub add_findings :
    String → List String → List (String × List String) → List (String × List String)
add_findings id [] table = table
add_findings id (finding ∷ findings) table =
    let key = normalize_finding finding in
    add_findings id findings (if is_empty key then table else add_task_of key id table)

unfoldable pub finding_tasks :
    List (String × WorkerContext) → List (String × List String) → List (String × List String)
finding_tasks [] table = table
finding_tasks ((id, ctx) ∷ workers) table =
    finding_tasks workers (add_findings id ctx.drift_findings table)

-- `detect_recurring_findings`
unfoldable pub detect_recurring_findings : AutopilotRun → ℤ → List String
detect_recurring_findings run threshold =
    map (λ (row : String × List String). row.0)
      (keep (λ (row : String × List String). at_least threshold (length row.1))
        (finding_tasks run.workers []))

-- `trigger_evolve`, whether it was triggered
unfoldable pub trigger_evolve : Outside → Result Bool
trigger_evolve o = run_command o.fault_text o.evolve >>= λ c. ok (is_zero c.returncode)
