-- ===== src/Autopilot/Command.antt =====
-- driftdriver/cli/__init__.py: `cmd_autopilot`, and the workers of driftdriver/project_autopilot.py that it
-- asks for a text, `decompose_goal` and `run_milestone_review`. The prompts are arguments.
use driftdriver.Base.{
  ℕ, suc, String, ◌≡◌, refl, ap, ◌∙◌, Bool, true, false, not, ◌&&◌, Option, none, some, List, [],
  ◌∷◌, if◌then◌else◌,
}
use driftdriver.Base.Value.{Value, Result, ok, err, truthy}
use driftdriver.Base.Platform.{Platform}
use driftdriver.Base.Act.{return, lift, resume, ◌>>=◌}
use driftdriver.Directive.Shim.{Effects}
use driftdriver.Autopilot.State.{
  AutopilotConfig, AutopilotRun, Outside, Completed, denied, consulted, State, Step, happen, after,
  change, check, authority_at, run_command,
}
use driftdriver.Autopilot.Talk.{launch_worker, get_of, converse}
use driftdriver.Autopilot.Loop.{Ending, permitted, run_if, run_autopilot_loop}
use driftdriver.Autopilot.Start.{new_run, start}

pub record Arguments : Type 0 where
  pub has_workgraph : Bool
  pub skip_decompose : Bool
  pub skip_review : Bool
  pub decompose_prompt : String
  pub review_prompt : AutopilotRun → String
  pub contracts : Option (Result Completed)

-- The way by the command line.
unfoldable pub consult_cli : Outside → String → String → Result String
consult_cli o worker prompt = elim (run_command o.fault_text (o.consult worker prompt)) [
  | ok c ↦ ok c.stdout
  | err f ↦ err f
]

-- The conversation and the `finally` after it: an exception of the stop takes the place of the answer.
unfoldable pub after_stop : Result String → Result (Unit {0}) → Result String
after_stop answer (ok x) = answer
after_stop answer (err f) = err f

unfoldable pub consult_session : Platform → Outside → String → Result Value → Result String
consult_session p o worker (err f) = err f
consult_session p o worker (ok session) =
    if truthy session then after_stop (converse p o worker) (o.stop worker) else converse p o worker

unfoldable pub consult_launched :
    Platform → Outside → String → String → Result Value → Result String
consult_launched p o worker prompt (err f) = err f
consult_launched p o worker prompt (ok info) =
    if truthy info
    then consult_session p o worker (get_of "session_id" info)
    else consult_cli o worker prompt

-- What both functions do with their prompt.
unfoldable pub consult_worker : Platform → Outside → String → String → Step String
consult_worker p o worker prompt = happen (consulted worker) >>= λ _. lift (
    if o.has_driver
    then consult_launched p o worker prompt (launch_worker o worker [])
    else consult_cli o worker prompt)

-- `decompose_goal`
unfoldable pub decompose_goal : Platform → Outside → Arguments → Step String
decompose_goal p o a = consult_worker p o "ap-decompose" a.decompose_prompt

-- `run_milestone_review`
unfoldable pub run_milestone_review : Platform → Outside → AutopilotConfig → Arguments → Step String
run_milestone_review p o c a s =
    if c.dry_run
    then (s, ok "[dry-run] Review skipped")
    else consult_worker p o "ap-reviewer" (a.review_prompt s.run) s

abbrev contracts_ensured : Arguments → Result (Unit {0})
contracts_ensured a = elim a.contracts [ some (err f) ↦ err f | _ ↦ ok tt ]

-- The first step of the command.
unfoldable pub decompose_first : Platform → Outside → Arguments → Step (Unit {0})
decompose_first p o a =
    if a.skip_decompose
    then return tt
    else (decompose_goal p o a >>= λ _. lift (contracts_ensured a))

abbrev is_some {ℓ} : {A : Type ℓ} → List A → Bool
is_some [] = false
is_some (x ∷ xs) = true

-- The third step.
unfoldable pub review_last : Platform → Outside → AutopilotConfig → Arguments → Step (Unit {0})
review_last p o c a s =
    if is_some s.run.completed_tasks && not a.skip_review
    then (run_milestone_review p o c a >>= λ _. return tt) s
    else (s, ok tt)

unfoldable pub exit_code : AutopilotRun → ℕ
exit_code r = if is_some r.escalated_tasks then 3 else if is_some r.failed_tasks then 1 else 0

abbrev finish_run : State → State × Result (Option ℕ)
finish_run s = (s, ok (some (exit_code s.run)))

-- What follows the loop, if it has ended.
unfoldable pub conclude_run :
    Platform → Outside → AutopilotConfig → Arguments → Option Ending → Step (Option ℕ)
conclude_run p o c a none = return none
conclude_run p o c a (some ending) = review_last p o c a >>= λ _. finish_run

-- The steps of the command.
unfoldable pub run_steps : Platform → Outside → AutopilotConfig → Arguments → ℕ → Step (Option ℕ)
run_steps p o c a fuel = decompose_first p o a >>= λ _.
    change (λ _. new_run) >>= λ _. run_autopilot_loop p o c fuel >>= conclude_run p o c a

-- `cmd_autopilot`: its exit code, `none` where the fuel of the loop is used up. The reports are not
-- written.
unfoldable pub cmd_autopilot :
    Platform → Outside → AutopilotConfig → Arguments → ℕ → Step (Option ℕ)
cmd_autopilot p o c a fuel = if a.has_workgraph then run_steps p o c a fuel else return (some 1)

still-lift :
    (s : State) (m : Result String) (n : Result (Unit {0})) → (resume (s, m) (λ _. lift n)).0 ≡ s
still-lift s (ok text) n = refl
still-lift s (err f) n = refl

asked_first :
    (p : Platform) (o : Outside) (a : Arguments) (s : State)
    → a.skip_decompose ≡ false
    → (decompose_first p o a s).0 ≡ after (consulted "ap-decompose") s
unfolding decompose_first decompose_goal consult_worker
asked_first p o a s decomposes = rw decomposes (still-lift (after (consulted "ap-decompose") s) _ _)

abbrev denied_state : State → State
denied_state s = record s { checks = suc s.checks; happenings = denied s.checks ∷ s.happenings }

denied_check :
    (p : Platform) (o : Outside) (c : AutopilotConfig) (s : State)
    → c.dry_run ≡ false
    → (authority_at p o s.checks).enabled ≡ false
    → permitted p o c s ≡ (denied_state s, ok false)
unfolding permitted check
denied_check p o c s wet off = rw (wet, off) refl

denied_loop :
    (p : Platform) (o : Outside) (c : AutopilotConfig) (fuel : ℕ) (s : State)
    → c.dry_run ≡ false
    → (authority_at p o s.checks).enabled ≡ false
    → run_autopilot_loop p o c fuel s ≡ (denied_state s, ok (some Ending.denied))
unfolding run_autopilot_loop run_if
denied_loop p o c fuel s wet off =
    ap (λ (x : State × Result Bool). resume x (run_if p o c fuel)) (denied_check p o c s wet off)

-- The end of a run that has completed nothing.
nothing_to_review :
    (p : Platform) (o : Outside) (c : AutopilotConfig) (a : Arguments) (e : Ending) (s : State)
    → conclude_run p o c a (some e) (record s { run = new_run })
      ≡ (record s { run = new_run }, ok (some 0))
unfolding conclude_run review_last exit_code
nothing_to_review p o c a e s = refl

-- A command whose first check denies dispatch, and whose decomposition succeeds, has asked the worker for
-- the decomposition of the goal before that check, has claimed and launched nothing, and exits with 0.
pub cmd_autopilot-denied :
    (p : Platform) (o : Outside) (c : AutopilotConfig) (a : Arguments) (fuel : ℕ) (e : Effects)
    → a.has_workgraph ≡ true
    → a.skip_decompose ≡ false
    → c.dry_run ≡ false
    → (authority_at p o 0).enabled ≡ false
    → (decompose_first p o a (start e)).1 ≡ ok tt
    → ((cmd_autopilot p o c a fuel (start e)).0.happenings
        ≡ denied 0 ∷ consulted "ap-decompose" ∷ [])
      × ((cmd_autopilot p o c a fuel (start e)).1 ≡ ok (some 0))
unfolding cmd_autopilot run_steps
cmd_autopilot-denied p o c a fuel e workgraph decomposes wet off done =
    let s = after (consulted "ap-decompose") (start e) in
    let first : decompose_first p o a (start e) ≡ (s, ok tt) =
      ap (λ (t : State). (t, (decompose_first p o a (start e)).1))
        (asked_first p o a (start e) decomposes)
      ∙ ap (λ (m : Result (Unit {0})). (s, m)) done in
    let whole : cmd_autopilot p o c a fuel (start e) ≡ (denied_state s, ok (some 0)) =
      ap (λ b. (if b then run_steps p o c a fuel else return (some 1)) (start e)) workgraph
      ∙ ap
          (λ (x : State × Result (Unit {0})). resume x (λ _.
            change (λ _. new_run) >>= λ _. run_autopilot_loop p o c fuel >>= conclude_run p o c a))
          first
      ∙ ap (λ (x : State × Result (Option Ending)). resume x (conclude_run p o c a))
          (denied_loop p o c fuel s wet off)
      ∙ nothing_to_review p o c a Ending.denied (denied_state s) in
    (
      ap (λ (x : State × Result (Option ℕ)). x.0.happenings) whole,
      ap (λ (x : State × Result (Option ℕ)). x.1) whole,
    )
