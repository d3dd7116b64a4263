-- ===== src/Autopilot/Start.antt =====
-- driftdriver/project_autopilot.py: the start of a run.
use driftdriver.Base.{ℕ, ◌≡◌, refl, Bool, true, false, Option, some, []}
use driftdriver.Base.Platform.{Platform}
use driftdriver.Base.Act.{Holds, resume-Holds, weaken}
use driftdriver.Directive.Shim.{Effects}
use driftdriver.Autopilot.State.{AutopilotConfig, AutopilotRun, Outside, State, check}
use driftdriver.Autopilot.Loop.{
  Ending, denied, permitted, turns, has_registry, run_if, run_autopilot_loop,
}
use driftdriver.Autopilot.Dispatched.{launched_ids}
use driftdriver.Autopilot.Still.{permitted-Holds, launched_ids-check}

-- A new `AutopilotRun`, and the state at the start.
abbrev pub new_run : AutopilotRun
new_run = record {
  workers = [];
  completed_tasks = [];
  failed_tasks = [];
  escalated_tasks = [];
  loop_count = 0;
}

abbrev pub start : Effects → State
start e = record { run = new_run; checks = 0; effects = e; happenings = [] }

admitted-Holds :
    (p : Platform) (o : Outside) (c : AutopilotConfig) (fuel : ℕ) (E : State → Type 0)
    (Q : Option Ending → State → Type 0)
    → ((s : State)
        → s.run ≡ new_run
        → launched_ids s.happenings ≡ []
        → Holds E Q (turns p o c (has_registry o c) fuel s))
    → ((s : State) → s.run ≡ new_run → launched_ids s.happenings ≡ [] → Q (some denied) s)
    → (b : Bool) (s : State) → (s.run ≡ new_run) × (launched_ids s.happenings ≡ [])
    → Holds E Q (run_if p o c fuel b s)
unfolding run_if
admitted-Holds p o c fuel E Q k d true s h = k s h.0 h.1
admitted-Holds p o c fuel E Q k d false s h = d s h.0 h.1

-- What holds of the loop from every state in which nothing was done yet, and of a denial there, holds of a
-- run.
pub begin-Holds :
    (p : Platform) (o : Outside) (c : AutopilotConfig) (fuel : ℕ) (e : Effects) (E : State → Type 0)
    (Q : Option Ending → State → Type 0)
    → ((s : State)
        → s.run ≡ new_run
        → launched_ids s.happenings ≡ []
        → Holds E Q (turns p o c (has_registry o c) fuel s))
    → ((s : State) → s.run ≡ new_run → launched_ids s.happenings ≡ [] → E s)
    → ((s : State) → s.run ≡ new_run → launched_ids s.happenings ≡ [] → Q (some denied) s)
    → Holds E Q (run_autopilot_loop p o c fuel (start e))
unfolding run_autopilot_loop check
begin-Holds p o c fuel e E Q k h d =
    let P : State → Type 0 = λ s. (s.run ≡ new_run) × (launched_ids s.happenings ≡ []) in
    resume-Holds E (λ b s. P s) Q (permitted p o c (start e)) _
      (weaken P (λ b s. P s) E (λ b s. P s) (permitted p o c (start e))
        (permitted-Holds p o c P (start e) (refl, refl) (refl, launched_ids-check p o (start e)))
        (λ s h'. h s h'.0 h'.1) (λ b s h'. h'))
      (admitted-Holds p o c fuel E Q k d)
