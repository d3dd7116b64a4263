-- ===== src/Autopilot/Still.antt =====
-- driftdriver/project_autopilot.py: the steps of a turn that leave the run and the workers alone.
use driftdriver.Base.{◌≡◌, refl, ap, Bool, true, false, List, [], ◌∷◌}
use driftdriver.Base.Value.{Value, Result, ok}
use driftdriver.Base.Platform.{Platform}
use driftdriver.Base.Act.{return, resume, Holds, lift-Holds, either-Holds}
use driftdriver.Autopilot.State.{
  AutopilotConfig, AutopilotRun, Status, Outside, evolved, after, State, change, check,
  authority_at,
}
use driftdriver.Autopilot.Drift.{trigger_evolve}
use driftdriver.Autopilot.Health.{
  is_running, running_workers, Assigned, detect_dead_workers, triage_each, checked_run,
  run_health_check,
}
use driftdriver.Autopilot.Dispatched.{launched_ids, launched_ids-note}
use driftdriver.Autopilot.Loop.{permitted, evolve_if, learn}
use driftdriver.Autopilot.Batch.{IsOver, AllOver}

over_not_running :
    (status : Status) (session : Value) → IsOver status → is_running status session ≡ false
over_not_running Status.running session h = absurd h
over_not_running _ session h = refl

running_workers_none :
    (o : Outside) (ws : List Assigned) → AllOver ws → running_workers ws [] ≡ ok []
unfolding running_workers
running_workers_none o [] h = refl
running_workers_none o ((id, ctx) ∷ ws) h =
    rw (over_not_running ctx.status ctx.session_id h.0) (running_workers_none o ws h.1)

checked_run-over : (o : Outside) (r : AutopilotRun) → AllOver r.workers → checked_run o r ≡ ok r
unfolding checked_run detect_dead_workers triage_each
checked_run-over o r h = rw (running_workers_none o r.workers h) refl

-- Where no worker is running, the health check changes nothing.
pub run_health_check-still :
    (o : Outside) (s : State) → AllOver s.run.workers → run_health_check o s ≡ (s, ok tt)
unfolding run_health_check
run_health_check-still o s h =
    ap (λ (x : Result AutopilotRun). resume (s, x) (λ r. change (λ _. r)))
      (checked_run-over o s.run h)

evolve_if-Holds :
    (o : Outside) (P : State → Type 0) (b : Bool) (s : State)
    → P s
    → P (after evolved s)
    → Holds P (λ _ s. P s) (evolve_if o b s)
unfolding evolve_if
evolve_if-Holds o P true s h k =
    lift-Holds P (λ _ s. P s) (trigger_evolve o) (after evolved s) _ k (λ _ _. k)
evolve_if-Holds o P false s h k = h

-- The check for findings that recur leaves the run and the workers alone.
pub learn-Holds :
    (o : Outside) (c : AutopilotConfig) (P : State → Type 0) (s : State)
    → P s
    → P (after evolved s)
    → Holds P (λ _ s. P s) (learn o c s)
unfolding learn
learn-Holds o c P s h k = evolve_if-Holds o P _ s h k

pub permitted-Holds :
    (p : Platform) (o : Outside) (c : AutopilotConfig) (P : State → Type 0) (s : State)
    → P s
    → P (check p o s).0
    → Holds P (λ _ s. P s) (permitted p o c s)
unfolding permitted check
permitted-Holds p o c P s h k =
    either-Holds P (λ _ s. P s) c.dry_run (return true) _ s (λ _. h) (λ _. k)

pub launched_ids-check :
    (p : Platform) (o : Outside) (s : State)
    → launched_ids (check p o s).0.happenings ≡ launched_ids s.happenings
unfolding check
launched_ids-check p o s = launched_ids-note s.checks (authority_at p o s.checks) s.happenings
