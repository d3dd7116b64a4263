-- ===== src/Autopilot/Once.antt =====
-- driftdriver/project_autopilot.py: no task is launched twice, and nothing is escalated.
use driftdriver.Base.{
  ℕ, zero, suc, String, ◌≡◌, inl, inr, refl, sym, subst, Bool, true, false, Option, none, some,
  List, [], is_in, Bool-cases, arith,
}
use driftdriver.Base.Value.{pos, Result, ok, err}
use driftdriver.Base.Platform.{Platform}
use driftdriver.Base.Act.{Holds, resume-Holds, weaken}
use driftdriver.Directive.Shim.{Effects}
use driftdriver.Autopilot.State.{AutopilotConfig, AutopilotRun, Outside, State, Step}
use driftdriver.Autopilot.Loop.{
  Ending, is_processed, next_turn, turn, or_again, turns, has_registry, run_autopilot_loop,
}
use driftdriver.Autopilot.Dispatched.{launched_ids}
use driftdriver.Autopilot.Batch.{NotEscalated, Sound}
use driftdriver.Autopilot.Ids.{Distinct, Pushes-Distinct, Pushes-Within}
use driftdriver.Autopilot.Turn.{IsTidy, New, Launches, Stopped, Turned, After}
use driftdriver.Autopilot.Turns.{turn-Ends}
use driftdriver.Autopilot.Start.{start, begin-Holds}

again-Holds :
    (p : Platform) (o : Outside) (c : AutopilotConfig) (registry : Bool) (E : State → Type 0)
    (r : AutopilotRun) (l : List String) (later : Step (Option Ending))
    → ((s : State) → Stopped p o c registry r l s → E s)
    → ((s : State) → Turned p o c registry r l s → Holds E (λ e s. E s) (later s))
    → (e : Option Ending) (s : State) → After p o c registry r l e s
    → Holds E (λ e s. E s) (or_again later e s)
again-Holds p o c registry E r l later stop go (some e) s a = stop s a
again-Holds p o c registry E r l later stop go none s a = go s a

-- A property of the loop at every end, from the invariant of its turns.
turns-Hold :
    (p : Platform) (o : Outside) (c : AutopilotConfig) (registry : Bool) (I E : State → Type 0)
    → ((s : State) → I s → Sound c s.run)
    → ((s : State) → I s → E s)
    → ((s s' : State)
        → I s
        → Stopped p o c registry (next_turn s.run) (launched_ids s.happenings) s'
        → E s')
    → ((s s' : State)
        → I s
        → Turned p o c registry (next_turn s.run) (launched_ids s.happenings) s'
        → I s')
    → (fuel : ℕ) (s : State) → I s
    → Holds E (λ e s. E s) (turns p o c registry fuel s)
unfolding turns
turns-Hold p o c registry I E sound now stop go zero s h = now s h
turns-Hold p o c registry I E sound now stop go (suc fuel) s h =
    let r = next_turn s.run in
    let l = launched_ids s.happenings in
    resume-Holds E (After p o c registry r l) (λ e s. E s) (turn p o c registry s) _
      (weaken (Stopped p o c registry r l) (After p o c registry r l) E (After p o c registry r l)
        (turn p o c registry s) (turn-Ends p o c registry s (sound s h)) (λ s' e. stop s s' h e)
        (λ e s' a. a))
      (again-Holds p o c registry E r l (turns p o c registry fuel) (λ s' e. stop s s' h e)
        (λ s' a. turns-Hold p o c registry I E sound now stop go fuel s' (go s s' h a)))

-- The state at the end, whatever the end is.
pub at_end :
    (E : State → Type 0) (x : State × Result (Option Ending)) → Holds E (λ e s. E s) x → E x.0
at_end E (s, ok e) h = h
at_end E (s, err f) h = h

-- In a run with a failure threshold of two or more (three is the default), whatever the drift checks and
-- the health checks answer, no task is ever escalated.
pub run_autopilot_loop_never_escalates :
    (p : Platform) (o : Outside) (c : AutopilotConfig) (e : Effects) (fuel t : ℕ)
    → c.drift_failure_threshold ≡ pos (suc (suc t))
    → (run_autopilot_loop p o c fuel (start e)).0.run.escalated_tasks ≡ []
run_autopilot_loop_never_escalates p o c e fuel t h =
    at_end (λ s. NotEscalated c s.run) (run_autopilot_loop p o c fuel (start e))
      (begin-Holds p o c fuel e (λ s. NotEscalated c s.run) (λ e s. NotEscalated c s.run)
        (λ s same none_yet.
          turns-Hold p o c (has_registry o c) (λ s. Sound c s.run) (λ s. NotEscalated c s.run)
            (λ s i. i) (λ s i. i.1) (λ s s' i e. e.0) (λ s s' i e. e.0) fuel s
            (subst (Sound c) (sym same) (tt, λ t h. refl)))
        (λ s same none_yet. subst (NotEscalated c) (sym same) (λ t h. refl))
        (λ s same none_yet. subst (NotEscalated c) (sym same) (λ t h. refl)))
      t h

-- Every launched worker's task is processed.
abbrev AllProcessed : State → Type 0
AllProcessed s =
    (j : String) → is_in j (launched_ids s.happenings) ≡ true → is_processed s.run j ≡ true

abbrev Launched : State → Type 0
Launched s = Distinct (launched_ids s.happenings)

module _ (p : Platform) (o : Outside) (c : AutopilotConfig) (registry : Bool)
    (tidy : IsTidy p o) where
  abbrev Inv : State → Type 0
  Inv s = Sound c s.run × Launched s × AllProcessed s

  -- What is new in a turn was not launched before.
  not_launched :
      (s : State) (ids : List String)
      → AllProcessed s
      → New p o c registry (next_turn s.run) (launched_ids s.happenings) ids
      → (j : String) → is_in j ids ≡ true
      → is_in j (launched_ids s.happenings) ≡ false
  unfolding is_processed
  not_launched s ids h new j b = elim (Bool-cases (is_in j (launched_ids s.happenings))) [
    | inl before ↦ absurd (cc (h j before, new.1 j b))
    | inr fresh ↦ fresh
  ]

  stopped-Launched :
      (s s' : State)
      → Inv s
      → Launches p o c registry (next_turn s.run) (launched_ids s.happenings) s'
      → Launched s'
  stopped-Launched s s' i (ids, new, pushed) =
      Pushes-Distinct ids (launched_ids s.happenings) (launched_ids s'.happenings) pushed
        (new.0 tidy) i.1 (not_launched s ids i.2 new)

  Turned-AllProcessed :
      (s s' : State)
      → Inv s
      → Turned p o c registry (next_turn s.run) (launched_ids s.happenings) s'
      → AllProcessed s'
  unfolding is_processed
  Turned-AllProcessed s s' i (sound, grows, (ids, new, pushed, done), more) j b =
      elim (Bool-cases (is_in j ids)) [
        | inl now ↦ done j now
        | inr other ↦ grows j (
            i.2 j (
              ground (
                arith,
                other,
                Pushes-Within ids (launched_ids s.happenings) (launched_ids s'.happenings) j pushed
                    b,
              )))
      ]

  Turned-Inv :
      (s s' : State)
      → Inv s
      → Turned p o c registry (next_turn s.run) (launched_ids s.happenings) s'
      → Inv s'
  Turned-Inv s s' i a =
      let x = a.2 in (a.0, stopped-Launched s s' i (x.0, x.1, x.2), Turned-AllProcessed s s' i a)

-- In a run over listings that name no task twice, a worker is launched at most once for each task, whatever
-- the end of the run is.
pub run_autopilot_loop_launches_once :
    (p : Platform) (o : Outside) (c : AutopilotConfig) (e : Effects) (fuel : ℕ)
    → IsTidy p o
    → Distinct (launched_ids (run_autopilot_loop p o c fuel (start e)).0.happenings)
run_autopilot_loop_launches_once p o c e fuel tidy =
    let none_launched =
      λ (s : State) (none_yet : launched_ids s.happenings ≡ []). subst Distinct (sym none_yet) tt in
    at_end Launched (run_autopilot_loop p o c fuel (start e)) (
      begin-Holds p o c fuel e Launched (λ e s. Launched s)
        (λ s same none_yet.
          turns-Hold p o c (has_registry o c) (Inv p o c (has_registry o c) tidy) Launched
            (λ s i. i.0) (λ s i. i.1)
            (λ s s' i e. stopped-Launched p o c (has_registry o c) tidy s s' i e.1)
            (Turned-Inv p o c (has_registry o c) tidy) fuel s
            (
              subst (Sound c) (sym same) (tt, λ t h. refl),
              none_launched s none_yet,
              λ j b. absurd (cc (subst (λ l. is_in j l ≡ true) none_yet b)),
            ))
        (λ s same none_yet. none_launched s none_yet) (λ s same none_yet. none_launched s none_yet))
