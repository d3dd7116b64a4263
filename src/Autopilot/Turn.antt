-- ===== src/Autopilot/Turn.antt =====
-- driftdriver/project_autopilot.py: what one turn of the `while` loop does to the run.
use driftdriver.Base.{ℕ, suc, String, ◌≡◌, Bool, true, false, Option, none, some, List, [], is_in}
use driftdriver.Base.Value.{Fields, ok, pos}
use driftdriver.Base.Platform.{Platform}
use driftdriver.Autopilot.State.{AutopilotConfig, AutopilotRun, Outside, State}
use driftdriver.Autopilot.Tasks.{get_ready_tasks}
use driftdriver.Autopilot.Dispatched.{launched_ids}
use driftdriver.Autopilot.Loop.{Ending, is_processed}
use driftdriver.Autopilot.Batch.{NotEscalated, Sound, Grows, Pushes}
use driftdriver.Autopilot.Walk.{ids_of}
use driftdriver.Autopilot.Ids.{Distinct}

-- Every listing names a task once.
abbrev pub IsTidy : Platform → Outside → Type 0
IsTidy p o =
    (k : ℕ) (ready : List Fields) → get_ready_tasks p o k ≡ ok ready → Distinct (ids_of ready)

-- A batch holds a task, and what it holds is processed afterwards.
abbrev pub IsAble : AutopilotConfig → Bool → Type 0
IsAble c registry =
    ((m : ℕ) × (c.max_parallel ≡ pos (suc m))) × (registry ≡ true → c.dry_run ≡ false)

-- An id of the listing of a turn that was not processed, and is now.
abbrev pub Progress : Platform → Outside → ℕ → AutopilotRun → AutopilotRun → Type 0
Progress p o k r r' =
    (id : String) × (ready : List Fields) × (get_ready_tasks p o k ≡ ok ready)
    × (is_in id (ids_of ready) ≡ true)
    × (is_processed r id ≡ false)
    × (is_processed r' id ≡ true)

module _ (p : Platform) (o : Outside) (c : AutopilotConfig) (registry : Bool) (r : AutopilotRun)
    (l : List String) where
  -- Ids that were not processed when the turn began, each once.
  abbrev pub New : List String → Type 0
  New ids =
      (IsTidy p o → Distinct ids) × ((j : String) → is_in j ids ≡ true → is_processed r j ≡ false)

  -- The workers that the turn has launched are for such ids.
  abbrev pub Launches : State → Type 0
  Launches s = (ids : List String) × New ids × Pushes ids l (launched_ids s.happenings)

  abbrev pub Stopped : State → Type 0
  Stopped s = NotEscalated c s.run × Launches s

  -- After a turn that goes on.
  abbrev pub Turned : State → Type 0
  Turned s =
      Sound c s.run
      × Grows r s.run
      × ((ids : List String) × New ids
          × Pushes ids l (launched_ids s.happenings)
          × ((j : String) → is_in j ids ≡ true → is_processed s.run j ≡ true))
      × (IsAble c registry → Progress p o r.loop_count r s.run)

  abbrev pub After : Option Ending → State → Type 0
  After none s = Turned s
  After (some e) s = Stopped s

  -- Nothing is launched yet.
  pub idle : (s : State) → Sound c s.run → launched_ids s.happenings ≡ l → Stopped s
  idle s h e = (h.1, ([], ((λ _. tt), (λ j b. absurd (cc (b)))), e))
