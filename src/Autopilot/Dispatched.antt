-- ===== src/Autopilot/Dispatched.antt =====
-- driftdriver/project_autopilot.py: what `dispatch_task` leaves behind.
use driftdriver.Base.{
  ℕ, String, ◌≡◌, ◌⊎◌, inl, inr, refl, ap, ◌∙◌, Bool, true, false, List, [], ◌∷◌, Bool-cases,
  if◌then◌else◌,
}
use driftdriver.Base.Value.{Value, null, bool, int, real, str, list, dict, Fields, Result, ok, err}
use driftdriver.Base.Platform.{Platform}
use driftdriver.Base.Act.{resume, Holds, resume-Holds, lift-Holds}
use driftdriver.Control.Authority.{Verdict}
use driftdriver.Autopilot.State.{
  AutopilotConfig, AutopilotRun, WorkerContext, Status, Outside, Happening, launched, unclaimed,
  after, Communicated, ended, overdue, raised, State, Step, store, check, note_verdict,
  authority_at, id_of,
}
use driftdriver.Autopilot.Talk.{launch_worker, get_of}
use driftdriver.Autopilot.Dispatch.{
  context, executed, claimed_state, claim, finish, refuse, give_up, conclude, started, run_cli,
  answered, finish_session, stop_session, talk, talk_to, run_session, launch_if, claim_if,
  dispatch_task, unclaim_claimed_task,
}

-- The ids of the workers that were launched, the newest first.
abbrev pub launched_ids : List Happening → List String
launched_ids [] = []
launched_ids (launched id ∷ hs) = id ∷ launched_ids hs
launched_ids (_ ∷ hs) = launched_ids hs

abbrev pub IsEnd : Status → Type 0
IsEnd Status.completed = Unit
IsEnd Status.failed = Unit
IsEnd _ = ⊥

-- The context that an ended dispatch enters in the run: the worker is over and has no finding yet.
abbrev pub IsFresh : WorkerContext → Type 0
IsFresh ctx = IsEnd ctx.status × (ctx.drift_fail_count ≡ 0)

-- At most the task's worker was launched since a record of the launched ids.
abbrev pub LaunchedFrom : String → List String → State → Type 0
LaunchedFrom id ids s = (launched_ids s.happenings ≡ ids) ⊎ (launched_ids s.happenings ≡ id ∷ ids)

-- The run is as it was.
abbrev pub Untouched : AutopilotRun → String → List String → State → Type 0
Untouched r id ids s = (s.run ≡ r) × LaunchedFrom id ids s

-- A refusal leaves the run as it was; any other dispatch enters its worker.
abbrev pub Entered : AutopilotRun → String → List String → WorkerContext → State → Type 0
Entered r id ids ctx s =
    ((ctx.status ≡ Status.blocked) × (s.run ≡ r) ⊎ IsFresh ctx × (s.run ≡ store id ctx r))
    × LaunchedFrom id ids s

pub launched_ids-note :
    (k : ℕ) (v : Verdict) (hs : List Happening)
    → launched_ids (note_verdict k v ∷ hs) ≡ launched_ids hs
launched_ids-note k v hs = elim (Bool-cases v.enabled) [
  | inl on ↦ rw on refl
  | inr off ↦ rw off refl
]

module _ (r : AutopilotRun) (task : Fields) (ids : List String) where
  -- Before the launch.
  abbrev Before : State → Type 0
  Before s = (s.run ≡ r) × (launched_ids s.happenings ≡ ids)

  abbrev Kept : State → Type 0
  Kept = Untouched r (id_of task) ids

  abbrev Done : (State → Type 0) → Step WorkerContext → Type 0
  Done P m = (s : State) → P s → Holds Kept (Entered r (id_of task) ids) (m s)

  before : (s : State) → Before s → Kept s
  before s h = (h.0, inl h.1)

  finish-Done :
      (status : Status) (response : String) → IsEnd status → Done Kept (finish task status response)
  finish-Done status response e s h =
      (inr ((e, refl), ap (store (id_of task) (context task status response)) h.0), h.1)

  give_up-Done : (o : Outside) (response : String) → Done Kept (give_up o task response)
  unfolding give_up unclaim_claimed_task
  give_up-Done o response s h = finish-Done Status.failed _ tt (after (unclaimed (id_of task)) s) h

  ended-Done :
      (code : Bool) (out : String)
      → Done Kept (finish task (if code then Status.completed else Status.failed) out)
  ended-Done true out s h = finish-Done Status.completed out tt s h
  ended-Done false out s h = finish-Done Status.failed out tt s h

  conclude-Done : (o : Outside) (c : Communicated) → Done Kept (conclude o task c)
  unfolding conclude
  conclude-Done o (ended c) s h = ended-Done _ c.stdout s h
  conclude-Done o (overdue text) s h = give_up-Done o _ s h
  conclude-Done o (raised f) s h = h

  started-Done : (o : Outside) (x : Result (Unit {0})) → Done Kept (started o task x)
  unfolding started
  started-Done o (ok x) s h = conclude-Done o _ s h
  started-Done o (err f) s h = give_up-Done o _ s h

  run_cli-Done : (o : Outside) (c : AutopilotConfig) → Done Before (run_cli o c task)
  unfolding run_cli
  run_cli-Done o c s h =
      started-Done o _ (after (launched (id_of task)) s)
        (h.0, inr (ap (λ ids. id_of task ∷ ids) h.1))

  answer-IsEnd : (b : Bool) → IsEnd (if b then Status.failed else Status.completed)
  answer-IsEnd true = tt
  answer-IsEnd false = tt

  answered-IsEnd : (o : Outside) (x : Result String) → IsEnd (answered o x).0
  unfolding answered
  answered-IsEnd o (err f) = tt
  answered-IsEnd o (ok response) = answer-IsEnd _

  finish_session-Done :
      (session : Value) (x : Status × String)
      → IsEnd x.0
      → Done Kept (finish_session task session x)
  finish_session-Done session x e s h = (inr ((e, refl), ap (store (id_of task) _) h.0), h.1)

  talk-Done : (p : Platform) (o : Outside) (session : Value) → Done Kept (talk p o task session)
  unfolding talk
  talk-Done p o session s h =
      lift-Holds Kept (Entered r (id_of task) ids) (stop_session o task session) s _ h
        (λ _ _. finish_session-Done session _ (answered-IsEnd o _) s h)

  session-Done :
      (p : Platform) (o : Outside) (info : Value)
      → Done Kept (λ s. resume (s, get_of "session_id" info) (talk p o task))
  session-Done p o info s h =
      lift-Holds Kept (Entered r (id_of task) ids) (get_of "session_id" info) s _ h
        (λ session _. talk-Done p o session s h)

  talk_to-Done : (p : Platform) (o : Outside) (info : Value) → Done Kept (talk_to p o task info)
  unfolding talk_to
  talk_to-Done p o null s h = finish-Done Status.failed _ tt s h
  talk_to-Done p o (bool b) s h = session-Done p o (bool b) s h
  talk_to-Done p o (int n) s h = session-Done p o (int n) s h
  talk_to-Done p o (real x) s h = session-Done p o (real x) s h
  talk_to-Done p o (str t) s h = session-Done p o (str t) s h
  talk_to-Done p o (list vs) s h = session-Done p o (list vs) s h
  talk_to-Done p o (dict d) s h = session-Done p o (dict d) s h

  run_session-Done : (p : Platform) (o : Outside) → Done Before (run_session p o task)
  unfolding run_session
  run_session-Done p o s h =
      let s' = after (launched (id_of task)) s in
      let kept : Kept s' = (h.0, inr (ap (λ ids. id_of task ∷ ids) h.1)) in
      lift-Holds Kept (Entered r (id_of task) ids) (launch_worker o _ _) s' _ kept
        (λ info _. talk_to-Done p o info s' kept)

  refuse-Done : (response : String) → Done Kept (refuse task response)
  refuse-Done response s h = (inl (refl, h.0), h.1)

  either-Done :
      (b : Bool) (m n : Step WorkerContext)
      → Done Before m
      → Done Before n
      → Done Before (if b then m else n)
  either-Done true m n f g = f
  either-Done false m n f g = g

  launch_if-Done :
      (p : Platform) (o : Outside) (c : AutopilotConfig) (v : Verdict)
      → Done Before (launch_if p o c task v)
  unfolding launch_if unclaim_claimed_task
  launch_if-Done p o c v =
      either-Done v.enabled _ _
        (either-Done o.has_driver _ _ (run_session-Done p o) (run_cli-Done o c))
        (λ s h. refuse-Done _ (after (unclaimed (id_of task)) s) (before s h))

  check-Before : (p : Platform) (o : Outside) (s : State) → Before s → Before (check p o s).0
  unfolding check
  check-Before p o s h =
      (h.0, launched_ids-note s.checks (authority_at p o s.checks) s.happenings ∙ h.1)

  checked-Done :
      (p : Platform) (o : Outside) (f : Verdict → Step WorkerContext)
      → ((v : Verdict) → Done Before (f v))
      → Done Before (λ s. resume (check p o s) f)
  unfolding check
  checked-Done p o f k s h = k (authority_at p o s.checks) (check p o s).0 (check-Before p o s h)

  claim-Before :
      (p : Platform) (o : Outside) (c : AutopilotConfig) (s : State)
      → Before s
      → Holds Kept (λ _ s. Before s) (claim p o c task s)
  unfolding claim
  claim-Before p o c s h =
      let x = executed p o c task s in
      let s' = claimed_state task x.0 s in
      lift-Holds Kept (λ _ s. Before s) x.1 s' _ (before s' h) (λ _ _. h)

  claim_if-Done :
      (p : Platform) (o : Outside) (c : AutopilotConfig) (v : Verdict)
      → Done Before (claim_if p o c task v)
  unfolding claim_if
  claim_if-Done p o c v =
      either-Done v.enabled _ _
        (λ s h.
          resume-Holds Kept (λ _ s. Before s) (Entered r (id_of task) ids) (claim p o c task s) _
            (claim-Before p o c s h)
            (λ _ s h. checked-Done p o (launch_if p o c task) (launch_if-Done p o c) s h))
        (λ s h. refuse-Done _ s (before s h))

  dispatch_task-Done :
      (p : Platform) (o : Outside) (c : AutopilotConfig) → Done Before (dispatch_task p o c task)
  unfolding dispatch_task
  dispatch_task-Done p o c s h = checked-Done p o (claim_if p o c task) (claim_if-Done p o c) s h

-- A dispatch that is refused leaves the run as it was, and any other enters a worker that has ended and was
-- launched at most once, with no drift failure; an exception leaves the run as it was.
pub dispatch_task-Entered :
    (p : Platform) (o : Outside) (c : AutopilotConfig) (task : Fields) (s : State)
    → Holds
        (Untouched s.run (id_of task) (launched_ids s.happenings))
        (Entered s.run (id_of task) (launched_ids s.happenings))
        (dispatch_task p o c task s)
dispatch_task-Entered p o c task s =
    dispatch_task-Done s.run task (launched_ids s.happenings) p o c s (refl, refl)
