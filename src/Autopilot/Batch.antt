-- ===== src/Autopilot/Batch.antt =====
-- driftdriver/project_autopilot.py: what the loop over a batch does to the run.
use driftdriver.Base.{
  ℕ, suc, String, ◌≡◌, ◌⊎◌, inl, inr, refl, Bool, true, false, ◌&&◌, ◌||◌, List, [], ◌∷◌, is_in,
  Bool-cases, arith, leb, lt→leb, ◌==◌, if◌then◌else◌,
}
use driftdriver.Base.Value.{pos}
use driftdriver.Autopilot.State.{
  AutopilotConfig, AutopilotRun, WorkerContext, Status, put_worker, store, complete, fail, escalate,
}
use driftdriver.Autopilot.Drift.{DriftResult, at_least, should_escalate}
use driftdriver.Autopilot.Dispatched.{IsEnd, IsFresh}
use driftdriver.Autopilot.Loop.{is_processed, graded, is_red, settle_drift}

abbrev pub IsOver : Status → Type 0
IsOver Status.running = ⊥
IsOver _ = Unit

-- No worker of the run is running.
abbrev pub AllOver : List (String × WorkerContext) → Type 0
AllOver [] = Unit
AllOver ((id, ctx) ∷ ws) = IsOver ctx.status × AllOver ws

-- With a threshold of two or more, nothing is escalated.
abbrev pub NotEscalated : AutopilotConfig → AutopilotRun → Type 0
NotEscalated c r = (t : ℕ) → c.drift_failure_threshold ≡ pos (suc (suc t)) → r.escalated_tasks ≡ []

abbrev pub Sound : AutopilotConfig → AutopilotRun → Type 0
Sound c r = AllOver r.workers × NotEscalated c r

-- The processed ids are those of before and the listed ones.
abbrev pub Adds : List String → AutopilotRun → AutopilotRun → Type 0
Adds ids r r' = (j : String) → is_processed r' j ≡ (is_in j ids || is_processed r j)

-- What was processed stays so.
abbrev pub Grows : AutopilotRun → AutopilotRun → Type 0
Grows r r' = (j : String) → is_processed r j ≡ true → is_processed r' j ≡ true

pub Adds-Grows : (ids : List String) (r r' : AutopilotRun) → Adds ids r r' → Grows r r'
Adds-Grows ids r r' h j e = ground (arith, h j, e)

pub Adds-In :
    (ids : List String) (r r' : AutopilotRun)
    → Adds ids r r'
    → (j : String) → is_in j ids ≡ true
    → is_processed r' j ≡ true
Adds-In ids r r' h j e = ground (arith, h j, e)

-- The second record is the first with some of the ids put in front, in their order.
abbrev pub Pushes : List String → List String → List String → Type 0
Pushes [] l l' = l' ≡ l
Pushes (id ∷ ids) l l' = Pushes ids l l' ⊎ Pushes ids (id ∷ l) l'

pub no_push : (ids l l' : List String) → l' ≡ l → Pushes ids l l'
no_push [] l l' h = h
no_push (id ∷ ids) l l' h = inl (no_push ids l l' h)

pub put_worker-AllOver :
    (id : String) (ctx : WorkerContext) (ws : List (String × WorkerContext))
    → IsOver ctx.status
    → AllOver ws
    → AllOver (put_worker id ctx ws)
unfolding put_worker
put_worker-AllOver id ctx [] o h = (o, tt)
put_worker-AllOver id ctx ((j, old) ∷ ws) o h = elim (Bool-cases (j == id)) [
  | inl on ↦ rw on (o, h.1)
  | inr off ↦ rw off (h.0, put_worker-AllOver id ctx ws o h.1)
]

pub IsEnd-IsOver : (status : Status) → IsEnd status → IsOver status
IsEnd-IsOver Status.completed e = tt
IsEnd-IsOver Status.failed e = tt
IsEnd-IsOver _ e = absurd e

-- Each of the three sets is one of those that count.
pub complete-Adds : (id : String) (r : AutopilotRun) → Adds (id ∷ []) r (complete id r)
unfolding is_processed
complete-Adds id r j = ground arith

pub fail-Adds : (id : String) (r : AutopilotRun) → Adds (id ∷ []) r (fail id r)
unfolding is_processed
fail-Adds id r j = ground arith

pub escalate-Adds : (id : String) (r : AutopilotRun) → Adds (id ∷ []) r (escalate id r)
unfolding is_processed
escalate-Adds id r j = ground arith

-- The workers do not count.
pub store-Adds :
    (ids : List String) (id : String) (ctx : WorkerContext) (r r' : AutopilotRun)
    → Adds ids (store id ctx r) r'
    → Adds ids r r'
unfolding is_processed
store-Adds ids id ctx r r' h = h

module _ (c : AutopilotConfig) (id : String) where
  -- What a step for one task makes of the run.
  abbrev pub Stepped : AutopilotRun → Bool → AutopilotRun → Type 0
  Stepped r b r' = Sound c r' × (b ≡ true → Adds (id ∷ []) r r')

  pub failed-Stepped :
      (ctx : WorkerContext) (r : AutopilotRun)
      → IsOver ctx.status
      → Sound c r
      → Stepped r true (fail id (store id ctx r))
  unfolding is_processed
  failed-Stepped ctx r e h =
      ((put_worker-AllOver id ctx r.workers e h.0, h.1), λ _. fail-Adds id (store id ctx r))

  one_failure : (b : Bool) (t : ℕ) → (b && leb (suc (suc t)) (if b then 1 else 0)) ≡ false
  one_failure true t = lt→leb (suc (suc t)) 1 (omega arith)
  one_failure false t = refl

  -- One failure is not enough for a threshold of two.
  too_few :
      (d : DriftResult) (ctx : WorkerContext) (t : ℕ)
      → ctx.drift_fail_count ≡ 0
      → c.drift_failure_threshold ≡ pos (suc (suc t))
      → (is_red d.score && should_escalate (graded d ctx) c.drift_failure_threshold) ≡ false
  unfolding should_escalate at_least
  too_few d ctx t z h = rw (h, z) (one_failure (is_red d.score) t)

  settle-AllOver :
      (d : DriftResult) (ctx : WorkerContext) (r : AutopilotRun)
      → IsOver ctx.status
      → AllOver r.workers
      → AllOver (settle_drift c id d ctx r).workers
  unfolding settle_drift
  settle-AllOver d ctx r e h =
      elim (Bool-cases
        (is_red d.score && should_escalate (graded d ctx) c.drift_failure_threshold)) [
          | inl on ↦ rw on (put_worker-AllOver id _ r.workers tt h)
          | inr off ↦ rw off (put_worker-AllOver id (graded d ctx) r.workers e h)
        ]

  settle-Adds :
      (d : DriftResult) (ctx : WorkerContext) (r : AutopilotRun)
      → Adds (id ∷ []) r (settle_drift c id d ctx r)
  unfolding settle_drift is_processed
  settle-Adds d ctx r j = ground arith

  settle-NotEscalated :
      (d : DriftResult) (ctx : WorkerContext) (r : AutopilotRun)
      → ctx.drift_fail_count ≡ 0
      → NotEscalated c r
      → NotEscalated c (settle_drift c id d ctx r)
  unfolding settle_drift
  settle-NotEscalated d ctx r z h t e = rw (too_few d ctx t z e) (h t e)

  pub settle-Stepped :
      (d : DriftResult) (ctx : WorkerContext) (r : AutopilotRun)
      → IsFresh ctx
      → Sound c r
      → Stepped r true (settle_drift c id d ctx (store id ctx r))
  unfolding is_processed
  settle-Stepped d ctx r f h =
      let over = IsEnd-IsOver ctx.status f.0 in
      (
        (
          settle-AllOver d ctx (store id ctx r) over (put_worker-AllOver id ctx r.workers over h.0),
          settle-NotEscalated d ctx (store id ctx r) f.1 h.1,
        ),
        λ _. settle-Adds d ctx (store id ctx r),
      )
