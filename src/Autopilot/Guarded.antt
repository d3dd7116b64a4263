-- ===== src/Autopilot/Guarded.antt =====
-- driftdriver/project_autopilot.py: a run of `run_autopilot_loop` under the dispatch lease.
use driftdriver.Base.{ℕ, zero, suc, String, Bool, true, false, Option, none, some, List, [], ◌∷◌}
use driftdriver.Base.Value.{Fields}
use driftdriver.Base.Platform.{Platform}
use driftdriver.Base.Act.{return}
use driftdriver.Directive.Shim.{Effects}
use driftdriver.Autopilot.State.{
  AutopilotConfig, WorkerContext, Status, Outside, checked, evolved, after, State, Step, change,
  id_of,
}
use driftdriver.Autopilot.Tasks.{get_ready_tasks}
use driftdriver.Autopilot.Drift.{run_drift_check, trigger_evolve}
use driftdriver.Autopilot.Health.{checked_run, run_health_check}
use driftdriver.Autopilot.Dispatch.{dispatch_task}
use driftdriver.Autopilot.Peers.{run_peer_dispatch}
use driftdriver.Autopilot.Loop.{
  Ending, permitted, actionable_of, batch_of, check_drift, follow, dispatch_one, go_on,
  dispatch_each, evolve_if, learn, end_of_batch, run_batch, local_phase, ask_peers, work, look,
  next_turn, turn, or_again, turns, has_registry, run_if, run_autopilot_loop,
}
use driftdriver.Autopilot.Start.{start}
use driftdriver.Autopilot.Once.{at_end}
use driftdriver.Autopilot.License.{
  IsGuarded, Safe, Keeps, bind-Keeps, lift-Keeps, check-Keeps, either-Keeps,
}
use driftdriver.Autopilot.Launch.{dispatch_task-Safe, run_peer_dispatch-Safe}

module _ (p : Platform) (o : Outside) (c : AutopilotConfig) where
  permitted-Safe : (s : State) → Safe p o s → Keeps p o (permitted p o c) s
  unfolding permitted
  permitted-Safe s h =
      either-Keeps p o c.dry_run (return true) _ s (λ _. h)
        (λ _. check-Keeps p o (λ v. return v.enabled) s h (λ v s h g d. h))

  drift-Safe :
      (id : String) (ctx : WorkerContext) (s : State)
      → Safe p o s
      → Keeps p o (check_drift o c id ctx) s
  unfolding check_drift
  drift-Safe id ctx s h =
      lift-Keeps p o (run_drift_check o id) _ (after (checked id) s) (tt, h) (λ d. (tt, h))

  follow-Safe :
      (id : String) (ctx : WorkerContext) (status : Status) (s : State)
      → Safe p o s
      → Keeps p o (follow o c id ctx status) s
  unfolding follow
  follow-Safe id ctx Status.blocked s h = h
  follow-Safe id ctx Status.failed s h = h
  follow-Safe id ctx Status.completed s h = drift-Safe id ctx s h
  follow-Safe id ctx Status.running s h = drift-Safe id ctx s h
  follow-Safe id ctx Status.escalated s h = drift-Safe id ctx s h

  dispatch_one-Safe :
      (task : Fields) (s : State) → Safe p o s → Keeps p o (dispatch_one p o c task) s
  unfolding dispatch_one
  dispatch_one-Safe task s h =
      either-Keeps p o c.dry_run _ _ s (λ _. h)
        (λ _.
          bind-Keeps p o (dispatch_task p o c task) _ s (dispatch_task-Safe p o c task s h)
            (λ ctx. follow-Safe (id_of task) ctx ctx.status))

  go_on-Safe :
      (later : Step Bool)
      → ((s : State) → Safe p o s → Keeps p o later s)
      → (b : Bool) (s : State) → Safe p o s
      → Keeps p o (go_on later b) s
  go_on-Safe later k true s h = k s h
  go_on-Safe later k false s h = h

  dispatch_each-Safe :
      (batch : List Fields) (s : State) → Safe p o s → Keeps p o (dispatch_each p o c batch) s
  unfolding dispatch_each
  dispatch_each-Safe [] s h = h
  dispatch_each-Safe (task ∷ batch) s h =
      bind-Keeps p o (dispatch_one p o c task) _ s (dispatch_one-Safe task s h)
        (go_on-Safe (dispatch_each p o c batch) (dispatch_each-Safe batch))

  evolve-Safe : (b : Bool) (s : State) → Safe p o s → Keeps p o (evolve_if o b) s
  unfolding evolve_if
  evolve-Safe true s h =
      lift-Keeps p o (trigger_evolve o) _ (after evolved s) (tt, h) (λ _. (tt, h))
  evolve-Safe false s h = h

  learn-Safe : (s : State) → Safe p o s → Keeps p o (learn o c) s
  unfolding learn
  learn-Safe s h = evolve-Safe _ s h

  end_of_batch-Safe : (b : Bool) (s : State) → Safe p o s → Keeps p o (end_of_batch o c b) s
  end_of_batch-Safe true s h = bind-Keeps p o (learn o c) _ s (learn-Safe s h) (λ _ s h. h)
  end_of_batch-Safe false s h = h

  run_batch-Safe :
      (batch : List Fields) (b : Bool) (s : State)
      → Safe p o s
      → Keeps p o (run_batch p o c batch b) s
  unfolding run_batch
  run_batch-Safe batch true s h =
      bind-Keeps p o (dispatch_each p o c batch) (end_of_batch o c) s (dispatch_each-Safe batch s h)
        end_of_batch-Safe
  run_batch-Safe batch false s h = h

  local_phase-Safe :
      (actionable : List Fields) (ids : List String) (s : State)
      → Safe p o s
      → Keeps p o (local_phase p o c actionable ids) s
  unfolding local_phase
  local_phase-Safe actionable ids s h =
      bind-Keeps p o (permitted p o c) _ s (permitted-Safe s h)
        (run_batch-Safe (batch_of c ids actionable))

  ask_peers-Safe :
      (actionable : List Fields) (b : Bool) (s : State)
      → Safe p o s
      → Keeps p o (ask_peers p o c actionable b) s
  unfolding ask_peers
  ask_peers-Safe actionable false s h = h
  ask_peers-Safe actionable true s h =
      let peers = o.peers s.run.loop_count in
      bind-Keeps p o (run_peer_dispatch p o c peers actionable) (local_phase p o c actionable) s
        (run_peer_dispatch-Safe p o c peers actionable s h) (local_phase-Safe actionable)

  work-Safe :
      (registry : Bool) (left : List Fields) (s : State)
      → Safe p o s
      → Keeps p o (work p o c registry left) s
  unfolding work
  work-Safe registry [] s h = h
  work-Safe registry (t ∷ ts) s h =
      either-Keeps p o registry _ _ s
        (λ _.
          bind-Keeps p o (permitted p o c) (ask_peers p o c (t ∷ ts)) s (permitted-Safe s h)
            (ask_peers-Safe (t ∷ ts)))
        (λ _. local_phase-Safe (t ∷ ts) [] s h)

  look-Safe : (registry b : Bool) (s : State) → Safe p o s → Keeps p o (look p o c registry b) s
  unfolding look
  look-Safe registry false s h = h
  look-Safe registry true s h =
      lift-Keeps p o (get_ready_tasks p o s.run.loop_count) _ s h
        (λ ready. work-Safe registry (actionable_of s.run ready) s h)

  health-Safe : (s : State) → Safe p o s → Keeps p o (run_health_check o) s
  unfolding run_health_check
  health-Safe s h = lift-Keeps p o (checked_run o s.run) (λ r. change (λ _. r)) s h (λ r. h)

  turn-Safe : (registry : Bool) (s : State) → Safe p o s → Keeps p o (turn p o c registry) s
  unfolding turn
  turn-Safe registry s h =
      bind-Keeps p o (run_health_check o) _ (record s { run = next_turn s.run }) (health-Safe _ h)
        (λ _ s h.
          bind-Keeps p o (permitted p o c) (look p o c registry) s (permitted-Safe s h)
            (look-Safe registry))

  or_again-Safe :
      (later : Step (Option Ending))
      → ((s : State) → Safe p o s → Keeps p o later s)
      → (e : Option Ending) (s : State) → Safe p o s
      → Keeps p o (or_again later e) s
  or_again-Safe later k (some e) s h = h
  or_again-Safe later k none s h = k s h

  turns-Safe :
      (registry : Bool) (fuel : ℕ) (s : State)
      → Safe p o s
      → Keeps p o (turns p o c registry fuel) s
  unfolding turns
  turns-Safe registry zero s h = h
  turns-Safe registry (suc fuel) s h =
      bind-Keeps p o (turn p o c registry) _ s (turn-Safe registry s h)
        (or_again-Safe (turns p o c registry fuel) (turns-Safe registry fuel))

  run_if-Safe : (fuel : ℕ) (b : Bool) (s : State) → Safe p o s → Keeps p o (run_if p o c fuel b) s
  unfolding run_if
  run_if-Safe fuel true s h = turns-Safe (has_registry o c) fuel s h
  run_if-Safe fuel false s h = h

-- In the record of a run, whatever its end, every claim, every launch of a worker and every request to a peer
-- comes right after a check of the authority that permits dispatch, and a claim is given back only right
-- after a check that denies dispatch or the launch of that task's worker. The authority may change between
-- checks.
pub run_autopilot_loop-IsGuarded :
    (p : Platform) (o : Outside) (c : AutopilotConfig) (e : Effects) (fuel : ℕ)
    → IsGuarded p o (run_autopilot_loop p o c fuel (start e)).0.happenings
unfolding run_autopilot_loop
run_autopilot_loop-IsGuarded p o c e fuel =
    at_end (Safe p o) (run_autopilot_loop p o c fuel (start e)) (
      bind-Keeps p o (permitted p o c) (run_if p o c fuel) (start e)
        (permitted-Safe p o c (start e) tt) (run_if-Safe p o c fuel))
