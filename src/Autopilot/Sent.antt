-- ===== src/Autopilot/Sent.antt =====
-- driftdriver/project_autopilot.py: what the dispatch to peers does to the run.
use driftdriver.Base.{
  String, ◌≡◌, refl, sym, ◌∙◌, subst, Bool, true, false, Option, none, some, List, [], ◌∷◌,
}
use driftdriver.Base.Value.{Fields}
use driftdriver.Base.Platform.{Platform}
use driftdriver.Base.Act.{return, resume, Holds, resume-Holds, lift-Holds, weaken, either-Holds}
use driftdriver.Control.Authority.{Verdict}
use driftdriver.Autopilot.State.{
  AutopilotConfig, AutopilotRun, Outside, asked, after, State, Step, check, authority_at, store,
  complete, id_of,
}
use driftdriver.Autopilot.Dispatched.{launched_ids, launched_ids-note}
use driftdriver.Autopilot.Peers.{
  PeerAssignment, peer_context, dispatch_to_peer, if_taken, if_permitted, send_assigned,
  dispatch_assigned, run_peer_dispatch, plan_peer_dispatch, find_task,
}
use driftdriver.Autopilot.Batch.{
  NotEscalated, Sound, Adds, Grows, Adds-Grows, put_worker-AllOver, complete-Adds, store-Adds,
}
use driftdriver.Autopilot.Walk.{add_more}

module _ (c : AutopilotConfig) (r : AutopilotRun) (l : List String) where
  abbrev pub Unsent : State → Type 0
  Unsent s = NotEscalated c s.run × (launched_ids s.happenings ≡ l)

  -- The ids are processed, but in a dry run, and no worker was launched.
  abbrev pub Sent : List String → State → Type 0
  Sent ids s =
      Sound c s.run
      × (c.dry_run ≡ false → Adds ids r s.run)
      × Grows r s.run
      × (launched_ids s.happenings ≡ l)

module _ (p : Platform) (o : Outside) (c : AutopilotConfig) (l : List String) where
  abbrev From : State → Type 0
  From s = Sound c s.run × (launched_ids s.happenings ≡ l)

  -- What a loop makes of every run.
  abbrev Sends : Step (List String) → Type 0
  Sends m = (s : State) → From s → Holds (Unsent c s.run l) (Sent c s.run l) (m s)

  unsent : (r : AutopilotRun) (s : State) → From s → Unsent c r l s
  unsent r s h = (h.0.1, h.1)

  one_more :
      (id : String) (r r₁ : AutopilotRun)
      → Adds (id ∷ []) r r₁
      → (later : Step (List String)) → Sends later
      → (s : State) → s.run ≡ r₁
      → From s
      → Holds (Unsent c r l) (Sent c r l) (resume (later s) (λ ids. return (id ∷ ids)))
  one_more id r r₁ adds later k s same h =
      let now : Adds (id ∷ []) r s.run = subst (Adds (id ∷ []) r) (sym same) adds in
      resume-Holds (Unsent c r l) (Sent c s.run l) (Sent c r l) (later s) _
        (weaken (Unsent c s.run l) (Sent c s.run l) (Unsent c r l) (Sent c s.run l) (later s)
          (k s h) (λ s' e. e) (λ ids s' q. q))
        (λ ids s' q. (
          q.0,
          (λ wet. add_more id ids r s.run s'.run now (q.1 wet)),
          (λ j e. q.2 j (Adds-Grows (id ∷ []) r s.run now j e)),
          q.3,
        ))

  if_taken-Sends :
      (a : PeerAssignment) (task : Fields) (later : Step (List String))
      → Sends later
      → (took : Bool) → Sends (if_taken a task later took)
  unfolding if_taken
  if_taken-Sends a task later k false s h = k s h
  if_taken-Sends a task later k true s h =
      let id = id_of task in
      let r₁ = complete id (store id (peer_context a.peer_name task) s.run) in
      one_more id s.run r₁
        (λ j.
          store-Adds (id ∷ []) id (peer_context a.peer_name task) s.run r₁
            (complete-Adds id (store id (peer_context a.peer_name task) s.run)) j)
        later k (record s { run = r₁ }) refl
        ((put_worker-AllOver id (peer_context a.peer_name task) s.run.workers tt h.0.0, h.0.1), h.1)

  dispatch_to_peer-From :
      (peer : String) (task : Fields) (f : Bool → Step (List String))
      → ((took : Bool) → Sends (f took))
      → Sends (λ s. resume (dispatch_to_peer o c peer task s) f)
  unfolding dispatch_to_peer
  dispatch_to_peer-From peer task f k s h =
      lift-Holds (Unsent c s.run l) (Sent c s.run l) _ (after (asked peer (id_of task)) s) f
        (unsent s.run s h) (λ took _. k took (after (asked peer (id_of task)) s) h)

  if_permitted-Sends :
      (a : PeerAssignment) (task : Fields) (later : Step (List String))
      → Sends later
      → (v : Verdict) → Sends (if_permitted o c a task later v)
  unfolding if_permitted
  if_permitted-Sends a task later k v s h =
      either-Holds (Unsent c s.run l) (Sent c s.run l) v.enabled _ _ s
        (λ _.
          dispatch_to_peer-From a.peer_name task (if_taken a task later)
            (if_taken-Sends a task later k) s h)
        (λ _. (h.0, (λ _ j. refl), (λ j e. e), h.1))

  check-From : (s : State) → From s → From (check p o s).0
  unfolding check
  check-From s h = (h.0, launched_ids-note s.checks (authority_at p o s.checks) s.happenings ∙ h.1)

  checked-Sends :
      (f : Verdict → Step (List String))
      → ((v : Verdict) → Sends (f v))
      → Sends (λ s. resume (check p o s) f)
  unfolding check
  checked-Sends f k s h = k (authority_at p o s.checks) (check p o s).0 (check-From s h)

  -- In a dry run an id is reported and not processed.
  dry-Sends :
      (id : String) (later : Step (List String))
      → c.dry_run ≡ true
      → Sends later
      → Sends (λ s. resume (later s) (λ ids. return (id ∷ ids)))
  dry-Sends id later dry k s h =
      resume-Holds (Unsent c s.run l) (Sent c s.run l) (Sent c s.run l) (later s) _ (k s h)
        (λ ids s' q. (q.0, (λ wet. absurd (cc (dry, wet))), q.2, q.3))

  send_assigned-Sends :
      (a : PeerAssignment) (found : Option Fields) (later : Step (List String))
      → Sends later
      → Sends (send_assigned p o c a found later)
  unfolding send_assigned
  send_assigned-Sends a none later k s h = k s h
  send_assigned-Sends a (some task) later k s h =
      either-Holds (Unsent c s.run l) (Sent c s.run l) c.dry_run _ _ s
        (λ dry. dry-Sends (id_of task) later dry k s h)
        (λ _. checked-Sends (if_permitted o c a task later) (if_permitted-Sends a task later k) s h)

  dispatch_assigned-Sends :
      (actionable : List Fields) (assignments : List PeerAssignment)
      → Sends (dispatch_assigned p o c actionable assignments)
  unfolding dispatch_assigned
  dispatch_assigned-Sends actionable [] s h = (h.0, (λ _ j. refl), (λ j e. e), h.1)
  dispatch_assigned-Sends actionable (a ∷ rest) s h =
      send_assigned-Sends a (find_task a.task_id actionable) _
        (dispatch_assigned-Sends actionable rest) s h

-- The tasks that the peers took are processed, but in a dry run, and nothing else is.
pub run_peer_dispatch-Sent :
    (p : Platform) (o : Outside) (c : AutopilotConfig) (peers : List String)
    (actionable : List Fields) (s : State)
    → Sound c s.run
    → Holds
        (Unsent c s.run (launched_ids s.happenings))
        (Sent c s.run (launched_ids s.happenings))
        (run_peer_dispatch p o c peers actionable s)
unfolding run_peer_dispatch
run_peer_dispatch-Sent p o c peers actionable s h =
    dispatch_assigned-Sends p o c (launched_ids s.happenings) actionable
      (plan_peer_dispatch peers actionable) s (h, refl)
