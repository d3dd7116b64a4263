-- ===== src/Autopilot/Launch.antt =====
-- driftdriver/project_autopilot.py: `dispatch_task` and the dispatch to peers under the dispatch lease.
use driftdriver.Base.{String, ◌≡◌, refl, Bool, true, false, Option, none, some, List, [], ◌∷◌}
use driftdriver.Base.Value.{Value, null, bool, int, real, str, list, dict, Fields, Result, ok, err}
use driftdriver.Base.Platform.{Platform}
use driftdriver.Base.Act.{resume}
use driftdriver.Control.Authority.{Verdict}
use driftdriver.Autopilot.State.{
  AutopilotConfig, Outside, launched, asked, after, Communicated, ended, overdue, raised, State,
  Step, id_of,
}
use driftdriver.Autopilot.Talk.{launch_worker, get_of}
use driftdriver.Autopilot.Dispatch.{
  executed, claimed_state, claim, give_up, conclude, started, run_cli, stop_session, talk, talk_to,
  run_session, launch_if, claim_if, dispatch_task, unclaim_claimed_task,
}
use driftdriver.Autopilot.Peers.{
  PeerAssignment, dispatch_to_peer, if_taken, if_permitted, send_assigned, dispatch_assigned,
  find_task, run_peer_dispatch, plan_peer_dispatch,
}
use driftdriver.Autopilot.License.{
  Granted, GivenUp, Safe, Keeps, bind-Keeps, lift-Keeps, check-Keeps, either-Keeps,
}

module _ (p : Platform) (o : Outside) (c : AutopilotConfig) (task : Fields) where
  -- The worker of the task was just launched.
  abbrev JustLaunched : State → Type 0
  JustLaunched s = Safe p o s × GivenUp p o (id_of task) s.happenings

  give_up-Safe :
      (response : String) (s : State) → JustLaunched s → Keeps p o (give_up o task response) s
  unfolding give_up unclaim_claimed_task
  give_up-Safe response s h = (h.1, h.0)

  conclude-Safe : (x : Communicated) (s : State) → JustLaunched s → Keeps p o (conclude o task x) s
  unfolding conclude
  conclude-Safe (ended x) s h = h.0
  conclude-Safe (overdue text) s h = give_up-Safe _ s h
  conclude-Safe (raised f) s h = h.0

  started-Safe :
      (x : Result (Unit {0})) (s : State) → JustLaunched s → Keeps p o (started o task x) s
  unfolding started
  started-Safe (ok x) s h = conclude-Safe _ s h
  started-Safe (err f) s h = give_up-Safe _ s h

  run_cli-Safe :
      (s : State) → Safe p o s → Granted p o s.happenings → Keeps p o (run_cli o c task) s
  unfolding run_cli
  run_cli-Safe s h g = started-Safe _ (after (launched (id_of task)) s) ((g, h), refl)

  talk-Safe : (session : Value) (s : State) → Safe p o s → Keeps p o (talk p o task session) s
  unfolding talk
  talk-Safe session s h = lift-Keeps p o (stop_session o task session) _ s h (λ _. h)

  session-Safe :
      (info : Value) (s : State)
      → Safe p o s
      → Keeps p o (λ s. resume (s, get_of "session_id" info) (talk p o task)) s
  session-Safe info s h =
      lift-Keeps p o (get_of "session_id" info) _ s h (λ session. talk-Safe session s h)

  talk_to-Safe : (info : Value) (s : State) → Safe p o s → Keeps p o (talk_to p o task info) s
  unfolding talk_to
  talk_to-Safe null s h = h
  talk_to-Safe (bool b) s h = session-Safe (bool b) s h
  talk_to-Safe (int n) s h = session-Safe (int n) s h
  talk_to-Safe (real x) s h = session-Safe (real x) s h
  talk_to-Safe (str t) s h = session-Safe (str t) s h
  talk_to-Safe (list vs) s h = session-Safe (list vs) s h
  talk_to-Safe (dict d) s h = session-Safe (dict d) s h

  run_session-Safe :
      (s : State) → Safe p o s → Granted p o s.happenings → Keeps p o (run_session p o task) s
  unfolding run_session
  run_session-Safe s h g =
      let s' = after (launched (id_of task)) s in
      lift-Keeps p o (launch_worker o _ _) _ s' (g, h) (λ info. talk_to-Safe info s' (g, h))

  launch_if-Safe :
      (v : Verdict) (s : State)
      → Safe p o s
      → (v.enabled ≡ true → Granted p o s.happenings)
      → (v.enabled ≡ false → (id : String) → GivenUp p o id s.happenings)
      → Keeps p o (launch_if p o c task v) s
  unfolding launch_if unclaim_claimed_task
  launch_if-Safe v s h g d =
      either-Keeps p o v.enabled _ _ s
        (λ on.
          either-Keeps p o o.has_driver _ _ s (λ _. run_session-Safe s h (g on))
            (λ _. run_cli-Safe s h (g on)))
        (λ off. (d off (id_of task), h))

  claim-Safe : (s : State) → Safe p o s → Granted p o s.happenings → Keeps p o (claim p o c task) s
  unfolding claim
  claim-Safe s h g =
      let x = executed p o c task s in
      lift-Keeps p o x.1 _ (claimed_state task x.0 s) (g, h) (λ _. (g, h))

  claim_if-Safe :
      (v : Verdict) (s : State)
      → Safe p o s
      → (v.enabled ≡ true → Granted p o s.happenings)
      → Keeps p o (claim_if p o c task v) s
  unfolding claim_if
  claim_if-Safe v s h g =
      either-Keeps p o v.enabled _ _ s
        (λ on.
          bind-Keeps p o (claim p o c task) _ s (claim-Safe s h (g on))
            (λ _ s h. check-Keeps p o (launch_if p o c task) s h launch_if-Safe))
        (λ off. h)

  pub dispatch_task-Safe : (s : State) → Safe p o s → Keeps p o (dispatch_task p o c task) s
  unfolding dispatch_task
  dispatch_task-Safe s h =
      check-Keeps p o (claim_if p o c task) s h (λ v s h g d. claim_if-Safe v s h g)

module _ (p : Platform) (o : Outside) (c : AutopilotConfig) where
  if_taken-Safe :
      (a : PeerAssignment) (task : Fields) (later : Step (List String))
      → ((s : State) → Safe p o s → Keeps p o later s)
      → (took : Bool) (s : State) → Safe p o s
      → Keeps p o (if_taken a task later took) s
  unfolding if_taken
  if_taken-Safe a task later k false s h = k s h
  if_taken-Safe a task later k true s h = bind-Keeps p o later _ _ (k _ h) (λ ids s h. h)

  if_permitted-Safe :
      (a : PeerAssignment) (task : Fields) (later : Step (List String))
      → ((s : State) → Safe p o s → Keeps p o later s)
      → (v : Verdict) (s : State) → Safe p o s
      → (v.enabled ≡ true → Granted p o s.happenings)
      → Keeps p o (if_permitted o c a task later v) s
  unfolding if_permitted dispatch_to_peer
  if_permitted-Safe a task later k v s h g =
      either-Keeps p o v.enabled _ _ s
        (λ on.
          lift-Keeps p o _ (if_taken a task later) (after (asked a.peer_name (id_of task)) s)
            (g on, h) (λ took. if_taken-Safe a task later k took _ (g on, h)))
        (λ off. h)

  send_assigned-Safe :
      (a : PeerAssignment) (found : Option Fields) (later : Step (List String))
      → ((s : State) → Safe p o s → Keeps p o later s)
      → (s : State) → Safe p o s
      → Keeps p o (send_assigned p o c a found later) s
  unfolding send_assigned
  send_assigned-Safe a none later k s h = k s h
  send_assigned-Safe a (some task) later k s h =
      either-Keeps p o c.dry_run _ _ s (λ _. bind-Keeps p o later _ s (k s h) (λ ids s h. h))
        (λ _.
          check-Keeps p o (if_permitted o c a task later) s h
            (λ v s h g d. if_permitted-Safe a task later k v s h g))

  dispatch_assigned-Safe :
      (actionable : List Fields) (assigned : List PeerAssignment) (s : State)
      → Safe p o s
      → Keeps p o (dispatch_assigned p o c actionable assigned) s
  unfolding dispatch_assigned
  dispatch_assigned-Safe actionable [] s h = h
  dispatch_assigned-Safe actionable (a ∷ rest) s h =
      send_assigned-Safe a (find_task a.task_id actionable) _
        (dispatch_assigned-Safe actionable rest) s h

  pub run_peer_dispatch-Safe :
      (peers : List String) (actionable : List Fields) (s : State)
      → Safe p o s
      → Keeps p o (run_peer_dispatch p o c peers actionable) s
  unfolding run_peer_dispatch
  run_peer_dispatch-Safe peers actionable s h =
      dispatch_assigned-Safe actionable (plan_peer_dispatch peers actionable) s h
