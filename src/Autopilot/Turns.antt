-- ===== src/Autopilot/Turns.antt =====
-- driftdriver/project_autopilot.py: what a turn does to the run, from its beginning.
use driftdriver.Base.{
  String, ◌≡◌, refl, sym, ap, ◌∙◌, subst, subst₂, Bool, true, false, Option, List, [], ◌∷◌,
}
use driftdriver.Base.Value.{Fields, Result, ok}
use driftdriver.Base.Platform.{Platform}
use driftdriver.Base.Act.{resume, ◌>>=◌, Holds, resume-Holds, lift-Holds, weaken, either-Holds}
use driftdriver.Autopilot.State.{AutopilotConfig, AutopilotRun, Outside, State, Step, check}
use driftdriver.Autopilot.Tasks.{get_ready_tasks}
use driftdriver.Autopilot.Dispatched.{launched_ids}
use driftdriver.Autopilot.Loop.{
  Ending, permitted, actionable_of, local_phase, ask_peers, work, look, turn, next_turn,
}
use driftdriver.Autopilot.Peers.{run_peer_dispatch}
use driftdriver.Autopilot.Batch.{Sound, Adds, Grows, Adds-In}
use driftdriver.Autopilot.Phase.{local_phase-Ends}
use driftdriver.Autopilot.Still.{run_health_check-still, permitted-Holds, launched_ids-check}
use driftdriver.Autopilot.Turn.{Stopped, After, idle}
use driftdriver.Autopilot.Sent.{Unsent, Sent, run_peer_dispatch-Sent}

module _ (p : Platform) (o : Outside) (c : AutopilotConfig) (registry : Bool) (r : AutopilotRun)
    (l : List String) where
  -- The run is as the turn began, and no worker was launched.
  abbrev As : State → Type 0
  As s = (s.run ≡ r) × (launched_ids s.happenings ≡ l)

  abbrev Ends : Step (Option Ending) → State → Type 0
  Ends m s = Holds (Stopped p o c registry r l) (After p o c registry r l) (m s)

  still-Stopped : Sound c r → (s : State) → As s → Stopped p o c registry r l s
  still-Stopped sound s h = idle p o c registry r l s (subst (Sound c) (sym h.0) sound) h.1

  check-As : (s : State) → As s → As (check p o s).0
  unfolding check
  check-As s h = (h.0, launched_ids-check p o s ∙ h.1)

  permitted-Ends :
      (f : Bool → Step (Option Ending)) (s : State)
      → Sound c r
      → As s
      → ((b : Bool) (s : State) → As s → Ends (f b) s)
      → Ends (λ s. resume (permitted p o c s) f) s
  permitted-Ends f s sound h k =
      resume-Holds (Stopped p o c registry r l) (λ _ s. As s) (After p o c registry r l)
        (permitted p o c s) f
        (weaken As (λ _ s. As s) (Stopped p o c registry r l) (λ _ s. As s) (permitted p o c s)
          (permitted-Holds p o c As s h (check-As s h)) (still-Stopped sound) (λ _ s e. e))
        k

  module _ (ready : List Fields) (t : Fields) (ts : List Fields)
      (got : get_ready_tasks p o r.loop_count ≡ ok ready) (left : actionable_of r ready ≡ t ∷ ts)
      (sound : Sound c r) where
    alone-Ends : registry ≡ false → (s : State) → As s → Ends (local_phase p o c (t ∷ ts) []) s
    alone-Ends off s h = local_phase-Ends p o c registry r l ready t ts [] got left s (
      (
        subst (Sound c) (sym h.0) sound,
        (λ _. subst (Adds [] r) (sym h.0) (λ j. refl)),
        subst (Grows r) (sym h.0) (λ j e. e),
        h.1,
      ),
      λ able j b. absurd (cc (b)),
    )

    peers-Ends :
        registry ≡ true
        → (s : State) → As s
        → Ends
            (λ s.
              resume
                (run_peer_dispatch p o c (o.peers s.run.loop_count) (t ∷ ts) s)
                (local_phase p o c (t ∷ ts)))
            s
    peers-Ends on s h =
        resume-Holds (Stopped p o c registry r l) (Sent c r l) (After p o c registry r l)
          (run_peer_dispatch p o c (o.peers s.run.loop_count) (t ∷ ts) s) _
          (weaken (Unsent c r l) (Sent c r l) (Stopped p o c registry r l) (Sent c r l)
            (run_peer_dispatch p o c (o.peers s.run.loop_count) (t ∷ ts) s)
            (subst₂
              (λ r l.
                Holds (Unsent c r l) (Sent c r l)
                  (run_peer_dispatch p o c (o.peers s.run.loop_count) (t ∷ ts) s))
              h.0 h.1
              (run_peer_dispatch-Sent p o c (o.peers s.run.loop_count) (t ∷ ts) s
                (subst (Sound c) (sym h.0) sound)))
            (λ s' e. (e.0, ([], ((λ _. tt), (λ j b. absurd (cc (b)))), e.1))) (λ D s' e. e))
          (λ D s' e.
            local_phase-Ends p o c registry r l ready t ts D got left s'
              (e, λ able j b. Adds-In D r s'.run (e.1 (able.1 on)) j b))

    ask_peers-Ends :
        registry ≡ true → (b : Bool) (s : State) → As s → Ends (ask_peers p o c (t ∷ ts) b) s
    unfolding ask_peers
    ask_peers-Ends on false s h = still-Stopped sound s h
    ask_peers-Ends on true s h = peers-Ends on s h

  work-Ends :
      (ready left : List Fields)
      → get_ready_tasks p o r.loop_count ≡ ok ready
      → actionable_of r ready ≡ left
      → Sound c r
      → (s : State) → As s
      → Ends (work p o c registry left) s
  unfolding work
  work-Ends ready [] got eq sound s h = still-Stopped sound s h
  work-Ends ready (t ∷ ts) got eq sound s h =
      either-Holds (Stopped p o c registry r l) (After p o c registry r l) registry _ _ s
        (λ on.
          permitted-Ends (ask_peers p o c (t ∷ ts)) s sound h
            (ask_peers-Ends ready t ts got eq sound on))
        (λ off. alone-Ends ready t ts got eq sound off s h)

  look-Ends : Sound c r → (b : Bool) (s : State) → As s → Ends (look p o c registry b) s
  unfolding look
  look-Ends sound false s h = still-Stopped sound s h
  look-Ends sound true s h =
      lift-Holds (Stopped p o c registry r l) (After p o c registry r l)
        (get_ready_tasks p o s.run.loop_count) s _ (still-Stopped sound s h)
        (λ ready got.
          work-Ends ready _
            (subst (λ (q : AutopilotRun). get_ready_tasks p o q.loop_count ≡ ok ready) h.0 got)
            (ap (λ q. actionable_of q ready) (sym h.0)) sound s h)

abbrev pub next : State → State
next s = record s { run = next_turn s.run }

-- One turn from a run in which no worker is running.
pub turn-Ends :
    (p : Platform) (o : Outside) (c : AutopilotConfig) (registry : Bool) (s : State)
    → Sound c s.run
    → Holds
        (Stopped p o c registry (next_turn s.run) (launched_ids s.happenings))
        (After p o c registry (next_turn s.run) (launched_ids s.happenings))
        (turn p o c registry s)
unfolding turn
turn-Ends p o c registry s h =
    let r = next_turn s.run in
    let l = launched_ids s.happenings in
    subst
      (λ (x : State × Result (Unit {0})).
        Holds (Stopped p o c registry r l) (After p o c registry r l)
          (resume x (λ _. permitted p o c >>= look p o c registry)))
      (sym (run_health_check-still o (next s) h.0))
      (permitted-Ends p o c registry r l (look p o c registry) (next s) h (refl, refl)
        (look-Ends p o c registry r l h))
