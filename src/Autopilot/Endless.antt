-- ===== src/Autopilot/Endless.antt =====
-- driftdriver/project_autopilot.py: a dry run with tasks for peers.
use driftdriver.Base.{
  ℕ, zero, suc, String, ◌≡◌, inl, inr, refl, sym, ap, ◌∙◌, subst, Bool, true, not, Option, none,
  some, List, [], ◌∷◌, map, keep, is_in, Bool-cases, eq_iff, ◌==◌,
}
use driftdriver.Base.Value.{Fields, Result, ok, ℤ, pos, negsuc}
use driftdriver.Base.Platform.{Platform}
use driftdriver.Base.Act.{return, resume, ◌>>=◌}
use driftdriver.Directive.Shim.{Effects}
use driftdriver.Autopilot.State.{AutopilotConfig, Outside, State, id_of}
use driftdriver.Autopilot.Tasks.{get_ready_tasks}
use driftdriver.Autopilot.Peers.{
  PeerAssignment, assign, assign_each, plan_peer_dispatch, find_task, send_assigned,
  dispatch_assigned, run_peer_dispatch,
}
use driftdriver.Autopilot.Loop.{
  Ending, permitted, is_processed, actionable_of, take, slice, batch_of, dispatch_each, evolve_if,
  learn, run_batch, local_phase, ask_peers, work, look, turn, or_again, turns, has_registry, run_if,
  run_autopilot_loop,
}
use driftdriver.Autopilot.Walk.{ids_of}
use driftdriver.Autopilot.Ids.{in_first, in_head, in_later}
use driftdriver.Autopilot.Still.{run_health_check-still}
use driftdriver.Autopilot.Start.{new_run, start}

-- The task is annotated for one of the peers.
abbrev pub IsAssigned : List String → Fields → Type 0
IsAssigned peers task =
    (peer : String) × (assign peers task ≡ some (record { peer_name = peer; task_id = id_of task }))

abbrev pub AllAssigned : List String → List Fields → Type 0
AllAssigned peers [] = Unit
AllAssigned peers (task ∷ tasks) = IsAssigned peers task × AllAssigned peers tasks

abbrev ids_assigned : List PeerAssignment → List String
ids_assigned assignments = map (λ (a : PeerAssignment). a.task_id) assignments

assigned_ids :
    (peers : List String) (tasks : List Fields)
    → AllAssigned peers tasks
    → ids_assigned (assign_each peers tasks) ≡ ids_of tasks
unfolding assign_each
assigned_ids peers [] h = refl
assigned_ids peers (task ∷ tasks) h =
    rw ((h.0).1) (ap (λ ids. id_of task ∷ ids) (assigned_ids peers tasks h.1))

find_there :
    (id : String) (tasks : List Fields)
    → is_in id (ids_of tasks) ≡ true
    → (t : Fields) × (find_task id tasks ≡ some t) × (id_of t ≡ id)
unfolding find_task
find_there id [] h = absurd (cc (h))
find_there id (task ∷ tasks) h = elim (Bool-cases (id_of task == id)) [
  | inl on ↦ rw on (task, refl, (eq_iff (id_of task) id).0 on)
  | inr off ↦ rw off (
      find_there id tasks (elim (in_first id (id_of task) (ids_of tasks) h) [
        | inl same ↦ absurd (cc ((eq_iff (id_of task) id).1 (sym same), off))
        | inr later ↦ later
      ]))
]

keep_none :
    (ids : List String) (tasks : List Fields)
    → ((j : String) → is_in j (ids_of tasks) ≡ true → is_in j ids ≡ true)
    → keep (λ t. not (is_in (id_of t) ids)) tasks ≡ []
keep_none ids [] h = refl
keep_none ids (task ∷ tasks) h =
    rw (h (id_of task) (in_head (id_of task) (ids_of tasks)))
      (keep_none ids tasks (λ j b. h j (in_later j (id_of task) (ids_of tasks) b)))

abbrev no_tasks : List Fields
no_tasks = []

take_empty : (n : ℕ) → take n no_tasks ≡ []
unfolding take
take_empty zero = refl
take_empty (suc n) = refl

slice_empty : (z : ℤ) → slice z no_tasks ≡ []
unfolding slice
slice_empty (pos n) = take_empty n
slice_empty (negsuc n) = take_empty _

-- Nothing is left for the batch.
batch_empty : (c : AutopilotConfig) (tasks : List Fields) → batch_of c (ids_of tasks) tasks ≡ []
unfolding batch_of
batch_empty c tasks =
    ap (slice c.max_parallel) (keep_none (ids_of tasks) tasks (λ j b. b))
    ∙ slice_empty c.max_parallel

-- The state after so many turns.
abbrev pub waiting : Effects → ℕ → State
waiting e n = record (start e) { run = record new_run { loop_count = n } }

all_left :
    (e : Effects) (n : ℕ) (tasks : List Fields) → actionable_of (waiting e n).run tasks ≡ tasks
unfolding actionable_of is_processed
all_left e n [] = refl
all_left e n (task ∷ tasks) = ap (λ ts. task ∷ ts) (all_left e n tasks)

-- In every turn there are tasks, all of them annotated for a peer.
abbrev pub ForPeers : Platform → Outside → Type 0
ForPeers p o =
    (k : ℕ)
    → (t : Fields) × (ts : List Fields) × (get_ready_tasks p o k ≡ ok (t ∷ ts))
      × AllAssigned (o.peers k) (t ∷ ts)

module _ (p : Platform) (o : Outside) (c : AutopilotConfig) (dry : c.dry_run ≡ true) where
  -- A dry run reports the ids of the assignments, and does nothing.
  dispatch_assigned-dry :
      (actionable : List Fields) (assignments : List PeerAssignment) (s : State)
      → ((j : String)
          → is_in j (ids_assigned assignments) ≡ true
          → is_in j (ids_of actionable) ≡ true)
      → dispatch_assigned p o c actionable assignments s ≡ (s, ok (ids_assigned assignments))
  unfolding dispatch_assigned send_assigned
  dispatch_assigned-dry actionable [] s h = refl
  dispatch_assigned-dry actionable (a ∷ rest) s h =
      let found = find_there a.task_id actionable (h a.task_id (in_head a.task_id _)) in
      rw (found.1, dry)
        (ap (λ (x : State × Result (List String)). resume x (λ ids. return (id_of found.0 ∷ ids)))
            (dispatch_assigned-dry actionable rest s (λ j b. h j (in_later j a.task_id _ b)))
          ∙ ap (λ j. (s, ok (j ∷ ids_assigned rest))) found.2)

  permitted-dry : (s : State) → permitted p o c s ≡ (s, ok true)
  unfolding permitted
  permitted-dry s = rw dry refl

  learn-dry : (s : State) → learn o c s ≡ (s, ok tt)
  unfolding learn evolve_if
  learn-dry s = rw dry refl

  peers-dry :
      (peers : List String) (tasks : List Fields) (s : State)
      → AllAssigned peers tasks
      → run_peer_dispatch p o c peers tasks s ≡ (s, ok (ids_of tasks))
  unfolding run_peer_dispatch plan_peer_dispatch
  peers-dry peers tasks s h =
      let same = assigned_ids peers tasks h in
      dispatch_assigned-dry tasks (assign_each peers tasks) s
        (λ j b. subst (λ ids. is_in j ids ≡ true) same b)
      ∙ ap (λ ids. (s, ok ids)) same

  -- The steps of a turn, each from the one before.
  batch-dry :
      (tasks : List Fields) (s : State) → local_phase p o c tasks (ids_of tasks) s ≡ (s, ok none)
  unfolding local_phase run_batch dispatch_each
  batch-dry tasks s =
      ap (λ (x : State × Result Bool). resume x (run_batch p o c (batch_of c (ids_of tasks) tasks)))
        (permitted-dry s)
      ∙ ap (λ b. run_batch p o c b true s) (batch_empty c tasks)
      ∙ ap (λ (x : State × Result (Unit {0})). resume x (λ _. return none)) (learn-dry s)

  work-dry :
      (t : Fields) (ts : List Fields) (s : State)
      → AllAssigned (o.peers s.run.loop_count) (t ∷ ts)
      → work p o c true (t ∷ ts) s ≡ (s, ok none)
  unfolding work ask_peers
  work-dry t ts s h =
      ap (λ (x : State × Result Bool). resume x (ask_peers p o c (t ∷ ts))) (permitted-dry s)
      ∙ ap (λ (x : State × Result (List String)). resume x (local_phase p o c (t ∷ ts)))
          (peers-dry (o.peers s.run.loop_count) (t ∷ ts) s h)
      ∙ batch-dry (t ∷ ts) s

  module _ (e : Effects) (stuck : ForPeers p o) where
    turn-dry : (n : ℕ) → turn p o c true (waiting e n) ≡ (waiting e (suc n), ok none)
    unfolding turn look
    turn-dry n =
        let s = waiting e (suc n) in
        let (t, ts, got, h) = stuck (suc n) in
        ap (λ (x : State × Result (Unit {0})). resume x (λ _. permitted p o c >>= look p o c true))
          (run_health_check-still o s tt)
        ∙ ap (λ (x : State × Result Bool). resume x (look p o c true)) (permitted-dry s)
        ∙ ap
            (λ (x : Result (List Fields)).
              resume (s, x) (λ ready. work p o c true (actionable_of s.run ready)))
            got
        ∙ ap (λ left. work p o c true left s) (all_left e (suc n) (t ∷ ts))
        ∙ work-dry t ts s h

    turns-dry : (fuel n : ℕ) → (turns p o c true fuel (waiting e n)).1 ≡ ok none
    unfolding turns
    turns-dry zero n = refl
    turns-dry (suc fuel) n =
        ap (λ (x : State × Result (Option Ending)). (resume x (or_again (turns p o c true fuel))).1)
          (turn-dry n)
        ∙ turns-dry fuel (suc n)

-- A dry run with a peer registry never ends where every turn lists tasks that are all annotated for a known
-- peer: the ids that are only reported are not counted as processed, and every turn lists them again.
pub run_autopilot_loop_endless :
    (p : Platform) (o : Outside) (c : AutopilotConfig) (e : Effects) (fuel : ℕ)
    → c.dry_run ≡ true
    → has_registry o c ≡ true
    → ForPeers p o
    → (run_autopilot_loop p o c fuel (start e)).1 ≡ ok none
unfolding run_autopilot_loop run_if
run_autopilot_loop_endless p o c e fuel dry registry stuck =
    ap (λ (x : State × Result Bool). (resume x (run_if p o c fuel)).1)
      (permitted-dry p o c dry (start e))
    ∙ ap (λ b. (turns p o c b fuel (start e)).1) registry
    ∙ turns-dry p o c dry e stuck fuel 0
