-- ===== src/Autopilot/Ends.antt =====
-- driftdriver/project_autopilot.py: the loop ends.
use driftdriver.Base.{
  ℕ, zero, suc, ◌≤◌, ◌<◌, String, ◌≡◌, ◌⊎◌, inl, inr, refl, sym, subst, Bool, true, false, not,
  Option, none, some, List, [], ◌∷◌, length, count_if, is_in, arith,
}
use driftdriver.Base.Value.{Fields, Fault, Result, ok, err}
use driftdriver.Base.Platform.{Platform}
use driftdriver.Base.Act.{Holds, resume-Holds, weaken}
use driftdriver.Directive.Shim.{Effects}
use driftdriver.Autopilot.State.{AutopilotConfig, AutopilotRun, Outside, State, Step}
use driftdriver.Autopilot.Tasks.{get_ready_tasks}
use driftdriver.Autopilot.Loop.{
  Ending, is_processed, next_turn, turn, or_again, turns, has_registry, run_autopilot_loop,
}
use driftdriver.Autopilot.Dispatched.{launched_ids}
use driftdriver.Autopilot.Batch.{Sound, Grows}
use driftdriver.Autopilot.Walk.{ids_of}
use driftdriver.Autopilot.Ids.{Within, in_first}
use driftdriver.Autopilot.Turn.{IsAble, Progress, Stopped, After}
use driftdriver.Autopilot.Turns.{turn-Ends}
use driftdriver.Autopilot.Start.{start, begin-Holds}

-- Every listing is of tasks among the ids.
abbrev pub ListsOnly : Platform → Outside → List String → Type 0
ListsOnly p o all =
    (k : ℕ) (ready : List Fields) → get_ready_tasks p o k ≡ ok ready → Within (ids_of ready) all

-- How many of the ids are not processed.
unprocessed : List String → AutopilotRun → ℕ
unprocessed all r = count_if (λ id. not (is_processed r id)) all

unprocessed_at_most : (all : List String) (r : AutopilotRun) → unprocessed all r ≤ length all
unfolding unprocessed
unprocessed_at_most [] r = omega arith
unprocessed_at_most (id ∷ all) r = ground (arith, unprocessed_at_most all r)

unprocessed-Grows :
    (all : List String) (r r' : AutopilotRun) → Grows r r' → unprocessed all r' ≤ unprocessed all r
unfolding unprocessed
unprocessed-Grows [] r r' h = omega arith
unprocessed-Grows (id ∷ all) r r' h = ground (arith, h id, unprocessed-Grows all r r' h)

unprocessed_less :
    (all : List String) (r r' : AutopilotRun) (id : String)
    → Grows r r'
    → is_in id all ≡ true
    → is_processed r id ≡ false
    → is_processed r' id ≡ true
    → unprocessed all r' < unprocessed all r
unfolding unprocessed
unprocessed_less [] r r' id h b was now = absurd (cc (b))
unprocessed_less (j ∷ all) r r' id h b was now = elim (in_first id j all b) [
  | inl same ↦
      rw
        (
          subst (λ x. is_processed r x ≡ false) same was,
          subst (λ x. is_processed r' x ≡ true) same now,
        )
        (omega (arith, unprocessed-Grows all r r' h))
  | inr later ↦ ground (arith, h j, unprocessed_less all r r' id h later was now)
]

next_less :
    (all : List String) (s : State) (n : ℕ)
    → unprocessed all s.run < n
    → unprocessed all (next_turn s.run) < n
unfolding unprocessed is_processed
next_less all s n h = h

-- The run has come to an end, or raised an exception.
abbrev pub HasEnded : State × Result (Option Ending) → Type 0
HasEnded x = ((e : Ending) × (x.1 ≡ ok (some e))) ⊎ ((f : Fault) × (x.1 ≡ err f))

abbrev Over : Option Ending → State → Type 0
Over none s = ⊥
Over (some e) s = Unit

ended : (x : State × Result (Option Ending)) → Holds (λ s. Unit) Over x → HasEnded x
ended (s, ok (some e)) h = inl (e, refl)
ended (s, ok none) h = absurd h
ended (s, err f) h = inr (f, refl)

module _ (p : Platform) (o : Outside) (c : AutopilotConfig) (registry : Bool) (all : List String)
    (able : IsAble c registry) (lists : ListsOnly p o all) where
  fewer_left :
      (k : ℕ) (r r' : AutopilotRun)
      → Grows r r'
      → Progress p o k r r'
      → unprocessed all r' < unprocessed all r
  fewer_left k r r' h (id, ready, got, listed, was, now) =
      unprocessed_less all r r' id h (lists k ready got id listed) was now

  again-Ends :
      (fuel : ℕ) (r : AutopilotRun) (l : List String) (later : Step (Option Ending))
      → ((s : State)
          → Sound c s.run
          → unprocessed all s.run < fuel
          → Holds (λ s. Unit) Over (later s))
      → unprocessed all r < suc fuel
      → (e : Option Ending) (s : State) → After p o c registry r l e s
      → Holds (λ s. Unit) Over (or_again later e s)
  again-Ends fuel r l later k less (some e) s a = tt
  again-Ends fuel r l later k less none s a =
      k s a.0 (omega (arith, less, fewer_left r.loop_count r s.run a.1 (a.3 able)))

  turns-Ends :
      (fuel : ℕ) (s : State)
      → Sound c s.run
      → unprocessed all s.run < fuel
      → Holds (λ s. Unit) Over (turns p o c registry fuel s)
  unfolding turns
  turns-Ends zero s h less = absurd (omega (arith, less))
  turns-Ends (suc fuel) s h less =
      let r = next_turn s.run in
      let l = launched_ids s.happenings in
      resume-Holds (λ s. Unit) (After p o c registry r l) Over (turn p o c registry s) _
        (weaken (Stopped p o c registry r l) (After p o c registry r l) (λ s. Unit)
          (After p o c registry r l) (turn p o c registry s) (turn-Ends p o c registry s h)
          (λ s e. tt) (λ e s a. a))
        (again-Ends fuel r l (turns p o c registry fuel) (turns-Ends fuel)
          (next_less all s (suc fuel) less))

-- A run comes to an end, or raises an exception, within one turn more than there are ids in the listings,
-- where at least one task may run in parallel and a dry run has no peers.
pub run_autopilot_loop-HasEnded :
    (p : Platform) (o : Outside) (c : AutopilotConfig) (e : Effects) (all : List String)
    → IsAble c (has_registry o c)
    → ListsOnly p o all
    → HasEnded (run_autopilot_loop p o c (suc (length all)) (start e))
run_autopilot_loop-HasEnded p o c e all able lists = ended _ (
    begin-Holds p o c (suc (length all)) e (λ s. Unit) Over
      (λ s same none_yet.
        turns-Ends p o c (has_registry o c) all able lists (suc (length all)) s
          (subst (Sound c) (sym same) (tt, λ t h. refl))
          (omega (arith, unprocessed_at_most all s.run)))
      (λ s same none_yet. tt) (λ s same none_yet. tt))
