-- ===== src/Directive/Lifecycle.antt =====
-- driftdriver/executor_shim.py with DirectiveLog: what the log says of a directive that was executed.
use driftdriver.Base.{
  ℕ, ◌+◌, String, ◌≡◌, refl, sym, ◌⊎◌, inl, inr, Bool, true, false, not, ◌||◌, Option, none, some,
  List, [], ◌∷◌, ◌++◌, map-append, arith, is_in, keep, any, length, length-append, eq_refl, eq_iff,
  ◌==◌, Bool-cases,
}
use driftdriver.Base.Value.{Result, ok, err, ok_injective, is_zero}
use driftdriver.Base.Platform.{Platform}
use driftdriver.Directive.Action.{Directive}
use driftdriver.Directive.Schema.{Invalid}
use driftdriver.Directive.Log.{
  Completion, Failure, DirectiveLog, append, mark_completed, mark_failed, completed_ids, failed_ids,
  is_done, read_pending,
}
use driftdriver.Directive.Command.{Command}
use driftdriver.Directive.Shim.{
  Outcome, finished, timed_out, raised, Surroundings, Effects, settle, run_command,
  execute_admitted, execute_validated, execute,
}

-- What became of a directive: one record in one of the two files, in step with the answer.
pub record Concluded (d : Directive) (log log' : DirectiveLog) (r : String) : Type 0 where
  pub done : is_done log' d.id ≡ true
  pub waiting : log'.pending ≡ log.pending
  pub recorded :
      ((r ≡ "completed")
        × (length log'.completed ≡ length log.completed + 1)
        × (log'.failed ≡ log.failed))
      ⊎ (((r ≡ "failed") ⊎ (r ≡ "blocked"))
          × (log'.completed ≡ log.completed)
          × (length log'.failed ≡ length log.failed + 1))

is_in-append : (s : String) (xs ys : List String) → is_in s (xs ++ ys) ≡ (is_in s xs || is_in s ys)
is_in-append s [] ys = refl
is_in-append s (x ∷ xs) ys = ground (arith, is_in-append s xs ys)

or_true : (a b : Bool) → (a ≡ true) ⊎ (b ≡ true) → (a || b) ≡ true
or_true a b h = ground arith

is_in_last : (s t : String) (xs : List String) → t ≡ s → is_in s (xs ++ t ∷ []) ≡ true
is_in_last s t xs e = rw (is_in-append, e, eq_refl s) (or_true (is_in s xs) true (inr refl))

failed-Concluded :
    (d : Directive) (f : Failure) (log : DirectiveLog) (r : String)
    → f.directive_id ≡ d.id
    → (r ≡ "failed") ⊎ (r ≡ "blocked")
    → Concluded d log (mark_failed f log) r
unfolding mark_failed is_done
failed-Concluded d f log r e w = record {
  done =
      or_true (is_in d.id (completed_ids log)) _
        (inr (rw map-append (is_in_last d.id f.directive_id (failed_ids log) e)));
  waiting = refl;
  recorded = inr (w, refl, length-append log.failed (f ∷ []));
}

completed-Concluded :
    (d : Directive) (c : Completion) (log : DirectiveLog)
    → c.directive_id ≡ d.id
    → Concluded d log (mark_completed c log) "completed"
unfolding mark_completed is_done
completed-Concluded d c log e = record {
  done =
      or_true _ (is_in d.id (failed_ids log))
        (inl (rw map-append (is_in_last d.id c.directive_id (completed_ids log) e)));
  waiting = refl;
  recorded = inl (refl, length-append log.completed (c ∷ []), refl);
}

settle-Concluded :
    (p : Platform) (now : ℕ) (d : Directive) (o : Outcome) (e : Effects) (r : String)
    → (settle p now d o e).1 ≡ ok r
    → Concluded d e.log (settle p now d o e).0.log r
unfolding settle
settle-Concluded p now d (finished code out er) e r h = elim (Bool-cases (is_zero code)) [
  | inl z ↦ rw (z, ← ok_injective (rw z at h)) (completed-Concluded d _ e.log refl)
  | inr z ↦ rw z (failed-Concluded d _ e.log r refl (inl (sym (ok_injective (rw z at h)))))
]
settle-Concluded p now d timed_out e r h =
    failed-Concluded d _ e.log r refl (inl (sym (ok_injective h)))
settle-Concluded p now d (raised f) e r h = cc

run-Concluded :
    (p : Platform) (now : ℕ) (s : Surroundings) (d : Directive) (c : Result Command) (e : Effects)
    (r : String)
    → (run_command p now s d c e).1 ≡ ok r
    → Concluded d e.log (run_command p now s d c e).0.log r
unfolding run_command
run-Concluded p now s d (err f) e r h = cc
run-Concluded p now s d (ok c) e r h = settle-Concluded p now d _ _ r h

admitted-Concluded :
    (p : Platform) (now : ℕ) (s : Surroundings) (d : Directive) (a : Result (Bool × String))
    (e : Effects) (r : String)
    → (execute_admitted p now s d a e).1 ≡ ok r
    → Concluded d e.log (execute_admitted p now s d a e).0.log r
unfolding execute_admitted
admitted-Concluded p now s d (err f) e r h = cc
admitted-Concluded p now s d (ok (false, reason)) e r h =
    failed-Concluded d _ e.log r refl (inr (sym (ok_injective h)))
admitted-Concluded p now s d (ok (true, reason)) e r h = run-Concluded p now s d _ e r h

validated-Concluded :
    (p : Platform) (now : ℕ) (s : Surroundings) (d : Directive) (i : Option Invalid) (e : Effects)
    (r : String)
    → (execute_validated p now s d i e).1 ≡ ok r
    → Concluded d e.log (execute_validated p now s d i e).0.log r
unfolding execute_validated
validated-Concluded p now s d (some i) e r h =
    failed-Concluded d _ e.log r refl (inl (sym (ok_injective h)))
validated-Concluded p now s d none e r h = admitted-Concluded p now s d _ e r h

-- A directive whose execution returns an answer is logged as pending, and then concluded: its id is among
-- the done ones, and exactly one record was added, a completion if the answer is "completed" and a
-- failure if it is "failed" or "blocked".
pub execute-Concluded :
    (p : Platform) (now : ℕ) (s : Surroundings) (d : Directive) (e : Effects) (r : String)
    → (execute p now s d e).1 ≡ ok r
    → Concluded d (append d e.log) (execute p now s d e).0.log r
unfolding execute
execute-Concluded p now s d e r h = validated-Concluded p now s d _ _ r h

keep_none :
    (log : DirectiveLog) (id : String) (ds : List Directive)
    → is_done log id ≡ true
    → any (λ d. d.id == id) (keep (λ d. not (is_done log d.id)) ds) ≡ false
keep_none log id [] h = refl
keep_none log id (d ∷ ds) h = ground (arith, eq_iff d.id id, keep_none log id ds h)

-- After an execution that returns an answer, the directive is no longer among the pending ones.
execute_not_pending :
    (p : Platform) (now : ℕ) (s : Surroundings) (d : Directive) (e : Effects) (r : String)
    → (execute p now s d e).1 ≡ ok r
    → any (λ x. x.id == d.id) (read_pending (execute p now s d e).0.log) ≡ false
unfolding read_pending
execute_not_pending p now s d e r h =
    keep_none (execute p now s d e).0.log d.id _ (execute-Concluded p now s d e r h).done
