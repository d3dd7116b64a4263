-- ===== src/Directive/Runs.antt =====
-- driftdriver/executor_shim.py: the commands that an admitted directive runs.
use driftdriver.Base.{ℕ, String, ◌≡◌, refl, Bool, true, none, [], ◌∷◌, ◌++◌, arith}
use driftdriver.Base.Value.{Value, dict, end, Result, ok}
use driftdriver.Base.Platform.{Platform}
use driftdriver.Directive.Action.{Action, Directive}
use driftdriver.Directive.Schema.{validate_params}
use driftdriver.Directive.Command.{Command, build_command}
use driftdriver.Directive.Shim.{
  Outcome, finished, timed_out, raised, Surroundings, Effects, params_of, admit, resolve_cwd,
  settle, run_command, execute_admitted, execute_validated, execute,
}
use driftdriver.Directive.Buildable.{build_command_total}

validated-dict :
    (a : Action) (v : Value)
    → validate_params a v ≡ none
    → validate_params a (dict (elim v [ dict p ↦ p | _ ↦ end ])) ≡ none
unfolding validate_params
validated-dict a (dict p) h = h
validated-dict a _ h = cc

settle-ran :
    (p : Platform) (now : ℕ) (d : Directive) (o : Outcome) (e : Effects)
    → (settle p now d o e).0.ran ≡ e.ran
unfolding settle
settle-ran p now d (finished code out er) e = ground arith
settle-ran p now d timed_out e = refl
settle-ran p now d (raised f) e = refl

admitted-ran :
    (p : Platform) (now : ℕ) (s : Surroundings) (d : Directive) (a : Result (Bool × String))
    (e : Effects) {reason : String} {c : Command}
    → a ≡ ok (true, reason)
    → build_command p s.wg_dir d.action (params_of d) ≡ ok c
    → (execute_admitted p now s d a e).0.ran
      ≡ e.ran ++ (c, resolve_cwd s d.action (params_of d)) ∷ []
unfolding execute_admitted run_command
admitted-ran p now s d a e h built = rw (h, built) (settle-ran p now d _ _)

-- A directive with valid parameters that is admitted has a command, and its execution runs that command,
-- in the directory of its action, once, and nothing else.
pub execute-Runs :
    (p : Platform) (now : ℕ) (s : Surroundings) (d : Directive) (e : Effects) (reason : String)
    → validate_params d.action d.params ≡ none
    → admit p now s d.action (params_of d) ≡ ok (true, reason)
    → (c : Command) × (build_command p s.wg_dir d.action (params_of d) ≡ ok c)
      × ((execute p now s d e).0.ran ≡ e.ran ++ (c, resolve_cwd s d.action (params_of d)) ∷ [])
unfolding execute execute_validated
execute-Runs p now s d e reason valid admitted =
    let (c, built) =
      build_command_total p s.wg_dir d.action (params_of d)
        (validated-dict d.action d.params valid) in
    (c, built, rw valid (admitted-ran p now s d _ _ admitted built))
