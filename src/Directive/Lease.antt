-- ===== src/Directive/Lease.antt =====
-- driftdriver/executor_shim.py: the directives that dispatch work, and the lease.
use driftdriver.Base.{String, ℕ, ◌≡◌, refl, ap, ◌∙◌, true, false, Option, none, some}
use driftdriver.Base.Value.{ok}
use driftdriver.Base.Platform.{Platform}
use driftdriver.Control.Authority.{Verdict, load_dispatch_authority}
use driftdriver.Directive.Action.{Directive}
use driftdriver.Directive.Schema.{Invalid, validate_params}
use driftdriver.Directive.Shim.{
  Surroundings, Effects, is_dispatch, params_of, project_dir, admit, execute_admitted,
  execute_validated, execute,
}

-- The answer to a directive that the gate holds back: its parameters are checked first.
abbrev held_back : Option Invalid → String
held_back none = "blocked"
held_back (some i) = "failed"

validated-denied :
    (p : Platform) (now : ℕ) (s : Surroundings) (d : Directive) (v : Verdict) (i : Option Invalid)
    (e : Effects)
    → is_dispatch d.action ≡ true
    → load_dispatch_authority p now (s.repository (project_dir p s (params_of d))) ≡ ok v
    → v.enabled ≡ false
    → ((execute_validated p now s d i e).0.ran ≡ e.ran)
      × ((execute_validated p now s d i e).1 ≡ ok (held_back i))
unfolding execute_validated execute_admitted admit
validated-denied p now s d v (some i) e dispatch verdict off = (refl, refl)
validated-denied p now s d v none e dispatch verdict off = rw (dispatch, verdict, off) (refl, refl)

-- A directive that claims a task or starts the service, executed while the control state of its
-- repository denies dispatch, runs no command; the answer is `blocked` where its parameters are valid,
-- and `failed` where they are not.
pub execute-denied :
    (p : Platform) (now : ℕ) (s : Surroundings) (d : Directive) (v : Verdict) (e : Effects)
    → is_dispatch d.action ≡ true
    → load_dispatch_authority p now (s.repository (project_dir p s (params_of d))) ≡ ok v
    → v.enabled ≡ false
    → ((execute p now s d e).0.ran ≡ e.ran)
      × (validate_params d.action d.params ≡ none → (execute p now s d e).1 ≡ ok "blocked")
      × ((i : Invalid)
          → validate_params d.action d.params ≡ some i
          → (execute p now s d e).1 ≡ ok "failed")
unfolding execute
execute-denied p now s d v e dispatch verdict off =
    let (still, answer) =
      validated-denied p now s d v (validate_params d.action d.params) _ dispatch verdict off in
    (
      still,
      λ valid. answer ∙ ap (λ i. ok (held_back i)) valid,
      λ i bad. answer ∙ ap (λ i. ok (held_back i)) bad,
    )
