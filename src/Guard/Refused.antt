-- ===== src/Guard/Refused.antt =====
-- driftdriver/drift_task_guard.py: what a call of `guarded_add_drift_task` leaves that creates no task.
use driftdriver.Base.{
  String, ℕ, ◌≡◌, refl, Bool, true, false, ◌⊎◌, inl, inr, Option, Bool-cases, ◌++◌, [], ◌∷◌, ◌==◌,
  if◌then◌else◌,
}
use driftdriver.Base.Value.{Result, ok, err}
use driftdriver.Base.Platform.{Platform}
use driftdriver.Budget.Actor.{Actor}
use driftdriver.Budget.Policy.{Policy}
use driftdriver.Directive.Shim.{Effects}
use driftdriver.Guard.Add.{
  emit_described, Finding, Inputs, Books, Call, Escalation, escalation, resolve_actor,
  record_escalation, capped, account, emit, under_ceiling, under_budget, look_up, with_policy,
  guarded_add_drift_task,
}

-- What a call left that created nothing: every file as it was; or the escalation on record, where the
-- file can be written, and no command; or what the shim did, and an answer that says that it failed.
pub data Idle (i : Inputs) (b : Books) : Call → Type 0 where
  untouched : (r : Result String) → (r ≡ ok "capped" → ⊥) → Idle i b (b, r)
  escalated :
      (b' : Books) (e : Escalation)
      → i.can_escalate ≡ true
      → b'.effects ≡ b.effects
      → b'.ledger ≡ b.ledger
      → b'.escalations ≡ b.escalations ++ e ∷ []
      → Idle i b (b', ok "capped")
  lost : i.can_escalate ≡ false → Idle i b (b, ok "capped")
  attempted :
      (b' : Books) (r : Result String)
      → b'.ledger ≡ b.ledger
      → b'.escalations ≡ b.escalations
      → (r ≡ ok "capped" → ⊥)
      → Idle i b (b', r)

-- The call created a task, or left what `Idle` says.
abbrev pub IsAccounted : Inputs → Books → Call → Type 0
IsAccounted i b c = (c.1 ≡ ok "created") ⊎ Idle i b c

account-IsAccounted :
    (p : Platform) (now : ℕ) (i : Inputs) (actor : Actor) (f : Finding) (b : Books) (e : Effects)
    (r : Result String)
    → IsAccounted i b (account p now actor f b (e, r))
unfolding account
account-IsAccounted p now i actor f b e (err x) = inr (attempted _ _ refl refl (λ h. cc))
account-IsAccounted p now i actor f b e (ok answer) = elim (Bool-cases (answer == "completed")) [
  | inl on ↦ rw on (inl refl)
  | inr off ↦ rw off (inr (attempted _ _ refl refl (λ h. cc)))
]

capped-IsAccounted :
    (p : Platform) (now : ℕ) (i : Inputs) (actor : Actor) (f : Finding) (reason : String)
    (b : Books)
    → IsAccounted i b (capped p now i actor f reason b)
unfolding capped record_escalation
capped-IsAccounted p now i actor f reason b = recorded i.can_escalate refl
  where
    recorded :
        (t : Bool)
        → i.can_escalate ≡ t
        → IsAccounted i b (
          if t
              then record b { escalations = b.escalations ++ escalation p now actor f reason ∷ [] }
              else b,
          ok "capped",
        )
    recorded true on = inr (escalated _ (escalation p now actor f reason) on refl refl refl)
    recorded false off = inr (lost off)

if-IsAccounted :
    (t : Bool) (i : Inputs) (b : Books) (c d : Call)
    → IsAccounted i b c
    → IsAccounted i b d
    → IsAccounted i b (if t then c else d)
if-IsAccounted true i b c d h k = h
if-IsAccounted false i b c d h k = k

emit-IsAccounted :
    (p : Platform) (now : ℕ) (i : Inputs) (actor : Actor) (f : Finding) (b : Books)
    (m : Result String)
    → IsAccounted i b (emit_described p now i actor f b m)
unfolding emit_described
emit-IsAccounted p now i actor f b (err x) = inr (untouched _ (λ h. cc))
emit-IsAccounted p now i actor f b (ok description) = account-IsAccounted p now i actor f b _ _

ceiling-IsAccounted :
    (p : Platform) (now : ℕ) (i : Inputs) (actor : Actor) (f : Finding) (b : Books)
    (policy : Policy) (n : Result ℕ)
    → IsAccounted i b (under_ceiling p now i actor f b policy n)
unfolding under_ceiling emit
ceiling-IsAccounted p now i actor f b policy (err x) = inr (untouched _ (λ h. cc))
ceiling-IsAccounted p now i actor f b policy (ok total) =
    if-IsAccounted _ i b _ _ (capped-IsAccounted p now i actor f _ b)
      (emit-IsAccounted p now i actor f b _)

budget-IsAccounted :
    (p : Platform) (now : ℕ) (i : Inputs) (actor : Actor) (f : Finding) (b : Books)
    (policy : Policy) (n : Result (ℕ × ℕ))
    → IsAccounted i b (under_budget p now i actor f b policy n)
unfolding under_budget
budget-IsAccounted p now i actor f b policy (err x) = inr (untouched _ (λ h. cc))
budget-IsAccounted p now i actor f b policy (ok (active, creates)) =
    if-IsAccounted _ i b _ _ (ceiling-IsAccounted p now i actor f b policy _)
      (capped-IsAccounted p now i actor f _ b)

look_up-IsAccounted :
    (p : Platform) (now : ℕ) (i : Inputs) (actor : Actor) (f : Finding) (b : Books)
    (policy : Policy)
    → IsAccounted i b (look_up p now i actor f b policy)
unfolding look_up
look_up-IsAccounted p now i actor f b policy =
    if-IsAccounted _ i b _ _ (inr (untouched (ok "existing") (λ h. cc))) (
      if-IsAccounted _ i b _ _ (inr (untouched (ok "error") (λ h. cc)))
        (budget-IsAccounted p now i actor f b _ _))

policy-IsAccounted :
    (p : Platform) (now : ℕ) (i : Inputs) (actor : Actor) (f : Finding) (b : Books)
    (m : Result Policy)
    → IsAccounted i b (with_policy p now i actor f b m)
unfolding with_policy
policy-IsAccounted p now i actor f b (err x) = inr (untouched _ (λ h. cc))
policy-IsAccounted p now i actor f b (ok policy) =
    if-IsAccounted _ i b _ _ (look_up-IsAccounted p now i actor f b policy)
      (inr (untouched (ok "unauthorized") (λ h. cc)))

-- A call of any actor answers "created"; or it answers "capped", has run no command, leaves the ledger as
-- it is, and has put one escalation at the end of the escalations if their file can be written, and none
-- otherwise; or it answers or raises something else and leaves the ledger and the escalations as they are.
pub guarded_add_drift_task-IsAccounted :
    (p : Platform) (now : ℕ) (i : Inputs) (actor : Option Actor) (f : Finding) (b : Books)
    → IsAccounted i b (guarded_add_drift_task p now i actor f b)
unfolding guarded_add_drift_task
guarded_add_drift_task-IsAccounted p now i actor f b =
    policy-IsAccounted p now i (resolve_actor f.lane_tag actor) f b _
