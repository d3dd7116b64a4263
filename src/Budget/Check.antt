-- ===== src/Budget/Check.antt =====
-- driftdriver/authority.py: `check_budget`.
use driftdriver.Base.{
  ℕ, ◌<◌, String, ◌≡◌, ◌↔◌, refl, Bool, true, false, [], ◌∷◌, arith, concat, leb, ◌==◌,
  if◌then◌else◌,
}
use driftdriver.Base.Value.{ℤ, pos, negsuc, int}
use driftdriver.Base.Platform.{Platform}
use driftdriver.Budget.Actor.{Actor}
use driftdriver.Budget.Policy.{Policy, get_budget}

-- `count >= limit`
abbrev pub reached : ℕ → ℤ → Bool
reached count (pos n) = leb n count
reached count (negsuc n) = true

exceeded : Platform → String → ℕ → ℤ → String
exceeded p what count limit =
    concat (what ∷ " exceeded: " ∷ p.repr (int (pos count)) ∷ " >= " ∷ p.repr (int limit) ∷ [])

-- `check_budget`
unfoldable pub check_budget : Platform → Actor → String → ℕ → ℕ → Policy → Bool × String
unfolding exceeded
check_budget p actor operation current_count recent_count policy =
    let budget = get_budget actor.actor_class policy in
    if operation == "create"
    then if reached current_count budget.max_active_tasks
      then (false, exceeded p "max_active_tasks" current_count budget.max_active_tasks)
      else if reached recent_count budget.max_creates_per_hour
      then (false, exceeded p "max_creates_per_hour" recent_count budget.max_creates_per_hour)
      else (true, "")
    else if operation == "dispatch"
    then if reached recent_count budget.max_dispatches_per_hour
      then (false, exceeded p "max_dispatches_per_hour" recent_count budget.max_dispatches_per_hour)
      else (true, "")
    else (true, "")

-- The count stands below the limit.
abbrev pub Below : ℕ → ℤ → Type 0
Below count (pos n) = count < n
Below count (negsuc n) = ⊥

pub reached-Below : (count : ℕ) (limit : ℤ) → (reached count limit ≡ false) ↔ Below count limit
reached-Below count (pos n) = ground arith
reached-Below count (negsuc n) = (λ h. cc, λ h. absurd h)

-- An actor may create exactly while its active tasks and its creations of the last hour both stand below
-- the limits of its budget.
pub check_budget-create :
    (p : Platform) (actor : Actor) (current recent : ℕ) (policy : Policy)
    → ((check_budget p actor "create" current recent policy).0 ≡ true) ↔ (
        Below current (get_budget actor.actor_class policy).max_active_tasks
        × Below recent (get_budget actor.actor_class policy).max_creates_per_hour)
unfolding check_budget
check_budget-create p actor current recent policy =
    let b = get_budget actor.actor_class policy in
    let active = reached-Below current b.max_active_tasks in
    let hourly = reached-Below recent b.max_creates_per_hour in
    (
      λ h. (active.0 (ground arith), hourly.0 (ground arith)),
      λ h. rw (active.1 h.0, hourly.1 h.1) refl,
    )
