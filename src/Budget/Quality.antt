-- ===== src/Budget/Quality.antt =====
-- driftdriver/quality_signal.py: `quality_budget_modifier`, and its use in `_apply_quality_modifier` of
-- driftdriver/drift_task_guard.py. A score is a double, so the thresholds stand here as the doubles that
-- the source's literals denote. A product with a modifier is exact below 2^51.
use driftdriver.Base.{
  ℕ, zero, suc, ◌*◌, ◌/◌, ◌^◌, Bool, true, false, Option, none, some, String, [], ◌∷◌, leb,
  if◌then◌else◌,
}
use driftdriver.Base.Value.{ℤ, pos, negsuc, Real, finite, infinite, not_a_number}
use driftdriver.Budget.Policy.{Budget, Policy, Dict, assign, get_budget, at_least_one}

-- `score >= t / 2 ^ e`
reaches : Real → ℕ → ℕ → Bool
reaches (finite (pos m) k) t e = leb (t * 2 ^ k) (m * 2 ^ e)
reaches (finite (negsuc m) k) t e = false
reaches infinite t e = true
reaches not_a_number t e = false

-- The multipliers 1.5, 1.0, 0.75 and 0.5, in quarters.
pub data Modifier : Type 0 where
  high normal reduced low : Modifier

abbrev pub quarters : Modifier → ℕ
quarters high = 6
quarters normal = 4
quarters reduced = 3
quarters low = 2

-- `quality_budget_modifier`
unfoldable pub quality_budget_modifier : Real → Modifier
unfolding reaches
quality_budget_modifier score =
    if reaches score 3602879701896397 52
    then high
    else if reaches score 5404319552844595 53
    then normal
    else if reaches score 3602879701896397 53
    then reduced
    else low

-- `int(n * modifier)`
unfoldable pub scale : Modifier → ℤ → ℤ
scale m (pos n) = pos (n * quarters m / 4)
scale m (negsuc n) = elim (suc n * quarters m / 4) [ zero ↦ pos 0 | suc k ↦ negsuc k ]

-- `max(0, n)`
abbrev at_least_zero : ℤ → ℤ
at_least_zero (pos n) = pos n
at_least_zero (negsuc n) = pos 0

unfoldable pub adjust : Modifier → Budget → Budget
adjust m b = record {
  max_active_tasks = at_least_one (scale m b.max_active_tasks);
  max_creates_per_hour = at_least_one (scale m b.max_creates_per_hour);
  max_dispatches_per_hour = at_least_zero (scale m b.max_dispatches_per_hour);
}

-- What `compute_actor_quality` returns of an actor, as far as the modifier reads it.
pub record ActorQuality : Type 0 where
  pub total_outcomes : ℕ
  pub quality_score : Real

unfoldable pub modifier_of : ActorQuality → Modifier
modifier_of q = elim q.total_outcomes [
  | zero ↦ normal
  | suc n ↦ quality_budget_modifier q.quality_score
]

set_budget : String → Budget → Option (Dict Budget) → Dict Budget
set_budget actor_class b none = (actor_class, b) ∷ []
set_budget actor_class b (some d) = assign actor_class b d

unfoldable pub apply_modifier : String → Policy → Modifier → Policy
unfolding set_budget
apply_modifier actor_class policy normal = policy
apply_modifier actor_class policy m = record policy {
  budgets = some (set_budget actor_class (adjust m (get_budget actor_class policy)) policy.budgets);
}

-- `_apply_quality_modifier`; `none` is a quality signal that is unavailable.
unfoldable pub apply_quality_modifier : String → Policy → Option ActorQuality → Policy
apply_quality_modifier actor_class policy none = policy
apply_quality_modifier actor_class policy (some q) =
    apply_modifier actor_class policy (modifier_of q)
