-- ===== src/Budget/Policy.antt =====
-- driftdriver/authority.py: budgets, grants, and the policy that is read from drift-policy.toml.
use driftdriver.Base.{
  ℕ, zero, suc, String, Bool, Option, none, some, List, [], ◌∷◌, ◌==◌, is_in, if◌then◌else◌,
}
use driftdriver.Base.Value.{
  Value, dict, list, int, Values, nil, cons, Fields, field, end, ℤ, pos, negsuc, Result, ok, ◌>>=◌,
  to_int, get?, get_or,
}
use driftdriver.Base.Platform.{Platform, str_of}
use driftdriver.Budget.Actor.{Actor, default_authority}

-- `int` values, as the policy may set them
pub record Budget : Type 0 where
  pub max_active_tasks : ℤ
  pub max_creates_per_hour : ℤ
  pub max_dispatches_per_hour : ℤ

abbrev limits : ℕ → ℕ → ℕ → Budget
limits active creates dispatches = record {
  max_active_tasks = pos active;
  max_creates_per_hour = pos creates;
  max_dispatches_per_hour = pos dispatches;
}

-- `DEFAULT_BUDGETS.get(actor_class, Budget())`
unfoldable pub default_budget : String → Budget
default_budget actor_class =
    if actor_class == "human"
    then limits 999 999 999
    else if actor_class == "interactive"
    then limits 20 30 0
    else if actor_class == "worker"
    then limits 1 5 0
    else if actor_class == "daemon"
    then limits 10 20 10
    else if actor_class == "lane"
    then limits 3 10 0
    else limits 3 10 5

-- A dictionary with text keys, in order.
abbrev pub Dict : Type 0 → Type 0
Dict V = List (String × V)

unfoldable pub find : {V : Type 0} → String → Dict V → Option V
find k [] = none
find k ((j, v) ∷ d) = if j == k then some v else find k d

-- `d[k] = v`
unfoldable pub assign : {V : Type 0} → String → V → Dict V → Dict V
assign k v [] = (k, v) ∷ []
assign k v ((j, w) ∷ d) = if j == k then (j, v) ∷ d else (j, w) ∷ assign k v d

-- The dictionary that `load_authority_policy` returns; `none` is a key that is not set.
pub record Policy : Type 0 where
  pub grants : Option (Dict (List String))
  pub budgets : Option (Dict Budget)
  pub global_ceiling : Option ℤ

abbrev pub no_policy : Policy
no_policy = record { grants = none; budgets = none; global_ceiling = none }

abbrev pub find_in : {V : Type 0} → String → Option (Dict V) → Option V
find_in k none = none
find_in k (some d) = find k d

-- `get_authority`; a `None` policy and `{}` are alike
unfoldable pub get_authority : String → Policy → List String
get_authority actor_class policy = elim (find_in actor_class policy.grants) [
  | none ↦ default_authority actor_class
  | some ops ↦ ops
]

-- `get_budget`
unfoldable pub get_budget : String → Policy → Budget
get_budget actor_class policy = elim (find_in actor_class policy.budgets) [
  | none ↦ default_budget actor_class
  | some budget ↦ budget
]

-- `can_do`
unfoldable pub can_do : Actor → String → Policy → Bool
can_do actor operation policy = is_in operation (get_authority actor.actor_class policy)

-- `frozenset(str(op) for op in ops)`
op_texts : Platform → Values → List String
op_texts p nil = []
op_texts p (cons v vs) = str_of p v ∷ op_texts p vs

-- The `for` loop over the grants; what is no list is left out.
read_grants : Platform → Fields → Dict (List String)
unfolding op_texts
read_grants p end = []
read_grants p (field actor_class (list ops) rest) =
    (actor_class, op_texts p ops) ∷ read_grants p rest
read_grants p (field actor_class _ rest) = read_grants p rest

-- `int(budget_data.get(key, default))`
setting : String → ℤ → Fields → Result ℤ
setting key default budget_data = to_int (get_or key (int default) budget_data)

read_budget : Budget → Fields → Result Budget
unfolding setting
read_budget default d = do
  active ← setting "max_active_tasks" default.max_active_tasks d
  creates ← setting "max_creates_per_hour" default.max_creates_per_hour d
  dispatches ← setting "max_dispatches_per_hour" default.max_dispatches_per_hour d
  ok (record {
    max_active_tasks = active;
    max_creates_per_hour = creates;
    max_dispatches_per_hour = dispatches;
  })

read_budgets : Fields → Result (Dict Budget)
unfolding read_budget
read_budgets end = ok []
read_budgets (field actor_class (dict d) rest) =
    read_budget (default_budget actor_class) d >>= λ budget.
    read_budgets rest >>= λ budgets. ok ((actor_class, budget) ∷ budgets)
read_budgets (field actor_class _ rest) = read_budgets rest

-- `if grants: result["grants"] = grants`
if_any : {V : Type 0} → Dict V → Option (Dict V)
if_any [] = none
if_any (e ∷ d) = some (e ∷ d)

-- `max(1, int(v))`
abbrev pub at_least_one : ℤ → ℤ
at_least_one (pos zero) = pos 1
at_least_one (pos (suc n)) = pos (suc n)
at_least_one (negsuc n) = pos 1

read_ceiling : Option Value → Result (Option ℤ)
read_ceiling none = ok none
read_ceiling (some v) = to_int v >>= λ n. ok (some (at_least_one n))

grants_of : Platform → Option Value → Option (Dict (List String))
unfolding read_grants if_any
grants_of p (some (dict d)) = if_any (read_grants p d)
grants_of p _ = none

budgets_of : Option Value → Result (Option (Dict Budget))
unfolding read_budgets if_any
budgets_of (some (dict d)) = read_budgets d >>= λ budgets. ok (if_any budgets)
budgets_of _ = ok none

read_section : Platform → Option Value → Result Policy
unfolding grants_of budgets_of read_ceiling
read_section p (some (dict section)) = budgets_of (get? "budgets" section) >>= λ budgets.
    read_ceiling (get? "global_ceiling" section) >>= λ ceiling. ok (record {
      grants = grants_of p (get? "grants" section);
      budgets = budgets;
      global_ceiling = ceiling;
    })
read_section p _ = ok no_policy

-- The fallback to `[loop_safety].max_ready_drift_followups`.
loop_safety : Option Value → Policy → Result Policy
unfolding read_ceiling
loop_safety (some (dict d)) policy = elim policy.global_ceiling [
  | some n ↦ ok policy
  | none ↦ read_ceiling (get? "max_ready_drift_followups" d) >>= λ ceiling.
      ok (record policy { global_ceiling = ceiling })
]
loop_safety _ policy = ok policy

-- `load_authority_policy`; `none` is a file that is missing or does not parse.
unfoldable pub load_authority_policy : Platform → Option Fields → Result Policy
unfolding read_section loop_safety
load_authority_policy p none = ok no_policy
load_authority_policy p (some toml) =
    read_section p (get? "authority" toml) >>= loop_safety (get? "loop_safety" toml)
