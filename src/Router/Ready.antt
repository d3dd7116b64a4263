-- ===== src/Router/Ready.antt =====
-- driftdriver/task_router.py: `_find_ready_tasks` and `_not_before_allows_dispatch`. A node is what its
-- line of graph.jsonl parses to.
use driftdriver.Base.{
  ℕ, suc, ◌*◌, ◌^◌, String, Bool, true, false, not, ◌&&◌, Option, none, some, List, [], ◌∷◌,
  is_empty, strip, replace_z, leb, ◌==◌, ◌=?◌, is_in, if◌then◌else◌,
}
use driftdriver.Base.Value.{
  Value, null, bool, int, real, str, list, dict, Values, nil, cons, Fields, finite, infinite, ℤ,
  pos, negsuc, Fault, Result, ok, err, ◌>>=◌, get, get_or, truthy, is_the_text,
}
use driftdriver.Directive.Command.{item, each}

-- A number as `m / 2 ^ k`.
unfoldable number_of : Value → Option (ℤ × ℕ)
number_of (bool b) = some (pos (if b then 1 else 0), 0)
number_of (int n) = some (n, 0)
number_of (real (finite m k)) = some (m, k)
number_of _ = none

unfoldable same_number : Option (ℤ × ℕ) → Option (ℤ × ℕ) → Bool
same_number (some (pos a, j)) (some (pos b, k)) = a * 2 ^ k =? b * 2 ^ j
same_number (some (negsuc a, j)) (some (negsuc b, k)) = suc a * 2 ^ k =? suc b * 2 ^ j
same_number _ _ = false

-- `v == w` of two keys of a dictionary; a key is no list and no dictionary.
unfoldable pub same_key : Value → Value → Bool
unfolding number_of same_number
same_key (str s) (str t) = s == t
same_key null null = true
same_key (real infinite) (real infinite) = true
same_key v w = same_number (number_of v) (number_of w)

-- A list and a dictionary cannot be hashed.
abbrev pub hashable : Value → Bool
hashable (list vs) = false
hashable (dict d) = false
hashable _ = true

abbrev pub hashed : Value → Result Value
hashed v = if hashable v then ok v else err Fault.type_error

-- A node that is no dictionary has no `get`.
abbrev pub node_fields : Value → Result Fields
node_fields (dict n) = ok n
node_fields _ = err Fault.attribute_error

abbrev pub is_task : Fields → Bool
is_task n = is_the_text "task" (get "kind" n)

-- The ids and statuses of the tasks, in the order of the file.
unfoldable pub statuses : List Value → Result (List (Value × Value))
statuses [] = ok []
statuses (v ∷ vs) = node_fields v >>= λ n.
    if is_task n
    then (item "id" n >>= λ id.
        hashed id >>= λ key. statuses vs >>= λ rest. ok ((key, get_or "status" (str "") n) ∷ rest))
    else statuses vs

-- `statuses.get(d, "")`: of two rows with one id the later counts.
unfoldable pub status_of : Value → Value → List (Value × Value) → Value
status_of d found [] = found
status_of d found ((key, status) ∷ rest) =
    status_of d (if same_key key d then status else found) rest

-- `v in {"done", "abandoned"}`
abbrev pub is_terminal : Value → Result Bool
is_terminal (str s) = ok (is_in s ("done" ∷ "abandoned" ∷ []))
is_terminal v = hashed v >>= λ _. ok false

abbrev pub dependency_met : List (Value × Value) → Value → Result Bool
dependency_met table d = hashed d >>= λ key. is_terminal (status_of key (str "") table)

-- The `all(...)`, which stops at the first that is not met.
unfoldable pub all_met : List (Value × Value) → Values → Result Bool
all_met table nil = ok true
all_met table (cons d ds) =
    let rest = all_met table ds in
    dependency_met table d >>= λ met. (if met then rest else ok false)

unfoldable or_now : ℕ → Option ℕ → Bool
or_now clock none = true
or_now clock (some t) = leb t clock

-- `_parse_task_datetime`
unfoldable pub parse_task_datetime : (String → Option ℕ) → Value → Option ℕ
parse_task_datetime instant (str s) =
    if is_empty (strip s) then none else instant (replace_z (strip s))
parse_task_datetime instant _ = none

-- `_not_before_allows_dispatch`
unfoldable pub not_before_allows_dispatch : (String → Option ℕ) → ℕ → Fields → Bool
unfolding or_now
not_before_allows_dispatch instant clock task =
    or_now clock (parse_task_datetime instant (get "not_before" task))

-- The tests before the dependencies.
abbrev pub is_candidate : (String → Option ℕ) → ℕ → Fields → Bool
is_candidate instant clock n =
    is_task n
    && is_the_text "open" (get "status" n)
    && not (truthy (get "paused" n))
    && not_before_allows_dispatch instant clock n

-- One turn of the loop: whether the node is ready.
unfoldable pub is_ready : (String → Option ℕ) → ℕ → List (Value × Value) → Fields → Result Bool
is_ready instant clock table n =
    if is_candidate instant clock n
    then (each (get_or "after" (list nil) n) >>= λ deps. all_met table deps)
    else ok false

unfoldable pub ready_among :
    (String → Option ℕ) → ℕ → List (Value × Value) → List Value → Result (List Fields)
ready_among instant clock table [] = ok []
ready_among instant clock table (v ∷ vs) = node_fields v >>= λ n.
    is_ready instant clock table n >>= λ b.
    ready_among instant clock table vs >>= λ rest. ok (if b then n ∷ rest else rest)

-- `_find_ready_tasks`
unfoldable pub find_ready_tasks : (String → Option ℕ) → ℕ → List Value → Result (List Fields)
find_ready_tasks instant clock nodes =
    statuses nodes >>= λ table. ready_among instant clock table nodes
