-- ===== src/Guard/Tasks.antt =====
-- driftdriver/drift_task_guard.py: the counts of active drift tasks in the list that `wg` prints. The
-- list is what its output parses to.
use driftdriver.Base.{
  String, ℕ, suc, Bool, true, false, not, ◌&&◌, Option, some, List, [], ◌∷◌, is_in, lower,
  if◌then◌else◌,
}
use driftdriver.Base.Value.{
  Value, list, dict, str, Values, nil, cons, Fault, Result, ok, err, ◌>>=◌, get_or, get, has_text,
}
use driftdriver.Base.Platform.{Platform, str_of}

abbrev pub terminal : List String
terminal = "done" ∷ "abandoned" ∷ "failed" ∷ []

-- `_load_task_list`; `none` is a command that failed or an output that does not parse.
abbrev pub load_task_list : Option Value → Values
load_task_list (some (list vs)) = vs
load_task_list _ = nil

-- The tags are a list that holds every one of the texts.
abbrev has_all : List String → Values → Bool
has_all [] vs = true
has_all (s ∷ ss) vs = has_text s vs && has_all ss vs

abbrev tagged : List String → Value → Bool
tagged wanted (list vs) = has_all wanted vs
tagged wanted _ = false

-- One turn of the loops: the task is not terminal, and has the tags. A task that is no dictionary has no
-- `get`.
unfoldable pub is_active : Platform → List String → Value → Result Bool
is_active p wanted (dict t) =
    let status = lower (str_of p (get_or "status" (str "") t)) in
    ok (not (is_in status terminal) && tagged wanted (get "tags" t))
is_active p wanted _ = err Fault.attribute_error

unfoldable pub count_active : Platform → List String → Values → Result ℕ
count_active p wanted nil = ok 0
count_active p wanted (cons t ts) =
    is_active p wanted t >>= λ b. count_active p wanted ts >>= λ n. ok (if b then suc n else n)

-- `count_active_drift_tasks`
unfoldable pub count_active_drift_tasks : Platform → String → Values → Result ℕ
count_active_drift_tasks p lane_tag tasks = count_active p ("drift" ∷ lane_tag ∷ []) tasks

-- `count_all_active_drift_tasks`
unfoldable pub count_all_active_drift_tasks : Platform → Values → Result ℕ
count_all_active_drift_tasks p tasks = count_active p ("drift" ∷ []) tasks
