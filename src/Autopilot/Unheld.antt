-- ===== src/Autopilot/Unheld.antt =====
-- driftdriver/project_autopilot.py: `get_ready_tasks` and the policy for manual owners.
use driftdriver.Base.{
  ℕ, String, ◌≡◌, inl, inr, refl, sym, ap, ◌∙◌, subst, Bool, true, false, Option, none, some, List,
  [], ◌∷◌, strip, starts_with, is_empty, ◌||◌, Bool-cases, if◌then◌else◌,
}
use driftdriver.Base.Value.{ok_injective, Fields, Result, ok, err, ◌>>=◌, is_zero, get?}
use driftdriver.Base.Platform.{Platform}
use driftdriver.Router.Match.{task_owner}
use driftdriver.Router.Choice.{apply_manual_owner_policy}
use driftdriver.Autopilot.Text.{splitlines, split_once}
use driftdriver.Autopilot.State.{Outside, Completed, run_command, text_at, id_of}
use driftdriver.Autopilot.Tasks.{
  task_fields, parse_ready_line, with_task, parse_ready_lines, parse_ready_output, parse_details,
  get_task_details, or_task, no_executors, prepare_each, listed, get_ready_tasks,
}
use driftdriver.Autopilot.Walk.{ids_of}

-- A task has the keys that the two parsers write, and no other.
abbrev IsPlain : String → Fields → Type 0
IsPlain id task = (title description : String) × (task ≡ task_fields id title description)

abbrev AllPlain : List Fields → Type 0
AllPlain [] = Unit
AllPlain (task ∷ tasks) = IsPlain (id_of task) task × AllPlain tasks

id_of_plain : (id title description : String) → id_of (task_fields id title description) ≡ id
unfolding task_fields text_at get?
id_of_plain id title description = refl

unheld :
    (p : Platform) (cfg : Fields) (id title description : String)
    → apply_manual_owner_policy p cfg no_executors (task_fields id title description)
      ≡ some (task_fields id title description)
unfolding apply_manual_owner_policy task_owner task_fields get?
unheld p cfg id title description = refl

plain-parsed :
    (found : Option (String × String))
    → (tasks : List Fields) → AllPlain tasks
    → AllPlain (
        with_task
          (elim found [ none ↦ none | some x ↦ some (task_fields (strip x.0) (strip x.1) "") ])
          tasks)
plain-parsed none tasks h = h
plain-parsed (some x) tasks h =
    ((strip x.1, "", ap (λ id. task_fields id (strip x.1) "") (sym (id_of_plain _ _ _))), h)

plain-line :
    (line : String) (tasks : List Fields)
    → AllPlain tasks
    → AllPlain (with_task (parse_ready_line line) tasks)
unfolding parse_ready_line
plain-line line tasks h = elim (Bool-cases (is_empty line || starts_with line "Ready tasks:")) [
  | inl on ↦ rw on h
  | inr off ↦ rw off (plain-parsed (split_once " - " line) tasks h)
]

plain-lines : (lines : List String) → AllPlain (parse_ready_lines lines)
unfolding parse_ready_lines
plain-lines [] = tt
plain-lines (line ∷ lines) = plain-line (strip line) (parse_ready_lines lines) (plain-lines lines)

plain-listed : (c : Completed) → AllPlain (listed c)
unfolding listed parse_ready_output
plain-listed c = elim (Bool-cases (is_zero c.returncode)) [
  | inl on ↦ rw on (plain-lines (splitlines (strip c.stdout)))
  | inr off ↦ rw off tt
]

IsPlain-if :
    (id out : String) (task : Fields) (b : Bool)
    → IsPlain id task
    → IsPlain id (or_task (if b then some (parse_details id out) else none) task)
unfolding parse_details
IsPlain-if id out task true h = (_, _, refl)
IsPlain-if id out task false h = h

IsPlain-details :
    (id : String) (task : Fields) (m : Result Completed) (d : Option Fields)
    → IsPlain id task
    → (m >>= λ c. ok (if is_zero c.returncode then some (parse_details id c.stdout) else none))
      ≡ ok d
    → IsPlain id (or_task d task)
IsPlain-details id task (err f) d h e = absurd (cc (e))
IsPlain-details id task (ok c) d h e =
    subst (λ x. IsPlain id (or_task x task)) (ok_injective e)
      (IsPlain-if id c.stdout task (is_zero c.returncode) h)

module _ (p : Platform) (o : Outside) (k : ℕ) where
  -- One task in front.
  prepared :
      (id : String) (task : Fields) (x : Result (Option Fields)) (y : Result (List Fields))
      (ids : List String) (ready : List Fields)
      → ((d : Option Fields) → x ≡ ok d → IsPlain id (or_task d task))
      → ((rest : List Fields) → y ≡ ok rest → ids_of rest ≡ ids)
      → (x >>= λ d. y >>= λ rest.
          ok (with_task (apply_manual_owner_policy p o.cfg no_executors (or_task d task)) rest))
        ≡ ok ready
      → ids_of ready ≡ id ∷ ids
  prepared id task (err f) y ids ready h g e = absurd (cc (e))
  prepared id task (ok d) (err f) ids ready h g e = absurd (cc (e))
  prepared id task (ok d) (ok rest) ids ready h g e =
      let plain = h d refl in
      let made = task_fields id plain.0 plain.1 in
      ap ids_of (sym (ok_injective e))
      ∙ ap (λ t. ids_of (with_task (apply_manual_owner_policy p o.cfg no_executors t) rest)) plain.2
      ∙ ap (λ t. ids_of (with_task t rest)) (unheld p o.cfg id plain.0 plain.1)
      ∙ ap (λ j. j ∷ ids_of rest) (id_of_plain id plain.0 plain.1)
      ∙ ap (λ js. id ∷ js) (g rest refl)

  prepare-ids :
      (tasks ready : List Fields)
      → AllPlain tasks
      → prepare_each p o k tasks ≡ ok ready
      → ids_of ready ≡ ids_of tasks
  unfolding prepare_each get_task_details
  prepare-ids [] ready h e = ap ids_of (sym (ok_injective e))
  prepare-ids (task ∷ tasks) ready h e =
      prepared (id_of task) task (get_task_details o k (id_of task)) (prepare_each p o k tasks)
        (ids_of tasks) ready
        (λ d.
          IsPlain-details (id_of task) task (run_command o.fault_text (o.show k (id_of task))) d
            h.0)
        (λ rest. prepare-ids tasks rest h.1) e

  from_listing :
      (m : Result Completed) (ready : List Fields)
      → (m >>= λ c. prepare_each p o k (listed c)) ≡ ok ready
      → (c : Completed) × (m ≡ ok c) × (ids_of ready ≡ ids_of (listed c))
  from_listing (err f) ready e = absurd (cc (e))
  from_listing (ok c) ready e = (c, refl, prepare-ids (listed c) ready (plain-listed c) e)

-- The ready tasks are the tasks in the output of `wg ready`, each with its id and in that order: the policy
-- for manual owners holds none of them, whatever it is and whoever owns them, for the details that are read
-- have no owner.
pub get_ready_tasks_hold_none :
    (p : Platform) (o : Outside) (k : ℕ) (ready : List Fields)
    → get_ready_tasks p o k ≡ ok ready
    → (c : Completed) × (run_command o.fault_text (o.ready k) ≡ ok c)
      × (ids_of ready ≡ ids_of (listed c))
unfolding get_ready_tasks
get_ready_tasks_hold_none p o k ready e =
    from_listing p o k (run_command o.fault_text (o.ready k)) ready e
