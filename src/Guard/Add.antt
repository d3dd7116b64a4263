-- ===== src/Guard/Add.antt =====
-- driftdriver/drift_task_guard.py: `guarded_add_drift_task`. One reading of the clock serves a call.
use driftdriver.Base.{
  String, ℕ, ◌*◌, Bool, Option, none, some, List, [], ◌∷◌, ◌++◌, is_empty, lower, contains, concat,
  ◌==◌, if◌then◌else◌,
}
use driftdriver.Base.Value.{
  Value, str, list, dict, int, pos, ℤ, nil, texts, Fields, field, end, Result, ok, err, ◌>>=◌,
  is_zero,
}
use driftdriver.Base.Platform.{Platform}
use driftdriver.Budget.Actor.{Actor}
use driftdriver.Budget.Policy.{Policy, at_least_one, can_do, load_authority_policy}
use driftdriver.Budget.Quality.{ActorQuality, apply_quality_modifier}
use driftdriver.Budget.Ledger.{Ledger, recent_count, record_operation}
use driftdriver.Budget.Check.{check_budget, reached}
use driftdriver.Directive.Action.{create_task, Directive}
use driftdriver.Directive.Shim.{Surroundings, Effects, execute}
use driftdriver.Guard.Tasks.{load_task_list, count_active_drift_tasks, count_all_active_drift_tasks}
use driftdriver.Guard.Outcome.{stamp_desired_outcome}

-- The arguments, `actor` set apart.
pub record Finding : Type 0 where
  pub task_id : String
  pub title : String
  pub description : String
  pub lane_tag : String
  pub extra_tags : List String
  pub after : String

-- What the call reads: the policy file, `wg show` with its exit code and error text, `wg list`, the
-- quality of the actor, NORTH_STAR.md, the id of the directive, and whether escalations.jsonl can be
-- written.
pub record Inputs : Type 0 where
  pub toml : Option Fields
  pub show_code : ℤ
  pub show_error : String
  pub listed : Option Value
  pub quality : Option ActorQuality
  pub north_star : Option (Result (List String))
  pub directive_id : String
  pub can_escalate : Bool
  pub surroundings : Surroundings

-- A row of escalations.jsonl
pub record Escalation : Type 0 where
  pub timestamp : String
  pub actor_id : String
  pub actor_class : String
  pub lane : String
  pub task_id : String
  pub title : String
  pub reason : String

-- What the call writes: the directive log with the commands run, the ledger and the escalations.
pub record Books : Type 0 where
  pub effects : Effects
  pub ledger : Ledger
  pub escalations : List Escalation

-- The `lane` actor that stands in for `None`.
unfoldable pub resolve_actor : String → Option Actor → Actor
resolve_actor lane_tag none = record {
  id = concat ("lane-" ∷ lane_tag ∷ []);
  actor_class = "lane";
  name = lane_tag;
  repo = "";
}
resolve_actor lane_tag (some actor) = actor

unfoldable pub escalation : Platform → ℕ → Actor → Finding → String → Escalation
escalation p now actor f reason = record {
  timestamp = p.iso now;
  actor_id = actor.id;
  actor_class = actor.actor_class;
  lane = f.lane_tag;
  task_id = f.task_id;
  title = f.title;
  reason = reason;
}

-- `_record_escalation`, which passes over a failure to write.
unfoldable pub record_escalation : Platform → ℕ → Inputs → Actor → Finding → String → Books → Books
record_escalation p now i actor f reason b =
    if i.can_escalate
    then record b { escalations = b.escalations ++ escalation p now actor f reason ∷ [] }
    else b

-- `get_global_ceiling`
unfoldable pub get_global_ceiling : Policy → ℤ
get_global_ceiling policy = elim policy.global_ceiling [ none ↦ pos 50 | some n ↦ at_least_one n ]

unfoldable pub directive_for : Platform → ℕ → Actor → Finding → Inputs → String → Directive
directive_for p now actor f i description = record {
  source = "drift_task_guard";
  repo = actor.repo;
  action = create_task;
  params = dict (
      field "task_id" (str f.task_id) (
        field "title" (str f.title) (
          field "description" (str description) (
            field "tags" (list (texts ("drift" ∷ f.lane_tag ∷ f.extra_tags))) (
              field "after" (list (if is_empty f.after then nil else texts (f.after ∷ [])))
                end)))));
  reason = concat ("drift follow-up from lane=" ∷ f.lane_tag ∷ []);
  authority = none;
  priority = "normal";
  id = i.directive_id;
  timestamp = p.iso now;
}

abbrev pub Call : Type 0
Call = Books × Result String

unfoldable pub capped : Platform → ℕ → Inputs → Actor → Finding → String → Books → Call
capped p now i actor f reason b = (record_escalation p now i actor f reason b, ok "capped")

-- The answer of the shim, and the entry in the ledger.
unfoldable pub account : Platform → ℕ → Actor → Finding → Books → Effects × Result String → Call
account p now actor f b (e, err x) = (record b { effects = e }, err x)
account p now actor f b (e, ok answer) =
    if answer == "completed"
    then (
      record b {
        effects = e;
        ledger =
            record_operation p now actor.id actor.actor_class "create" actor.repo f.task_id
              b.ledger;
      },
      ok "created",
    )
    else (record b { effects = e }, ok "error")

-- Step 8, with the description.
unfoldable pub emit_described :
    Platform → ℕ → Inputs → Actor → Finding → Books → Result String → Call
emit_described p now i actor f b (err x) = (b, err x)
emit_described p now i actor f b (ok description) =
    account p now actor f b
      (execute p now i.surroundings (directive_for p now actor f i description) b.effects)

unfoldable pub emit : Platform → ℕ → Inputs → Actor → Finding → Books → Call
emit p now i actor f b =
    emit_described p now i actor f b (stamp_desired_outcome f.description i.north_star)

unfoldable pub ceiling_reason : Platform → ℕ → ℤ → String
ceiling_reason p total ceiling =
    concat
      ("global_ceiling exceeded: " ∷ p.repr (int (pos total)) ∷ " >= " ∷ p.repr (int ceiling) ∷ [])

-- Step 7 on, with the count of all active drift tasks.
unfoldable pub under_ceiling :
    Platform → ℕ → Inputs → Actor → Finding → Books → Policy → Result ℕ → Call
under_ceiling p now i actor f b policy (err x) = (b, err x)
under_ceiling p now i actor f b policy (ok total) =
    let ceiling = get_global_ceiling policy in
    if reached total ceiling
    then capped p now i actor f (ceiling_reason p total ceiling) b
    else emit p now i actor f b

-- Step 6 on, with the counts of the lane and of the last hour.
unfoldable pub under_budget :
    Platform → ℕ → Inputs → Actor → Finding → Books → Policy → Result (ℕ × ℕ) → Call
under_budget p now i actor f b policy (err x) = (b, err x)
under_budget p now i actor f b policy (ok (active, creates)) =
    let (allowed, reason) = check_budget p actor "create" active creates policy in
    if allowed
    then under_ceiling p now i actor f b policy
        (count_all_active_drift_tasks p (load_task_list i.listed))
    else capped p now i actor f reason b

-- 3600 seconds
abbrev pub hour : ℕ
hour = 3600 * 1000000

-- The two counts, in the order of the code.
unfoldable pub tally : Platform → ℕ → Inputs → Actor → Finding → Books → Result (ℕ × ℕ)
tally p now i actor f b = do
  active ← count_active_drift_tasks p f.lane_tag (load_task_list i.listed)
  creates ← recent_count p now actor.id "create" hour b.ledger
  ok (active, creates)

-- Step 4 on: a task that `wg show` finds, or a `wg` that hangs, ends the call.
unfoldable pub look_up : Platform → ℕ → Inputs → Actor → Finding → Books → Policy → Call
look_up p now i actor f b policy =
    if is_zero i.show_code
    then (b, ok "existing")
    else if contains (lower i.show_error) "timed out"
    then (b, ok "error")
    else under_budget p now i actor f b (apply_quality_modifier actor.actor_class policy i.quality)
        (tally p now i actor f b)

-- Step 3 on, with the policy.
unfoldable pub with_policy : Platform → ℕ → Inputs → Actor → Finding → Books → Result Policy → Call
with_policy p now i actor f b (err x) = (b, err x)
with_policy p now i actor f b (ok policy) =
    if can_do actor "create" policy
    then look_up p now i actor f b policy
    else (b, ok "unauthorized")

-- `guarded_add_drift_task`: what it leaves, and what it returns or raises.
unfoldable pub guarded_add_drift_task :
    Platform → ℕ → Inputs → Option Actor → Finding → Books → Books × Result String
guarded_add_drift_task p now i actor f b =
    with_policy p now i (resolve_actor f.lane_tag actor) f b (load_authority_policy p i.toml)
