-- ===== src/Queue/Record.antt =====
-- driftdriver/decision_queue.py: the record of a decision and its dictionary.
use driftdriver.Base.{◌≡◌, refl, Option, none, some}
use driftdriver.Base.Value.{
  Value, str, list, dict, nil, Fields, end, field, Fault, Result, ok, err, get, get?, get_or,
}

-- A decision; a row of the file may hold any JSON value under a key.
pub record DecisionRecord : Type 0 where
  pub id : Value
  pub repo : Value
  pub status : Value
  pub question : Value
  pub context : Value
  pub category : Value
  pub created_at : Value
  pub notified_via : Value
  pub answered_at : Value
  pub answered_via : Value
  pub answer : Value
  pub resolution_task : Value

-- `_record_to_dict`
unfoldable pub record_to_dict : DecisionRecord → Fields
record_to_dict rec = field "id" rec.id (
    field "repo" rec.repo (
      field "status" rec.status (
        field "question" rec.question (
          field "context" rec.context (
            field "category" rec.category (
              field "created_at" rec.created_at (
                field "notified_via" rec.notified_via (
                  field "answered_at" rec.answered_at (
                    field "answered_via" rec.answered_via (
                      field "answer" rec.answer
                        (field "resolution_task" rec.resolution_task end)))))))))))

abbrev rest_of : Value → Fields → DecisionRecord
rest_of id d = record {
  id = id;
  repo = get_or "repo" (str "") d;
  status = get_or "status" (str "pending") d;
  question = get_or "question" (str "") d;
  context = get_or "context" (dict end) d;
  category = get_or "category" (str "") d;
  created_at = get_or "created_at" (str "") d;
  notified_via = get_or "notified_via" (list nil) d;
  answered_at = get "answered_at" d;
  answered_via = get "answered_via" d;
  answer = get "answer" d;
  resolution_task = get "resolution_task" d;
}

abbrev with_id : Option Value → Fields → Result DecisionRecord
with_id none d = err Fault.key_error
with_id (some id) d = ok (rest_of id d)

-- `_dict_to_record`; `d["id"]` of a value that is no dictionary is a `TypeError`.
unfoldable pub dict_to_record : Value → Result DecisionRecord
dict_to_record (dict d) = with_id (get? "id" d) d
dict_to_record _ = err Fault.type_error

-- The dictionary of a decision gives the decision back.
pub dict_to_record-record_to_dict :
    (rec : DecisionRecord) → dict_to_record (dict (record_to_dict rec)) ≡ ok rec
unfolding dict_to_record record_to_dict get?
dict_to_record-record_to_dict rec = refl
