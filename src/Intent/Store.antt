-- ===== src/Intent/Store.antt =====
-- driftdriver/continuation_intent.py: `read_intent` and `write_intent`, on control.json. A write
-- of the file succeeds.
use driftdriver.Base.{String, Option, none, some, List, [], ◌∷◌, is_in, if◌then◌else◌}
use driftdriver.Base.Value.{
  Value, null, str, dict, Fields, field, end, Fault, Result, ok, err, ◌>>=◌, or_else, get, get_or,
  put,
}

-- The file control.json: missing; with text that is no JSON, or an error of the system at the reading;
-- with bytes that are no UTF-8; or with a JSON value.
pub data ControlFile : Type 0 where
  absent unreadable undecodable : ControlFile
  parsed : Value → ControlFile

-- An intent; a file may hold any JSON value under a key.
pub record ContinuationIntent : Type 0 where
  pub intent : Value
  pub reason : Value
  pub set_by : Value
  pub set_at : Value
  pub decision_id : Value

abbrev pub valid_intents : List String
valid_intents = "continue" ∷ "parked" ∷ "needs_human" ∷ []

abbrev pub valid_set_by : List String
valid_set_by = "agent" ∷ "brain" ∷ "human" ∷ []

abbrev pub intent_of : Value → Option ContinuationIntent
intent_of (dict raw) = some (record {
  intent = get_or "intent" (str "") raw;
  reason = get_or "reason" (str "") raw;
  set_by = get_or "set_by" (str "") raw;
  set_at = get_or "set_at" (str "") raw;
  decision_id = get "decision_id" raw;
})
intent_of _ = none

-- `_read_control`, which lets the `UnicodeDecodeError` of `read_text`, a `ValueError`, through
unfoldable pub read_control : ControlFile → Result (Option Value)
read_control absent = ok none
read_control unreadable = ok none
read_control undecodable = err Fault.value_error
read_control (parsed v) = ok (some v)

-- The JSON null is taken for a missing file, and another value that is no dictionary has no `get`.
unfoldable pub intent_in : Option Value → Result (Option ContinuationIntent)
intent_in none = ok none
intent_in (some null) = ok none
intent_in (some (dict d)) = ok (intent_of (get "continuation_intent" d))
intent_in (some v) = err Fault.attribute_error

-- `read_intent`
unfoldable pub read_intent : ControlFile → Result (Option ContinuationIntent)
read_intent f = read_control f >>= intent_in

abbrev text_or_null : Option String → Value
text_or_null none = null
text_or_null (some s) = str s

-- The keyword arguments of `write_intent`, with the instant that it takes.
pub record Wish : Type 0 where
  pub intent : String
  pub set_by : String
  pub reason : String
  pub decision_id : Option String
  pub now : String

unfoldable pub wished : Wish → ContinuationIntent
wished w = record {
  intent = str w.intent;
  reason = str w.reason;
  set_by = str w.set_by;
  set_at = str w.now;
  decision_id = text_or_null w.decision_id;
}

unfoldable pub intent_record : ContinuationIntent → Fields
intent_record i = field "intent" i.intent (
    field "reason" i.reason
      (field "set_by" i.set_by (field "set_at" i.set_at (field "decision_id" i.decision_id end))))

-- `... or {}`
abbrev control_or_empty : Option Value → Value
control_or_empty none = dict end
control_or_empty (some v) = or_else v (dict end)

-- `control["continuation_intent"] = intent_record`
unfoldable pub with_intent : Value → Fields → Result Value
with_intent (dict d) raw = ok (dict (put "continuation_intent" (dict raw) d))
with_intent v raw = err Fault.type_error

unfoldable pub stored : Wish → Option Value → Result (ContinuationIntent × Value)
stored w c = with_intent (control_or_empty c) (intent_record (wished w)) >>= λ v. ok (wished w, v)

-- `write_intent`: the intent that it returns, and the dictionary that it stores.
unfoldable pub write_intent : Wish → ControlFile → Result (ContinuationIntent × Value)
write_intent w f =
    if is_in w.intent valid_intents
    then if is_in w.set_by valid_set_by
      then (read_control f >>= stored w)
      else err Fault.value_error
    else err Fault.value_error
