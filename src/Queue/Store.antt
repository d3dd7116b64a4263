-- ===== src/Queue/Store.antt =====
-- driftdriver/decision_queue.py: the operations on decisions.jsonl. The file is missing, or it is a list
-- of lines that end; `json.dumps` writes a record as one line.
use driftdriver.Base.{
  String, Bool, ◌&&◌, Option, none, some, List, [], ◌∷◌, ◌++◌, map, keep, if◌then◌else◌,
}
use driftdriver.Base.Value.{
  Value, null, str, list, dict, nil, Fields, end, Fault, Result, ok, err, ◌>>=◌, is_the_text,
}
use driftdriver.Queue.Record.{DecisionRecord, record_to_dict, dict_to_record}

-- A line: of spaces, not JSON, or a JSON value.
pub data Line : Type 0 where
  blank broken : Line
  holds : Value → Line

abbrev pub File : Type 0
File = Option (List Line)

-- The keyword arguments of `create_decision`, with the id and the instant that it takes.
pub record Proposal : Type 0 where
  pub id : String
  pub now : String
  pub repo : String
  pub question : String
  pub category : String
  pub context : Option Fields

-- The keyword arguments of `answer_decision`, with the instant that it takes.
pub record Reply : Type 0 where
  pub decision_id : String
  pub answer : String
  pub answered_via : String
  pub now : String

-- `context or {}`
abbrev context_of : Option Fields → Fields
context_of none = end
context_of (some d) = d

unfoldable pub proposed : Proposal → DecisionRecord
proposed q = record {
  id = str q.id;
  repo = str q.repo;
  status = str "pending";
  question = str q.question;
  context = dict (context_of q.context);
  category = str q.category;
  created_at = str q.now;
  notified_via = list nil;
  answered_at = null;
  answered_via = null;
  answer = null;
  resolution_task = null;
}

abbrev pub line_of : DecisionRecord → Line
line_of rec = holds (dict (record_to_dict rec))

-- `open("a")` makes a file that is missing.
abbrev pub add_line : Line → File → File
add_line l none = some (l ∷ [])
add_line l (some ls) = some (ls ++ (l ∷ []))

-- `create_decision`
unfoldable pub create_decision : Proposal → File → DecisionRecord × File
create_decision q f = (proposed q, add_line (line_of (proposed q)) f)

-- `except (json.JSONDecodeError, KeyError): continue`
unfoldable pub or_skip : Result DecisionRecord → Result (Option DecisionRecord)
or_skip (ok rec) = ok (some rec)
or_skip (err Fault.key_error) = ok none
or_skip (err e) = err e

unfoldable pub read_line : Line → Result (Option DecisionRecord)
read_line blank = ok none
read_line broken = ok none
read_line (holds v) = or_skip (dict_to_record v)

abbrev pub add_record : Option DecisionRecord → List DecisionRecord → List DecisionRecord
add_record none rs = rs
add_record (some rec) rs = rec ∷ rs

unfoldable pub read_lines : List Line → Result (List DecisionRecord)
read_lines [] = ok []
read_lines (l ∷ ls) = read_line l >>= λ one. read_lines ls >>= λ rs. ok (add_record one rs)

-- `read_decisions`
unfoldable pub read_decisions : File → Result (List DecisionRecord)
read_decisions none = ok []
read_decisions (some ls) = read_lines ls

abbrev pub is_pending : DecisionRecord → Bool
is_pending rec = is_the_text "pending" rec.status

-- `read_pending_decisions`
unfoldable pub read_pending_decisions : File → Result (List DecisionRecord)
read_pending_decisions f = read_decisions f >>= λ rs. ok (keep is_pending rs)

-- The test of the loop in `answer_decision`.
abbrev pub waits_for : String → DecisionRecord → Bool
waits_for id rec = is_the_text id rec.id && is_pending rec

unfoldable pub answered_by : Reply → DecisionRecord → DecisionRecord
answered_by q rec = record rec {
  status = str "answered";
  answer = str q.answer;
  answered_via = str q.answered_via;
  answered_at = str q.now;
}

abbrev pub pushed :
    DecisionRecord
    → Option (DecisionRecord × List DecisionRecord)
    → Option (DecisionRecord × List DecisionRecord)
pushed rec none = none
pushed rec (some (target, rs)) = some (target, rec ∷ rs)

-- The loop over the records, up to its `break`.
unfoldable pub answer_first :
    Reply → List DecisionRecord → Option (DecisionRecord × List DecisionRecord)
answer_first q [] = none
answer_first q (rec ∷ rs) =
    let later = answer_first q rs in
    if waits_for q.decision_id rec
    then some (answered_by q rec, answered_by q rec ∷ rs)
    else pushed rec later

unfoldable pub rewritten :
    List Line → Option (DecisionRecord × List DecisionRecord) → Option DecisionRecord × File
rewritten ls none = (none, some ls)
rewritten ls (some (target, rs)) = (some target, some (map line_of rs))

-- `answer_decision`
unfoldable pub answer_decision : Reply → File → Result (Option DecisionRecord × File)
answer_decision q none = ok (none, none)
answer_decision q (some ls) = read_lines ls >>= λ rs. ok (rewritten ls (answer_first q rs))
