-- ===== src/Guard/Repeated.antt =====
-- driftdriver/drift_task_guard.py: `escalate_repeated_findings`.
use Prim.Native.Char.{code}
use driftdriver.Base.{
  ℕ, zero, suc, String, ◌≡◌, refl, Bool, true, false, not, ◌&&◌, ◌||◌, Option, none, some, List, [],
  ◌∷◌, is_empty, strip, concat, leb, ◌=?◌, ◌==◌, if◌then◌else◌,
}
use driftdriver.Base.Value.{
  Value, str, int, dict, Fields, ℤ, pos, negsuc, Result, ok, err, ◌>>=◌ as ◌and_then◌, Fault, get,
  get_or, or_else, to_int, is_the_text,
}
use driftdriver.Base.Platform.{Platform, str_of}
use driftdriver.Base.Act.{return, ◌>>=◌}
use driftdriver.Guard.Add.{Finding, Inputs, Books, guarded_add_drift_task}

-- A lane with the key of a finding, and how often it was ignored.
pub record Ignored : Type 0 where
  pub lane : String
  pub finding_key : String
  pub count : ℕ

abbrev pub LaneKey : Type 0
LaneKey = String × String

abbrev pub key_text : Platform → String → Fields → String
key_text p k row = strip (str_of p (get_or k (str "") row))

-- The pair that a row counts for; a row that is no dictionary has no `get`.
unfoldable pub ignored_pair : Platform → Value → Result (Option LaneKey)
ignored_pair p (dict row) =
    let lane = key_text p "lane" row in
    let key = key_text p "finding_key" row in
    ok (
      if is_the_text "ignored" (get "outcome" row) && not (is_empty lane || is_empty key)
      then some (lane, key)
      else none)
ignored_pair p v = err Fault.attribute_error

abbrev pub with_pair : Option LaneKey → List LaneKey → List LaneKey
with_pair none pairs = pairs
with_pair (some pair) pairs = pair ∷ pairs

-- The pairs of the ledger's lines; `none` is a line that is blank or no JSON.
unfoldable pub ignored_pairs : Platform → List (Option Value) → Result (List LaneKey)
ignored_pairs p [] = ok []
ignored_pairs p (none ∷ lines) = ignored_pairs p lines
ignored_pairs p (some row ∷ lines) = ignored_pair p row and_then λ pair.
    ignored_pairs p lines and_then λ pairs. ok (with_pair pair pairs)

abbrev pub is_pair : LaneKey → Ignored → Bool
is_pair pair row = row.lane == pair.0 && row.finding_key == pair.1

-- `ignored_counts[(lane, fkey)] = ignored_counts.get((lane, fkey), 0) + 1`
unfoldable pub count_ignored : LaneKey → List Ignored → List Ignored
count_ignored pair [] = record { lane = pair.0; finding_key = pair.1; count = 1 } ∷ []
count_ignored pair (row ∷ rows) =
    let others = count_ignored pair rows in
    if is_pair pair row then record row { count = suc row.count } ∷ rows else row ∷ others

unfoldable pub ignored_counts : List LaneKey → List Ignored → List Ignored
ignored_counts [] rows = rows
ignored_counts (pair ∷ pairs) rows = ignored_counts pairs (count_ignored pair rows)

-- A character of `[a-zA-Z0-9_-]`
abbrev is_safe : ℕ → Bool
is_safe n =
    leb 97 n && leb n 122 || leb 65 n && leb n 90 || leb 48 n && leb n 57 || n =? 95 || n =? 45

-- `re.sub(r"[^a-zA-Z0-9_-]+", "-", text)`; `replaced` says that the run has its dash.
unfoldable pub dashed : Bool → String → String
dashed replaced String.[] = String.[]
dashed replaced (String.◌∷◌ c s) =
    let inside = dashed true s in
    let outside = dashed false s in
    if is_safe (code c)
    then String.◌∷◌ c outside
    else if replaced
    then inside
    else String.◌∷◌ "-" inside

unfoldable pub left_dashes : String → String
left_dashes String.[] = String.[]
left_dashes (String.◌∷◌ c s) = if code c =? 45 then left_dashes s else String.◌∷◌ c s

unfoldable pub right_dashes : String → String
right_dashes String.[] = String.[]
right_dashes (String.◌∷◌ c s) =
    let rest = right_dashes s in
    if code c =? 45 && is_empty rest then String.[] else String.◌∷◌ c rest

-- `_safe`
unfoldable pub safe_text : String → String
safe_text text = right_dashes (left_dashes (dashed false text))

-- The arguments of the task for a row.
unfoldable pub escalation_of : Platform → ℕ → String → Ignored → Finding
escalation_of p threshold prefix row =
    let shown = λ (n : ℕ). str_of p (int (pos n)) in
    record {
      task_id = concat (prefix ∷ "-" ∷ safe_text row.lane ∷ "-" ∷ safe_text row.finding_key ∷ []);
      title = concat (
          "escalate: "
          ∷ row.lane
          ∷ " finding '"
          ∷ row.finding_key
          ∷ "' ignored "
          ∷ shown row.count
          ∷ "x"
          ∷ []);
      description = concat (
          "Drift lane `"
          ∷ row.lane
          ∷ "` has flagged finding `"
          ∷ row.finding_key
          ∷ "` and it has been classified 'ignored' "
          ∷ shown row.count
          ∷ " times (escalation threshold="
          ∷ shown threshold
          ∷ "). This task surfaces it as actionable work so it stops accumulating silently in the "
          ∷ "outcome ledger. Decide: resolve the drift, suppress the finding explicitly, or accept it "
          ∷ "with a recorded reason."
          ∷ []);
      lane_tag = row.lane;
      extra_tags = "escalation" ∷ [];
      after = "";
    }

-- The rows that reach the threshold.
unfoldable pub ignored_often : ℕ → List Ignored → List Ignored
ignored_often threshold [] = []
ignored_often threshold (row ∷ rows) =
    let others = ignored_often threshold rows in
    if leb threshold row.count then row ∷ others else others

abbrev pub if_created : String → String → List String → List String
if_created result id ids = if result == "created" then id ∷ ids else ids

-- The loop over them: call number `k` meets the clock and the inputs `at k`.
unfoldable pub escalate_each :
    Platform
    → (ℕ → ℕ × Inputs)
    → ℕ
    → String
    → ℕ
    → List Ignored
    → Books
    → Books × Result (List String)
escalate_each p at threshold prefix k [] b = (b, ok [])
escalate_each p at threshold prefix k (row ∷ rows) b =
    let f = escalation_of p threshold prefix row in
    (guarded_add_drift_task p (at k).0 (at k).1 none f >>= λ result.
    escalate_each p at threshold prefix (suc k) rows >>= λ ids.
    return (if_created result f.task_id ids))
      b

abbrev or_escalate : String → String
or_escalate s = if is_empty s then "escalate" else s

-- `str(cfg.get(...) or "escalate").strip() or "escalate"`
unfoldable pub task_prefix : Platform → Fields → String
task_prefix p cfg = or_escalate (
    strip
      (str_of p (or_else (get_or "escalate_task_prefix" (str "escalate") cfg) (str "escalate"))))

unfoldable pub escalate_pairs :
    Platform
    → (ℕ → ℕ × Inputs)
    → ℕ
    → Fields
    → Result (List LaneKey)
    → Books
    → Books × Result (List String)
escalate_pairs p at threshold cfg (err e) b = (b, err e)
escalate_pairs p at threshold cfg (ok pairs) b =
    escalate_each p at threshold (task_prefix p cfg) 0
      (ignored_often threshold (ignored_counts pairs [])) b

unfoldable pub escalate_above :
    Platform
    → (ℕ → ℕ × Inputs)
    → Fields
    → Option (Result (List (Option Value)))
    → Result ℤ
    → Books
    → Books × Result (List String)
escalate_above p at cfg lines (err e) b = (b, err e)
escalate_above p at cfg lines (ok (negsuc n)) b = (b, ok [])
escalate_above p at cfg lines (ok (pos zero)) b = (b, ok [])
escalate_above p at cfg none (ok (pos (suc n))) b = (b, ok [])
escalate_above p at cfg (some (err e)) (ok (pos (suc n))) b = (b, err e)
escalate_above p at cfg (some (ok lines)) (ok (pos (suc n))) b =
    escalate_pairs p at (suc n) cfg (ignored_pairs p lines) b

-- `escalate_repeated_findings`, for the ledger's lines: `none` where it is missing or the system does not
-- read it, and an exception where it is no UTF-8
unfoldable pub escalate_repeated_findings :
    Platform
    → (ℕ → ℕ × Inputs)
    → Fields
    → Option (Result (List (Option Value)))
    → Books
    → Books × Result (List String)
escalate_repeated_findings p at cfg lines b =
    escalate_above p at cfg lines (to_int (get_or "escalate_after_ignores" (int (pos 3)) cfg)) b

safe_text_test : safe_text "/src/a b.py!" ≡ "src-a-b-py"
unfolding safe_text dashed left_dashes right_dashes
safe_text_test = refl
