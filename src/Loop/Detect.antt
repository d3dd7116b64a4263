-- ===== src/Loop/Detect.antt =====
-- driftdriver/loop_detection.py. The state file is missing or a list of lines; SHA-256 is a parameter.
use driftdriver.Base.{
  ℕ, suc, String, Bool, false, Option, none, some, List, [], ◌∷◌, ◌++◌, concat, is_empty, prefix,
  strip, leb, ltb, count_if, ◌==◌, if◌then◌else◌,
}

-- The text that `suggest_alternative` returns, by its parts.
pub data Suggestion : Type 0 where
  no_suggestion : Suggestion
  repeated : String → Suggestion
  repeated_times : String → ℕ → Suggestion

pub record LoopDetection : Type 0 where
  pub detected : Bool
  pub pattern : String
  pub occurrences : ℕ
  pub suggestion : Suggestion

-- `fingerprint_action`
unfoldable pub fingerprint_action : (String → String) → String → String → String
fingerprint_action sha256 tool_name tool_input_hash =
    prefix 16 (sha256 (concat (tool_name ∷ ":" ∷ tool_input_hash ∷ [])))

-- `record_action`; `open("a")` makes a file that is missing.
unfoldable pub record_action : String → Option (List String) → Option (List String)
record_action fingerprint none = some (fingerprint ∷ [])
record_action fingerprint (some lines) = some (lines ++ (fingerprint ∷ []))

-- `[l.strip() for l in lines if l.strip()]`
unfoldable pub stripped : List String → List String
stripped [] = []
stripped (line ∷ lines) =
    let rest = stripped lines in if is_empty (strip line) then rest else strip line ∷ rest

-- `Counter`: the counts in the order in which their keys came first.
unfoldable pub count_one : String → List (String × ℕ) → List (String × ℕ)
count_one s [] = (s, 1) ∷ []
count_one s ((k, n) ∷ table) =
    let rest = count_one s table in if k == s then (k, suc n) ∷ table else (k, n) ∷ rest

unfoldable pub count_all : List String → List (String × ℕ) → List (String × ℕ)
count_all [] table = table
count_all (s ∷ ss) table = count_all ss (count_one s table)

-- The first entry with the greatest count, beginning with an entry.
unfoldable pub greatest : String × ℕ → List (String × ℕ) → String × ℕ
greatest best [] = best
greatest best (entry ∷ table) = greatest (if ltb best.1 entry.1 then entry else best) table

-- `counts.most_common(1)[0]`
unfoldable pub most_common : List (String × ℕ) → String × ℕ
most_common [] = ("", 0)
most_common (entry ∷ table) = greatest entry table

abbrev pub occurrences_of : String → List String → ℕ
occurrences_of s lines = count_if (λ l. l == s) lines

-- `suggest_alternative`
unfoldable pub suggest_alternative : String → List String → Suggestion
suggest_alternative pattern recent =
    let count = occurrences_of pattern recent in
    if ltb 1 count then repeated_times pattern count else repeated pattern

abbrev pub nothing_found : LoopDetection
nothing_found = record {
  detected = false;
  pattern = "";
  occurrences = 0;
  suggestion = no_suggestion;
}

unfoldable pub found_in : ℕ → List String → String × ℕ → LoopDetection
found_in threshold lines (pattern, n) = record {
  detected = leb threshold n;
  pattern = pattern;
  occurrences = n;
  suggestion = if leb threshold n then suggest_alternative pattern lines else no_suggestion;
}

unfoldable pub detect_among : ℕ → List String → LoopDetection
detect_among threshold [] = nothing_found
detect_among threshold (l ∷ lines) =
    found_in threshold (l ∷ lines) (most_common (count_all (l ∷ lines) []))

-- `detect_loop`
unfoldable pub detect_loop : ℕ → Option (List String) → LoopDetection
detect_loop threshold none = nothing_found
detect_loop threshold (some lines) = detect_among threshold (stripped lines)
