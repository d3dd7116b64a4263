-- ===== src/Guard/Findings.antt =====
-- driftdriver/drift_task_guard.py: `record_finding_ledger`.
use driftdriver.Base.{
  String, Option, none, some, List, [], ◌∷◌, ◌++◌, is_empty, prefix, if◌then◌else◌,
}
use driftdriver.Base.Value.{str, Fields, field, end}

-- The keyword arguments, with the instant that the call takes.
pub record FindingNote : Type 0 where
  pub timestamp : String
  pub repo : String
  pub lane : String
  pub finding_type : String
  pub task_id : String
  pub result : String
  pub severity : String
  pub message : String

abbrev unless_empty : String → String → String → Fields → Fields
unless_empty key text shown rest = if is_empty text then rest else field key (str shown) rest

unfoldable pub finding_entry : FindingNote → Fields
finding_entry n = field "timestamp" (str n.timestamp) (
    field "repo" (str n.repo) (
      field "lane" (str n.lane) (
        field "finding_type" (str n.finding_type) (
          field "task_id" (str n.task_id) (
            field "result" (str n.result) (
              unless_empty "severity" n.severity n.severity
                (unless_empty "message" n.message (prefix 200 n.message) end)))))))

-- `record_finding_ledger`; `none` is a ledger that cannot be written, which goes unnoticed.
unfoldable pub record_finding_ledger : FindingNote → Option (List Fields) → Option (List Fields)
record_finding_ledger n none = none
record_finding_ledger n (some ledger) = some (ledger ++ (finding_entry n ∷ []))
