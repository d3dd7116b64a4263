-- ===== src/Directive/Log.antt =====
-- driftdriver/directives.py: `DirectiveLog`. Each file is the list of the records in its lines.
use driftdriver.Base.{String, Bool, not, ◌||◌, Option, List, [], ◌∷◌, ◌++◌, map, keep, is_in}
use driftdriver.Base.Value.{ℤ}
use driftdriver.Directive.Action.{Directive}

pub record Completion : Type 0 where
  pub directive_id : String
  pub exit_code : ℤ
  pub output : String
  pub completed_at : String

-- A failure with the directive, and the keys of `details` that classify it.
pub record Failure : Type 0 where
  pub directive_id : String
  pub exit_code : ℤ
  pub error : String
  pub failed_at : String
  pub directive : Option Directive
  pub error_code : String
  pub retryable : Option Bool
  pub repairable : Bool

pub record DirectiveLog : Type 0 where
  pub pending : List Directive
  pub completed : List Completion
  pub failed : List Failure

-- `append`
unfoldable pub append : Directive → DirectiveLog → DirectiveLog
append d log = record log { pending = log.pending ++ d ∷ [] }

-- `mark_completed`
unfoldable pub mark_completed : Completion → DirectiveLog → DirectiveLog
mark_completed c log = record log { completed = log.completed ++ c ∷ [] }

-- `mark_failed`
unfoldable pub mark_failed : Failure → DirectiveLog → DirectiveLog
mark_failed f log = record log { failed = log.failed ++ f ∷ [] }

abbrev pub completed_ids : DirectiveLog → List String
completed_ids log = map (λ c. c.directive_id) log.completed

abbrev pub failed_ids : DirectiveLog → List String
failed_ids log = map (λ f. f.directive_id) log.failed

-- `d.id in done_ids`
unfoldable pub is_done : DirectiveLog → String → Bool
is_done log id = is_in id (completed_ids log) || is_in id (failed_ids log)

-- `read_pending`
unfoldable pub read_pending : DirectiveLog → List Directive
read_pending log = keep (λ d. not (is_done log d.id)) log.pending
