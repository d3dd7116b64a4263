-- ===== src/Directive/Schema.antt =====
-- driftdriver/directive_schemas.py: the schema of each action and `validate_params`.
use Prim.Native.Nat.{Ordering}
use Prim.Native.String.{compare}
use driftdriver.Base.{
  String, Bool, true, false, not, Option, none, some, List, [], ◌∷◌, ◌++◌, ◌==◌, is_empty, is_in,
  strip, keep, if◌then◌else◌,
}
use driftdriver.Base.Value.{
  Value, null, bool, int, real, str, list, dict, Fields, field, end, get?, keys, all_text,
}
use driftdriver.Directive.Action.{
  Action, create_task, claim_task, complete_task, fail_task, start_service, stop_service,
  log_to_task, evolve_prompt, dispatch_to_peer, block_task, create_validation, create_upstream_pr,
  abandon_task, reschedule_task,
}

-- The type names `"string"`, `"number"` and `"list[string]"`.
pub data FieldType : Type 0 where
  string number string_list : FieldType

-- `FieldSpec`, with its name
pub record FieldSpec : Type 0 where
  pub name : String
  pub type_name : FieldType
  pub required : Bool

abbrev need : String → FieldSpec
need name = record { name = name; type_name = string; required = true }

abbrev allow : String → FieldType → FieldSpec
allow name type_name = record { name = name; type_name = type_name; required = false }

-- `ALL_SCHEMAS[action].fields`
unfoldable pub schema : Action → List FieldSpec
schema create_task =
    need "task_id"
    ∷ need "title"
    ∷ allow "description" string
    ∷ allow "tags" string_list
    ∷ allow "after" string_list
    ∷ allow "assign" string
    ∷ allow "model" string
    ∷ []
schema claim_task = need "task_id" ∷ allow "agent" string ∷ []
schema complete_task = need "task_id" ∷ allow "artifacts" string_list ∷ []
schema fail_task = need "task_id" ∷ allow "reason" string ∷ []
schema start_service = need "repo" ∷ []
schema stop_service = need "repo" ∷ []
schema log_to_task = need "task_id" ∷ need "message" ∷ []
schema evolve_prompt = []
schema dispatch_to_peer = need "repo" ∷ need "task_id" ∷ []
schema block_task = need "task_id" ∷ []
schema create_validation = need "parent_task_id" ∷ allow "criteria" string ∷ []
schema create_upstream_pr =
    allow "repo" string
    ∷ allow "title" string
    ∷ allow "body" string
    ∷ allow "base" string
    ∷ allow "head" string
    ∷ []
schema abandon_task = need "task_id" ∷ []
schema reschedule_task = need "task_id" ∷ allow "after_hours" number ∷ []

-- `_type_matches`
unfoldable pub type_matches : Value → FieldType → Bool
type_matches (str s) string = true
type_matches (int n) number = true
type_matches (real r) number = true
type_matches (list vs) string_list = all_text vs
type_matches _ _ = false

-- `type(value).__name__`
unfoldable pub type_name : Value → String
type_name null = "NoneType"
type_name (bool b) = "bool"
type_name (int n) = "int"
type_name (real r) = "float"
type_name (str s) = "str"
type_name (list vs) = "list"
type_name (dict d) = "dict"

pub data Issue : Type 0 where
  missing_required_field empty_required_field : Issue
  invalid_type : String → Issue

pub record Violation : Type 0 where
  pub field_name : String
  pub issue : Issue

-- `isinstance(value, str) and not value.strip()`
abbrev pub is_blank : Value → Bool
is_blank (str s) = is_empty (strip s)
is_blank _ = false

unfoldable pub required_issue : String → Option Value → List Violation
required_issue name none = record { field_name = name; issue = missing_required_field } ∷ []
required_issue name (some v) =
    if is_blank v then record { field_name = name; issue = empty_required_field } ∷ [] else []

-- The loop over `schema.required_fields`.
unfoldable pub required_violations : List FieldSpec → Fields → List Violation
unfolding required_issue
required_violations [] params = []
required_violations (s ∷ specs) params =
    if s.required
    then required_issue s.name (get? s.name params) ++ required_violations specs params
    else required_violations specs params

-- `schema.fields.get(name)`
unfoldable pub spec_of : String → List FieldSpec → Option FieldSpec
spec_of name [] = none
spec_of name (s ∷ specs) = if s.name == name then some s else spec_of name specs

type_issue : String → Value → Option FieldSpec → List Violation
type_issue name v none = []
type_issue name v (some s) =
    if type_matches v s.type_name
    then []
    else record { field_name = name; issue = invalid_type (type_name v) } ∷ []

-- The loop over `params.items()`.
unfoldable pub type_violations : List FieldSpec → Fields → List Violation
unfolding type_issue
type_violations specs end = []
type_violations specs (field name v rest) =
    type_issue name v (spec_of name specs) ++ type_violations specs rest

is_before : String → String → Bool
is_before s t = elim (compare s t) [ Ordering.gt ↦ false | _ ↦ true ]

unfoldable pub place : String → List String → List String
unfolding is_before
place s [] = s ∷ []
place s (t ∷ ts) = if is_before s t then s ∷ t ∷ ts else t ∷ place s ts

-- `sorted(names)`
unfoldable pub sorted : List String → List String
unfolding place
sorted [] = []
sorted (s ∷ ss) = place s (sorted ss)

abbrev pub names : List FieldSpec → List String
names [] = []
names (s ∷ specs) = s.name ∷ names specs

-- `sorted(set(params) - set(schema.fields))`
unfoldable pub unknown_fields : List FieldSpec → Fields → List String
unknown_fields specs params = sorted (keep (λ k. not (is_in k (names specs))) (keys params))

-- What `DirectiveValidationError` carries.
pub record Invalid : Type 0 where
  pub violations : List Violation
  pub unknown : List String

abbrev pub is_none_left : List Violation → List String → Bool
is_none_left [] [] = true
is_none_left _ _ = false

-- `validate_params`; `none` is a return with no exception.
unfoldable pub validate_params : Action → Value → Option Invalid
validate_params action (dict params) =
    let violations =
      required_violations (schema action) params ++ type_violations (schema action) params in
    let unknown = unknown_fields (schema action) params in
    if is_none_left violations unknown
    then none
    else some (record { violations = violations; unknown = unknown })
validate_params action params = some (record {
  violations = record { field_name = "params"; issue = invalid_type (type_name params) } ∷ [];
  unknown = [];
})
