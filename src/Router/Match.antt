-- ===== src/Router/Match.antt =====
-- driftdriver/task_router.py and driftdriver/manual_owner.py: the patterns of tags, the owner of a task,
-- and the executors that match. The executors stand in the order of their dictionary.
use driftdriver.Base.{
  String, Bool, true, false, ◌||◌, Option, none, some, [], ◌∷◌, is_empty, strip, starts_with,
  concat, ◌==◌, if◌then◌else◌,
}
use driftdriver.Base.Value.{
  Value, str, list, Values, nil, cons, Fields, Fault, Result, ok, err, ◌>>=◌, get, get_or, truthy,
}
use driftdriver.Budget.Policy.{Dict}
use driftdriver.Directive.Command.{each}

-- `ExecutorConfig`
pub record ExecutorConfig : Type 0 where
  pub name : String
  pub kind : String
  pub endpoint : String
  pub tag_match : String

pub record RoutingConfig : Type 0 where
  pub enabled : Bool
  pub default_executor : String
  pub executors : Dict ExecutorConfig

abbrev put_first : String → Option String → Option String
put_first c none = none
put_first c (some s) = some (concat (c ∷ s ∷ []))

-- `pattern[:-1]`, if the pattern ends in ":*"
unfoldable pub wildcard : String → Option String
wildcard String.[] = none
wildcard (String.◌∷◌ c s) =
    let rest = put_first (String.◌∷◌ c String.[]) (wildcard s) in
    if String.◌∷◌ c s == ":*" then some ":" else rest

-- `_tag_matches`, which both files hold
unfoldable pub tag_matches : String → String → Bool
tag_matches tag pattern = elim (wildcard pattern) [
  | some start ↦ starts_with tag start
  | none ↦ tag == pattern
]

-- A tag that is no text has no `startswith`, and equals no text.
unfoldable pub value_matches : Value → String → Result Bool
value_matches (str tag) pattern = ok (tag_matches tag pattern)
value_matches _ pattern = elim (wildcard pattern) [
  | some start ↦ err Fault.attribute_error
  | none ↦ ok false
]

filled : String → Option String
filled s = if is_empty s then none else some s

-- `_task_owner` and `task_owner`
unfoldable pub task_owner : Fields → Option String
unfolding filled
task_owner task = elim (get "agent" task) [ str owner ↦ filled (strip owner) | _ ↦ none ]

abbrev pub owner_tag : String → String
owner_tag owner = concat ("agent:" ∷ owner ∷ [])

-- `_match_executor_for_owner`
unfoldable pub match_executor_for_owner : String → Dict ExecutorConfig → Option ExecutorConfig
match_executor_for_owner owner [] = none
match_executor_for_owner owner ((name, executor) ∷ rest) =
    if tag_matches (owner_tag owner) executor.tag_match
    then some executor
    else match_executor_for_owner owner rest

-- The inner loop over the tags.
unfoldable pub any_tag : Values → String → Result Bool
any_tag nil pattern = ok false
any_tag (cons tag tags) pattern =
    value_matches tag pattern >>= λ found. (if found then ok true else any_tag tags pattern)

-- The outer loop over the executors; the inner one takes the tags anew in every turn.
unfoldable pub match_tags : Value → Dict ExecutorConfig → Result (Option ExecutorConfig)
match_tags tags [] = ok none
match_tags tags ((name, executor) ∷ rest) = each tags >>= λ vs.
    any_tag vs executor.tag_match >>= λ found.
    (if found then ok (some executor) else match_tags tags rest)

-- `match_executor`
unfoldable pub match_executor : Fields → RoutingConfig → Result (Option ExecutorConfig)
match_executor task config = elim (task_owner task) [
  | some owner ↦ ok (match_executor_for_owner owner config.executors)
  | none ↦
      if truthy (get_or "tags" (list nil) task)
      then match_tags (get_or "tags" (list nil) task) config.executors
      else ok none
]

-- `owner_has_executor`, over a configuration that is given
unfoldable pub owner_has_executor : String → Dict ExecutorConfig → Bool
owner_has_executor owner [] = false
owner_has_executor owner ((name, executor) ∷ rest) =
    tag_matches (owner_tag owner) executor.tag_match || owner_has_executor owner rest
