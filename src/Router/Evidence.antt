-- ===== src/Router/Evidence.antt =====
-- driftdriver/task_router.py: `_completion_failure_reason` and the evidence of a delivery.
use driftdriver.Base.{
  String, Bool, true, false, not, ◌&&◌, ◌||◌, Option, none, some, List, [], ◌∷◌, is_in, any, prefix,
  if◌then◌else◌,
}
use driftdriver.Base.Value.{
  Value, list, dict, Values, nil, cons, Fields, Result, ok, ◌>>=◌, truthy, get, get_or,
}
use driftdriver.Base.Platform.{Platform, str_of}
use driftdriver.Directive.Command.{each}

-- `_task_tags`
unfoldable pub task_tags : Platform → Values → List String
task_tags p nil = []
task_tags p (cons v vs) = str_of p v ∷ task_tags p vs

abbrev pub meets : List String → List String → Bool
meets wanted tags = any (λ s. is_in s tags) wanted

-- `_requires_delivery_evidence`
unfoldable pub requires_delivery_evidence : Platform → Fields → Result Bool
requires_delivery_evidence p task = each (get_or "tags" (list nil) task) >>= λ vs. ok (
    meets ("media" ∷ "medium:image" ∷ "medium:video" ∷ "delivery:scheduled" ∷ []) (task_tags p vs)
    && meets ("media" ∷ "medium:image" ∷ "medium:video" ∷ []) (task_tags p vs))

abbrev some_items : Value → Bool
some_items (list (cons v vs)) = true
some_items _ = false

abbrev pub evidence_keys : List String
evidence_keys =
    "artifacts" ∷ "files_changed" ∷ "message_to_user" ∷ "delivery" ∷ "delivered" ∷ "completion_ref"
    ∷ "result_url" ∷ "asset_id" ∷ "asset_ids" ∷ []

abbrev packet_evidence : Value → Bool
packet_evidence (dict packet) = any (λ k. truthy (get k packet)) evidence_keys
packet_evidence _ = false

-- `_has_delivery_evidence`
unfoldable pub has_delivery_evidence : Fields → Bool
has_delivery_evidence answer =
    some_items (get "artifacts" answer) || packet_evidence (get "handoff_packet" answer)

abbrev verification_of : Value → Value
verification_of (dict packet) = get "verification" packet
verification_of _ = Value.null

abbrev error_of : Value → Value
error_of (dict verification) = get "error" verification
error_of _ = Value.null

-- `packet["verification"]["error"]`, where they are there
abbrev pub verification_error : Fields → Value
verification_error answer = error_of (verification_of (get "handoff_packet" answer))

-- `_completion_failure_reason`
unfoldable pub completion_failure_reason : Platform → Fields → Fields → Result (Option String)
completion_failure_reason p task answer =
    if truthy (get "error" answer)
    then ok (some (prefix 500 (str_of p (get "error" answer))))
    else if truthy (verification_error answer)
    then ok (some (prefix 500 (str_of p (verification_error answer))))
    else requires_delivery_evidence p task >>= λ required. ok (
        if required && not (has_delivery_evidence answer)
        then some "Agent reported done for a media delivery task with missing delivery evidence"
        else none)
