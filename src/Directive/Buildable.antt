-- ===== src/Directive/Buildable.antt =====
-- driftdriver/executor_shim.py and driftdriver/directive_schemas.py: `_build_command` on valid
-- parameters.
use driftdriver.Base.{
  String, ◌≡◌, refl, ap, inl, inr, true, false, Option, none, some, some_injective, List, ◌==◌,
  eq_iff, Bool-cases,
}
use driftdriver.Base.Value.{
  Value, list, dict, Values, nil, Fields, field, end, Fault, Result, ok, err, ◌>>=◌, get?, get_or,
}
use driftdriver.Base.Platform.{Platform}
use driftdriver.Directive.Action.{
  Action, create_task, claim_task, complete_task, fail_task, start_service, stop_service,
  log_to_task, evolve_prompt, dispatch_to_peer, block_task, create_validation, create_upstream_pr,
  abandon_task, reschedule_task,
}
use driftdriver.Directive.Schema.{
  string_list, FieldSpec, schema, type_matches, spec_of, is_blank, validate_params,
}
use driftdriver.Directive.Command.{Command, item, each, repeated, build_command}
use driftdriver.Directive.Valid.{AllRequired, AllTyped, validate_params_iff}

-- A field that the schema types, if it is there, has that type.
typed_field :
    (specs : List FieldSpec) (p : Fields) (name : String) (s : FieldSpec) {v : Value}
    → AllTyped specs p
    → get? name p ≡ some v
    → spec_of name specs ≡ some s
    → type_matches v s.type_name ≡ true
unfolding get?
typed_field specs end name s t e h = cc
typed_field specs (field j w rest) name s {v} t e h = elim (Bool-cases (j == name)) [
  | inl same ↦
      let here : type_matches w s.type_name ≡ true = t.0 s (rw ((eq_iff j name).0 same) h) in
      let it : w ≡ v = some_injective (rw same at e) in rw it at here
  | inr other ↦ typed_field specs rest name s t.1 (rw other at e) h
]

each-list : (v : Value) → type_matches v string_list ≡ true → (vs : Values) × (each v ≡ ok vs)
unfolding each type_matches
each-list (list vs) h = (vs, refl)
each-list _ h = cc

-- The result is a value.
abbrev pub Succeeds {ℓ} : {A : Type ℓ} → Result A → Type ℓ
Succeeds {A} m = (a : A) × (m ≡ ok a)

>>=-Succeeds {ℓ κ} :
    {A : Type ℓ} {B : Type κ} (m : Result A) (f : A → Result B)
    → Succeeds m
    → ((a : A) → Succeeds (f a))
    → Succeeds (m >>= f)
>>=-Succeeds (ok a) f h k = k a
>>=-Succeeds (err e) f (a, h) k = cc

item-Succeeds :
    (key : String) (p : Fields)
    → (v : Value) × (get? key p ≡ some v) × (is_blank v ≡ false)
    → Succeeds (item key p)
unfolding item
item-Succeeds key p (v, e, b) =
    (v, ap (λ (o : Option Value). elim o [ none ↦ err Fault.key_error | some w ↦ ok w ]) e)

each_of :
    (o : Option Value)
    → ((v : Value) → o ≡ some v → type_matches v string_list ≡ true)
    → (vs : Values) × (each (elim o [ none ↦ list nil | some v ↦ v ]) ≡ ok vs)
unfolding each
each_of none h = (nil, refl)
each_of (some v) h = each-list v (h v refl)

repeated-Succeeds :
    (specs : List FieldSpec) (p : Fields) (flag key : String) (s : FieldSpec)
    → AllTyped specs p
    → spec_of key specs ≡ some s
    → s.type_name ≡ string_list
    → Succeeds (repeated flag key p)
unfolding repeated
repeated-Succeeds specs p flag key s t h l =
    let (vs, e) = each_of (get? key p) (λ v e. rw l at (typed_field specs p key s t e h)) in
    >>=-Succeeds (each (get_or key (list nil) p)) _ (vs, e) (λ vs. (_, refl))

pub build_command-Succeeds :
    (pl : Platform) (wg_dir : String) (a : Action) (p : Fields)
    → AllRequired (schema a) p
    → AllTyped (schema a) p
    → Succeeds (build_command pl wg_dir a p)
unfolding build_command schema spec_of
build_command-Succeeds pl wg_dir create_task p r t =
    >>=-Succeeds (item "title" p) _ (item-Succeeds "title" p (r.1.0 refl)) (λ x0.
      >>=-Succeeds (item "task_id" p) _ (item-Succeeds "task_id" p (r.0 refl)) (λ x1.
        >>=-Succeeds (repeated "-t" "tags" p) _
          (repeated-Succeeds (schema create_task) p "-t" "tags" _ t refl refl)
          (λ x2.
            >>=-Succeeds (repeated "--after" "after" p) _
              (repeated-Succeeds (schema create_task) p "--after" "after" _ t refl refl)
              (λ x3. (_, refl)))))
build_command-Succeeds pl wg_dir complete_task p r t =
    >>=-Succeeds (item "task_id" p) _ (item-Succeeds "task_id" p (r.0 refl)) (λ x0.
      >>=-Succeeds (repeated "--artifact" "artifacts" p) _
        (repeated-Succeeds (schema complete_task) p "--artifact" "artifacts" _ t refl refl)
        (λ x1. (_, refl)))
build_command-Succeeds pl wg_dir log_to_task p r t =
    >>=-Succeeds (item "task_id" p) _ (item-Succeeds "task_id" p (r.0 refl)) (λ x0.
      >>=-Succeeds (item "message" p) _ (item-Succeeds "message" p (r.1.0 refl)) (λ x1. (_, refl)))
build_command-Succeeds pl wg_dir dispatch_to_peer p r t =
    >>=-Succeeds (item "repo" p) _ (item-Succeeds "repo" p (r.0 refl)) (λ x0.
      >>=-Succeeds (item "task_id" p) _ (item-Succeeds "task_id" p (r.1.0 refl)) (λ x1. (_, refl)))
build_command-Succeeds pl wg_dir create_validation p r t =
    >>=-Succeeds (item "parent_task_id" p) _ (item-Succeeds "parent_task_id" p (r.0 refl))
      (λ x0. (_, refl))
build_command-Succeeds pl wg_dir claim_task p r t =
    >>=-Succeeds (item "task_id" p) _ (item-Succeeds "task_id" p (r.0 refl)) (λ x0. (_, refl))
build_command-Succeeds pl wg_dir fail_task p r t =
    >>=-Succeeds (item "task_id" p) _ (item-Succeeds "task_id" p (r.0 refl)) (λ x0. (_, refl))
build_command-Succeeds pl wg_dir block_task p r t =
    >>=-Succeeds (item "task_id" p) _ (item-Succeeds "task_id" p (r.0 refl)) (λ x0. (_, refl))
build_command-Succeeds pl wg_dir abandon_task p r t =
    >>=-Succeeds (item "task_id" p) _ (item-Succeeds "task_id" p (r.0 refl)) (λ x0. (_, refl))
build_command-Succeeds pl wg_dir reschedule_task p r t =
    >>=-Succeeds (item "task_id" p) _ (item-Succeeds "task_id" p (r.0 refl)) (λ x0. (_, refl))
build_command-Succeeds pl wg_dir start_service p r t = (_, refl)
build_command-Succeeds pl wg_dir stop_service p r t = (_, refl)
build_command-Succeeds pl wg_dir evolve_prompt p r t = (_, refl)
build_command-Succeeds pl wg_dir create_upstream_pr p r t = (_, refl)

-- For every action, parameters that `validate_params` accepts give a command: no key that is missing and
-- no value that cannot be walked is met on the way.
pub build_command_total :
    (pl : Platform) (wg_dir : String) (a : Action) (p : Fields)
    → validate_params a (dict p) ≡ none
    → (c : Command) × (build_command pl wg_dir a p ≡ ok c)
build_command_total pl wg_dir a p h =
    let (required, typed, known) = (validate_params_iff a p).0 h in
    build_command-Succeeds pl wg_dir a p required typed
