-- ===== src/Directive/Valid.antt =====
-- driftdriver/directive_schemas.py: the parameters that `validate_params` accepts.
use driftdriver.Base.{
  String, ◌≡◌, ◌↔◌, ◌≢◌, refl, inl, inr, true, false, not, Option, none, some, List, [], ◌∷◌, ◌++◌,
  arith, is_in, keep, Bool-cases, Option-cases, if◌then◌else◌,
}
use driftdriver.Base.Value.{Value, dict, Fields, field, end, get?, keys}
use driftdriver.Directive.Action.{Action}
use driftdriver.Directive.Schema.{
  FieldSpec, schema, type_matches, Violation, Invalid, is_none_left, is_blank, required_violations,
  spec_of, type_violations, required_issue, place, sorted, names, unknown_fields, validate_params,
}

-- Every required field is there, and is no blank text.
abbrev pub AllRequired : List FieldSpec → Fields → Type 0
AllRequired [] p = Unit
AllRequired (s ∷ specs) p =
    (s.required ≡ true → (v : Value) × (get? s.name p ≡ some v) × (is_blank v ≡ false))
    × AllRequired specs p

-- Every field that the schema names has the type that it gives.
abbrev pub AllTyped : List FieldSpec → Fields → Type 0
AllTyped specs end = Unit
AllTyped specs (field name v rest) =
    ((s : FieldSpec) → spec_of name specs ≡ some s → type_matches v s.type_name ≡ true)
    × AllTyped specs rest

-- The schema names every field.
abbrev pub AllKnown : List FieldSpec → Fields → Type 0
AllKnown specs end = Unit
AllKnown specs (field name v rest) = (is_in name (names specs) ≡ true) × AllKnown specs rest

append-eq-nil {ℓ} : {A : Type ℓ} (xs ys : List A) → xs ++ ys ≡ [] → (xs ≡ []) × (ys ≡ [])
append-eq-nil [] ys h = (refl, h)
append-eq-nil (x ∷ xs) ys h = cc

filled_of :
    (name : String) (o : Option Value)
    → required_issue name o ≡ []
    → (v : Value) × (o ≡ some v) × (is_blank v ≡ false)
unfolding required_issue
filled_of name none h = cc
filled_of name (some v) h = (v, refl, ground arith)

required_sound :
    (specs : List FieldSpec) (p : Fields) → required_violations specs p ≡ [] → AllRequired specs p
unfolding required_violations
required_sound [] p h = tt
required_sound (s ∷ specs) p h = elim (Bool-cases s.required) [
  | inr free ↦ (λ need. cc, required_sound specs p (rw free at h))
  | inl need ↦
      let (one, others) = append-eq-nil _ (required_violations specs p) (rw need at h) in
      (λ _. filled_of s.name (get? s.name p) one, required_sound specs p others)
]

required_complete :
    (specs : List FieldSpec) (p : Fields) → AllRequired specs p → required_violations specs p ≡ []
unfolding required_violations
required_complete [] p h = refl
required_complete (s ∷ specs) p h = elim (Bool-cases s.required) [
  | inr free ↦ rw free (required_complete specs p h.1)
  | inl need ↦ let (v, e, filled) = h.0 need in rw (need, e, filled) (required_complete specs p h.1)
]

typed_sound :
    (specs : List FieldSpec) (p : Fields) → type_violations specs p ≡ [] → AllTyped specs p
unfolding type_violations
typed_sound specs end h = tt
typed_sound specs (field name v rest) h =
    let (one, others) = append-eq-nil _ (type_violations specs rest) h in
    (λ s e. ground (arith, (rw e at one)), typed_sound specs rest others)

typed_complete :
    (specs : List FieldSpec) (p : Fields) → AllTyped specs p → type_violations specs p ≡ []
unfolding type_violations
typed_complete specs end h = refl
typed_complete specs (field name v rest) h = elim (Option-cases (spec_of name specs)) [
  | inl e ↦ rw e (typed_complete specs rest h.1)
  | inr (s, e) ↦ rw (e, h.0 s e) (typed_complete specs rest h.1)
]

place-ne-nil : (s : String) (ts : List String) → place s ts ≢ []
unfolding place
place-ne-nil s [] h = cc
place-ne-nil s (t ∷ ts) h = ground arith

sorted-nil : (xs : List String) → sorted xs ≡ [] → xs ≡ []
unfolding sorted
sorted-nil [] h = refl
sorted-nil (x ∷ xs) h = absurd (place-ne-nil x (sorted xs) h)

known_sound :
    (specs : List FieldSpec) (p : Fields)
    → keep (λ k. not (is_in k (names specs))) (keys p) ≡ []
    → AllKnown specs p
known_sound specs end h = tt
known_sound specs (field name v rest) h = elim (Bool-cases (is_in name (names specs))) [
  | inl e ↦ (e, known_sound specs rest (rw e at h))
  | inr e ↦ cc (rw e at h)
]

known_complete :
    (specs : List FieldSpec) (p : Fields)
    → AllKnown specs p
    → keep (λ k. not (is_in k (names specs))) (keys p) ≡ []
known_complete specs end h = refl
known_complete specs (field name v rest) h = rw h.0 (known_complete specs rest h.1)

none_left :
    (vs : List Violation) (us : List String) (i : Invalid)
    → (if is_none_left vs us then none else some i) ≡ none
    → (vs ≡ []) × (us ≡ [])
none_left [] [] i h = (refl, refl)
none_left [] (u ∷ us) i h = cc
none_left (v ∷ vs) us i h = cc

-- `validate_params` returns with no exception on a dictionary exactly if it holds every required
-- field, none of them a blank text, gives each field of the schema its type, and has no other field.
pub validate_params_iff :
    (a : Action) (p : Fields)
    → (validate_params a (dict p) ≡ none)
      ↔ (AllRequired (schema a) p × AllTyped (schema a) p × AllKnown (schema a) p)
unfolding validate_params unknown_fields sorted
validate_params_iff a p = (
  λ h.
      let (issues, unknown) = none_left _ _ _ h in
      let (missing, mistyped) = append-eq-nil (required_violations (schema a) p) _ issues in
      (
        required_sound (schema a) p missing,
        typed_sound (schema a) p mistyped,
        known_sound (schema a) p (sorted-nil _ unknown),
      ),
  λ h.
      rw
        (
          required_complete (schema a) p h.0,
          typed_complete (schema a) p h.1,
          known_complete (schema a) p h.2,
        )
        refl,
)
