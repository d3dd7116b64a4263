-- ===== src/Signal/Hash.antt =====
-- driftdriver/signal_gate.py: `strip_volatile` and `compute_content_hash`.
use driftdriver.Base.{
  ℕ, String, ◌≡◌, refl, ap, true, inl, inr, Option, List, [], ◌∷◌, is_in, Bool-cases, eq_iff, ◌==◌,
  if◌then◌else◌,
}
use driftdriver.Base.Value.{Value, Real, list, dict, Fields, field, end, put}
use driftdriver.Base.Platform.{Platform, str_of}

-- What the gate takes from outside: `json.dumps` with sorted keys, SHA-256 in hexadecimal,
-- `datetime.fromisoformat` with UTC for a text without an offset, and `x + 1` of a float.
pub record Tools : Type 0 where
  pub platform : Platform
  pub dumps : Value → String
  pub sha256 : String → String
  pub utc_instant : String → Option ℕ
  pub plus_one : Real → Real

abbrev pub volatile_fields : List String
volatile_fields = "ts" ∷ "timestamp" ∷ "checked_at" ∷ "agent_count" ∷ "task_count" ∷ "cycle_id" ∷ []

-- `{k: v for k, v in data.items() if k not in VOLATILE_FIELDS}`
unfoldable pub without_volatile : Fields → Fields
without_volatile end = end
without_volatile (field k v d) =
    if is_in k volatile_fields then without_volatile d else field k v (without_volatile d)

-- `strip_volatile`
unfoldable pub strip_volatile : Value → Value
strip_volatile (dict d) = dict (without_volatile d)
strip_volatile v = v

unfoldable pub payload : Tools → Value → String
payload t (dict d) = t.dumps (dict d)
payload t (list vs) = t.dumps (list vs)
payload t v = str_of t.platform v

-- `compute_content_hash`
unfoldable pub compute_content_hash : Tools → Value → String
compute_content_hash t v = t.sha256 (payload t v)

-- A volatile field has no part in what is left.
pub without_volatile-put :
    (k : String) (v : Value) (d : Fields)
    → is_in k volatile_fields ≡ true
    → without_volatile (put k v d) ≡ without_volatile d
unfolding without_volatile put
without_volatile-put k v end h = rw h refl
without_volatile-put k v (field j w d) h = elim (Bool-cases (j == k)) [
  | inl same ↦ rw (same, (eq_iff j k).0 same, h) refl
  | inr other ↦ elim (Bool-cases (is_in j volatile_fields)) [
    | inl left ↦ rw (other, left) (without_volatile-put k v d h)
    | inr stays ↦ rw (other, stays) (ap (field j w) (without_volatile-put k v d h))
  ]
]
