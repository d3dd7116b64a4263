-- ===== src/Signal/Changes.antt =====
-- driftdriver/signal_gate.py: the class `SignalGate` over a sequence of inputs.
use driftdriver.Base.{
  String, ◌≡◌, refl, ap, ◌∙◌, Bool, true, false, not, ◌||◌, inl, inr, Option, List, [], ◌∷◌, is_in,
  Bool-cases, eq_iff, eq_refl, ◌==◌,
}
use driftdriver.Base.Value.{Value, null, str, dict, Fields, is_null, is_the_text, get?, put}
use driftdriver.Signal.Hash.{
  Tools, volatile_fields, strip_volatile, without_volatile-put, compute_content_hash,
}
use driftdriver.Signal.Gate.{load_hash, save_hash, gate_fires, gate_run}

-- The hash of the part of an input that is not volatile.
abbrev pub hash_of : Tools → Value → String
hash_of t input = compute_content_hash t (strip_volatile input)

-- Where a sequence of hashes differs from the one before.
abbrev pub changes : Tools → String → List (String × Value) → List Bool
changes t last [] = []
changes t last ((now, input) ∷ inputs) =
    not (last == hash_of t input) ∷ changes t (hash_of t input) inputs

-- The state after a call holds the hash of its input.
gate_fires-load_hash :
    (t : Tools) (now last : String) (input : Value) (f : Option Value)
    → load_hash f ≡ str last
    → ((gate_fires t now input f).0 ≡ not (last == hash_of t input))
      × (load_hash (gate_fires t now input f).1 ≡ str (hash_of t input))
unfolding gate_fires load_hash save_hash get?
gate_fires-load_hash t now last input f h = elim (Bool-cases (last == hash_of t input)) [
  | inl same ↦ rw (h, same) (refl, h ∙ ap str ((eq_iff last (hash_of t input)).0 same))
  | inr other ↦ rw (h, other) (refl, refl)
]

-- From a state that holds a hash, a gate that is asked about one input after the other fires for those
-- whose part that is not volatile has another hash than the input before, and no other.
pub gate_run-changes :
    (t : Tools) (last : String) (inputs : List (String × Value)) (f : Option Value)
    → load_hash f ≡ str last
    → (gate_run t inputs f).0 ≡ changes t last inputs
unfolding gate_run
gate_run-changes t last [] f h = refl
gate_run-changes t last ((now, input) ∷ inputs) f h =
    let (fired, holds) = gate_fires-load_hash t now last input f h in
    rw (fired, gate_run-changes t (hash_of t input) inputs (gate_fires t now input f).1 holds) refl

kept : (v : Value) (hash : String) → is_null v || not (is_the_text hash v) ≡ false → v ≡ str hash
kept (str s) hash h = elim (Bool-cases (s == hash)) [
  | inl same ↦ ap str ((eq_iff s hash).0 same)
  | inr other ↦ cc (rw other at h)
]
kept null hash h = cc
kept (Value.bool b) hash h = cc
kept (Value.int n) hash h = cc
kept (Value.real r) hash h = cc
kept (Value.list vs) hash h = cc
kept (dict d) hash h = cc

gate_settles :
    (t : Tools) (now : String) (input : Value) (f : Option Value)
    → load_hash (gate_fires t now input f).1 ≡ str (hash_of t input)
unfolding gate_fires load_hash save_hash get?
gate_settles t now input f =
    elim (Bool-cases (is_null (load_hash f) || not (is_the_text (hash_of t input) (load_hash f)))) [
      | inl on ↦ rw on refl
      | inr off ↦ rw off (kept (load_hash f) (hash_of t input) off)
    ]

-- Once a gate was asked about a dictionary, it does not fire for the same dictionary with another value,
-- or a new one, under a volatile key, whatever its file held before.
pub gate_fires-volatile :
    (t : Tools) (now later k : String) (v : Value) (d : Fields) (f : Option Value)
    → is_in k volatile_fields ≡ true
    → (gate_fires t later (dict (put k v d)) (gate_fires t now (dict d) f).1).0 ≡ false
unfolding strip_volatile
gate_fires-volatile t now later k v d f h =
    let (fired, holds) =
      gate_fires-load_hash t later (hash_of t (dict d)) (dict (put k v d))
        (gate_fires t now (dict d) f).1 (gate_settles t now (dict d) f) in
    fired ∙ rw (without_volatile-put k v d h, eq_refl (hash_of t (dict d))) refl
