-- ===== src/Signal/Gate.antt =====
-- driftdriver/signal_gate.py: the class `SignalGate`. Its file is `none` where it is missing or no JSON can
-- be read from it.
use driftdriver.Base.{
  String, Bool, true, false, not, ◌||◌, Option, some, List, [], ◌∷◌, if◌then◌else◌,
}
use driftdriver.Base.Value.{Value, null, str, dict, field, end, is_null, is_the_text, get}
use driftdriver.Signal.Hash.{Tools, strip_volatile, compute_content_hash}

-- `_load_hash`
unfoldable pub load_hash : Option Value → Value
load_hash (some (dict d)) = get "content_hash" d
load_hash f = null

-- `_save_hash`
unfoldable pub save_hash : String → String → Value
save_hash hash now = dict (field "content_hash" (str hash) (field "last_fire_at" (str now) end))

-- `SignalGate.should_fire`: whether it fires, and the file that it leaves.
unfoldable pub gate_fires : Tools → String → Value → Option Value → Bool × Option Value
gate_fires t now input f =
    let hash = compute_content_hash t (strip_volatile input) in
    if is_null (load_hash f) || not (is_the_text hash (load_hash f))
    then (true, some (save_hash hash now))
    else (false, f)

-- A gate that is asked about one input after the other.
unfoldable pub gate_run : Tools → List (String × Value) → Option Value → List Bool × Option Value
gate_run t [] f = ([], f)
gate_run t ((now, input) ∷ inputs) f =
    let (fired, f') = gate_fires t now input f in
    let (later, last) = gate_run t inputs f' in (fired ∷ later, last)
