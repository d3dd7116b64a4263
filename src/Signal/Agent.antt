-- ===== src/Signal/Agent.antt =====
-- driftdriver/signal_gate.py: the gate of an agent, as functions on its files: the state, and the log of
-- what the gate decided.
use driftdriver.Base.{
  ℕ, suc, ◌+◌, ◌*◌, String, Bool, true, false, not, Option, none, some, List, ◌∷◌, ltb,
  if◌then◌else◌,
}
use driftdriver.Base.Value.{
  Value, null, bool, int, real, str, dict, ℤ, pos, negsuc, Fields, end, Fault, Result, ok, err,
  ◌>>=◌, truthy, is_null, is_the_text, get, get_or, put,
}
use driftdriver.Signal.Hash.{Tools, compute_content_hash}

-- A line of signal-gate-canary.jsonl.
pub record Canary : Type 0 where
  pub ts : String
  pub agent : String
  pub fired : Bool
  pub content_hash : String
  pub reason : String

-- The state file of one agent, `none` where it is missing or no JSON can be read from it, and the log,
-- `none` where it cannot be written.
pub record GateFiles : Type 0 where
  pub state : Option Value
  pub canary : Option (List Canary)

-- `_load_state`
unfoldable pub load_state : Option Value → Option Fields
load_state (some (dict d)) = some d
load_state f = none

-- `log_canary_decision`; the newest line comes first.
unfoldable pub log_canary_decision : Canary → GateFiles → GateFiles
log_canary_decision c g = record g {
  canary = elim g.canary [ none ↦ none | some cs ↦ some (c ∷ cs) ];
}

unfoldable pub decide :
    Tools → String → String → String → Option Fields → GateFiles → Bool × GateFiles
decide t agent now hash none g = (
  true,
  log_canary_decision
      (record {
        ts = now;
        agent = agent;
        fired = true;
        content_hash = hash;
        reason = "no_prior_state";
      })
      g,
)
decide t agent now hash (some state) g =
    if not (is_the_text hash (get_or "content_hash" (str "") state))
    then (
      true,
      log_canary_decision
          (record {
            ts = now;
            agent = agent;
            fired = true;
            content_hash = hash;
            reason = "content_changed";
          })
          g,
    )
    else (
      false,
      log_canary_decision
          (record {
            ts = now;
            agent = agent;
            fired = false;
            content_hash = hash;
            reason = "content_unchanged";
          })
          g,
    )

-- `should_fire`
unfoldable pub should_fire : Tools → String → String → Value → GateFiles → Bool × GateFiles
should_fire t agent now input g =
    decide t agent now (compute_content_hash t input) (load_state g.state) g

abbrev pub next_int : ℤ → ℤ
next_int (pos n) = pos (suc n)
next_int (negsuc ℕ.zero) = pos 0
next_int (negsuc (suc n)) = negsuc n

-- `v + 1`
unfoldable pub add_one : Tools → Value → Result Value
add_one t (bool b) = ok (int (pos (if b then 2 else 1)))
add_one t (int n) = ok (int (next_int n))
add_one t (real r) = ok (real (t.plus_one r))
add_one t v = err Fault.type_error

-- `_load_state(gate_dir, agent_name) or {}`
abbrev pub state_or_empty : Option Fields → Fields
state_or_empty none = end
state_or_empty (some d) = d

-- `record_fire`; an exception leaves the files as they were.
unfoldable pub record_fire : Tools → String → Value → GateFiles → Result GateFiles
record_fire t now input g =
    let hash = compute_content_hash t input in
    let state =
      put "last_fire_at" (str now)
        (put "content_hash" (str hash) (state_or_empty (load_state g.state))) in
    add_one t (get_or "fire_count" (int (pos 0)) state) >>= λ n.
    ok (record g { state = some (dict (put "fire_count" n state)) })

-- `[signal_gates] <agent_name>`, where it is there
abbrev canonical : String → Value → Value
canonical agent (dict gates) = get agent gates
canonical agent v = null

abbrev legacy : Value → Bool
legacy (dict section) = truthy (get_or "signal_gate_enabled" (bool false) section)
legacy v = false

-- `is_gate_enabled`, of the policy file, `none` where it is missing or cannot be parsed
unfoldable pub is_gate_enabled : String → Option Fields → Bool
is_gate_enabled agent none = false
is_gate_enabled agent (some policy) =
    let value = canonical agent (get "signal_gates" policy) in
    if is_null value then legacy (get agent policy) else truthy value

abbrev late : ℕ → ℕ → Option ℕ → Bool
late now threshold none = false
late now threshold (some fired) = ltb (fired + threshold * 1000000) now

abbrev overdue : Tools → ℕ → ℕ → Value → Bool
overdue t now threshold (str s) = late now threshold (t.utc_instant s)
overdue t now threshold v = false

-- Whether `check_canary` returns a message: the last fire is longer ago than the threshold, in seconds.
unfoldable pub check_canary : Tools → ℕ → ℕ → Option Value → Bool
check_canary t now threshold f = elim (load_state f) [
  | none ↦ false
  | some state ↦
      let last = get "last_fire_at" state in
      if truthy last then overdue t now threshold last else false
]
