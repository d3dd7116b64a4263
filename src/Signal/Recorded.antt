-- ===== src/Signal/Recorded.antt =====
-- driftdriver/signal_gate.py: what the gate of an agent decides after a recorded fire.
use driftdriver.Base.{
  String, ◌≡◌, refl, subst, ◌∙◌, inl, inr, Bool-cases, not, Option, none, some, ◌==◌,
}
use driftdriver.Base.Value.{
  Value, str, Fields, ok, >>=-eq-ok, ok_injective, is_the_text, get?, put, get-put, get_or,
}
use driftdriver.Signal.Hash.{Tools, compute_content_hash}
use driftdriver.Signal.Agent.{
  GateFiles, load_state, log_canary_decision, decide, should_fire, add_one, state_or_empty,
  record_fire,
}

-- The hash that stays under the two keys that are written after it.
stored :
    (hash now : String) (n : Value) (d : Fields)
    → get? "content_hash"
        (put "fire_count" n (put "last_fire_at" (str now) (put "content_hash" (str hash) d)))
      ≡ some (str hash)
stored hash now n d =
    get-put "fire_count" "content_hash" n
      (put "last_fire_at" (str now) (put "content_hash" (str hash) d))
    ∙ get-put "last_fire_at" "content_hash" (str now) (put "content_hash" (str hash) d)
    ∙ get-put "content_hash" "content_hash" (str hash) d

decide-stored :
    (t : Tools) (agent now hash last : String) (d : Fields) (g : GateFiles)
    → get? "content_hash" d ≡ some (str last)
    → (decide t agent now hash (some d) g).0 ≡ not (last == hash)
unfolding decide
decide-stored t agent now hash last d g h =
    rw (not, h)
      (elim (Bool-cases (last == hash)) [ inl same ↦ rw same refl | inr other ↦ rw other refl ])

-- A decision leaves the state as it was.
decide-state :
    (t : Tools) (agent now hash : String) (x : Option Fields) (g : GateFiles)
    → (decide t agent now hash x g).1.state ≡ g.state
unfolding decide log_canary_decision
decide-state t agent now hash none g = refl
decide-state t agent now hash (some d) g =
    elim (Bool-cases (is_the_text hash (get_or "content_hash" (str "") d))) [
      | inl same ↦ rw same refl
      | inr other ↦ rw other refl
    ]

-- Once a fire was recorded for an input, the gate fires for an input just if its hash is another, and the
-- decision leaves the state for the next one.
should_fire-record_fire :
    (t : Tools) (agent now later : String) (input next : Value) (g g' : GateFiles)
    → record_fire t now input g ≡ ok g'
    → ((should_fire t agent later next g').0
        ≡ not (compute_content_hash t input == compute_content_hash t next))
      × ((should_fire t agent later next g').1.state ≡ g'.state)
unfolding record_fire should_fire load_state
should_fire-record_fire t agent now later input next g g' h =
    let (n, counted, last) = >>=-eq-ok (add_one t _) _ h in
    let state = put "fire_count" n (
      put "last_fire_at" (str now) (
        put "content_hash" (str (compute_content_hash t input))
          (state_or_empty (load_state g.state)))) in
    subst
      (λ g'.
        ((should_fire t agent later next g').0
          ≡ not (compute_content_hash t input == compute_content_hash t next))
        × ((should_fire t agent later next g').1.state ≡ g'.state))
      (ok_injective last)
      (
        decide-stored t agent later (compute_content_hash t next) (compute_content_hash t input)
            state _
            (stored (compute_content_hash t input) now n (state_or_empty (load_state g.state))),
        decide-state t agent later (compute_content_hash t next) (some state) _,
      )
