-- ===== src/Scenarios/Verdicts.antt =====
-- Runs of driftdriver/policy_enforcement.py, signal_gate.py and loop_detection.py: a critical finding, a
-- gate that is asked again, and an agent that repeats itself.
use driftdriver.Base.{
  arith, zero, String, ◌≡◌, refl, true, false, Option, none, some, List, [], ◌∷◌, strip, left_strip,
  right_strip, is_space, lower,
}
use driftdriver.Base.Value.{
  Value, bool, str, Fields, field, end, truthy, get?, get_or, put, to_int, ok,
}
use driftdriver.Base.Platform.{str_of}
use driftdriver.Enforce.Findings.{severity_of}
use driftdriver.Enforce.Evaluate.{
  Counts, count, tally, Enforcement, warnings_of, exit_of, verdict_of, evaluate_enforcement,
}
use driftdriver.Enforce.Judged.{Judges, evaluate_enforcement-Judges}
use driftdriver.Signal.Hash.{Tools, payload, compute_content_hash}
use driftdriver.Signal.Gate.{load_hash, save_hash, gate_run}
use driftdriver.Signal.Changes.{changes, gate_run-changes}
use driftdriver.Signal.Agent.{GateFiles, load_state, add_one, record_fire}
use driftdriver.Loop.Detect.{
  stripped, count_one, count_all, greatest, most_common, found_in, detect_among, detect_loop,
}
use driftdriver.Loop.Common.{lines_of, Finds, detect_loop-Finds}
use driftdriver.Scenarios.Toy.{toy, value_of}

abbrev enforcing : Fields
enforcing = field "enabled" (bool true) end

abbrev found : List Fields
found = field "severity" (str " Critical") end ∷ end ∷ []

abbrev clean : Enforcement
clean = record { blocked = false; warnings = []; exit_code = zero; counts = none }

abbrev judged : Enforcement
judged = value_of clean (evaluate_enforcement toy enforcing found)

found_judged : evaluate_enforcement toy enforcing found ≡ ok judged
unfolding evaluate_enforcement verdict_of warnings_of exit_of tally count severity_of str_of strip
    left_strip right_strip is_space lower get? to_int
found_judged = refl

enforcing_on : truthy (get_or "enabled" (bool false) enforcing) ≡ true
unfolding get?
enforcing_on = refl

evaluate_enforcement-Judges_example : (c : Counts) × Judges toy enforcing found judged c
evaluate_enforcement-Judges_example =
    evaluate_enforcement-Judges toy enforcing found judged enforcing_on found_judged

-- A text stands for the dictionary, and is its own hash.
abbrev tools : Tools
tools = record {
  platform = toy;
  dumps = λ v. "d";
  sha256 = λ s. s;
  utc_instant = λ s. some 5;
  plus_one = λ r. r;
}

abbrev first_file : Option Value
first_file = some (save_hash "x" "t")

first_holds : load_hash first_file ≡ str "x"
unfolding load_hash save_hash get?
first_holds = refl

abbrev inputs : List (String × Value)
inputs = ("t", str "x") ∷ ("u", str "y") ∷ ("v", str "y") ∷ []

gate_run-changes_example : (gate_run tools inputs first_file).0 ≡ changes tools "x" inputs
gate_run-changes_example = gate_run-changes tools "x" inputs first_file first_holds

-- An agent that does the same thing three times.
abbrev history : Option (List String)
history = some ("a" ∷ " b" ∷ "" ∷ "b" ∷ "a" ∷ "b " ∷ [])

history_test : (detect_loop 3 history).detected ≡ true
unfolding detect_loop detect_among found_in most_common greatest count_all count_one stripped strip
    left_strip right_strip is_space
history_test = refl

detect_loop-Finds_example : Finds 3 (lines_of history) (detect_loop 3 history)
detect_loop-Finds_example = detect_loop-Finds 3 history (omega arith)

abbrev unfired : GateFiles
unfired = record { state = none; canary = some [] }

abbrev fired : GateFiles
fired = value_of unfired (record_fire tools "t" (str "x") unfired)

fired_recorded : record_fire tools "t" (str "x") unfired ≡ ok fired
unfolding record_fire load_state add_one put get? compute_content_hash payload str_of
fired_recorded = refl
