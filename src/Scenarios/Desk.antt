-- ===== src/Scenarios/Desk.antt =====
-- Runs of driftdriver/decision_queue.py and continuation_intent.py: one question and its answer, and the
-- intent of a repository under a lease.
use mathlib.Core.List.{Memᴰ}
use driftdriver.Base.{ℕ, ◌≡◌, refl, false, none, some, List, [], ◌∷◌}
use driftdriver.Base.Value.{dict, Fields, ok, get?}
use driftdriver.Control.Authority.{load_control_state, load_dispatch_authority}
use driftdriver.Queue.Record.{DecisionRecord, record_to_dict, dict_to_record}
use driftdriver.Queue.Store.{
  Proposal, Reply, blank, broken, File, proposed, line_of, is_pending, answered_by, or_skip,
  read_line, read_lines, read_decisions,
}
use driftdriver.Queue.Spec.{Call, create, reply, apply_all, perform_all}
use driftdriver.Queue.Refine.{perform_all-apply_all}
use driftdriver.Queue.Kept.{perform_all-settled, waiting}
use driftdriver.Queue.Drained.{repeatedly, perform_all-drained}
use driftdriver.Queue.Command.{Handled, handle_decisions_answer, handle_decisions_answer-Handled}
use driftdriver.Intent.Store.{parsed, Wish, wished, read_intent, write_intent}
use driftdriver.Intent.Kept.{
  fields, file_of, with_control, write_intent-read_intent, write_control_state-forgets,
}
use driftdriver.Scenarios.Leases.{held, release, released, release_writes}
use driftdriver.Scenarios.Toy.{toy}

abbrev question : Proposal
question = record {
  id = "dec-1";
  now = "t";
  repo = "app";
  question = "Which?";
  category = "feature";
  context = none;
}

abbrev answer : Reply
answer = record { decision_id = "dec-1"; answer = "the first"; answered_via = "cli"; now = "tt" }

abbrev settled : DecisionRecord
settled = answered_by answer (proposed question)

abbrev desk : File
desk = some (line_of (proposed question) ∷ broken ∷ line_of settled ∷ blank ∷ [])

abbrev asked : List DecisionRecord
asked = proposed question ∷ settled ∷ []

desk_reads : read_decisions desk ≡ ok asked
unfolding read_decisions read_lines read_line or_skip dict_to_record record_to_dict proposed
    answered_by get?
desk_reads = refl

abbrev calls : List Call
calls = reply answer ∷ create question ∷ []

perform_all-apply_all_example :
    (f : File) × (perform_all calls desk ≡ ok f) × (read_decisions f ≡ ok (apply_all calls asked))
perform_all-apply_all_example = perform_all-apply_all calls desk asked desk_reads

settled_closed : is_pending settled ≡ false
unfolding answered_by proposed
settled_closed = refl

perform_all-settled_example :
    (f : File) × (rs : List DecisionRecord) × (perform_all calls desk ≡ ok f)
    × (read_decisions f ≡ ok rs)
    × Memᴰ settled rs
perform_all-settled_example =
    perform_all-settled calls desk asked settled desk_reads (Memᴰ.tail (Memᴰ.head refl))
      settled_closed

perform_all-drained_example :
    (f : File) × (rs : List DecisionRecord) × (perform_all
        (repeatedly (waiting answer asked) answer)
        desk
      ≡ ok f)
    × (read_decisions f ≡ ok rs)
    × (waiting answer rs ≡ 0)
perform_all-drained_example = perform_all-drained answer desk asked desk_reads

abbrev wish : Wish
wish = record {
  intent = "parked";
  set_by = "human";
  reason = "waiting";
  decision_id = some "dec-1";
  now = "t";
}

write_intent-read_intent_example :
    (d : Fields) × (write_intent wish (file_of held.control) ≡ ok (wished wish, dict d))
    × (read_intent (parsed (dict d)) ≡ ok (some (wished wish)))
    × ((now : ℕ)
        → (load_control_state toy now (with_control held d) ≡ load_control_state toy now held)
          × (load_dispatch_authority toy now (with_control held d)
              ≡ load_dispatch_authority toy now held))
write_intent-read_intent_example =
    write_intent-read_intent toy held (file_of held.control) wish refl refl (fields _)

write_control_state-forgets_example : read_intent (file_of released.1.control) ≡ ok none
write_control_state-forgets_example =
    write_control_state-forgets toy 6 held release released.0 released.1 release_writes

handle_decisions_answer-Handled_example :
    Handled answer "t" asked
      (record { decisions = desk; control = file_of held.control })
      (handle_decisions_answer answer "t"
        (record { decisions = desk; control = file_of held.control }))
handle_decisions_answer-Handled_example =
    handle_decisions_answer-Handled answer "t" desk asked (file_of held.control) held.control
      desk_reads (fields _)
