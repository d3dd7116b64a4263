-- ===== src/Queue/Command.antt =====
-- driftdriver/cli/decisions_cmd.py: `handle_decisions_answer`, which answers a decision and then sets the
-- intent of the repository.
use driftdriver.Base.{String, ◌≡◌, refl, Option, none, some, List, [], ◌∷◌, concat}
use driftdriver.Base.Value.{Value, Fields, Result, ok, err}
use driftdriver.Queue.Record.{DecisionRecord}
use driftdriver.Queue.Store.{Reply, File, read_decisions, answer_decision}
use driftdriver.Queue.Kept.{waiting, Answers, answer_decision-Answers}
use driftdriver.Intent.Store.{
  ControlFile, parsed, Wish, ContinuationIntent, wished, read_intent, write_intent,
}
use driftdriver.Intent.Kept.{Shows, write_intent-stores, read_intent-stored}

-- decisions.jsonl and control.json.
pub record Files : Type 0 where
  pub decisions : File
  pub control : ControlFile

-- What the handler returns: no such decision, or the decision and the new intent.
pub data Reported : Type 0 where
  not_found : String → Reported
  flipped : DecisionRecord → Reported

unfoldable pub go_on : Reply → String → Wish
go_on q now = record {
  intent = "continue";
  set_by = "human";
  reason = concat ("Decision " ∷ q.decision_id ∷ " answered via " ∷ q.answered_via ∷ []);
  decision_id = some q.decision_id;
  now = now;
}

unfoldable pub flip :
    Files → DecisionRecord → Result (ContinuationIntent × Value) → Files × Result Reported
flip fs rec (ok (i, v)) = (record fs { control = parsed v }, ok (flipped rec))
flip fs rec (err e) = (fs, err e)

unfoldable pub go_after :
    Reply → String → Files → Result (Option DecisionRecord × File) → Files × Result Reported
go_after q now fs (err e) = (fs, err e)
go_after q now fs (ok (none, f)) = (record fs { decisions = f }, ok (not_found q.decision_id))
go_after q now fs (ok (some rec, f)) =
    flip (record fs { decisions = f }) rec (write_intent (go_on q now) fs.control)

-- `handle_decisions_answer`; what was written before an exception stays.
unfoldable pub handle_decisions_answer : Reply → String → Files → Files × Result Reported
handle_decisions_answer q now fs = go_after q now fs (answer_decision q fs.decisions)

-- What the handler leaves of files with the decisions `rs`.
abbrev pub Handled : Reply → String → List DecisionRecord → Files → Files × Result Reported → Type 0
Handled q now rs fs (fs', err e) = ⊥
Handled q now rs fs (fs', ok (not_found id)) = (fs' ≡ fs) × (waiting q rs ≡ 0)
Handled q now rs fs (fs', ok (flipped rec)) =
    Answers q rs fs.decisions (some rec, fs'.decisions)
    × (read_intent fs'.control ≡ ok (some (wished (go_on q now))))

flip-Handled :
    (q : Reply) (now : String) (rs : List DecisionRecord) (g : ControlFile) (x : Option Fields)
    (f f' : File) (rec : DecisionRecord)
    → Answers q rs f (some rec, f')
    → Shows g x
    → Handled q now rs
        (record { decisions = f; control = g })
        (flip (record { decisions = f'; control = g }) rec (write_intent (go_on q now) g))
unfolding flip go_on
flip-Handled q now rs g x f f' rec a shows =
    rw (write_intent-stores (go_on q now) g x refl refl shows)
      (a, read_intent-stored (go_on q now) x)

go_after-Handled :
    (q : Reply) (now : String) (rs : List DecisionRecord) (g : ControlFile) (x : Option Fields)
    (f : File) (y : Option DecisionRecord × File)
    → Answers q rs f y
    → Shows g x
    → Handled q now rs
        (record { decisions = f; control = g })
        (go_after q now (record { decisions = f; control = g }) (ok y))
unfolding go_after
go_after-Handled q now rs g x f (none, f') (same, nothing) shows = (rw same refl, nothing)
go_after-Handled q now rs g x f (some rec, f') a shows = flip-Handled q now rs g x f f' rec a shows

-- With a readable file of decisions and a control.json that is missing, holds text that is no JSON or holds
-- a dictionary, both of which can be written, the handler returns. Either no pending decision has the id
-- and both files stay, or one such decision is answered, one less waits under the id, and the intent reads
-- as `continue`, set by a human for the id.
pub handle_decisions_answer-Handled :
    (q : Reply) (now : String) (f : File) (rs : List DecisionRecord) (g : ControlFile)
    (x : Option Fields)
    → read_decisions f ≡ ok rs
    → Shows g x
    → Handled q now rs
        (record { decisions = f; control = g })
        (handle_decisions_answer q now (record { decisions = f; control = g }))
unfolding handle_decisions_answer
handle_decisions_answer-Handled q now f rs g x h shows =
    let (y, done, a) = answer_decision-Answers q f rs h in
    rw done (go_after-Handled q now rs g x f y a shows)
