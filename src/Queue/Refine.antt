-- ===== src/Queue/Refine.antt =====
-- driftdriver/decision_queue.py: the file against the list of decisions.
use driftdriver.Base.{
  ◌≡◌, refl, sym, ap, ◌∙◌, Bool-cases, inl, inr, Option, none, some, List, [], ◌∷◌, ◌++◌, map,
}
use driftdriver.Base.Value.{ok, >>=-eq-ok, ok_injective}
use driftdriver.Queue.Record.{DecisionRecord, dict_to_record-record_to_dict}
use driftdriver.Queue.Store.{
  Proposal, Reply, Line, File, proposed, line_of, create_decision, or_skip, read_line, add_record,
  read_lines, read_decisions, answered_by, pushed, answer_first, rewritten, answer_decision,
}
use driftdriver.Queue.Spec.{
  Call, create, reply, opened, is_open, closed, close_first, apply, apply_all, perform, perform_all,
}

read_line-line_of : (rec : DecisionRecord) → read_line (line_of rec) ≡ ok (some rec)
unfolding read_line or_skip
read_line-line_of rec = rw (dict_to_record-record_to_dict rec) refl

read_lines-map : (rs : List DecisionRecord) → read_lines (map line_of rs) ≡ ok rs
unfolding read_lines
read_lines-map [] = refl
read_lines-map (rec ∷ rs) = rw (read_line-line_of rec, read_lines-map rs) refl

add_record-append :
    (one : Option DecisionRecord) (rs ts : List DecisionRecord)
    → add_record one rs ++ ts ≡ add_record one (rs ++ ts)
add_record-append none rs ts = refl
add_record-append (some rec) rs ts = refl

read_lines-append :
    (ls : List Line) (rs : List DecisionRecord) (rec : DecisionRecord)
    → read_lines ls ≡ ok rs
    → read_lines (ls ++ (line_of rec ∷ [])) ≡ ok (rs ++ (rec ∷ []))
unfolding read_lines
read_lines-append [] rs rec h = rw (read_line-line_of rec, ← ok_injective h) refl
read_lines-append (l ∷ ls) rs rec h =
    let (one, first, next) = >>=-eq-ok (read_line l) _ h in
    let (later, others, last) = >>=-eq-ok (read_lines ls) _ next in
    rw (first, read_lines-append ls later rec others, ← ok_injective last)
      (ap ok (sym (add_record-append one later (rec ∷ []))))

-- The list that the loop over the records leaves.
unfoldable pub replied :
    List DecisionRecord → Option (DecisionRecord × List DecisionRecord) → List DecisionRecord
replied rs none = rs
replied rs (some (target, after)) = after

replied-pushed :
    (rec : DecisionRecord) (rs : List DecisionRecord)
    (x : Option (DecisionRecord × List DecisionRecord))
    → replied (rec ∷ rs) (pushed rec x) ≡ rec ∷ replied rs x
unfolding replied
replied-pushed rec rs none = refl
replied-pushed rec rs (some (target, after)) = refl

proposed-opened : (q : Proposal) → proposed q ≡ opened q
unfolding proposed opened
proposed-opened q =
    elim q.context
      as (λ x. proposed (record q { context = x }) ≡ opened (record q { context = x })) [
        | none ↦ refl
        | some d ↦ refl
      ]

-- The loop up to its `break` closes the first decision that is open under the id.
pub replied-answer_first :
    (q : Reply) (rs : List DecisionRecord) → replied rs (answer_first q rs) ≡ close_first q rs
unfolding answer_first close_first answered_by closed replied
replied-answer_first q [] = refl
replied-answer_first q (rec ∷ rs) = elim (Bool-cases (is_open q.decision_id rec)) [
  | inl on ↦ rw on refl
  | inr off ↦
      rw off (
        replied-pushed rec rs (answer_first q rs) ∙ ap (λ ts. rec ∷ ts) (replied-answer_first q rs))
]

-- What a call makes of a file that reads as a list of decisions.
abbrev Implements : Call → List DecisionRecord → File → Type 0
Implements c rs f = (f' : File) × (perform c f ≡ ok f') × (read_decisions f' ≡ ok (apply c rs))

create-Implements :
    (q : Proposal) (f : File) (rs : List DecisionRecord)
    → read_decisions f ≡ ok rs
    → Implements (create q) rs f
unfolding perform apply create_decision read_decisions read_lines
create-Implements q none rs h =
    (_, refl, rw (read_line-line_of (proposed q), ← ok_injective h, ← proposed-opened q) refl)
create-Implements q (some ls) rs h =
    (_, refl, rw (← proposed-opened q) (read_lines-append ls rs (proposed q) h))

pub read-rewritten :
    (ls : List Line) (rs : List DecisionRecord) (x : Option (DecisionRecord × List DecisionRecord))
    → read_lines ls ≡ ok rs
    → read_decisions (rewritten ls x).1 ≡ ok (replied rs x)
unfolding rewritten replied read_decisions
read-rewritten ls rs none h = h
read-rewritten ls rs (some (target, after)) h = read_lines-map after

reply-Implements :
    (q : Reply) (f : File) (rs : List DecisionRecord)
    → read_decisions f ≡ ok rs
    → Implements (reply q) rs f
unfolding perform apply answer_decision read_decisions answer_first close_first
reply-Implements q none rs h = (none, refl, rw (← ok_injective h) refl)
reply-Implements q (some ls) rs h = (
  (rewritten ls (answer_first q rs)).1,
  rw h refl,
  read-rewritten ls rs (answer_first q rs) h ∙ ap ok (replied-answer_first q rs),
)

call-Implements :
    (c : Call) (f : File) (rs : List DecisionRecord) → read_decisions f ≡ ok rs → Implements c rs f
call-Implements (create q) f rs h = create-Implements q f rs h
call-Implements (reply q) f rs h = reply-Implements q f rs h

-- From a file that reads as a list of decisions, any sequence of calls runs without an exception, and the
-- file then reads as what the same calls make of the list: a new decision goes to the end, an answer
-- puts its text, its channel and its time into the first
-- decision with the id whose status is pending and makes it answered, and lines that are no decision do not count.
pub perform_all-apply_all :
    (cs : List Call) (f : File) (rs : List DecisionRecord)
    → read_decisions f ≡ ok rs
    → (f' : File) × (perform_all cs f ≡ ok f') × (read_decisions f' ≡ ok (apply_all cs rs))
unfolding perform_all apply_all
perform_all-apply_all [] f rs h = (f, refl, h)
perform_all-apply_all (c ∷ cs) f rs h =
    let (f', done, reads) = call-Implements c f rs h in
    let (last, rest, ends) = perform_all-apply_all cs f' (apply c rs) reads in
    (last, rw done rest, ends)
