-- ===== src/Queue/Spec.antt =====
-- The queue of decisions as a list: what driftdriver/decision_queue.py promises, without its file.
use driftdriver.Base.{String, Bool, ◌&&◌, none, some, List, [], ◌∷◌, ◌++◌, if◌then◌else◌}
use driftdriver.Base.Value.{null, str, list, dict, nil, end, Result, ok, ◌>>=◌, is_the_text}
use driftdriver.Queue.Record.{DecisionRecord}
use driftdriver.Queue.Store.{Proposal, Reply, File, create_decision, answer_decision}

-- A call of the module that changes the file.
pub data Call : Type 0 where
  create : Proposal → Call
  reply : Reply → Call

-- The decision that a proposal puts into the queue.
unfoldable pub opened : Proposal → DecisionRecord
opened q = record {
  id = str q.id;
  repo = str q.repo;
  status = str "pending";
  question = str q.question;
  context = dict (elim q.context [ none ↦ end | some d ↦ d ]);
  category = str q.category;
  created_at = str q.now;
  notified_via = list nil;
  answered_at = null;
  answered_via = null;
  answer = null;
  resolution_task = null;
}

-- A decision with the id whose status is pending.
abbrev pub is_open : String → DecisionRecord → Bool
is_open id rec = is_the_text id rec.id && is_the_text "pending" rec.status

-- A decision with an answer.
unfoldable pub closed : Reply → DecisionRecord → DecisionRecord
closed q rec = record {
  id = rec.id;
  repo = rec.repo;
  status = str "answered";
  question = rec.question;
  context = rec.context;
  category = rec.category;
  created_at = rec.created_at;
  notified_via = rec.notified_via;
  answered_at = str q.now;
  answered_via = str q.answered_via;
  answer = str q.answer;
  resolution_task = rec.resolution_task;
}

-- The answer for the first decision that is open under the id.
unfoldable pub close_first : Reply → List DecisionRecord → List DecisionRecord
close_first q [] = []
close_first q (rec ∷ rs) =
    let others = close_first q rs in
    if is_open q.decision_id rec then closed q rec ∷ rs else rec ∷ others

-- What a call does to the list of decisions.
unfoldable pub apply : Call → List DecisionRecord → List DecisionRecord
apply (create q) rs = rs ++ (opened q ∷ [])
apply (reply q) rs = close_first q rs

unfoldable pub apply_all : List Call → List DecisionRecord → List DecisionRecord
apply_all [] rs = rs
apply_all (c ∷ cs) rs = apply_all cs (apply c rs)

-- What a call does to the file.
unfoldable pub perform : Call → File → Result File
perform (create q) f = ok (create_decision q f).1
perform (reply q) f = answer_decision q f >>= λ x. ok x.1

unfoldable pub perform_all : List Call → File → Result File
perform_all [] f = ok f
perform_all (c ∷ cs) f = perform c f >>= λ f'. perform_all cs f'
