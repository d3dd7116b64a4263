-- ===== src/Queue/Drained.antt =====
-- driftdriver/decision_queue.py: the decisions that wait under an id, over repeated answers.
use driftdriver.Base.{ℕ, zero, suc, ◌≡◌, refl, Option, none, some, List, [], ◌∷◌, arith}
use driftdriver.Base.Value.{ok}
use driftdriver.Queue.Record.{DecisionRecord}
use driftdriver.Queue.Store.{Reply, File, read_decisions, answer_first}
use driftdriver.Queue.Spec.{Call, reply, close_first, apply, apply_all, perform_all}
use driftdriver.Queue.Refine.{replied, replied-answer_first, perform_all-apply_all}
use driftdriver.Queue.Kept.{waiting, Uses, answer_first-Uses}

-- The same answer a number of times.
abbrev pub repeatedly : ℕ → Reply → List Call
repeatedly zero q = []
repeatedly (suc n) q = reply q ∷ repeatedly n q

replied_fewer :
    (q : Reply) (n : ℕ) (rs : List DecisionRecord)
    (x : Option (DecisionRecord × List DecisionRecord))
    → Uses q rs x
    → waiting q rs ≡ suc n
    → waiting q (replied rs x) ≡ n
unfolding replied
replied_fewer q n rs none u h = omega (arith, u, h)
replied_fewer q n rs (some (target, after)) (used, rec, m, on, e) h = omega (arith, used, h)

apply_all-drained :
    (q : Reply) (n : ℕ) (rs : List DecisionRecord)
    → waiting q rs ≡ n
    → waiting q (apply_all (repeatedly n q) rs) ≡ 0
unfolding apply_all apply
apply_all-drained q zero rs h = h
apply_all-drained q (suc n) rs h = apply_all-drained q n (close_first q rs) (
    rw (← replied-answer_first q rs)
      (replied_fewer q n rs (answer_first q rs) (answer_first-Uses q rs) h))

-- Answering under an id as often as decisions wait under it comes to an end without an exception, and
-- leaves a file in which none waits under it.
pub perform_all-drained :
    (q : Reply) (f : File) (rs : List DecisionRecord)
    → read_decisions f ≡ ok rs
    → (f' : File) × (rs' : List DecisionRecord) × (perform_all (repeatedly (waiting q rs) q) f
        ≡ ok f')
      × (read_decisions f' ≡ ok rs')
      × (waiting q rs' ≡ 0)
perform_all-drained q f rs h =
    let (f', done, reads) = perform_all-apply_all (repeatedly (waiting q rs) q) f rs h in
    (
      f',
      apply_all (repeatedly (waiting q rs) q) rs,
      done,
      reads,
      apply_all-drained q (waiting q rs) rs refl,
    )
