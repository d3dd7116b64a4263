-- ===== src/Queue/Kept.antt =====
-- driftdriver/decision_queue.py: answers, and the decisions that no longer wait.
use mathlib.Core.List.{Memᴰ}
use driftdriver.Base.{
  ℕ, suc, ◌≡◌, refl, ap, Bool, true, false, ◌&&◌, inl, inr, ◌⊎◌, Option, none, some, List, [], ◌∷◌,
  ◌++◌, count_if, Bool-cases, arith,
}
use driftdriver.Base.Value.{ok, ok_injective, is_the_text}
use driftdriver.Queue.Record.{DecisionRecord}
use driftdriver.Queue.Store.{
  Reply, Line, File, is_pending, waits_for, answered_by, pushed, answer_first, rewritten,
  read_lines, read_decisions, answer_decision,
}
use driftdriver.Queue.Spec.{Call, create, reply, opened, apply, apply_all, perform_all}
use driftdriver.Queue.Refine.{perform_all-apply_all, read-rewritten, replied, replied-answer_first}

Memᴰ-append :
    {rec : DecisionRecord} (rs ts : List DecisionRecord) → Memᴰ rec rs → Memᴰ rec (rs ++ ts)
Memᴰ-append [] ts m = elim m [ ]
Memᴰ-append (r ∷ rs) ts (Memᴰ.head e) = Memᴰ.head e
Memᴰ-append (r ∷ rs) ts (Memᴰ.tail m) = Memᴰ.tail (Memᴰ-append rs ts m)

-- Whether a decision stands in the list that the loop leaves.
abbrev Stays : DecisionRecord → Option (DecisionRecord × List DecisionRecord) → Type 0
Stays rec none = Unit
Stays rec (some (target, after)) = Memᴰ rec after

pushed-Stays :
    (rec r : DecisionRecord) (x : Option (DecisionRecord × List DecisionRecord))
    → (rec ≡ r) ⊎ Stays rec x
    → Stays rec (pushed r x)
pushed-Stays rec r none h = tt
pushed-Stays rec r (some (target, after)) (inl e) = Memᴰ.head e
pushed-Stays rec r (some (target, after)) (inr m) = Memᴰ.tail m

answer_first-Stays :
    (q : Reply) (rec : DecisionRecord) (rs : List DecisionRecord)
    → is_pending rec ≡ false
    → Memᴰ rec rs
    → Stays rec (answer_first q rs)
unfolding answer_first
answer_first-Stays q rec [] off m = elim m [ ]
answer_first-Stays q rec (r ∷ rs) off (Memᴰ.head e) =
    elim (Bool-cases (waits_for q.decision_id r)) [
      | inl on ↦ ground (arith, on, off, ap is_pending e)
      | inr other ↦ rw other (pushed-Stays rec r (answer_first q rs) (inl e))
    ]
answer_first-Stays q rec (r ∷ rs) off (Memᴰ.tail m) =
    elim (Bool-cases (waits_for q.decision_id r)) [
      | inl on ↦ rw on (Memᴰ.tail m)
      | inr other ↦
          rw other
            (pushed-Stays rec r (answer_first q rs) (inr (answer_first-Stays q rec rs off m)))
    ]

replied-Memᴰ :
    (rec : DecisionRecord) (rs : List DecisionRecord)
    (x : Option (DecisionRecord × List DecisionRecord))
    → Memᴰ rec rs
    → Stays rec x
    → Memᴰ rec (replied rs x)
unfolding replied
replied-Memᴰ rec rs none m h = m
replied-Memᴰ rec rs (some (target, after)) m h = h

apply-Memᴰ :
    (c : Call) (rec : DecisionRecord) (rs : List DecisionRecord)
    → is_pending rec ≡ false
    → Memᴰ rec rs
    → Memᴰ rec (apply c rs)
unfolding apply
apply-Memᴰ (create q) rec rs off m = Memᴰ-append rs (opened q ∷ []) m
apply-Memᴰ (reply q) rec rs off m =
    rw (← replied-answer_first q rs)
      (replied-Memᴰ rec rs (answer_first q rs) m (answer_first-Stays q rec rs off m))

apply_all-Memᴰ :
    (cs : List Call) (rec : DecisionRecord) (rs : List DecisionRecord)
    → is_pending rec ≡ false
    → Memᴰ rec rs
    → Memᴰ rec (apply_all cs rs)
unfolding apply_all
apply_all-Memᴰ [] rec rs off m = m
apply_all-Memᴰ (c ∷ cs) rec rs off m =
    apply_all-Memᴰ cs rec (apply c rs) off (apply-Memᴰ c rec rs off m)

-- A decision in the file that is no longer pending is still in the file, with the same answer, after any
-- sequence of calls.
pub perform_all-settled :
    (cs : List Call) (f : File) (rs : List DecisionRecord) (rec : DecisionRecord)
    → read_decisions f ≡ ok rs
    → Memᴰ rec rs
    → is_pending rec ≡ false
    → (f' : File) × (rs' : List DecisionRecord) × (perform_all cs f ≡ ok f')
      × (read_decisions f' ≡ ok rs')
      × Memᴰ rec rs'
perform_all-settled cs f rs rec h m off =
    let (f', done, reads) = perform_all-apply_all cs f rs h in
    (f', apply_all cs rs, done, reads, apply_all-Memᴰ cs rec rs off m)

-- How many decisions wait for an answer under an id.
abbrev pub waiting : Reply → List DecisionRecord → ℕ
waiting q rs = count_if (waits_for q.decision_id) rs

-- What the loop over the records comes to.
abbrev pub Uses :
    Reply → List DecisionRecord → Option (DecisionRecord × List DecisionRecord) → Type 0
Uses q rs none = waiting q rs ≡ 0
Uses q rs (some (target, after)) =
    (waiting q rs ≡ suc (waiting q after))
    × (rec : DecisionRecord) × Memᴰ rec rs
    × (waits_for q.decision_id rec ≡ true)
    × (target ≡ answered_by q rec)

and_false : (b : Bool) → b && false ≡ false
and_false true = refl
and_false false = refl

answered_waits :
    (q : Reply) (rec : DecisionRecord) → waits_for q.decision_id (answered_by q rec) ≡ false
unfolding answered_by
answered_waits q rec = and_false (is_the_text q.decision_id rec.id)

pushed-Uses :
    (q : Reply) (r : DecisionRecord) (rs : List DecisionRecord)
    (x : Option (DecisionRecord × List DecisionRecord))
    → waits_for q.decision_id r ≡ false
    → Uses q rs x
    → Uses q (r ∷ rs) (pushed r x)
pushed-Uses q r rs none off h = rw off h
pushed-Uses q r rs (some (target, after)) off (n, rec, m, on, e) =
    (rw off n, rec, Memᴰ.tail m, on, e)

pub answer_first-Uses : (q : Reply) (rs : List DecisionRecord) → Uses q rs (answer_first q rs)
unfolding answer_first
answer_first-Uses q [] = refl
answer_first-Uses q (r ∷ rs) = elim (Bool-cases (waits_for q.decision_id r)) [
  | inl on ↦ rw (on, answered_waits q r) (rw on refl, r, Memᴰ.head refl, on, refl)
  | inr off ↦ rw off (pushed-Uses q r rs (answer_first q rs) off (answer_first-Uses q rs))
]

-- What an answer leaves: without a decision that waits under the id, the file as it was and no decision;
-- otherwise one that waited, with the answer, and a file in which one decision less waits under the id.
abbrev pub Answers : Reply → List DecisionRecord → File → Option DecisionRecord × File → Type 0
Answers q rs f (none, f') = (f' ≡ f) × (waiting q rs ≡ 0)
Answers q rs f (some target, f') =
    (rs' : List DecisionRecord) × (read_decisions f' ≡ ok rs')
    × (waiting q rs ≡ suc (waiting q rs'))
    × (rec : DecisionRecord) × Memᴰ rec rs
    × (waits_for q.decision_id rec ≡ true)
    × (target ≡ answered_by q rec)

rewritten-Answers :
    (q : Reply) (ls : List Line) (rs : List DecisionRecord)
    (x : Option (DecisionRecord × List DecisionRecord))
    → read_lines ls ≡ ok rs
    → Uses q rs x
    → Answers q rs (some ls) (rewritten ls x)
unfolding rewritten replied
rewritten-Answers q ls rs none h u = (refl, u)
rewritten-Answers q ls rs (some (target, after)) h (n, rec, m, on, e) =
    (after, read-rewritten ls rs (some (target, after)) h, n, rec, m, on, e)

-- `answer_decision` on a file that reads as a list of decisions returns, and without a pending decision
-- under the id it leaves the file and returns nothing; otherwise it returns one such decision of the list
-- with the answer in it, and in the new file one pending decision less waits under the id.
pub answer_decision-Answers :
    (q : Reply) (f : File) (rs : List DecisionRecord)
    → read_decisions f ≡ ok rs
    → (x : Option DecisionRecord × File) × (answer_decision q f ≡ ok x) × Answers q rs f x
unfolding read_decisions answer_decision
answer_decision-Answers q none rs h = ((none, none), refl, (refl, rw (← ok_injective h) refl))
answer_decision-Answers q (some ls) rs h = (
  rewritten ls (answer_first q rs),
  rw h refl,
  rewritten-Answers q ls rs (answer_first q rs) h (answer_first-Uses q rs),
)
