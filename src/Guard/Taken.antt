-- ===== src/Guard/Taken.antt =====
-- driftdriver/drift_task_guard.py: what `escalate_repeated_findings` makes of the rows of a ledger.
use driftdriver.Base.{
  ℕ, suc, String, ◌≡◌, refl, ap, ◌∙◌, Bool, true, false, ◌&&◌, Option, none, some, List, [], ◌∷◌,
  any, count_if, Bool-cases, inl, inr, arith, leb, ◌==◌, if◌then◌else◌,
}
use driftdriver.Base.Value.{Value, int, Fields, pos, Result, Fault, ok, err, get_or, to_int}
use driftdriver.Base.Platform.{Platform}
use driftdriver.Base.Act.{return, resume, ◌>>=◌}
use driftdriver.Guard.Add.{Inputs, Books, guarded_add_drift_task}
use driftdriver.Guard.Repeated.{
  Ignored, LaneKey, is_pair, ignored_counts, ignored_often, escalation_of, if_created,
  escalate_each, task_prefix, escalate_pairs, escalate_above, escalate_repeated_findings,
}
use driftdriver.Guard.Rows.{ignores, is_named, AllRows, Counted, lines-Counted}
use driftdriver.Guard.Tallied.{AllCount, often_counted}
use driftdriver.Guard.Threshold.{
  Unique, ignored_often-ignored_counts, ignored_counts-Unique, often_within,
}

abbrev first_of : Bool → String → Books × Result (List String) → Books × Result (List String)
first_of created id (b, err e) = (b, err e)
first_of created id (b, ok ids) = (b, ok (if created then id ∷ ids else ids))

-- The calls of the guard for the rows, one by one in their order, up to one that raises; the ids are those
-- of the tasks that were created.
pub data Files (p : Platform) (at : ℕ → ℕ × Inputs) (threshold : ℕ) (prefix : String)
    : ℕ → List Ignored → Books → Books × Result (List String) → Type 0 where
  finished : (k : ℕ) (b : Books) → Files p at threshold prefix k [] b (b, ok [])
  raised :
      (k : ℕ) (row : Ignored) (rows : List Ignored) (b b' : Books) (e : Fault)
      → guarded_add_drift_task p (at k).0 (at k).1 none (escalation_of p threshold prefix row) b
        ≡ (b', err e)
      → Files p at threshold prefix k (row ∷ rows) b (b', err e)
  filed :
      (k : ℕ) (row : Ignored) (rows : List Ignored) (b b' : Books) (answer : String)
      (x : Books × Result (List String))
      → guarded_add_drift_task p (at k).0 (at k).1 none (escalation_of p threshold prefix row) b
        ≡ (b', ok answer)
      → Files p at threshold prefix (suc k) rows b' x
      → Files p at threshold prefix k
          (row ∷ rows)
          b
          (first_of (answer == "created") (escalation_of p threshold prefix row).task_id x)

-- The rows that are taken up: each finding once, those with as many ignored rows as the threshold, and with
-- the number of these rows.
pub record AllTaken (p : Platform) (threshold : ℕ) (lines : List (Option Value))
    (rows : List Ignored) : Type 0 where
  pub once : Unique rows
  pub taken :
      (a : LaneKey)
      → any (is_pair a) rows ≡ (is_named a && leb threshold (count_if (ignores p a) lines))
  pub counted : AllCount (λ a. count_if (ignores p a) lines) rows

module _ (p : Platform) (at : ℕ → ℕ × Inputs) (threshold : ℕ) (prefix : String) where
  each-Files :
      (rows : List Ignored) (k : ℕ) (b : Books)
      → Files p at threshold prefix k rows b (escalate_each p at threshold prefix k rows b)
  unfolding escalate_each
  each-Files [] k b = finished k b
  each-Files (row ∷ rows) k b = called _ refl (λ b'. each-Files rows (suc k) b')
    where
      joined :
          (answer : String) (b' : Books) (x : Books × Result (List String))
          → guarded_add_drift_task p (at k).0 (at k).1 none (escalation_of p threshold prefix row) b
            ≡ (b', ok answer)
          → Files p at threshold prefix (suc k) rows b' x
          → Files p at threshold prefix k (row ∷ rows) b (
              resume x λ ids.
                return (if_created answer (escalation_of p threshold prefix row).task_id ids))
      joined answer b' (b'', ok ids) q f = filed k row rows b b' answer _ q f
      joined answer b' (b'', err e) q f = filed k row rows b b' answer _ q f

      called :
          (x : Books × Result String)
          → guarded_add_drift_task p (at k).0 (at k).1 none (escalation_of p threshold prefix row) b
            ≡ x
          → ((b' : Books)
              → Files p at threshold prefix
                  (suc k)
                  rows
                  b'
                  (escalate_each p at threshold prefix (suc k) rows b'))
          → Files p at threshold prefix k (row ∷ rows) b (
              resume x λ result. escalate_each p at threshold prefix (suc k) rows >>= λ ids.
              return (if_created result (escalation_of p threshold prefix row).task_id ids))
      called (b', err e) q rest = raised k row rows b b' e q
      called (b', ok answer) q rest =
          joined answer b' (escalate_each p at threshold prefix (suc k) rows b') q (rest b')

-- The rows that the threshold leaves.
often-Unique : (n : ℕ) (rows : List Ignored) → Unique rows → Unique (ignored_often n rows)
unfolding ignored_often
often-Unique n [] h = tt
often-Unique n (row ∷ rows) h = elim (Bool-cases (leb n row.count)) [
  | inl on ↦ rw on (often_within (row.lane, row.finding_key) n rows h.0, often-Unique n rows h.1)
  | inr off ↦ rw off (often-Unique n rows h.1)
]

-- A finding reaches the threshold only by its own name.
reaches :
    (named : Bool) (n m k : ℕ)
    → k ≡ (if named then m else 0)
    → leb (suc n) k ≡ (named && leb (suc n) m)
reaches true n m k h = ap (leb (suc n)) h
reaches false n m k h = ground (arith, h)

often-AllTaken :
    (p : Platform) (n : ℕ) (lines : List (Option Value)) (pairs : List LaneKey)
    → Counted p lines pairs
    → AllTaken p (suc n) lines (ignored_often (suc n) (ignored_counts pairs []))
unfolding Counted
often-AllTaken p n lines pairs h = record {
  once = often-Unique (suc n) (ignored_counts pairs []) (ignored_counts-Unique pairs [] tt);
  taken = λ a.
      ignored_often-ignored_counts a n pairs
      ∙ reaches (is_named a) n (count_if (ignores p a) lines) _ (h a);
  counted = often_counted is_named (λ a. count_if (ignores p a) lines) n pairs h;
}

-- Over a ledger that can be read, whose lines are blank, no JSON, or dictionaries, and with a threshold of
-- one or more, the function takes up each finding once, and exactly those with a lane and a key for which
-- the ledger holds at least as many rows with the outcome "ignored" as the threshold: it calls the guard
-- one by one for these findings and the numbers of their rows, up to a call that raises, and returns the
-- ids of the tasks that were created.
pub escalate_repeated_findings-Files :
    (p : Platform) (at : ℕ → ℕ × Inputs) (cfg : Fields) (lines : List (Option Value)) (n : ℕ)
    (b : Books)
    → AllRows lines
    → to_int (get_or "escalate_after_ignores" (int (pos 3)) cfg) ≡ ok (pos (suc n))
    → (rows : List Ignored) × AllTaken p (suc n) lines rows
      × Files p at
          (suc n)
          (task_prefix p cfg)
          0
          rows
          b
          (escalate_repeated_findings p at cfg (some (ok lines)) b)
unfolding escalate_repeated_findings escalate_above escalate_pairs
escalate_repeated_findings-Files p at cfg lines n b h threshold =
    let (pairs, read, counted) = lines-Counted p lines h in
    (
      ignored_often (suc n) (ignored_counts pairs []),
      often-AllTaken p n lines pairs counted,
      rw (threshold, read) (each-Files p at (suc n) (task_prefix p cfg) _ 0 b),
    )
