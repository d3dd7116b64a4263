-- ===== src/Guard/Tallied.antt =====
-- driftdriver/drift_task_guard.py: the counts of the findings that `escalate_repeated_findings` takes up.
use driftdriver.Base.{
  ℕ, suc, ◌≡◌, refl, sym, ◌∙◌, Bool, true, false, List, [], ◌∷◌, any, count_if, Bool-cases, inl,
  inr, arith, eq_refl, leb, if◌then◌else◌,
}
use driftdriver.Guard.Repeated.{Ignored, LaneKey, is_pair, ignored_counts, ignored_often}
use driftdriver.Guard.Threshold.{
  Unique, same_pair, count_of, count_of-ignored_counts, ignored_counts-Unique, own_row,
}

-- Every row holds the number that `g` gives for its pair.
abbrev pub AllCount : (LaneKey → ℕ) → List Ignored → Type 0
AllCount g [] = Unit
AllCount g (row ∷ rows) = (row.count ≡ g (row.lane, row.finding_key)) × AllCount g rows

is_own : (row : Ignored) → is_pair (row.lane, row.finding_key) row ≡ true
is_own row = rw (eq_refl row.lane, eq_refl row.finding_key) refl

-- A pair that stands in the rest of a table is not that of its first row.
other_pair :
    (a : LaneKey) (row : Ignored) (rows : List Ignored)
    → Unique (row ∷ rows)
    → any (is_pair a) rows ≡ true
    → is_pair a row ≡ false
other_pair a row rows u on = elim (Bool-cases (is_pair a row)) [
  | inl own ↦ absurd (cc (on, own_row a row rows own u.0))
  | inr off ↦ off
]

head_count :
    (a : LaneKey) (row : Ignored) (rows : List Ignored)
    → is_pair a row ≡ true
    → count_of a (row ∷ rows) ≡ row.count
unfolding count_of
head_count a row rows on = rw on refl

tail_count :
    (a : LaneKey) (row : Ignored) (rows : List Ignored)
    → is_pair a row ≡ false
    → count_of a (row ∷ rows) ≡ count_of a rows
unfolding count_of
tail_count a row rows off = rw off refl

any_head :
    (a : LaneKey) (row : Ignored) (rows : List Ignored)
    → is_pair a row ≡ true
    → any (is_pair a) (row ∷ rows) ≡ true
any_head a row rows on = rw on refl

any_tail :
    (a : LaneKey) (row : Ignored) (rows : List Ignored)
    → any (is_pair a) rows ≡ true
    → any (is_pair a) (row ∷ rows) ≡ true
any_tail a row rows on = ground (arith, on)

table-AllCount :
    (g : LaneKey → ℕ) (rows : List Ignored)
    → Unique rows
    → ((a : LaneKey) → any (is_pair a) rows ≡ true → count_of a rows ≡ g a)
    → AllCount g rows
table-AllCount g [] u h = tt
table-AllCount g (row ∷ rows) u h =
    let own : LaneKey = (row.lane, row.finding_key) in
    (
      sym (head_count own row rows (is_own row)) ∙ h own (any_head own row rows (is_own row)),
      table-AllCount g rows u.1 (λ a on.
          sym (tail_count a row rows (other_pair a row rows u on)) ∙ h a (any_tail a row rows on)),
    )

-- What reaches a threshold of one or more is counted under a name.
named_count :
    (named : Bool) (n m k : ℕ) → k ≡ (if named then m else 0) → leb (suc n) k ≡ true → k ≡ m
named_count true n m k h on = h
named_count false n m k h on = ground (arith, h, on)

often-AllCount :
    (named : LaneKey → Bool) (m : LaneKey → ℕ) (n : ℕ) (rows : List Ignored)
    → AllCount (λ a. if named a then m a else 0) rows
    → AllCount m (ignored_often (suc n) rows)
unfolding ignored_often
often-AllCount named m n [] h = tt
often-AllCount named m n (row ∷ rows) h = elim (Bool-cases (leb (suc n) row.count)) [
  | inl on ↦ rw on (
    named_count (named (row.lane, row.finding_key)) n (m (row.lane, row.finding_key)) row.count h.0
        on,
    often-AllCount named m n rows h.1,
  )
  | inr off ↦ rw off (often-AllCount named m n rows h.1)
]

-- The count of a pair in the table that the pairs make.
tallied :
    (a : LaneKey) (pairs : List LaneKey)
    → count_of a (ignored_counts pairs []) ≡ count_if (same_pair a) pairs
unfolding count_of
tallied a pairs = count_of-ignored_counts a pairs [] ∙ omega arith

-- The rows that reach the threshold hold the counts of their pairs.
pub often_counted :
    (named : LaneKey → Bool) (m : LaneKey → ℕ) (n : ℕ) (pairs : List LaneKey)
    → ((a : LaneKey) → count_if (same_pair a) pairs ≡ (if named a then m a else 0))
    → AllCount m (ignored_often (suc n) (ignored_counts pairs []))
often_counted named m n pairs h = often-AllCount named m n (ignored_counts pairs []) (
    table-AllCount (λ a. if named a then m a else 0) (ignored_counts pairs [])
      (ignored_counts-Unique pairs [] tt) (λ a on. tallied a pairs ∙ h a))
