-- ===== src/Guard/Threshold.antt =====
-- driftdriver/drift_task_guard.py: which ignored findings `escalate_repeated_findings` takes up.
use driftdriver.Base.{
  ℕ, suc, ◌+◌, ◌≡◌, refl, ap, ◌∙◌, Bool, true, false, ◌&&◌, ◌||◌, List, [], ◌∷◌, any, count_if,
  Bool-cases, inl, inr, arith, eq_iff, leb, ◌==◌, if◌then◌else◌,
}
use driftdriver.Guard.Repeated.{
  Ignored, LaneKey, is_pair, count_ignored, ignored_counts, ignored_often,
}

-- What the table holds for a pair: the count of the first row.
unfoldable pub count_of : LaneKey → List Ignored → ℕ
count_of pair [] = 0
count_of pair (row ∷ rows) = let n = count_of pair rows in if is_pair pair row then row.count else n

abbrev pub same_pair : LaneKey → LaneKey → Bool
same_pair a b = b.0 == a.0 && b.1 == a.1

count_of-count_ignored :
    (a b : LaneKey) (rows : List Ignored)
    → count_of a (count_ignored b rows)
      ≡ (if same_pair a b then suc (count_of a rows) else count_of a rows)
unfolding count_of count_ignored
count_of-count_ignored a b [] = ground arith
count_of-count_ignored a b (row ∷ rows) = ground (
  arith,
  eq_iff row.lane b.0,
  eq_iff row.finding_key b.1,
  eq_iff row.lane a.0,
  eq_iff row.finding_key a.1,
  eq_iff b.0 a.0,
  eq_iff b.1 a.1,
  count_of-count_ignored a b rows,
)

-- The counts of a table go up by the pairs.
pub count_of-ignored_counts :
    (a : LaneKey) (pairs : List LaneKey) (rows : List Ignored)
    → count_of a (ignored_counts pairs rows) ≡ count_of a rows + count_if (same_pair a) pairs
unfolding ignored_counts
count_of-ignored_counts a [] rows = omega arith
count_of-ignored_counts a (b ∷ pairs) rows =
    ground (
      arith,
      count_of-ignored_counts a pairs (count_ignored b rows),
      count_of-count_ignored a b rows,
    )

-- No pair has two rows.
abbrev pub Unique : List Ignored → Type 0
Unique [] = Unit
Unique (row ∷ rows) = (any (is_pair (row.lane, row.finding_key)) rows ≡ false) × Unique rows

any-count_ignored :
    (a b : LaneKey) (rows : List Ignored)
    → any (is_pair a) (count_ignored b rows) ≡ (same_pair a b || any (is_pair a) rows)
unfolding count_ignored
any-count_ignored a b [] = ground arith
any-count_ignored a b (row ∷ rows) = ground (
  arith,
  eq_iff row.lane b.0,
  eq_iff row.finding_key b.1,
  eq_iff row.lane a.0,
  eq_iff row.finding_key a.1,
  eq_iff b.0 a.0,
  eq_iff b.1 a.1,
  any-count_ignored a b rows,
)

other_row :
    (b : LaneKey) (row : Ignored) (rows : List Ignored)
    → is_pair b row ≡ false
    → any (is_pair (row.lane, row.finding_key)) rows ≡ false
    → any (is_pair (row.lane, row.finding_key)) (count_ignored b rows) ≡ false
other_row b row rows off h = ground (
  arith,
  off,
  h,
  eq_iff row.lane b.0,
  eq_iff row.finding_key b.1,
  eq_iff b.0 row.lane,
  eq_iff b.1 row.finding_key,
  any-count_ignored (row.lane, row.finding_key) b rows,
)

count_ignored-Unique :
    (b : LaneKey) (rows : List Ignored) → Unique rows → Unique (count_ignored b rows)
unfolding count_ignored
count_ignored-Unique b [] h = (refl, tt)
count_ignored-Unique b (row ∷ rows) h = elim (Bool-cases (is_pair b row)) [
  | inl on ↦ rw on (h.0, h.1)
  | inr off ↦ rw off (other_row b row rows off h.0, count_ignored-Unique b rows h.1)
]

pub ignored_counts-Unique :
    (pairs : List LaneKey) (rows : List Ignored) → Unique rows → Unique (ignored_counts pairs rows)
unfolding ignored_counts
ignored_counts-Unique [] rows h = h
ignored_counts-Unique (b ∷ pairs) rows h =
    ignored_counts-Unique pairs (count_ignored b rows) (count_ignored-Unique b rows h)

-- A pair without a row counts for nothing.
count_none :
    (a : LaneKey) (rows : List Ignored) → any (is_pair a) rows ≡ false → count_of a rows ≡ 0
unfolding count_of
count_none a [] h = refl
count_none a (row ∷ rows) h = ground (arith, count_none a rows)

pub often_within :
    (a : LaneKey) (n : ℕ) (rows : List Ignored)
    → any (is_pair a) rows ≡ false
    → any (is_pair a) (ignored_often n rows) ≡ false
unfolding ignored_often
often_within a n [] h = refl
often_within a n (row ∷ rows) h = ground (arith, often_within a n rows)

pub own_row :
    (a : LaneKey) (row : Ignored) (rows : List Ignored)
    → is_pair a row ≡ true
    → any (is_pair (row.lane, row.finding_key)) rows ≡ false
    → any (is_pair a) rows ≡ false
own_row a row [] on h = refl
own_row a row (next ∷ rows) on h = ground (
  arith,
  on,
  h,
  eq_iff row.lane a.0,
  eq_iff row.finding_key a.1,
  eq_iff next.lane a.0,
  eq_iff next.finding_key a.1,
  eq_iff next.lane row.lane,
  eq_iff next.finding_key row.finding_key,
  own_row a row rows on,
)

often_counts :
    (a : LaneKey) (n : ℕ) (rows : List Ignored)
    → Unique rows
    → any (is_pair a) (ignored_often (suc n) rows) ≡ leb (suc n) (count_of a rows)
unfolding ignored_often count_of
often_counts a n [] h = ground arith
often_counts a n (row ∷ rows) h = elim (Bool-cases (is_pair a row)) [
  | inl on ↦ ground (arith, on, often_within a (suc n) rows (own_row a row rows on h.0))
  | inr off ↦ ground (arith, off, often_counts a n rows h.1)
]

-- A finding of a lane is taken up exactly when the ledger holds at least as many ignored rows for it as the
-- threshold, which is one or more.
pub ignored_often-ignored_counts :
    (a : LaneKey) (n : ℕ) (pairs : List LaneKey)
    → any (is_pair a) (ignored_often (suc n) (ignored_counts pairs []))
      ≡ leb (suc n) (count_if (same_pair a) pairs)
unfolding count_of
ignored_often-ignored_counts a n pairs =
    often_counts a n (ignored_counts pairs []) (ignored_counts-Unique pairs [] tt)
    ∙ ap (leb (suc n)) (count_of-ignored_counts a pairs [] ∙ omega arith)
