-- ===== src/Loop/Common.antt =====
-- driftdriver/loop_detection.py: what the detection finds, against the lines themselves.
use driftdriver.Base.{
  ℕ, ◌≤◌, String, ◌≡◌, ◌↔◌, refl, sym, ap, subst, ◌∙◌, true, false, ◌⊎◌, inl, inr, Option, none,
  some, List, [], ◌∷◌, ltb, arith, Bool-cases, eq_iff, eq_refl, ◌==◌, if◌then◌else◌,
}
use driftdriver.Loop.Table.{value, has, IsTable, value-count_all, count_all-IsTable}
use driftdriver.Loop.Detect.{
  LoopDetection, stripped, count_all, greatest, most_common, occurrences_of, found_in, detect_among,
  detect_loop,
}

greatest_more :
    (best : String × ℕ) (k : String) (n : ℕ) (table : List (String × ℕ))
    → ltb best.1 n ≡ true
    → greatest best ((k, n) ∷ table) ≡ greatest (k, n) table
unfolding greatest
greatest_more best k n table h = ap (λ b. greatest (if b then (k, n) else best) table) h

greatest_less :
    (best : String × ℕ) (k : String) (n : ℕ) (table : List (String × ℕ))
    → ltb best.1 n ≡ false
    → greatest best ((k, n) ∷ table) ≡ greatest best table
unfolding greatest
greatest_less best k n table h = ap (λ b. greatest (if b then (k, n) else best) table) h

greatest_start : (best : String × ℕ) → best.1 ≤ (greatest best []).1
unfolding greatest
greatest_start best = omega arith

greatest_bounds :
    (best : String × ℕ) (r : String) (table : List (String × ℕ))
    → (best.1 ≤ (greatest best table).1) × (value r table ≤ (greatest best table).1)
greatest_bounds best r [] = (greatest_start best, omega arith)
greatest_bounds best r ((k, n) ∷ table) = elim (Bool-cases (ltb best.1 n)) [
  | inl more ↦
      let (above, below) = greatest_bounds (k, n) r table in
      subst (λ g. (best.1 ≤ g.1) × (value r ((k, n) ∷ table) ≤ g.1))
        (sym (greatest_more best k n table more))
        (ground (arith, more, above), ground (arith, above, below))
  | inr less ↦
      let (above, below) = greatest_bounds best r table in
      subst (λ g. (best.1 ≤ g.1) × (value r ((k, n) ∷ table) ≤ g.1))
        (sym (greatest_less best k n table less)) (above, ground (arith, less, above, below))
]

-- An entry of a table with the count that the table has for its key.
abbrev IsEntry : String × ℕ → List (String × ℕ) → Type 0
IsEntry e table = (value e.0 table ≡ e.1) × (has e.0 table ≡ true)

later_entry :
    (e : String × ℕ) (k : String) (n : ℕ) (table : List (String × ℕ))
    → has k table ≡ false
    → IsEntry e table
    → IsEntry e ((k, n) ∷ table)
later_entry e k n table new (counted, there) = elim (Bool-cases (k == e.0)) [
  | inl same ↦ absurd (cc (rw ((eq_iff k e.0).0 same) at new, there))
  | inr other ↦ rw other (counted, there)
]

first_entry : (k : String) (n : ℕ) (table : List (String × ℕ)) → IsEntry (k, n) ((k, n) ∷ table)
first_entry k n table = rw (eq_refl k) (refl, refl)

entry_of :
    (g : String × ℕ) (k : String) (n : ℕ) (table : List (String × ℕ))
    → has k table ≡ false
    → (g ≡ (k, n)) ⊎ IsEntry g table
    → IsEntry g ((k, n) ∷ table)
entry_of g k n table new (inl same) =
    subst (λ g. IsEntry g ((k, n) ∷ table)) (sym same) (first_entry k n table)
entry_of g k n table new (inr e) = later_entry g k n table new e

pass_over :
    (g best : String × ℕ) (k : String) (n : ℕ) (table : List (String × ℕ))
    → has k table ≡ false
    → (g ≡ best) ⊎ IsEntry g table
    → (g ≡ best) ⊎ IsEntry g ((k, n) ∷ table)
pass_over g best k n table new (inl same) = inl same
pass_over g best k n table new (inr e) = inr (later_entry g k n table new e)

greatest_nil : (best : String × ℕ) → greatest best [] ≡ best
unfolding greatest
greatest_nil best = refl

greatest-IsEntry :
    (best : String × ℕ) (table : List (String × ℕ))
    → IsTable table
    → (greatest best table ≡ best) ⊎ IsEntry (greatest best table) table
greatest-IsEntry best [] h = inl (greatest_nil best)
greatest-IsEntry best ((k, n) ∷ table) (new, h) = elim (Bool-cases (ltb best.1 n)) [
  | inl more ↦
      subst (λ g. (g ≡ best) ⊎ IsEntry g ((k, n) ∷ table)) (sym (greatest_more best k n table more))
        (inr (entry_of (greatest (k, n) table) k n table new (greatest-IsEntry (k, n) table h)))
  | inr less ↦
      subst (λ g. (g ≡ best) ⊎ IsEntry g ((k, n) ∷ table)) (sym (greatest_less best k n table less))
        (pass_over (greatest best table) best k n table new (greatest-IsEntry best table h))
]

most_common_lem :
    (table : List (String × ℕ))
    → IsTable table
    → (value (most_common table).0 table ≡ (most_common table).1)
      × ((r : String) → value r table ≤ (most_common table).1)
unfolding most_common
most_common_lem [] h = (refl, λ r. omega arith)
most_common_lem ((k, n) ∷ table) (new, h) = (
  (entry_of (greatest (k, n) table) k n table new (greatest-IsEntry (k, n) table h)).0,
  λ r. ground (arith, (greatest_bounds (k, n) r table).0, (greatest_bounds (k, n) r table).1),
)

-- The lines that the detection looks at.
abbrev pub lines_of : Option (List String) → List String
lines_of none = []
lines_of (some file) = stripped file

-- What a detection says of the lines.
pub record Finds (threshold : ℕ) (lines : List String) (d : LoopDetection) : Type 0 where
  pub counted : occurrences_of d.pattern lines ≡ d.occurrences
  pub most : (r : String) → occurrences_of r lines ≤ d.occurrences
  pub detects : (d.detected ≡ true) ↔ ((r : String) × (threshold ≤ occurrences_of r lines))

found_in-Finds :
    (threshold : ℕ) (lines : List String) (e : String × ℕ)
    → occurrences_of e.0 lines ≡ e.1
    → ((r : String) → occurrences_of r lines ≤ e.1)
    → Finds threshold lines (found_in threshold lines e)
unfolding found_in
found_in-Finds threshold lines (pattern, n) counted most = record {
  counted = counted;
  most = most;
  detects = (λ h. (pattern, ground (arith, h, counted)), λ (r, h). ground (arith, h, most r));
}

table_counts :
    (r : String) (lines : List String) → value r (count_all lines []) ≡ occurrences_of r lines
table_counts r lines = omega (arith, value-count_all r lines [])

detect_among-Finds :
    (threshold : ℕ) (lines : List String)
    → 1 ≤ threshold
    → Finds threshold lines (detect_among threshold lines)
unfolding detect_among
detect_among-Finds threshold [] h = record {
  counted = refl;
  most = λ r. omega arith;
  detects = (λ e. cc, λ (r, e). absurd (omega (arith, h, e)));
}
detect_among-Finds threshold (l ∷ lines) h =
    let table = count_all (l ∷ lines) [] in
    let (entry, most) = most_common_lem table (count_all-IsTable (l ∷ lines) [] tt) in
    found_in-Finds threshold (l ∷ lines) (most_common table)
      (sym (table_counts (most_common table).0 (l ∷ lines)) ∙ entry)
      (λ r. subst (λ n. n ≤ (most_common table).1) (table_counts r (l ∷ lines)) (most r))

-- For a threshold of at least one, `detect_loop` detects a loop just if some fingerprint stands in the
-- state file as often as the threshold; the pattern that it names stands there as often as it says, and
-- none stands there more often.
pub detect_loop-Finds :
    (threshold : ℕ) (file : Option (List String))
    → 1 ≤ threshold
    → Finds threshold (lines_of file) (detect_loop threshold file)
unfolding detect_loop detect_among
detect_loop-Finds threshold none h = detect_among-Finds threshold [] h
detect_loop-Finds threshold (some lines) h = detect_among-Finds threshold (stripped lines) h
