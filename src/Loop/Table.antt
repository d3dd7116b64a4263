-- ===== src/Loop/Table.antt =====
-- driftdriver/loop_detection.py: the table of counts, against the lines that it counts.
use driftdriver.Base.{
  ℕ, suc, ◌+◌, String, ◌≡◌, refl, ◌∙◌, Bool, false, ◌||◌, inl, inr, List, [], ◌∷◌, any, arith,
  Bool-cases, eq_iff, ◌==◌, if◌then◌else◌,
}
use driftdriver.Loop.Detect.{count_one, count_all, occurrences_of}

-- The count that a table has for a key.
abbrev pub value : String → List (String × ℕ) → ℕ
value s [] = 0
value s ((k, n) ∷ table) = let rest = value s table in if k == s then n else rest

pub value-count_one :
    (s r : String) (table : List (String × ℕ))
    → value r (count_one s table) ≡ (if s == r then suc (value r table) else value r table)
unfolding count_one
value-count_one s r [] = refl
value-count_one s r ((k, n) ∷ table) =
    ground (arith, eq_iff k s, eq_iff s r, eq_iff k r, value-count_one s r table)

pub value-count_all :
    (r : String) (ss : List String) (table : List (String × ℕ))
    → value r (count_all ss table) ≡ value r table + occurrences_of r ss
unfolding count_all
value-count_all r [] table = omega arith
value-count_all r (s ∷ ss) table =
    ground (arith, value-count_all r ss (count_one s table), value-count_one s r table)

abbrev pub has : String → List (String × ℕ) → Bool
has s table = any (λ e. e.0 == s) table

-- A table names no key twice.
abbrev pub IsTable : List (String × ℕ) → Type 0
IsTable [] = Unit
IsTable ((k, n) ∷ table) = (has k table ≡ false) × IsTable table

pub has-count_one :
    (s r : String) (table : List (String × ℕ)) → has r (count_one s table) ≡ (has r table || s == r)
unfolding count_one
has-count_one s r [] = ground arith
has-count_one s r ((k, n) ∷ table) =
    ground (arith, eq_iff k s, eq_iff s r, eq_iff k r, has-count_one s r table)

pub count_one-IsTable :
    (s : String) (table : List (String × ℕ)) → IsTable table → IsTable (count_one s table)
unfolding count_one
count_one-IsTable s [] h = (refl, tt)
count_one-IsTable s ((k, n) ∷ table) (new, others) = elim (Bool-cases (k == s)) [
  | inl same ↦ rw same (new, others)
  | inr other ↦ rw other (
    has-count_one s k table ∙ ground (arith, new, other, eq_iff k s, eq_iff s k),
    count_one-IsTable s table others,
  )
]

pub count_all-IsTable :
    (ss : List String) (table : List (String × ℕ)) → IsTable table → IsTable (count_all ss table)
unfolding count_all
count_all-IsTable [] table h = h
count_all-IsTable (s ∷ ss) table h =
    count_all-IsTable ss (count_one s table) (count_one-IsTable s table h)
