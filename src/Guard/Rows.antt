-- ===== src/Guard/Rows.antt =====
-- driftdriver/drift_task_guard.py: the rows of a ledger that say that a finding was ignored.
use driftdriver.Base.{
  ℕ, suc, String, ◌≡◌, refl, ap, Bool, true, false, not, ◌&&◌, ◌||◌, Option, none, some, List, [],
  ◌∷◌, count_if, is_empty, strip, Bool-cases, inl, inr, arith, eq_iff, ◌==◌, if◌then◌else◌,
}
use driftdriver.Base.Value.{Value, str, dict, ok, get, get_or, is_the_text}
use driftdriver.Base.Platform.{Platform, str_of}
use driftdriver.Guard.Repeated.{LaneKey, key_text, ignored_pair, with_pair, ignored_pairs}
use driftdriver.Guard.Threshold.{same_pair}

-- A row of the ledger, a dictionary, that says that a finding of the lane was ignored.
unfoldable pub ignores : Platform → LaneKey → Option Value → Bool
ignores p a (some (dict row)) =
    is_the_text "ignored" (get "outcome" row)
    && (strip (str_of p (get_or "lane" (str "") row)) == a.0)
    && (strip (str_of p (get_or "finding_key" (str "") row)) == a.1)
ignores p a _ = false

-- Neither the lane nor the key is empty.
abbrev pub is_named : LaneKey → Bool
is_named a = not (is_empty a.0 || is_empty a.1)

-- Every line is blank, no JSON, or a dictionary.
abbrev pub AllRows : List (Option Value) → Type 0
AllRows [] = Unit
AllRows (none ∷ lines) = AllRows lines
AllRows (some (dict row) ∷ lines) = AllRows lines
AllRows (some _ ∷ lines) = ⊥

-- How often a pair counts, with one row more.
abbrev one_more : LaneKey → Bool → ℕ → ℕ
one_more a counts n = if is_named a then (if counts then suc n else n) else 0

pair_of : Bool → String → String → Option LaneKey
pair_of t lane key = if t && not (is_empty lane || is_empty key) then some (lane, key) else none

count_step :
    (a : LaneKey) (t : Bool) (lane key : String) (pairs : List LaneKey) (n : ℕ)
    → count_if (same_pair a) pairs ≡ (if is_named a then n else 0)
    → count_if (same_pair a) (with_pair (pair_of t lane key) pairs)
      ≡ one_more a (t && (lane == a.0) && (key == a.1)) n
unfolding pair_of
count_step a false lane key pairs n h = h
count_step (l, k) true lane key pairs n h = elim (Bool-cases (lane == l)) [
  | inl on ↦ elim (Bool-cases (key == k)) [
    | inl same ↦ ground (
      arith,
      on,
      same,
      h,
      ap is_empty ((eq_iff lane l).0 on),
      ap is_empty ((eq_iff key k).0 same),
    )
    | inr other ↦ ground (arith, on, other, h)
  ]
  | inr off ↦ ground (arith, off, h)
]

-- The pairs that are read off the lines, and how often each finding counts among them.
unfoldable pub Counted : Platform → List (Option Value) → List LaneKey → Type 0
Counted p lines pairs =
    (a : LaneKey)
    → count_if (same_pair a) pairs ≡ (if is_named a then count_if (ignores p a) lines else 0)

pub lines-Counted :
    (p : Platform) (lines : List (Option Value))
    → AllRows lines
    → (pairs : List LaneKey) × (ignored_pairs p lines ≡ ok pairs) × Counted p lines pairs
unfolding ignored_pairs ignored_pair ignores pair_of Counted
lines-Counted p [] h = ([], refl, λ a. ground arith)
lines-Counted p (none ∷ lines) h = lines-Counted p lines h
lines-Counted p (some (dict row) ∷ lines) h =
    let (pairs, read, counted) = lines-Counted p lines h in
    let t = is_the_text "ignored" (get "outcome" row) in
    let lane = key_text p "lane" row in
    let key = key_text p "finding_key" row in
    (
      with_pair (pair_of t lane key) pairs,
      rw read refl,
      λ a. count_step a t lane key pairs (count_if (ignores p a) lines) (counted a),
    )
lines-Counted p (some Value.null ∷ lines) h = absurd h
lines-Counted p (some (Value.bool b) ∷ lines) h = absurd h
lines-Counted p (some (Value.int n) ∷ lines) h = absurd h
lines-Counted p (some (Value.real n) ∷ lines) h = absurd h
lines-Counted p (some (str s) ∷ lines) h = absurd h
lines-Counted p (some (Value.list vs) ∷ lines) h = absurd h
