-- ===== src/Budget/Ledger.antt =====
-- driftdriver/budget_ledger.py: the append-only ledger and the count of recent operations. A line is
-- what it parses to; `none` is a blank or malformed line. An instant is in microseconds.
use driftdriver.Base.{
  ℕ, suc, ◌+◌, ◌≤◌, String, ◌≡◌, refl, Bool, false, ◌&&◌, Option, none, some, List, [], ◌∷◌, ◌++◌,
  arith, ap, leb, ◌==◌, if◌then◌else◌,
}
use driftdriver.Base.Value.{
  Value, str, dict, Fields, field, end, Fault, Result, ok, err, ◌>>=◌, get?, get, get_or, >>=-eq-ok,
  ok_injective, is_the_text,
}
use driftdriver.Base.Platform.{Platform}

pub record BudgetEntry : Type 0 where
  pub actor_id : String
  pub actor_class : String
  pub operation : String
  pub repo : String
  pub timestamp : String
  pub detail : String

abbrev pub Ledger : Type 0
Ledger = List (Option Value)

-- `asdict(entry)`, as it reads back
unfoldable pub entry_fields : BudgetEntry → Fields
entry_fields e = field "actor_id" (str e.actor_id) (
    field "actor_class" (str e.actor_class) (
      field "operation" (str e.operation) (
        field "repo" (str e.repo)
          (field "timestamp" (str e.timestamp) (field "detail" (str e.detail) end)))))

-- `record_operation`: the ledger after it.
unfoldable pub record_operation :
    Platform → ℕ → String → String → String → String → String → Ledger → Ledger
record_operation p now actor_id actor_class operation repo detail ledger =
    ledger
    ++ some (
        dict (
          entry_fields (record {
            actor_id = actor_id;
            actor_class = actor_class;
            operation = operation;
            repo = repo;
            timestamp = p.iso now;
            detail = detail;
          })))
      ∷ []

-- `_parse_ledger`
unfoldable pub parse_ledger : Ledger → List Value
parse_ledger [] = []
parse_ledger (none ∷ lines) = parse_ledger lines
parse_ledger (some v ∷ lines) = v ∷ parse_ledger lines

-- The `try` around the timestamp: a value that is no text is a `TypeError`.
unfoldable pub stamp_of : Platform → Value → Option ℕ
stamp_of p (str s) = p.from_iso s
stamp_of p _ = none

abbrev within : ℕ → ℕ → Option ℕ → Bool
within now window none = false
within now window (some ts) = leb now (ts + window)

-- One turn of the loops, which differ in the key: 1 if the entry counts. An entry that is no dictionary
-- has no `get`.
unfoldable pub counts : Platform → ℕ → String → String → String → ℕ → Value → Result Bool
unfolding stamp_of
counts p now key who operation window (dict d) = ok (
    is_the_text who (get key d)
    && is_the_text operation (get "operation" d)
    && within now window (stamp_of p (get_or "timestamp" (str "") d)))
counts p now key who operation window _ = err Fault.attribute_error

unfoldable pub count_entries : Platform → ℕ → String → String → String → ℕ → List Value → Result ℕ
count_entries p now key who operation window [] = ok 0
count_entries p now key who operation window (v ∷ vs) =
    counts p now key who operation window v >>= λ b.
    count_entries p now key who operation window vs >>= λ n. ok (if b then suc n else n)

-- `recent_count`
unfoldable pub recent_count : Platform → ℕ → String → String → ℕ → Ledger → Result ℕ
recent_count p now actor_id operation window ledger =
    count_entries p now "actor_id" actor_id operation window (parse_ledger ledger)

-- `recent_count_by_class`
unfoldable pub recent_count_by_class : Platform → ℕ → String → String → ℕ → Ledger → Result ℕ
recent_count_by_class p now actor_class operation window ledger =
    count_entries p now "actor_class" actor_class operation window (parse_ledger ledger)

parse_ledger-append :
    (xs ys : Ledger) → parse_ledger (xs ++ ys) ≡ parse_ledger xs ++ parse_ledger ys
unfolding parse_ledger
parse_ledger-append [] ys = refl
parse_ledger-append (none ∷ xs) ys = parse_ledger-append xs ys
parse_ledger-append (some v ∷ xs) ys = ap (λ l. v ∷ l) (parse_ledger-append xs ys)

count_entries-append_one :
    (p : Platform) (now : ℕ) (key who operation : String) (window : ℕ) (vs : List Value) (v : Value)
    {n : ℕ} {b : Bool}
    → count_entries p now key who operation window vs ≡ ok n
    → counts p now key who operation window v ≡ ok b
    → count_entries p now key who operation window (vs ++ v ∷ []) ≡ ok (if b then n + 1 else n)
unfolding count_entries
count_entries-append_one p now key who operation window [] v h k =
    rw k (ground (arith, ok_injective h))
count_entries-append_one p now key who operation window (u ∷ vs) v {n} {b} h k =
    let (c, first, rest) = >>=-eq-ok (counts p now key who operation window u) _ h in
    let (m, others, last) = >>=-eq-ok (count_entries p now key who operation window vs) _ rest in
    let ih = count_entries-append_one p now key who operation window vs v others k in
    rw (first, ih) (ground (arith, ok_injective last))

-- On a ledger whose count of an actor and an operation is defined, recording an operation at an
-- instant that prints adds one to that count, at any reading of the clock up to the end of the window,
-- if it is by that actor and of that name, and nothing otherwise.
pub recent_count-record_operation :
    (p : Platform) (now later : ℕ) (who what : String) (window : ℕ)
    (actor_id actor_class operation repo detail : String) (ledger : Ledger) {n : ℕ}
    → now ≤ p.last_instant
    → recent_count p later who what window ledger ≡ ok n
    → recent_count p later who what window
        (record_operation p now actor_id actor_class operation repo detail ledger)
      ≡ ok (if actor_id == who && operation == what && leb later (now + window) then n + 1 else n)
unfolding recent_count record_operation entry_fields counts get? parse_ledger
recent_count-record_operation p now later who what window actor_id actor_class operation repo detail
      ledger fits h =
    rw parse_ledger-append (
      count_entries-append_one p later "actor_id" who what window (parse_ledger ledger) _ h
        (rw (p.from_iso-iso now fits) refl))
