-- ===== src/Router/Act.antt =====
-- driftdriver/task_router.py: what the router does to the outside, as a record of what happened, and
-- `_dispatch_admission`. Each admission check meets the clock and the files of its own moment.
use driftdriver.Base.{ℕ, suc, String, Bool, Option, List, ◌∷◌, if◌then◌else◌}
use driftdriver.Base.Value.{Value, Fields, Result, ok, err, ℤ, Fault}
use driftdriver.Base.Platform.{Platform}
use driftdriver.Control.Authority.{Verdict, Repository, load_dispatch_authority}

-- What `subprocess.run` gives: an exit code with both outputs, a timeout, an `OSError` with its text, or
-- another exception.
pub data Ran : Type 0 where
  exited : ℤ → String → String → Ran
  timed_out : Ran
  broken : String → Ran
  crashed : Fault → Ran

-- What an HTTP request gives: an answer, the `URLError` or `OSError`, or another exception.
pub data Posted : Type 0 where
  accepted : Posted
  refused : String → Posted
  raised : Fault → Posted

-- What a request for a task's status gives: the JSON, or the text of any exception.
pub data Answer : Type 0 where
  got : Value → Answer
  missed : String → Answer

-- What the router meets outside. The admission check number `k` happens at `moment k`; `utc_instant` is
-- `datetime.fromisoformat` with UTC for a text without an offset, in microseconds, an instant before the
-- epoch counting as 0. `locked` says that a file graph.lock is left over.
pub record Outside : Type 0 where
  pub moment : ℕ → ℕ × Repository
  pub clock : ℕ
  pub utc_instant : String → Option ℕ
  pub wg_dir : Result String
  pub repo_name : String
  pub repo_path : String
  pub locked : Bool
  pub claim : String → String → Ran
  pub unclaim : String → Ran
  pub log : String → String → Ran
  pub spawn : List Value → Ran
  pub post : String → Fields → Posted
  pub poll : String → Answer
  pub finish : String → Ran
  pub fail : String → String → Ran

-- What happened. A check that granted admission carries its number.
pub data Happening : Type 0 where
  granted : ℕ → Happening
  denied : ℕ → Happening
  claimed : String → String → Bool → Happening
  posted : String → Happening
  unlocked : Happening
  spawned : String → List Value → Happening
  unclaimed : String → Happening
  logged : String → Happening
  marked_done : String → Happening
  marked_failed : String → String → Happening

-- The number of checks so far, and what happened, the newest first.
pub record Run : Type 0 where
  pub checks : ℕ
  pub happenings : List Happening

-- A computation that may raise, with what it did until then.
abbrev pub Act {ℓ} : Type ℓ → Type ℓ
Act A = Run → Run × Result A

abbrev pub return {ℓ} : {A : Type ℓ} → A → Act A
return a r = (r, ok a)

abbrev pub resume {ℓ κ} : {A : Type ℓ} {B : Type κ} → Run × Result A → (A → Act B) → Run × Result B
resume (r, ok a) f = f a r
resume (r, err e) f = (r, err e)

infixl 5 ◌>>=◌
abbrev pub ◌>>=◌ {ℓ κ} : {A : Type ℓ} {B : Type κ} → Act A → (A → Act B) → Act B
◌>>=◌ m f r = resume (m r) f

-- A computation that touches nothing outside.
abbrev pub lift {ℓ} : {A : Type ℓ} → Result A → Act A
lift m r = (r, m)

abbrev pub happen : Happening → Act (Unit {0})
happen h r = (record r { happenings = h ∷ r.happenings }, ok tt)

-- A check that came to its verdict.
abbrev pub note_verdict : ℕ → Verdict → Happening
note_verdict k v = if v.enabled then granted k else denied k

-- The authority that the check number `k` loads.
abbrev pub authority_at : Platform → Outside → ℕ → Result Verdict
authority_at p o k = load_dispatch_authority p (o.moment k).0 (o.moment k).1

unfoldable pub settle_check : Result Verdict → Act Verdict
settle_check (ok v) r =
    (record { checks = suc r.checks; happenings = note_verdict r.checks v ∷ r.happenings }, ok v)
settle_check (err e) r = (record r { checks = suc r.checks }, err e)

-- `_dispatch_admission`; `load_dispatch_authority` turns every fault but a conflict of directories into
-- a denial already, and this function lets the conflict through.
unfoldable pub dispatch_admission : Platform → Outside → Act Verdict
dispatch_admission p o r = settle_check (authority_at p o r.checks) r

-- A `wg` call whose exceptions are not caught.
abbrev pub uncaught : Ran → Result (Unit {0})
uncaught (exited code out problem) = ok tt
uncaught timed_out = err Fault.timeout_error
uncaught (broken e) = err Fault.os_error
uncaught (crashed f) = err f
