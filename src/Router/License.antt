-- ===== src/Router/License.antt =====
-- driftdriver/task_router.py: what must have happened before the router claims, spawns or posts, and the
-- admission check.
use driftdriver.Base.{ℕ, String, ◌≡◌, refl, true, inl, inr, List, [], ◌∷◌, Bool-cases}
use driftdriver.Base.Value.{Result, ok, err}
use driftdriver.Base.Platform.{Platform}
use driftdriver.Control.Authority.{Verdict}
use driftdriver.Router.Act.{
  Outside, Happening, granted, claimed, posted, unlocked, spawned, unclaimed, Run, Act, resume,
  ◌>>=◌, note_verdict, authority_at, settle_check, dispatch_admission,
}

module _ (p : Platform) (o : Outside) where
  -- The last thing was an admission check, but for the removal of a stale lock, and the authority that it
  -- loaded permits dispatch.
  abbrev pub Granted : List Happening → Type 0
  Granted (granted k ∷ hs) = (v : Verdict) × (authority_at p o k ≡ ok v) × (v.enabled ≡ true)
  Granted (unlocked ∷ hs) = Granted hs
  Granted _ = ⊥

  -- The last thing was a claim of the task that succeeded.
  abbrev pub Claimed : String → List Happening → Type 0
  Claimed id (claimed j actor b ∷ hs) = (j ≡ id) × (b ≡ true)
  Claimed id _ = ⊥

  -- The last thing was a request about the task.
  abbrev pub WasPosted : String → List Happening → Type 0
  WasPosted id (posted j ∷ hs) = j ≡ id
  WasPosted id _ = ⊥

  -- What must have been the last thing before.
  abbrev pub Licensed : Happening → List Happening → Type 0
  Licensed (claimed id actor b) hs = Granted hs
  Licensed (spawned id cmd) hs = Granted hs
  Licensed unlocked hs = Granted hs
  Licensed (posted id) hs = Claimed id hs
  Licensed (unclaimed id) hs = WasPosted id hs
  Licensed _ hs = Unit

  abbrev pub IsGuarded : List Happening → Type 0
  IsGuarded [] = Unit
  IsGuarded (h ∷ hs) = Licensed h hs × IsGuarded hs

  abbrev pub Safe : Run → Type 0
  Safe r = IsGuarded r.happenings

  -- A computation leaves a guarded record guarded.
  abbrev pub Keeps {ℓ} : {A : Type ℓ} → Act A → Type 0
  Keeps m = (r : Run) → Safe r → Safe (m r).0

  pub resume-Safe {ℓ κ} :
      {A : Type ℓ} {B : Type κ} (x : Run × Result A) (f : A → Act B)
      → Safe x.0
      → ((a : A) → Keeps (f a))
      → Safe (resume x f).0
  resume-Safe (r, ok a) f h k = k a r h
  resume-Safe (r, err e) f h k = h

  pub note-Granted :
      (r : Run) (v : Verdict)
      → authority_at p o r.checks ≡ ok v
      → v.enabled ≡ true
      → Granted (note_verdict r.checks v ∷ r.happenings)
  note-Granted r v h on = rw on (v, h, on)

  pub note-IsGuarded :
      (k : ℕ) (v : Verdict) (hs : List Happening) → IsGuarded hs → IsGuarded (note_verdict k v ∷ hs)
  note-IsGuarded k v hs h = elim (Bool-cases v.enabled) [
    | inl on ↦ rw on (tt, h)
    | inr off ↦ rw off (tt, h)
  ]

  -- What follows an admission check may rely on its verdict.
  checked {ℓ} :
      {A : Type ℓ} (f : Verdict → Act A) (r : Run) (x : Result Verdict)
      → authority_at p o r.checks ≡ x
      → ((v : Verdict) (r : Run)
          → Safe r
          → (v.enabled ≡ true → Granted r.happenings)
          → Safe (f v r).0)
      → Safe r
      → Safe (resume (settle_check x r) f).0
  unfolding settle_check
  checked f r (ok v) e k h = k v _ (note-IsGuarded r.checks v r.happenings h) (note-Granted r v e)
  checked f r (err x) e k h = h

  pub admission-Safe {ℓ} :
      {A : Type ℓ} (f : Verdict → Act A) (r : Run)
      → ((v : Verdict) (r : Run)
          → Safe r
          → (v.enabled ≡ true → Granted r.happenings)
          → Safe (f v r).0)
      → Safe r
      → Safe ((dispatch_admission p o >>= f) r).0
  unfolding dispatch_admission
  admission-Safe f r k h = checked f r (authority_at p o r.checks) refl k h
