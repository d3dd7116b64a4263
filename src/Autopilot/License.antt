-- ===== src/Autopilot/License.antt =====
-- driftdriver/project_autopilot.py: what the record of a run must look like under the dispatch lease.
use driftdriver.Base.{
  ℕ, String, ◌≡◌, inl, inr, refl, Bool, true, false, List, [], ◌∷◌, Bool-cases, if◌then◌else◌,
}
use driftdriver.Base.Value.{Result}
use driftdriver.Base.Platform.{Platform}
use driftdriver.Base.Act.{resume, Holds, resume-Holds, lift-Holds}
use driftdriver.Control.Authority.{Verdict}
use driftdriver.Autopilot.State.{
  Outside, Happening, granted, denied, directed, launched, unclaimed, asked, State, Step, check,
  note_verdict, authority_at,
}

module _ (p : Platform) (o : Outside) where
  -- The last thing was a check, and the authority that it read permits dispatch.
  abbrev pub Granted : List Happening → Type 0
  Granted (granted k ∷ hs) = (authority_at p o k).enabled ≡ true
  Granted _ = ⊥

  -- The last thing was a check that denied dispatch, or the launch of the task's worker.
  abbrev pub GivenUp : String → List Happening → Type 0
  GivenUp id (denied k ∷ hs) = (authority_at p o k).enabled ≡ false
  GivenUp id (launched j ∷ hs) = j ≡ id
  GivenUp id _ = ⊥

  -- What must have been the last thing before.
  abbrev pub Licensed : Happening → List Happening → Type 0
  Licensed (directed id) hs = Granted hs
  Licensed (launched id) hs = Granted hs
  Licensed (asked peer id) hs = Granted hs
  Licensed (unclaimed id) hs = GivenUp id hs
  Licensed _ hs = Unit

  abbrev pub IsGuarded : List Happening → Type 0
  IsGuarded [] = Unit
  IsGuarded (h ∷ hs) = Licensed h hs × IsGuarded hs

  abbrev pub Safe : State → Type 0
  Safe s = IsGuarded s.happenings

  -- A computation leaves a guarded record guarded, whether it returns or raises.
  abbrev pub Keeps {ℓ} : {A : Type ℓ} → (State → State × Result A) → State → Type 0
  Keeps m s = Holds Safe (λ _ s. Safe s) (m s)

  pub bind-Keeps {ℓ κ} :
      {A : Type ℓ} {B : Type κ} (m : Step A) (f : A → Step B) (s : State)
      → Keeps m s
      → ((a : A) (s : State) → Safe s → Keeps (f a) s)
      → Keeps (λ s. resume (m s) f) s
  bind-Keeps m f s h k = resume-Holds Safe (λ _ s. Safe s) (λ _ s. Safe s) (m s) f h k

  pub lift-Keeps {ℓ κ} :
      {A : Type ℓ} {B : Type κ} (m : Result A) (f : A → Step B) (s : State)
      → Safe s
      → ((a : A) → Keeps (f a) s)
      → Keeps (λ s. resume (s, m) f) s
  lift-Keeps m f s h k = lift-Holds Safe (λ _ s. Safe s) m s f h (λ a e. k a)

  note-Safe :
      (k : ℕ) (v : Verdict) (hs : List Happening) → IsGuarded hs → IsGuarded (note_verdict k v ∷ hs)
  note-Safe k v hs h = elim (Bool-cases v.enabled) [
    | inl on ↦ rw on (tt, h)
    | inr off ↦ rw off (tt, h)
  ]

  note-Granted :
      (k : ℕ) (v : Verdict) (hs : List Happening)
      → authority_at p o k ≡ v
      → v.enabled ≡ true
      → Granted (note_verdict k v ∷ hs)
  note-Granted k v hs e on = rw on (cc (e, on))

  note-GivenUp :
      (k : ℕ) (v : Verdict) (hs : List Happening) (id : String)
      → authority_at p o k ≡ v
      → v.enabled ≡ false
      → GivenUp id (note_verdict k v ∷ hs)
  note-GivenUp k v hs id e off = rw off (cc (e, off))

  -- What follows a check may rely on its verdict.
  pub check-Keeps {ℓ} :
      {A : Type ℓ} (f : Verdict → Step A) (s : State)
      → Safe s
      → ((v : Verdict) (s : State)
          → Safe s
          → (v.enabled ≡ true → Granted s.happenings)
          → (v.enabled ≡ false → (id : String) → GivenUp id s.happenings)
          → Keeps (f v) s)
      → Keeps (λ s. resume (check p o s) f) s
  unfolding check
  check-Keeps f s h k =
      let v = authority_at p o s.checks in
      k v _ (note-Safe s.checks v s.happenings h) (note-Granted s.checks v s.happenings refl)
        (λ off id. note-GivenUp s.checks v s.happenings id refl off)

  -- Both branches of a test.
  pub either-Keeps {ℓ} :
      {A : Type ℓ} (b : Bool) (m n : Step A) (s : State)
      → (b ≡ true → Keeps m s)
      → (b ≡ false → Keeps n s)
      → Keeps (if b then m else n) s
  either-Keeps true m n s f g = f refl
  either-Keeps false m n s f g = g refl
