-- ===== src/Base/Act.antt =====
-- Computations that change a state and may raise, as Python functions do: what was done before the
-- exception stays done.
use mathlib.Core.Path.{◌≡◌, refl}
use mathlib.Core.Bool.{Bool, true, false}
use driftdriver.Base.Tests.{if◌then◌else◌}
use driftdriver.Base.Value.{Result, ok, err}

abbrev pub Act {ℓ κ} : Type ℓ → Type κ → Type (ℓ ⊔ κ)
Act S A = S → S × Result A

module _ {ℓ κ} {S : Type ℓ} {A : Type κ} where
  abbrev pub return : A → Act S A
  return a s = (s, ok a)

  -- A computation that touches nothing outside.
  abbrev pub lift : Result A → Act S A
  lift m s = (s, m)

  abbrev pub resume {μ} : {B : Type μ} → S × Result A → (A → Act S B) → S × Result B
  resume (s, ok a) f = f a s
  resume (s, err e) f = (s, err e)

infixl 5 ◌>>=◌
abbrev pub ◌>>=◌ {ℓ κ μ} :
    {S : Type ℓ} {A : Type κ} {B : Type μ} → Act S A → (A → Act S B) → Act S B
◌>>=◌ m f s = resume (m s) f

-- What holds of an outcome: `Q` of the result and the state, or `E` of the state at an exception.
module _ {ℓ κ μ} {S : Type ℓ} (E : S → Type μ) where
  abbrev pub Holds : {A : Type κ} → (A → S → Type μ) → S × Result A → Type μ
  Holds Q (s, ok a) = Q a s
  Holds Q (s, err e) = E s

pub resume-Holds {ℓ κ λ₂ μ} :
    {S : Type ℓ} {A : Type κ} {B : Type λ₂} (E : S → Type μ) (Q : A → S → Type μ)
    (R : B → S → Type μ) (x : S × Result A) (f : A → Act S B)
    → Holds E Q x
    → ((a : A) (s : S) → Q a s → Holds E R (f a s))
    → Holds E R (resume x f)
resume-Holds E Q R (s, ok a) f h k = k a s h
resume-Holds E Q R (s, err e) f h k = h

-- What holds may be weakened.
pub weaken {ℓ κ μ ν} :
    {S : Type ℓ} {A : Type κ} (E : S → Type μ) (Q : A → S → Type μ) (F : S → Type ν)
    (R : A → S → Type ν) (x : S × Result A)
    → Holds E Q x
    → ((s : S) → E s → F s)
    → ((a : A) (s : S) → Q a s → R a s)
    → Holds F R x
weaken E Q F R (s, ok a) h f q = q a s h
weaken E Q F R (s, err e) h f q = f s h

-- A part that touches nothing.
pub lift-Holds {ℓ κ λ₂ μ} :
    {S : Type ℓ} {A : Type κ} {B : Type λ₂} (E : S → Type μ) (R : B → S → Type μ) (m : Result A)
    (s : S) (f : A → Act S B)
    → E s
    → ((a : A) → m ≡ ok a → Holds E R (f a s))
    → Holds E R (resume (s, m) f)
lift-Holds E R (ok a) s f h k = k a refl
lift-Holds E R (err e) s f h k = h

-- Both branches of a test.
pub either-Holds {ℓ κ μ} :
    {S : Type ℓ} {A : Type κ} (E : S → Type μ) (Q : A → S → Type μ) (b : Bool) (m n : Act S A)
    (s : S)
    → (b ≡ true → Holds E Q (m s))
    → (b ≡ false → Holds E Q (n s))
    → Holds E Q ((if b then m else n) s)
either-Holds E Q true m n s f g = f refl
either-Holds E Q false m n s f g = g refl
