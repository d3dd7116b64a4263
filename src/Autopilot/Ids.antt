-- ===== src/Autopilot/Ids.antt =====
-- driftdriver/project_autopilot.py: the ids of the tasks in a listing, a batch and a record of launches.
use driftdriver.Base.{
  ℕ, zero, suc, String, ◌≡◌, ◌⊎◌, inl, inr, refl, sym, subst, Bool, true, false, not, ◌||◌, List,
  [], ◌∷◌, keep, is_in, Bool-cases, arith, eq_iff, eq_refl, ◌==◌, if◌then◌else◌,
}
use driftdriver.Base.Value.{Fields, ℤ, pos, negsuc}
use driftdriver.Autopilot.State.{id_of}
use driftdriver.Autopilot.Loop.{take, slice}
use driftdriver.Autopilot.Batch.{Pushes}
use driftdriver.Autopilot.Walk.{ids_of}

-- No id occurs twice.
abbrev pub Distinct : List String → Type 0
Distinct [] = Unit
Distinct (id ∷ ids) = (is_in id ids ≡ false) × Distinct ids

-- Every id of the first list is in the second.
abbrev pub Within : List String → List String → Type 0
Within ids l = (j : String) → is_in j ids ≡ true → is_in j l ≡ true

pub outside_of :
    (ids l : List String) → Within ids l → (j : String) → is_in j l ≡ false → is_in j ids ≡ false
outside_of ids l w j h = elim (Bool-cases (is_in j ids)) [
  | inl on ↦ absurd (cc (w j on, h))
  | inr off ↦ off
]

pub in_first :
    (j i : String) (is : List String) → is_in j (i ∷ is) ≡ true → (j ≡ i) ⊎ (is_in j is ≡ true)
in_first j i is h = elim (Bool-cases (j == i)) [
  | inl same ↦ inl ((eq_iff j i).0 same)
  | inr other ↦ inr (ground (arith, other, h))
]

kept_first :
    (f : String → Bool) (i : String) (is : List String)
    → ((j : String) → is_in j is ≡ true → f j ≡ false)
    → f i ≡ false
    → (j : String) → is_in j (i ∷ is) ≡ true
    → f j ≡ false
kept_first f i is k off j h = elim (in_first j i is h) [
  | inl same ↦ subst (λ x. f x ≡ false) (sym same) off
  | inr later ↦ k j later
]

kept_if :
    (f : String → Bool) (t : Fields) (ts : List Fields)
    → ((j : String) → is_in j (ids_of ts) ≡ true → f j ≡ false)
    → (b : Bool) → f (id_of t) ≡ b
    → (j : String) → is_in j (ids_of (if not b then t ∷ ts else ts)) ≡ true
    → f j ≡ false
kept_if f t ts k true e = k
kept_if f t ts k false e = kept_first f (id_of t) (ids_of ts) k e

-- What is left out by the test on the ids is not among the rest.
pub keep_unprocessed :
    (f : String → Bool) (ts : List Fields) (j : String)
    → is_in j (ids_of (keep (λ t. not (f (id_of t))) ts)) ≡ true
    → f j ≡ false
keep_unprocessed f [] j h = absurd (cc (h))
keep_unprocessed f (t ∷ ts) j h =
    kept_if f t (keep (λ t. not (f (id_of t))) ts) (keep_unprocessed f ts) (f (id_of t)) refl j h

pub keep-Within : (p : Fields → Bool) (ts : List Fields) → Within (ids_of (keep p ts)) (ids_of ts)
keep-Within p [] j h = h
keep-Within p (t ∷ ts) j h = ground (arith, keep-Within p ts j)

pub keep-Distinct :
    (p : Fields → Bool) (ts : List Fields) → Distinct (ids_of ts) → Distinct (ids_of (keep p ts))
keep-Distinct p [] h = h
keep-Distinct p (t ∷ ts) h = elim (Bool-cases (p t)) [
  | inl on ↦ rw on (outside_of _ _ (keep-Within p ts) (id_of t) h.0, keep-Distinct p ts h.1)
  | inr off ↦ rw off (keep-Distinct p ts h.1)
]

take-Within : (n : ℕ) (ts : List Fields) → Within (ids_of (take n ts)) (ids_of ts)
unfolding take
take-Within zero ts j h = absurd (cc (h))
take-Within (suc n) [] j h = h
take-Within (suc n) (t ∷ ts) j h = ground (arith, take-Within n ts j)

take-Distinct : (n : ℕ) (ts : List Fields) → Distinct (ids_of ts) → Distinct (ids_of (take n ts))
unfolding take
take-Distinct zero ts h = tt
take-Distinct (suc n) [] h = h
take-Distinct (suc n) (t ∷ ts) h =
    (outside_of _ _ (take-Within n ts) (id_of t) h.0, take-Distinct n ts h.1)

pub slice-Within : (z : ℤ) (ts : List Fields) → Within (ids_of (slice z ts)) (ids_of ts)
unfolding slice
slice-Within (pos n) ts = take-Within n ts
slice-Within (negsuc n) ts = take-Within _ ts

pub slice-Distinct :
    (z : ℤ) (ts : List Fields) → Distinct (ids_of ts) → Distinct (ids_of (slice z ts))
unfolding slice
slice-Distinct (pos n) ts = take-Distinct n ts
slice-Distinct (negsuc n) ts = take-Distinct _ ts

pub in_later : (j i : String) (is : List String) → is_in j is ≡ true → is_in j (i ∷ is) ≡ true
in_later j i is h = ground arith

pub in_head : (i : String) (is : List String) → is_in i (i ∷ is) ≡ true
in_head i is = rw (eq_refl i) refl

still_new :
    (i : String) (is l : List String)
    → is_in i is ≡ false
    → ((j : String) → is_in j (i ∷ is) ≡ true → is_in j l ≡ false)
    → (j : String) → is_in j is ≡ true
    → is_in j (i ∷ l) ≡ false
still_new i is l once new j h = elim (Bool-cases (j == i)) [
  | inl same ↦ absurd (cc (subst (λ x. is_in x is ≡ true) ((eq_iff j i).0 same) h, once))
  | inr other ↦ rw other (new j (in_later j i is h))
]

-- Ids that are distinct and new stay distinct when some are put in front.
pub Pushes-Distinct :
    (ids l l' : List String)
    → Pushes ids l l'
    → Distinct ids
    → Distinct l
    → ((j : String) → is_in j ids ≡ true → is_in j l ≡ false)
    → Distinct l'
Pushes-Distinct [] l l' h d e new = subst Distinct (sym h) e
Pushes-Distinct (i ∷ is) l l' (inl h) d e new =
    Pushes-Distinct is l l' h d.1 e (λ j in_is. new j (in_later j i is in_is))
Pushes-Distinct (i ∷ is) l l' (inr h) d e new =
    Pushes-Distinct is (i ∷ l) l' h d.1 (new i (in_head i is), e) (still_new i is l d.0 new)

-- Nothing else is put in front.
pub Pushes-Within :
    (ids l l' : List String) (j : String)
    → Pushes ids l l'
    → is_in j l' ≡ true
    → (is_in j ids || is_in j l) ≡ true
Pushes-Within [] l l' j h e = subst (λ k. is_in j k ≡ true) h e
Pushes-Within (i ∷ is) l l' j (inl h) e = ground (arith, Pushes-Within is l l' j h e)
Pushes-Within (i ∷ is) l l' j (inr h) e = ground (arith, Pushes-Within is (i ∷ l) l' j h e)
