-- ===== src/Base/Value.antt =====
-- The values of a dynamic program: what `json.loads` and `tomllib.loads` return, with the
-- conversions `bool`, `str` and `int` and the reads and writes of a `dict`.
use Prim.Native.Nat.{ℕ, zero, suc, ◌/◌, ◌^◌}
use Prim.Native.Char.{code}
use Prim.Native.String.{String}
use mathlib.Core.Path.{◌≡◌, refl}
use mathlib.Core.Logic.{◌≢◌}
use mathlib.Core.Bool.{Bool, true, false, not, ◌&&◌, ◌||◌}
use mathlib.Core.Option.{Option, none, some}
use mathlib.Core.List.{List, [], ◌∷◌}
use native.Mathlib.Omega.{arith}
use text.Mathlib.TextEquality.{eq_iff}
use driftdriver.Base.Tests.{◌==◌, ◌=?◌, if◌then◌else◌}
use driftdriver.Base.Text.{is_empty, strip, digits}

-- `negsuc n` is -(n + 1).
pub data ℤ : Type 0 where
  pos : ℕ → ℤ
  negsuc : ℕ → ℤ

-- A float: the finite one is `m / 2 ^ k`.
pub data Real : Type 0 where
  finite : ℤ → ℕ → Real
  infinite : Real
  not_a_number : Real

mutual
  pub data Value : Type 0 where
    null : Value
    bool : Bool → Value
    int : ℤ → Value
    real : Real → Value
    str : String → Value
    list : Values → Value
    dict : Fields → Value

  pub data Values : Type 0 where
    nil : Values
    cons : Value → Values → Values

  pub data Fields : Type 0 where
    end : Fields
    field : String → Value → Fields → Fields

-- The exceptions that the modelled code lets out.
pub data Fault : Type 0 where
  type_error value_error overflow_error key_error attribute_error missing_error conflict_error
        timeout_error os_error :
      Fault

pub data Result {ℓ} (A : Type ℓ) : Type ℓ where
  ok : A → Result A
  err : Fault → Result A

infixl 5 ◌>>=◌
abbrev pub ◌>>=◌ {ℓ κ} : {A : Type ℓ} {B : Type κ} → Result A → (A → Result B) → Result B
ok a >>= f = f a
err e >>= f = err e

abbrev pub is_zero : ℤ → Bool
is_zero (pos n) = n =? 0
is_zero (negsuc n) = false

abbrev real_truthy : Real → Bool
real_truthy (finite m k) = not (is_zero m)
real_truthy infinite = true
real_truthy not_a_number = true

-- `bool(v)`
abbrev pub truthy : Value → Bool
truthy null = false
truthy (bool b) = b
truthy (int n) = not (is_zero n)
truthy (real r) = real_truthy r
truthy (str s) = not (is_empty s)
truthy (list nil) = false
truthy (list (cons v vs)) = true
truthy (dict end) = false
truthy (dict (field k v d)) = true

-- `v or w`
abbrev pub or_else : Value → Value → Value
or_else v w = if truthy v then v else w

-- `v is True` and `v is False`
abbrev pub is_true : Value → Bool
is_true (bool b) = b
is_true _ = false

abbrev pub is_false : Value → Bool
is_false (bool b) = not b
is_false _ = false

abbrev pub is_bool : Value → Bool
is_bool (bool b) = true
is_bool _ = false

abbrev pub is_null : Value → Bool
is_null null = true
is_null _ = false

-- `v == 0`
abbrev pub equals_zero : Value → Bool
equals_zero (bool b) = not b
equals_zero (int n) = is_zero n
equals_zero (real (finite m k)) = is_zero m
equals_zero _ = false

abbrev pub as_dict : Value → Option Fields
as_dict (dict d) = some d
as_dict _ = none

-- `d.get(k)` in its two forms: `None`, or nothing, for a key that is not there.
unfoldable pub get? : String → Fields → Option Value
get? k end = none
get? k (field j v d) = if j == k then some v else get? k d

abbrev pub or_null : Option Value → Value
or_null none = null
or_null (some v) = v

abbrev pub get : String → Fields → Value
get k d = or_null (get? k d)

-- `d.get(k, default)`
abbrev pub get_or : String → Value → Fields → Value
get_or k default d = elim (get? k d) [ none ↦ default | some v ↦ v ]

-- `d[k] = v`
unfoldable pub put : String → Value → Fields → Fields
put k v end = field k v end
put k v (field j w d) = if j == k then field j v d else field j w (put k v d)

pub get-put :
    (k j : String) (v : Value) (d : Fields)
    → get? j (put k v d) ≡ (if k == j then some v else get? j d)
unfolding get? put
get-put k j v end = refl
get-put k j v (field i w d) = ground (arith, eq_iff k j, eq_iff i k, eq_iff i j, get-put k j v d)

abbrev pub keys : Fields → List String
keys end = []
keys (field k v d) = k ∷ keys d

abbrev pub is_text : Value → Bool
is_text (str s) = true
is_text _ = false

-- `all(isinstance(item, str) for item in value)`
unfoldable pub all_text : Values → Bool
all_text nil = true
all_text (cons v vs) = is_text v && all_text vs

abbrev pub is_the_text : String → Value → Bool
is_the_text s (str t) = t == s
is_the_text s _ = false

-- `s in value`, for a text `s` and a list
unfoldable pub has_text : String → Values → Bool
has_text s nil = false
has_text s (cons v vs) = is_the_text s v || has_text s vs

-- `list(map(Value, texts))`
abbrev pub texts : List String → Values
texts [] = nil
texts (s ∷ ss) = cons (str s) (texts ss)

-- The whole part of a finite float, towards zero.
truncate : ℤ → ℕ → ℤ
truncate (pos m) k = pos (m / 2 ^ k)
truncate (negsuc m) k = elim (suc m / 2 ^ k) [ zero ↦ pos 0 | suc q ↦ negsuc q ]

negate : ℕ → ℤ
negate zero = pos 0
negate (suc n) = negsuc n

abbrev number_of : (ℕ → ℤ) → Option ℕ → Result ℤ
number_of sign none = err Fault.value_error
number_of sign (some n) = ok (sign n)

signed : String → Result ℤ
signed String.[] = err Fault.value_error
signed (String.◌∷◌ c s) =
    if code c =? 45
    then number_of negate (digits 0 false s)
    else if code c =? 43
    then number_of pos (digits 0 false s)
    else number_of pos (digits 0 false (String.◌∷◌ c s))

-- `int(v)`
unfoldable pub to_int : Value → Result ℤ
unfolding signed truncate strip negate digits
to_int null = err Fault.type_error
to_int (bool b) = ok (pos (if b then 1 else 0))
to_int (int n) = ok n
to_int (real (finite m k)) = ok (truncate m k)
to_int (real infinite) = err Fault.overflow_error
to_int (real not_a_number) = err Fault.value_error
to_int (str s) = signed (strip s)
to_int (list vs) = err Fault.type_error
to_int (dict d) = err Fault.type_error

-- `max(0, n)`
abbrev pub not_negative : ℤ → ℕ
not_negative (pos n) = n
not_negative (negsuc n) = 0

to_int_test : to_int (str " -1_2\n") ≡ ok (negsuc 11)
unfolding to_int
to_int_test = refl

-- A computation that does not raise the conflict of two workgraph directories.
abbrev pub IsClean {ℓ} : {A : Type ℓ} → Result A → Type ℓ
IsClean {A} m = m ≢ err Fault.conflict_error

pub >>=-IsClean {ℓ} :
    {A B : Type ℓ} (m : Result A) (f : A → Result B)
    → IsClean m
    → ((a : A) → IsClean (f a))
    → IsClean (m >>= f)
>>=-IsClean (ok a) f h k = k a
>>=-IsClean (err e) f h k = λ q. h (cc)

pub ok-IsClean {ℓ} : {A : Type ℓ} (a : A) → IsClean (ok a)
ok-IsClean a h = cc

number_of-IsClean : (f : ℕ → ℤ) (o : Option ℕ) → IsClean (number_of f o)
number_of-IsClean f none h = cc
number_of-IsClean f (some n) h = cc

signed-IsClean : (s : String) → IsClean (signed s)
unfolding signed
signed-IsClean String.[] h = cc
signed-IsClean (String.◌∷◌ c s) h = ground (
  arith,
  number_of-IsClean negate (digits 0 false s),
  number_of-IsClean pos (digits 0 false s),
  number_of-IsClean pos (digits 0 false (String.◌∷◌ c s)),
)

pub to_int-IsClean : (v : Value) → IsClean (to_int v)
unfolding to_int
to_int-IsClean (str s) h = signed-IsClean (strip s) h
to_int-IsClean (real (finite m k)) h = cc
to_int-IsClean (real infinite) h = cc
to_int-IsClean (real not_a_number) h = cc
to_int-IsClean _ h = cc

pub ok_injective {ℓ} : {A : Type ℓ} {a b : A} → ok a ≡ ok b → a ≡ b
ok_injective h = cc

-- A chain that succeeds has a first value, and goes on from it.
pub >>=-eq-ok {ℓ κ} :
    {A : Type ℓ} {B : Type κ} (first : Result A) (next : A → Result B) {last : B}
    → (first >>= next) ≡ ok last
    → (value : A) × (first ≡ ok value) × (next value ≡ ok last)
>>=-eq-ok (ok value) next done = (value, refl, done)
>>=-eq-ok (err fault) next done = cc
