-- ===== src/Scenarios/Toy.antt =====
-- A platform to run the code on: an instant is written as its binary digits, the lowest first.
use Prim.Native.Char.{code}
use driftdriver.Base.{
  ℕ, zero, suc, ◌+◌, ◌*◌, ◌≤◌, ◌<◌, ◌%◌, ◌/◌, String, ◌≡◌, refl, ap, false, Option, none, some,
  arith, is_empty, is_space, strip, left_strip, right_strip, replace_z, ◌=?◌, if◌then◌else◌,
}
use driftdriver.Base.Value.{Result, ok, err}
use driftdriver.Base.Platform.{Platform}

unfoldable pub encode : ℕ → ℕ → String
encode zero t = "t"
encode (suc width) t =
    if t % 2 =? 0
    then String.◌∷◌ "a" (encode width (t / 2))
    else String.◌∷◌ "b" (encode width (t / 2))

unfoldable pub decode : String → ℕ
decode String.[] = 0
decode (String.◌∷◌ c s) = (if code c =? 98 then 1 else 0) + 2 * decode s

limit : ℕ → ℕ
limit zero = 1
limit (suc width) = 2 * limit width

decode-encode : (width t : ℕ) → t < limit width → decode (encode width t) ≡ t
unfolding encode decode limit
decode-encode zero t h = omega arith
decode-encode (suc width) t h = let ih = decode-encode width (t / 2) (omega arith) in ground arith

pub encode_filled : (width t : ℕ) → is_empty (encode width t) ≡ false
unfolding encode
encode_filled zero t = refl
encode_filled (suc width) t = ground arith

left_strip-encode : (width t : ℕ) → left_strip (encode width t) ≡ encode width t
unfolding encode left_strip is_space
left_strip-encode zero t = refl
left_strip-encode (suc width) t = ground arith

right_strip-encode : (width t : ℕ) → right_strip (encode width t) ≡ encode width t
unfolding encode right_strip is_space
right_strip-encode zero t = refl
right_strip-encode (suc width) t = ground (arith, right_strip-encode width (t / 2))

pub replace_z-encode : (width t : ℕ) → replace_z (encode width t) ≡ encode width t
unfolding encode replace_z
replace_z-encode zero t = refl
replace_z-encode (suc width) t = ground (arith, replace_z-encode width (t / 2))

pub strip-encode : (width t : ℕ) → strip (encode width t) ≡ encode width t
unfolding strip
strip-encode width t = rw (left_strip-encode width t) (right_strip-encode width t)

unfoldable pub read : String → Option ℕ
read s = if is_empty s then none else some (decode s)

pub read-encode : (t : ℕ) → t ≤ 16777215 → read (encode 24 t) ≡ some t
unfolding read limit
read-encode t h = rw (encode_filled 24 t) (ap some (decode-encode 24 t (omega arith)))

unfoldable pub toy : Platform
toy = record {
  repr = λ v. "?";
  iso = encode 24;
  last_instant = 16777215;
  from_iso = read;
  from_iso-iso = read-encode;
  strip-iso = strip-encode 24;
  replace_z-iso = replace_z-encode 24;
  iso_filled = encode_filled 24;
}

-- The value of a run that ends well, to name it.
abbrev pub value_of {ℓ} : {A : Type ℓ} → A → Result A → A
value_of a (ok b) = b
value_of a (err e) = a
