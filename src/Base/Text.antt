-- ===== src/Base/Text.antt =====
-- What the program uses of Python's `str`: `strip`, `lower`, `startswith`, concatenation, `int`.
-- `lower` maps the ASCII letters. No other character has an ASCII lower case but U+212A and U+0130,
-- and no text that the program compares with a lowered one holds a `k` or a bare dotted `i` from it.
use Prim.Native.Nat.{ℕ, zero, suc, ◌+◌, ◌*◌, ◌-◌}
use Prim.Native.Char.{Char, code}
use Prim.Native.String.{String}
use Prim.Native.String
use mathlib.Core.Path.{◌≡◌, refl}
use mathlib.Core.Bool.{Bool, true, false, ◌&&◌, ◌||◌}
use mathlib.Core.List.{List, [], ◌∷◌}
use mathlib.Core.Option.{Option, none, some}
use native.Mathlib.Omega.{arith}
use driftdriver.Base.Tests.{leb, ◌=?◌, if◌then◌else◌}

abbrev pub is_empty : String → Bool
is_empty String.[] = true
is_empty (String.◌∷◌ c s) = false

-- `str.isspace` of one character.
unfoldable pub is_space : ℕ → Bool
is_space n =
    leb 9 n && leb n 13
    || leb 28 n && leb n 32
    || n =? 133
    || n =? 160
    || n =? 5760
    || leb 8192 n && leb n 8202
    || n =? 8232
    || n =? 8233
    || n =? 8239
    || n =? 8287
    || n =? 12288

unfoldable pub left_strip : String → String
left_strip String.[] = String.[]
left_strip (String.◌∷◌ c s) = if is_space (code c) then left_strip s else String.◌∷◌ c s

unfoldable pub right_strip : String → String
right_strip String.[] = String.[]
right_strip (String.◌∷◌ c s) =
    let rest = right_strip s in
    if is_space (code c) && is_empty rest then String.[] else String.◌∷◌ c rest

-- `s.strip()`
unfoldable pub strip : String → String
unfolding left_strip right_strip is_space
strip s = right_strip (left_strip s)

right_strip_idem : (s : String) → right_strip (right_strip s) ≡ right_strip s
unfolding right_strip
right_strip_idem String.[] = refl
right_strip_idem (String.◌∷◌ c s) = ground (arith, right_strip_idem s)

left_strip-right_strip :
    (s : String) → left_strip (right_strip (left_strip s)) ≡ right_strip (left_strip s)
unfolding left_strip right_strip
left_strip-right_strip String.[] = refl
left_strip-right_strip (String.◌∷◌ c s) = ground (arith, left_strip-right_strip s)

pub strip_idem : (s : String) → strip (strip s) ≡ strip s
unfolding strip
strip_idem s = rw (left_strip-right_strip s) (right_strip_idem (left_strip s))

letter : List (ℕ × Char) → Char → Char
letter [] c = c
letter ((n, d) ∷ rest) c = if code c =? n then d else letter rest c

abbrev alphabet : List (ℕ × Char)
alphabet =
    (65, "a")
    ∷ (66, "b")
    ∷ (67, "c")
    ∷ (68, "d")
    ∷ (69, "e")
    ∷ (70, "f")
    ∷ (71, "g")
    ∷ (72, "h")
    ∷ (73, "i")
    ∷ (74, "j")
    ∷ (75, "k")
    ∷ (76, "l")
    ∷ (77, "m")
    ∷ (78, "n")
    ∷ (79, "o")
    ∷ (80, "p")
    ∷ (81, "q")
    ∷ (82, "r")
    ∷ (83, "s")
    ∷ (84, "t")
    ∷ (85, "u")
    ∷ (86, "v")
    ∷ (87, "w")
    ∷ (88, "x")
    ∷ (89, "y")
    ∷ (90, "z")
    ∷ []

-- `s.lower()`
unfoldable pub lower : String → String
unfolding letter
lower String.[] = String.[]
lower (String.◌∷◌ c s) = String.◌∷◌ (letter alphabet c) (lower s)

-- `"".join(parts)`, and the text of an f-string.
unfoldable pub concat : List String → String
concat [] = ""
concat (s ∷ ss) = String.◌++◌ s (concat ss)

-- `s.startswith(prefix)`, one character at a time.
unfoldable pub starts_with : String → String → Bool
starts_with s String.[] = true
starts_with String.[] (String.◌∷◌ d p) = false
starts_with (String.◌∷◌ c s) (String.◌∷◌ d p) = code c =? code d && starts_with s p

-- `part in s`
unfoldable pub contains : String → String → Bool
unfolding starts_with
contains String.[] part = is_empty part
contains (String.◌∷◌ c s) part = starts_with (String.◌∷◌ c s) part || contains s part

-- `s[:n]`
unfoldable pub prefix : ℕ → String → String
prefix zero s = String.[]
prefix (suc n) String.[] = String.[]
prefix (suc n) (String.◌∷◌ c s) = String.◌∷◌ c (prefix n s)

-- `s.replace("Z", "+00:00")`
unfoldable pub replace_z : String → String
replace_z String.[] = String.[]
replace_z (String.◌∷◌ c s) =
    if code c =? 90 then String.◌++◌ "+00:00" (replace_z s) else String.◌∷◌ c (replace_z s)

-- The digits of `int(text)`, with single underscores between them; `after` says that a digit stands
-- before.
unfoldable pub digits : ℕ → Bool → String → Option ℕ
digits n after String.[] = if after then some n else none
digits n after (String.◌∷◌ c s) =
    let number = digits (n * 10 + (code c - 48)) true s in
    let rest = digits n false s in
    if leb 48 (code c) && leb (code c) 57
    then number
    else if code c =? 95 && after
    then rest
    else none

strip_test : strip " a b\n" ≡ "a b"
unfolding strip
strip_test = refl

lower_test : lower "Timed OUT" ≡ "timed out"
unfolding lower
lower_test = refl

contains_test : contains "has timed out" "timed out" ≡ true
unfolding contains
contains_test = refl

digits_test : digits 0 false "1_20" ≡ some 120
unfolding digits
digits_test = refl
