-- ===== src/Reaper/Elapsed.antt =====
-- driftdriver/reaper.py: `_parse_elapsed`, and the texts that it and the parser of processes split.
use Prim.Native.Char.{Char, code}
use driftdriver.Base.{
  ℕ, ◌+◌, ◌*◌, ◌-◌, ◌≡◌, refl, String, Bool, true, not, ◌&&◌, Option, none, some, List, [], ◌∷◌,
  all, is_empty, is_space, strip, leb, ◌=?◌, if◌then◌else◌,
}

abbrev pub is_digit : Char → Bool
is_digit c = leb 48 (code c) && leb (code c) 57

-- `text.isdigit()` of an ASCII text, such as `ps` prints.
unfoldable pub all_digits : String → Bool
all_digits String.[] = true
all_digits (String.◌∷◌ c s) = is_digit c && all_digits s

abbrev pub isdigit : String → Bool
isdigit s = not (is_empty s) && all_digits s

-- `int(text)` of a text of digits
unfoldable pub number : ℕ → String → ℕ
number n String.[] = n
number n (String.◌∷◌ c s) = number (n * 10 + (code c - 48)) s

-- The text before and after the first character of a kind, `none` where there is none.
unfoldable pub split_at : (Char → Bool) → String → Option (String × String)
split_at p String.[] = none
split_at p (String.◌∷◌ c s) =
    let rest = split_at p s in
    if p c
    then some (String.[], s)
    else elim rest [ none ↦ none | some x ↦ some (String.◌∷◌ c x.0, x.1) ]

abbrev is_colon : Char → Bool
is_colon c = code c =? 58

abbrev is_dash : Char → Bool
is_dash c = code c =? 45

abbrev onto_first : Char → List String → List String
onto_first c [] = String.◌∷◌ c String.[] ∷ []
onto_first c (part ∷ parts) = String.◌∷◌ c part ∷ parts

-- `value.split(":")`
unfoldable pub split_colons : String → List String
split_colons String.[] = String.[] ∷ []
split_colons (String.◌∷◌ c s) =
    let parts = split_colons s in if is_colon c then String.[] ∷ parts else onto_first c parts

-- Hours, minutes and seconds.
unfoldable pub clock_seconds : List String → Option ℕ
clock_seconds (h ∷ m ∷ s ∷ []) = some (number 0 h * 3600 + number 0 m * 60 + number 0 s)
clock_seconds (m ∷ s ∷ []) = some (number 0 m * 60 + number 0 s)
clock_seconds (s ∷ []) = some (number 0 s)
clock_seconds parts = none

abbrev add_days : ℕ → Option ℕ → Option ℕ
add_days days none = none
add_days days (some n) = some (days * 86400 + n)

unfoldable pub after_days : ℕ → String → Option ℕ
after_days days value =
    let parts = split_colons value in
    if all isdigit parts then add_days days (clock_seconds parts) else none

abbrev with_days : String → Option (String × String) → Option ℕ
with_days value none = after_days 0 value
with_days value (some (days, rest)) = if isdigit days then after_days (number 0 days) rest else none

-- `_parse_elapsed`
unfoldable pub parse_elapsed : String → Option ℕ
parse_elapsed text =
    let value = strip text in
    if isdigit value then some (number 0 value) else with_days value (split_at is_dash value)

elapsed_test : parse_elapsed " 2-03:04:05 " ≡ some 183845
unfolding parse_elapsed after_days clock_seconds split_colons split_at number all_digits strip
    is_space
elapsed_test = refl
