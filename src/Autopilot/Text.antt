-- ===== src/Autopilot/Text.antt =====
-- What driftdriver/project_autopilot.py uses of Python's texts and regular expressions.
use Prim.Native.Char.{code}
use Prim.Native.String
use driftdriver.Base.{
  ℕ, zero, suc, String, ◌≡◌, refl, Bool, true, false, not, ◌&&◌, ◌||◌, Option, none, some, List, [],
  ◌∷◌, is_empty, is_space, starts_with, leb, ◌=?◌, if◌then◌else◌,
}

-- The characters at which `splitlines` breaks.
unfoldable pub breaks : ℕ → Bool
breaks n = leb 10 n && leb n 13 || leb 28 n && leb n 30 || n =? 133 || n =? 8232 || n =? 8233

abbrev in_front : String → List String → List String
in_front c [] = c ∷ []
in_front c (line ∷ lines) = String.◌++◌ c line ∷ lines

-- `s.splitlines()`; "\r\n" breaks once.
unfoldable pub splitlines : String → List String
unfolding breaks
splitlines String.[] = []
splitlines (String.◌∷◌ c s) =
    let lines = splitlines s in
    if code c =? 13 && starts_with s "\n"
    then lines
    else if breaks (code c)
    then "" ∷ lines
    else in_front (String.◌∷◌ c String.[]) lines

-- `s[n:]`
unfoldable pub drop_text : ℕ → String → String
drop_text zero s = s
drop_text (suc n) String.[] = String.[]
drop_text (suc n) (String.◌∷◌ c s) = drop_text n s

abbrev text_length : String → ℕ
text_length String.[] = 0
text_length (String.◌∷◌ c s) = suc (text_length s)

abbrev longer : String → Option (String × String) → Option (String × String)
longer c none = none
longer c (some (before, after)) = some (String.◌++◌ c before, after)

-- `s.split(sep, 1)`, where the separator occurs.
unfoldable pub split_once : String → String → Option (String × String)
split_once sep String.[] = none
split_once sep (String.◌∷◌ c s) =
    let rest = longer (String.◌∷◌ c String.[]) (split_once sep s) in
    if starts_with (String.◌∷◌ c s) sep
    then some ("", drop_text (text_length sep) (String.◌∷◌ c s))
    else rest

-- `"\n".join(lines)`
unfoldable pub join_lines : List String → String
join_lines [] = ""
join_lines (line ∷ []) = line
join_lines (line ∷ more) = String.◌++◌ line (String.◌++◌ "\n" (join_lines more))

-- The longest text of characters without a space at the start, for `\S+`.
unfoldable pub first_word : String → String
unfolding is_space
first_word String.[] = String.[]
first_word (String.◌∷◌ c s) =
    let rest = first_word s in if is_space (code c) then String.[] else String.◌∷◌ c rest

-- The group of `re.search(r"@peer:(\S+)", s)`
unfoldable pub peer_annotation : String → Option String
unfolding first_word
peer_annotation String.[] = none
peer_annotation (String.◌∷◌ c s) =
    let later = peer_annotation s in
    let name = first_word (drop_text 6 (String.◌∷◌ c s)) in
    if starts_with (String.◌∷◌ c s) "@peer:" && not (is_empty name) then some name else later

-- Where a match of `[a-z0-9_/\\\-]+\.[a-z]+:\d+` has got to: in the path, after its dot, in the
-- extension, after the colon, in the number. A number is of ASCII digits.
pub data Phase : Type 0 where
  at_start in_path after_dot in_extension after_colon in_number : Phase

abbrev is_letter : ℕ → Bool
is_letter n = leb 97 n && leb n 122

abbrev is_digit : ℕ → Bool
is_digit n = leb 48 n && leb n 57

abbrev in_a_path : ℕ → Bool
in_a_path n = is_letter n || is_digit n || n =? 95 || n =? 47 || n =? 92 || n =? 45

-- The next phase, `none` where the match fails or ends.
next_phase : Phase → ℕ → Option Phase
next_phase at_start n = if in_a_path n then some in_path else none
next_phase in_path n =
    if in_a_path n then some in_path else if n =? 46 then some after_dot else none
next_phase after_dot n = if is_letter n then some in_extension else none
next_phase in_extension n =
    if is_letter n then some in_extension else if n =? 58 then some after_colon else none
next_phase after_colon n = if is_digit n then some in_number else none
next_phase in_number n = if is_digit n then some in_number else none

-- The length of a match at the start. No character that may end a part may also go on with it, so the
-- greedy match is the only one.
unfoldable pub match_place : Phase → String → Option ℕ
unfolding next_phase
match_place in_number String.[] = some 0
match_place phase String.[] = none
match_place in_number (String.◌∷◌ c s) =
    let rest = match_place in_number s in
    if is_digit (code c) then elim rest [ none ↦ none | some n ↦ some (suc n) ] else some 0
match_place phase (String.◌∷◌ c s) = elim (next_phase phase (code c)) [
  | none ↦ none
  | some next ↦ elim (match_place next s) [ none ↦ none | some n ↦ some (suc n) ]
]

-- `re.sub` of the places by nothing, with the number of characters still to leave out.
unfoldable pub without_places : ℕ → String → String
unfolding match_place
without_places n String.[] = String.[]
without_places (suc n) (String.◌∷◌ c s) = without_places n s
without_places zero (String.◌∷◌ c s) = elim (match_place at_start (String.◌∷◌ c s)) [
  | none ↦ String.◌∷◌ c (without_places zero s)
  | some zero ↦ String.◌∷◌ c (without_places zero s)
  | some (suc n) ↦ without_places n s
]

-- `re.sub(r"\s+", " ", s)`; `spaced` says that a space stands before.
unfoldable pub collapse : Bool → String → String
unfolding is_space
collapse spaced String.[] = String.[]
collapse spaced (String.◌∷◌ c s) =
    let after_space = collapse true s in
    let after_other = collapse false s in
    if is_space (code c)
    then (if spaced then after_space else String.◌∷◌ " " after_space)
    else String.◌∷◌ c after_other

splitlines_test : splitlines "a\r\n\nb\n" ≡ "a" ∷ "" ∷ "b" ∷ []
unfolding splitlines starts_with
splitlines_test = refl

split_once_test : split_once " - " "t1 - a - b" ≡ some ("t1", "a - b")
unfolding split_once starts_with drop_text
split_once_test = refl

peer_annotation_test : peer_annotation "do @peer: and @peer:beta now" ≡ some "beta"
unfolding peer_annotation first_word drop_text starts_with is_space
peer_annotation_test = refl

without_places_test : without_places 0 "in src/a.py:12 and b.c" ≡ "in  and b.c"
unfolding without_places match_place
without_places_test = refl
