-- ===== src/Guard/Outcome.antt =====
-- driftdriver/drift_task_guard.py: `extract_desired_outcome` and `stamp_desired_outcome`. The file is
-- the list of its lines, or the exception that its bytes are no UTF-8; `none` is a file that is missing or
-- that the system does not read.
use driftdriver.Base.{
  String, not, ◌&&◌, Option, none, some, List, [], ◌∷◌, is_empty, lower, strip, starts_with, concat,
  if◌then◌else◌,
}
use driftdriver.Base.Value.{Result, ok, err, ◌>>=◌}

-- The first loop below the heading of the section.
unfoldable pub in_section : List String → Option String
in_section [] = none
in_section (line ∷ lines) =
    let stripped = strip line in
    let rest = in_section lines in
    if starts_with (lower stripped) "## outcome target"
    then rest
    else if starts_with stripped "##"
    then none
    else if is_empty stripped
    then rest
    else some stripped

-- The first loop: the result of the section, if there is one.
unfoldable pub find_section : List String → Option (Option String)
find_section [] = none
find_section (line ∷ lines) =
    let rest = find_section lines in
    if starts_with (lower (strip line)) "## outcome target" then some (in_section lines) else rest

-- The second loop
unfoldable pub first_paragraph : List String → Option String
first_paragraph [] = none
first_paragraph (line ∷ lines) =
    let stripped = strip line in
    let rest = first_paragraph lines in
    if not (is_empty stripped) && not (starts_with stripped "#") then some stripped else rest

section_or : List String → Option (Option String) → Option String
section_or lines none = first_paragraph lines
section_or lines (some outcome) = outcome

-- `extract_desired_outcome`
unfoldable pub extract_desired_outcome : Option (Result (List String)) → Result (Option String)
unfolding section_or
extract_desired_outcome none = ok none
extract_desired_outcome (some (err e)) = err e
extract_desired_outcome (some (ok lines)) = ok (section_or lines (find_section lines))

stamped : String → Option String → String
stamped description none = description
stamped description (some outcome) =
    concat (description ∷ "\n\n---desired_outcome---\n" ∷ outcome ∷ [])

-- `stamp_desired_outcome`
unfoldable pub stamp_desired_outcome : String → Option (Result (List String)) → Result String
unfolding stamped
stamp_desired_outcome description north_star =
    extract_desired_outcome north_star >>= λ outcome. ok (stamped description outcome)
