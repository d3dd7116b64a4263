-- ===== src/Reaper/Process.antt =====
-- driftdriver/reaper.py: `parse_claude_processes`, with its regular expressions as scans of the text.
use Prim.Native.Char.{Char, code}
use driftdriver.Base.{
  ℕ, String, Bool, true, false, not, ◌&&◌, ◌||◌, Option, none, some, List, [], ◌∷◌, is_empty,
  is_space, strip, left_strip, contains, leb, ◌=?◌, if◌then◌else◌,
}
use driftdriver.Base.Value.{ℤ, str, Result, ok, err, to_int}
use driftdriver.Reaper.Elapsed.{parse_elapsed, split_at}

pub record ProcessInfo : Type 0 where
  pub pid : ℤ
  pub elapsed_seconds : ℕ
  pub task_id : Option String
  pub cmdline : String

abbrev space : Char → Bool
space c = is_space (code c)

-- What follows a prefix.
unfoldable pub after_prefix : String → String → Option String
after_prefix String.[] s = some s
after_prefix (String.◌∷◌ d p) String.[] = none
after_prefix (String.◌∷◌ d p) (String.◌∷◌ c s) =
    let rest = after_prefix p s in if code c =? code d then rest else none

-- `(?:\s|$)`
abbrev ends_word : String → Bool
ends_word String.[] = true
ends_word (String.◌∷◌ c s) = space c

-- `(?:=|\s+)`
unfoldable pub after_gap : String → Option String
after_gap String.[] = none
after_gap (String.◌∷◌ c s) =
    if code c =? 61 then some s else if space c then some (left_strip s) else none

-- `(\S+)`
unfoldable pub first_word : String → String
first_word String.[] = String.[]
first_word (String.◌∷◌ c s) =
    let rest = first_word s in if space c then String.[] else String.◌∷◌ c rest

abbrev filled : String → Option String
filled s = if is_empty s then none else some s

-- What a pattern gives at the first place where it matches; `starts` says whether a match may begin here.
unfoldable pub search :
    {A : Type 0} → (Char → Bool) → (String → Option A) → Bool → String → Option A
search opens pattern starts String.[] = if starts then pattern String.[] else none
search opens pattern starts (String.◌∷◌ c s) =
    let later = search opens pattern (opens c) s in
    let here = if starts then pattern (String.◌∷◌ c s) else none in
    elim here [ none ↦ later | some a ↦ some a ]

abbrev is_found : {A : Type 0} → Option A → Bool
is_found none = false
is_found (some a) = true

abbrev and_then : {A B : Type 0} → Option A → (A → Option B) → Option B
and_then none f = none
and_then (some a) f = f a

abbrev word_end : String → Option (Unit {0})
word_end s = if ends_word s then some tt else none

-- `re.search(r"(?:^|\s|/)claude(?:\s|$)", cmdline)`
unfoldable pub runs_claude : String → Bool
runs_claude cmdline = is_found (
    search (λ c. space c || code c =? 47) (λ s. and_then (after_prefix "claude" s) word_end) true
      cmdline)

-- `re.search(r"(?:^|\s)--input-format(?:=|\s+)stream-json(?:\s|$)", cmdline)`
unfoldable pub is_coordinator : String → Bool
is_coordinator cmdline = is_found (
    search space
      (λ s.
        and_then (after_prefix "--input-format" s)
          (λ s. and_then (after_gap s) (λ s. and_then (after_prefix "stream-json" s) word_end)))
      true cmdline)

-- The group of `re.search(r"(?:^|\s)--task(?:=|\s+)(\S+)", cmdline)`
unfoldable pub task_of : String → Option String
task_of cmdline =
    search space
      (λ s.
        and_then (after_prefix "--task" s)
          (λ s. and_then (after_gap s) (λ s. filled (first_word s))))
      true cmdline

-- `line.strip().split(maxsplit=2)`, where it gives three parts
unfoldable pub three_parts : String → Option (String × String × String)
three_parts line = and_then (split_at space (strip line)) (λ x.
    and_then (split_at space (left_strip x.1))
      (λ y. and_then (filled (left_strip y.1)) (λ z. some (x.0, y.0, z))))

abbrev pub old_enough : ℕ → Option ℕ → Option ℕ
old_enough min_age none = none
old_enough min_age (some n) = if leb min_age n then some n else none

abbrev pub is_worker : String → Bool
is_worker cmdline =
    contains cmdline "--print" && runs_claude cmdline && not (is_coordinator cmdline)

abbrev pub seen : Result ℤ → Option ℕ → String → Option ProcessInfo
seen (err e) age cmdline = none
seen (ok pid) none cmdline = none
seen (ok pid) (some n) cmdline =
    if is_worker cmdline
    then some
        (record { pid = pid; elapsed_seconds = n; task_id = task_of cmdline; cmdline = cmdline })
    else none

abbrev pub parse_parts : ℕ → Option (String × String × String) → Option ProcessInfo
parse_parts min_age none = none
parse_parts min_age (some (pid, elapsed, cmdline)) =
    seen (to_int (str pid)) (old_enough min_age (parse_elapsed elapsed)) cmdline

abbrev pub add_process : Option ProcessInfo → List ProcessInfo → List ProcessInfo
add_process none ps = ps
add_process (some x) ps = x ∷ ps

-- `parse_claude_processes`
unfoldable pub parse_claude_processes : ℕ → List String → List ProcessInfo
parse_claude_processes min_age [] = []
parse_claude_processes min_age (line ∷ lines) =
    add_process (parse_parts min_age (three_parts line)) (parse_claude_processes min_age lines)
