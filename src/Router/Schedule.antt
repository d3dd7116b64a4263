-- ===== src/Router/Schedule.antt =====
-- driftdriver/task_router.py: `_parse_schedule_tag`, and what `_dispatch_http` reads from a task.
use driftdriver.Base.{
  ℕ, zero, suc, ◌+◌, ◌*◌, ◌/◌, String, Bool, false, ◌&&◌, ◌||◌, Option, none, some, List, [], ◌∷◌,
  lower, concat, starts_with, contains, any, ltb, ◌=?◌, if◌then◌else◌,
}
use Prim.Native.Char.{code}
use driftdriver.Base.Value.{
  Value, str, list, Values, nil, cons, Fields, ℤ, pos, Fault, Result, ok, err, ◌>>=◌, get_or,
  to_int, is_the_text,
}
use driftdriver.Base.Platform.{Platform, str_of}
use driftdriver.Directive.Command.{each}

-- `s[n:]`
unfoldable pub after : ℕ → String → String
after zero s = s
after (suc n) String.[] = String.[]
after (suc n) (String.◌∷◌ c s) = after n s

unfoldable push_first : String → List String → List String
push_first c [] = c ∷ []
push_first c (s ∷ ss) = concat (c ∷ s ∷ []) ∷ ss

-- `s.split(":")`
unfoldable pub split_colon : String → List String
unfolding push_first
split_colon String.[] = String.[] ∷ []
split_colon (String.◌∷◌ c s) =
    let rest = split_colon s in
    if code c =? 58 then String.[] ∷ rest else push_first (String.◌∷◌ c String.[]) rest

abbrev day : ℕ
day = 86400 * 1000000

-- `now.replace(hour=h, minute=m, second=0, microsecond=0)`
abbrev at_time : ℕ → ℤ → ℤ → Option ℕ
at_time clock (pos h) (pos m) =
    if ltb h 24 && ltb m 60 then some (clock / day * day + (h * 3600 + m * 60) * 1000000) else none
at_time clock _ _ = none

-- `except (ValueError, TypeError)`: a text gives no other fault.
abbrev both : ℕ → Result ℤ → Result ℤ → Option ℕ
both clock (ok h) (ok m) = at_time clock h m
both clock _ _ = none

unfoldable time_only : ℕ → List String → Option ℕ
time_only clock (h ∷ m ∷ []) = both clock (to_int (str h)) (to_int (str m))
time_only clock _ = none

-- `_parse_schedule_tag`
unfoldable pub parse_schedule_tag : (String → Option ℕ) → ℕ → String → Option ℕ
unfolding time_only
parse_schedule_tag instant clock tag =
    let value = after 9 tag in
    if starts_with tag "schedule:"
    then if contains value "T" then instant value else time_only clock (split_colon value)
    else none

-- `tag.startswith(start)`
abbrev pub tag_text : Value → Result String
tag_text (str s) = ok s
tag_text _ = err Fault.attribute_error

-- The first tag that starts so.
unfoldable pub first_tag : String → Values → Result (Option String)
first_tag start nil = ok none
first_tag start (cons v vs) =
    tag_text v >>= λ tag. (if starts_with tag start then ok (some tag) else first_tag start vs)

abbrev words_in : List String → String → Bool
words_in words title = any (λ w. contains title w) words

unfoldable pub category_of_title : String → String
category_of_title title =
    if words_in ("research" ∷ "investigate" ∷ "analyze" ∷ "explore" ∷ []) title
    then "research"
    else if words_in ("schedule" ∷ "meeting" ∷ "calendar" ∷ "reminder" ∷ []) title
    then "scheduling"
    else if words_in ("build" ∷ "implement" ∷ "fix" ∷ "create" ∷ "add" ∷ []) title
    then "build"
    else if words_in ("deploy" ∷ "release" ∷ "ship" ∷ []) title
    then "ops"
    else "request"

-- `_infer_category`
unfoldable pub infer_category : Platform → Fields → Result String
infer_category p task = each (get_or "tags" (list nil) task) >>= λ tags.
    first_tag "category:" tags >>= λ found. ok (elim found [
      | some tag ↦ after 9 tag
      | none ↦ category_of_title (lower (str_of p (get_or "title" (str "") task)))
    ])

unfoldable pub is_urgent : Values → Bool
is_urgent nil = false
is_urgent (cons v vs) =
    is_the_text "urgent" v
    || is_the_text "urgency:immediate" v
    || is_the_text "priority:high" v
    || is_urgent vs

-- `_infer_urgency`
unfoldable pub infer_urgency : Fields → Result String
infer_urgency task = each (get_or "tags" (list nil) task) >>= λ tags.
    ok (if is_urgent tags then "immediate" else "routine")
