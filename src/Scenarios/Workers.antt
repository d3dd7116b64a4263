-- ===== src/Scenarios/Workers.antt =====
-- A run of driftdriver/reaper.py: a worker of a task that is done, one of a task in progress, and the
-- coordinator.
use driftdriver.Base.{
  ◌≡◌, refl, false, String, none, some, List, [], ◌∷◌, strip, left_strip, right_strip, is_space,
  contains, starts_with, digits,
}
use driftdriver.Base.Value.{str, dict, field, end, ok, get?, to_int}
use driftdriver.Base.Platform.{str_of}
use driftdriver.Reaper.Elapsed.{
  all_digits, number, split_at, split_colons, clock_seconds, after_days, parse_elapsed,
}
use driftdriver.Reaper.Process.{
  after_prefix, after_gap, first_word, search, runs_claude, is_coordinator, task_of, three_parts,
  parse_claude_processes,
}
use driftdriver.Reaper.Reap.{
  Row, read_task_statuses, status_in, classify_task, Host, ReaperResult, nothing, send, carry_out,
  reap_each, reap_zombies,
}
use driftdriver.Reaper.Spared.{SignalsOnly, reap_zombies-SignalsOnly}
use driftdriver.Scenarios.Toy.{toy, value_of}

abbrev rows : List Row
rows =
    some (dict (field "id" (str "t1") (field "status" (str "done") end)))
    ∷ none
    ∷ some (dict (field "id" (str "t2") (field "status" (str "in-progress") end)))
    ∷ []

abbrev host : Host
host = record { platform = toy; graph = λ x. rows; timestamp = λ x. "t"; terminate = λ x. ok tt }

abbrev listing : List String
listing =
    " 7 1:00:00 /bin/claude --print --task t1" ∷ " 8 7200 claude --print --task=t2"
    ∷ " 9 7200 claude --print --input-format stream-json" ∷ []

reap_zombies-SignalsOnly_example : SignalsOnly host 60 false (reap_zombies host 60 false listing).0
reap_zombies-SignalsOnly_example = reap_zombies-SignalsOnly host 60 false listing

abbrev outcome : ReaperResult
outcome = value_of nothing (reap_zombies host 60 false listing).1

host_reaps :
    ((reap_zombies host 60 false listing).1 ≡ ok outcome)
    × (outcome.count_killed ≡ 1)
    × (outcome.count_skipped ≡ 1)
unfolding reap_zombies reap_each carry_out send classify_task status_in read_task_statuses
    parse_claude_processes three_parts task_of is_coordinator runs_claude search first_word
    after_gap after_prefix parse_elapsed after_days clock_seconds split_colons split_at number
    all_digits strip left_strip right_strip is_space contains starts_with to_int digits str_of get?
host_reaps = (refl, refl, refl)
