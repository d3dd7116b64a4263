-- ===== src/Reaper/Reap.antt =====
-- driftdriver/reaper.py: `classify_process`, `reap_zombies` and `read_reaper_status`.
use driftdriver.Base.{
  ℕ, suc, String, Bool, true, false, Option, none, some, List, [], ◌∷◌, ◌++◌, is_empty, is_in,
  if◌then◌else◌, ◌==◌,
}
use driftdriver.Base.Value.{Value, null, str, dict, ℤ, Fields, Fault, Result, ok, err, ◌>>=◌, get}
use driftdriver.Base.Platform.{Platform, str_of}
use driftdriver.Reaper.Process.{ProcessInfo, parse_claude_processes}

-- A line of graph.jsonl: `none` is a blank line, or one that is no JSON.
abbrev pub Row : Type 0
Row = Option Value

abbrev entry_of : String → Value → List (String × String) → List (String × String)
entry_of id (str status) table = (id, status) ∷ table
entry_of id v table = table

-- The entry of a row of the graph, in front of the table.
abbrev add_status : Platform → Fields → List (String × String) → List (String × String)
add_status p row table = elim (get "id" row) [
  | null ↦ table
  | _ ↦ entry_of (str_of p (get "id" row)) (get "status" row) table
]

-- `_read_task_statuses`, the newest entry first; `row.get` of a row that is no dictionary raises.
unfoldable pub read_task_statuses :
    Platform → List Row → List (String × String) → Result (List (String × String))
read_task_statuses p [] table = ok table
read_task_statuses p (none ∷ rows) table = read_task_statuses p rows table
read_task_statuses p (some (dict row) ∷ rows) table =
    read_task_statuses p rows (add_status p row table)
read_task_statuses p (some v ∷ rows) table = err Fault.attribute_error

-- `statuses.get(task_id)`
unfoldable pub status_in : String → List (String × String) → Option String
status_in id [] = none
status_in id ((k, status) ∷ table) =
    let rest = status_in id table in if k == id then some status else rest

abbrev pub terminal_statuses : List String
terminal_statuses = "done" ∷ "failed" ∷ "abandoned" ∷ "completed" ∷ []

-- What happens to a process.
pub data Action : Type 0 where
  kill skip : Action

abbrev pub action_for : Option String → Action
action_for none = kill
action_for (some status) = if is_in status terminal_statuses then kill else skip

unfoldable pub classify_task : Platform → List Row → Option String → Result Action
classify_task p rows none = ok kill
classify_task p rows (some id) =
    read_task_statuses p rows [] >>= λ table. ok (action_for (status_in id table))

-- `classify_process`
abbrev pub classify_process : Platform → List Row → ProcessInfo → Result Action
classify_process p rows process = classify_task p rows process.task_id

-- The word that the log has for what was done.
pub data Word : Type 0 where
  killed dry_run skipped : Word

-- A line of zombie-reaper.log.
pub record Entry : Type 0 where
  pub action : Word
  pub pid : ℤ
  pub task_id : Option String
  pub reason : Option String
  pub timestamp : String

-- A signal, or a line of the log.
pub data Deed : Type 0 where
  signalled : ProcessInfo → Deed
  wrote : Entry → Deed

-- What the reaper meets: the graph and the clock when it comes to a process, and the exception of a
-- signal that cannot be sent.
pub record Host : Type 0 where
  pub platform : Platform
  pub graph : ProcessInfo → List Row
  pub timestamp : ProcessInfo → String
  pub terminate : ProcessInfo → Result (Unit {0})

pub record ReaperResult : Type 0 where
  pub count_killed : ℕ
  pub count_skipped : ℕ
  pub kills : List Entry

abbrev pub skip_entry : Host → ProcessInfo → Entry
skip_entry h x = record {
  action = skipped;
  pid = x.pid;
  task_id = x.task_id;
  reason = none;
  timestamp = h.timestamp x;
}

abbrev pub kill_entry : Host → Bool → ProcessInfo → Entry
kill_entry h dry x = record {
  action = if dry then dry_run else killed;
  pid = x.pid;
  task_id = x.task_id;
  reason = some "terminal or unknown Workgraph task";
  timestamp = h.timestamp x;
}

-- What was done so far, the newest first, and how it ended.
abbrev pub Done : Type 0 → Type 0
Done A = List Deed × Result A

abbrev pub go_on : {A B : Type 0} → Done A → (A → List Deed → Done B) → Done B
go_on (deeds, ok a) f = f a deeds
go_on (deeds, err e) f = (deeds, err e)

-- `_kill_process`, unless the run is dry
unfoldable pub send : Host → Bool → ProcessInfo → List Deed → Done (Unit {0})
send h true x deeds = (deeds, ok tt)
send h false x deeds = (signalled x ∷ deeds, h.terminate x)

unfoldable pub carry_out :
    Host → Bool → ProcessInfo → Action → ReaperResult → List Deed → Done ReaperResult
carry_out h dry x skip r deeds =
    (wrote (skip_entry h x) ∷ deeds, ok (record r { count_skipped = suc r.count_skipped }))
carry_out h dry x kill r deeds = go_on (send h dry x deeds) (λ _ deeds. (
  wrote (kill_entry h dry x) ∷ deeds,
  ok (record r { count_killed = suc r.count_killed; kills = r.kills ++ (kill_entry h dry x ∷ []) }),
))

unfoldable pub reap_each :
    Host → Bool → List ProcessInfo → ReaperResult → List Deed → Done ReaperResult
reap_each h dry [] r deeds = (deeds, ok r)
reap_each h dry (x ∷ xs) r deeds =
    go_on (deeds, classify_process h.platform (h.graph x) x)
      (λ action deeds.
        go_on (carry_out h dry x action r deeds) (λ r deeds. reap_each h dry xs r deeds))

abbrev pub nothing : ReaperResult
nothing = record { count_killed = 0; count_skipped = 0; kills = [] }

-- `reap_zombies`, for the lines that `ps` prints, none if it fails
unfoldable pub reap_zombies : Host → ℕ → Bool → List String → Done ReaperResult
reap_zombies h min_age dry lines = reap_each h dry (parse_claude_processes min_age lines) nothing []

pub record Status : Type 0 where
  pub last_run : Option String
  pub total_killed : ℕ
  pub total_skipped : ℕ

abbrev newer : String → Option String → Option String
newer t last = if is_empty t then last else some t

unfoldable pub note : Entry → Status → Status
note e s = elim e.action [
  | skipped ↦ record {
    last_run = newer e.timestamp s.last_run;
    total_killed = s.total_killed;
    total_skipped = suc s.total_skipped;
  }
  | killed ↦ record {
    last_run = newer e.timestamp s.last_run;
    total_killed = suc s.total_killed;
    total_skipped = s.total_skipped;
  }
  | dry_run ↦ record {
    last_run = newer e.timestamp s.last_run;
    total_killed = suc s.total_killed;
    total_skipped = s.total_skipped;
  }
]

-- `read_reaper_status` of a log that the reaper wrote, the newest line first
unfoldable pub read_reaper_status : List Entry → Status
read_reaper_status [] = record { last_run = none; total_killed = 0; total_skipped = 0 }
read_reaper_status (e ∷ es) = note e (read_reaper_status es)
