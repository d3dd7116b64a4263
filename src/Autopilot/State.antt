-- ===== src/Autopilot/State.antt =====
-- driftdriver/project_autopilot.py: the state of a run, what it meets outside, `_run_command`, and
-- `_dispatch_authority`.
use driftdriver.Base.{ℕ, suc, String, Bool, Option, List, [], ◌∷◌, ◌==◌, if◌then◌else◌}
use driftdriver.Base.Value.{Value, Fields, Result, ok, err, ℤ, pos, Fault, ◌>>=◌, get}
use driftdriver.Base.Platform.{Platform}
use driftdriver.Base.Act.{Act}
use driftdriver.Control.Authority.{
  Verdict, Repository, load_control_state, dispatch_authority, unavailable,
}
use driftdriver.Directive.Shim.{Surroundings, Effects}

pub record AutopilotConfig : Type 0 where
  pub project_dir : String
  pub project_name : String
  pub max_parallel : ℤ
  pub drift_failure_threshold : ℤ
  pub dry_run : Bool
  pub no_peer_dispatch : Bool

-- `WorkerContext.status`, with the value that a denied dispatch sets.
pub data Status : Type 0 where
  running completed failed escalated blocked : Status

-- A worker, without the instant at which it started.
pub record WorkerContext : Type 0 where
  pub task_id : String
  pub task_title : String
  pub worker_name : String
  pub session_id : Value
  pub status : Status
  pub response : String
  pub drift_findings : List String
  pub drift_fail_count : ℕ

-- The dictionary of the workers in its order, and the sets as lists.
pub record AutopilotRun : Type 0 where
  pub workers : List (String × WorkerContext)
  pub completed_tasks : List String
  pub failed_tasks : List String
  pub escalated_tasks : List String
  pub loop_count : ℕ

-- `subprocess.CompletedProcess`
pub record Completed : Type 0 where
  pub returncode : ℤ
  pub stdout : String
  pub stderr : String

-- What `process.communicate` gives: the end of the process, the `TimeoutExpired` with its text and, after
-- the kill, nothing that is used, or another exception.
pub data Communicated : Type 0 where
  ended : Completed → Communicated
  overdue : String → Communicated
  raised : Fault → Communicated

-- What `add_task` gives: the id that the peer returns, an `IpcError`, or another exception.
pub data Added : Type 0 where
  added : Value → Added
  ipc_error : Added
  crashed : Fault → Added

-- What a conversation in the session meets: the log before it, the outcomes of the two scripts, and the log
-- at each look until the deadline. A log is `none` where there is no file to read.
pub record Conversation : Type 0 where
  pub log_before : Option (List String)
  pub send : Result Completed
  pub wait : Result Completed
  pub looks : List (Option (List String))

-- What a run meets outside. The check number `k` of the authority, the admission of the shim included,
-- happens at `moment k`; `directive_id` and `timestamp` are the defaults of the directive that claims a task; `ready` and `peers` are asked in each turn of the loop. `loads` is `json.loads`,
-- `none` where it raises; `age` is the number of whole seconds since the instant that `float` makes of a
-- timestamp, `none` where it makes none or none after the epoch, and a negative age counts as 0.
pub record Outside : Type 0 where
  pub moment : ℕ → ℕ × Repository
  pub shim : Surroundings
  pub fault_text : Fault → String
  pub loads : String → Option Value
  pub has_driver : Bool
  pub cfg : Fields
  pub ready : ℕ → Result Completed
  pub show : ℕ → String → Result Completed
  pub peers : ℕ → List String
  pub socket : String → Option String
  pub add_task : String → Fields → Added
  pub directive_id : String → String
  pub timestamp : String → String
  pub unclaim : String → Result Completed
  pub start : String → List String → List (String × String) → Result (Unit {0})
  pub communicate : String → Communicated
  pub has_launch_script : Bool
  pub launch : String → List (String × String) → Result Completed
  pub conversation : String → Conversation
  pub stop : String → Result (Unit {0})
  pub has_drifts : Bool
  pub drift : String → Result Completed
  pub evolve : Result Completed
  pub consult : String → String → Result Completed
  pub events : Value → Option (List String)
  pub age : Value → Option ℕ

-- What happened. A check that permitted dispatch carries its number.
pub data Happening : Type 0 where
  granted : ℕ → Happening
  denied : ℕ → Happening
  directed : String → Happening
  launched : String → Happening
  unclaimed : String → Happening
  asked : String → String → Happening
  checked : String → Happening
  consulted : String → Happening
  evolved : Happening

-- The run, the number of checks so far, what the shim has done, and what happened, the newest first.
pub record State : Type 0 where
  pub run : AutopilotRun
  pub checks : ℕ
  pub effects : Effects
  pub happenings : List Happening

abbrev pub Step {ℓ} : Type ℓ → Type ℓ
Step A = Act State A

abbrev pub after : Happening → State → State
after h s = record s { happenings = h ∷ s.happenings }

abbrev pub happen : Happening → Step (Unit {0})
happen h s = (after h s, ok tt)

abbrev pub change : (AutopilotRun → AutopilotRun) → Step (Unit {0})
change f s = (record s { run = f s.run }, ok tt)

-- `_run_command`; a missing program gives the exit code 127.
unfoldable pub run_command : (Fault → String) → Result Completed → Result Completed
run_command text (ok c) = ok c
run_command text (err Fault.missing_error) =
    ok (record { returncode = pos 127; stdout = ""; stderr = text Fault.missing_error })
run_command text (err f) = err f

abbrev or_unavailable : Result Verdict → Verdict
or_unavailable (ok v) = v
or_unavailable (err f) = unavailable

-- `_dispatch_authority`, at check number `k`
unfoldable pub authority_at : Platform → Outside → ℕ → Verdict
authority_at p o k =
    or_unavailable
      (load_control_state p (o.moment k).0 (o.moment k).1 >>= λ c. dispatch_authority p c)

abbrev pub note_verdict : ℕ → Verdict → Happening
note_verdict k v = if v.enabled then granted k else denied k

-- A check of the authority, which the state records.
unfoldable pub check : Platform → Outside → Step Verdict
check p o s =
    let v = authority_at p o s.checks in
    (record s { checks = suc s.checks; happenings = note_verdict s.checks v ∷ s.happenings }, ok v)

-- `task["id"]`, `task.get("title", "")` and the like, of a task from `get_ready_tasks`, whose keys hold
-- texts.
unfoldable pub text_at : String → Fields → String
text_at k task = elim (get k task) [ Value.str s ↦ s | _ ↦ "" ]

abbrev pub id_of : Fields → String
id_of task = text_at "id" task

-- `run.workers[id] = ctx`
unfoldable pub put_worker :
    String → WorkerContext → List (String × WorkerContext) → List (String × WorkerContext)
put_worker id ctx [] = (id, ctx) ∷ []
put_worker id ctx ((j, old) ∷ rest) =
    if j == id then (j, ctx) ∷ rest else (j, old) ∷ put_worker id ctx rest

abbrev pub store : String → WorkerContext → AutopilotRun → AutopilotRun
store id ctx r = record r { workers = put_worker id ctx r.workers }

-- `set.add`, in the three sets
abbrev pub complete : String → AutopilotRun → AutopilotRun
complete id r = record r { completed_tasks = id ∷ r.completed_tasks }

abbrev pub fail : String → AutopilotRun → AutopilotRun
fail id r = record r { failed_tasks = id ∷ r.failed_tasks }

abbrev pub escalate : String → AutopilotRun → AutopilotRun
escalate id r = record r { escalated_tasks = id ∷ r.escalated_tasks }
