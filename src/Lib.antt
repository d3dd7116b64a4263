-- ===== src/Lib.antt =====
-- Verification of driftdriver's runtime authority: who may dispatch work in a repository, until when, what
-- runs and is logged when a directive is executed, which task the router claims and marks done, and what
-- waits for a human.
--
-- The program keeps its state in files under a repository's .workgraph directory. `control.json` holds the
-- mode and the dispatch lease; a daemon stops the coordinator when the lease ends; lanes and agents emit
-- directives, which one shim validates, admits against the lease and runs as `wg` commands; budgets and an
-- append-only ledger bound how many follow-up tasks an actor creates. The router claims ready tasks under the
-- lease and polls the agents that it sent them to; a queue keeps the questions for a human, whose answer sets
-- the intent that control.json holds beside the lease; a reaper ends workers whose tasks are over. The autopilot
-- of a project claims ready tasks through the shim, runs a worker for each or hands it to a peer, checks the
-- result for drift, and goes on until nothing is ready.
--
-- The parts, and the files that model them:
--
--   driftdriver/speedriftd_state.py, control state -> Control
--     State: Control, coerce_lease_ttl, parse_iso_timestamp (_coerce_lease_ttl, _parse_iso_timestamp)
--     Normalize: default_control, normalize_control_state
--     Authority: dispatch_authority, load_control_state, load_dispatch_authority
--     Write: write_control_state; Rules, Gate, Renew, Lease, Total, Release: the proofs
--   driftdriver/speedriftd_state.py and driftdriver/speedriftd.py, the end of a lease -> Expiry
--     Decision: evaluate_lease_expiry_stop; Record: reserve and record_lease_expiry_stop
--     Service: the wg commands; Handle: handle_lease_expiry; Cycle: run_runtime_cycle
--     Effect, Once, Again, Cycles: the proofs
--   driftdriver/actor.py, authority.py, budget_ledger.py, quality_signal.py -> Budget
--     Actor, Policy, Quality, Ledger, Check
--   driftdriver/directives.py, directive_schemas.py, executor_shim.py -> Directive
--     Action, Log: directives and their log; Schema: validate_params; Command: _build_command
--     Shim: ExecutorShim.execute; Valid, Buildable, Runs, Lease, Lifecycle: the proofs
--   driftdriver/drift_task_guard.py -> Guard
--     Tasks, Outcome: the counts and the desired outcome; Findings: record_finding_ledger; Add: guarded_add_drift_task
--     Repeated: escalate_repeated_findings; Created, Rate, Refused, Threshold, Tallied, Rows, Taken: the proofs
--   driftdriver/task_router.py and manual_owner.py -> Router
--     Match: patterns, owners, match_executor; Choice: the choice in route_ready_tasks
--     Ready: _find_ready_tasks; Schedule: schedule tags, category and urgency
--     Act: the outside and _dispatch_admission; Dispatch: dispatch_task; Loop: route_ready_tasks
--     Evidence, Completion: check_agent_completions; Config, Ecosystem: load_routing_config, route_ecosystem
--       with resolve_workgraph_dir of driftdriver/workgraph.py
--     License, Post, Guarded, Picks, Vouched: the proofs
--   driftdriver/project_autopilot.py and worker_monitor.py -> Autopilot
--     Text: splitlines and the regular expressions; State: the run, the outside, _run_command, _dispatch_authority
--     Tasks: get_ready_tasks, the prompt; Talk: launch_worker, converse; Drift: run_drift_check, findings that recur
--     Dispatch: dispatch_task; Peers: _run_peer_dispatch; Health: worker_monitor.py, _run_health_check
--     Loop: run_autopilot_loop; Dispatched, Batch, Walk, Ids, Sent, Still, Turn, Phase, Turns, Start: a turn's effects
--     Command: cmd_autopilot of driftdriver/cli/__init__.py, decompose_goal, run_milestone_review
--     Ends, Once, License, Launch, Guarded, Unheld, Endless: the proofs
--   driftdriver/decision_queue.py and cli/decisions_cmd.py -> Queue
--     Record, Store: the file; Spec: the list that it stands for; Command: the handler of an answer
--     Refine, Kept, Drained: the proofs
--   driftdriver/continuation_intent.py -> Intent
--     Store: read_intent and write_intent; Kept: the proofs
--   driftdriver/signal_gate.py -> Signal
--     Hash, Gate: the class SignalGate; Agent: should_fire and record_fire; Changes, Recorded: the proofs
--   driftdriver/reaper.py -> Reaper
--     Elapsed, Process: ps rows; Reap: reap_zombies and read_reaper_status; Spared, Status: the proofs
--   driftdriver/loop_detection.py -> Loop
--     Detect: detect_loop; Table, Common: the proofs
--   driftdriver/policy_enforcement.py -> Enforce
--     Findings, Evaluate: the two functions; Judged: the proofs
--   Base holds what these share: Python's values and texts, results with the exceptions that the code
--   raises, and Platform, the interpreter's conversions that are not walked. Scenarios runs the code on a
--   small platform.
--
-- Values that come from JSON or TOML are of the type Value, so a key may hold anything. Instants are numbers
-- of microseconds; datetime's printing and reading are operations of Platform with the laws that the code
-- relies on. A call reads the clock once, and a call under a lock is one step. The commands that are run, the
-- paths and the files of another repository are parameters. Every loop of the code walks a list, but for two:
-- the loop of the daemon is modelled by the number of its cycles, and that of the autopilot runs on fuel, one
-- turn more than there are tasks being enough. Its computations change a state and may raise (Base.Act).
-- Where other processes may act between two steps, the model takes what they leave from a parameter: the
-- authority at each check of the router and of the autopilot, the graph that the reaper finds for each
-- process, and the control state between the steps of a cycle.
--
-- Not modelled: the texts of the autopilot's reports and of its prompts for a review and a decomposition,
-- the text of JSON files and of error messages, what a runtime snapshot observes beyond the control state,
-- the calls of `ps` and `git`, the lanes that find drift, and the command line but for the answer to a
-- decision and the autopilot, and a file of decisions whose last line has no end, to which an append would
-- join the next record.
pub mod Autopilot
pub mod Base
pub mod Control
pub mod Enforce
pub mod Expiry
pub mod Budget
pub mod Directive
pub mod Guard
pub mod Intent
pub mod Loop
pub mod Queue
pub mod Reaper
pub mod Router
pub mod Signal
pub mod Scenarios
