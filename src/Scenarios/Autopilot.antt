-- ===== src/Scenarios/Autopilot.antt =====
-- Runs of driftdriver/project_autopilot.py: one ready task, for a worker or for a peer.
use driftdriver.Base.{
  ℕ, String, ◌≡◌, refl, sym, ap, ◌∙◌, subst, true, false, none, some, List, [], ◌∷◌, is_in, strip,
  left_strip, right_strip, is_space, starts_with,
}
use driftdriver.Base.Value.{ok_injective, pos, str, Fields, field, end, ok, get?}
use driftdriver.Base.{lower, replace_z}
use driftdriver.Base.Value.{to_int}
use driftdriver.Base.Platform.{str_of, field_text, word}
use driftdriver.Control.State.{update, coerce_lease_ttl, parse_iso_timestamp}
use driftdriver.Control.Normalize.{
  default_ttl, defaults, default_control, is_elevated, settle_mode, lease_flag, settle, normalize,
  normalize_control_state,
}
use driftdriver.Control.Authority.{
  ttl_malformed, dispatch_authority, apply_runtime_gate, load_control_state,
}
use driftdriver.Router.Match.{task_owner}
use driftdriver.Router.Choice.{apply_manual_owner_policy}
use driftdriver.Autopilot.Text.{
  splitlines, split_once, drop_text, join_lines, peer_annotation, first_word,
}
use driftdriver.Autopilot.State.{
  AutopilotConfig, Happening, authority_at, Completed, Communicated, Added, Outside, run_command,
  text_at,
}
use driftdriver.Autopilot.Tasks.{
  task_fields, parse_ready_line, parse_ready_lines, parse_ready_output, read_line, read_lines,
  parse_details, get_task_details, prepare_each, listed, get_ready_tasks,
}
use driftdriver.Autopilot.Dispatched.{launched_ids}
use driftdriver.Autopilot.Peers.{assign}
use driftdriver.Autopilot.Loop.{run_autopilot_loop, has_registry}
use driftdriver.Autopilot.Walk.{ids_of}
use driftdriver.Autopilot.Ids.{Distinct}
use driftdriver.Autopilot.Turn.{IsTidy}
use driftdriver.Autopilot.Start.{start}
use driftdriver.Autopilot.Ends.{ListsOnly, HasEnded, run_autopilot_loop-HasEnded}
use driftdriver.Autopilot.Once.{
  run_autopilot_loop_never_escalates, run_autopilot_loop_launches_once,
}
use driftdriver.Autopilot.License.{IsGuarded}
use driftdriver.Autopilot.Guarded.{run_autopilot_loop-IsGuarded}
use driftdriver.Autopilot.Unheld.{get_ready_tasks_hold_none}
use driftdriver.Autopilot.Command.{
  Arguments, consult_cli, consult_worker, decompose_goal, decompose_first, cmd_autopilot,
  cmd_autopilot-denied,
}
use driftdriver.Autopilot.Endless.{ForPeers, run_autopilot_loop_endless}
use driftdriver.Scenarios.Directives.{around, nothing_yet, fresh}
use driftdriver.Scenarios.Toy.{toy, encode, decode, read}

abbrev output : String → Completed
output text = record { returncode = pos 0; stdout = text; stderr = "" }

-- A repository in the mode supervise under a lease of ana, with one task that is always ready.
abbrev site : Outside
site = record {
  moment = λ k. (
    5,
    record {
      name = "app";
      located = ok tt;
      cfg = end;
      control = some (field "mode" (str "supervise") (field "lease_owner" (str "ana") end));
    },
  );
  shim = around;
  fault_text = λ f. "fault";
  loads = λ text. none;
  has_driver = false;
  cfg = end;
  ready = λ k. ok (output "Ready tasks:\n  t1 - Write it\n");
  show = λ k id. ok (output "Title: Write it\nDescription: ask @peer:beta\nStatus: open\n");
  peers = λ k. "beta" ∷ [];
  socket = λ peer. some "/tmp/beta.sock";
  add_task = λ path task. Added.added (str "t9");
  directive_id = λ id. id;
  timestamp = λ id. "now";
  unclaim = λ id. ok (output "");
  start = λ id cmd env. ok tt;
  communicate = λ id. Communicated.ended (output "done");
  has_launch_script = false;
  launch = λ worker env. ok (output "");
  conversation =
      λ id. record { log_before = none; send = ok (output ""); wait = ok (output ""); looks = [] };
  stop = λ id. ok tt;
  has_drifts = true;
  drift = λ id. ok (output "score: red\nfinding: no tests\n");
  evolve = ok (output "");
  consult = λ worker prompt. ok (output "done");
  events = λ session. none;
  age = λ v. none;
}

abbrev settings : AutopilotConfig
settings = record {
  project_dir = "/app";
  project_name = "app";
  max_parallel = pos 4;
  drift_failure_threshold = pos 3;
  dry_run = false;
  no_peer_dispatch = true;
}

abbrev rehearsal : AutopilotConfig
rehearsal = record settings { dry_run = true; no_peer_dispatch = false }

abbrev the_task : Fields
the_task = task_fields "t1" "Write it" "ask @peer:beta"

site_lists : (k : ℕ) → get_ready_tasks toy site k ≡ ok (the_task ∷ [])
unfolding get_ready_tasks prepare_each get_task_details listed parse_ready_output parse_ready_lines
    parse_ready_line parse_details read_line read_lines task_fields run_command text_at
    apply_manual_owner_policy task_owner get? splitlines split_once drop_text join_lines strip
    left_strip right_strip starts_with
site_lists k = refl

listed_ids :
    (k : ℕ) (ready : List Fields) → get_ready_tasks toy site k ≡ ok ready → ids_of ready ≡ "t1" ∷ []
unfolding task_fields text_at get?
listed_ids k ready h = ap ids_of (ok_injective (sym h ∙ site_lists k))

site-ListsOnly : ListsOnly toy site ("t1" ∷ [])
site-ListsOnly k ready h j b = subst (λ ids. is_in j ids ≡ true) (listed_ids k ready h) b

site-IsTidy : IsTidy toy site
site-IsTidy k ready h = subst Distinct (sym (listed_ids k ready h)) (refl, tt)

run_autopilot_loop-IsGuarded_example :
    IsGuarded toy site (run_autopilot_loop toy site settings 2 (start nothing_yet)).0.happenings
run_autopilot_loop-IsGuarded_example = run_autopilot_loop-IsGuarded toy site settings nothing_yet 2

run_autopilot_loop-HasEnded_example :
    HasEnded (run_autopilot_loop toy site settings 2 (start nothing_yet))
run_autopilot_loop-HasEnded_example =
    run_autopilot_loop-HasEnded toy site settings nothing_yet ("t1" ∷ []) ((3, refl), λ _. refl)
      site-ListsOnly

run_autopilot_loop_never_escalates_example :
    (run_autopilot_loop toy site settings 2 (start nothing_yet)).0.run.escalated_tasks ≡ []
run_autopilot_loop_never_escalates_example =
    run_autopilot_loop_never_escalates toy site settings nothing_yet 2 1 refl

run_autopilot_loop_launches_once_example :
    Distinct
      (launched_ids (run_autopilot_loop toy site settings 2 (start nothing_yet)).0.happenings)
run_autopilot_loop_launches_once_example =
    run_autopilot_loop_launches_once toy site settings nothing_yet 2 site-IsTidy

get_ready_tasks_hold_none_example :
    (c : Completed) × (run_command site.fault_text (site.ready 1) ≡ ok c)
    × (ids_of (the_task ∷ []) ≡ ids_of (listed c))
get_ready_tasks_hold_none_example =
    get_ready_tasks_hold_none toy site 1 (the_task ∷ []) (site_lists 1)

site-ForPeers : ForPeers toy site
unfolding assign task_fields text_at get? peer_annotation first_word drop_text starts_with is_space
site-ForPeers k = (the_task, [], site_lists k, (("beta", refl), tt))

site_registry : has_registry site rehearsal ≡ true
unfolding has_registry
site_registry = refl

run_autopilot_loop_endless_example :
    (run_autopilot_loop toy site rehearsal 7 (start nothing_yet)).1 ≡ ok none
run_autopilot_loop_endless_example =
    run_autopilot_loop_endless toy site rehearsal nothing_yet 7 refl site_registry site-ForPeers

-- The same repository before anyone has set a lease.
abbrev closed : Outside
closed = record site { moment = λ k. (5, fresh) }

abbrev arguments : Arguments
arguments = record {
  has_workgraph = true;
  skip_decompose = false;
  skip_review = false;
  decompose_prompt = "split the goal";
  review_prompt = λ r. "review";
  contracts = none;
}

closed_denies : (authority_at toy closed 0).enabled ≡ false
unfolding authority_at load_control_state normalize_control_state default_control default_ttl
    defaults normalize settle_mode is_elevated coerce_lease_ttl settle lease_flag update
    apply_runtime_gate dispatch_authority ttl_malformed to_int get? word field_text str_of lower
    strip left_strip right_strip is_space parse_iso_timestamp replace_z toy encode decode read
closed_denies = refl

goal_split : (decompose_first toy closed arguments (start nothing_yet)).1 ≡ ok tt
unfolding decompose_first decompose_goal consult_worker consult_cli run_command
goal_split = refl

cmd_autopilot-denied_example :
    ((cmd_autopilot toy closed settings arguments 2 (start nothing_yet)).0.happenings
      ≡ Happening.denied 0 ∷ Happening.consulted "ap-decompose" ∷ [])
    × ((cmd_autopilot toy closed settings arguments 2 (start nothing_yet)).1 ≡ ok (some 0))
cmd_autopilot-denied_example =
    cmd_autopilot-denied toy closed settings arguments 2 nothing_yet refl refl refl closed_denies
      goal_split
