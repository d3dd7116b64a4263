-- ===== src/Control/Authority.antt =====
-- driftdriver/speedriftd_state.py: `dispatch_authority`, the runtime gate, and the loading of the
-- control state from a repository's files.
use driftdriver.Base.{
  ℕ, String, Bool, true, false, not, Option, none, some, is_empty, is_in, if◌then◌else◌,
}
use driftdriver.Base.Value.{
  bool, Fields, end, Fault, Result, ok, err, ◌>>=◌, is_true, is_false, is_bool,
}
use driftdriver.Base.Platform.{Platform, field_text, word}
use driftdriver.Control.State.{Control, elevated_modes, coerce_lease_ttl}
use driftdriver.Control.Normalize.{normalize_control_state}

-- The verdict of `dispatch_authority`; its denial without a control state has no `detail`, the mode and
-- the flag of the lease.
pub record Verdict : Type 0 where
  pub enabled : Bool
  pub reason : String
  pub detail : Option (String × Bool)

-- `control.get("lease_ttl_valid") is False or not _coerce_lease_ttl(...)[1]`
unfoldable pub ttl_malformed : Control → Result Bool
ttl_malformed c =
    if is_false c.lease_ttl_valid
    then ok true
    else coerce_lease_ttl c.lease_ttl_seconds >>= λ t. ok (not t.1)

-- `dispatch_authority`
unfoldable pub dispatch_authority : Platform → Control → Result Verdict
dispatch_authority p c =
    let mode = word p c.mode "observe" in
    let lease_active = is_true c.lease_active in
    let verdict = λ (enabled : Bool) (reason : String).
      let v : Verdict = record {
        enabled = enabled;
        reason = reason;
        detail = some (mode, lease_active);
      } in
      v in
    if not (is_in mode elevated_modes)
    then ok (verdict false "mode does not permit dispatch")
    else if is_empty (field_text p c.lease_owner)
    then ok (verdict false "lease owner is missing")
    else ttl_malformed c >>= λ malformed. ok (
        if malformed
        then verdict false "lease_ttl_seconds value is malformed"
        else if not (is_bool c.lease_active)
        then verdict false "lease_active value is malformed"
        else if not lease_active
        then verdict false "lease is not active"
        else verdict true "active lease permits dispatch")

-- `_apply_runtime_gate`
unfoldable pub apply_runtime_gate : Platform → Control → Result Control
apply_runtime_gate p c = do
  verdict ← dispatch_authority p c
  ok (record c {
    dispatch_enabled = bool verdict.enabled;
    interactive_service_start = bool verdict.enabled;
  })

-- A repository: its name, what `find_workgraph_dir` makes of it, the `speedriftd` section of its
-- policy, and the dictionary in `control.json`, if there is one that reads.
pub record Repository : Type 0 where
  pub name : String
  pub located : Result (Unit {0})
  pub cfg : Fields
  pub control : Option Fields

-- `_read_json`
abbrev pub read_json : Option Fields → Fields
read_json none = end
read_json (some d) = d

-- `load_control_state`
unfoldable pub load_control_state : Platform → ℕ → Repository → Result Control
load_control_state p now r = r.located >>= λ _.
    normalize_control_state p now r.name r.cfg (read_json r.control) >>= λ c. apply_runtime_gate p c

abbrev pub unavailable : Verdict
unavailable = record { enabled = false; reason = "control state unavailable"; detail = none }

-- The `except` clauses of `load_dispatch_authority`.
unfoldable pub fail_closed : Result Verdict → Result Verdict
fail_closed (ok v) = ok v
fail_closed (err Fault.conflict_error) = err Fault.conflict_error
fail_closed (err _) = ok unavailable

-- `load_dispatch_authority`
unfoldable pub load_dispatch_authority : Platform → ℕ → Repository → Result Verdict
load_dispatch_authority p now r =
    fail_closed (load_control_state p now r >>= λ c. dispatch_authority p c)
