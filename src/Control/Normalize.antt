-- ===== src/Control/Normalize.antt =====
-- driftdriver/speedriftd_state.py: `_default_control` and `_normalize_control_state`. One reading of
-- the clock, `now`, serves a whole call.
use driftdriver.Base.{
  ℕ, String, Bool, true, false, not, ◌&&◌, is_empty, lower, strip, is_in, ltb, ◌=?◌, if◌then◌else◌,
}
use driftdriver.Base.Value.{
  Value, bool, int, str, list, dict, pos, ℤ, Fields, Fault, Result, ok, err, ◌>>=◌, or_else,
  is_false, to_int, get_or,
}
use driftdriver.Base.Platform.{Platform, str_of, field_text, word}
use driftdriver.Control.State.{
  Control, control_modes, elevated_modes, update, coerce_lease_ttl, parse_iso_timestamp,
}

-- `int(cfg.get("default_lease_ttl_seconds", 0) or 0)`
unfoldable pub default_ttl : Fields → Result ℤ
default_ttl cfg =
    let zero_ttl = int (pos 0) in
    to_int (or_else (get_or "default_lease_ttl_seconds" zero_ttl cfg) zero_ttl)

unfoldable pub defaults : Platform → ℕ → String → Fields → ℤ → Control
defaults p now repo_name cfg ttl =
    let mode = word p (get_or "default_mode" (str "observe") cfg) "observe" in
    let known = if is_in mode control_modes then mode else "observe" in
    let enabled = is_in known elevated_modes in
    record {
      repo = str repo_name;
      updated_at = str (p.iso now);
      mode = str known;
      dispatch_enabled = bool enabled;
      interactive_service_start = bool enabled;
      lease_owner = str "";
      lease_acquired_at = str "";
      lease_ttl_seconds = int ttl;
      lease_ttl_valid = bool true;
      lease_expires_at = str "";
      lease_active = bool false;
      source = str "default";
      reason = str "default runtime control";
    }

-- `_default_control`
unfoldable pub default_control : Platform → ℕ → String → Fields → Result Control
default_control p now repo_name cfg =
    default_ttl cfg >>= λ ttl. ok (defaults p now repo_name cfg ttl)

-- `mode in {"supervise", "autonomous"}`: a list and a dictionary cannot be hashed.
unfoldable pub is_elevated : Value → Result Bool
is_elevated (str s) = ok (is_in s elevated_modes)
is_elevated (list vs) = err Fault.type_error
is_elevated (dict d) = err Fault.type_error
is_elevated _ = ok false

-- The mode of the dictionary after the test against `CONTROL_MODES`. `control["mode"]` is by then the
-- stored value, so a mode that is not known stays as it is.
unfoldable pub settle_mode : Platform → Control → Value
settle_mode p c =
    let name = lower (strip (str_of p (or_else c.mode c.mode))) in
    if is_in name control_modes then str name else c.mode

-- The branches that set `lease_active`.
unfoldable pub lease_flag : Bool → String → ℕ → ℕ → ℕ → Bool
lease_flag ttl_valid owner ttl expires now =
    if not ttl_valid
    then false
    else if is_empty owner
    then false
    else if ttl =? 0
    then true
    else ltb now expires

-- The assignments of `_normalize_control_state` below the mode, given the parsed time to live.
unfoldable pub settle : Platform → ℕ → String → Control → Value → Bool → ℕ → Bool → Control
settle p now repo_name c mode enabled ttl parsed =
    let owner = field_text p c.lease_owner in
    let ttl_valid = parsed && not (is_false c.lease_ttl_valid) in
    let acquired = field_text p c.lease_acquired_at in
    let expires = parse_iso_timestamp p (str (field_text p c.lease_expires_at)) in
    let active = lease_flag ttl_valid owner ttl expires now in
    let vacant = ttl_valid && is_empty owner in
    let acquired_at = if vacant then str "" else c.lease_acquired_at in
    let fresh = is_empty acquired && not (is_empty owner) && active in
    let reason = if ttl_valid then c.reason else str "malformed lease_ttl_seconds" in
    record {
      repo = str repo_name;
      updated_at = str (str_of p (or_else c.updated_at (str (p.iso now))));
      mode = mode;
      dispatch_enabled = bool enabled;
      interactive_service_start = bool enabled;
      lease_owner = str owner;
      lease_acquired_at = if fresh then str (p.iso now) else acquired_at;
      lease_ttl_seconds = int (pos ttl);
      lease_ttl_valid = bool ttl_valid;
      lease_expires_at = if vacant then str "" else c.lease_expires_at;
      lease_active = bool active;
      source = str (str_of p (or_else c.source (str "default")));
      reason = str (str_of p (or_else reason (str "runtime control update")));
    }

-- `_normalize_control_state` of a dictionary that has every key.
unfoldable pub normalize : Platform → ℕ → String → Control → Result Control
normalize p now repo_name c = do
  let mode = settle_mode p c
  enabled ← is_elevated mode
  t ← coerce_lease_ttl c.lease_ttl_seconds
  ok (settle p now repo_name c mode enabled t.0 t.1)

-- `_normalize_control_state`
unfoldable pub normalize_control_state : Platform → ℕ → String → Fields → Fields → Result Control
normalize_control_state p now repo_name cfg raw = do
  base ← default_control p now repo_name cfg
  normalize p now repo_name (update base raw)
