-- ===== src/Expiry/Decision.antt =====
-- driftdriver/speedriftd_state.py: `_lease_is_active_raw`, `_lease_identity` and
-- `evaluate_lease_expiry_stop`.
use driftdriver.Base.{
  ℕ, String, Bool, true, false, not, Option, none, some, [], ◌∷◌, is_empty, is_in, ltb, ◌=?◌, ◌==◌,
  concat, if◌then◌else◌,
}
use driftdriver.Base.Value.{Value, null, str, Result, ok, ◌>>=◌, is_false, or_else}
use driftdriver.Base.Platform.{Platform, str_of, field_text, word}
use driftdriver.Control.State.{Control, elevated_modes, coerce_lease_ttl, parse_iso_timestamp}
use driftdriver.Control.Authority.{ttl_malformed}

-- The marker in `lease-expiry-stop.json`, which is also the record of a stop. A key that is not there
-- reads as `null`.
pub record Marker : Type 0 where
  pub repo : Value
  pub stopped_lease_key : Value
  pub reserved_at : Value
  pub stopped_at : Value
  pub stop_state : Value
  pub reconciled : Value
  pub mode : Value
  pub reason : Value
  pub lease_owner : Value
  pub prior_key : Value
  pub stop_exit_code : Value
  pub stop_stdout : Value
  pub stop_stderr : Value

-- `{}`
abbrev pub no_marker : Marker
no_marker = record {
  repo = null;
  stopped_lease_key = null;
  reserved_at = null;
  stopped_at = null;
  stop_state = null;
  reconciled = null;
  mode = null;
  reason = null;
  lease_owner = null;
  prior_key = null;
  stop_exit_code = null;
  stop_stdout = null;
  stop_stderr = null;
}

-- `load_lease_expiry_stop`, and `previous_stop or {}`
abbrev pub marker_or_empty : Option Marker → Marker
marker_or_empty none = no_marker
marker_or_empty (some k) = k

-- `str(v or "")`
abbrev pub plain_text : Platform → Value → String
plain_text p v = str_of p (or_else v (str ""))

-- `_lease_is_active_raw`
unfoldable pub lease_is_active_raw : Platform → ℕ → Control → Result Bool
lease_is_active_raw p now c =
    if is_empty (field_text p c.lease_owner)
    then ok false
    else if is_false c.lease_ttl_valid
    then ok false
    else coerce_lease_ttl c.lease_ttl_seconds >>= λ t. ok (
        if not t.1
        then false
        else if t.0 =? 0
        then true
        else ltb now (parse_iso_timestamp p (str (plain_text p c.lease_expires_at))))

-- `_lease_identity`
unfoldable pub lease_identity : Platform → Control → String
lease_identity p c = concat (
    field_text p c.lease_owner
    ∷ "|"
    ∷ field_text p c.lease_acquired_at
    ∷ "|"
    ∷ field_text p c.lease_expires_at
    ∷ [])

pub record Decision : Type 0 where
  pub lease_key : String
  pub reason : String
  pub mode : String
  pub lease_owner : String
  pub prior_key : String

-- The end of `evaluate_lease_expiry_stop`: the lease is not active, and a stop of it may be on record.
unfoldable pub stop_unless_recorded :
    Platform → Control → Option Marker → String → Bool → Option Decision
stop_unless_recorded p c marker mode malformed =
    let lease_key = lease_identity p c in
    let prior_key = plain_text p (marker_or_empty marker).stopped_lease_key in
    if prior_key == lease_key
    then none
    else some (record {
      lease_key = lease_key;
      reason = if malformed then "malformed_lease_ttl" else "expired_lease";
      mode = mode;
      lease_owner = field_text p c.lease_owner;
      prior_key = prior_key;
    })

-- `evaluate_lease_expiry_stop`
unfoldable pub evaluate_lease_expiry_stop :
    Platform → ℕ → Control → Option Marker → Result (Option Decision)
evaluate_lease_expiry_stop p now c marker =
    let mode = word p c.mode "" in
    if not (is_in mode elevated_modes)
    then ok none
    else ttl_malformed c >>= λ malformed.
        if is_empty (field_text p c.lease_owner)
        then ok none
        else if malformed
        then ok (stop_unless_recorded p c marker mode malformed)
        else lease_is_active_raw p now c >>= λ active.
            ok (if active then none else stop_unless_recorded p c marker mode malformed)
