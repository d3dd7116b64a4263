-- ===== src/Control/State.antt =====
-- driftdriver/speedriftd_state.py: the control dictionary and the lease fields that are read from it.
use driftdriver.Base.{
  ℕ, String, Bool, true, false, Option, none, some, List, [], ◌∷◌, arith, is_empty, replace_z,
  if◌then◌else◌,
}
use driftdriver.Base.Value.{
  Value, null, bool, str, Fields, field, end, Fault, Result, ok, err, to_int, not_negative, get_or,
  ℤ, IsClean,
}
use driftdriver.Base.Platform.{Platform, field_text}

abbrev pub control_modes : List String
control_modes = "manual" ∷ "observe" ∷ "supervise" ∷ "autonomous" ∷ []

-- `{"supervise", "autonomous"}`
abbrev pub elevated_modes : List String
elevated_modes = "supervise" ∷ "autonomous" ∷ []

-- The dictionary under the keys of `_default_control`. A value may be of any type: it comes from a
-- file. A key that is not there reads as `null`.
pub record Control : Type 0 where
  pub repo : Value
  pub updated_at : Value
  pub mode : Value
  pub dispatch_enabled : Value
  pub interactive_service_start : Value
  pub lease_owner : Value
  pub lease_acquired_at : Value
  pub lease_ttl_seconds : Value
  pub lease_ttl_valid : Value
  pub lease_expires_at : Value
  pub lease_active : Value
  pub source : Value
  pub reason : Value

-- `control.update({k: v for k, v in raw.items() if k in control ...})`
unfoldable pub update : Control → Fields → Control
update c raw = record {
  repo = get_or "repo" c.repo raw;
  updated_at = get_or "updated_at" c.updated_at raw;
  mode = get_or "mode" c.mode raw;
  dispatch_enabled = get_or "dispatch_enabled" c.dispatch_enabled raw;
  interactive_service_start = get_or "interactive_service_start" c.interactive_service_start raw;
  lease_owner = get_or "lease_owner" c.lease_owner raw;
  lease_acquired_at = get_or "lease_acquired_at" c.lease_acquired_at raw;
  lease_ttl_seconds = get_or "lease_ttl_seconds" c.lease_ttl_seconds raw;
  lease_ttl_valid = get_or "lease_ttl_valid" c.lease_ttl_valid raw;
  lease_expires_at = get_or "lease_expires_at" c.lease_expires_at raw;
  lease_active = get_or "lease_active" c.lease_active raw;
  source = get_or "source" c.source raw;
  reason = get_or "reason" c.reason raw;
}

-- The dictionary that `_write_json` stores, in the order of `_default_control`.
unfoldable pub to_fields : Control → Fields
to_fields c = field "repo" c.repo (
    field "updated_at" c.updated_at (
      field "mode" c.mode (
        field "dispatch_enabled" c.dispatch_enabled (
          field "interactive_service_start" c.interactive_service_start (
            field "lease_owner" c.lease_owner (
              field "lease_acquired_at" c.lease_acquired_at (
                field "lease_ttl_seconds" c.lease_ttl_seconds (
                  field "lease_ttl_valid" c.lease_ttl_valid (
                    field "lease_expires_at" c.lease_expires_at (
                      field "lease_active" c.lease_active
                        (field "source" c.source (field "reason" c.reason end))))))))))))

-- The `except (TypeError, ValueError)` of `_coerce_lease_ttl`: an infinite float raises
-- `OverflowError`, which goes on.
pub coerced : Result ℤ → Result (ℕ × Bool)
coerced (ok n) = ok (not_negative n, true)
coerced (err Fault.type_error) = ok (0, false)
coerced (err Fault.value_error) = ok (0, false)
coerced (err e) = err e

-- `_coerce_lease_ttl`
unfoldable pub coerce_lease_ttl : Value → Result (ℕ × Bool)
unfolding coerced
coerce_lease_ttl null = ok (0, true)
coerce_lease_ttl (bool b) = ok (0, false)
coerce_lease_ttl (str s) = if is_empty s then ok (0, true) else coerced (to_int (str s))
coerce_lease_ttl v = coerced (to_int v)

abbrev or_zero : Option ℕ → ℕ
or_zero none = 0
or_zero (some t) = t

-- `_parse_iso_timestamp`
unfoldable pub parse_iso_timestamp : Platform → Value → ℕ
parse_iso_timestamp p raw =
    let value = field_text p raw in
    if is_empty value then 0 else or_zero (p.from_iso (replace_z value))

pub coerced-IsClean : (m : Result ℤ) → IsClean m → IsClean (coerced m)
unfolding coerced
coerced-IsClean (ok n) h k = cc
coerced-IsClean (err e) h k = ground arith
