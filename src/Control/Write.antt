-- ===== src/Control/Write.antt =====
-- driftdriver/speedriftd_state.py: `write_control_state`. A call runs under the control lock, so its
-- load and its write are one step.
use driftdriver.Base.{
  ℕ, ◌+◌, ◌*◌, String, Bool, true, false, Option, none, some, is_empty, lower, strip, is_in, leb,
  ◌=?◌, if◌then◌else◌,
}
use driftdriver.Base.Value.{
  Value, bool, int, str, pos, Fault, Result, ok, err, ◌>>=◌, or_else, to_int, not_negative,
}
use driftdriver.Base.Platform.{Platform}
use driftdriver.Control.State.{Control, control_modes, to_fields, coerce_lease_ttl}
use driftdriver.Control.Normalize.{normalize_control_state}
use driftdriver.Control.Authority.{Repository, load_control_state, apply_runtime_gate}

-- The keyword arguments of `write_control_state`.
pub record Request : Type 0 where
  pub mode : Option String
  pub lease_owner : Option String
  pub lease_ttl_seconds : Option Value
  pub release_lease : Bool
  pub source : String
  pub reason : String

-- `if mode is not None: ...`
unfoldable pub set_mode : Option String → Control → Control
set_mode none c = c
set_mode (some mode) c =
    let name = lower (strip mode) in
    if is_in name control_modes then record c { mode = str name } else c

-- `if lease_ttl_seconds is not None: ...`
unfoldable pub set_ttl : Option Value → Control → Result Control
set_ttl none c = ok c
set_ttl (some v) c = coerce_lease_ttl v >>= λ t.
    if t.1
    then ok (record c { lease_ttl_seconds = int (pos t.0); lease_ttl_valid = bool true })
    else err Fault.value_error

-- `_iso_now(t)`: an instant past the last that prints is a `ValueError`.
iso_at : Platform → ℕ → Result String
iso_at p t = if leb t p.last_instant then ok (p.iso t) else err Fault.value_error

abbrev pub microseconds : ℕ → ℕ
microseconds seconds = seconds * 1000000

unfoldable pub expiry_text : Platform → ℕ → ℕ → Result String
unfolding iso_at
expiry_text p now ttl = if ttl =? 0 then ok "" else iso_at p (now + microseconds ttl)

vacate : Control → Control
vacate c = record c {
  lease_owner = str "";
  lease_acquired_at = str "";
  lease_expires_at = str "";
  lease_active = bool false;
}

-- `elif lease_owner is not None: ...`
set_owner : Platform → ℕ → Option String → Control → Result Control
unfolding vacate
set_owner p now none c = ok c
set_owner p now (some lease_owner) c =
    let owner = strip lease_owner in
    if is_empty owner
    then ok (vacate c)
    else to_int (or_else c.lease_ttl_seconds (int (pos 0))) >>= λ ttl.
        expiry_text p now (not_negative ttl) >>= λ expires. ok (record c {
          lease_owner = str owner;
          lease_acquired_at = str (p.iso now);
          lease_expires_at = str expires;
          lease_active = bool true;
        })

unfoldable pub set_lease : Platform → ℕ → Request → Control → Result Control
unfolding set_owner vacate
set_lease p now q c =
    if q.release_lease
    then ok (record (vacate c) { lease_ttl_valid = bool true })
    else set_owner p now q.lease_owner c

unfoldable pub stamp : Platform → ℕ → Request → Control → Control
stamp p now q c =
    let reason = if is_empty q.reason then c.reason else str q.reason in
    record c { updated_at = str (p.iso now); source = str q.source; reason = reason }

-- The body of `write_control_state` up to the normalisation.
unfoldable pub amend : Platform → ℕ → Request → Control → Result Control
unfolding set_mode set_ttl set_lease stamp
amend p now q c = do
  c' ← set_ttl q.lease_ttl_seconds (set_mode q.mode c)
  c'' ← set_lease p now q c'
  ok (stamp p now q c'')

-- `write_control_state`: the control that it returns, and the repository with it in `control.json`. An
-- exception leaves the file as it was.
unfoldable pub write_control_state :
    Platform → ℕ → Repository → Request → Result (Control × Repository)
write_control_state p now r q = do
  control ← load_control_state p now r
  amended ← amend p now q control
  normalized ←
      normalize_control_state p now r.name r.cfg (to_fields amended) >>= apply_runtime_gate p
  ok (normalized, record r { control = some (to_fields normalized) })
