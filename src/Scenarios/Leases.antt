-- ===== src/Scenarios/Leases.antt =====
-- Runs of driftdriver/speedriftd_state.py on two repositories: a new one, and one with a lease that has
-- no end.
use driftdriver.Base.{
  ℕ, ◌+◌, ◌≡◌, ◌↔◌, refl, true, false, ◌||◌, none, some, arith, left_strip, right_strip, is_space,
  is_empty, strip, lower, replace_z, ltb, ◌=?◌, inl,
}
use driftdriver.Base.Value.{pos, str, field, end, ok, ok-IsClean, to_int, get?}
use driftdriver.Base.Platform.{str_of, field_text, word}
use driftdriver.Control.State.{Control, update, coerce_lease_ttl, parse_iso_timestamp, to_fields}
use driftdriver.Control.Normalize.{
  default_ttl, defaults, default_control, is_elevated, settle_mode, lease_flag, settle, normalize,
  normalize_control_state,
}
use driftdriver.Control.Authority.{
  Verdict, ttl_malformed, dispatch_authority, apply_runtime_gate, Repository, load_control_state,
  unavailable, fail_closed, load_dispatch_authority,
}
use driftdriver.Control.Write.{
  Request, set_mode, set_ttl, set_lease, stamp, amend, microseconds, write_control_state,
}
use driftdriver.Control.Gate.{
  Permits, IsLive, dispatch_authority_iff, load_dispatch_authority-IsLive,
}
use driftdriver.Control.Lease.{grant, lease_window}
use driftdriver.Control.Total.{load_dispatch_authority_total}
use driftdriver.Control.Release.{withdrawal_denies}
use driftdriver.Scenarios.Toy.{toy, encode, decode, read, value_of}

abbrev fresh : Repository
fresh = record { name = "app"; located = ok tt; cfg = end; control = none }

abbrev pub held : Repository
held = record {
  name = "app";
  located = ok tt;
  cfg = end;
  control = some (field "mode" (str "supervise") (field "lease_owner" (str "ana") end));
}

abbrev blank : Control
blank = defaults toy 5 "app" end (pos 0)

abbrev fresh_control : Control
fresh_control = value_of blank (load_control_state toy 5 fresh)

fresh_loads : load_control_state toy 5 fresh ≡ ok fresh_control
unfolding load_control_state normalize_control_state default_control default_ttl defaults normalize
    settle_mode is_elevated coerce_lease_ttl settle lease_flag update apply_runtime_gate
    dispatch_authority ttl_malformed to_int get? word field_text str_of lower strip left_strip
    right_strip is_space parse_iso_timestamp replace_z toy encode decode read
fresh_loads = refl

name_filled : is_empty (strip "ana") ≡ false
unfolding strip left_strip right_strip is_space
name_filled = refl

lease_window_example :
    (c : Control) × (r : Repository) × (write_control_state toy 5 fresh
        (grant "autonomous" "ana" 3 "cli" "shift")
      ≡ ok (c, r))
    × ((later : ℕ)
        → (v : Verdict) × (load_dispatch_authority toy later r ≡ ok v)
          × (v.enabled ≡ (3 =? 0 || ltb later (5 + microseconds 3))))
unfolding toy
lease_window_example =
    lease_window toy 5 fresh "autonomous" "ana" 3 "cli" "shift" fresh_loads refl name_filled
      (omega arith)

abbrev permitted : Verdict
permitted = value_of unavailable (load_dispatch_authority toy 5 held)

held_permits : (load_dispatch_authority toy 5 held ≡ ok permitted) × (permitted.enabled ≡ true)
unfolding load_dispatch_authority fail_closed load_control_state normalize_control_state
    default_control default_ttl defaults normalize settle_mode is_elevated coerce_lease_ttl settle
    lease_flag update apply_runtime_gate dispatch_authority ttl_malformed to_int get? word
    field_text str_of lower strip left_strip right_strip is_space parse_iso_timestamp replace_z toy
    encode decode read
held_permits = (refl, refl)

load_dispatch_authority-IsLive_example :
    (c : Control) × (load_control_state toy 5 held ≡ ok c) × Permits toy c × IsLive toy 5 c
load_dispatch_authority-IsLive_example =
    load_dispatch_authority-IsLive toy 5 held permitted held_permits.0 held_permits.1

abbrev judged : Verdict
judged = value_of unavailable (dispatch_authority toy blank)

blank_judged : dispatch_authority toy blank ≡ ok judged
unfolding dispatch_authority defaults word str_of lower strip left_strip right_strip is_space get?
blank_judged = refl

dispatch_authority_iff_example : (judged.enabled ≡ true) ↔ Permits toy blank
dispatch_authority_iff_example = dispatch_authority_iff toy blank judged blank_judged

abbrev pub release : Request
release = record {
  mode = none;
  lease_owner = none;
  lease_ttl_seconds = none;
  release_lease = true;
  source = "cli";
  reason = "";
}

abbrev pub released : Control × Repository
released = value_of (blank, fresh) (write_control_state toy 6 held release)

pub release_writes : write_control_state toy 6 held release ≡ ok released
unfolding write_control_state amend set_mode set_ttl set_lease stamp to_fields load_control_state
    normalize_control_state default_control default_ttl defaults normalize settle_mode is_elevated
    coerce_lease_ttl settle lease_flag update apply_runtime_gate dispatch_authority ttl_malformed
    to_int get? word field_text str_of lower strip left_strip right_strip is_space
    parse_iso_timestamp replace_z toy encode decode read
release_writes = refl

withdrawal_denies_example :
    (v : Verdict) × (load_dispatch_authority toy 9 released.1 ≡ ok v) × (v.enabled ≡ false)
withdrawal_denies_example =
    withdrawal_denies toy 6 9 held released.1 release released.0 release_writes (inl refl)

load_dispatch_authority_total_example : (v : Verdict) × (load_dispatch_authority toy 5 held ≡ ok v)
load_dispatch_authority_total_example = load_dispatch_authority_total toy 5 held (ok-IsClean tt)
