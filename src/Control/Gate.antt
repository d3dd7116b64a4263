-- ===== src/Control/Gate.antt =====
-- driftdriver/speedriftd_state.py: when dispatch is permitted, and the faults of the loading.
use driftdriver.Base.{
  ℕ, String, ◌≡◌, ◌<◌, ◌↔◌, ◌⊎◌, refl, Bool, true, false, not, ◌&&◌, subst, ap, ◌∙◌, arith,
  is_empty, is_in,
}
use driftdriver.Base.Value.{
  Value, bool, int, pos, str, Fault, Result, ok, err, ◌>>=◌, is_false, is_true, >>=-eq-ok,
}
use driftdriver.Base.Platform.{Platform, field_text, word}
use driftdriver.Control.State.{Control, elevated_modes, parse_iso_timestamp}
use driftdriver.Control.Normalize.{normalize, lease_flag, settle, settle_mode}
use driftdriver.Control.Authority.{
  Verdict, ttl_malformed, dispatch_authority, apply_runtime_gate, Repository, load_control_state,
  fail_closed, unavailable, load_dispatch_authority,
}
use driftdriver.Control.Rules.{
  normalize-Normalized, apply_runtime_gate-Gated, load_control_state-Loaded,
}

-- What a control dictionary must say for dispatch to be permitted.
pub record Permits (p : Platform) (c : Control) : Type 0 where
  pub elevated : is_in (word p c.mode "observe") elevated_modes ≡ true
  pub owned : is_empty (field_text p c.lease_owner) ≡ false
  pub readable : ttl_malformed c ≡ ok false
  pub active : c.lease_active ≡ bool true

active_of : (v : Value) → is_true v ≡ true → v ≡ bool true
active_of (bool b) h = ground arith
active_of (Value.null) h = cc
active_of _ h = cc

-- Where `dispatch_authority` returns a verdict, it enables dispatch exactly when the mode is supervise
-- or autonomous, the lease has an owner, its time to live is not malformed, and its `lease_active` is
-- the Boolean true.
pub dispatch_authority_iff :
    (p : Platform) (c : Control) (v : Verdict)
    → dispatch_authority p c ≡ ok v
    → (v.enabled ≡ true) ↔ Permits p c
unfolding dispatch_authority
dispatch_authority_iff p c v h = (λ on. ground (arith, active_of c.lease_active), λ q. ground arith)

-- The lease of a dictionary has no end, or its end is still to come.
abbrev pub IsLive : Platform → ℕ → Control → Type 0
IsLive p now c =
    (ttl : ℕ) × (c.lease_ttl_seconds ≡ int (pos ttl))
    × ((ttl ≡ 0) ⊎ (now < parse_iso_timestamp p (str (field_text p c.lease_expires_at))))

lease_flag_live :
    (valid : Bool) (owner : String) (ttl expires now : ℕ)
    → lease_flag valid owner ttl expires now ≡ true
    → (valid ≡ true) × (is_empty owner ≡ false) × ((ttl ≡ 0) ⊎ (now < expires))
unfolding lease_flag
lease_flag_live valid owner ttl expires now h = ground arith

settle-IsLive :
    (p : Platform) (now : ℕ) (name : String) (c : Control) (mode : Value) (enabled : Bool) (ttl : ℕ)
    (parsed : Bool)
    → (settle p now name c mode enabled ttl parsed).lease_active ≡ bool true
    → IsLive p now (settle p now name c mode enabled ttl parsed)
unfolding settle
settle-IsLive p now name c mode enabled ttl parsed h =
    let owner = field_text p c.lease_owner in
    let valid = parsed && not (is_false c.lease_ttl_valid) in
    let expires = parse_iso_timestamp p (str (field_text p c.lease_expires_at)) in
    let (v, o, live) = lease_flag_live valid owner ttl expires now (ground arith) in
    (ttl, refl, rw (v, o) live)

normalize-IsLive :
    (p : Platform) (now : ℕ) (name : String) (c : Control) {d : Control}
    → normalize p now name c ≡ ok d
    → d.lease_active ≡ bool true
    → IsLive p now d
normalize-IsLive p now name c {d} h =
    let n = normalize-Normalized p now name c h in
    subst (λ (x : Control). x.lease_active ≡ bool true → IsLive p now x) n.settled
      (settle-IsLive p now name c (settle_mode p c) n.enabled n.ttl n.parsed)

fail_closed-enabled :
    (m : Result Verdict) (v : Verdict) → fail_closed m ≡ ok v → v.enabled ≡ true → m ≡ ok v
unfolding fail_closed
fail_closed-enabled (ok w) v h on = h
fail_closed-enabled (err e) v h on = ground arith

-- What the gate passes on keeps the lease that it judged.
gated-IsLive :
    (p : Platform) (now : ℕ) (name : String) (c : Control) {m d : Control}
    → normalize p now name c ≡ ok m
    → apply_runtime_gate p m ≡ ok d
    → d.lease_active ≡ bool true
    → IsLive p now d
gated-IsLive p now name c {m} normal gated active =
    let g = apply_runtime_gate-Gated p m gated in
    let still = ap (λ (x : Control). x.lease_active) g.set ∙ active in
    subst (IsLive p now) g.set (normalize-IsLive p now name c normal still)

-- Whatever `control.json` holds, dispatch is permitted only if the control state that it gives names an
-- elevated mode and an owner, has a readable time to live, and its lease has no end or ends after the
-- clock reading.
pub load_dispatch_authority-IsLive :
    (p : Platform) (now : ℕ) (r : Repository) (v : Verdict)
    → load_dispatch_authority p now r ≡ ok v
    → v.enabled ≡ true
    → (c : Control) × (load_control_state p now r ≡ ok c) × Permits p c × IsLive p now c
unfolding load_dispatch_authority
load_dispatch_authority-IsLive p now r v h on =
    let judged = fail_closed-enabled (load_control_state p now r >>= dispatch_authority p) v h on in
    let (c, loaded, e) = >>=-eq-ok (load_control_state p now r) (dispatch_authority p) judged in
    let permits = (dispatch_authority_iff p c v e).0 on in
    let l = load_control_state-Loaded p now r loaded in
    (c, loaded, permits, gated-IsLive p now r.name _ l.normal l.gated permits.active)

-- A control state that does not load, for any fault but a conflict of directories, is a denial, and the
-- conflict alone is passed on.
pub load_dispatch_authority_faults :
    (p : Platform) (now : ℕ) (r : Repository) (e : Fault)
    → load_control_state p now r ≡ err e
    → load_dispatch_authority p now r
      ≡ elim e [ Fault.conflict_error ↦ err Fault.conflict_error | _ ↦ ok unavailable ]
unfolding load_dispatch_authority fail_closed
load_dispatch_authority_faults p now r Fault.type_error h = rw h
load_dispatch_authority_faults p now r _ h = rw h
