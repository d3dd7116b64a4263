-- ===== src/Control/Renew.antt =====
-- driftdriver/speedriftd_state.py: what a granted lease becomes when it is normalised and gated.
use driftdriver.Base.{
  ℕ, String, ◌≡◌, refl, ap, ◌∙◌, ◌⊎◌, inl, inr, Bool, true, false, ◌||◌, some, arith, is_empty,
  is_in, ltb, ◌=?◌, strip, lower, if◌then◌else◌,
}
use driftdriver.Base.Value.{bool, int, pos, str, ok, ◌>>=◌, is_false, to_int}
use driftdriver.Base.Platform.{Platform, str_of, field_text}
use driftdriver.Control.State.{
  Control, elevated_modes, to_fields, coerce_lease_ttl, parse_iso_timestamp,
}
use driftdriver.Control.Normalize.{
  default_control, is_elevated, settle_mode, lease_flag, settle, normalize, normalize_control_state,
}
use driftdriver.Control.Authority.{
  Verdict, ttl_malformed, dispatch_authority, apply_runtime_gate, Repository, load_control_state,
  fail_closed, load_dispatch_authority,
}
use driftdriver.Control.Write.{Request, amend, write_control_state}
use driftdriver.Control.Rules.{
  update-to_fields, field_text-str, elevated_cases, word-elevated, default_control-clock,
  load_control_state-Loaded,
}

-- A dictionary that grants mode `m` to owner `o` for `ttl` seconds, up to the instant `e`.
pub record Grants (p : Platform) (m o : String) (ttl e : ℕ) (c : Control) : Type 0 where
  pub mode : c.mode ≡ str m
  pub owner : c.lease_owner ≡ str o
  pub seconds : c.lease_ttl_seconds ≡ int (pos ttl)
  pub valid : is_false c.lease_ttl_valid ≡ false
  pub ends : (ttl ≡ 0) ⊎ (parse_iso_timestamp p (str (field_text p c.lease_expires_at)) ≡ e)

module _ (p : Platform) (m o : String) (ttl e : ℕ) (elevated : is_in m elevated_modes ≡ true)
    (named : is_empty o ≡ false) (trimmed : strip o ≡ o) where
  abbrev runs : ℕ → Bool
  runs now = ttl =? 0 || ltb now e

  owner_text : {c : Control} → Grants p m o ttl e c → field_text p c.lease_owner ≡ o
  owner_text {c} g = rw g.owner (field_text-str p o ∙ trimmed)

  mode_value : {c : Control} → Grants p m o ttl e c → settle_mode p c ≡ str m
  unfolding settle_mode str_of lower strip
  mode_value {c} g = elim (elevated_cases m elevated) [
    | inl x ↦ rw (g.mode, x) refl
    | inr x ↦ rw (g.mode, x) refl
  ]

  flag_runs : (now x : ℕ) → (ttl ≡ 0) ⊎ (x ≡ e) → lease_flag true o ttl x now ≡ runs now
  unfolding lease_flag
  flag_runs now x h = ground arith

  settle-Grants :
      (now : ℕ) (name : String) {c : Control}
      → Grants p m o ttl e c
      → Grants p m o ttl e (settle p now name c (str m) true ttl true)
  unfolding settle
  settle-Grants now name g = record {
    mode = refl;
    owner = ap str (owner_text g);
    seconds = refl;
    valid = rw g.valid refl;
    ends = rw (g.valid, owner_text g, named) g.ends;
  }

  settle_active :
      (now : ℕ) (name : String) {c : Control}
      → Grants p m o ttl e c
      → (settle p now name c (str m) true ttl true).lease_active ≡ bool (runs now)
  unfolding settle
  settle_active now name g = rw (g.valid, owner_text g) (ap bool (flag_runs now _ g.ends))

  normalize-Grants :
      (now : ℕ) (name : String) {c : Control}
      → Grants p m o ttl e c
      → normalize p now name c ≡ ok (settle p now name c (str m) true ttl true)
  unfolding normalize is_elevated coerce_lease_ttl to_int
  normalize-Grants now name g = rw (mode_value g, elevated, g.seconds) refl

  readable : {c : Control} → Grants p m o ttl e c → ttl_malformed c ≡ ok false
  unfolding ttl_malformed coerce_lease_ttl to_int
  readable g = rw (g.valid, g.seconds) refl

  abbrev verdict : Bool → Verdict
  verdict b = record {
    enabled = b;
    reason = if b then "active lease permits dispatch" else "lease is not active";
    detail = some (m, b);
  }

  -- The verdict on a dictionary whose flag says `b` is `b`.
  dispatch_authority-Grants :
      {c : Control} (b : Bool)
      → Grants p m o ttl e c
      → c.lease_active ≡ bool b
      → dispatch_authority p c ≡ ok (verdict b)
  unfolding dispatch_authority
  dispatch_authority-Grants true g active =
      rw (readable g, g.mode, word-elevated p m elevated, elevated, owner_text g, named, active)
        refl
  dispatch_authority-Grants false g active =
      rw (readable g, g.mode, word-elevated p m elevated, elevated, owner_text g, named, active)
        refl

  abbrev gated : Bool → Control → Control
  gated b c = record c { dispatch_enabled = bool b; interactive_service_start = bool b }

  -- A normalised and gated grant is a grant, and its flag says whether it runs.
  renew :
      (now : ℕ) (name : String) {c : Control}
      → Grants p m o ttl e c
      → (d : Control) × (normalize p now name c >>= apply_runtime_gate p ≡ ok d)
        × Grants p m o ttl e d
        × (d.lease_active ≡ bool (runs now))
  unfolding apply_runtime_gate
  renew now name {c} g =
      let n = settle p now name c (str m) true ttl true in
      let h = settle-Grants now name g in
      let active = settle_active now name g in
      let judged = dispatch_authority-Grants (runs now) h active in
      (
        gated (runs now) n,
        rw (normalize-Grants now name g, judged) refl,
        record {
          mode = h.mode;
          owner = h.owner;
          seconds = h.seconds;
          valid = h.valid;
          ends = h.ends;
        },
        active,
      )

  -- A repository whose file holds a grant, and whose defaults can be built, permits dispatch exactly
  -- while the grant runs.
  pub load-Grants :
      (now later : ℕ) (r : Repository) {c base : Control}
      → r.located ≡ ok tt
      → default_control p now r.name r.cfg ≡ ok base
      → r.control ≡ some (to_fields c)
      → Grants p m o ttl e c
      → load_dispatch_authority p later r ≡ ok (verdict (runs later))
  unfolding load_dispatch_authority load_control_state normalize_control_state fail_closed
  load-Grants now later r {c} found based stored g =
      let (base, again) = default_control-clock p now later r.name r.cfg based in
      let (d, renewed, h, active) = renew later r.name g in
      let judged = dispatch_authority-Grants (runs later) h active in
      rw (found, again, stored, update-to_fields, renewed, judged) refl

  -- Writing a grant over a control that loads.
  pub store-Grants :
      (now : ℕ) (r : Repository) (q : Request) {control amended : Control}
      → load_control_state p now r ≡ ok control
      → amend p now q control ≡ ok amended
      → Grants p m o ttl e amended
      → (c : Control) × (write_control_state p now r q
          ≡ ok (c, record r { control = some (to_fields c) }))
        × Grants p m o ttl e c
  unfolding write_control_state normalize_control_state
  store-Grants now r q loaded amends g =
      let l = load_control_state-Loaded p now r loaded in
      let (d, renewed, h, active) = renew now r.name g in
      (d, rw (loaded, amends, l.based, update-to_fields, renewed) refl, h)
