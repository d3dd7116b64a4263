-- ===== src/Control/Rules.antt =====
-- Facts about reading and writing the control dictionary that the proofs share.
use driftdriver.Base.{
  ℕ, String, ◌≡◌, refl, ap, Bool, true, ◌⊎◌, inl, inr, arith, is_empty, strip, lower, is_in, eq_iff,
}
use driftdriver.Base.Value.{str, Fields, ok, ◌>>=◌, get?, bool, >>=-eq-ok, ok_injective}
use driftdriver.Base.Platform.{Platform, field_text, word}
use driftdriver.Control.State.{Control, coerce_lease_ttl, elevated_modes, update, to_fields}
use driftdriver.Control.Normalize.{
  default_control, defaults, default_ttl, is_elevated, settle_mode, settle, normalize,
  normalize_control_state,
}
use driftdriver.Control.Authority.{
  Verdict, dispatch_authority, apply_runtime_gate, Repository, read_json, load_control_state,
}

-- What `_write_json` stored comes back over any defaults.
pub update-to_fields : (base c : Control) → update base (to_fields c) ≡ c
unfolding update to_fields get?
update-to_fields base c = refl

pub empty_text : (s : String) → is_empty s ≡ true → s ≡ ""
empty_text String.[] h = refl
empty_text (String.◌∷◌ c s) h = cc

pub field_text-str : (p : Platform) (s : String) → field_text p (str s) ≡ strip s
unfolding field_text
field_text-str p String.[] = refl
field_text-str p (String.◌∷◌ c s) = refl

pub elevated_cases :
    (m : String) → is_in m elevated_modes ≡ true → (m ≡ "supervise") ⊎ (m ≡ "autonomous")
elevated_cases m h = ground (arith, eq_iff m "supervise", eq_iff m "autonomous")

pub word-elevated :
    (p : Platform) (m : String) → is_in m elevated_modes ≡ true → word p (str m) "observe" ≡ m
unfolding word lower strip
word-elevated p m h = elim (elevated_cases m h) [ inl e ↦ rw e refl | inr e ↦ rw e refl ]

pub lower-strip-elevated : (m : String) → is_in m elevated_modes ≡ true → lower (strip m) ≡ m
unfolding lower strip
lower-strip-elevated m h = elim (elevated_cases m h) [ inl e ↦ rw e | inr e ↦ rw e ]

-- Whether the defaults can be built does not depend on the clock.
pub default_control-clock :
    (p : Platform) (now later : ℕ) (name : String) (cfg : Fields) {c : Control}
    → default_control p now name cfg ≡ ok c
    → (d : Control) × (default_control p later name cfg ≡ ok d)
unfolding default_control
default_control-clock p now later name cfg h =
    let (ttl, e, _) = >>=-eq-ok (default_ttl cfg) (λ ttl. ok (defaults p now name cfg ttl)) h in
    (defaults p later name cfg ttl, ap (λ r. r >>= λ ttl. ok (defaults p later name cfg ttl)) e)

-- What a successful normalisation has done.
pub record Normalized (p : Platform) (now : ℕ) (name : String) (c d : Control) : Type 0 where
  pub enabled : Bool
  pub ttl : ℕ
  pub parsed : Bool
  pub hashed : is_elevated (settle_mode p c) ≡ ok enabled
  pub coerced : coerce_lease_ttl c.lease_ttl_seconds ≡ ok (ttl, parsed)
  pub settled : settle p now name c (settle_mode p c) enabled ttl parsed ≡ d

pub normalize-Normalized :
    (p : Platform) (now : ℕ) (name : String) (c : Control) {d : Control}
    → normalize p now name c ≡ ok d
    → Normalized p now name c d
unfolding normalize
normalize-Normalized p now name c h =
    let (enabled, hashed, rest) = >>=-eq-ok (is_elevated (settle_mode p c)) _ h in
    let (t, coerced, e) = >>=-eq-ok (coerce_lease_ttl c.lease_ttl_seconds) _ rest in
    record {
      enabled = enabled;
      ttl = t.0;
      parsed = t.1;
      hashed = hashed;
      coerced = coerced;
      settled = ok_injective e;
    }

-- What the runtime gate has done.
pub record Gated (p : Platform) (c d : Control) : Type 0 where
  pub verdict : Verdict
  pub judged : dispatch_authority p c ≡ ok verdict
  pub set :
      record c {
        dispatch_enabled = bool verdict.enabled;
        interactive_service_start = bool verdict.enabled;
      }
      ≡ d

pub apply_runtime_gate-Gated :
    (p : Platform) (c : Control) {d : Control} → apply_runtime_gate p c ≡ ok d → Gated p c d
unfolding apply_runtime_gate
apply_runtime_gate-Gated p c h =
    let (v, judged, e) = >>=-eq-ok (dispatch_authority p c) _ h in
    record { verdict = v; judged = judged; set = ok_injective e }

-- What a successful load has done.
pub record Loaded (p : Platform) (now : ℕ) (r : Repository) (d : Control) : Type 0 where
  pub base : Control
  pub middle : Control
  pub found : r.located ≡ ok tt
  pub based : default_control p now r.name r.cfg ≡ ok base
  pub normal : normalize p now r.name (update base (read_json r.control)) ≡ ok middle
  pub gated : apply_runtime_gate p middle ≡ ok d

pub load_control_state-Loaded :
    (p : Platform) (now : ℕ) (r : Repository) {d : Control}
    → load_control_state p now r ≡ ok d
    → Loaded p now r d
unfolding load_control_state normalize_control_state
load_control_state-Loaded p now r h =
    let (_, found, rest) = >>=-eq-ok r.located _ h in
    let (middle, n, gated) =
      >>=-eq-ok (normalize_control_state p now r.name r.cfg (read_json r.control)) _ rest in
    let (base, based, normal) = >>=-eq-ok (default_control p now r.name r.cfg) _ n in
    record {
      base = base;
      middle = middle;
      found = found;
      based = based;
      normal = normal;
      gated = gated;
    }
