-- ===== src/Control/Total.antt =====
-- driftdriver/speedriftd_state.py: the exceptions of `load_dispatch_authority`.
use driftdriver.Base.{ℕ, String, ◌≡◌, refl, arith}
use driftdriver.Base.Value.{
  Value, null, bool, str, Fault, Result, ok, err, to_int, IsClean, >>=-IsClean, to_int-IsClean,
}
use driftdriver.Base.Platform.{Platform}
use driftdriver.Control.State.{Control, update, coerce_lease_ttl, coerced-IsClean}
use driftdriver.Control.Normalize.{
  default_control, default_ttl, is_elevated, settle_mode, normalize, normalize_control_state,
}
use driftdriver.Control.Authority.{
  Verdict, ttl_malformed, dispatch_authority, apply_runtime_gate, Repository, read_json,
  load_control_state, fail_closed, unavailable, load_dispatch_authority,
}

pub coerce-IsClean : (v : Value) → IsClean (coerce_lease_ttl v)
unfolding coerce_lease_ttl
coerce-IsClean null h = cc
coerce-IsClean (bool b) h = cc
coerce-IsClean (str s) h = ground (arith, coerced-IsClean (to_int (str s)), to_int-IsClean (str s))
coerce-IsClean v h = coerced-IsClean (to_int v) (to_int-IsClean v) h

is_elevated-IsClean : (v : Value) → IsClean (is_elevated v)
unfolding is_elevated
is_elevated-IsClean (str s) h = cc
is_elevated-IsClean _ h = cc

dispatch_authority-IsClean : (p : Platform) (c : Control) → IsClean (dispatch_authority p c)
unfolding dispatch_authority ttl_malformed
dispatch_authority-IsClean p c h = ground (arith, coerce-IsClean c.lease_ttl_seconds)

normalize-IsClean :
    (p : Platform) (now : ℕ) (name : String) (c : Control) → IsClean (normalize p now name c)
unfolding normalize
normalize-IsClean p now name c =
    >>=-IsClean (is_elevated (settle_mode p c)) _ (is_elevated-IsClean (settle_mode p c)) λ enabled.
      >>=-IsClean (coerce_lease_ttl c.lease_ttl_seconds) _ (coerce-IsClean c.lease_ttl_seconds)
        λ t h. cc

load-IsClean :
    (p : Platform) (now : ℕ) (r : Repository)
    → IsClean r.located
    → IsClean (load_control_state p now r)
unfolding load_control_state normalize_control_state default_control default_ttl apply_runtime_gate
load-IsClean p now r h = >>=-IsClean r.located _ h λ _.
    >>=-IsClean (normalize_control_state p now r.name r.cfg (read_json r.control)) _
      (>>=-IsClean (default_control p now r.name r.cfg) _
        (>>=-IsClean (default_ttl r.cfg) _ (to_int-IsClean _) λ t k. cc)
        λ base. normalize-IsClean p now r.name (update base (read_json r.control)))
      λ c. >>=-IsClean (dispatch_authority p c) _ (dispatch_authority-IsClean p c) λ v k. cc

fail_closed-total : (m : Result Verdict) → IsClean m → (v : Verdict) × (fail_closed m ≡ ok v)
unfolding fail_closed
fail_closed-total (ok v) h = (v, refl)
fail_closed-total (err Fault.conflict_error) h = absurd (h refl)
fail_closed-total (err _) h = (unavailable, refl)

-- Unless two workgraph directories are in conflict, a verdict is returned whatever the files hold.
pub load_dispatch_authority_total :
    (p : Platform) (now : ℕ) (r : Repository)
    → IsClean r.located
    → (v : Verdict) × (load_dispatch_authority p now r ≡ ok v)
unfolding load_dispatch_authority
load_dispatch_authority_total p now r h = fail_closed-total _ (
    >>=-IsClean (load_control_state p now r) _ (load-IsClean p now r h)
      (dispatch_authority-IsClean p))
