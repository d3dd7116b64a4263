-- ===== src/Expiry/Cycles.antt =====
-- driftdriver/speedriftd.py: how often the cycles of the daemon stop the coordinator.
use driftdriver.Base.{
  ℕ, zero, suc, String, ◌+◌, ◌≤◌, ◌≡◌, refl, sym, ap, inl, inr, Bool, ◌&&◌, Option, none, some,
  length, arith, is_in, Bool-cases,
}
use driftdriver.Base.Value.{ok, >>=-eq-ok, ok_injective, is_true}
use driftdriver.Base.Platform.{Platform, word}
use driftdriver.Control.State.{Control, elevated_modes}
use driftdriver.Control.Authority.{load_control_state}
use driftdriver.Expiry.Decision.{Marker, marker_or_empty, Decision, lease_identity}
use driftdriver.Expiry.Record.{World}
use driftdriver.Expiry.Service.{Environment}
use driftdriver.Expiry.Handle.{
  Observation, release_key, decide_stop, carry_out, stop_lease, is_stopping, recheck,
  handle_lease_expiry,
}
use driftdriver.Expiry.Effect.{stops}
use driftdriver.Expiry.Once.{handle_cases, handle_lease_expiry-Stopped}
use driftdriver.Expiry.Cycle.{
  Snapshot, Moments, meddled, observation, early_expiry, collect_control, late_expiry,
  run_runtime_cycle, run_runtime_loop,
}

carry_out-none :
    (p : Platform) (now : ℕ) (env : Environment) (w w' : World) (d : Option Decision)
    → carry_out p now env w d ≡ (none, w')
    → w' ≡ w
unfolding carry_out
carry_out-none p now env w w' none h = sym (ap (λ (x : Option Marker × World). x.1) h)
carry_out-none p now env w w' (some d) h = absurd (cc (ap (λ (x : Option Marker × World). x.0) h))

stop_lease-none :
    (p : Platform) (now : ℕ) (env : Environment) (o : Observation) (c : Control) (key : String)
    (w w' : World)
    → stop_lease p now env o c key w ≡ ok (none, w')
    → w' ≡ w
unfolding stop_lease
stop_lease-none p now env o c key w w' h =
    elim (Bool-cases (is_stopping p (marker_or_empty w.marker) key)) [
      | inl stopping ↦
          absurd (cc (ap (λ (x : Option Marker × World). x.0) (ok_injective (rw stopping at h))))
      | inr settled ↦
          let (d, decided, last) =
            >>=-eq-ok (decide_stop p now o c w.marker key) _ (rw settled at h) in
          carry_out-none p now env w w' d (ok_injective last)
    ]

recheck-none :
    (p : Platform) (now : ℕ) (env : Environment) (o : Observation) (w w' : World) (c : Control)
    (active : Bool)
    → recheck p now env o w c active ≡ ok (none, w')
    → w' ≡ w
unfolding recheck
recheck-none p now env o w w' c active h = ground (
  arith,
  stop_lease-none p now env o c (lease_identity p c) w w',
  stop_lease-none p now env o c (release_key p o) w w',
)

handle_lease_expiry-none :
    (p : Platform) (now : ℕ) (env : Environment) (o : Observation) (w w' : World)
    → handle_lease_expiry p now env o w ≡ ok (none, w')
    → w' ≡ w
handle_lease_expiry-none p now env o w w' h = elim (handle_cases p now env o w h) [
  | inl nothing ↦ ap (λ (x : Option Marker × World). x.1) nothing
  | inr (c, active, step) ↦ recheck-none p now env o w w' c active step
]

-- The stops and the events since an earlier world: no more stops than new events, and no more new events
-- than a bound.
abbrev pub Accounted : ℕ → World → World → Type 0
Accounted n w w' =
    (stops w' + length w.events ≤ stops w + length w'.events)
    × (length w'.events ≤ length w.events + n)

handle-Accounted :
    (p : Platform) (now : ℕ) (env : Environment) (o : Observation) (w w' : World)
    (k : Option Marker)
    → handle_lease_expiry p now env o w ≡ ok (k, w')
    → Accounted 1 w w'
handle-Accounted p now env o w w' (some k) h =
    let s = handle_lease_expiry-Stopped p now env o w w' k h in
    (omega (arith, s.once, s.logged), omega (arith, s.logged))
handle-Accounted p now env o w w' none h =
    let same : w' ≡ w = handle_lease_expiry-none p now env o w w' h in
    rw same (omega arith, omega arith)

early-Accounted :
    (p : Platform) (t : Moments) (s : Snapshot) (w w' : World) (k : Option Marker)
    → early_expiry p t s w ≡ ok (k, w')
    → Accounted 1 w w' × (k ≡ none → w' ≡ w)
unfolding early_expiry
early-Accounted p t s w w' k h =
    elim (Bool-cases
      (is_true s.control.lease_active && is_in (word p s.control.mode "") elevated_modes)) [
        | inl due ↦
            let (c, loaded, step) =
              >>=-eq-ok (load_control_state p t.loaded w.repository) _ (rw due at h) in
            (
              handle-Accounted p t.early t.early_service (observation s c) w w' k step,
              λ e.
                  handle_lease_expiry-none p t.early t.early_service (observation s c) w w'
                    (rw e at step),
            )
        | inr idle ↦
            let same : w' ≡ w =
              sym (ap (λ (x : Option Marker × World). x.1) (ok_injective (rw idle at h))) in
            (rw same (omega arith, omega arith), λ e. same)
      ]

late-Accounted :
    (p : Platform) (t : Moments) (s : Snapshot) (c : Control) (k : Option Marker) (w v w' : World)
    (k' : Option Marker)
    → Accounted 1 w v
    → (k ≡ none → v ≡ w)
    → late_expiry p t s c k (meddled t.before_late (meddled t.before_collection v)) ≡ ok (k', w')
    → Accounted 1 w w'
unfolding late_expiry
late-Accounted p t s c (some k) w v w' k' a idle h =
    let same : meddled t.before_late (meddled t.before_collection v) ≡ w' =
      ap (λ (x : Option Marker × World). x.1) (ok_injective h) in
    rw (← same) a
late-Accounted p t s c none w v w' k' a idle h =
    let same : v ≡ w = idle refl in
    let (stopped, logged) = handle-Accounted p t.late t.late_service (observation s c) _ w' k' h in
    (rw same at stopped, rw same at logged)

cycle-Accounted :
    (p : Platform) (t : Moments) (w w' : World) (s s' : Snapshot)
    → run_runtime_cycle p t (w, s) ≡ ok (w', s')
    → Accounted 1 w w'
unfolding run_runtime_cycle
cycle-Accounted p t w w' s s' h =
    let (x, early, rest) = >>=-eq-ok (early_expiry p t s w) _ h in
    let (a, idle) = early-Accounted p t s w x.1 x.0 early in
    let (c, collected, more) =
      >>=-eq-ok (collect_control p t (meddled t.before_collection x.1)) _ rest in
    let (y, late, last) =
      >>=-eq-ok (late_expiry p t s c x.0 (meddled t.before_late (meddled t.before_collection x.1)))
        _ more in
    let b = late-Accounted p t s c x.0 w x.1 y.1 y.0 a idle late in
    let same : y.1 ≡ w' = ap (λ (z : World × Snapshot). z.0) (ok_injective last) in rw (← same) b

-- Whatever others write to the control state between the steps, and whatever the clock and the service
-- say: after a number of cycles of the loop, the service was stopped at most once for each new event in
-- the log, so no stop goes unlogged, and there is at most one such event for each cycle.
pub run_runtime_loop-Accounted :
    (p : Platform) (t : ℕ → Moments) (n : ℕ) (w w' : World) (s s' : Snapshot)
    → run_runtime_loop p t n (w, s) ≡ ok (w', s')
    → Accounted n w w'
unfolding run_runtime_loop
run_runtime_loop-Accounted p t zero w w' s s' h =
    let same : w ≡ w' = ap (λ (z : World × Snapshot). z.0) (ok_injective h) in
    rw (← same) (omega arith, omega arith)
run_runtime_loop-Accounted p t (suc n) w w' s s' h =
    let ((v, r), before, step) = >>=-eq-ok (run_runtime_loop p t n (w, s)) _ h in
    let (stopped, logged) = run_runtime_loop-Accounted p t n w v s r before in
    let (stopped', logged') = cycle-Accounted p (t n) v w' r s' step in
    (omega (arith, stopped, stopped'), omega (arith, logged, logged'))
