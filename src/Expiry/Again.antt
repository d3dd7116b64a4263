-- ===== src/Expiry/Again.antt =====
-- driftdriver/speedriftd.py: repeated calls of `handle_lease_expiry` about one lease.
use driftdriver.Base.{
  ℕ, String, ◌≡◌, refl, sym, ap, ◌∙◌, ◌⊎◌, inl, inr, Bool, true, false, Option, none, some, arith,
  is_empty, ◌==◌, eq_iff, Bool-cases,
}
use driftdriver.Base.Value.{ok, equals_zero, is_the_text, >>=-eq-ok, ok_injective}
use driftdriver.Base.Platform.{Platform, field_text}
use driftdriver.Control.State.{Control}
use driftdriver.Expiry.Decision.{
  Marker, marker_or_empty, plain_text, lease_identity, Decision, evaluate_lease_expiry_stop,
  stop_unless_recorded,
}
use driftdriver.Expiry.Record.{World}
use driftdriver.Expiry.Service.{Environment}
use driftdriver.Expiry.Handle.{
  Observation, released_transition, decide_stop, carry_out, stop_lease, recheck,
  handle_lease_expiry, is_stopping, stopped_key,
}
use driftdriver.Expiry.Effect.{plain_text-str}
use driftdriver.Expiry.Once.{target, handle_cases, handle_lease_expiry-Stopped}

decide_stop-recorded :
    (p : Platform) (now : ℕ) (o : Observation) (c : Control) (m : Option Marker) (key : String)
    {d : Option Decision}
    → stopped_key p m ≡ key
    → (released_transition p o ≡ true) ⊎ (key ≡ lease_identity p c)
    → decide_stop p now o c m key ≡ ok d
    → d ≡ none
unfolding decide_stop evaluate_lease_expiry_stop stop_unless_recorded
decide_stop-recorded p now o c m key recorded about h =
    ground (arith, eq_iff (stopped_key p m) key, eq_iff (stopped_key p m) (lease_identity p c))

stop_lease-recorded :
    (p : Platform) (now : ℕ) (env : Environment) (o : Observation) (c : Control) (key : String)
    (w : World) {result : Option Marker × World}
    → stopped_key p w.marker ≡ key
    → is_the_text "stopping" (marker_or_empty w.marker).stop_state ≡ false
    → (released_transition p o ≡ true) ⊎ (key ≡ lease_identity p c)
    → stop_lease p now env o c key w ≡ ok result
    → result ≡ (none, w)
unfolding stop_lease carry_out
stop_lease-recorded p now env o c key w recorded settled about h =
    let waiting : is_stopping p (marker_or_empty w.marker) key ≡ false = ground arith in
    let (d, decided, last) = >>=-eq-ok (decide_stop p now o c w.marker key) _ (rw waiting at h) in
    let nothing = decide_stop-recorded p now o c w.marker key recorded about decided in
    sym (ok_injective last) ∙ ap (carry_out p now env w) nothing

recheck-recorded :
    (p : Platform) (now : ℕ) (env : Environment) (o : Observation) (w : World) (c : Control)
    (active : Bool) {result : Option Marker × World}
    → stopped_key p w.marker ≡ target p o
    → is_the_text "stopping" (marker_or_empty w.marker).stop_state ≡ false
    → recheck p now env o w c active ≡ ok result
    → result ≡ (none, w)
unfolding recheck
recheck-recorded p now env o w c true recorded settled h = sym (ok_injective h)
recheck-recorded p now env o w c false recorded settled h =
    elim (Bool-cases (released_transition p o)) [
      | inl released ↦ elim (Bool-cases (is_empty (field_text p c.lease_owner))) [
        | inl vacant ↦
            stop_lease-recorded p now env o c _ w (rw released at recorded) settled (inl released)
              (rw (released, vacant) at h)
        | inr owned ↦ sym (ok_injective (rw (released, owned) at h))
      ]
      | inr expired ↦ elim (Bool-cases (lease_identity p c == lease_identity p o.control)) [
        | inl same ↦
            stop_lease-recorded p now env o c _ w
              (rw (expired, ← (eq_iff (lease_identity p c) (lease_identity p o.control)).0 same) at
                recorded)
              settled (inr refl) (rw (expired, same) at h)
        | inr other ↦ sym (ok_injective (rw (expired, other) at h))
      ]
    ]

-- A call about a lease that the marker names, with an outcome on record, changes no file and runs no
-- command if it returns, whatever the service would answer.
pub handle_lease_expiry-recorded :
    (p : Platform) (now : ℕ) (env : Environment) (o : Observation) (w : World)
    (result : Option Marker × World)
    → stopped_key p w.marker ≡ target p o
    → is_the_text "stopping" (marker_or_empty w.marker).stop_state ≡ false
    → handle_lease_expiry p now env o w ≡ ok result
    → result ≡ (none, w)
handle_lease_expiry-recorded p now env o w result recorded settled h =
    elim (handle_cases p now env o w h) [
      | inl nothing ↦ nothing
      | inr (c, active, step) ↦ recheck-recorded p now env o w c active recorded settled step
    ]

-- Once a call has returned a record of a stop with exit code 0, a later call about the same lease that
-- returns at all returns nothing, runs no command and leaves every file as it is, whatever the service
-- would answer.
pub handle_lease_expiry_once :
    (p : Platform) (now later : ℕ) (env env' : Environment) (o o' : Observation) (w w' : World)
    (k : Marker) (result : Option Marker × World)
    → handle_lease_expiry p now env o w ≡ ok (some k, w')
    → equals_zero k.stop_exit_code ≡ true
    → target p o' ≡ target p o
    → handle_lease_expiry p later env' o' w' ≡ ok result
    → result ≡ (none, w')
handle_lease_expiry_once p now later env env' o o' w w' k result h success same again =
    let s = handle_lease_expiry-Stopped p now env o w w' k h in
    let kept = s.succeeded success in
    let named = ap (plain_text p) s.keyed ∙ plain_text-str p (target p o) ∙ sym same in
    handle_lease_expiry-recorded p later env' o' w' result (ap (stopped_key p) kept ∙ named)
      (rw kept s.settled) again
