-- ===== src/Expiry/Effect.antt =====
-- driftdriver/speedriftd.py: what a stop of the coordinator leaves.
use driftdriver.Base.{
  ℕ, ◌+◌, ◌≤◌, String, ◌≡◌, refl, ap, subst, subst₂, some_injective, ◌∙◌, ◌⊎◌, inl, inr, Bool, true,
  false, Option, none, some, arith, ◌==◌, eq_iff, Bool-cases, count_if, length, length-append,
  count_if-append,
}
use driftdriver.Base.Value.{str, ok, is_true, equals_zero, is_the_text, >>=-eq-ok, ok_injective}
use driftdriver.Base.Platform.{Platform, str_of}
use driftdriver.Control.State.{Control}
use driftdriver.Expiry.Decision.{
  Marker, marker_or_empty, plain_text, lease_identity, Decision, evaluate_lease_expiry_stop,
  stop_unless_recorded,
}
use driftdriver.Expiry.Record.{
  StopResult, stop_state, World, ServiceCall, service_status, service_stop,
  reserve_lease_expiry_stop, record_lease_expiry_stop,
}
use driftdriver.Expiry.Service.{Environment, workgraph_service_running}
use driftdriver.Expiry.Handle.{
  Observation, released_transition, conclude, reconcile, decide_stop, carry_out, stop_lease,
  is_stopping,
}

abbrev is_stop : ServiceCall → Bool
is_stop service_stop = true
is_stop service_status = false

-- How often the service was stopped.
abbrev pub stops : World → ℕ
stops w = count_if is_stop w.calls

-- A record of a stop: what it says, and what it leaves on disk.
pub record Stopped (p : Platform) (key : String) (w : World) (k : Marker) (w' : World)
    : Type 0 where
  pub keyed : k.stopped_lease_key ≡ str key
  pub settled : is_the_text "stopping" k.stop_state ≡ false
  pub succeeded : equals_zero k.stop_exit_code ≡ true → w'.marker ≡ some k
  pub failed : k.stop_state ≡ str "failed" → w'.marker ≡ none
  pub once : stops w' ≤ stops w + 1
  pub logged : length w'.events ≡ length w.events + 1

pub plain_text-str : (p : Platform) (s : String) → plain_text p (str s) ≡ s
unfolding str_of
plain_text-str p String.[] = refl
plain_text-str p (String.◌∷◌ c s) = refl

str_injective : {s t : String} → str s ≡ str t → s ≡ t
str_injective h = cc

state_settled : (s : StopResult) → (stop_state s == "stopping") ≡ false
unfolding stop_state
state_settled s = elim (Bool-cases (equals_zero s.exit_code)) [
  | inl z ↦ rw (z, stop_state) refl
  | inr z ↦ elim (Bool-cases (is_true s.unknown)) [
    | inl u ↦ rw (z, u, stop_state) refl
    | inr u ↦ rw (z, u, stop_state) refl
  ]
]

state_failed :
    (s : StopResult)
    → stop_state s ≡ "failed"
    → (equals_zero s.exit_code ≡ false) × (is_true s.unknown ≡ false)
unfolding stop_state
state_failed s h = ground (arith, eq_iff "stopped" "failed", eq_iff "unknown" "failed")

record-Stopped :
    (p : Platform) (now : ℕ) (d : Decision) (s : StopResult) (b : Bool) (w v : World)
    → v.events ≡ w.events
    → stops v ≤ stops w + 1
    → Stopped p d.lease_key w
        (record_lease_expiry_stop p now d s b v).0
        (record_lease_expiry_stop p now d s b v).1
unfolding record_lease_expiry_stop
record-Stopped p now d s b w v e h = record {
  keyed = refl;
  settled = state_settled s;
  succeeded = λ q. rw q refl;
  failed = λ q. let (z, u) = state_failed s (str_injective q) in rw (z, u) refl;
  once = h;
  logged = rw (length-append, e) refl;
}

conclude-Stopped :
    (p : Platform) (now : ℕ) (env : Environment) (d : Decision) (w v : World)
    (running : Option Bool)
    → v.events ≡ w.events
    → stops v ≡ stops w
    → Stopped p d.lease_key w (conclude p now env d v running).0 (conclude p now env d v running).1
unfolding conclude
conclude-Stopped p now env d w v none e h = record-Stopped p now d _ true w v e (omega arith)
conclude-Stopped p now env d w v (some false) e h =
    record-Stopped p now d _ true w v e (omega arith)
conclude-Stopped p now env d w v (some true) e h =
    record-Stopped p now d _ true w _ e (rw (count_if-append, h) (omega arith))

reconcile-Stopped :
    (p : Platform) (now : ℕ) (env : Environment) (key : String) (m : Marker) (w : World)
    → Stopped p key w (reconcile p now env key m w).0 (reconcile p now env key m w).1
unfolding reconcile
reconcile-Stopped p now env key m w =
    conclude-Stopped p now env _ w _ (workgraph_service_running p env) refl
      (rw count_if-append (omega arith))

same_result :
    {p : Platform} {key : String} {w v w' : World} {j k : Marker}
    → ◌≡◌ {A = Option Marker × World} (some j, v) (some k, w')
    → Stopped p key w j v
    → Stopped p key w k w'
same_result {p} {key} {w} e =
    subst₂ (λ (x : Marker) (y : World). Stopped p key w x y)
      (some_injective (ap (λ (x : Option Marker × World). x.0) e))
      (ap (λ (x : Option Marker × World). x.1) e)

carry_out-Stopped :
    (p : Platform) (now : ℕ) (env : Environment) (w w' : World) (d : Option Decision) {k : Marker}
    → carry_out p now env w d ≡ (some k, w')
    → (e : Decision) × (d ≡ some e) × Stopped p e.lease_key w k w'
unfolding carry_out reserve_lease_expiry_stop
carry_out-Stopped p now env w w' none h = cc (ap (λ (x : Option Marker × World). x.0) h)
carry_out-Stopped p now env w w' (some d) h = (
  d,
  refl,
  same_result h (record-Stopped p now d _ false w _ refl (rw count_if-append (omega arith))),
)

decide_stop-key :
    (p : Platform) (now : ℕ) (o : Observation) (c : Control) (m : Option Marker) (key : String)
    {d : Decision}
    → decide_stop p now o c m key ≡ ok (some d)
    → (released_transition p o ≡ true) ⊎ (key ≡ lease_identity p c)
    → d.lease_key ≡ key
unfolding decide_stop evaluate_lease_expiry_stop stop_unless_recorded
decide_stop-key p now o c m key h w = ground arith

pub stop_lease-Stopped :
    (p : Platform) (now : ℕ) (env : Environment) (o : Observation) (c : Control) (key : String)
    (w w' : World) {k : Marker}
    → (released_transition p o ≡ true) ⊎ (key ≡ lease_identity p c)
    → stop_lease p now env o c key w ≡ ok (some k, w')
    → Stopped p key w k w'
unfolding stop_lease
stop_lease-Stopped p now env o c key w w' {k} about h =
    let m = marker_or_empty w.marker in
    elim (Bool-cases (is_stopping p m key)) [
      | inl stopping ↦
          same_result (ok_injective (rw stopping at h)) (reconcile-Stopped p now env key m w)
      | inr settled ↦
          let (d, decided, last) =
            >>=-eq-ok (decide_stop p now o c w.marker key) _ (rw settled at h) in
          let (e, made, stopped) = carry_out-Stopped p now env w w' d (ok_injective last) in
          subst (λ (x : String). Stopped p x w k w')
            (decide_stop-key p now o c w.marker key (decided ∙ ap ok made) about) stopped
    ]
