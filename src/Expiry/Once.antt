-- ===== src/Expiry/Once.antt =====
-- driftdriver/speedriftd.py: when `handle_lease_expiry` acts, and what a call of it does.
use driftdriver.Base.{
  ℕ, String, ◌≡◌, refl, sym, ap, ◌⊎◌, inl, inr, Bool, true, false, ◌||◌, Option, none, some, arith,
  is_empty, is_in, ◌==◌, eq_iff, Bool-cases, if◌then◌else◌,
}
use driftdriver.Base.Value.{ok, >>=-eq-ok, ok_injective}
use driftdriver.Base.Platform.{Platform, field_text, word}
use driftdriver.Control.State.{Control, elevated_modes}
use driftdriver.Control.Authority.{load_control_state}
use driftdriver.Expiry.Decision.{Marker, lease_is_active_raw, lease_identity}
use driftdriver.Expiry.Record.{World}
use driftdriver.Expiry.Service.{Environment}
use driftdriver.Expiry.Handle.{
  Observation, prior_active_transition, released_transition, same_lease_failed, release_key,
  recheck, locked_step, handle_lease_expiry,
}
use driftdriver.Expiry.Effect.{Stopped, stop_lease-Stopped}

-- If the control state that is loaded under the lock holds an active lease, a call that returns does
-- nothing: no call of the service, no marker and no event, whatever the snapshot said.
handle_lease_expiry-active :
    (p : Platform) (now : ℕ) (env : Environment) (o : Observation) (w : World) (c : Control)
    → load_control_state p now w.repository ≡ ok c
    → lease_is_active_raw p now c ≡ ok true
    → (result : Option Marker × World) → handle_lease_expiry p now env o w ≡ ok result
    → result ≡ (none, w)
unfolding handle_lease_expiry locked_step recheck
handle_lease_expiry-active p now env o w c loaded active result h = ground arith

-- The lease that a call is about: the one that was released, or the one in the snapshot.
abbrev pub target : Platform → Observation → String
target p o = if released_transition p o then release_key p o else lease_identity p o.control

recheck-Stopped :
    (p : Platform) (now : ℕ) (env : Environment) (o : Observation) (w w' : World) (c : Control)
    (active : Bool) {k : Marker}
    → recheck p now env o w c active ≡ ok (some k, w')
    → Stopped p (target p o) w k w'
unfolding recheck
recheck-Stopped p now env o w w' c true h =
    absurd (cc (ap (λ (x : Option Marker × World). x.0) (ok_injective h)))
recheck-Stopped p now env o w w' c false {k} h = elim (Bool-cases (released_transition p o)) [
  | inl released ↦ elim (Bool-cases (is_empty (field_text p c.lease_owner))) [
    | inl vacant ↦
        rw released
          (stop_lease-Stopped p now env o c _ w w' (inl released) (rw (released, vacant) at h))
    | inr owned ↦
        absurd
          (cc (ap (λ (x : Option Marker × World). x.0) (ok_injective (rw (released, owned) at h))))
  ]
  | inr expired ↦ elim (Bool-cases (lease_identity p c == lease_identity p o.control)) [
    | inl same ↦
        rw (expired, ← (eq_iff _ _).0 same)
          (stop_lease-Stopped p now env o c _ w w' (inr refl) (rw (expired, same) at h))
    | inr other ↦
        absurd
          (cc (ap (λ (x : Option Marker × World). x.0) (ok_injective (rw (expired, other) at h))))
  ]
]

-- Either a call does nothing, or it is the step under the locks.
pub handle_cases :
    (p : Platform) (now : ℕ) (env : Environment) (o : Observation) (w : World)
    {result : Option Marker × World}
    → handle_lease_expiry p now env o w ≡ ok result
    → (result ≡ (none, w))
      ⊎ ((c : Control) × (active : Bool) × (recheck p now env o w c active ≡ ok result))
unfolding handle_lease_expiry locked_step
handle_cases p now env o w h =
    elim (Bool-cases (prior_active_transition p o || same_lease_failed p o)) [
      | inr idle ↦ inl (sym (ok_injective (rw idle at h)))
      | inl due ↦ elim (Bool-cases (is_in (word p o.control.mode "") elevated_modes)) [
        | inr quiet ↦ inl (sym (ok_injective (rw (due, quiet) at h)))
        | inl elevated ↦
            let (active, _, rest) =
              >>=-eq-ok (lease_is_active_raw p now o.control) _ (rw (due, elevated) at h) in
            elim (Bool-cases active) [
              | inl runs ↦ inl (sym (ok_injective (rw runs at rest)))
              | inr over ↦
                  let (c, _, rest') =
                    >>=-eq-ok (load_control_state p now w.repository) _ (rw over at rest) in
                  let (b, _, last) = >>=-eq-ok (lease_is_active_raw p now c) _ rest' in
                  inr (c, b, last)
            ]
      ]
    ]

-- A call that returns a record has stopped the service at most once and logged one event, its record
-- names the lease that the call is about, and the record of a stop that succeeded stays on disk while a
-- failed one leaves no marker, so that it is tried again.
pub handle_lease_expiry-Stopped :
    (p : Platform) (now : ℕ) (env : Environment) (o : Observation) (w w' : World) (k : Marker)
    → handle_lease_expiry p now env o w ≡ ok (some k, w')
    → Stopped p (target p o) w k w'
handle_lease_expiry-Stopped p now env o w w' k h = elim (handle_cases p now env o w h) [
  | inl nothing ↦ absurd (cc (ap (λ (x : Option Marker × World). x.0) nothing))
  | inr (c, active, step) ↦ recheck-Stopped p now env o w w' c active step
]
