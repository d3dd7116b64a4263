-- ===== src/Expiry/Cycle.antt =====
-- driftdriver/speedriftd.py: `run_runtime_cycle` and `run_runtime_loop`. Of a snapshot, the cycle reads the
-- control state and the last stop; what else a snapshot observes has no part in what the cycle does.
use driftdriver.Base.{ℕ, zero, suc, ◌&&◌, Option, none, some, is_in, if◌then◌else◌}
use driftdriver.Base.Value.{Result, ok, ◌>>=◌, is_true}
use driftdriver.Base.Platform.{Platform, word}
use driftdriver.Control.State.{Control, elevated_modes}
use driftdriver.Control.Authority.{Repository, load_control_state}
use driftdriver.Expiry.Decision.{Marker}
use driftdriver.Expiry.Record.{World}
use driftdriver.Expiry.Service.{Environment}
use driftdriver.Expiry.Handle.{Observation, handle_lease_expiry}

-- The keys `control`, whose values are null in an empty snapshot, and `last_lease_expiry_stop`.
pub record Snapshot : Type 0 where
  pub control : Control
  pub last_lease_expiry_stop : Option Marker

-- What a cycle meets: the clock at its four readings, the service at both calls, the exception that the
-- rest of the collection may raise, and what others write to the repository meanwhile.
pub record Moments : Type 0 where
  pub loaded : ℕ
  pub early : ℕ
  pub collected : ℕ
  pub late : ℕ
  pub early_service : Environment
  pub late_service : Environment
  pub observed : Result (Unit {0})
  pub before_collection : Repository → Repository
  pub before_late : Repository → Repository

abbrev pub meddled : (Repository → Repository) → World → World
meddled f w = record w { repository = f w.repository }

abbrev pub observation : Snapshot → Control → Observation
observation s c = record {
  control = c;
  previous = s.control;
  previous_stop = s.last_lease_expiry_stop;
}

-- The stop before the collection, if the snapshot before had an active lease.
unfoldable pub early_expiry : Platform → Moments → Snapshot → World → Result (Option Marker × World)
early_expiry p t s w =
    if is_true s.control.lease_active && is_in (word p s.control.mode "") elevated_modes
    then (load_control_state p t.loaded w.repository >>= λ c.
        handle_lease_expiry p t.early t.early_service (observation s c) w)
    else ok (none, w)

-- `collect_runtime_snapshot`, as far as the cycle reads it
unfoldable pub collect_control : Platform → Moments → World → Result Control
collect_control p t w =
    load_control_state p t.collected w.repository >>= λ c. t.observed >>= λ _. ok c

-- The stop after the collection, unless there was one before.
unfoldable pub late_expiry :
    Platform → Moments → Snapshot → Control → Option Marker → World → Result (Option Marker × World)
late_expiry p t s c (some k) w = ok (some k, w)
late_expiry p t s c none w = handle_lease_expiry p t.late t.late_service (observation s c) w

-- `run_runtime_cycle`: the snapshot that it writes.
unfoldable pub run_runtime_cycle : Platform → Moments → World × Snapshot → Result (World × Snapshot)
run_runtime_cycle p t (w, s) = early_expiry p t s w >>= λ x.
    let collecting = meddled t.before_collection x.1 in
    collect_control p t collecting >>= λ c.
    late_expiry p t s c x.0 (meddled t.before_late collecting) >>= λ y.
    ok (y.1, record { control = c; last_lease_expiry_stop = y.0 })

-- The first cycles of `run_runtime_loop`, all of them where `max_cycles` is their number.
unfoldable pub run_runtime_loop :
    Platform → (ℕ → Moments) → ℕ → World × Snapshot → Result (World × Snapshot)
run_runtime_loop p t zero x = ok x
run_runtime_loop p t (suc n) x = run_runtime_loop p t n x >>= run_runtime_cycle p (t n)
