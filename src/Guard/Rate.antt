-- ===== src/Guard/Rate.antt =====
-- driftdriver/drift_task_guard.py with driftdriver/budget_ledger.py: the rate at which an actor
-- creates tasks.
use driftdriver.Base.{String, ℕ, ◌+◌, ◌≤◌, ◌≡◌, ◌∙◌, ap, le→leb, eq_refl, arith, Option}
use driftdriver.Base.Value.{ℤ, pos, negsuc, ok}
use driftdriver.Base.Platform.{Platform}
use driftdriver.Budget.Actor.{Actor}
use driftdriver.Budget.Policy.{Policy, get_budget, load_authority_policy}
use driftdriver.Budget.Quality.{apply_quality_modifier}
use driftdriver.Budget.Ledger.{
  Ledger, recent_count, record_operation, recent_count-record_operation,
}
use driftdriver.Budget.Check.{Below}
use driftdriver.Guard.Add.{Finding, Inputs, Books, resolve_actor, hour, guarded_add_drift_task}
use driftdriver.Guard.Created.{guarded_add_drift_task-Created}

-- The count is at most the limit.
abbrev pub AtMost : ℕ → ℤ → Type 0
AtMost count (pos n) = count ≤ n
AtMost count (negsuc n) = ⊥

Below-AtMost : (count : ℕ) (limit : ℤ) → Below count limit → AtMost (count + 1) limit
Below-AtMost count (pos n) h = omega arith
Below-AtMost count (negsuc n) h = h

own_entry :
    (p : Platform) (now : ℕ) (actor : Actor) (task_id : String) (ledger : Ledger) {n : ℕ}
    → now ≤ p.last_instant
    → recent_count p now actor.id "create" hour ledger ≡ ok n
    → recent_count p now actor.id "create" hour
        (record_operation p now actor.id actor.actor_class "create" actor.repo task_id ledger)
      ≡ ok (n + 1)
own_entry p now actor task_id ledger fits h =
    let step =
      recent_count-record_operation p now now actor.id "create" hour actor.id actor.actor_class
        "create" actor.repo task_id ledger fits h in
    rw (eq_refl actor.id, le→leb now (now + hour) (omega arith)) at step

-- After a call that created a task, at an instant that prints, the actor's creations within the last
-- hour are counted, and they are at most what its quality-adjusted budget grants, the new one
-- included.
pub guarded_add_drift_task_rate :
    (p : Platform) (now : ℕ) (i : Inputs) (actor : Option Actor) (f : Finding) (b b' : Books)
    → guarded_add_drift_task p now i actor f b ≡ (b', ok "created")
    → now ≤ p.last_instant
    → (policy : Policy) × (n : ℕ) × (load_authority_policy p i.toml ≡ ok policy)
      × (recent_count p now (resolve_actor f.lane_tag actor).id "create" hour b'.ledger ≡ ok n)
      × AtMost n
          (get_budget (resolve_actor f.lane_tag actor).actor_class (
            apply_quality_modifier
              (resolve_actor f.lane_tag actor).actor_class
              policy
              i.quality)).max_creates_per_hour
guarded_add_drift_task_rate p now i actor f b b' h fits =
    let c = guarded_add_drift_task-Created p now i actor f b b' h in
    let who = resolve_actor f.lane_tag actor in
    (
      c.policy,
      c.creates + 1,
      c.loaded,
      ap (λ l. recent_count p now who.id "create" hour l) c.charged
          ∙ own_entry p now who f.task_id b.ledger fits c.counted_creates,
      Below-AtMost c.creates _ c.below_creates,
    )
