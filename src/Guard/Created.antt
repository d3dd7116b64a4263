-- ===== src/Guard/Created.antt =====
-- driftdriver/drift_task_guard.py: what stands behind each answer of `guarded_add_drift_task`.
use driftdriver.Base.{
  String, ℕ, ◌≡◌, refl, sym, ap, Bool, true, false, inl, inr, Option, ◌∙◌, eq_iff, Bool-cases,
  lower, contains, ◌==◌, if◌then◌else◌,
}
use driftdriver.Base.Value.{Result, ok, err, is_zero, ok_injective, >>=-eq-ok}
use driftdriver.Base.Platform.{Platform}
use driftdriver.Budget.Actor.{Actor}
use driftdriver.Budget.Policy.{Policy, can_do, get_budget, load_authority_policy}
use driftdriver.Budget.Quality.{apply_quality_modifier}
use driftdriver.Budget.Ledger.{record_operation, recent_count}
use driftdriver.Budget.Check.{check_budget, reached, reached-Below, Below, check_budget-create}
use driftdriver.Directive.Shim.{Effects, execute}
use driftdriver.Guard.Tasks.{load_task_list, count_active_drift_tasks, count_all_active_drift_tasks}
use driftdriver.Guard.Outcome.{stamp_desired_outcome}
use driftdriver.Guard.Add.{
  emit_described, Finding, Inputs, Books, Call, resolve_actor, get_global_ceiling, directive_for,
  capped, account, emit, under_ceiling, under_budget, hour, tally, look_up, with_policy,
  guarded_add_drift_task,
}

-- A call by `actor` under `policy` that created a task: what it was allowed by, and what it wrote.
pub record Created (p : Platform) (now : ℕ) (i : Inputs) (actor : Actor) (f : Finding)
    (b b' : Books) : Type 0 where
  pub policy : Policy
  pub loaded : load_authority_policy p i.toml ≡ ok policy
  pub granted : can_do actor "create" policy ≡ true
  pub fresh : is_zero i.show_code ≡ false
  pub active : ℕ
  pub creates : ℕ
  pub total : ℕ
  pub counted_active : count_active_drift_tasks p f.lane_tag (load_task_list i.listed) ≡ ok active
  pub counted_creates : recent_count p now actor.id "create" hour b.ledger ≡ ok creates
  pub counted_total : count_all_active_drift_tasks p (load_task_list i.listed) ≡ ok total
  pub below_active :
      Below active
        (get_budget actor.actor_class
          (apply_quality_modifier actor.actor_class policy i.quality)).max_active_tasks
  pub below_creates :
      Below creates
        (get_budget actor.actor_class
          (apply_quality_modifier actor.actor_class policy i.quality)).max_creates_per_hour
  pub below_ceiling :
      Below total (get_global_ceiling (apply_quality_modifier actor.actor_class policy i.quality))
  pub description : String
  pub described : stamp_desired_outcome f.description i.north_star ≡ ok description
  pub executed :
      (execute p now i.surroundings (directive_for p now actor f i description) b.effects).1
      ≡ ok "completed"
  pub charged :
      b'.ledger
      ≡ record_operation p now actor.id actor.actor_class "create" actor.repo f.task_id b.ledger
  pub quiet : b'.escalations ≡ b.escalations

-- The answer of a call, and what it left.
abbrev Answers : Call → Books → String → Type 0
Answers c b' answer = (c.0 ≡ b') × (c.1 ≡ ok answer)

account_created :
    (p : Platform) (now : ℕ) (actor : Actor) (f : Finding) (b b' : Books) (e : Effects)
    (r : Result String)
    → Answers (account p now actor f b (e, r)) b' "created"
    → (r ≡ ok "completed")
      × (b'.ledger
          ≡ record_operation p now actor.id actor.actor_class "create" actor.repo f.task_id
              b.ledger)
      × (b'.escalations ≡ b.escalations)
unfolding account
account_created p now actor f b b' e (err x) (h, k) = cc
account_created p now actor f b b' e (ok answer) (h, k) =
    elim (Bool-cases (answer == "completed")) [
      | inl on ↦
          let left = rw on at h in
          (
            ap ok ((eq_iff answer "completed").0 on),
            sym (ap (λ (x : Books). x.ledger) left),
            sym (ap (λ (x : Books). x.escalations) left),
          )
      | inr off ↦ cc (rw off at k)
    ]

emit_created :
    (p : Platform) (now : ℕ) (i : Inputs) (actor : Actor) (f : Finding) (b b' : Books)
    (m : Result String)
    → Answers (emit_described p now i actor f b m) b' "created"
    → (description : String) × (m ≡ ok description)
      × Answers
          (account p now actor f b
            (execute p now i.surroundings (directive_for p now actor f i description) b.effects))
          b'
          "created"
unfolding emit_described
emit_created p now i actor f b b' (err x) (h, k) = cc
emit_created p now i actor f b b' (ok description) h = (description, refl, h)

ceiling_created :
    (p : Platform) (now : ℕ) (i : Inputs) (actor : Actor) (f : Finding) (b b' : Books)
    (policy : Policy) (n : Result ℕ)
    → Answers (under_ceiling p now i actor f b policy n) b' "created"
    → (total : ℕ) × (n ≡ ok total)
      × (reached total (get_global_ceiling policy) ≡ false)
      × Answers (emit p now i actor f b) b' "created"
unfolding under_ceiling capped
ceiling_created p now i actor f b b' policy (err x) (h, k) = cc
ceiling_created p now i actor f b b' policy (ok total) h =
    elim (Bool-cases (reached total (get_global_ceiling policy))) [
      | inl on ↦ cc (rw on at h).1
      | inr off ↦ (total, refl, off, rw off at h)
    ]

budget_created :
    (p : Platform) (now : ℕ) (i : Inputs) (actor : Actor) (f : Finding) (b b' : Books)
    (policy : Policy) (n : Result (ℕ × ℕ))
    → Answers (under_budget p now i actor f b policy n) b' "created"
    → (active : ℕ) × (creates : ℕ) × (n ≡ ok (active, creates))
      × ((check_budget p actor "create" active creates policy).0 ≡ true)
      × Answers
          (under_ceiling p now i actor f b policy
            (count_all_active_drift_tasks p (load_task_list i.listed)))
          b'
          "created"
unfolding under_budget capped
budget_created p now i actor f b b' policy (err x) (h, k) = cc
budget_created p now i actor f b b' policy (ok (active, creates)) h =
    elim (Bool-cases (check_budget p actor "create" active creates policy).0) [
      | inl on ↦ (active, creates, refl, on, rw on at h)
      | inr off ↦ cc (rw off at h).1
    ]

look_up_created :
    (p : Platform) (now : ℕ) (i : Inputs) (actor : Actor) (f : Finding) (b b' : Books)
    (policy : Policy)
    → Answers (look_up p now i actor f b policy) b' "created"
    → (is_zero i.show_code ≡ false)
      × Answers
          (under_budget p now i actor f b
            (apply_quality_modifier actor.actor_class policy i.quality)
            (tally p now i actor f b))
          b'
          "created"
unfolding look_up
look_up_created p now i actor f b b' policy h = elim (Bool-cases (is_zero i.show_code)) [
  | inl shown ↦ cc (rw shown at h).1
  | inr fresh ↦ elim (Bool-cases (contains (lower i.show_error) "timed out")) [
    | inl late ↦ cc (rw (fresh, late) at h).1
    | inr told ↦ (fresh, rw (fresh, told) at h)
  ]
]

granted_created :
    (granted : Bool) (c : Call) (b b' : Books)
    → Answers (if granted then c else (b, ok "unauthorized")) b' "created"
    → (granted ≡ true) × Answers c b' "created"
granted_created true c b b' h = (refl, h)
granted_created false c b b' (h, k) = cc

policy_created :
    (p : Platform) (now : ℕ) (i : Inputs) (actor : Actor) (f : Finding) (b b' : Books)
    (m : Result Policy)
    → Answers (with_policy p now i actor f b m) b' "created"
    → (policy : Policy) × (m ≡ ok policy)
      × (can_do actor "create" policy ≡ true)
      × Answers (look_up p now i actor f b policy) b' "created"
unfolding with_policy
policy_created p now i actor f b b' (err x) (h, k) = cc
policy_created p now i actor f b b' (ok policy) h =
    let (granted, looked) =
      granted_created (can_do actor "create" policy) (look_up p now i actor f b policy) b b' h in
    (policy, refl, granted, looked)

-- A call that answers "created" was made by an actor that may create, with a task id for which `wg show`
-- exits with an error. Three counts were below the quality-adjusted limits: the active tasks of the lane
-- and all active drift tasks, each in the list that `wg list` gives, which is empty where it fails, and
-- the actor's creations of the last hour in the ledger. The shim completed the directive, and the ledger
-- got the one entry.
pub guarded_add_drift_task-Created :
    (p : Platform) (now : ℕ) (i : Inputs) (actor : Option Actor) (f : Finding) (b b' : Books)
    → guarded_add_drift_task p now i actor f b ≡ (b', ok "created")
    → Created p now i (resolve_actor f.lane_tag actor) f b b'
unfolding guarded_add_drift_task tally emit
guarded_add_drift_task-Created p now i actor f b b' h =
    let who = resolve_actor f.lane_tag actor in
    let both : Answers (guarded_add_drift_task p now i actor f b) b' "created" =
      (ap (λ (x : Call). x.0) h, ap (λ (x : Call). x.1) h) in
    let (policy, loaded, granted, looked) = policy_created p now i who f b b' _ both in
    let (fresh, second) = look_up_created p now i who f b b' policy looked in
    let effective = apply_quality_modifier who.actor_class policy i.quality in
    let (active, creates, tallied, allowed, third) =
      budget_created p now i who f b b' effective _ second in
    let (n, one, rest) =
      >>=-eq-ok (count_active_drift_tasks p f.lane_tag (load_task_list i.listed)) _ tallied in
    let (m, two, last) = >>=-eq-ok (recent_count p now who.id "create" hour b.ledger) _ rest in
    let pair = ok_injective last in
    let below = (check_budget-create p who active creates effective).0 allowed in
    let (total, counted, under, fourth) = ceiling_created p now i who f b b' effective _ third in
    let (description, described, fifth) = emit_created p now i who f b b' _ fourth in
    let (done, charged, quiet) = account_created p now who f b b' _ _ fifth in
    record {
      policy = policy;
      loaded = loaded;
      granted = granted;
      fresh = fresh;
      active = active;
      creates = creates;
      total = total;
      counted_active = one ∙ ap (λ (x : ℕ × ℕ). ok x.0) pair;
      counted_creates = two ∙ ap (λ (x : ℕ × ℕ). ok x.1) pair;
      counted_total = counted;
      below_active = below.0;
      below_creates = below.1;
      below_ceiling = (reached-Below total (get_global_ceiling effective)).0 under;
      description = description;
      described = described;
      executed = done;
      charged = charged;
      quiet = quiet;
    }
