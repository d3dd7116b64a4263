-- ===== src/Router/Guarded.antt =====
-- driftdriver/task_router.py: a run of `route_ready_tasks` under the dispatch lease.
use driftdriver.Base.{
  String, ◌≡◌, refl, sym, ap, Bool, true, false, inl, inr, Option, none, some, List, [], ◌∷◌, arith,
  Bool-cases, ◌==◌, if◌then◌else◌,
}
use driftdriver.Base.Value.{Value, str, Fields, Fault, Result, ok, err, get?}
use driftdriver.Base.Platform.{Platform, str_of}
use driftdriver.Control.Authority.{Verdict}
use driftdriver.Directive.Command.{item}
use driftdriver.Router.Match.{ExecutorConfig, RoutingConfig}
use driftdriver.Router.Choice.{Routing, held, sent, route_task}
use driftdriver.Router.Act.{Outside, unlocked, spawned, Run, return, resume, ◌>>=◌, lift, happen}
use driftdriver.Router.Ready.{find_ready_tasks}
use driftdriver.Router.Dispatch.{
  DispatchResult, skipped_by, task_id_of, spawn_in, spawn_admitted, dispatch_wg_spawn,
  dispatch_task,
}
use driftdriver.Router.Loop.{
  send_http, holding, route_one, route_all, route_admitted, route_ready_tasks,
}
use driftdriver.Router.License.{Granted, Safe, Keeps, resume-Safe, admission-Safe, IsGuarded}
use driftdriver.Router.Post.{send_http-Safe}

module _ (p : Platform) (o : Outside) where
  spawn_after :
      (left : Bool) (id : String) (cmd : List Value) (result : Result DispatchResult) (r : Run)
      → IsGuarded p o r.happenings
      → Granted p o r.happenings
      → IsGuarded p o
          (((if left then happen unlocked else return tt) >>= λ _.
              happen (spawned id cmd) >>= λ _. lift result)
            r).0.happenings
  spawn_after true id cmd result r h g = (g, (g, h))
  spawn_after false id cmd result r h g = (g, h)

  spawn_in-Safe :
      (task : Fields) (x : ExecutorConfig) (kind id : String) (d : Result String) (r : Run)
      → Safe p o r
      → Granted p o r.happenings
      → Safe p o (resume (r, d) (spawn_in o task x kind id)).0
  unfolding spawn_in
  spawn_in-Safe task x kind id (ok d) r h g = spawn_after o.locked id _ _ r h g
  spawn_in-Safe task x kind id (err e) r h g = h

  spawn-Safe :
      (task : Fields) (x : ExecutorConfig) (kind : String) (v : Verdict) (r : Run)
      → Safe p o r
      → (v.enabled ≡ true → Granted p o r.happenings)
      → Safe p o (spawn_admitted p o task x kind v r).0
  unfolding spawn_admitted
  spawn-Safe task x kind v r h k = elim (Bool-cases v.enabled) [
    | inl on ↦ rw on (spawn_in-Safe task x kind (task_id_of p task) o.wg_dir r h (k on))
    | inr off ↦ rw off h
  ]

  dispatch_wg_spawn-Safe :
      (task : Fields) (x : ExecutorConfig) (kind : String)
      → Keeps p o (dispatch_wg_spawn p o task x kind)
  unfolding dispatch_wg_spawn
  dispatch_wg_spawn-Safe task x kind r h =
      admission-Safe p o (spawn_admitted p o task x kind) r (spawn-Safe task x kind) h

  -- The other executors.
  dispatch_task-Safe :
      (task : Fields) (x : ExecutorConfig)
      → (x.kind == "http") ≡ false
      → Keeps p o (dispatch_task p o task x)
  unfolding dispatch_task
  dispatch_task-Safe task x other r h =
      ground
        (arith, dispatch_wg_spawn-Safe task x "claude" r h, dispatch_wg_spawn-Safe task x "pi" r h)

  found_id :
      (found : Option Value) (v : Value)
      → (elim found [ none ↦ err Fault.key_error | some w ↦ ok w ]) ≡ ok v
      → (elim found [ none ↦ str "unknown" | some w ↦ w ]) ≡ v
  found_id none v h = cc
  found_id (some w) v h = cc

  item-Safe :
      (task : Fields) (x : ExecutorConfig) (got : Result Value)
      → (x.kind == "http") ≡ true
      → ((v : Value) → got ≡ ok v → str_of p v ≡ task_id_of p task)
      → (r : Run) → Safe p o r
      → Safe p o (resume (resume (r, got) (λ v. return (str_of p v))) (send_http p o task x)).0
  item-Safe task x (ok v) http same r h = rw (same v refl) (send_http-Safe p o task x http r h)
  item-Safe task x (err e) http same r h = h

  id_of_item : (task : Fields) (v : Value) → item "id" task ≡ ok v → str_of p v ≡ task_id_of p task
  unfolding item
  id_of_item task v h = ap (str_of p) (sym (found_id (get? "id" task) v h))

  named-Safe :
      (raw : Fields) (owner : String) (got : Result Value) (r : Run)
      → Safe p o r
      → Safe p o
          (resume
            (resume (r, got) (λ v. return (str_of p v)))
            (λ id. return (skipped_by id owner (holding owner)))).0
  named-Safe raw owner (ok v) r h = h
  named-Safe raw owner (err e) r h = h

  route_one-Safe : (w : Routing) (raw : Fields) → Keeps p o (route_one p o w raw)
  unfolding route_one
  route_one-Safe (held owner) raw r h = named-Safe raw owner (item "id" raw) r h
  route_one-Safe (sent x task) raw r h = elim (Bool-cases (x.kind == "http")) [
    | inl http ↦ rw http (item-Safe task x (item "id" task) http (id_of_item task) r h)
    | inr other ↦ rw other (dispatch_task-Safe task x other r h)
  ]

  route_all-Safe :
      (cfg : Fields) (config : RoutingConfig) (ready : List Fields)
      → Keeps p o (route_all p o cfg config ready)
  unfolding route_all
  route_all-Safe cfg config [] r h = h
  route_all-Safe cfg config (raw ∷ ready) r h =
      resume-Safe p o (r, route_task p cfg config raw) _ h
        (λ w r h.
          resume-Safe p o (route_one p o w raw r) _ (route_one-Safe w raw r h) (λ result r h.
            resume-Safe p o (route_all p o cfg config ready r) _
              (route_all-Safe cfg config ready r h) (λ results r h. h)))

  route_admitted-Safe :
      (cfg : Fields) (config : RoutingConfig) (nodes : List Value) (v : Verdict)
      → Keeps p o (route_admitted p o cfg config nodes v)
  unfolding route_admitted
  route_admitted-Safe cfg config nodes v r h = elim (Bool-cases v.enabled) [
    | inl on ↦ rw on (
        resume-Safe p o (r, o.wg_dir) _ h
          (λ _ r h.
            resume-Safe p o (r, find_ready_tasks o.utc_instant o.clock nodes) _ h
              (route_all-Safe cfg config)))
    | inr off ↦ rw off h
  ]

abbrev pub start : Run
start = record { checks = 0; happenings = [] }

-- In the record of a run of the router, every claim and every spawn comes right after an admission check
-- whose authority permits dispatch, but for the removal of a stale lock, every request over HTTP right after a claim of its task that succeeded,
-- and every return of a task right after a request about it. The authority may change between checks.
pub route_ready_tasks-IsGuarded :
    (p : Platform) (o : Outside) (cfg : Fields) (config : RoutingConfig) (nodes : List Value)
    → IsGuarded p o (route_ready_tasks p o cfg config nodes start).0.happenings
unfolding route_ready_tasks
route_ready_tasks-IsGuarded p o cfg config nodes =
    admission-Safe p o (route_admitted p o cfg config nodes) start
      (λ v r h _. route_admitted-Safe p o cfg config nodes v r h) tt
