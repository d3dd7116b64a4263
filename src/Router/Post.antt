-- ===== src/Router/Post.antt =====
-- driftdriver/task_router.py: the claim, the request and the return of a task that goes by HTTP.
use driftdriver.Base.{String, ◌≡◌, refl, Bool, true, false, inl, inr, ◌∷◌, Bool-cases, ◌==◌, eq_iff}
use driftdriver.Base.Value.{Fields, Result, ok, err, ok_injective}
use driftdriver.Base.Platform.{Platform}
use driftdriver.Control.Authority.{Verdict}
use driftdriver.Router.Match.{ExecutorConfig}
use driftdriver.Router.Act.{
  Outside, posted, unclaimed, logged, Run, Act, resume, ◌>>=◌, lift, happen, authority_at,
  settle_check, dispatch_admission, uncaught,
}
use driftdriver.Router.Schedule.{infer_category, infer_urgency}
use driftdriver.Router.Dispatch.{DispatchResult, task_id_of, dispatch_http, dispatch_task}
use driftdriver.Router.Loop.{
  claim_result, note_claim, claim_admitted, claim_task, unclaim_log, unclaim_task, gives_back,
  give_back, dispatch_if_claimed, send_http,
}
use driftdriver.Router.License.{
  Granted, Claimed, WasPosted, Safe, Keeps, resume-Safe, note-Granted, note-IsGuarded,
}

module _ (p : Platform) (o : Outside) where
  -- What a claim leaves: a guarded record, and if it succeeded, the claim as the last thing.
  abbrev Claims : String → Run × Result Bool → Type 0
  Claims id x = Safe p o x.0 × (x.1 ≡ ok true → Claimed p o id x.0.happenings)

  note_claim-Claims :
      (id actor : String) (got : Result Bool) (r : Run)
      → Safe p o r
      → Granted p o r.happenings
      → Claims id ((lift got >>= note_claim id actor) r)
  unfolding note_claim
  note_claim-Claims id actor (ok b) r h g = ((g, h), λ e. (refl, ok_injective e))
  note_claim-Claims id actor (err f) r h g = (h, λ e. cc)

  claim-Claims :
      (id actor : String) (v : Verdict) (r : Run)
      → Safe p o r
      → (v.enabled ≡ true → Granted p o r.happenings)
      → Claims id (claim_admitted o id actor v r)
  unfolding claim_admitted
  claim-Claims id actor v r h k = elim (Bool-cases v.enabled) [
    | inl on ↦ rw on (note_claim-Claims id actor (claim_result (o.claim id actor)) r h (k on))
    | inr off ↦ rw off (h, λ e. cc)
  ]

  checked_claim :
      (id actor : String) (r : Run) (x : Result Verdict)
      → authority_at p o r.checks ≡ x
      → Safe p o r
      → Claims id (resume (settle_check x r) (claim_admitted o id actor))
  unfolding settle_check
  checked_claim id actor r (ok v) e h =
      claim-Claims id actor v _ (note-IsGuarded p o r.checks v r.happenings h)
        (note-Granted p o r v e)
  checked_claim id actor r (err x) e h = (h, λ q. cc)

  claim_task-Claims :
      (id actor : String) (r : Run) → Safe p o r → Claims id (claim_task p o id actor r)
  unfolding claim_task dispatch_admission
  claim_task-Claims id actor r h = checked_claim id actor r (authority_at p o r.checks) refl h

  -- What a dispatch over HTTP leaves: a guarded record, and if it answered, the request as the last thing.
  abbrev Posts {ℓ} : {A : Type ℓ} → String → Run × Result A → Type 0
  Posts id (r, ok a) = Safe p o r × WasPosted p o id r.happenings
  Posts id (r, err e) = Safe p o r

  lift-Posts {ℓ} :
      {A : Type ℓ} (id : String) (m : Result A) (r : Run)
      → Safe p o r
      → WasPosted p o id r.happenings
      → Posts id (r, m)
  lift-Posts id (ok a) r h w = (h, w)
  lift-Posts id (err e) r h w = h

  resume-Posts {ℓ κ} :
      {A : Type ℓ} {B : Type κ} (id : String) (m : Result A) (f : A → Act B) (r : Run)
      → Safe p o r
      → ((a : A) → Posts id (f a r))
      → Posts id (resume (r, m) f)
  resume-Posts id (ok a) f r h k = k a
  resume-Posts id (err e) f r h k = h

  dispatch_http-Posts :
      (task : Fields) (x : ExecutorConfig) (r : Run)
      → Safe p o r
      → Claimed p o (task_id_of p task) r.happenings
      → Posts (task_id_of p task) (dispatch_http p o task x r)
  unfolding dispatch_http
  dispatch_http-Posts task x r h c =
      let id = task_id_of p task in
      resume-Posts id (infer_category p task) _ r h (λ category.
        resume-Posts id (infer_urgency task) _ r h (λ urgency.
          lift-Posts id _ (record r { happenings = posted id ∷ r.happenings }) (c, h) refl))

  unclaim_task-Safe :
      (id : String) (r : Run)
      → Safe p o r
      → WasPosted p o id r.happenings
      → Safe p o (unclaim_task o id r).0
  unfolding unclaim_task
  unclaim_task-Safe id r h w =
      resume-Safe p o
        (record r { happenings = unclaimed id ∷ r.happenings }, uncaught (o.unclaim id))
        (λ _. happen (logged id) >>= λ _. lift (uncaught (o.log id unclaim_log))) (w, h)
        (λ _ r h. (tt, h))

  give_back-Safe :
      (id : String) (x : Run × Result DispatchResult)
      → Posts id x
      → Safe p o (resume x (give_back o id)).0
  unfolding give_back
  give_back-Safe id (r, err e) h = h
  give_back-Safe id (r, ok a) h = elim (Bool-cases (gives_back a)) [
    | inl back ↦
        rw back
          (resume-Safe p o (unclaim_task o id r) _ (unclaim_task-Safe id r h.0 h.1) (λ _ r h. h))
    | inr stays ↦ rw stays h.0
  ]

  dispatch_task_http :
      (task : Fields) (x : ExecutorConfig)
      → (x.kind == "http") ≡ true
      → dispatch_task p o task x ≡ dispatch_http p o task x
  unfolding dispatch_task
  dispatch_task_http task x http = rw ((eq_iff x.kind "http").0 http) refl

  if_claimed-Safe :
      (task : Fields) (x : ExecutorConfig) (y : Run × Result Bool)
      → (x.kind == "http") ≡ true
      → Claims (task_id_of p task) y
      → Safe p o (resume y (dispatch_if_claimed p o task (task_id_of p task) x)).0
  unfolding dispatch_if_claimed
  if_claimed-Safe task x (r, ok true) http c = rw (dispatch_task_http task x http) (
      give_back-Safe (task_id_of p task) (dispatch_http p o task x r)
        (dispatch_http-Posts task x r c.0 (c.1 refl)))
  if_claimed-Safe task x (r, ok false) http c = c.0
  if_claimed-Safe task x (r, err e) http c = c.0

  pub send_http-Safe :
      (task : Fields) (x : ExecutorConfig)
      → (x.kind == "http") ≡ true
      → Keeps p o (send_http p o task x (task_id_of p task))
  unfolding send_http
  send_http-Safe task x http r h =
      if_claimed-Safe task x (claim_task p o (task_id_of p task) x.name r) http
        (claim_task-Claims (task_id_of p task) x.name r h)
