-- ===== src/Autopilot/Walk.antt =====
-- driftdriver/project_autopilot.py: the loop over a batch, step by step.
use driftdriver.Base.{
  String, ◌≡◌, inl, inr, refl, sym, subst, Bool, true, false, List, [], ◌∷◌, map, arith,
}
use driftdriver.Base.Value.{Fields}
use driftdriver.Base.Platform.{Platform}
use driftdriver.Base.Act.{Holds, resume-Holds, lift-Holds, weaken, either-Holds}
use driftdriver.Autopilot.State.{
  AutopilotConfig, AutopilotRun, WorkerContext, Status, Outside, checked, after, State, Step, store,
  fail, id_of,
}
use driftdriver.Autopilot.Drift.{run_drift_check}
use driftdriver.Autopilot.Dispatch.{dispatch_task}
use driftdriver.Autopilot.Dispatched.{
  launched_ids, IsEnd, IsFresh, Untouched, Entered, dispatch_task-Entered,
}
use driftdriver.Autopilot.Loop.{
  settle_drift, check_drift, follow, dispatch_one, go_on, dispatch_each,
}
use driftdriver.Autopilot.Batch.{
  NotEscalated, Sound, Adds, Pushes, no_push, complete-Adds, Stepped, failed-Stepped,
  settle-Stepped, IsEnd-IsOver,
}

module _ (c : AutopilotConfig) (r : AutopilotRun) (l : List String) where
  -- After an exception.
  abbrev pub Broken : List String → State → Type 0
  Broken ids s = NotEscalated c s.run × Pushes ids l (launched_ids s.happenings)

  -- After a loop over the ids, which went through with `true`.
  abbrev pub Walked : List String → Bool → State → Type 0
  Walked ids b s =
      Sound c s.run × (b ≡ true → Adds ids r s.run) × Pushes ids l (launched_ids s.happenings)

module _ (o : Outside) (c : AutopilotConfig) (id : String) (r : AutopilotRun)
    (l : List String) where
  abbrev Fine : Bool → State → Type 0
  Fine = Walked c r l (id ∷ [])

  drift-Walked :
      (ctx : WorkerContext) (s : State)
      → Sound c r
      → IsFresh ctx
      → s.run ≡ store id ctx r
      → Pushes (id ∷ []) l (launched_ids s.happenings)
      → Holds (Broken c r l (id ∷ [])) Fine (check_drift o c id ctx s)
  unfolding check_drift
  drift-Walked ctx s h f same pushed =
      lift-Holds (Broken c r l (id ∷ [])) Fine (run_drift_check o id) (after (checked id) s) _
        (subst (NotEscalated c) (sym same) h.1, pushed)
        (λ d _.
          let good =
            subst (λ r'. Stepped c id r true (settle_drift c id d ctx r')) (sym same)
              (settle-Stepped c id d ctx r f h) in
          (good.0, good.1, pushed))

  failed-Walked :
      (ctx : WorkerContext) (s : State)
      → Sound c r
      → IsFresh ctx
      → s.run ≡ store id ctx r
      → Pushes (id ∷ []) l (launched_ids s.happenings)
      → Fine true (record s { run = fail id s.run })
  failed-Walked ctx s h f same pushed =
      let good =
        subst (λ r'. Stepped c id r true (fail id r')) (sym same)
          (failed-Stepped c id ctx r (IsEnd-IsOver ctx.status f.0) h) in
      (good.0, good.1, pushed)

  pub follow-Walked :
      (ctx : WorkerContext) (status : Status) (s : State)
      → ctx.status ≡ status
      → Sound c r
      → Entered r id l ctx s
      → Holds (Broken c r l (id ∷ [])) Fine (follow o c id ctx status s)
  unfolding follow
  follow-Walked ctx Status.blocked s e h (inl (off, same), pushed) =
      (subst (Sound c) (sym same) h, λ b. absurd (cc (b)), pushed)
  follow-Walked ctx Status.blocked s e h (inr (f, same), pushed) = absurd (subst IsEnd e f.0)
  follow-Walked ctx Status.failed s e h (inl (off, same), pushed) = absurd (cc (e, off))
  follow-Walked ctx Status.failed s e h (inr (f, same), pushed) =
      failed-Walked ctx s h f same pushed
  follow-Walked ctx Status.completed s e h (inl (off, same), pushed) = absurd (cc (e, off))
  follow-Walked ctx Status.completed s e h (inr (f, same), pushed) =
      drift-Walked ctx s h f same pushed
  follow-Walked ctx Status.running s e h (inl (off, same), pushed) = absurd (cc (e, off))
  follow-Walked ctx Status.running s e h (inr (f, same), pushed) = absurd (subst IsEnd e f.0)
  follow-Walked ctx Status.escalated s e h (inl (off, same), pushed) = absurd (cc (e, off))
  follow-Walked ctx Status.escalated s e h (inr (f, same), pushed) = absurd (subst IsEnd e f.0)

abbrev pub ids_of : List Fields → List String
ids_of tasks = map id_of tasks

pub push_more :
    (id : String) (ids l l₁ l₂ : List String)
    → Pushes (id ∷ []) l l₁
    → Pushes ids l₁ l₂
    → Pushes (id ∷ ids) l l₂
push_more id ids l l₁ l₂ (inl e) h = inl (subst (λ k. Pushes ids k l₂) e h)
push_more id ids l l₁ l₂ (inr e) h = inr (subst (λ k. Pushes ids k l₂) e h)

pub add_more :
    (id : String) (ids : List String) (r r₁ r₂ : AutopilotRun)
    → Adds (id ∷ []) r r₁
    → Adds ids r₁ r₂
    → Adds (id ∷ ids) r r₂
add_more id ids r r₁ r₂ one more j = ground (arith, one j, more j)

module _ (p : Platform) (o : Outside) (c : AutopilotConfig) where
  dispatch_one-Walked :
      (task : Fields) (s : State)
      → Sound c s.run
      → Holds
          (Broken c s.run (launched_ids s.happenings) (id_of task ∷ []))
          (Walked c s.run (launched_ids s.happenings) (id_of task ∷ []))
          (dispatch_one p o c task s)
  unfolding dispatch_one
  dispatch_one-Walked task s h =
      let id = id_of task in
      let l = launched_ids s.happenings in
      let E = Broken c s.run l (id ∷ []) in
      let Q = Walked c s.run l (id ∷ []) in
      either-Holds E Q c.dry_run _ _ s (λ _. (h, (λ _. complete-Adds id s.run), inl refl))
        (λ _.
          resume-Holds E (Entered s.run id l) Q (dispatch_task p o c task s) _
            (weaken (Untouched s.run id l) (Entered s.run id l) E (Entered s.run id l)
              (dispatch_task p o c task s) (dispatch_task-Entered p o c task s)
              (λ s' h'. (subst (NotEscalated c) (sym h'.0) h.1, h'.1)) (λ ctx s' h'. h'))
            (λ ctx s' h'. follow-Walked o c id s.run l ctx ctx.status s' refl h h'))

  rest-Walked :
      (id : String) (ids : List String) (r : AutopilotRun) (l : List String) (later : Step Bool)
      → ((s : State)
          → Sound c s.run
          → Holds
              (Broken c s.run (launched_ids s.happenings) ids)
              (Walked c s.run (launched_ids s.happenings) ids)
              (later s))
      → (b : Bool) (s : State) → Walked c r l (id ∷ []) b s
      → Holds (Broken c r l (id ∷ ids)) (Walked c r l (id ∷ ids)) (go_on later b s)
  rest-Walked id ids r l later k false s h =
      (h.0, (λ b. absurd (cc (b))), push_more id ids l _ _ h.2 (no_push ids _ _ refl))
  rest-Walked id ids r l later k true s h =
      let now = launched_ids s.happenings in
      weaken (Broken c s.run now ids) (Walked c s.run now ids) (Broken c r l (id ∷ ids))
        (Walked c r l (id ∷ ids)) (later s) (k s h.0)
        (λ s' h'. (h'.0, push_more id ids l now _ h.2 h'.1))
        (λ b s' h'. (
          h'.0,
          (λ e. add_more id ids r s.run s'.run (h.1 refl) (h'.1 e)),
          push_more id ids l now _ h.2 h'.2,
        ))

  -- The loop over the batch.
  pub dispatch_each-Walked :
      (batch : List Fields) (s : State)
      → Sound c s.run
      → Holds
          (Broken c s.run (launched_ids s.happenings) (ids_of batch))
          (Walked c s.run (launched_ids s.happenings) (ids_of batch))
          (dispatch_each p o c batch s)
  unfolding dispatch_each
  dispatch_each-Walked [] s h = (h, (λ _ j. refl), refl)
  dispatch_each-Walked (task ∷ batch) s h =
      let id = id_of task in
      let l = launched_ids s.happenings in
      let ids = ids_of batch in
      let E = Broken c s.run l (id ∷ ids) in
      let one = Walked c s.run l (id ∷ []) in
      resume-Holds E one (Walked c s.run l (id ∷ ids)) (dispatch_one p o c task s) _
        (weaken (Broken c s.run l (id ∷ [])) one E one (dispatch_one p o c task s)
          (dispatch_one-Walked task s h)
          (λ s' h'. (h'.0, push_more id ids l _ _ h'.1 (no_push ids _ _ refl))) (λ b s' h'. h'))
        (rest-Walked id ids s.run l (dispatch_each p o c batch) (dispatch_each-Walked batch))
