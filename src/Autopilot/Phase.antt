-- ===== src/Autopilot/Phase.antt =====
-- driftdriver/project_autopilot.py: what the batch of a turn does to the run.
use driftdriver.Base.{
  ℕ, suc, String, ◌≡◌, ◌⊎◌, inl, inr, refl, sym, ◌∙◌, subst, Bool, true, false, not, Option, List,
  ◌∷◌, is_in, Bool-cases,
}
use driftdriver.Base.Value.{Fields, ok, pos}
use driftdriver.Base.Platform.{Platform}
use driftdriver.Base.Act.{Holds, resume-Holds, weaken}
use driftdriver.Autopilot.State.{AutopilotConfig, AutopilotRun, Outside, State, Step, check, id_of}
use driftdriver.Autopilot.Tasks.{get_ready_tasks}
use driftdriver.Autopilot.Dispatched.{launched_ids}
use driftdriver.Autopilot.Loop.{
  Ending, permitted, is_processed, actionable_of, take, slice, batch_of, learn, dispatch_each,
  end_of_batch, run_batch, local_phase,
}
use driftdriver.Autopilot.Batch.{Grows, Adds-Grows, Adds-In, Pushes}
use driftdriver.Autopilot.Walk.{ids_of, Broken, Walked, dispatch_each-Walked}
use driftdriver.Autopilot.Ids.{
  Distinct, Within, keep_unprocessed, keep-Within, keep-Distinct, slice-Within, slice-Distinct,
  in_head,
}
use driftdriver.Autopilot.Still.{learn-Holds, permitted-Holds, launched_ids-check}
use driftdriver.Autopilot.Turn.{IsTidy, IsAble, Stopped, Turned, After, idle, New}
use driftdriver.Autopilot.Sent.{Sent}

module _ (p : Platform) (o : Outside) (c : AutopilotConfig) (registry : Bool) (r : AutopilotRun)
    (l : List String) (ready : List Fields) (t : Fields) (ts : List Fields) (D : List String)
    (got : get_ready_tasks p o r.loop_count ≡ ok ready)
    (left : actionable_of r ready ≡ t ∷ ts) where
  abbrev batch : List Fields
  batch = batch_of c D (t ∷ ts)

  batch-Within : Within (ids_of batch) (ids_of (t ∷ ts))
  unfolding batch_of
  batch-Within j h =
      keep-Within (λ x. not (is_in (id_of x) D)) (t ∷ ts) j (slice-Within c.max_parallel _ j h)

  left-New : (j : String) → is_in j (ids_of (t ∷ ts)) ≡ true → is_processed r j ≡ false
  unfolding actionable_of
  left-New j h =
      keep_unprocessed (is_processed r) ready j
        (subst (λ xs. is_in j (ids_of xs) ≡ true) (sym left) h)

  left-Within : Within (ids_of (t ∷ ts)) (ids_of ready)
  unfolding actionable_of
  left-Within = subst (λ xs. Within (ids_of xs) (ids_of ready)) left (keep-Within _ ready)

  left-Distinct : IsTidy p o → Distinct (ids_of (t ∷ ts))
  unfolding actionable_of
  left-Distinct tidy =
      subst (λ xs. Distinct (ids_of xs)) left (keep-Distinct _ ready (tidy r.loop_count ready got))

  batch-New : New p o c registry r l (ids_of batch)
  unfolding batch_of
  batch-New = (
    (λ tidy.
        slice-Distinct c.max_parallel _
          (keep-Distinct (λ x. not (is_in (id_of x) D)) (t ∷ ts) (left-Distinct tidy))),
    (λ j h. left-New j (batch-Within j h)),
  )

  -- The first task that is left is the peers', or in the batch.
  first_taken :
      (m : ℕ)
      → c.max_parallel ≡ pos (suc m)
      → (is_in (id_of t) D ≡ true) ⊎ (is_in (id_of t) (ids_of batch) ≡ true)
  unfolding batch_of slice take
  first_taken m wide = elim (Bool-cases (is_in (id_of t) D)) [
    | inl taken ↦ inl taken
    | inr free ↦ inr (rw (wide, free) (in_head (id_of t) _))
  ]

  -- What the peers took is processed, where a turn is to make progress.
  abbrev pub Took : State → Type 0
  Took s = IsAble c registry → (j : String) → is_in j D ≡ true → is_processed s.run j ≡ true

  abbrev pub Begun : State → Type 0
  Begun s = Sent c r l D s × Took s

  stopped : (s : State) → Begun s → Stopped p o c registry r l s
  stopped s h = idle p o c registry r l s h.0.0 h.0.3

  -- After the batch has gone through.
  batch-Turned :
      (s s' : State)
      → Begun s
      → Walked c s.run l (ids_of batch) true s'
      → Turned p o c registry r l s'
  batch-Turned s s' h w =
      let adds = w.1 refl in
      let grows : Grows s.run s'.run = Adds-Grows (ids_of batch) s.run s'.run adds in
      let done = Adds-In (ids_of batch) s.run s'.run adds in
      (
        w.0,
        (λ j e. grows j (h.0.2 j e)),
        (ids_of batch, batch-New, w.2, done),
        λ able. (
          id_of t,
          ready,
          got,
          left-Within (id_of t) (in_head (id_of t) (ids_of ts)),
          left-New (id_of t) (in_head (id_of t) (ids_of ts)),
          elim (first_taken (able.0).0 (able.0).1) [
            | inl taken ↦ grows (id_of t) (h.1 able (id_of t) taken)
            | inr there ↦ done (id_of t) there
          ],
        ),
      )

  abbrev Ends : Step (Option Ending) → State → Type 0
  Ends m s = Holds (Stopped p o c registry r l) (After p o c registry r l) (m s)

  batch_end-Ends :
      (s : State) (b : Bool) (s' : State)
      → Begun s
      → Walked c s.run l (ids_of batch) b s'
      → Ends (end_of_batch o c b) s'
  batch_end-Ends s false s' h w = (w.0.1, (ids_of batch, batch-New, w.2))
  batch_end-Ends s true s' h w =
      let done = batch-Turned s s' h w in
      resume-Holds (Stopped p o c registry r l) (λ _ s. Turned p o c registry r l s)
        (After p o c registry r l) (learn o c s') _
        (weaken (Turned p o c registry r l) (λ _ s. Turned p o c registry r l s)
          (Stopped p o c registry r l) (λ _ s. Turned p o c registry r l s) (learn o c s')
          (learn-Holds o c (Turned p o c registry r l) s' done done)
          (λ s e. (e.0.1, ((e.2).0, (e.2).1, (e.2).2))) (λ _ s e. e))
        (λ _ s e. e)

  run_batch-Ends : (b : Bool) (s : State) → Begun s → Ends (run_batch p o c batch b) s
  unfolding run_batch
  run_batch-Ends false s h = stopped s h
  run_batch-Ends true s h =
      let now = launched_ids s.happenings in
      resume-Holds (Stopped p o c registry r l) (Walked c s.run l (ids_of batch))
        (After p o c registry r l) (dispatch_each p o c batch s) _
        (weaken (Broken c s.run now (ids_of batch)) (Walked c s.run now (ids_of batch))
          (Stopped p o c registry r l) (Walked c s.run l (ids_of batch))
          (dispatch_each p o c batch s) (dispatch_each-Walked p o c batch s h.0.0)
          (λ s' e. (
            e.0,
            (
              ids_of batch,
              batch-New,
              subst (λ k. Pushes (ids_of batch) k (launched_ids s'.happenings)) h.0.3 e.1,
            ),
          ))
          (λ b s' e. (
            e.0,
            e.1,
            subst (λ k. Pushes (ids_of batch) k (launched_ids s'.happenings)) h.0.3 e.2,
          )))
        (λ b s' w. batch_end-Ends s b s' h w)

  check-Begun : (s : State) → Begun s → Begun (check p o s).0
  unfolding check
  check-Begun s h = ((h.0.0, h.0.1, h.0.2, launched_ids-check p o s ∙ h.0.3), h.1)

  pub local_phase-Ends : (s : State) → Begun s → Ends (local_phase p o c (t ∷ ts) D) s
  unfolding local_phase
  local_phase-Ends s h =
      resume-Holds (Stopped p o c registry r l) (λ _ s. Begun s) (After p o c registry r l)
        (permitted p o c s) _
        (weaken Begun (λ _ s. Begun s) (Stopped p o c registry r l) (λ _ s. Begun s)
          (permitted p o c s) (permitted-Holds p o c Begun s h (check-Begun s h)) stopped
          (λ _ s e. e))
        run_batch-Ends
