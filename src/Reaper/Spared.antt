-- ===== src/Reaper/Spared.antt =====
-- driftdriver/reaper.py: which processes a signal may reach.
use driftdriver.Base.{
  ℕ, ◌≤◌, String, ◌≡◌, ◌≢◌, refl, Bool, true, false, inl, inr, Option, none, some, List, [], ◌∷◌,
  is_in, arith, Bool-cases,
}
use driftdriver.Base.Value.{str, Result, ok, err, >>=-eq-ok, ok_injective, ℤ, to_int}
use driftdriver.Base.Platform.{Platform}
use driftdriver.Reaper.Elapsed.{parse_elapsed}
use driftdriver.Reaper.Process.{
  ProcessInfo, three_parts, old_enough, is_worker, seen, parse_parts, add_process,
  parse_claude_processes,
}
use driftdriver.Reaper.Reap.{
  Row, read_task_statuses, status_in, terminal_statuses, Action, kill, skip, action_for,
  classify_task, classify_process, Deed, signalled, wrote, Host, ReaperResult, Done, go_on, send,
  carry_out, reap_each, reap_zombies,
}

-- An old worker that is not the coordinator.
abbrev pub Stale : ℕ → ProcessInfo → Type 0
Stale min_age x = (is_worker x.cmdline ≡ true) × (min_age ≤ x.elapsed_seconds)

abbrev AllStale : ℕ → List ProcessInfo → Type 0
AllStale min_age [] = Unit
AllStale min_age (x ∷ xs) = Stale min_age x × AllStale min_age xs

old_enough_le : (min_age n : ℕ) (x : Option ℕ) → old_enough min_age x ≡ some n → min_age ≤ n
old_enough_le min_age n none h = absurd (cc h)
old_enough_le min_age n (some m) h = ground (arith, h)

seen-AllStale :
    (min_age : ℕ) (pid : Result ℤ) (age : Option ℕ) (cmdline : String) (xs : List ProcessInfo)
    → ((n : ℕ) → age ≡ some n → min_age ≤ n)
    → AllStale min_age xs
    → AllStale min_age (add_process (seen pid age cmdline) xs)
seen-AllStale min_age (err e) age cmdline xs old h = h
seen-AllStale min_age (ok pid) none cmdline xs old h = h
seen-AllStale min_age (ok pid) (some n) cmdline xs old h = elim (Bool-cases (is_worker cmdline)) [
  | inl on ↦ rw on ((on, old n refl), h)
  | inr off ↦ rw off h
]

parts-AllStale :
    (min_age : ℕ) (x : Option (String × String × String)) (xs : List ProcessInfo)
    → AllStale min_age xs
    → AllStale min_age (add_process (parse_parts min_age x) xs)
parts-AllStale min_age none xs h = h
parts-AllStale min_age (some (pid, elapsed, cmdline)) xs h =
    seen-AllStale min_age (to_int (str pid)) (old_enough min_age (parse_elapsed elapsed)) cmdline xs
      (λ n e. old_enough_le min_age n (parse_elapsed elapsed) e) h

parse-AllStale :
    (min_age : ℕ) (lines : List String) → AllStale min_age (parse_claude_processes min_age lines)
unfolding parse_claude_processes
parse-AllStale min_age [] = tt
parse-AllStale min_age (line ∷ lines) =
    parts-AllStale min_age (three_parts line) (parse_claude_processes min_age lines)
      (parse-AllStale min_age lines)

-- No task is named, or the graph has none of that id, or its status there is terminal.
abbrev pub NotActive : Platform → List Row → Option String → Type 0
NotActive p rows none = Unit
NotActive p rows (some id) =
    (table : List (String × String)) × (read_task_statuses p rows [] ≡ ok table)
    × ((status : String) → status_in id table ≡ some status → is_in status terminal_statuses ≡ true)

skip_kill : skip ≢ kill
skip_kill e = cc

terminal :
    (x : Option String) (status : String)
    → action_for x ≡ kill
    → x ≡ some status
    → is_in status terminal_statuses ≡ true
terminal none status h e = absurd (cc e)
terminal (some s) status h e = elim (Bool-cases (is_in s terminal_statuses)) [
  | inl on ↦ let same : s ≡ status = cc in rw (← same) on
  | inr off ↦ absurd (skip_kill (rw off at h))
]

classify_task-NotActive :
    (p : Platform) (rows : List Row) (x : Option String)
    → classify_task p rows x ≡ ok kill
    → NotActive p rows x
unfolding classify_task
classify_task-NotActive p rows none h = tt
classify_task-NotActive p rows (some id) h =
    let (table, read, last) = >>=-eq-ok (read_task_statuses p rows []) _ h in
    (table, read, λ status e. terminal (status_in id table) status (ok_injective last) e)

module _ (h : Host) (min_age : ℕ) (dry : Bool) where
  -- A process that a signal may reach.
  pub record MayDie (x : ProcessInfo) : Type 0 where
    pub not_dry : dry ≡ false
    pub stale : Stale min_age x
    pub not_active : NotActive h.platform (h.graph x) x.task_id

  abbrev pub SignalsOnly : List Deed → Type 0
  SignalsOnly [] = Unit
  SignalsOnly (signalled x ∷ deeds) = MayDie x × SignalsOnly deeds
  SignalsOnly (wrote e ∷ deeds) = SignalsOnly deeds

  go_on-SignalsOnly :
      {A B : Type 0} (x : Done A) (f : A → List Deed → Done B)
      → SignalsOnly x.0
      → ((a : A) → x.1 ≡ ok a → (deeds : List Deed) → SignalsOnly deeds → SignalsOnly (f a deeds).0)
      → SignalsOnly (go_on x f).0
  go_on-SignalsOnly (deeds, ok a) f s k = k a refl deeds s
  go_on-SignalsOnly (deeds, err e) f s k = s

  send-SignalsOnly :
      (b : Bool) (x : ProcessInfo) (deeds : List Deed)
      → dry ≡ b
      → Stale min_age x
      → NotActive h.platform (h.graph x) x.task_id
      → SignalsOnly deeds
      → SignalsOnly (send h b x deeds).0
  unfolding send
  send-SignalsOnly true x deeds e stale idle s = s
  send-SignalsOnly false x deeds e stale idle s =
      (record { not_dry = e; stale = stale; not_active = idle }, s)

  carry_out-SignalsOnly :
      (x : ProcessInfo) (action : Action) (r : ReaperResult) (deeds : List Deed)
      → classify_process h.platform (h.graph x) x ≡ ok action
      → Stale min_age x
      → SignalsOnly deeds
      → SignalsOnly (carry_out h dry x action r deeds).0
  unfolding carry_out
  carry_out-SignalsOnly x skip r deeds c stale s = s
  carry_out-SignalsOnly x kill r deeds c stale s =
      go_on-SignalsOnly (send h dry x deeds) _
        (send-SignalsOnly dry x deeds refl stale
          (classify_task-NotActive h.platform (h.graph x) x.task_id c) s)
        (λ _ _ deeds s. s)

  reap_each-SignalsOnly :
      (xs : List ProcessInfo) (r : ReaperResult) (deeds : List Deed)
      → AllStale min_age xs
      → SignalsOnly deeds
      → SignalsOnly (reap_each h dry xs r deeds).0
  unfolding reap_each
  reap_each-SignalsOnly [] r deeds stale s = s
  reap_each-SignalsOnly (x ∷ xs) r deeds (stale, others) s =
      go_on-SignalsOnly (deeds, classify_process h.platform (h.graph x) x) _ s
        (λ action c deeds s.
          go_on-SignalsOnly (carry_out h dry x action r deeds) _
            (carry_out-SignalsOnly x action r deeds c stale s)
            (λ r' _ deeds s. reap_each-SignalsOnly xs r' deeds others s))

  -- The reaper signals a process only outside a dry run, if it is a worker and not the coordinator, is at
  -- least as old as asked, and names no task, or one that the graph does not have or has as terminal. This
  -- holds of every signal, also where an exception ends the run.
  pub reap_zombies-SignalsOnly :
      (lines : List String) → SignalsOnly (reap_zombies h min_age dry lines).0
  unfolding reap_zombies
  reap_zombies-SignalsOnly lines =
      reap_each-SignalsOnly (parse_claude_processes min_age lines) _ []
        (parse-AllStale min_age lines) tt
