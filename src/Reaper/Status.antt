-- ===== src/Reaper/Status.antt =====
-- driftdriver/reaper.py: the log of the reaper against its result.
use driftdriver.Base.{ℕ, suc, ◌+◌, String, ◌≡◌, refl, Bool, true, false, List, [], ◌∷◌, ◌++◌, arith}
use driftdriver.Base.Value.{Result, ok, err, ok_injective}
use driftdriver.Reaper.Process.{ProcessInfo, parse_claude_processes}
use driftdriver.Reaper.Reap.{
  Action, kill, skip, classify_process, Entry, Deed, signalled, wrote, Host, ReaperResult,
  kill_entry, Done, go_on, send, carry_out, reap_each, nothing, reap_zombies, note,
  read_reaper_status,
}

-- The log after a run: its new lines, before those that were there.
abbrev pub log_after : List Deed → List Entry → List Entry
log_after [] old = old
log_after (wrote e ∷ deeds) old = e ∷ log_after deeds old
log_after (signalled x ∷ deeds) old = log_after deeds old

-- The counts of the log are those of the result on top of the counts before.
abbrev Balanced : List Entry → ReaperResult → List Deed → Type 0
Balanced old r deeds =
    let before = read_reaper_status old in
    let after = read_reaper_status (log_after deeds old) in
    (after.total_killed ≡ before.total_killed + r.count_killed)
    × (after.total_skipped ≡ before.total_skipped + r.count_skipped)

abbrev BalancedIfOk : List Entry → Done ReaperResult → Type 0
BalancedIfOk old (deeds, ok r) = Balanced old r deeds
BalancedIfOk old (deeds, err e) = Unit

kill-Balanced :
    (h : Host) (dry : Bool) (x : ProcessInfo) (old : List Entry) (r : ReaperResult)
    (deeds : List Deed)
    → Balanced old r deeds
    → (m : Done (Unit {0})) → log_after m.0 old ≡ log_after deeds old
    → BalancedIfOk old (
        go_on m (λ _ deeds. (
          wrote (kill_entry h dry x) ∷ deeds,
          ok (record r {
            count_killed = suc r.count_killed;
            kills = r.kills ++ (kill_entry h dry x ∷ []);
          }),
        )))
unfolding read_reaper_status note
kill-Balanced h dry x old r deeds b (later, err e) same = tt
kill-Balanced h true x old r deeds b (later, ok u) same = rw same (omega (arith, b.0), b.1)
kill-Balanced h false x old r deeds b (later, ok u) same = rw same (omega (arith, b.0), b.1)

send-log :
    (h : Host) (dry : Bool) (x : ProcessInfo) (deeds : List Deed) (old : List Entry)
    → log_after (send h dry x deeds).0 old ≡ log_after deeds old
unfolding send
send-log h true x deeds old = refl
send-log h false x deeds old = refl

carry_out-Balanced :
    (h : Host) (dry : Bool) (x : ProcessInfo) (action : Action) (old : List Entry)
    (r : ReaperResult) (deeds : List Deed)
    → Balanced old r deeds
    → BalancedIfOk old (carry_out h dry x action r deeds)
unfolding carry_out read_reaper_status note
carry_out-Balanced h dry x skip old r deeds b = (b.0, omega (arith, b.1))
carry_out-Balanced h dry x kill old r deeds b =
    kill-Balanced h dry x old r deeds b (send h dry x deeds) (send-log h dry x deeds old)

module _ (h : Host) (dry : Bool) (old : List Entry) where
  turn-Balanced :
      (xs : List ProcessInfo)
      → ((r : ReaperResult) (deeds : List Deed)
          → Balanced old r deeds
          → BalancedIfOk old (reap_each h dry xs r deeds))
      → (d : Done ReaperResult) → BalancedIfOk old d
      → BalancedIfOk old (go_on d (λ r deeds. reap_each h dry xs r deeds))
  turn-Balanced xs k (deeds, ok r) b = k r deeds b
  turn-Balanced xs k (deeds, err e) b = tt

  classified-Balanced :
      (x : ProcessInfo) (xs : List ProcessInfo) (r : ReaperResult) (deeds : List Deed)
      → ((r : ReaperResult) (deeds : List Deed)
          → Balanced old r deeds
          → BalancedIfOk old (reap_each h dry xs r deeds))
      → Balanced old r deeds
      → (m : Result Action)
      → BalancedIfOk old (
          go_on
            (deeds, m)
            (λ action deeds.
              go_on (carry_out h dry x action r deeds) (λ r deeds. reap_each h dry xs r deeds)))
  classified-Balanced x xs r deeds k b (err e) = tt
  classified-Balanced x xs r deeds k b (ok action) =
      turn-Balanced xs k (carry_out h dry x action r deeds)
        (carry_out-Balanced h dry x action old r deeds b)

  reap_each-Balanced :
      (xs : List ProcessInfo) (r : ReaperResult) (deeds : List Deed)
      → Balanced old r deeds
      → BalancedIfOk old (reap_each h dry xs r deeds)
  unfolding reap_each
  reap_each-Balanced [] r deeds b = b
  reap_each-Balanced (x ∷ xs) r deeds b =
      classified-Balanced x xs r deeds (reap_each-Balanced xs) b
        (classify_process h.platform (h.graph x) x)

ok-Balanced :
    (old : List Entry) (d : Done ReaperResult) (r : ReaperResult)
    → BalancedIfOk old d
    → d.1 ≡ ok r
    → Balanced old r d.0
ok-Balanced old (deeds, ok r') r b e = rw (← ok_injective e) b
ok-Balanced old (deeds, err e') r b e = absurd (cc e)

-- After a run of the reaper that returns, the totals that `read_reaper_status` reads from the log are the
-- totals before and what the result counts as killed and as skipped; a dry run counts what it would kill.
read_reaper_status-reap_zombies :
    (h : Host) (min_age : ℕ) (dry : Bool) (lines : List String) (old : List Entry)
    (r : ReaperResult)
    → (reap_zombies h min_age dry lines).1 ≡ ok r
    → let after = read_reaper_status (log_after (reap_zombies h min_age dry lines).0 old) in
      (after.total_killed ≡ (read_reaper_status old).total_killed + r.count_killed)
      × (after.total_skipped ≡ (read_reaper_status old).total_skipped + r.count_skipped)
unfolding reap_zombies
read_reaper_status-reap_zombies h min_age dry lines old r e =
    ok-Balanced old (reap_each h dry (parse_claude_processes min_age lines) nothing []) r
      (reap_each-Balanced h dry old (parse_claude_processes min_age lines) nothing []
        (omega arith, omega arith))
      e
