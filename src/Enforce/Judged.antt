-- ===== src/Enforce/Judged.antt =====
-- driftdriver/policy_enforcement.py: the verdict against the findings themselves.
use driftdriver.Base.{
  ℕ, suc, ◌+◌, String, ◌≡◌, ◌≢◌, ◌↔◌, refl, sym, ap, subst, ◌∙◌, Bool, true, false, ◌&&◌, inl, inr,
  some, List, [], ◌∷◌, length, count_if, any, ltb, arith, Bool-cases, eq_iff, ◌==◌, if◌then◌else◌,
}
use driftdriver.Base.Value.{bool, ℤ, Fields, ok, >>=-eq-ok, ok_injective, truthy, get_or}
use driftdriver.Base.Platform.{Platform}
use driftdriver.Enforce.Findings.{severity_of}
use driftdriver.Enforce.Evaluate.{
  Counts, count, tally, no_counts, Warning, Enforcement, flag, blocks, total_actionable,
  warnings_of, exit_of, verdict_of, limit_of, evaluate_enforcement,
}

-- How many findings count under a severity.
abbrev pub number : Platform → String → List Fields → ℕ
number p sev findings = count_if (λ f. severity_of p f == sev) findings

-- The counts of some findings on top of other counts.
record Counted (p : Platform) (fs : List Fields) (c d : Counts) : Type 0 where
  critical : d.critical ≡ c.critical + number p "critical" fs
  error : d.error ≡ c.error + number p "error" fs
  warning : d.warning ≡ c.warning + number p "warning" fs
  every : d.info + total_actionable d ≡ c.info + total_actionable c + length fs

-- The four ways to count one more finding.
count_one :
    (s : String) (c : Counts)
    → ((count s c).critical ≡ (if s == "critical" then suc c.critical else c.critical))
      × ((count s c).error ≡ (if s == "error" then suc c.error else c.error))
      × ((count s c).warning ≡ (if s == "warning" then suc c.warning else c.warning))
      × ((count s c).info + total_actionable (count s c) ≡ suc (c.info + total_actionable c))
unfolding count
count_one s c = elim (Bool-cases (s == "critical")) [
  | inl on ↦ rw ((eq_iff s "critical").0 on) (refl, refl, refl, omega arith)
  | inr a ↦ elim (Bool-cases (s == "error")) [
    | inl on ↦ rw ((eq_iff s "error").0 on) (refl, refl, refl, omega arith)
    | inr b ↦ elim (Bool-cases (s == "warning")) [
      | inl on ↦ rw ((eq_iff s "warning").0 on) (refl, refl, refl, omega arith)
      | inr d ↦ rw (a, b, d) (refl, refl, refl, omega arith)
    ]
  ]
]

count-Counted :
    (p : Platform) (f : Fields) (fs : List Fields) (c d : Counts)
    → Counted p fs (count (severity_of p f) c) d
    → Counted p (f ∷ fs) c d
count-Counted p f fs c d k =
    let (critical, error, warning, every) = count_one (severity_of p f) c in
    record {
      critical = ground (arith, k.critical, critical);
      error = ground (arith, k.error, error);
      warning = ground (arith, k.warning, warning);
      every = omega (arith, k.every, every);
    }

tally-Counted : (p : Platform) (fs : List Fields) (c : Counts) → Counted p fs c (tally p fs c)
unfolding tally
tally-Counted p [] c = record {
  critical = omega arith;
  error = omega arith;
  warning = omega arith;
  every = omega arith;
}
tally-Counted p (f ∷ fs) c =
    count-Counted p f fs c _ (tally-Counted p fs (count (severity_of p f) c))

number_zero :
    (p : Platform) (sev : String) (fs : List Fields)
    → any (λ f. severity_of p f == sev) fs ≡ ltb 0 (number p sev fs)
number_zero p sev [] = refl
number_zero p sev (f ∷ fs) = ground (arith, number_zero p sev fs)

exit_iff_blocked : (b : Bool) (ws : List Warning) → (exit_of b ws ≡ 2) ↔ (b ≡ true)
unfolding exit_of
exit_iff_blocked true ws = (λ h. refl, λ h. refl)
exit_iff_blocked false [] = (λ h. absurd (omega (arith, h)), λ h. cc)
exit_iff_blocked false (w ∷ ws) = (λ h. absurd (omega (arith, h)), λ h. cc)

not_nil : {w : Warning} {ws : List Warning} → (w ∷ ws) ≢ []
not_nil e = cc

exit_iff_clean :
    (b : Bool) (ws : List Warning) → (b ≡ true → ws ≢ []) → (exit_of b ws ≡ 0) ↔ (ws ≡ [])
unfolding exit_of
exit_iff_clean true ws h = (λ e. absurd (omega (arith, e)), λ e. absurd (h refl e))
exit_iff_clean false [] h = (λ e. refl, λ e. refl)
exit_iff_clean false (w ∷ ws) h = (λ e. absurd (omega (arith, e)), λ e. absurd (not_nil e))

blocks-warns : (cfg : Fields) (c : Counts) (m : ℤ) → blocks cfg c ≡ true → warnings_of cfg c m ≢ []
unfolding warnings_of
blocks-warns cfg c m h e = not_nil (rw h at e)

critical_only : {m n : ℕ} → m ≡ 0 + n → m ≡ n
critical_only h = omega (arith, h)

-- What the verdict says of the findings.
pub record Judges (p : Platform) (cfg : Fields) (fs : List Fields) (e : Enforcement) (c : Counts)
    : Type 0 where
  pub counted : e.counts ≡ some c
  pub all_counted : c.info + total_actionable c ≡ length fs
  pub blocked :
      e.blocked ≡ flag "block_on_critical" cfg && any (λ f. severity_of p f == "critical") fs
  pub exit_two : (e.exit_code ≡ 2) ↔ (e.blocked ≡ true)
  pub exit_zero : (e.exit_code ≡ 0) ↔ (e.warnings ≡ [])

-- If enforcement is on and evaluates, every finding is in exactly one count, the verdict blocks just if
-- blocking is on and a finding is critical, the exit code is 2 just for a verdict that blocks, and 0 just
-- without a warning.
pub evaluate_enforcement-Judges :
    (p : Platform) (cfg : Fields) (fs : List Fields) (e : Enforcement)
    → truthy (get_or "enabled" (bool false) cfg) ≡ true
    → evaluate_enforcement p cfg fs ≡ ok e
    → (c : Counts) × Judges p cfg fs e c
unfolding evaluate_enforcement verdict_of
evaluate_enforcement-Judges p cfg fs e on h =
    let (m, limit, last) = >>=-eq-ok (limit_of cfg) _ (rw on at h) in
    let k = tally-Counted p fs no_counts in
    let c = tally p fs no_counts in
    (
      c,
      subst (λ e. Judges p cfg fs e c) (ok_injective last)
          (record {
            counted = refl;
            all_counted = omega (arith, k.every);
            blocked =
                ap (λ b. flag "block_on_critical" cfg && b)
                  (ap (ltb 0) (critical_only k.critical) ∙ sym (number_zero p "critical" fs));
            exit_two = exit_iff_blocked (blocks cfg c) (warnings_of cfg c m);
            exit_zero = exit_iff_clean (blocks cfg c) (warnings_of cfg c m) (blocks-warns cfg c m);
          }),
    )
