-- ===== src/Enforce/Evaluate.antt =====
-- driftdriver/policy_enforcement.py: `evaluate_enforcement`.
use driftdriver.Base.{
  ℕ, suc, ◌+◌, String, Bool, true, false, ◌&&◌, Option, none, some, List, [], ◌∷◌, ◌++◌, ltb, ◌==◌,
  if◌then◌else◌,
}
use driftdriver.Base.Value.{
  bool, int, ℤ, pos, negsuc, Fields, Result, ok, ◌>>=◌, truthy, to_int, get_or,
}
use driftdriver.Base.Platform.{Platform}
use driftdriver.Enforce.Findings.{severity_of}

pub record Counts : Type 0 where
  pub info : ℕ
  pub warning : ℕ
  pub error : ℕ
  pub critical : ℕ

-- `counts[sev] += 1`, for one of the four severities
unfoldable pub count : String → Counts → Counts
count sev c =
    if sev == "critical"
    then record c { critical = suc c.critical }
    else if sev == "error"
    then record c { error = suc c.error }
    else if sev == "warning"
    then record c { warning = suc c.warning }
    else record c { info = suc c.info }

unfoldable pub tally : Platform → List Fields → Counts → Counts
tally p [] c = c
tally p (finding ∷ findings) c = tally p findings (count (severity_of p finding) c)

abbrev pub no_counts : Counts
no_counts = record { info = 0; warning = 0; error = 0; critical = 0 }

-- The messages, with the numbers in their texts.
pub data Warning : Type 0 where
  critical_findings error_findings : ℕ → Warning
  unresolved : ℕ → ℤ → Warning

-- `counts` is `none` for the empty dictionary.
pub record Enforcement : Type 0 where
  pub blocked : Bool
  pub warnings : List Warning
  pub exit_code : ℕ
  pub counts : Option Counts

-- `n > max_warnings`
abbrev pub above : ℕ → ℤ → Bool
above n (pos m) = ltb m n
above n (negsuc m) = true

abbrev pub flag : String → Fields → Bool
flag name cfg = truthy (get_or name (bool true) cfg)

abbrev pub blocks : Fields → Counts → Bool
blocks cfg c = flag "block_on_critical" cfg && ltb 0 c.critical

abbrev pub total_actionable : Counts → ℕ
total_actionable c = c.warning + c.error + c.critical

abbrev pub said_if : Bool → Warning → List Warning
said_if b w = if b then w ∷ [] else []

unfoldable pub warnings_of : Fields → Counts → ℤ → List Warning
warnings_of cfg c max_warnings =
    said_if (blocks cfg c) (critical_findings c.critical)
    ++ (said_if (flag "warn_on_error" cfg && ltb 0 c.error) (error_findings c.error)
        ++ said_if (above (total_actionable c) max_warnings)
            (unresolved (total_actionable c) max_warnings))

unfoldable pub exit_of : Bool → List Warning → ℕ
exit_of true ws = 2
exit_of false (w ∷ ws) = 1
exit_of false [] = 0

unfoldable pub verdict_of : Fields → Counts → ℤ → Enforcement
verdict_of cfg c max_warnings = record {
  blocked = blocks cfg c;
  warnings = warnings_of cfg c max_warnings;
  exit_code = exit_of (blocks cfg c) (warnings_of cfg c max_warnings);
  counts = some c;
}

abbrev pub limit_of : Fields → Result ℤ
limit_of cfg = to_int (get_or "max_unresolved_warnings" (int (pos 10)) cfg)

-- `evaluate_enforcement`
unfoldable pub evaluate_enforcement : Platform → Fields → List Fields → Result Enforcement
evaluate_enforcement p cfg findings =
    if truthy (get_or "enabled" (bool false) cfg)
    then (limit_of cfg >>= λ max_warnings.
        ok (verdict_of cfg (tally p findings no_counts) max_warnings))
    else ok (record { blocked = false; warnings = []; exit_code = 0; counts = none })
