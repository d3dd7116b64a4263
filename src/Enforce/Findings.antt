-- ===== src/Enforce/Findings.antt =====
-- driftdriver/policy_enforcement.py: `collect_enforcement_findings` and the severity of a finding.
use driftdriver.Base.{String, List, [], ◌∷◌, ◌++◌, is_in, lower, strip, if◌then◌else◌}
use driftdriver.Base.Value.{
  Value, str, list, dict, Values, nil, cons, Fields, field, end, truthy, get, get_or, put,
}
use driftdriver.Base.Platform.{Platform, str_of}

abbrev pub severities : List String
severities = "info" ∷ "warning" ∷ "error" ∷ "critical" ∷ []

-- The severity that a finding counts under.
unfoldable pub severity_of : Platform → Fields → String
severity_of p finding =
    let sev = lower (strip (str_of p (get_or "severity" (str "info") finding))) in
    if is_in sev severities then sev else "info"

-- The loop over `findings`: what is no dictionary is left out.
unfoldable pub findings_in : Platform → Values → List Fields
findings_in p nil = []
findings_in p (cons (dict finding) vs) =
    put "severity" (str (severity_of p finding)) finding ∷ findings_in p vs
findings_in p (cons v vs) = findings_in p vs

unfoldable pub listed : Platform → Value → List Fields
listed p (list vs) = findings_in p vs
listed p v = []

unfoldable pub reported : Platform → Value → List Fields
reported p (dict report) = listed p (get "findings" report)
reported p v = []

-- A payload counts if the plugin ran.
unfoldable pub payload_findings : Platform → Value → List Fields
payload_findings p (dict payload) =
    if truthy (get "ran" payload) then reported p (get "report" payload) else []
payload_findings p v = []

-- `collect_enforcement_findings`
unfoldable pub collect_enforcement_findings : Platform → Fields → List Fields
collect_enforcement_findings p end = []
collect_enforcement_findings p (field name payload rest) =
    payload_findings p payload ++ collect_enforcement_findings p rest
