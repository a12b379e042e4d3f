-- ===== src/Checks.antt =====
-- app/analysis/registry.py and app/analysis/checks/_util.py: what the rules of the registry share.
-- `Runtime` holds the clock and what Python's `str` and `json.dumps` print.
pub mod Activity
pub mod Identity
pub mod Credential
pub mod Shape
pub mod Privilege
pub mod Log
pub mod Registry
pub mod Failures
use iam_sentinel_ese.Compliance.{compliance_tags_for}
use iam_sentinel_ese.Counting.{count_of}
use iam_sentinel_ese.Domain.Enums.{Category, Severity, severity_eq}
use iam_sentinel_ese.Json.{Fields, Value, null, string}
use iam_sentinel_ese.LeastPrivilege.{granted_by_policies, sensitive_of}
use iam_sentinel_ese.Prelude.{
  Bool, List, Option, String, [], contains, if◌then◌else◌, leb, ltb, nat_eq, none, option_eq, some,
  string_eq, ℕ, ◌-◌, ◌/◌, ◌==◌, ◌||◌, ◌∷◌,
}
use iam_sentinel_ese.Rbac.{role_eq}
use iam_sentinel_ese.Records.{
  AnalysisFinding, NormalizedDataset, PolicyRecord, PrincipalRecord, Thresholds, is_given, listed,
  policies_for,
}

pub record Runtime : Type 0 where
  pub now : ℕ
  pub show_number : ℕ → String
  pub show_time : Option ℕ → String
  pub repr : Value → String
  pub dumps : Value → String

pub record CheckMeta : Type 0 where
  pub id : String
  pub title : String
  pub category : Category
  pub default_severity : Severity
  pub description : String
  pub remediation : String

-- `ActivityIndex`; of `used_actions` each pair is a principal and one of its actions
pub record ActivityIndex : Type 0 where
  pub used_actions : List (String × String)
  pub event_counts : List (String × ℕ)
  pub window_days : ℕ

abbrev pub actions_by : String → List (String × String) → List String
actions_by uid [] = []
actions_by uid ((u, action) ∷ used) =
    let rest = actions_by uid used in if u == uid then action ∷ rest else rest

unfoldable pub used_by : ActivityIndex → String → List String
used_by index uid = actions_by uid index.used_actions

unfoldable pub events_for : ActivityIndex → String → ℕ
events_for index uid = count_of uid index.event_counts

unfoldable pub is_active : ActivityIndex → String → Bool
is_active index uid = ltb 0 (events_for index uid)

-- `EscalationPath` of app/analysis/graph.py, which the permission graph hands to the checks
pub record EscalationPath : Type 0 where
  pub principal_uid : String
  pub hops : List String
  pub via : String
  pub target_uid : String

-- `GraphEdge` and `GraphResult`
pub record GraphEdge : Type 0 where
  pub src_type : String
  pub src_uid : String
  pub dst_type : String
  pub dst_uid : String
  pub relation : String
  pub effect : Option String
  pub is_sensitive : Bool
  pub metadata : Fields

pub record GraphResult : Type 0 where
  pub edges : List GraphEdge
  pub escalations : List (String × List EscalationPath)

pub record CheckContext : Type 0 where
  pub dataset : NormalizedDataset
  pub thresholds : Thresholds
  pub activity : ActivityIndex
  pub graph : GraphResult

-- the key words of `make_finding` that differ between checks
pub record Subject : Type 0 where
  pub principal_uid : Option String
  pub resource : Option String
  pub policy_uid : Option String

unfoldable pub make_finding :
    CheckMeta → String → Subject → String → Option String → Fields → AnalysisFinding
make_finding meta title subject recommendation snippet evidence = record {
  check_id = meta.id;
  title = title;
  severity = meta.default_severity;
  category = meta.category;
  recommendation = recommendation;
  principal_uid = subject.principal_uid;
  resource = subject.resource;
  policy_uid = subject.policy_uid;
  evidence = evidence;
  remediation_snippet = snippet;
  compliance_tags = compliance_tags_for meta.id;
  risk_score = 0;
  likelihood = 3;
  impact = 3;
}

abbrev pub of_principal : PrincipalRecord → Subject
of_principal p = record { principal_uid = some p.principal_uid; resource = none; policy_uid = none }

abbrev pub of_policy : PolicyRecord → Subject
of_policy q = record { principal_uid = none; resource = none; policy_uid = some q.policy_uid }

-- `for x in xs:` with at most one `yield`
abbrev pub each {ℓ} : {A : Type ℓ} → (A → Option AnalysisFinding) → List A → List AnalysisFinding
each report [] = []
each report (x ∷ xs) = listed (report x) (each report xs)

abbrev pub only_if : Bool → AnalysisFinding → Option AnalysisFinding
only_if b f = if b then some f else none

-- `days_since`: the whole days since a time, or that the time is still ahead, where Python's count
-- is negative
pub data Elapsed : Type 0 where
  elapsed : ℕ → Elapsed
  ahead : Elapsed

unfoldable pub days_since : ℕ → Option ℕ → Option Elapsed
days_since now none = none
days_since now (some t) = if leb t now then some (elapsed ((now - t) / 86400)) else some ahead

-- the count, if there is one and it is at least the limit
abbrev pub reaching : ℕ → Option ℕ → Option ℕ
reaching limit none = none
reaching limit (some n) = if leb limit n then some n else none

abbrev pub elapsed_days : Option Elapsed → Option ℕ
elapsed_days none = none
elapsed_days (some ahead) = none
elapsed_days (some (elapsed n)) = some n

-- the text of an f-string's part that may be missing
abbrev pub or_none : Option String → String
or_none none = "None"
or_none (some s) = s

abbrev pub text_or_null : Option String → Value
text_or_null none = null
text_or_null (some s) = string s

unfoldable pub principal_granted_actions : Runtime → CheckContext → PrincipalRecord → List String
principal_granted_actions py ctx p = granted_by_policies py.repr (policies_for ctx.dataset p)

unfoldable pub grants_admin : List String → Bool
grants_admin granted = contains "*" granted

-- `has_sensitive`
unfoldable pub has_sensitive : List String → List String
has_sensitive granted = sensitive_of granted

-- a credential that lasts: a console password or an access key
abbrev pub has_credential : PrincipalRecord → Bool
has_credential p = p.console_access || is_given p.access_key_age_days
