-- ===== src/Checks/Registry.antt =====
-- app/analysis/checks/__init__.py and app/analysis/engine.py: the registered checks, in the order in
-- which their modules are imported, and the analysis that runs them. The permission graph is built
-- before, and its results are in the context; the posture score is a parameter, being a formula of
-- floating-point numbers.
use iam_sentinel_ese.Checks.{CheckContext, GraphEdge, Runtime}
use iam_sentinel_ese.Checks.Credential.{run_old_access_key, run_stale_password, run_unused_active}
use iam_sentinel_ese.Checks.Identity.{
  run_inactive_user, run_mfa_disabled, run_no_recent_login, run_orphaned_principal,
  run_service_console_access,
}
use iam_sentinel_ese.Checks.Log.{
  run_denied_sensitive_iam, run_privileged_login, run_repeated_login_failures,
  run_service_interactive_login,
}
use iam_sentinel_ese.Checks.Privilege.{
  run_admin_access, run_pass_role_escalation, run_trust_wildcard_principal, run_unused_grants,
}
use iam_sentinel_ese.Checks.Shape.{
  run_overly_broad_resource, run_risky_not_action, run_sensitive_action_on_star,
  run_wildcard_action,
}
use iam_sentinel_ese.Compliance.{compliance_tags_for, frameworks_for}
use iam_sentinel_ese.Counting.{tally_keys}
use iam_sentinel_ese.Domain.Enums.{Category, Severity, severity_eq}
use iam_sentinel_ese.Json.{get_field, is_truthy}
use iam_sentinel_ese.Prelude.{
  Bool, List, Option, String, [], if◌then◌else◌, leb, map, nat_eq, none, option_eq, some, string_eq,
  ℕ, ◌++◌, ◌∷◌,
}
use iam_sentinel_ese.Rbac.{role_eq}
use iam_sentinel_ese.Records.{AnalysisFinding, PrincipalRecord, principal_with}
use iam_sentinel_ese.Risk.{score_finding}
use iam_sentinel_ese.Scan.{or_empty}

unfoldable pub run_checks : Runtime → CheckContext → List AnalysisFinding
run_checks py ctx =
    run_old_access_key py ctx
    ++ run_stale_password py ctx
    ++ run_unused_active py ctx
    ++ run_mfa_disabled py ctx
    ++ run_inactive_user py ctx
    ++ run_service_console_access py ctx
    ++ run_no_recent_login py ctx
    ++ run_orphaned_principal py ctx
    ++ run_repeated_login_failures py ctx
    ++ run_privileged_login py ctx
    ++ run_service_interactive_login py ctx
    ++ run_denied_sensitive_iam py ctx
    ++ run_wildcard_action py ctx
    ++ run_sensitive_action_on_star py ctx
    ++ run_risky_not_action py ctx
    ++ run_overly_broad_resource py ctx
    ++ run_admin_access py ctx
    ++ run_pass_role_escalation py ctx
    ++ run_trust_wildcard_principal py ctx
    ++ run_unused_grants py ctx

abbrev pub tags_or : String → List String → List String
tags_or check_id [] = compliance_tags_for check_id
tags_or check_id (t ∷ ts) = t ∷ ts

abbrev pub with_tags : AnalysisFinding → AnalysisFinding
with_tags f = record f { compliance_tags = tags_or f.check_id f.compliance_tags }

-- the loop of `run_analysis` over what the checks yield
abbrev pub score_all : List PrincipalRecord → List AnalysisFinding → List AnalysisFinding
score_all principals [] = []
score_all principals (f ∷ fs) =
    score_finding (with_tags f) (principal_with (or_empty f.principal_uid) principals)
    ∷ score_all principals fs

-- `findings.sort(key=lambda f: f.risk_score, reverse=True)`, which keeps the order of equals
abbrev pub insert_riskier : AnalysisFinding → List AnalysisFinding → List AnalysisFinding
insert_riskier f [] = f ∷ []
insert_riskier f (g ∷ gs) =
    let rest = insert_riskier f gs in if leb g.risk_score f.risk_score then f ∷ g ∷ gs else g ∷ rest

unfoldable pub sort_by_risk : List AnalysisFinding → List AnalysisFinding
sort_by_risk [] = []
sort_by_risk (f ∷ fs) = insert_riskier f (sort_by_risk fs)

abbrev pub severity_text : Severity → String
severity_text Severity.low = "LOW"
severity_text Severity.medium = "MEDIUM"
severity_text Severity.high = "HIGH"
severity_text Severity.critical = "CRITICAL"

abbrev pub category_text : Category → String
category_text Category.identity = "identity"
category_text Category.privilege = "privilege"
category_text Category.credential = "credential"
category_text Category.hygiene = "hygiene"
category_text Category.policy = "policy"
category_text Category.log = "log"
category_text Category.inventory = "inventory"

-- `PostureFactor`
pub record PostureFactor : Type 0 where
  pub severity : String
  pub blast_radius : ℕ
  pub is_escalation : Bool

abbrev pub blast_of : Option PrincipalRecord → ℕ
blast_of none = 0
blast_of (some p) = p.blast_radius_score

abbrev pub posture_factor : List PrincipalRecord → AnalysisFinding → PostureFactor
posture_factor principals f = record {
  severity = severity_text f.severity;
  blast_radius = blast_of (principal_with (or_empty f.principal_uid) principals);
  is_escalation = is_truthy (get_field "graph_path" f.evidence);
}

-- `_summarize_compliance`: the failures of each framework
abbrev pub frameworks_of_all : List AnalysisFinding → List String
frameworks_of_all [] = []
frameworks_of_all (f ∷ fs) = frameworks_for f.check_id ++ frameworks_of_all fs

unfoldable pub summarize_compliance : List AnalysisFinding → List (String × ℕ)
summarize_compliance fs = tally_keys (frameworks_of_all fs) []

pub record AnalysisResult : Type 0 where
  pub findings : List AnalysisFinding
  pub composite_score : ℕ
  pub counts_by_severity : List (String × ℕ)
  pub counts_by_category : List (String × ℕ)
  pub compliance_summary : List (String × ℕ)
  pub graph_edges : List GraphEdge

unfoldable pub run_analysis : Runtime → (List PostureFactor → ℕ) → CheckContext → AnalysisResult
run_analysis py posture_score ctx =
    let principals = ctx.dataset.principals in
    let findings = sort_by_risk (score_all principals (run_checks py ctx)) in
    record {
      findings = findings;
      composite_score = posture_score (map (posture_factor principals) findings);
      counts_by_severity =
          tally_keys (map (λ (f : AnalysisFinding). severity_text f.severity) findings) [];
      counts_by_category =
          tally_keys (map (λ (f : AnalysisFinding). category_text f.category) findings) [];
      compliance_summary = summarize_compliance findings;
      graph_edges = ctx.graph.edges;
    }
