-- ===== src/Checks/Privilege.antt =====
-- app/analysis/checks/privilege.py: administrators, escalation by `iam:PassRole`, roles that anyone can
-- assume, and sensitive grants that were never exercised.
use mathlib.Core.Option.{map as option_map}
use iam_sentinel_ese.Checks.{
  CheckContext, CheckMeta, EscalationPath, Runtime, each, events_for, grants_admin, has_credential,
  has_sensitive, make_finding, of_principal, only_if, principal_granted_actions, used_by,
}
use iam_sentinel_ese.Checks.Shape.{first_statement}
use iam_sentinel_ese.Compliance.{get_or}
use iam_sentinel_ese.Domain.Enums.{Category, Severity, severity_eq}
use iam_sentinel_ese.Json.{
  Fields, Value, array, entry, get_field, is_truthy, no_fields, number, object, string,
}
use iam_sentinel_ese.LeastPrivilege.{
  LeastPrivilegeRecommendation, Reason, exceeds_threshold, reason_text, recommend, sorted_set,
  strings, summary,
}
use iam_sentinel_ese.Policy.{is_assume_role_statement, is_listed, statements}
use iam_sentinel_ese.Policy.Actions.{grants_action, principal_has_wildcard}
use iam_sentinel_ese.Prelude.{
  Bool, List, Option, String, [], filter_by, if◌then◌else◌, length, ltb, nat_eq, none, not,
  option_eq, some, string_eq, ◌&&◌, ◌==◌, ◌∷◌,
}
use iam_sentinel_ese.Prelude.Text.{concat_text}
use iam_sentinel_ese.Rbac.{role_eq}
use iam_sentinel_ese.Records.{AnalysisFinding, PrincipalRecord, policies_for, principal_name}

abbrev pub admin_access : CheckMeta
admin_access = record {
  id = "iam.principal.admin_access";
  title = "Principal has administrator-equivalent access";
  category = Category.privilege;
  default_severity = Severity.high;
  description = "A principal can perform any action (Action '*'), i.e. full admin.";
  remediation = "Replace broad admin access with scoped, task-specific policies.";
}

abbrev pub pass_role_escalation : CheckMeta
pass_role_escalation = record {
  id = "iam.escalation.passrole_createkey";
  title = "Privilege escalation via iam:PassRole";
  category = Category.privilege;
  default_severity = Severity.critical;
  description =
      "A principal holds iam:PassRole together with an action that can attach that role to a resource it controls, enabling privilege escalation.";
  remediation = "Remove iam:PassRole or scope it to non-privileged roles only.";
}

abbrev pub trust_wildcard_principal : CheckMeta
trust_wildcard_principal = record {
  id = "iam.role.trust_wildcard_principal";
  title = "Role trust policy allows any principal";
  category = Category.privilege;
  default_severity = Severity.critical;
  description =
      "A role's trust policy sets Principal '*', so anyone (including external accounts) can assume it.";
  remediation = "Restrict the trust policy Principal to specific accounts/roles.";
}

abbrev pub unused_grants : CheckMeta
unused_grants = record {
  id = "iam.least_privilege.unused_grants";
  title = "Sensitive grants never exercised";
  category = Category.privilege;
  default_severity = Severity.medium;
  description =
      "A principal is granted sensitive actions it never used in the observed activity window (least-privilege violation).";
  remediation = "Remove the unused grants; attach the suggested least-privilege policy.";
}

-- `_ESCALATION_PARTNERS`
abbrev pub escalation_partners : List String
escalation_partners =
    "iam:CreateAccessKey" ∷ "iam:CreateLoginProfile" ∷ "iam:UpdateLoginProfile"
    ∷ "iam:AttachUserPolicy" ∷ "iam:AttachRolePolicy" ∷ "iam:PutUserPolicy" ∷ "ec2:RunInstances"
    ∷ "lambda:CreateFunction" ∷ []

abbrev pub first_path : List EscalationPath → Option EscalationPath
first_path [] = none
first_path (path ∷ paths) = some path

abbrev pub path_fields : Option EscalationPath → Fields
path_fields none = no_fields
path_fields (some path) =
    entry "graph_path" (array (strings path.hops))
      (entry "graph_path_via" (string path.via) no_fields)

-- `trust`, if it is a dictionary
abbrev pub trust_of : Fields → Value
trust_of raw =
    if is_truthy (get_field "trust_policy" raw)
    then get_field "trust_policy" raw
    else get_field "AssumeRolePolicyDocument" raw

abbrev pub confidence_text : Bool → String
confidence_text confident = if confident then "confident" else "insufficient_data"

module _ (py : Runtime) (ctx : CheckContext) where
  abbrev report_admin : PrincipalRecord → Option AnalysisFinding
  report_admin p = only_if (grants_admin (principal_granted_actions py ctx p)) (
      make_finding admin_access
        (concat_text (principal_name p ∷ " has administrator-equivalent access" ∷ []))
        (of_principal p) admin_access.remediation none
        (entry "granted" (string "*")
          (entry "policies" (array (strings p.attached_policy_uids)) no_fields)))

  unfoldable pub run_admin_access : List AnalysisFinding
  run_admin_access = each report_admin ctx.dataset.principals

  abbrev pub partners_of : PrincipalRecord → List String
  partners_of p =
      sorted_set
        (filter_by (λ a. grants_action (principal_granted_actions py ctx p) a) escalation_partners)

  abbrev report_escalation : PrincipalRecord → Option AnalysisFinding
  report_escalation p =
      only_if
        (grants_action (principal_granted_actions py ctx p) "iam:PassRole"
          && is_listed (partners_of p))
        (make_finding pass_role_escalation
          (concat_text (principal_name p ∷ " can escalate privileges via iam:PassRole" ∷ []))
          (of_principal p) pass_role_escalation.remediation
          (some "{\"Effect\": \"Deny\", \"Action\": \"iam:PassRole\", \"Resource\": \"*\"}")
          (entry "escalation_path"
            (array (strings (principal_name p ∷ "iam:PassRole" ∷ partners_of p)))
            (entry "partner_actions" (array (strings (partners_of p)))
              (path_fields (first_path (get_or [] p.principal_uid ctx.graph.escalations))))))

  unfoldable pub run_pass_role_escalation : List AnalysisFinding
  run_pass_role_escalation = each report_escalation ctx.dataset.principals

  abbrev pub trusts_anyone : Fields → Bool
  trusts_anyone st =
      is_assume_role_statement py.repr st && principal_has_wildcard (get_field "Principal" st)

  abbrev trust_finding : PrincipalRecord → Fields → AnalysisFinding
  trust_finding p st =
      make_finding trust_wildcard_principal
        (concat_text ("Role " ∷ principal_name p ∷ " can be assumed by any principal" ∷ []))
        (of_principal p) trust_wildcard_principal.remediation none
        (entry "trust_statement" (object st) no_fields)

  abbrev report_trust : PrincipalRecord → Option AnalysisFinding
  report_trust p =
      if p.kind == "role"
      then option_map (trust_finding p)
          (first_statement trusts_anyone (statements (trust_of p.raw)))
      else none

  unfoldable pub run_trust_wildcard_principal : List AnalysisFinding
  run_trust_wildcard_principal = each report_trust ctx.dataset.principals

  abbrev pub recommendation_for : PrincipalRecord → LeastPrivilegeRecommendation
  recommendation_for p =
      recommend py.repr p.principal_uid (principal_granted_actions py ctx p)
        (policies_for ctx.dataset p) (used_by ctx.activity p.principal_uid)
        (events_for ctx.activity p.principal_uid) ctx.activity.window_days

  abbrev pub reason_fields : LeastPrivilegeRecommendation → Option Reason → Fields
  reason_fields rec none = no_fields
  reason_fields rec (some why) =
      entry "insufficient_reason" (string (reason_text py.show_number rec why)) no_fields

  abbrev unused_finding : PrincipalRecord → LeastPrivilegeRecommendation → AnalysisFinding
  unused_finding p rec =
      make_finding unused_grants
        (concat_text (
          if rec.confident
          then principal_name p
            ∷ " has "
            ∷ py.show_number (length rec.unused_sensitive)
            ∷ " unused sensitive grant(s)"
            ∷ []
          else principal_name p
            ∷ ": "
            ∷ py.show_number (length rec.unused_sensitive)
            ∷ " sensitive grant(s) with no observed use"
            ∷ []))
        (of_principal p) (summary py.show_number rec) (option_map py.dumps rec.suggested_policy)
        (entry "unused_sensitive" (array (strings rec.unused_sensitive)) (
          entry "used_actions" (array (strings rec.used_actions)) (
            entry "window_days" (number rec.window_days) (
              entry "events_observed" (number rec.event_count) (
                entry "confidence" (string (confidence_text rec.confident))
                  (reason_fields rec rec.insufficient_reason))))))

  abbrev report_unused_grants : PrincipalRecord → Option AnalysisFinding
  report_unused_grants p =
      let sensitive =
        filter_by (λ a. not (a == "*")) (has_sensitive (principal_granted_actions py ctx p)) in
      only_if (is_listed sensitive && has_credential p && exceeds_threshold (recommendation_for p))
        (unused_finding p (recommendation_for p))

  unfoldable pub run_unused_grants : List AnalysisFinding
  run_unused_grants =
      if ltb 0 ctx.activity.window_days
      then each report_unused_grants ctx.dataset.principals
      else []
