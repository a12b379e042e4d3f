-- ===== src/Checks/Shape.antt =====
-- app/analysis/checks/policy_checks.py: wildcards, sensitive actions on every resource, and NotAction.
use mathlib.Core.Option.{map as option_map}
use iam_sentinel_ese.Checks.{
  CheckContext, CheckMeta, Runtime, each, has_sensitive, make_finding, of_policy, only_if,
}
use iam_sentinel_ese.Domain.Enums.{Category, Severity, severity_eq}
use iam_sentinel_ese.Json.{Fields, Values, array, entry, item, no_fields, no_values, object, string}
use iam_sentinel_ese.LeastPrivilege.{sorted_set, strings}
use iam_sentinel_ese.Policy.{
  actions, has_wildcard_action, is_allow, is_listed, not_actions, resources, statements,
}
use iam_sentinel_ese.Prelude.{
  Bool, List, Option, [], contains, if◌then◌else◌, nat_eq, none, not, option_eq, some, string_eq,
  ◌&&◌, ◌∷◌,
}
use iam_sentinel_ese.Prelude.Text.{concat_text}
use iam_sentinel_ese.Records.{AnalysisFinding, PolicyRecord}

abbrev pub wildcard_action : CheckMeta
wildcard_action = record {
  id = "policy.wildcard_action";
  title = "Policy grants wildcard action";
  category = Category.policy;
  default_severity = Severity.high;
  description = "A policy statement allows Action '*', granting far more than needed.";
  remediation = "Replace '*' with the specific actions the workload requires.";
}

abbrev pub sensitive_action_on_star : CheckMeta
sensitive_action_on_star = record {
  id = "policy.sensitive_action_on_star";
  title = "Sensitive action on all resources";
  category = Category.privilege;
  default_severity = Severity.high;
  description = "A sensitive action (IAM/KMS/STS/...) is granted on Resource '*'.";
  remediation = "Scope sensitive actions to specific resource ARNs.";
}

abbrev pub risky_not_action : CheckMeta
risky_not_action = record {
  id = "policy.risky_not_action";
  title = "Allow statement uses NotAction";
  category = Category.policy;
  default_severity = Severity.medium;
  description =
      "Allow + NotAction grants everything except a deny-list, which is almost always broader than intended.";
  remediation = "Rewrite the statement as an explicit Action allow-list.";
}

abbrev pub overly_broad_resource : CheckMeta
overly_broad_resource = record {
  id = "policy.overly_broad_resource";
  title = "Non-sensitive policy scoped to all resources";
  category = Category.policy;
  default_severity = Severity.medium;
  description = "A policy grants concrete actions but on Resource '*'; scope it down.";
  remediation = "Restrict the Resource element to specific ARNs.";
}

-- the first statement that passes a test, after which a check breaks its loop
abbrev pub first_statement : (Fields → Bool) → List Fields → Option Fields
first_statement p [] = none
first_statement p (st ∷ sts) = if p st then some st else first_statement p sts

-- `pol.statements(document)` as a value again
abbrev pub statement_list : List Fields → Values
statement_list [] = no_values
statement_list (st ∷ sts) = item (object st) (statement_list sts)

module _ (py : Runtime) (ctx : CheckContext) where
  abbrev report_wildcard : PolicyRecord → Option AnalysisFinding
  report_wildcard q = only_if (has_wildcard_action py.repr q.document) (
      make_finding wildcard_action (concat_text ("Policy '" ∷ q.name ∷ "' allows Action '*'" ∷ []))
        (of_policy q) wildcard_action.remediation none
        (entry "statements" (array (statement_list (statements q.document))) no_fields))

  unfoldable pub run_wildcard_action : List AnalysisFinding
  run_wildcard_action = each report_wildcard ctx.dataset.policies

  abbrev pub is_sensitive_on_star : Fields → Bool
  is_sensitive_on_star st =
      is_allow py.repr st
      && contains "*" (resources py.repr st)
      && is_listed (has_sensitive (actions py.repr st))

  abbrev sensitive_finding : PolicyRecord → Fields → AnalysisFinding
  sensitive_finding q st =
      make_finding sensitive_action_on_star
        (concat_text ("Policy '" ∷ q.name ∷ "' grants sensitive actions on '*'" ∷ [])) (of_policy q)
        sensitive_action_on_star.remediation none
        (entry "sensitive_actions"
          (array (strings (sorted_set (has_sensitive (actions py.repr st)))))
          (entry "statement" (object st) no_fields))

  abbrev report_sensitive : PolicyRecord → Option AnalysisFinding
  report_sensitive q =
      option_map (sensitive_finding q)
        (first_statement is_sensitive_on_star (statements q.document))

  unfoldable pub run_sensitive_action_on_star : List AnalysisFinding
  run_sensitive_action_on_star = each report_sensitive ctx.dataset.policies

  abbrev not_action_finding : PolicyRecord → Fields → AnalysisFinding
  not_action_finding q st =
      make_finding risky_not_action
        (concat_text ("Policy '" ∷ q.name ∷ "' uses Allow + NotAction" ∷ [])) (of_policy q)
        risky_not_action.remediation none
        (entry "not_action" (array (strings (not_actions py.repr st)))
          (entry "statement" (object st) no_fields))

  abbrev report_not_action : PolicyRecord → Option AnalysisFinding
  report_not_action q = option_map (not_action_finding q) (
      first_statement (λ st. is_allow py.repr st && is_listed (not_actions py.repr st))
        (statements q.document))

  unfoldable pub run_risky_not_action : List AnalysisFinding
  run_risky_not_action = each report_not_action ctx.dataset.policies

  abbrev pub is_broad : Fields → Bool
  is_broad st =
      is_allow py.repr st
      && is_listed (actions py.repr st)
      && not (is_listed (has_sensitive (actions py.repr st)))
      && contains "*" (resources py.repr st)

  abbrev broad_finding : PolicyRecord → Fields → AnalysisFinding
  broad_finding q st =
      make_finding overly_broad_resource
        (concat_text ("Policy '" ∷ q.name ∷ "' allows actions on Resource '*'" ∷ [])) (of_policy q)
        overly_broad_resource.remediation
        (some (
          py.dumps (
            object (
              entry "Resource" (array (item (string "arn:aws:...:specific-resource") no_values))
                no_fields))))
        (entry "actions" (array (strings (sorted_set (actions py.repr st))))
          (entry "statement" (object st) no_fields))

  abbrev report_broad : PolicyRecord → Option AnalysisFinding
  report_broad q =
      if has_wildcard_action py.repr q.document
      then none
      else option_map (broad_finding q) (first_statement is_broad (statements q.document))

  unfoldable pub run_overly_broad_resource : List AnalysisFinding
  run_overly_broad_resource = each report_broad ctx.dataset.policies
