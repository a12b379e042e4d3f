-- ===== src/Checks/Identity.antt =====
-- app/analysis/checks/identity.py and inventory.py: multi-factor login, idle users, console access of
-- services, users that never logged in, and principals without policies.
use mathlib.Core.Option.{map as option_map}
use iam_sentinel_ese.Checks.{
  CheckContext, CheckMeta, Runtime, days_since, each, elapsed_days, is_active, make_finding,
  of_principal, only_if, reaching, text_or_null,
}
use iam_sentinel_ese.Domain.Enums.{Category, Severity, severity_eq}
use iam_sentinel_ese.Json.{entry, no_fields, null, number, truth}
use iam_sentinel_ese.Policy.{is_listed}
use iam_sentinel_ese.Prelude.{
  List, Option, [], false, if◌then◌else◌, nat_eq, none, not, option_eq, some, string_eq, true, ℕ,
  ◌&&◌, ◌==◌, ◌||◌, ◌∷◌,
}
use iam_sentinel_ese.Prelude.Text.{concat_text}
use iam_sentinel_ese.Rbac.{role_eq}
use iam_sentinel_ese.Records.{
  AnalysisFinding, PrincipalRecord, is_given, is_service, or_text, principal_name,
}

abbrev pub mfa_disabled : CheckMeta
mfa_disabled = record {
  id = "iam.user.mfa_disabled";
  title = "Console user without MFA";
  category = Category.identity;
  default_severity = Severity.high;
  description = "Human users with console access must have MFA enabled.";
  remediation = "Enable a virtual or hardware MFA device for this user.";
}

abbrev pub inactive_user : CheckMeta
inactive_user = record {
  id = "iam.user.inactive";
  title = "Inactive user with active credentials";
  category = Category.hygiene;
  default_severity = Severity.medium;
  description =
      "Users who have not logged in within the inactivity window but still hold active credentials should be disabled.";
  remediation = "Disable or delete unused credentials.";
}

abbrev pub service_console_access : CheckMeta
service_console_access = record {
  id = "iam.user.service_console_access";
  title = "Service account with console access";
  category = Category.identity;
  default_severity = Severity.medium;
  description = "Service/machine accounts should not have interactive console access.";
  remediation = "Remove the login profile from this service account.";
}

abbrev pub no_recent_login : CheckMeta
no_recent_login = record {
  id = "iam.user.no_recent_login";
  title = "User has never logged in";
  category = Category.hygiene;
  default_severity = Severity.low;
  description =
      "An active human user with no recorded login is likely dormant or a provisioning leftover.";
  remediation = "Confirm the account is needed; otherwise remove it.";
}

abbrev pub orphaned_principal : CheckMeta
orphaned_principal = record {
  id = "inventory.orphaned_principal";
  title = "Orphaned principal with no policies";
  category = Category.inventory;
  default_severity = Severity.low;
  description =
      "A principal has no attached policies and no observed activity — likely an orphaned or forgotten identity.";
  remediation = "Confirm the identity is needed; otherwise remove it.";
}

module _ (py : Runtime) (ctx : CheckContext) where
  abbrev report_mfa : PrincipalRecord → Option AnalysisFinding
  report_mfa p = only_if ((p.kind == "user") && p.console_access && not p.mfa_enabled) (
      make_finding mfa_disabled
        (concat_text (principal_name p ∷ " has console access but no MFA" ∷ [])) (of_principal p)
        mfa_disabled.remediation
        (some (
          concat_text (
            "aws iam enable-mfa-device --user-name "
            ∷ or_text p.username (principal_name p)
            ∷ " ..."
            ∷ [])))
        (entry "console_access" (truth true) (entry "mfa_enabled" (truth false) no_fields)))

  unfoldable pub run_mfa_disabled : List AnalysisFinding
  run_mfa_disabled = each report_mfa ctx.dataset.principals

  abbrev report_idle : PrincipalRecord → ℕ → AnalysisFinding
  report_idle p idle =
      make_finding inactive_user
        (concat_text (principal_name p ∷ " inactive for " ∷ py.show_number idle ∷ " days" ∷ []))
        (of_principal p) inactive_user.remediation none
        (entry "idle_days" (number idle)
          (entry "threshold" (number ctx.thresholds.inactivity_days) no_fields))

  abbrev report_inactive : PrincipalRecord → Option AnalysisFinding
  report_inactive p =
      if not p.active || (p.kind == "role")
      then none
      else option_map (report_idle p)
          (reaching ctx.thresholds.inactivity_days (elapsed_days (days_since py.now p.last_login)))

  unfoldable pub run_inactive_user : List AnalysisFinding
  run_inactive_user = each report_inactive ctx.dataset.principals

  abbrev report_service : PrincipalRecord → Option AnalysisFinding
  report_service p = only_if (is_service p && p.console_access) (
      make_finding service_console_access
        (concat_text ("Service account " ∷ principal_name p ∷ " has console access" ∷ []))
        (of_principal p) service_console_access.remediation none
        (entry "account_type" (text_or_null p.account_type)
          (entry "console_access" (truth true) no_fields)))

  unfoldable pub run_service_console_access : List AnalysisFinding
  run_service_console_access = each report_service ctx.dataset.principals

  abbrev report_never : PrincipalRecord → Option AnalysisFinding
  report_never p =
      only_if ((p.kind == "user") && p.active && not (is_service p) && not (is_given p.last_login))
        (make_finding no_recent_login (concat_text (principal_name p ∷ " has never logged in" ∷ []))
          (of_principal p) no_recent_login.remediation none (entry "last_login" null no_fields))

  unfoldable pub run_no_recent_login : List AnalysisFinding
  run_no_recent_login = each report_never ctx.dataset.principals

  abbrev report_orphan : PrincipalRecord → Option AnalysisFinding
  report_orphan p =
      only_if
        (not (is_listed p.attached_policy_uids) && not (is_active ctx.activity p.principal_uid))
        (make_finding orphaned_principal
          (concat_text (principal_name p ∷ " has no policies attached" ∷ [])) (of_principal p)
          orphaned_principal.remediation none (entry "attached_policies" (number 0) no_fields))

  unfoldable pub run_orphaned_principal : List AnalysisFinding
  run_orphaned_principal = each report_orphan ctx.dataset.principals
