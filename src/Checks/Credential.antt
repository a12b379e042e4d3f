-- ===== src/Checks/Credential.antt =====
-- app/analysis/checks/credential.py: the age of keys and passwords, and credentials that nobody uses.
use mathlib.Core.Option.{map as option_map}
use iam_sentinel_ese.Checks.{
  CheckContext, CheckMeta, Runtime, days_since, each, elapsed_days, has_credential, is_active,
  make_finding, of_principal, only_if, reaching,
}
use iam_sentinel_ese.Domain.Enums.{Category, Severity}
use iam_sentinel_ese.Json.{entry, no_fields, number}
use iam_sentinel_ese.Prelude.{List, Option, [], if◌then◌else◌, ltb, none, not, some, ℕ, ◌&&◌, ◌∷◌}
use iam_sentinel_ese.Prelude.Text.{concat_text}
use iam_sentinel_ese.Records.{AnalysisFinding, PrincipalRecord, or_text, principal_name}

abbrev pub old_access_key : CheckMeta
old_access_key = record {
  id = "iam.credential.old_access_key";
  title = "Access key older than rotation window";
  category = Category.credential;
  default_severity = Severity.high;
  description = "Access keys should be rotated within the configured window.";
  remediation = "Rotate the access key and delete the old one.";
}

abbrev pub stale_password : CheckMeta
stale_password = record {
  id = "iam.credential.stale_password";
  title = "Password older than max age";
  category = Category.credential;
  default_severity = Severity.medium;
  description = "Console passwords should be changed within the max-age window.";
  remediation = "Require a password reset for this user.";
}

abbrev pub unused_active_credential : CheckMeta
unused_active_credential = record {
  id = "iam.credential.unused_active";
  title = "Active credential with no recent activity";
  category = Category.credential;
  default_severity = Severity.medium;
  description =
      "An active credential (console or access key) with zero activity in the observed log window is an unnecessary attack surface.";
  remediation = "Disable the unused credential.";
}

module _ (py : Runtime) (ctx : CheckContext) where
  abbrev old_key : PrincipalRecord → ℕ → AnalysisFinding
  old_key p age =
      make_finding old_access_key
        (concat_text (principal_name p ∷ " access key is " ∷ py.show_number age ∷ " days old" ∷ []))
        (of_principal p) old_access_key.remediation
        (some (
          concat_text (
            "aws iam create-access-key --user-name "
            ∷ or_text p.username (principal_name p)
            ∷ " && aws iam delete-access-key --access-key-id <OLD>"
            ∷ [])))
        (entry "key_age_days" (number age)
          (entry "threshold" (number ctx.thresholds.key_age_days) no_fields))

  abbrev report_key : PrincipalRecord → Option AnalysisFinding
  report_key p = option_map (old_key p) (reaching ctx.thresholds.key_age_days p.access_key_age_days)

  unfoldable pub run_old_access_key : List AnalysisFinding
  run_old_access_key = each report_key ctx.dataset.principals

  abbrev old_password : PrincipalRecord → ℕ → AnalysisFinding
  old_password p age =
      make_finding stale_password
        (concat_text (principal_name p ∷ " password is " ∷ py.show_number age ∷ " days old" ∷ []))
        (of_principal p) stale_password.remediation none
        (entry "password_age_days" (number age)
          (entry "threshold" (number ctx.thresholds.password_age_days) no_fields))

  abbrev report_password : PrincipalRecord → Option AnalysisFinding
  report_password p =
      if p.console_access
      then option_map (old_password p) (
          reaching ctx.thresholds.password_age_days
            (elapsed_days (days_since py.now p.password_last_changed)))
      else none

  unfoldable pub run_stale_password : List AnalysisFinding
  run_stale_password = each report_password ctx.dataset.principals

  abbrev report_unused : PrincipalRecord → Option AnalysisFinding
  report_unused p =
      only_if (p.active && has_credential p && not (is_active ctx.activity p.principal_uid)) (
        make_finding unused_active_credential
          (concat_text (
            principal_name p
            ∷ " credential unused in last "
            ∷ py.show_number ctx.activity.window_days
            ∷ " days"
            ∷ []))
          (of_principal p) unused_active_credential.remediation none
          (entry "window_days" (number ctx.activity.window_days)
            (entry "used_actions" (number 0) no_fields)))

  unfoldable pub run_unused_active : List AnalysisFinding
  run_unused_active =
      if ltb 0 ctx.activity.window_days then each report_unused ctx.dataset.principals else []
