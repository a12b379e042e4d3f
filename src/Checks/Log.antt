-- ===== src/Checks/Log.antt =====
-- app/analysis/checks/log_checks.py: failed logins, logins of administrators and of services, and
-- denied actions, as the log events show them.
use mathlib.Core.Option.{map as option_map}
use iam_sentinel_ese.Checks.{
  CheckContext, CheckMeta, Runtime, each, grants_admin, make_finding, only_if, or_none,
  principal_granted_actions, text_or_null,
}
use iam_sentinel_ese.Counting.{pair_eq, tally_keys}
use iam_sentinel_ese.Domain.Enums.{Category, Severity, severity_eq}
use iam_sentinel_ese.Json.{Fields, entry, no_fields, number, string}
use iam_sentinel_ese.Prelude.{
  Bool, List, Option, String, [], contains, filter_by, if◌then◌else◌, leb, map, nat_eq, none, not,
  option_eq, some, string_eq, ℕ, ◌&&◌, ◌==◌, ◌||◌, ◌∷◌,
}
use iam_sentinel_ese.Prelude.Text.{concat_text, has_suffix, is_empty}
use iam_sentinel_ese.Rbac.{role_eq}
use iam_sentinel_ese.Records.{
  AnalysisFinding, LogEventRecord, PrincipalRecord, is_service, listed, or_text,
}
use iam_sentinel_ese.Scan.{or_empty}

abbrev pub repeated_login_failures : CheckMeta
repeated_login_failures = record {
  id = "log.repeated_login_failures";
  title = "Repeated login failures (possible brute force)";
  category = Category.log;
  default_severity = Severity.medium;
  description = "A source produced more failed logins than the configured threshold.";
  remediation = "Investigate the source IP; consider lockout / IP blocking.";
}

abbrev pub privileged_login : CheckMeta
privileged_login = record {
  id = "log.privileged_login";
  title = "Privileged principal console login";
  category = Category.log;
  default_severity = Severity.low;
  description =
      "An administrator-equivalent principal logged in to the console; worth surfacing for awareness.";
  remediation = "Confirm the login was expected; prefer federated/temporary access.";
}

abbrev pub service_interactive_login : CheckMeta
service_interactive_login = record {
  id = "log.service_interactive_login";
  title = "Service account interactive login";
  category = Category.log;
  default_severity = Severity.high;
  description =
      "A service/machine account performed an interactive console login, which usually indicates credential misuse.";
  remediation = "Rotate the service credential and investigate the login.";
}

abbrev pub denied_sensitive_iam : CheckMeta
denied_sensitive_iam = record {
  id = "log.denied_sensitive_iam";
  title = "Denied sensitive IAM action";
  category = Category.log;
  default_severity = Severity.medium;
  description =
      "A sensitive IAM action was attempted and denied — a signal of reconnaissance or a misconfigured automation.";
  remediation = "Investigate the principal and the denied action.";
}

-- a principal and a source address, either of which may be missing
abbrev pub LoginKey : Type 0
LoginKey = Option String × Option String

abbrev pub is_console_login : LogEventRecord → Bool
is_console_login ev = has_suffix "ConsoleLogin" (or_empty ev.event_name)

unfoldable pub is_failed_login : LogEventRecord → Bool
is_failed_login ev = is_console_login ev && (ev.outcome == some "failure")

abbrev pub login_key : LogEventRecord → LoginKey
login_key ev = (ev.principal_uid, ev.source_ip)

unfoldable pub failure_counts : List LogEventRecord → List (LoginKey × ℕ)
failure_counts events = tally_keys (map login_key (filter_by is_failed_login events)) []

-- the evidence of a login
abbrev pub login_fields : Runtime → LogEventRecord → Fields
login_fields py ev =
    entry "source_ip" (text_or_null ev.source_ip)
      (entry "ts" (string (py.show_time ev.ts)) no_fields)

abbrev pub uids_where : (PrincipalRecord → Bool) → List PrincipalRecord → List String
uids_where p ps = map (λ (q : PrincipalRecord). q.principal_uid) (filter_by p ps)

-- `uid and uid in watched and uid not in seen`, as the uid if so
abbrev pub newly_seen : List String → List String → Option String → Option String
newly_seen watched seen none = none
newly_seen watched seen (some uid) =
    if not (is_empty uid) && contains uid watched && not (contains uid seen) then some uid else none

-- the loop over the events: one report for each watched principal
abbrev pub first_logins :
    (LogEventRecord → Bool)
    → (String → LogEventRecord → AnalysisFinding)
    → List String
    → List String
    → List LogEventRecord
    → List AnalysisFinding
first_logins counts report watched seen [] = []
first_logins counts report watched seen (ev ∷ events) =
    let found = if counts ev then newly_seen watched seen ev.principal_uid else none in
    listed (option_map (λ uid. report uid ev) found)
      (first_logins counts report watched (listed found seen) events)

-- no outcome, or a success
abbrev pub may_have_succeeded : LogEventRecord → Bool
may_have_succeeded ev = is_empty (or_empty ev.outcome) || (ev.outcome == some "success")

abbrev pub is_denied_sensitive : LogEventRecord → Bool
is_denied_sensitive ev = ev.is_sensitive_iam && (ev.outcome == some "denied")

module _ (py : Runtime) (ctx : CheckContext) where
  abbrev pub failures_finding : LoginKey → ℕ → AnalysisFinding
  failures_finding (uid, ip) count =
      make_finding repeated_login_failures
        (concat_text (
          py.show_number count
          ∷ " failed logins for "
          ∷ or_text uid "unknown"
          ∷ " from "
          ∷ or_none ip
          ∷ []))
        (record { principal_uid = uid; resource = ip; policy_uid = none })
        repeated_login_failures.remediation none
        (entry "failure_count" (number count) (
          entry "source_ip" (text_or_null ip)
            (entry "threshold" (number ctx.thresholds.failed_logins) no_fields)))

  abbrev pub report_failures : LoginKey × ℕ → Option AnalysisFinding
  report_failures (key, count) =
      only_if (leb ctx.thresholds.failed_logins count) (failures_finding key count)

  unfoldable pub run_repeated_login_failures : List AnalysisFinding
  run_repeated_login_failures = each report_failures (failure_counts ctx.dataset.log_events)

  abbrev admin_login : String → LogEventRecord → AnalysisFinding
  admin_login uid ev =
      make_finding privileged_login
        (concat_text ("Privileged user " ∷ uid ∷ " logged in to console" ∷ []))
        (record { principal_uid = some uid; resource = none; policy_uid = none })
        privileged_login.remediation none (login_fields py ev)

  unfoldable pub run_privileged_login : List AnalysisFinding
  run_privileged_login =
      first_logins (λ ev. is_console_login ev && may_have_succeeded ev) admin_login
        (uids_where (λ p. grants_admin (principal_granted_actions py ctx p)) ctx.dataset.principals)
        [] ctx.dataset.log_events

  abbrev service_login : String → LogEventRecord → AnalysisFinding
  service_login uid ev =
      make_finding service_interactive_login
        (concat_text ("Service account " ∷ uid ∷ " performed interactive login" ∷ []))
        (record { principal_uid = some uid; resource = none; policy_uid = none })
        service_interactive_login.remediation none (login_fields py ev)

  unfoldable pub run_service_interactive_login : List AnalysisFinding
  run_service_interactive_login =
      first_logins is_console_login service_login (uids_where is_service ctx.dataset.principals) []
        ctx.dataset.log_events

  abbrev pub denied_finding : LogEventRecord → AnalysisFinding
  denied_finding ev =
      make_finding denied_sensitive_iam
        (concat_text
          ("Denied " ∷ or_none ev.event_name ∷ " by " ∷ or_text ev.principal_uid "unknown" ∷ []))
        (record { principal_uid = ev.principal_uid; resource = ev.event_name; policy_uid = none })
        denied_sensitive_iam.remediation none
        (entry "event_name" (text_or_null ev.event_name) (login_fields py ev))

  unfoldable pub run_denied_sensitive_iam : List AnalysisFinding
  run_denied_sensitive_iam =
      each (λ ev. only_if (is_denied_sensitive ev) (denied_finding ev)) ctx.dataset.log_events
