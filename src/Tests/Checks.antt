-- ===== src/Tests/Checks.antt =====
-- A log with two failed logins from one address, and two denied actions of one principal at different
-- times.
use iam_sentinel_ese.Checks.{
  CheckContext, Runtime, days_since, events_for, grants_admin, has_sensitive, is_active,
  make_finding, principal_granted_actions, used_by,
}
use iam_sentinel_ese.Checks.Activity.{build_activity_index}
use iam_sentinel_ese.Checks.Credential.{run_old_access_key, run_stale_password, run_unused_active}
use iam_sentinel_ese.Checks.Failures.{denied-fingerprints}
use iam_sentinel_ese.Checks.Identity.{
  run_inactive_user, run_mfa_disabled, run_no_recent_login, run_orphaned_principal,
  run_service_console_access,
}
use iam_sentinel_ese.Checks.Log.{
  denied_sensitive_iam, failure_counts, is_denied_sensitive, is_failed_login,
  run_denied_sensitive_iam, run_privileged_login, run_repeated_login_failures,
  run_service_interactive_login,
}
use iam_sentinel_ese.Checks.Privilege.{
  run_admin_access, run_pass_role_escalation, run_trust_wildcard_principal, run_unused_grants,
}
use iam_sentinel_ese.Checks.Registry.{run_checks}
use iam_sentinel_ese.Checks.Shape.{
  run_overly_broad_resource, run_risky_not_action, run_sensitive_action_on_star,
  run_wildcard_action,
}
use iam_sentinel_ese.Counting.{tally_keys}
use iam_sentinel_ese.Json.{no_fields}
use iam_sentinel_ese.Policy.Actions.{grants_action, service_wildcard}
use iam_sentinel_ese.Prelude.{
  Bool, List, String, [], false, filter_by, map, nat_eq, none, option_eq, refl, some, string_eq,
  true, ℕ, ◌∷◌, ◌≡◌,
}
use iam_sentinel_ese.Prelude.Text.{before, has_suffix}
use iam_sentinel_ese.Rbac.{role_eq}
use iam_sentinel_ese.Records.{
  AnalysisFinding, LogEventRecord, NormalizedDataset, PrincipalRecord, Thresholds, is_service,
  policies_for,
}
use iam_sentinel_ese.Scan.{fingerprint}

abbrev pub event : ℕ → String → String → Bool → LogEventRecord
event ts event_name outcome is_sensitive_iam = record {
  ts = some ts;
  principal_uid = some "user/intern";
  source_ip = some "203.0.113.5";
  event_name = some event_name;
  event_source = some "iam.amazonaws.com";
  outcome = some outcome;
  is_privileged = false;
  is_sensitive_iam = is_sensitive_iam;
  raw = no_fields;
}

abbrev pub log : List LogEventRecord
log =
    event 10 "ConsoleLogin" "failure" false
    ∷ event 20 "CreateUser" "denied" true
    ∷ event 30 "ConsoleLogin" "failure" false
    ∷ event 40 "CreateUser" "denied" true
    ∷ []

abbrev pub limits : Thresholds
limits = record {
  inactivity_days = 90;
  password_age_days = 90;
  key_age_days = 90;
  failed_logins = 2;
}

abbrev pub intern : PrincipalRecord
intern = record {
  principal_uid = "user/intern";
  kind = "user";
  username = some "intern";
  email = none;
  arn = none;
  role = none;
  account_type = none;
  active = true;
  console_access = true;
  mfa_enabled = false;
  last_login = none;
  password_last_changed = some 0;
  access_key_age_days = some 100;
  attached_policy_uids = [];
  raw = no_fields;
  blast_radius_score = 0;
  reachable_actions = 0;
  reachable_sensitive = 0;
}

abbrev pub observed : NormalizedDataset
observed = record { principals = intern ∷ []; policies = []; log_events = log }

abbrev pub python : Runtime
python = record {
  now = 864000000;
  show_number = λ n. "n";
  show_time = λ t. "t";
  repr = λ v. "";
  dumps = λ v. "";
}

abbrev pub context : CheckContext
context = record {
  dataset = observed;
  thresholds = limits;
  activity = build_activity_index observed;
  graph = record { edges = []; escalations = [] };
}

abbrev found_ids : List String
found_ids = map (λ (f : AnalysisFinding). f.check_id) (run_checks python context)

intern-found :
    found_ids
    ≡ "iam.credential.old_access_key" ∷ "iam.credential.stale_password" ∷ "iam.user.mfa_disabled"
      ∷ "iam.user.no_recent_login" ∷ "log.repeated_login_failures" ∷ "log.denied_sensitive_iam"
      ∷ "log.denied_sensitive_iam" ∷ []
unfolding run_checks run_old_access_key run_stale_password run_unused_active run_mfa_disabled
    run_inactive_user run_service_console_access run_no_recent_login run_orphaned_principal
    run_repeated_login_failures run_privileged_login run_service_interactive_login
    run_denied_sensitive_iam run_wildcard_action run_sensitive_action_on_star run_risky_not_action
    run_overly_broad_resource run_admin_access run_pass_role_escalation run_trust_wildcard_principal
    run_unused_grants make_finding days_since is_active events_for build_activity_index tally_keys
    principal_granted_actions policies_for grants_admin grants_action service_wildcard before
    is_failed_login failure_counts has_suffix is_service has_sensitive used_by
intern-found = refl

denied-fingerprints_example :
    map
      (λ (f : AnalysisFinding).
        fingerprint (λ t. t) f.check_id f.principal_uid f.resource f.policy_uid)
      (run_denied_sensitive_iam python context)
    ≡ map
        (λ (ev : LogEventRecord).
          fingerprint (λ t. t) denied_sensitive_iam.id ev.principal_uid ev.event_name none)
        (filter_by is_denied_sensitive log)
denied-fingerprints_example = denied-fingerprints python context (λ t. t)
