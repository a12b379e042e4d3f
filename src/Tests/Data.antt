-- ===== src/Tests/Data.antt =====
-- Three finding groups of one account: open, suppressed with an expiry, and being investigated.
use iam_sentinel_ese.Domain.Dates.{Date}
use iam_sentinel_ese.Domain.Enums.{Category, Severity, Status}
use iam_sentinel_ese.Json.{no_fields}
use iam_sentinel_ese.Models.{Finding, Group, History, Session, User}
use iam_sentinel_ese.Prelude.{Bool, Option, String, [], false, none, some, true, ℕ, ◌∷◌}
use iam_sentinel_ese.Prelude.Text.{codes}
use iam_sentinel_ese.Rbac.{Role}
use iam_sentinel_ese.Scan.{fingerprint}

abbrev pub test_group : ℕ → String → Status → Group
test_group id fingerprint status = record {
  id = id;
  account_id = 1;
  fingerprint = fingerprint;
  check_id = "iam.user.mfa_disabled";
  principal_uid = some "user/intern";
  first_seen_run = some 1;
  last_seen_run = some 2;
  current_status = status;
  assignee_id = none;
}

abbrev pub test_finding : ℕ → ℕ → Status → Finding
test_finding run gid status = record {
  run_id = run;
  group_id = gid;
  check_id = "iam.user.mfa_disabled";
  title = "MFA disabled";
  severity = Severity.high;
  category = Category.identity;
  principal_uid = some "user/intern";
  resource = none;
  policy_uid = none;
  risk_score = 60;
  likelihood = 3;
  impact = 3;
  evidence = no_fields;
  recommendation = "Enable MFA.";
  remediation_snippet = none;
  compliance_tags = [];
  status = status;
}

abbrev pub test_row : ℕ → Option Status → Status → History
test_row gid from_status to_status = record {
  group_id = gid;
  from_status = from_status;
  to_status = to_status;
  actor_id = none;
  note = none;
}

abbrev pub test_user : ℕ → Role → Bool → User
test_user id role is_active = record {
  id = id;
  email = "a@example.com";
  display_name = "A";
  role = role;
  password_hash = "h";
  is_active = is_active;
}

abbrev pub test_date : ℕ → ℕ → ℕ → Date
test_date y m d = record { year = y; month = m; day = d }

abbrev pub tables : Session
tables = record {
  now = "2026-01-01T00:00:00+00:00";
  public_mode = false;
  groups =
      test_group 1 "fp-1" Status.opened
      ∷ test_group 2 "fp-2" Status.suppressed
      ∷ test_group 3 "fp-3" Status.investigating
      ∷ [];
  findings =
      test_finding 2 1 Status.opened
      ∷ test_finding 1 2 Status.opened
      ∷ test_finding 2 2 Status.suppressed
      ∷ [];
  history =
      test_row 1 none Status.opened
      ∷ test_row 2 none Status.opened
      ∷ test_row 3 none Status.opened
      ∷ test_row 2 (some Status.opened) Status.suppressed
      ∷ test_row 3 (some Status.opened) Status.investigating
      ∷ [];
  comments = [];
  exceptions =
      record {
        id = 1;
        group_id = 2;
        kind = Status.suppressed;
        reason = "noise";
        created_by = 1;
        expires_at = some (codes "2026-01-31");
        revoked_at = none;
      }
      ∷ [];
  users = test_user 1 Role.admin true ∷ test_user 2 Role.analyst true ∷ [];
  audit = [];
}
