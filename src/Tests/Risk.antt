-- ===== src/Tests/Risk.antt =====
-- The score of a concrete finding of an exposed principal.
use iam_sentinel_ese.Domain.Enums.{Severity, rank}
use iam_sentinel_ese.Json.{no_fields}
use iam_sentinel_ese.Prelude.{[], arith, false, none, some, true, ◌≤◌}
use iam_sentinel_ese.Records.{PrincipalRecord}
use iam_sentinel_ese.Risk.{score_finding}
use iam_sentinel_ese.Risk.Bounds.{mfa_lowers, score_finding_bounds, score_finding_mono}
use iam_sentinel_ese.Tests.Scan.{found_again}

abbrev pub intern : PrincipalRecord
intern = record {
  principal_uid = "user/intern";
  kind = "user";
  username = some "intern";
  email = none;
  arn = none;
  account_type = none;
  last_login = none;
  password_last_changed = none;
  access_key_age_days = none;
  attached_policy_uids = [];
  raw = no_fields;
  reachable_actions = 0;
  reachable_sensitive = 0;
  role = some "Analyst";
  active = true;
  console_access = true;
  mfa_enabled = false;
  blast_radius_score = 80;
}

score_finding_bounds_example :
    let g = score_finding found_again (some intern) in
    (3 ≤ g.impact)
    × (g.impact ≤ 5)
    × (2 ≤ g.likelihood)
    × (g.likelihood ≤ 5)
    × (34 ≤ g.risk_score)
    × (g.risk_score ≤ 100)
score_finding_bounds_example = score_finding_bounds found_again (some intern)

more_severe : rank Severity.high ≤ rank Severity.critical
unfolding rank
more_severe = omega arith

score_finding_mono_example :
    (score_finding found_again (some intern)).risk_score
    ≤ (score_finding (record found_again { severity = Severity.critical }) (some intern)).risk_score
score_finding_mono_example =
    score_finding_mono found_again Severity.critical (some intern) more_severe

mfa_lowers_example :
    (score_finding found_again (some (record intern { mfa_enabled = true }))).risk_score
    ≤ (score_finding found_again (some intern)).risk_score
mfa_lowers_example = mfa_lowers found_again intern
