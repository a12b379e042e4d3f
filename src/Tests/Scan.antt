-- ===== src/Tests/Scan.antt =====
-- A third scan at the tables of `Data`: it sees the first group again, and a new issue.
use iam_sentinel_ese.Domain.Enums.{Category, Severity, Status, severity_eq, status_eq}
use iam_sentinel_ese.Json.{no_fields}
use iam_sentinel_ese.Models.{Group, Session, get_group}
use iam_sentinel_ese.Prelude.{
  List, String, [], arith, if◌then◌else◌, nat_eq, none, option_eq, refl, some, string_eq, ◌==◌, ◌∷◌,
  ◌≡◌,
}
use iam_sentinel_ese.Records.{AnalysisFinding}
use iam_sentinel_ese.Scan.{persist_findings}
use iam_sentinel_ese.Scan.Continuity.{
  IsCarried, IsSingle, persist_findings-IsCarried, persist_findings-IsSingle,
}
use iam_sentinel_ese.Tests.Data.{tables, test_group}

abbrev pub found_again : AnalysisFinding
found_again = record {
  check_id = "iam.user.mfa_disabled";
  title = "MFA disabled";
  severity = Severity.high;
  category = Category.identity;
  principal_uid = some "user/intern";
  resource = none;
  policy_uid = none;
  evidence = no_fields;
  recommendation = "Enable MFA.";
  remediation_snippet = none;
  compliance_tags = [];
  risk_score = 60;
  likelihood = 3;
  impact = 3;
}

-- A stand-in for the hash that names the first group of the tables.
abbrev test_hash : String → String
test_hash text = if text == "iam.user.mfa_disabled|user/intern||" then "fp-1" else text

abbrev found_twice : List AnalysisFinding
found_twice = found_again ∷ record found_again { principal_uid = some "user/ci" } ∷ []

persist_findings-IsCarried_example :
    (g' : Group) × (get_group 1 (persist_findings test_hash 1 3 (found_again ∷ []) tables).groups
      ≡ some g')
    × IsCarried (test_group 1 "fp-1" Status.opened) g'
persist_findings-IsCarried_example =
    persist_findings-IsCarried test_hash 1 3 1 (test_group 1 "fp-1" Status.opened)
      (found_again ∷ []) tables refl

abbrev one_group : Session
one_group = record tables { groups = test_group 1 "fp-1" Status.opened ∷ [] }

one_group-IsSingle : IsSingle one_group
one_group-IsSingle account_id fp = ground arith

persist_findings-IsSingle_example :
    IsSingle (persist_findings test_hash 1 3 (found_again ∷ []) one_group)
persist_findings-IsSingle_example =
    persist_findings-IsSingle test_hash 1 3 (found_again ∷ []) one_group one_group-IsSingle
