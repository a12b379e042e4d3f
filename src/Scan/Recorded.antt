-- ===== src/Scan/Recorded.antt =====
-- Where `_persist_findings` of app/services/scan_service.py puts each finding: the group of its
-- fingerprint, as it is after the scan.
use iam_sentinel_ese.Models.{Group, Session, fresh_group_id}
use iam_sentinel_ese.Prelude.{Option, String, ℕ}
use iam_sentinel_ese.Records.{AnalysisFinding}
use iam_sentinel_ese.Scan.{fingerprint, get_or_create_group, new_group}

-- One call of `_get_or_create_group`, for the fingerprint `fp`.
module _ (account_id run_id : ℕ) (fp check_id : String) (principal_uid : Option String)
    (s : Session) where
  abbrev stepped : Session
  stepped = (get_or_create_group account_id run_id fp check_id principal_uid s).1

  abbrev created_group : Group
  created_group = new_group (fresh_group_id s.groups) account_id run_id fp check_id principal_uid

-- the fingerprint of a finding
abbrev pub name_of : (String → String) → AnalysisFinding → String
name_of sha256 f = fingerprint sha256 f.check_id f.principal_uid f.resource f.policy_uid
