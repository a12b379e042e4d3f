-- ===== src/Scan.antt =====
-- app/services/scan_service.py: how a scan's findings are persisted under their groups, and
-- app/domain/fingerprint.py, which names a group. The hash is hashlib's and a parameter.
pub mod Detect
pub mod Persist
pub mod Continuity
pub mod Placed
pub mod Recorded
use Prim.Native.String.{◌++◌ as text_append}
use iam_sentinel_ese.Domain.Enums.{Category, Severity, Status, severity_eq, status_eq}
use iam_sentinel_ese.Models.{Finding, Group, History, Session, fresh_group_id, update_group}
use iam_sentinel_ese.Prelude.{
  Bool, List, Option, String, [], if◌then◌else◌, nat_eq, none, option_eq, some, string_eq, ℕ, ◌&&◌,
  ◌++◌, ◌==◌, ◌∷◌,
}
use iam_sentinel_ese.Records.{AnalysisFinding}

-- `uid or ""`
abbrev pub or_empty : Option String → String
or_empty none = ""
or_empty (some text) = text

-- `"|".join(parts)`
abbrev pub join_parts : List String → String
join_parts [] = ""
join_parts (part ∷ []) = part
join_parts (part ∷ rest) = text_append part (text_append "|" (join_parts rest))

unfoldable pub fingerprint :
    (String → String) → String → Option String → Option String → Option String → String
fingerprint sha256 check_id principal_uid resource policy_uid =
    sha256 (
      join_parts (check_id ∷ or_empty principal_uid ∷ or_empty resource ∷ or_empty policy_uid ∷ []))

abbrev pub is_group_of : ℕ → String → Group → Bool
is_group_of account_id fp g = (g.account_id == account_id) && (g.fingerprint == fp)

-- the select of `_get_or_create_group`
abbrev pub find_group : ℕ → String → List Group → Option Group
find_group account_id fp [] = none
find_group account_id fp (g ∷ gs) =
    if is_group_of account_id fp g then some g else find_group account_id fp gs

abbrev pub new_group : ℕ → ℕ → ℕ → String → String → Option String → Group
new_group id account_id run_id fp check_id principal_uid = record {
  id = id;
  account_id = account_id;
  fingerprint = fp;
  check_id = check_id;
  principal_uid = principal_uid;
  first_seen_run = some run_id;
  last_seen_run = some run_id;
  current_status = Status.opened;
  assignee_id = none;
}

abbrev pub detected_row : ℕ → Option Status → String → History
detected_row gid from_status text = record {
  group_id = gid;
  from_status = from_status;
  to_status = Status.opened;
  actor_id = none;
  note = some text;
}

-- re-detection of a resolved issue reopens it
abbrev pub redetected_status : Status → Status
redetected_status status = if status == Status.resolved then Status.opened else status

abbrev pub redetected : ℕ → Group → Group
redetected run_id g = record g {
  last_seen_run = some run_id;
  current_status = redetected_status g.current_status;
}

-- the group is known: what the scan writes to it
unfoldable pub write_redetected : ℕ → Group → Session → Session
write_redetected run_id group s = record s {
  groups = update_group group.id (redetected run_id) s.groups;
  history =
      if group.current_status == Status.resolved
      then s.history ++ detected_row group.id (some Status.resolved) "Re-detected on new scan" ∷ []
      else s.history;
}

-- the group is new
unfoldable pub write_detected : Group → Session → Session
write_detected group s = record s {
  groups = s.groups ++ group ∷ [];
  history = s.history ++ detected_row group.id none "Detected" ∷ [];
}

unfoldable pub get_or_create_group :
    ℕ → ℕ → String → String → Option String → Session → Group × Session
get_or_create_group account_id run_id fp check_id principal_uid s =
    elim (find_group account_id fp s.groups) [
      | none ↦
          let group =
            new_group (fresh_group_id s.groups) account_id run_id fp check_id principal_uid in
          (group, write_detected group s)
      | some group ↦ (redetected run_id group, write_redetected run_id group s)
    ]

abbrev pub snapshot : ℕ → AnalysisFinding → Group → Finding
snapshot run_id f group = record {
  run_id = run_id;
  group_id = group.id;
  check_id = f.check_id;
  title = f.title;
  severity = f.severity;
  category = f.category;
  principal_uid = f.principal_uid;
  resource = f.resource;
  policy_uid = f.policy_uid;
  risk_score = f.risk_score;
  likelihood = f.likelihood;
  impact = f.impact;
  evidence = f.evidence;
  recommendation = f.recommendation;
  remediation_snippet = f.remediation_snippet;
  compliance_tags = f.compliance_tags;
  status = group.current_status;
}

abbrev pub add_finding : ℕ → AnalysisFinding → Group × Session → Session
add_finding run_id f (group, s) = record s { findings = s.findings ++ snapshot run_id f group ∷ [] }

-- one round of the loop of `_persist_findings`
unfoldable pub persist_finding : (String → String) → ℕ → ℕ → AnalysisFinding → Session → Session
persist_finding sha256 account_id run_id f s =
    let fp = fingerprint sha256 f.check_id f.principal_uid f.resource f.policy_uid in
    add_finding run_id f (get_or_create_group account_id run_id fp f.check_id f.principal_uid s)

unfoldable pub persist_findings :
    (String → String) → ℕ → ℕ → List AnalysisFinding → Session → Session
persist_findings sha256 account_id run_id [] s = s
persist_findings sha256 account_id run_id (f ∷ rest) s =
    persist_findings sha256 account_id run_id rest (persist_finding sha256 account_id run_id f s)
