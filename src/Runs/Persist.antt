-- ===== src/Runs/Persist.antt =====
-- app/services/scan_service.py: the rows that a run persists beside its findings, and its summary.
-- `show_time` is `to_iso` on the stored instants.
use mathlib.Core.Option.{map as option_map}
use iam_sentinel_ese.Checks.{GraphEdge}
use iam_sentinel_ese.Checks.Registry.{AnalysisResult}
use iam_sentinel_ese.Counting.{tally_keys}
use iam_sentinel_ese.Domain.Enums.{Severity, is_completed, severity_eq, status_eq}
use iam_sentinel_ese.Json.{Value}
use iam_sentinel_ese.LeastPrivilege.{sorted_set}
use iam_sentinel_ese.Models.{Finding, Group}
use iam_sentinel_ese.Policy.{
  has_wildcard_action, has_wildcard_resource, statements, uses_not_action,
}
use iam_sentinel_ese.Prelude.{
  Bool, List, Option, String, [], contains, count_by, filter_by, if◌then◌else◌, leb, length, map,
  nat_eq, none, not, option_eq, some, string_eq, ℕ, ◌&&◌, ◌++◌, ◌==◌, ◌∷◌,
}
use iam_sentinel_ese.Prelude.Text.{is_empty}
use iam_sentinel_ese.Rbac.{role_eq}
use iam_sentinel_ese.Records.{
  AnalysisFinding, LogEventRecord, NormalizedDataset, PolicyRecord, PrincipalRecord,
}
use iam_sentinel_ese.Runs.{
  Account, Database, EdgeRow, LogEventRow, PolicyRow, PrincipalRow, Run, RunSummary,
}
use iam_sentinel_ese.Scan.{fingerprint, or_empty}

abbrev pub principal_row : (ℕ → String) → ℕ → PrincipalRecord → PrincipalRow
principal_row show_time run_id p = record {
  run_id = run_id;
  principal_uid = p.principal_uid;
  kind = p.kind;
  username = p.username;
  email = p.email;
  arn = p.arn;
  role = p.role;
  account_type = p.account_type;
  active = p.active;
  console_access = p.console_access;
  mfa_enabled = p.mfa_enabled;
  last_login = option_map show_time p.last_login;
  password_last_changed = option_map show_time p.password_last_changed;
  access_key_age_days = p.access_key_age_days;
  attached_policy_ids = p.attached_policy_uids;
  blast_radius_score = p.blast_radius_score;
  reachable_actions = p.reachable_actions;
  reachable_sensitive = p.reachable_sensitive;
  raw = p.raw;
}

abbrev pub policy_row : (Value → String) → ℕ → PolicyRecord → PolicyRow
policy_row repr run_id q = record {
  run_id = run_id;
  policy_uid = q.policy_uid;
  name = q.name;
  kind = q.kind;
  document = q.document;
  statement_count = length (statements q.document);
  has_wildcard_action = has_wildcard_action repr q.document;
  has_wildcard_resource = has_wildcard_resource repr q.document;
  uses_not_action = uses_not_action repr q.document;
}

abbrev pub log_event_row : (ℕ → String) → ℕ → LogEventRecord → LogEventRow
log_event_row show_time run_id ev = record {
  run_id = run_id;
  ts = option_map show_time ev.ts;
  principal_uid = ev.principal_uid;
  source_ip = ev.source_ip;
  event_name = ev.event_name;
  event_source = ev.event_source;
  outcome = ev.outcome;
  is_privileged = ev.is_privileged;
  is_sensitive_iam = ev.is_sensitive_iam;
  raw = ev.raw;
}

unfoldable pub persist_snapshot :
    (Value → String) → (ℕ → String) → ℕ → NormalizedDataset → Database → Database
persist_snapshot repr show_time run_id dataset db = record db {
  principals = db.principals ++ map (principal_row show_time run_id) dataset.principals;
  policies = db.policies ++ map (policy_row repr run_id) dataset.policies;
  log_events = db.log_events ++ map (log_event_row show_time run_id) dataset.log_events;
}

abbrev pub edge_row : ℕ → GraphEdge → EdgeRow
edge_row run_id edge = record { run_id = run_id; edge = edge }

unfoldable pub persist_graph_edges : ℕ → List GraphEdge → Database → Database
persist_graph_edges run_id edges db = record db { edges = db.edges ++ map (edge_row run_id) edges }

-- the completed runs of an account other than this one
abbrev pub is_other_completed : ℕ → ℕ → Run → Bool
is_other_completed account_id run_id r =
    (r.account_id == account_id) && not (r.id == run_id) && is_completed r.status

-- `order_by(Run.id.desc())`, the first row
abbrev pub newer_run : Run → Option Run → Option Run
newer_run r none = some r
newer_run r (some q) = if leb q.id r.id then some r else some q

abbrev pub newest : List Run → Option Run
newest [] = none
newest (r ∷ rs) = newer_run r (newest rs)

-- `_run_fingerprints`, as a set
unfoldable pub run_fingerprints : (String → String) → ℕ → List Finding → List String
run_fingerprints sha256 run_id findings = sorted_set (
    map (λ (f : Finding). fingerprint sha256 f.check_id f.principal_uid f.resource f.policy_uid)
      (filter_by (λ (f : Finding). f.run_id == run_id) findings))

-- `len(xs - ys)`
abbrev pub count_missing : List String → List String → ℕ
count_missing xs ys = count_by (λ x. not (contains x ys)) xs

abbrev pub of_severity : Severity → List AnalysisFinding → ℕ
of_severity severity findings = count_by (λ (f : AnalysisFinding). f.severity == severity) findings

abbrev pub risky_uids : List AnalysisFinding → List String
risky_uids [] = []
risky_uids (f ∷ fs) =
    let rest = risky_uids fs in
    if is_empty (or_empty f.principal_uid) then rest else or_empty f.principal_uid ∷ rest

unfoldable pub summary_row :
    (String → String) → Account → ℕ → AnalysisResult → Database → RunSummary
summary_row sha256 account run_id result db =
    let previous = newest (filter_by (is_other_completed account.id run_id) db.runs) in
    let current = run_fingerprints sha256 run_id db.tables.findings in
    let earlier = λ (r : Run). run_fingerprints sha256 r.id db.tables.findings in
    record {
      run_id = run_id;
      total_findings = length result.findings;
      count_low = of_severity Severity.low result.findings;
      count_medium = of_severity Severity.medium result.findings;
      count_high = of_severity Severity.high result.findings;
      count_critical = of_severity Severity.critical result.findings;
      counts_by_category = result.counts_by_category;
      counts_by_status =
          tally_keys
            (map (λ (g : Group). g.current_status)
              (filter_by (λ (g : Group). g.last_seen_run == some run_id) db.tables.groups))
            [];
      compliance_summary = result.compliance_summary;
      new_count = option_map (λ r. count_missing current (earlier r)) previous;
      resolved_count = option_map (λ r. count_missing (earlier r) current) previous;
      principals_total = count_by (λ (p : PrincipalRow). p.run_id == run_id) db.principals;
      principals_at_risk = length (sorted_set (risky_uids result.findings));
    }

unfoldable pub persist_summary :
    (String → String) → Account → ℕ → AnalysisResult → Database → Database
persist_summary sha256 account run_id result db = record db {
  summaries = db.summaries ++ summary_row sha256 account run_id result db ∷ [];
}
