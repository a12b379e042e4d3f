-- ===== src/Runs.antt =====
-- The tables around a scan in app/models/tables.py: accounts, runs and what a run persists. The tables
-- of findings and groups are those of `Models`.
pub mod Persist
pub mod Execute
pub mod Finished
pub mod Phases
pub mod Queue
pub mod Enqueued
use iam_sentinel_ese.Table
use iam_sentinel_ese.Checks.{GraphEdge}
use iam_sentinel_ese.Domain.Enums.{RunStatus, Status}
use iam_sentinel_ese.Json.{Fields, Value}
use iam_sentinel_ese.Models.{Session}
use iam_sentinel_ese.Prelude.{Bool, List, Option, String, ℕ}

pub record Account : Type 0 where
  pub id : ℕ
  pub source_type : String
  pub source_config : Fields

pub record Run : Type 0 where
  pub id : ℕ
  pub account_id : ℕ
  pub status : RunStatus
  pub trigger : String
  pub triggered_by : Option ℕ
  pub thresholds : Fields
  pub started_at : Option String
  pub finished_at : Option String
  pub duration_ms : Option ℕ
  pub error_message : Option String
  pub progress_pct : ℕ
  pub progress_stage : Option String
  pub composite_score : Option ℕ

pub record RunSummary : Type 0 where
  pub run_id : ℕ
  pub total_findings : ℕ
  pub count_low : ℕ
  pub count_medium : ℕ
  pub count_high : ℕ
  pub count_critical : ℕ
  pub counts_by_category : List (String × ℕ)
  pub counts_by_status : List (Status × ℕ)
  pub compliance_summary : List (String × ℕ)
  pub new_count : Option ℕ
  pub resolved_count : Option ℕ
  pub principals_total : ℕ
  pub principals_at_risk : ℕ

-- `Principal`
pub record PrincipalRow : Type 0 where
  pub run_id : ℕ
  pub principal_uid : String
  pub kind : String
  pub username : Option String
  pub email : Option String
  pub arn : Option String
  pub role : Option String
  pub account_type : Option String
  pub active : Bool
  pub console_access : Bool
  pub mfa_enabled : Bool
  pub last_login : Option String
  pub password_last_changed : Option String
  pub access_key_age_days : Option ℕ
  pub attached_policy_ids : List String
  pub blast_radius_score : ℕ
  pub reachable_actions : ℕ
  pub reachable_sensitive : ℕ
  pub raw : Fields

-- `Policy`
pub record PolicyRow : Type 0 where
  pub run_id : ℕ
  pub policy_uid : String
  pub name : String
  pub kind : Option String
  pub document : Value
  pub statement_count : ℕ
  pub has_wildcard_action : Bool
  pub has_wildcard_resource : Bool
  pub uses_not_action : Bool

-- `LogEvent`
pub record LogEventRow : Type 0 where
  pub run_id : ℕ
  pub ts : Option String
  pub principal_uid : Option String
  pub source_ip : Option String
  pub event_name : Option String
  pub event_source : Option String
  pub outcome : Option String
  pub is_privileged : Bool
  pub is_sensitive_iam : Bool
  pub raw : Fields

-- `PermissionEdge`: a graph edge of a run
pub record EdgeRow : Type 0 where
  pub run_id : ℕ
  pub edge : GraphEdge

-- the tables
pub record Database : Type 0 where
  pub tables : Session
  pub accounts : List Account
  pub runs : List Run
  pub summaries : List RunSummary
  pub principals : List PrincipalRow
  pub policies : List PolicyRow
  pub log_events : List LogEventRow
  pub edges : List EdgeRow

abbrev pub get_account : ℕ → List Account → Option Account
get_account = Table.get (λ a. a.id)

-- `session.get(Run, id)`
abbrev pub get_run : ℕ → List Run → Option Run
get_run = Table.get (λ r. r.id)

abbrev pub update_run : ℕ → (Run → Run) → List Run → List Run
update_run = Table.update (λ r. r.id)

abbrev pub fresh_run_id : List Run → ℕ
fresh_run_id = Table.fresh (λ r. r.id)
