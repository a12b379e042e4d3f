-- ===== src/Models.antt =====
-- app/models/tables.py: the rows of the tables that the findings services read and write, and a
-- `Session` that holds the tables together with what the services read from their surroundings.
-- Tables are lists in primary-key order. Columns that no modelled code looks into are left out.
use iam_sentinel_ese.Table
use iam_sentinel_ese.Domain.Enums.{Category, Severity, Status}
use iam_sentinel_ese.Json.{Fields}
use iam_sentinel_ese.Prelude.{Bool, List, Option, String, ℕ}
use iam_sentinel_ese.Rbac.{Role}

-- `FindingGroup`
pub record Group : Type 0 where
  pub id : ℕ
  pub account_id : ℕ
  pub fingerprint : String
  pub check_id : String
  pub principal_uid : Option String
  pub first_seen_run : Option ℕ
  pub last_seen_run : Option ℕ
  pub current_status : Status
  pub assignee_id : Option ℕ

-- `Finding`, the snapshot of a group in one run
pub record Finding : Type 0 where
  pub run_id : ℕ
  pub group_id : ℕ
  pub check_id : String
  pub title : String
  pub severity : Severity
  pub category : Category
  pub principal_uid : Option String
  pub resource : Option String
  pub policy_uid : Option String
  pub risk_score : ℕ
  pub likelihood : ℕ
  pub impact : ℕ
  pub evidence : Fields
  pub recommendation : String
  pub remediation_snippet : Option String
  pub compliance_tags : List String
  pub status : Status

-- `FindingStatusHistory`
pub record History : Type 0 where
  pub group_id : ℕ
  pub from_status : Option Status
  pub to_status : Status
  pub actor_id : Option ℕ
  pub note : Option String

-- `FindingComment`
pub record Comment : Type 0 where
  pub group_id : ℕ
  pub author_id : ℕ
  pub body : String

-- `FindingException`; `expires_at` holds the code points of the stored text
pub record Exception : Type 0 where
  pub id : ℕ
  pub group_id : ℕ
  pub kind : Status
  pub reason : String
  pub created_by : ℕ
  pub expires_at : Option (List ℕ)
  pub revoked_at : Option String

-- `AppUser`
pub record User : Type 0 where
  pub id : ℕ
  pub email : String
  pub display_name : String
  pub role : Role
  pub password_hash : String
  pub is_active : Bool

-- the `target` texts `finding_group:<id>` and `app_user:<id>`
pub data Target : Type 0 where
  group_target user_target : ℕ → Target

-- what the three bulk services add to the metadata of their event
pub data BatchMeta : Type 0 where
  to_meta : Status → BatchMeta
  assignee_meta : Option ℕ → BatchMeta
  exception_meta : String → Option String → BatchMeta

-- the `event_metadata` dictionaries that the services write
pub data Metadata : Type 0 where
  no_metadata : Metadata
  assignment : Option ℕ → Option String → Option ℕ → Option String → Metadata
  batch : List ℕ → ℕ → BatchMeta → Metadata
  created : String → Role → Metadata
  role_change : Role → Role → Metadata

-- `AuditEvent`
pub record AuditEvent : Type 0 where
  pub actor_id : Option ℕ
  pub action : String
  pub target : Option Target
  pub event_metadata : Metadata

-- `now` is what `now_iso()` returns, `public_mode` what `get_settings().public_mode` does.
pub record Session : Type 0 where
  pub now : String
  pub public_mode : Bool
  pub groups : List Group
  pub findings : List Finding
  pub history : List History
  pub comments : List Comment
  pub exceptions : List Exception
  pub users : List User
  pub audit : List AuditEvent

-- `session.get(FindingGroup, id)`
abbrev pub get_group : ℕ → List Group → Option Group
get_group = Table.get (λ g. g.id)

-- an assignment to the columns of one group
abbrev pub update_group : ℕ → (Group → Group) → List Group → List Group
update_group = Table.update (λ g. g.id)

abbrev pub fresh_group_id : List Group → ℕ
fresh_group_id = Table.fresh (λ g. g.id)

-- `session.get(AppUser, id)`
abbrev pub get_user : ℕ → List User → Option User
get_user = Table.get (λ u. u.id)

abbrev pub update_user : ℕ → (User → User) → List User → List User
update_user = Table.update (λ u. u.id)

abbrev pub fresh_user_id : List User → ℕ
fresh_user_id = Table.fresh (λ u. u.id)

abbrev pub update_exception : ℕ → (Exception → Exception) → List Exception → List Exception
update_exception = Table.update (λ e. e.id)

abbrev pub fresh_exception_id : List Exception → ℕ
fresh_exception_id = Table.fresh (λ e. e.id)
