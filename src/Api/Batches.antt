-- ===== src/Api/Batches.antt =====
-- The bulk routes of app/api/findings.py. An item that fails is part of the answer, so nothing is
-- rolled back. The assignee comes as `_parse_assignee` has read it.
pub mod Roles
pub mod Stale
use iam_sentinel_ese.Bulk.{BulkResult, bulk_assign, bulk_exception, bulk_transition}
use iam_sentinel_ese.Domain.Enums.{Status}
use iam_sentinel_ese.Models.{Session, User}
use iam_sentinel_ese.Prelude.{List, Option, String, if◌then◌else◌, none, not, some, ℕ}
use iam_sentinel_ese.Rbac.{Capability, accept_risk_create, at_least, required, workflow_transition}

-- `forbidden`, or the result of the batch
pub data BatchResponse : Type 0 where
  batch_forbidden : BatchResponse
  answered : BulkResult → BatchResponse

-- `require_api_role` before the batch
unfoldable pub guarded_batch :
    Capability → User → (Session → BulkResult × Session) → Session → BatchResponse × Session
guarded_batch capability actor call s =
    let (r, s') = call s in
    if not (at_least s.public_mode (some actor.role) (required capability))
    then (batch_forbidden, s)
    else (answered r, s')

unfoldable pub bulk_transition_route :
    User → List ℕ → Status → Option String → Session → BatchResponse × Session
unfolding guarded_batch
bulk_transition_route actor group_ids to_status memo =
    guarded_batch workflow_transition actor
      (bulk_transition group_ids to_status (some actor.id) memo)

unfoldable pub bulk_assign_route : User → List ℕ → Option ℕ → Session → BatchResponse × Session
unfolding guarded_batch
bulk_assign_route actor group_ids assignee_id =
    guarded_batch Capability.assign actor (bulk_assign group_ids assignee_id (some actor.id))

unfoldable pub bulk_suppress_route : User → List ℕ → String → Session → BatchResponse × Session
unfolding guarded_batch
bulk_suppress_route actor group_ids reason =
    guarded_batch Capability.suppress actor
      (bulk_exception group_ids Status.suppressed reason actor.id (some actor.role) none)

unfoldable pub bulk_accept_risk_route :
    User → List ℕ → String → Option String → Session → BatchResponse × Session
unfolding guarded_batch
bulk_accept_risk_route actor group_ids reason expires_at =
    guarded_batch accept_risk_create actor
      (bulk_exception group_ids Status.accepted_risk reason actor.id (some actor.role) expires_at)
