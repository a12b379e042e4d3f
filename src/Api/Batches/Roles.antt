-- ===== src/Api/Batches/Roles.antt =====
-- Who may call the bulk routes of app/api/findings.py, and what they keep.
use iam_sentinel_ese.Api.Batches.{
  BatchResponse, answered, batch_forbidden, bulk_accept_risk_route, bulk_assign_route,
  bulk_suppress_route, bulk_transition_route, guarded_batch,
}
use iam_sentinel_ese.Bulk.{BulkResult, bulk_exception}
use iam_sentinel_ese.Bulk.Kept.{bulk_exception-IsSound}
use iam_sentinel_ese.Domain.Enums.{Status}
use iam_sentinel_ese.Exceptions.Revoke.{IsSound}
use iam_sentinel_ese.Models.{Session, User}
use iam_sentinel_ese.Prelude.{
  Bool, List, Option, String, arith, false, if◌then◌else◌, none, not, some, true, ℕ, ◌≡◌,
}
use iam_sentinel_ese.Prelude.Text.{before}
use iam_sentinel_ese.Rbac.{Capability, accept_risk_create, at_least, required}

guarded_batch-keeps :
    (P : Session → Type 0) (capability : Capability) (actor : User)
    (call : Session → BulkResult × Session) (s : Session)
    → P s
    → P (call s).1
    → P (guarded_batch capability actor call s).1
unfolding guarded_batch
guarded_batch-keeps P capability actor call s before after =
    kept (not (at_least s.public_mode (some actor.role) (required capability)))
  where
    kept :
        (b : Bool)
        → P
            (if◌then◌else◌ {A = BatchResponse × Session} b
              (batch_forbidden, s)
              (answered (call s).0, (call s).1)).1
    kept true = before
    kept false = after

-- Suppressing or accepting a risk in bulk through the routes keeps the tables sound, whoever calls
-- and whichever items fail.
pub bulk_exception_routes-IsSound :
    (actor : User) (ids : List ℕ) (reason : String) (expires_at : Option String) (s : Session)
    → IsSound s
    → IsSound (bulk_suppress_route actor ids reason s).1
      × IsSound (bulk_accept_risk_route actor ids reason expires_at s).1
unfolding bulk_suppress_route bulk_accept_risk_route
bulk_exception_routes-IsSound actor ids reason expires_at s h = (
  guarded_batch-keeps IsSound Capability.suppress actor
      (bulk_exception ids Status.suppressed reason actor.id (some actor.role) none) s h
      (batch Status.suppressed none),
  guarded_batch-keeps IsSound accept_risk_create actor
      (bulk_exception ids Status.accepted_risk reason actor.id (some actor.role) expires_at) s h
      (batch Status.accepted_risk expires_at),
)
  where
    batch :
        (st : Status) (until : Option String)
        → IsSound (bulk_exception ids st reason actor.id (some actor.role) until s).1
    batch st until = bulk_exception-IsSound ids st reason actor.id (some actor.role) until s h

-- In public mode the bulk routes answer `batch_forbidden` and change nothing, whoever calls.
pub bulk_routes_frozen :
    (actor : User) (ids : List ℕ) (st : Status) (memo : Option String) (assignee : Option ℕ)
    (reason : String) (expires_at : Option String) (s : Session)
    → s.public_mode ≡ true
    → (bulk_transition_route actor ids st memo s ≡ (batch_forbidden, s))
      × (bulk_assign_route actor ids assignee s ≡ (batch_forbidden, s))
      × (bulk_suppress_route actor ids reason s ≡ (batch_forbidden, s))
      × (bulk_accept_risk_route actor ids reason expires_at s ≡ (batch_forbidden, s))
unfolding bulk_transition_route bulk_assign_route bulk_suppress_route bulk_accept_risk_route
    required at_least
bulk_routes_frozen actor ids st memo assignee reason expires_at s h =
    (ground arith, ground arith, ground arith, ground arith)
