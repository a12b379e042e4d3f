-- ===== src/Bulk.antt =====
-- app/services/bulk_service.py: the single-finding services, one item after the other.
pub mod Batch
pub mod Kept
use Prim.Native.String.{◌++◌ as text_append}
use iam_sentinel_ese.Collaboration.{assign}
use iam_sentinel_ese.Domain.Enums.{Status}
use iam_sentinel_ese.Exceptions.{create_exception}
use iam_sentinel_ese.Models.{
  BatchMeta, Group, Session, assignee_meta, batch, exception_meta, get_group, to_meta,
}
use iam_sentinel_ese.Prelude.{List, Option, String, [], length, none, some, ℕ, ◌++◌, ◌∷◌}
use iam_sentinel_ese.Rbac.{Role}
use iam_sentinel_ese.Service.{Action, Error, Result, err, ok, ⊤}
use iam_sentinel_ese.Workflow.{transition}

-- why an item failed: `"not found"`, or `str(exc)` of what it raised
pub data Failure : Type 0 where
  not_found : Failure
  raised : Error → Failure

-- `BulkResult`
pub record BulkResult : Type 0 where
  pub action : String
  pub succeeded : List ℕ
  pub failed : List (ℕ × Failure)

-- an item's outcome, added to what the loop has so far
abbrev pub tally : ℕ → Result ⊤ → BulkResult → BulkResult
tally gid (ok _) result = record result { succeeded = result.succeeded ++ gid ∷ [] }
tally gid (err e) result = record result { failed = result.failed ++ (gid, raised e) ∷ [] }

abbrev pub unknown_item : ℕ → BulkResult → BulkResult
unknown_item gid result = record result { failed = result.failed ++ (gid, not_found) ∷ [] }

-- One round of the loop, by what `session.get` found: what the service wrote stays, also where it
-- raised.
unfoldable pub bulk_found :
    (ℕ → Action ⊤) → ℕ → Option Group → BulkResult → Session → BulkResult × Session
bulk_found service gid none result s = (unknown_item gid result, s)
bulk_found service gid (some group) result s =
    let (r, s') = service gid s in (tally gid r result, s')

unfoldable pub bulk_item : (ℕ → Action ⊤) → ℕ → BulkResult × Session → BulkResult × Session
unfolding bulk_found
bulk_item service gid (result, s) = bulk_found service gid (get_group gid s.groups) result s

-- the loop of the three bulk services
unfoldable pub bulk_each : (ℕ → Action ⊤) → List ℕ → BulkResult × Session → BulkResult × Session
bulk_each service [] acc = acc
bulk_each service (gid ∷ rest) acc = bulk_each service rest (bulk_item service gid acc)

abbrev pub empty_result : String → BulkResult
empty_result action = record { action = action; succeeded = []; failed = [] }

-- `f"bulk_{action}"`
abbrev pub bulk_action : String → String
bulk_action action = text_append "bulk_" action

-- `_record_batch_event`
unfoldable pub record_batch_event :
    Option ℕ → String → BatchMeta → BulkResult × Session → BulkResult × Session
record_batch_event actor_id action meta (result, s) = elim result.succeeded [
  | [] ↦ (result, s)
  | gid ∷ rest ↦ (
    result,
    record s {
      audit =
          s.audit
          ++ record {
            actor_id = actor_id;
            action = bulk_action action;
            target = none;
            event_metadata = batch (gid ∷ rest) (length (gid ∷ rest)) meta;
          }
            ∷ [];
    },
  )
]

unfoldable pub bulk_transition :
    List ℕ → Status → Option ℕ → Option String → Session → BulkResult × Session
bulk_transition group_ids to_status actor_id memo s =
    record_batch_event actor_id "transition" (to_meta to_status) (
      bulk_each (λ gid. transition gid to_status actor_id memo) group_ids
        (empty_result "transition", s))

unfoldable pub bulk_assign : List ℕ → Option ℕ → Option ℕ → Session → BulkResult × Session
bulk_assign group_ids assignee_id actor_id s =
    record_batch_event actor_id "assign" (assignee_meta assignee_id)
      (bulk_each (λ gid. assign gid assignee_id actor_id) group_ids (empty_result "assign", s))

-- `action=kind`
abbrev pub kind_action : Status → String
kind_action Status.suppressed = "suppressed"
kind_action Status.accepted_risk = "accepted_risk"
kind_action Status.opened = "open"
kind_action Status.investigating = "investigating"
kind_action Status.resolved = "resolved"
kind_action (Status.other text) = text

unfoldable pub bulk_exception :
    List ℕ → Status → String → ℕ → Option Role → Option String → Session → BulkResult × Session
bulk_exception group_ids kind reason actor_id actor_role expires_at s =
    record_batch_event (some actor_id) (kind_action kind) (exception_meta reason expires_at) (
      bulk_each (λ gid. create_exception gid kind reason actor_id actor_role expires_at) group_ids
        (empty_result (kind_action kind), s))
