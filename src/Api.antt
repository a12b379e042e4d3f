-- ===== src/Api.antt =====
-- The routes of app/api/findings.py that change a finding, up to the JSON that they answer with.
-- `require_api_role` guards them, and `session_scope` (app/db.py) rolls back what a call wrote
-- before it raised. Authentication has already named the caller.
pub mod Findings
pub mod Sound
pub mod Batches
use iam_sentinel_ese.Collaboration.{add_comment}
use iam_sentinel_ese.Domain.Enums.{Status, status_eq}
use iam_sentinel_ese.Exceptions.{create_exception, is_exception_status, revoke_exception}
use iam_sentinel_ese.Models.{Finding, Group, Session, User, get_group}
use iam_sentinel_ese.Prelude.{
  Bool, Option, String, any, false, if◌then◌else◌, nat_eq, none, not, option_eq, some, string_eq, ℕ,
  ◌&&◌, ◌==◌,
}
use iam_sentinel_ese.Prelude.Text.{is_empty}
use iam_sentinel_ese.Rbac.{
  Capability, accept_risk_create, at_least, comment, required, role_eq, workflow_transition,
}
use iam_sentinel_ese.Service.{
  Action, Error, attached, err, invalid_transition, ok, permission_denied, ⊤, ◌>>=◌, ◌>>◌,
}
use iam_sentinel_ese.Workflow.{transition}

-- the status of the answer, with what was raised
pub data Response : Type 0 where
  success : Response
  forbidden not_found : Response
  conflict bad_request denied : Error → Response

-- `api_error` for what the services raise: 409, 403 or 400
abbrev pub failure : Error → Response
failure (invalid_transition a b) = conflict (invalid_transition a b)
failure permission_denied = denied permission_denied
failure e = bad_request e

-- `with session_scope() as session`: commit, or roll back and answer with the failure
unfoldable pub in_scope : Action ⊤ → Session → Response × Session
in_scope call s = let (r, s') = call s in elim r [ ok _ ↦ (success, s') | err e ↦ (failure e, s) ]

-- `get_finding_detail` finds a group that has a snapshot
abbrev pub has_detail : ℕ → Session → Bool
has_detail gid s = elim (get_group gid s.groups) [
  | none ↦ false
  | some g ↦ any (λ (f : Finding). f.group_id == g.id) s.findings
]

-- `require_api_role` and `_detail_or_404` before the call
unfoldable pub guarded : Capability → User → ℕ → Action ⊤ → Session → Response × Session
guarded capability actor gid call s =
    if not (at_least s.public_mode (some actor.role) (required capability))
    then (forbidden, s)
    else if not (has_detail gid s)
    then (not_found, s)
    else in_scope call s

-- `payload["note"] or "Exception revoked"`
abbrev pub revoke_note : Option String → String
revoke_note none = "Exception revoked"
revoke_note (some text) = if is_empty text then "Exception revoked" else text

-- what `transition_route` does with the group: a reopening closes the exception too
abbrev pub move_found : ℕ → Status → ℕ → Option String → Group → Action ⊤
move_found gid to_status actor_id memo group =
    if (to_status == Status.opened) && is_exception_status group.current_status
    then revoke_exception gid (some actor_id) (revoke_note memo)
    else transition gid to_status (some actor_id) memo

unfoldable pub move_group : ℕ → Status → ℕ → Option String → Action ⊤
move_group gid to_status actor_id memo = do
  group ← attached gid
  move_found gid to_status actor_id memo group

unfoldable pub transition_route : User → ℕ → Status → Option String → Session → Response × Session
unfolding guarded
transition_route actor gid to_status memo =
    guarded workflow_transition actor gid (move_group gid to_status actor.id memo)

-- `_apply_exception_route`
unfoldable pub apply_exception : User → ℕ → Status → String → Option String → Action ⊤
apply_exception actor gid kind reason expires_at =
    create_exception gid kind reason actor.id (some actor.role) expires_at

unfoldable pub suppress_route : User → ℕ → String → Session → Response × Session
unfolding guarded
suppress_route actor gid reason =
    guarded Capability.suppress actor gid (apply_exception actor gid Status.suppressed reason none)

unfoldable pub accept_risk_route : User → ℕ → String → Option String → Session → Response × Session
unfolding guarded
accept_risk_route actor gid reason expires_at =
    guarded accept_risk_create actor gid
      (apply_exception actor gid Status.accepted_risk reason expires_at)

unfoldable pub comment_route : User → ℕ → String → Session → Response × Session
unfolding guarded
comment_route actor gid body = guarded comment actor gid (add_comment gid actor.id body)
