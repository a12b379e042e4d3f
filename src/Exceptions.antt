-- ===== src/Exceptions.antt =====
-- app/services/exception_service.py: suppression, accepted risk, and expiry that re-surfaces.
pub mod Create
pub mod Effect
pub mod Active
pub mod Coverage
pub mod Reopen
pub mod Revoke
pub mod Sound
pub mod Expiry
pub mod Resurface
pub mod Cleared
pub mod Due
pub mod Stored
use iam_sentinel_ese.Domain.Dates.{Date, Text, from_isoformat, isoformat, text_leb}
use iam_sentinel_ese.Domain.Enums.{Status, severity_eq, status_eq}
use iam_sentinel_ese.Models.{
  Exception, Group, Session, fresh_exception_id, get_group, update_exception,
}
use iam_sentinel_ese.Prelude.{
  Bool, List, Option, String, [], contains, false, filter_by, if◌then◌else◌, nat_eq, none, not,
  option_eq, some, string_eq, ℕ, ◌&&◌, ◌++◌, ◌==◌, ◌∷◌,
}
use iam_sentinel_ese.Prelude.Text.{codes, is_empty, strip}
use iam_sentinel_ese.Rbac.{Minimum, Role, at_least, role_eq}
use iam_sentinel_ese.Service.{
  Action, Result, err, gets, invalid_expiry, invalid_kind, lift, modify, ok, permission_denied,
  pure, raise_if, reason_required, ⊤, ◌>>=◌, ◌>>◌,
}
use iam_sentinel_ese.Workflow.{transition}

-- `EXCEPTION_STATUSES`
abbrev pub exception_statuses : List Status
exception_statuses = Status.suppressed ∷ Status.accepted_risk ∷ []

-- `status in EXCEPTION_STATUSES`
unfoldable pub is_exception_status : Status → Bool
is_exception_status status = contains status exception_statuses

-- `_validate_expiry`, with its `ExceptionError` as the error of the result
unfoldable pub validate_expiry : Option String → Result (Option Text)
validate_expiry none = ok none
validate_expiry (some text) =
    if is_empty text then ok none else elim (from_isoformat (codes (strip text))) [
      | none ↦ err (invalid_expiry text)
      | some date ↦ ok (some (isoformat date))
    ]

-- the new row of `finding_exception`
abbrev pub new_row : ℕ → Status → String → ℕ → Option Text → List Exception → Exception
new_row gid kind reason actor_id expiry exceptions = record {
  id = fresh_exception_id exceptions;
  group_id = gid;
  kind = kind;
  reason = reason;
  created_by = actor_id;
  expires_at = expiry;
  revoked_at = none;
}

abbrev pub new_exception : ℕ → Status → String → ℕ → Option Text → Session → Session
new_exception gid kind reason actor_id expiry s = record s {
  exceptions = s.exceptions ++ new_row gid kind reason actor_id expiry s.exceptions ∷ [];
}

-- only an admin may accept a risk, where the caller's role is given
unfoldable pub may_not_accept : Bool → Status → Option Role → Bool
may_not_accept public_mode kind none = false
may_not_accept public_mode kind (some role) =
    (kind == Status.accepted_risk) && not (at_least public_mode (some role) Minimum.admin)

unfoldable pub create_exception : ℕ → Status → String → ℕ → Option Role → Option String → Action ⊤
create_exception gid kind reason actor_id actor_role expires_at = do
  raise_if (not (is_exception_status kind)) (invalid_kind kind)
  public_mode ← gets (λ s. s.public_mode)
  raise_if (may_not_accept public_mode kind actor_role) permission_denied
  let clean_reason = strip reason
  raise_if (is_empty clean_reason) reason_required
  clean_expiry ← lift (validate_expiry expires_at)
  transition gid kind (some actor_id) (some clean_reason)
  modify (new_exception gid kind clean_reason actor_id clean_expiry)

-- an unrevoked exception of this group
abbrev pub is_active_of : ℕ → Exception → Bool
is_active_of gid e = (e.group_id == gid) && (e.revoked_at == none)

-- `active_exception`: the first of the rows that match, in key order
abbrev pub first_active : ℕ → List Exception → Option Exception
first_active gid [] = none
first_active gid (e ∷ es) = if is_active_of gid e then some e else first_active gid es

unfoldable pub active_exception : ℕ → Session → Option Exception
active_exception gid s = first_active gid s.exceptions

-- `exc.revoked_at = now_iso()`
abbrev pub revoke : ℕ → Session → Session
revoke i s = record s {
  exceptions = update_exception i (λ e. record e { revoked_at = some s.now }) s.exceptions;
}

abbrev pub revoke_if_any : Option Exception → Session → Session
revoke_if_any none s = s
revoke_if_any (some e) s = revoke e.id s

unfoldable pub revoke_exception : ℕ → Option ℕ → String → Action ⊤
unfolding active_exception
revoke_exception gid actor_id memo = do
  active ← gets (active_exception gid)
  modify (revoke_if_any active)
  transition gid Status.opened actor_id (some memo)

-- the candidates of `expire_exceptions`, `cutoff` being today's ISO text
abbrev pub has_expired : Text → Option Text → Bool
has_expired cutoff none = false
has_expired cutoff (some text) = text_leb text cutoff

abbrev pub is_candidate : Text → Exception → Bool
is_candidate cutoff e = (e.revoked_at == none) && has_expired cutoff e.expires_at

abbrev pub reopen_expired : Option Group → Action (List ℕ)
reopen_expired none = pure []
reopen_expired (some group) =
    if is_exception_status group.current_status
    then (do
      transition group.id Status.opened none (some "Exception expired, auto-reopened")
      pure (group.id ∷ []))
    else pure []

-- one round of the loop
unfoldable pub expire_one : Exception → Action (List ℕ)
expire_one exc = do
  modify (revoke exc.id)
  group ← gets (λ s. get_group exc.group_id s.groups)
  reopen_expired group

pub expire_each : List Exception → Action (List ℕ)
expire_each [] = pure []
expire_each (exc ∷ rest) = do
  reopened ← expire_one exc
  others ← expire_each rest
  pure (reopened ++ others)

unfoldable pub expire_exceptions : Date → Action (List ℕ)
unfolding expire_each
expire_exceptions today = do
  candidates ← gets (λ s. filter_by (is_candidate (isoformat today)) s.exceptions)
  expire_each candidates
