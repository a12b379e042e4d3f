-- ===== src/Exceptions/Sound.antt =====
-- The tables after `create_exception` of app/services/exception_service.py.
use iam_sentinel_ese.Exceptions.Create
use iam_sentinel_ese.Domain.Enums.{Status, status_eq}
use iam_sentinel_ese.Exceptions.{create_exception, is_exception_status}
use iam_sentinel_ese.Exceptions.Coverage.{create_exception-IsCovered}
use iam_sentinel_ese.Exceptions.Create.{create_exception-Outcome}
use iam_sentinel_ese.Exceptions.Revoke.{IsSound}
use iam_sentinel_ese.Models.{Group, Session}
use iam_sentinel_ese.Prelude.{
  Option, String, arith, contains, nat_eq, option_eq, some, string_eq, true, ℕ, ◌≡◌,
}
use iam_sentinel_ese.Prelude.Text.{strip}
use iam_sentinel_ese.Rbac.{Role, role_eq}
use iam_sentinel_ese.Service.{Result, ⊤}
use iam_sentinel_ese.Table.Laws.{get-key}
use iam_sentinel_ese.Trail.{IsConsistent}
use iam_sentinel_ese.Trail.Transition.{write_transition-IsConsistent}
use iam_sentinel_ese.Workflow.{allowed_transitions}

-- The open state may be left for either exception state.
open_allows :
    (kind : Status)
    → is_exception_status kind ≡ true
    → contains kind (allowed_transitions Status.opened) ≡ true
unfolding is_exception_status
open_allows kind h = ground arith

create-IsConsistent :
    (gid : ℕ) (kind : Status) (reason : String) (actor_id : ℕ) (actor_role : Option Role)
    (expires_at : Option String) (s : Session) {r : Result ⊤ × Session}
    → IsConsistent s
    → Create.Outcome gid kind reason actor_id actor_role expires_at s r
    → IsConsistent r.1
create-IsConsistent gid kind reason actor_id role expires_at s c (Create.refused e why) = c
create-IsConsistent gid kind reason actor_id role expires_at s c
      (Create.created g expiry found was_open h) =
    let may : contains kind (allowed_transitions g.current_status) ≡ true =
      rw was_open (open_allows kind h.is_kind) in
    let w =
      write_transition-IsConsistent g kind (some actor_id) (some (strip reason)) s
        (get-key (λ (q : Group). q.id) gid s.groups g found) may c in
    record {
      distinct = w.distinct;
      audited = w.audited;
      mirrored = w.mirrored;
      history_known = w.history_known;
      findings_known = w.findings_known;
    }

pub create_exception-IsConsistent :
    (gid : ℕ) (kind : Status) (reason : String) (actor_id : ℕ) (actor_role : Option Role)
    (expires_at : Option String) (s : Session)
    → IsConsistent s
    → IsConsistent (create_exception gid kind reason actor_id actor_role expires_at s).1
create_exception-IsConsistent gid kind reason actor_id role expires_at s c =
    create-IsConsistent gid kind reason actor_id role expires_at s c
      (create_exception-Outcome gid kind reason actor_id role expires_at s)

-- Suppressing a finding or accepting its risk keeps the audit trail, the mirror, and the agreement
-- of exceptions and statuses, also where the call is refused.
pub create_exception-IsSound :
    (gid : ℕ) (kind : Status) (reason : String) (actor_id : ℕ) (actor_role : Option Role)
    (expires_at : Option String) (s : Session)
    → IsSound s
    → IsSound (create_exception gid kind reason actor_id actor_role expires_at s).1
create_exception-IsSound gid kind reason actor_id role expires_at s h = record {
  consistent =
      create_exception-IsConsistent gid kind reason actor_id role expires_at s h.consistent;
  covered =
      create_exception-IsCovered gid kind reason actor_id role expires_at s h.consistent.distinct
        h.covered (create_exception-Outcome gid kind reason actor_id role expires_at s);
}
