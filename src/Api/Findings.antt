-- ===== src/Api/Findings.antt =====
-- What the roles can and cannot do through the routes of app/api/findings.py.
use iam_sentinel_ese.Workflow.Machine
use iam_sentinel_ese.Api.{
  accept_risk_route, comment_route, forbidden, has_detail, in_scope, move_group, success,
  suppress_route, transition_route,
}
use iam_sentinel_ese.Domain.Enums.{Status}
use iam_sentinel_ese.Exceptions.Reopen.{group_key}
use iam_sentinel_ese.Models.{Group, Session, User, get_group}
use iam_sentinel_ese.Prelude.{Option, String, arith, false, refl, some, true, ℕ, ◌≡◌, ◌≢◌, ◌⊎◌}
use iam_sentinel_ese.Rbac.{Role, at_least, required}
use iam_sentinel_ese.Rbac.Ladder.{admin_only}
use iam_sentinel_ese.Table.Laws.{get-update_found}
use iam_sentinel_ese.Workflow.{write_transition}
use iam_sentinel_ese.Workflow.Machine.{moved}

-- A caller who is no admin, and in public mode any caller, gets `forbidden` from the accept-risk
-- route, and nothing changes.
pub accept_risk_route_admin :
    (actor : User) (gid : ℕ) (reason : String) (expires_at : Option String) (s : Session)
    → (actor.role ≢ Role.admin) ⊎ (s.public_mode ≡ true)
    → accept_risk_route actor gid reason expires_at s ≡ (forbidden, s)
unfolding accept_risk_route required
accept_risk_route_admin actor gid reason expires_at s h =
    let no = admin_only s.public_mode actor.role h in ground arith

-- In public mode the transition, suppress, accept-risk and comment routes answer `forbidden` and
-- change nothing, whoever calls.
pub public_mode_frozen :
    (actor : User) (gid : ℕ) (st : Status) (memo : Option String) (text : String)
    (expires_at : Option String) (s : Session)
    → s.public_mode ≡ true
    → (transition_route actor gid st memo s ≡ (forbidden, s))
      × (suppress_route actor gid text s ≡ (forbidden, s))
      × (accept_risk_route actor gid text expires_at s ≡ (forbidden, s))
      × (comment_route actor gid text s ≡ (forbidden, s))
unfolding transition_route suppress_route accept_risk_route comment_route required at_least
public_mode_frozen actor gid st memo text expires_at s h =
    (ground arith, ground arith, ground arith, ground arith)

accept_written :
    (actor : User) (gid : ℕ) (memo : Option String) (s : Session) (g : Group)
    → actor.role ≡ Role.analyst
    → s.public_mode ≡ false
    → get_group gid s.groups ≡ some g
    → has_detail gid s ≡ true
    → g.current_status ≡ Status.opened
    → transition_route actor gid Status.accepted_risk memo s
      ≡ (success, write_transition g Status.accepted_risk (some actor.id) memo s)
unfolding transition_route in_scope required at_least move_group
accept_written actor gid memo s g role private found detail was_open =
    let moved =
      Machine.transition-moved gid Status.accepted_risk (some actor.id) memo s g found
        (rw was_open refl) in
    ground arith

-- Outside public mode, the transition route lets an analyst accept the risk of an open finding that
-- has a snapshot: it answers with success, the group ends in the accepted state, and no exception row
-- has been written.
pub transition_route_accepts :
    (actor : User) (gid : ℕ) (memo : Option String) (s : Session) (g : Group)
    → actor.role ≡ Role.analyst
    → s.public_mode ≡ false
    → get_group gid s.groups ≡ some g
    → has_detail gid s ≡ true
    → g.current_status ≡ Status.opened
    → let (r, s') = transition_route actor gid Status.accepted_risk memo s in
      (r ≡ success)
      × (get_group gid s'.groups ≡ some (record g { current_status = Status.accepted_risk }))
      × (s'.exceptions ≡ s.exceptions)
unfolding write_transition
transition_route_accepts actor gid memo s g role private found detail was_open =
    rw (accept_written actor gid memo s g role private found detail was_open) (
      refl,
      get-update_found group_key gid (λ q. record q { current_status = Status.accepted_risk })
          s.groups g (λ r. refl) found,
      refl,
    )
