-- ===== src/Exceptions/Create.antt =====
-- What `create_exception` of app/services/exception_service.py promises.
use iam_sentinel_ese.Workflow.Machine
use mathlib.Core.Bool.{false≢true}
use iam_sentinel_ese.Domain.Dates.{Text, from_isoformat}
use iam_sentinel_ese.Domain.Enums.{Status, severity_eq, status_eq}
use iam_sentinel_ese.Exceptions.{
  create_exception, is_exception_status, may_not_accept, new_exception, validate_expiry,
}
use iam_sentinel_ese.Models.{Group, Session, get_group}
use iam_sentinel_ese.Prelude.{
  Bool, Bool-cases, Option, String, arith, false, inl, inr, nat_eq, none, option_eq, refl, some,
  string_eq, true, ℕ, ◌≡◌, ◌≢◌, ◌⊎◌,
}
use iam_sentinel_ese.Prelude.Text.{codes, is_empty, strip}
use iam_sentinel_ese.Rbac.{Role, at_least, role_eq}
use iam_sentinel_ese.Rbac.Ladder.{admin_only}
use iam_sentinel_ese.Service.{
  Error, Result, Result-cases, detached, err, invalid_expiry, invalid_kind, invalid_transition, ok,
  permission_denied, reason_required, ⊤,
}
use iam_sentinel_ese.Workflow.{transition, write_transition}
use iam_sentinel_ese.Workflow.Machine.{Allowed}

-- The checks that stand before the state machine.
pub record IsAdmissible (gid : ℕ) (kind : Status) (reason : String) (actor_role : Option Role)
    (expires_at : Option String) (expiry : Option Text) (s : Session) : Type 0 where
  pub is_kind : is_exception_status kind ≡ true
  pub may_accept : may_not_accept s.public_mode kind actor_role ≡ false
  pub has_reason : is_empty (strip reason) ≡ false
  pub has_expiry : validate_expiry expires_at ≡ ok expiry

-- Why a call is refused, and what it then raises.
pub data IsRefused (gid : ℕ) (kind : Status) (reason : String) (actor_role : Option Role)
    (expires_at : Option String) (s : Session) : Error → Type 0 where
  wrong_kind :
      kind ≢ Status.suppressed
      → kind ≢ Status.accepted_risk
      → IsRefused gid kind reason actor_role expires_at s (invalid_kind kind)
  not_admin :
      (role : Role)
      → kind ≡ Status.accepted_risk
      → actor_role ≡ some role
      → (role ≢ Role.admin) ⊎ (s.public_mode ≡ true)
      → IsRefused gid kind reason actor_role expires_at s permission_denied
  no_reason :
      is_empty (strip reason) ≡ true
      → IsRefused gid kind reason actor_role expires_at s reason_required
  bad_expiry :
      (text : String)
      → expires_at ≡ some text
      → from_isoformat (codes (strip text)) ≡ none
      → IsRefused gid kind reason actor_role expires_at s (invalid_expiry text)
  no_group :
      get_group gid s.groups ≡ none → IsRefused gid kind reason actor_role expires_at s detached
  not_open :
      (g : Group)
      → get_group gid s.groups ≡ some g
      → g.current_status ≢ Status.opened
      → IsRefused gid kind reason actor_role expires_at s (invalid_transition g.current_status kind)

-- What a call of `create_exception` does: it raises and writes nothing, or the group was open, the
-- checks held, and it writes the transition and one active exception.
pub data Outcome (gid : ℕ) (kind : Status) (reason : String) (actor_id : ℕ)
    (actor_role : Option Role) (expires_at : Option String) (s : Session)
    : Result ⊤ × Session → Type 0 where
  refused :
      (e : Error)
      → IsRefused gid kind reason actor_role expires_at s e
      → Outcome gid kind reason actor_id actor_role expires_at s (err e, s)
  created :
      (g : Group) (expiry : Option Text)
      → get_group gid s.groups ≡ some g
      → g.current_status ≡ Status.opened
      → IsAdmissible gid kind reason actor_role expires_at expiry s
      → Outcome gid kind reason actor_id actor_role expires_at s (
        ok tt,
        new_exception gid kind
            (strip reason)
            actor_id
            expiry
            (write_transition g kind (some actor_id) (some (strip reason)) s),
      )

-- an exception is created from the open state only
from_open : (a kind : Status) → is_exception_status kind ≡ true → Allowed a kind → a ≡ Status.opened
unfolding is_exception_status
from_open a kind h Allowed.start = refl
from_open a kind h Allowed.suppress = refl
from_open a kind h Allowed.accept = refl
from_open a kind h Allowed.resolve = ground arith
from_open a kind h Allowed.put_back = ground arith
from_open a kind h Allowed.reopen_resolved = ground arith
from_open a kind h Allowed.reopen_suppressed = ground arith
from_open a kind h Allowed.reopen_accepted = ground arith

-- The open state may be left for either exception state.
may_leave_open : (kind : Status) → is_exception_status kind ≡ true → Allowed Status.opened kind
unfolding is_exception_status
may_leave_open Status.suppressed h = Allowed.suppress
may_leave_open Status.accepted_risk h = Allowed.accept
may_leave_open _ h = ground arith

kind_suppressed : (kind : Status) → is_exception_status kind ≡ false → kind ≢ Status.suppressed
unfolding is_exception_status
kind_suppressed kind h e = ground arith

kind_accepted : (kind : Status) → is_exception_status kind ≡ false → kind ≢ Status.accepted_risk
unfolding is_exception_status
kind_accepted kind h e = ground arith

-- Only an admin outside public mode may accept a risk.
denied_role :
    (public_mode : Bool) (kind : Status) (role : Option Role)
    → may_not_accept public_mode kind role ≡ true
    → (r : Role) × (kind ≡ Status.accepted_risk)
      × (role ≡ some r)
      × ((r ≢ Role.admin) ⊎ (public_mode ≡ true))
unfolding may_not_accept at_least
denied_role p kind none h = absurd (false≢true h)
denied_role true kind (some r) h = (r, ground arith, refl, inr refl)
denied_role false kind (some r) h =
    (r, ground arith, refl, inl (λ e. let k : r ≡ Role.admin = e in ground arith))

bad_text :
    (expires_at : Option String) (e : Error)
    → validate_expiry expires_at ≡ err e
    → (text : String) × (expires_at ≡ some text)
      × (from_isoformat (codes (strip text)) ≡ none)
      × (e ≡ invalid_expiry text)
unfolding validate_expiry
bad_text none e h = absurd (cc)
bad_text (some text) e h = (text, refl, ground arith, ground arith)

module _ (gid : ℕ) (kind : Status) (reason : String) (actor_id : ℕ) (actor_role : Option Role)
    (expires_at : Option String) (s : Session) where
  -- the call after the checks
  abbrev finish : Option Text → Result ⊤ × Session → Result ⊤ × Session
  finish expiry (ok _, s') = (ok tt, new_exception gid kind (strip reason) actor_id expiry s')
  finish expiry (err e, s') = (err e, s')

  after_checks :
      (expiry : Option Text)
      → IsAdmissible gid kind reason actor_role expires_at expiry s
      → create_exception gid kind reason actor_id actor_role expires_at s
        ≡ finish expiry (transition gid kind (some actor_id) (some (strip reason)) s)
  unfolding create_exception
  after_checks expiry h = ground arith

  finish-Outcome :
      (expiry : Option Text) {r : Result ⊤ × Session}
      → IsAdmissible gid kind reason actor_role expires_at expiry s
      → Machine.Outcome gid kind (some actor_id) (some (strip reason)) s r
      → Outcome gid kind reason actor_id actor_role expires_at s (finish expiry r)
  finish-Outcome expiry h (Machine.missing e) = refused detached (no_group e)
  finish-Outcome expiry h (Machine.refused g e never) =
      refused (invalid_transition g.current_status kind)
        (not_open g e (λ was. never (rw was (may_leave_open kind h.is_kind))))
  finish-Outcome expiry h (Machine.moved g e may) =
      created g expiry e (from_open g.current_status kind h.is_kind may) h

  -- The checks raise with nothing written, or they all hold.
  abbrev Checked : Type 0
  Checked =
      ((e : Error) × (create_exception gid kind reason actor_id actor_role expires_at s
          ≡ (err e, s))
        × IsRefused gid kind reason actor_role expires_at s e)
      ⊎ ((expiry : Option Text) × IsAdmissible gid kind reason actor_role expires_at expiry s)

  check_expiry :
      is_exception_status kind ≡ true
      → may_not_accept s.public_mode kind actor_role ≡ false
      → is_empty (strip reason) ≡ false
      → Checked
  unfolding create_exception
  check_expiry k m r = elim (Result-cases (validate_expiry expires_at)) [
    | inl (e, bad) ↦
        let (text, given, unread, names) = bad_text expires_at e bad in
        inl (e, ground arith, rw names (bad_expiry text given unread))
    | inr (expiry, good) ↦
        inr (expiry, record { is_kind = k; may_accept = m; has_reason = r; has_expiry = good })
  ]

  check_reason :
      is_exception_status kind ≡ true
      → may_not_accept s.public_mode kind actor_role ≡ false
      → Checked
  unfolding create_exception
  check_reason k m = elim (Bool-cases (is_empty (strip reason))) [
    | inl bad ↦ inl (reason_required, ground arith, no_reason bad)
    | inr r ↦ check_expiry k m r
  ]

  check_role : is_exception_status kind ≡ true → Checked
  unfolding create_exception
  check_role k = elim (Bool-cases (may_not_accept s.public_mode kind actor_role)) [
    | inl bad ↦
        let (role, is_accept, given, below) = denied_role s.public_mode kind actor_role bad in
        inl (permission_denied, ground arith, not_admin role is_accept given below)
    | inr m ↦ check_reason k m
  ]

  check_all : Checked
  unfolding create_exception
  check_all = elim (Bool-cases (is_exception_status kind)) [
    | inl k ↦ check_role k
    | inr bad ↦ inl (
      invalid_kind kind,
      ground arith,
      wrong_kind (kind_suppressed kind bad) (kind_accepted kind bad),
    )
  ]

  -- `create_exception` raises and writes nothing; or the kind, the role, the reason and the expiry
  -- passed their checks, the group was open, and the call wrote the transition and one new
  -- exception, active and with the stripped reason and the normalised expiry.
  pub create_exception-Outcome :
      Outcome gid kind reason actor_id actor_role expires_at s
        (create_exception gid kind reason actor_id actor_role expires_at s)
  create_exception-Outcome = elim check_all [
    | inl (e, eq, why) ↦ rw eq (refused e why)
    | inr (expiry, h) ↦ rw (after_checks expiry h) (
        finish-Outcome expiry h
          (Machine.transition-Outcome gid kind (some actor_id) (some (strip reason)) s))
  ]

-- No role but the admin's, and in public mode no role at all, accepts a risk: where the role is
-- given, the call raises `permission_denied` and writes nothing.
pub accept_risk_denied :
    (gid : ℕ) (reason : String) (actor_id : ℕ) (role : Role) (expires_at : Option String)
    (s : Session)
    → (role ≢ Role.admin) ⊎ (s.public_mode ≡ true)
    → create_exception gid Status.accepted_risk reason actor_id (some role) expires_at s
      ≡ (err permission_denied, s)
unfolding create_exception may_not_accept is_exception_status
accept_risk_denied gid reason actor_id role expires_at s h =
    let no = admin_only s.public_mode role h in ground arith
