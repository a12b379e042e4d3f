-- ===== src/Exceptions/Effect.antt =====
-- The effect of `create_exception` of app/services/exception_service.py on every table, and the
-- cause of each refusal.
use iam_sentinel_ese.Exceptions.Create
use iam_sentinel_ese.Domain.Dates.{Date, Text, from_isoformat, isoformat}
use iam_sentinel_ese.Domain.Enums.{Status}
use iam_sentinel_ese.Exceptions.{
  create_exception, is_exception_status, may_not_accept, new_exception, new_row, validate_expiry,
}
use iam_sentinel_ese.Exceptions.Create.{IsAdmissible, IsRefused}
use iam_sentinel_ese.Models.{Group, Session, fresh_exception_id, get_group}
use iam_sentinel_ese.Prelude.{
  Bool, Bool-cases, Option, Option-cases, String, [], ap, arith, false, inl, inr, none, refl, some,
  sym, true, ℕ, ◌++◌, ◌∷◌, ◌≡◌, ◌⊎◌,
}
use iam_sentinel_ese.Prelude.Text.{codes, is_empty, strip}
use iam_sentinel_ese.Rbac.{Role, at_least}
use iam_sentinel_ese.Service.{Error, Result, err, ok, ⊤}
use iam_sentinel_ese.Table.Laws.{get-key, key-get}
use iam_sentinel_ese.Workflow.{write_transition}
use iam_sentinel_ese.Workflow.Effect.{IsMoved, write_transition-IsMoved}

-- The stored text of an expiry: none for a missing or an empty one, else what the date that the text
-- denotes prints.
pub data IsStoredAs : Option String → Option Text → Type 0 where
  missing : IsStoredAs none none
  empty : (text : String) → is_empty text ≡ true → IsStoredAs (some text) none
  dated :
      (text : String) (d : Date)
      → from_isoformat (codes (strip text)) ≡ some d
      → IsStoredAs (some text) (some (isoformat d))

-- The tables after an exception has been made for `g`: the move, and one more exception that is
-- active.
pub record IsCreated (g : Group) (kind : Status) (reason : String) (actor_id : ℕ)
    (expiry : Option Text) (s s' : Session) : Type 0 where
  pub moved : IsMoved g kind (some actor_id) (some (strip reason)) s s'
  pub added :
      s'.exceptions
      ≡ s.exceptions
        ++ record {
          id = fresh_exception_id s.exceptions;
          group_id = g.id;
          kind = kind;
          reason = strip reason;
          created_by = actor_id;
          expires_at = expiry;
          revoked_at = none;
        }
          ∷ []

-- What is known of the arguments of a call that returns.
pub record IsAccepted (kind : Status) (reason : String) (actor_role : Option Role)
    (expires_at : Option String) (expiry : Option Text) (s : Session) : Type 0 where
  pub is_kind : (kind ≡ Status.suppressed) ⊎ (kind ≡ Status.accepted_risk)
  pub by_admin :
      kind ≡ Status.accepted_risk
      → (role : Role) → actor_role ≡ some role
      → (role ≡ Role.admin) × (s.public_mode ≡ false)
  pub has_reason : is_empty (strip reason) ≡ false
  pub stored : IsStoredAs expires_at expiry

-- How a call of `create_exception` ends.
pub data Effect (gid : ℕ) (kind : Status) (reason : String) (actor_id : ℕ)
    (actor_role : Option Role) (expires_at : Option String) (s : Session)
    : Result ⊤ × Session → Type 0 where
  refused :
      (e : Error)
      → IsRefused gid kind reason actor_role expires_at s e
      → Effect gid kind reason actor_id actor_role expires_at s (err e, s)
  created :
      (g : Group) (expiry : Option Text) {s' : Session}
      → get_group gid s.groups ≡ some g
      → g.current_status ≡ Status.opened
      → IsAccepted kind reason actor_role expires_at expiry s
      → IsCreated g kind reason actor_id expiry s s'
      → Effect gid kind reason actor_id actor_role expires_at s (ok tt, s')

exception_kind :
    (kind : Status)
    → is_exception_status kind ≡ true
    → (kind ≡ Status.suppressed) ⊎ (kind ≡ Status.accepted_risk)
unfolding is_exception_status
exception_kind Status.suppressed h = inl refl
exception_kind Status.accepted_risk h = inr refl
exception_kind _ h = ground arith

accepting_admin :
    (public_mode : Bool) (kind : Status) (actor_role : Option Role)
    → may_not_accept public_mode kind actor_role ≡ false
    → kind ≡ Status.accepted_risk
    → (role : Role) → actor_role ≡ some role
    → (role ≡ Role.admin) × (public_mode ≡ false)
unfolding may_not_accept at_least
accepting_admin p kind actor_role h k Role.admin given = (refl, ground arith)
accepting_admin p kind actor_role h k role given = absurd (ground arith)

no_text : (expiry : Option Text) → validate_expiry none ≡ ok expiry → expiry ≡ none
unfolding validate_expiry
no_text expiry h = ground arith

empty_text :
    (text : String) (expiry : Option Text)
    → is_empty text ≡ true
    → validate_expiry (some text) ≡ ok expiry
    → expiry ≡ none
unfolding validate_expiry
empty_text text expiry e h = ground arith

pub validate_expiry-IsStoredAs :
    (expires_at : Option String) (expiry : Option Text)
    → validate_expiry expires_at ≡ ok expiry
    → IsStoredAs expires_at expiry
unfolding validate_expiry
validate_expiry-IsStoredAs none expiry h = rw (no_text expiry h) missing
validate_expiry-IsStoredAs (some text) expiry h = elim (Bool-cases (is_empty text)) [
  | inl e ↦ rw (empty_text text expiry e h) (empty text e)
  | inr filled ↦ elim (Option-cases (from_isoformat (codes (strip text)))) [
    | inl unread ↦ absurd (ground arith)
    | inr (d, read) ↦
        let same_text : expiry ≡ some (isoformat d) = ground arith in
        rw same_text (dated text d read)
  ]
]

module _ (gid : ℕ) (kind : Status) (reason : String) (actor_id : ℕ) (actor_role : Option Role)
    (expires_at : Option String) (s : Session) where
  IsAdmissible-IsAccepted :
      (expiry : Option Text)
      → IsAdmissible gid kind reason actor_role expires_at expiry s
      → IsAccepted kind reason actor_role expires_at expiry s
  IsAdmissible-IsAccepted expiry h = record {
    is_kind = exception_kind kind h.is_kind;
    by_admin = accepting_admin s.public_mode kind actor_role h.may_accept;
    has_reason = h.has_reason;
    stored = validate_expiry-IsStoredAs expires_at expiry h.has_expiry;
  }

  IsCreated-row :
      (g : Group) (expiry : Option Text)
      → get_group gid s.groups ≡ some g
      → IsCreated g kind reason actor_id expiry s (
          new_exception gid kind
            (strip reason)
            actor_id
            expiry
            (write_transition g kind (some actor_id) (some (strip reason)) s))
  unfolding write_transition
  IsCreated-row g expiry found =
      let w =
        write_transition-IsMoved g kind (some actor_id) (some (strip reason)) s
          (get-key (λ (q : Group). q.id) gid s.groups g found) in
      record {
        moved = record {
          logged = w.logged;
          row = w.row;
          other_rows = w.other_rows;
          snapshot = w.snapshot;
          same_users = refl;
          same_comments = refl;
          same_audit = refl;
        };
        added =
            ap
              (λ (i : ℕ).
                s.exceptions ++ new_row i kind (strip reason) actor_id expiry s.exceptions ∷ [])
              (sym (key-get (λ (q : Group). q.id) gid s.groups g found));
      }

  Outcome-Effect :
      {r : Result ⊤ × Session}
      → Create.Outcome gid kind reason actor_id actor_role expires_at s r
      → Effect gid kind reason actor_id actor_role expires_at s r
  Outcome-Effect (Create.refused e why) = refused e why
  Outcome-Effect (Create.created g expiry found was_open h) =
      created g expiry found was_open (IsAdmissible-IsAccepted expiry h)
        (IsCreated-row g expiry found)

  -- `create_exception` raises and writes nothing, and what it raises names a cause that holds: the
  -- kind, the caller, the reason, the expiry, or the state of the group. Or these are all in order,
  -- the group was open, and the call wrote the transition and one new exception, active, with the
  -- stripped reason and the text of the date.
  pub create_exception-Effect :
      Effect gid kind reason actor_id actor_role expires_at s
        (create_exception gid kind reason actor_id actor_role expires_at s)
  create_exception-Effect =
      Outcome-Effect
        (Create.create_exception-Outcome gid kind reason actor_id actor_role expires_at s)
