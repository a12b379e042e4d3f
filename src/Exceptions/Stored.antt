-- ===== src/Exceptions/Stored.antt =====
-- What the column `finding_exception.expires_at` holds, through the three operations of
-- app/services/exception_service.py.
use iam_sentinel_ese.Workflow.Machine
use iam_sentinel_ese.Domain.Dates.{Date, IsDate, Text, isoformat}
use iam_sentinel_ese.Domain.Dates.Valid.{from_isoformat-IsDate}
use iam_sentinel_ese.Domain.Enums.{Status}
use iam_sentinel_ese.Exceptions.{
  active_exception, create_exception, expire_exceptions, revoke_exception, revoke_if_any,
}
use iam_sentinel_ese.Exceptions.Active.{exception_key, revoked}
use iam_sentinel_ese.Exceptions.Due.{Round-exceptions}
use iam_sentinel_ese.Exceptions.Effect.{
  Effect, IsStoredAs, create_exception-Effect, created, dated, empty, missing, refused,
}
use iam_sentinel_ese.Exceptions.Expiry.{Loop, done, expire_exceptions-Loop, more}
use iam_sentinel_ese.Models.{Exception, Session, update_exception}
use iam_sentinel_ese.Prelude.{
  All, All-append, List, Option, String, arith, none, refl, some, ℕ, ◌≡◌,
}
use iam_sentinel_ese.Prelude.Text.{codes, strip}
use iam_sentinel_ese.Rbac.{Role}
use iam_sentinel_ese.Service.{Result, ⊤}
use iam_sentinel_ese.Table.Laws.{All-update}
use iam_sentinel_ese.Workflow.{write_transition}

-- the text that a date of the calendar prints, or nothing
abbrev pub HasDate : Exception → Type 0
HasDate e = (t : Text) → e.expires_at ≡ some t → (d : Date) × IsDate d × (t ≡ isoformat d)

-- every stored expiry is a date
abbrev pub AreDated : Session → Type 0
AreDated s = All HasDate s.exceptions

stored-IsDated :
    {expires_at : Option String} {expiry : Option Text}
    → IsStoredAs expires_at expiry
    → (t : Text) → expiry ≡ some t
    → (d : Date) × IsDate d × (t ≡ isoformat d)
stored-IsDated missing t h = absurd (cc)
stored-IsDated (empty text e) t h = absurd (cc)
stored-IsDated (dated text d read) t h =
    (d, from_isoformat-IsDate (codes (strip text)) d read, ground arith)

create-AreDated :
    (gid : ℕ) (kind : Status) (reason : String) (actor_id : ℕ) (actor_role : Option Role)
    (expires_at : Option String) (s : Session) {r : Result ⊤ × Session}
    → AreDated s
    → Effect gid kind reason actor_id actor_role expires_at s r
    → AreDated r.1
create-AreDated gid kind reason actor_id role expires_at s h (refused e why) = h
create-AreDated gid kind reason actor_id role expires_at s h
      (created g expiry found was_open accepted made) =
    rw made.added (All-append HasDate s.exceptions _ h (stored-IsDated accepted.stored, tt))

transition-exceptions :
    (gid : ℕ) (st : Status) (actor : Option ℕ) (memo : Option String) (s : Session)
    {r : Result ⊤ × Session}
    → Machine.Outcome gid st actor memo s r
    → r.1.exceptions ≡ s.exceptions
unfolding write_transition
transition-exceptions gid st actor memo s (Machine.missing e) = refl
transition-exceptions gid st actor memo s (Machine.refused g e barred) = refl
transition-exceptions gid st actor memo s (Machine.moved g e may) = refl

revoked-AreDated :
    (i : ℕ) (now : String) (es : List Exception)
    → All HasDate es
    → All HasDate (update_exception i (revoked now) es)
revoked-AreDated i now es h =
    All-update exception_key HasDate HasDate i (revoked now) es (λ r e k. k) (λ r e k. k) h

if_any-AreDated : (e : Option Exception) (s : Session) → AreDated s → AreDated (revoke_if_any e s)
if_any-AreDated none s h = h
if_any-AreDated (some e) s h = revoked-AreDated e.id s.now s.exceptions h

revoke-AreDated :
    (gid : ℕ) (actor : Option ℕ) (memo : String) (s : Session)
    → AreDated s
    → AreDated (revoke_exception gid actor memo s).1
unfolding revoke_exception
revoke-AreDated gid actor memo s h =
    let s' = revoke_if_any (active_exception gid s) s in
    rw
      (transition-exceptions gid Status.opened actor (some memo) s'
        (Machine.transition-Outcome gid Status.opened actor (some memo) s'))
      (if_any-AreDated (active_exception gid s) s h)

Loop-AreDated :
    {todo : List Exception} {s s' : Session} {ids : List ℕ}
    → AreDated s
    → Loop todo s ids s'
    → AreDated s'
Loop-AreDated h done = h
Loop-AreDated {s = s} h (more {exc = exc} round rounds e) =
    Loop-AreDated (rw (Round-exceptions round) (revoked-AreDated exc.id s.now s.exceptions h))
      rounds

-- Making, revoking and expiring exceptions keep every stored expiry the text of a date of the
-- calendar, whatever text the caller gives for it and whether the call is carried out or refused.
pub exceptions-AreDated :
    (gid : ℕ) (kind : Status) (reason : String) (actor_id : ℕ) (actor_role : Option Role)
    (expires_at : Option String) (other_gid : ℕ) (actor : Option ℕ) (memo : String) (today : Date)
    (s : Session)
    → AreDated s
    → AreDated (create_exception gid kind reason actor_id actor_role expires_at s).1
      × AreDated (revoke_exception other_gid actor memo s).1
      × AreDated (expire_exceptions today s).1
exceptions-AreDated gid kind reason actor_id role expires_at other_gid actor memo today s h =
    let (ids, s', e, loop) = expire_exceptions-Loop today s in
    (
      create-AreDated gid kind reason actor_id role expires_at s h
          (create_exception-Effect gid kind reason actor_id role expires_at s),
      revoke-AreDated other_gid actor memo s h,
      rw e (Loop-AreDated h loop),
    )
