-- ===== src/Exceptions/Resurface.antt =====
-- The tables while `expire_exceptions` of app/services/exception_service.py runs: which exceptions
-- its loop has still to treat, and how exceptions and statuses stand meanwhile.
use iam_sentinel_ese.Workflow.Machine
use iam_sentinel_ese.Table
use mathlib.Core.Bool.{false≢true}
use iam_sentinel_ese.Domain.Dates.{Date, Text, isoformat}
use iam_sentinel_ese.Domain.Enums.{Status, status_eq}
use iam_sentinel_ese.Exceptions.{expire_exceptions, is_active_of, is_candidate, revoke}
use iam_sentinel_ese.Exceptions.Active.{exception_key, revoked}
use iam_sentinel_ese.Exceptions.Coverage.{IsCovered, IsCoveredBy}
use iam_sentinel_ese.Exceptions.Expiry.{
  Loop, Round, auto_note, back, done, expire_exceptions-Loop, gone, kept, more,
}
use iam_sentinel_ese.Exceptions.Reopen.{Allowed-reopen, active_is_exception, group_key}
use iam_sentinel_ese.Exceptions.Revoke.{IsSound, closed_reopen-IsCovered, revoke-IsConsistent}
use iam_sentinel_ese.Models.{Exception, Session, update_exception}
use iam_sentinel_ese.Prelude.{
  All, All-both, All-filter, All-mono, List, String, arith, filter-passes, filter_by, nat_eq, none,
  option_eq, refl, some, string_eq, sym, true, ℕ, ◌==◌, ◌∙◌, ◌∷◌, ◌≡◌, ◌≢◌,
}
use iam_sentinel_ese.Service.{ok}
use iam_sentinel_ese.Table.Laws.{
  All-get, Distinct, Distinct-filter, get-key, get-update_ne, get_self, key-get,
}
use iam_sentinel_ese.Trail.Transition.{write_transition-IsConsistent}
use iam_sentinel_ese.Workflow.{write_transition}

-- The candidates that the loop has still to treat are rows of the table, active, and distinct.
pub record IsPending (todo : List Exception) (s : Session) : Type 0 where
  pub distinct : Distinct exception_key todo
  pub rows : All (λ (e : Exception). Table.get exception_key e.id s.exceptions ≡ some e) todo
  pub active : All (λ (e : Exception). (e.revoked_at == none) ≡ true) todo

IsPending-at_start :
    (today : Text) (s : Session)
    → IsCovered s
    → IsPending (filter_by (is_candidate today) s.exceptions) s
IsPending-at_start today s c = record {
  distinct = Distinct-filter exception_key (is_candidate today) s.exceptions c.keys;
  rows =
      All-filter (is_candidate today) _ s.exceptions (get_self exception_key s.exceptions c.keys);
  active =
      All-mono _ _ (filter_by (is_candidate today) s.exceptions) (λ e h. ground arith)
        (filter-passes (is_candidate today) s.exceptions);
}

active_of_own :
    (exc : Exception) → (exc.revoked_at == none) ≡ true → is_active_of exc.group_id exc ≡ true
active_of_own exc h = ground arith

Round-IsSound :
    {exc : Exception} {s s' : Session} {ids : List ℕ}
    → IsSound s
    → Table.get exception_key exc.id s.exceptions ≡ some exc
    → is_active_of exc.group_id exc ≡ true
    → Round exc s ids s'
    → IsSound s'
Round-IsSound {exc} {s} h row a (gone e) = record {
  consistent = revoke-IsConsistent exc.id s h.consistent;
  covered =
      closed_reopen-IsCovered exc exc.group_id none auto_note s h.covered row a (Machine.missing e);
}
Round-IsSound {exc} {s} h row a (kept g found never) =
    let own : is_active_of g.id exc ≡ true =
      rw (key-get group_key exc.group_id s.groups g found) a in
    let covered =
      All-get group_key (IsCoveredBy s.exceptions) exc.group_id s.groups g h.covered.counted
        found in
    absurd (
      false≢true
        (sym never ∙ active_is_exception exc s.now s.exceptions h.covered.keys row g covered own))
Round-IsSound {exc} {s} h row a (back g found is_exception) =
    let may = Allowed-reopen g.current_status is_exception in
    record {
      consistent =
          write_transition-IsConsistent g Status.opened none auto_note (revoke exc.id s)
            (get-key group_key exc.group_id s.groups g found)
            ((Machine.Allowed-iff g.current_status Status.opened).1 may)
            (revoke-IsConsistent exc.id s h.consistent);
      covered =
          closed_reopen-IsCovered exc exc.group_id none auto_note s h.covered row a
            (Machine.moved g found may);
    }

rest_rows :
    (exc : Exception) (rest : List Exception) (now : String) (es : List Exception)
    → All (λ q. exception_key q ≢ exception_key exc) rest
    → All (λ (e : Exception). Table.get exception_key e.id es ≡ some e) rest
    → All
        (λ (e : Exception).
          Table.get exception_key e.id (update_exception exc.id (revoked now) es) ≡ some e)
        rest
rest_rows exc rest now es ne rows =
    All-mono _ _ rest
      (λ e h.
        get-update_ne exception_key exc.id e.id (revoked now) es (λ r. refl) (λ k. h.0 (sym k))
        ∙ h.1)
      (All-both _ _ rest ne rows)

Round-IsPending :
    {exc : Exception} {rest : List Exception} {s s' : Session} {ids : List ℕ}
    → IsPending (exc ∷ rest) s
    → Round exc s ids s'
    → IsPending rest s'
unfolding write_transition
Round-IsPending {exc} {rest} {s} p (gone e) = record {
  distinct = p.distinct.1;
  rows = rest_rows exc rest s.now s.exceptions p.distinct.0 p.rows.1;
  active = p.active.1;
}
Round-IsPending {exc} {rest} {s} p (kept g found never) = record {
  distinct = p.distinct.1;
  rows = rest_rows exc rest s.now s.exceptions p.distinct.0 p.rows.1;
  active = p.active.1;
}
Round-IsPending {exc} {rest} {s} p (back g found is_exception) = record {
  distinct = p.distinct.1;
  rows = rest_rows exc rest s.now s.exceptions p.distinct.0 p.rows.1;
  active = p.active.1;
}

Loop-IsSound :
    {todo : List Exception} {s s' : Session} {ids : List ℕ}
    → IsSound s
    → IsPending todo s
    → Loop todo s ids s'
    → IsSound s'
Loop-IsSound h p done = h
Loop-IsSound h p (more {exc = exc} round rest e) =
    Loop-IsSound (Round-IsSound h p.rows.0 (active_of_own exc p.active.0) round)
      (Round-IsPending p round) rest

-- The daily expiry never raises, and it keeps the audit trail, the mirror, and the agreement of
-- exceptions and statuses.
pub expire_exceptions-IsSound :
    (today : Date) (s : Session)
    → IsSound s
    → (ids : List ℕ) × (s' : Session) × (expire_exceptions today s ≡ (ok ids, s')) × IsSound s'
expire_exceptions-IsSound today s h =
    let (ids, s', e, loop) = expire_exceptions-Loop today s in
    (ids, s', e, Loop-IsSound h (IsPending-at_start (isoformat today) s h.covered) loop)
