-- ===== src/Exceptions/Revoke.antt =====
-- The tables after `revoke_exception` of app/services/exception_service.py.
use iam_sentinel_ese.Workflow.Machine
use iam_sentinel_ese.Table
use iam_sentinel_ese.Domain.Enums.{Status}
use iam_sentinel_ese.Exceptions.{
  first_active, is_active_of, revoke, revoke_exception, revoke_if_any,
}
use iam_sentinel_ese.Exceptions.Active.{
  active_count, exception_key, first_active-is_active, first_active-none, get-first_active, revoked,
}
use iam_sentinel_ese.Exceptions.Coverage.{IsCovered, IsCoveredBy, opened_expects}
use iam_sentinel_ese.Exceptions.Reopen.{
  Allowed-reopen, active_is_exception, group_key, reopen_counted, reopened, revoke_counted,
}
use iam_sentinel_ese.Models.{Exception, Session}
use iam_sentinel_ese.Prelude.{Option, String, arith, none, refl, some, sym, true, ℕ, ◌∙◌, ◌≡◌}
use iam_sentinel_ese.Service.{Result, ⊤}
use iam_sentinel_ese.Table.Laws.{
  All-get, All-update, Distinct, Distinct-update, absent_of_get, key-get,
}
use iam_sentinel_ese.Trail.{IsConsistent}
use iam_sentinel_ese.Trail.Transition.{transition-IsConsistent}
use iam_sentinel_ese.Workflow.{transition, write_transition}

-- What the tables promise: an audit trail, a mirror, and exceptions that agree with statuses.
pub record IsSound (s : Session) : Type 0 where
  pub consistent : IsConsistent s
  pub covered : IsCovered s

pub revoke-IsConsistent : (i : ℕ) (s : Session) → IsConsistent s → IsConsistent (revoke i s)
revoke-IsConsistent i s c = record {
  distinct = c.distinct;
  audited = c.audited;
  mirrored = c.mirrored;
  history_known = c.history_known;
  findings_known = c.findings_known;
}

revoked_keys : (i : ℕ) (s : Session) → IsCovered s → Distinct exception_key (revoke i s).exceptions
revoked_keys i s c = Distinct-update exception_key i (revoked s.now) s.exceptions (λ r. refl) c.keys

-- Reopening after an active exception has been closed.
pub closed_reopen-IsCovered :
    (e : Exception) (gid : ℕ) (actor : Option ℕ) (memo : Option String) (s : Session)
    {r : Result ⊤ × Session}
    → IsCovered s
    → Table.get exception_key e.id s.exceptions ≡ some e
    → is_active_of gid e ≡ true
    → Machine.Outcome gid Status.opened actor memo (revoke e.id s) r
    → IsCovered r.1
unfolding write_transition
closed_reopen-IsCovered e gid actor memo s c row a (Machine.missing none_there) = record {
  keys = revoked_keys e.id s c;
  counted =
      let own : e.group_id ≡ gid = ground arith in
      revoke_counted e s.now s.exceptions s.groups c.keys row
        (rw own (absent_of_get group_key gid s.groups none_there)) c.counted;
}
closed_reopen-IsCovered e gid actor memo s c row a (Machine.refused g found never) =
    let own : is_active_of g.id e ≡ true = rw (key-get group_key gid s.groups g found) a in
    let covered = All-get group_key (IsCoveredBy s.exceptions) gid s.groups g c.counted found in
    absurd (
      never (
        Allowed-reopen g.current_status
          (active_is_exception e s.now s.exceptions c.keys row g covered own)))
closed_reopen-IsCovered e gid actor memo s c row a (Machine.moved g found may) = record {
  keys = revoked_keys e.id s c;
  counted =
      let own : is_active_of g.id e ≡ true = rw (key-get group_key gid s.groups g found) a in
      reopen_counted e g s.now s.exceptions s.groups c.keys row own c.counted;
}

-- Reopening a group that has no active exception.
pub plain_reopen-IsCovered :
    (gid : ℕ) (actor : Option ℕ) (memo : Option String) (s : Session) {r : Result ⊤ × Session}
    → IsCovered s
    → active_count gid s.exceptions ≡ 0
    → Machine.Outcome gid Status.opened actor memo s r
    → IsCovered r.1
unfolding write_transition
plain_reopen-IsCovered gid actor memo s c z (Machine.missing none_there) = c
plain_reopen-IsCovered gid actor memo s c z (Machine.refused g found never) = c
plain_reopen-IsCovered gid actor memo s c z (Machine.moved g found may) = record {
  keys = c.keys;
  counted =
      let same : g.id ≡ gid = key-get group_key gid s.groups g found in
      All-update group_key (IsCoveredBy s.exceptions) (IsCoveredBy s.exceptions) g.id reopened
        s.groups
        (λ r e h.
          (let y : active_count r.id s.exceptions ≡ 0 = rw (e ∙ same) z in y)
          ∙ sym (opened_expects Status.opened refl))
        (λ r e h. h) c.counted;
}

module _ (gid : ℕ) (actor : Option ℕ) (memo : String) (s : Session) where
  revoke_exception_lem :
      revoke_exception gid actor memo s
      ≡ transition gid Status.opened actor
          (some memo)
          (revoke_if_any (first_active gid s.exceptions) s)
  unfolding revoke_exception
  revoke_exception_lem = refl

  after_lookup :
      (found : Option Exception)
      → first_active gid s.exceptions ≡ found
      → IsSound s
      → IsSound (transition gid Status.opened actor (some memo) (revoke_if_any found s)).1
  after_lookup none e h = record {
    consistent = transition-IsConsistent gid Status.opened actor (some memo) s h.consistent;
    covered =
        plain_reopen-IsCovered gid actor (some memo) s h.covered
          (first_active-none gid s.exceptions e)
          (Machine.transition-Outcome gid Status.opened actor (some memo) s);
  }
  after_lookup (some x) e h = record {
    consistent =
        transition-IsConsistent gid Status.opened actor (some memo) (revoke x.id s)
          (revoke-IsConsistent x.id s h.consistent);
    covered =
        closed_reopen-IsCovered x gid actor (some memo) s h.covered
          (get-first_active gid s.exceptions x h.covered.keys e)
          (first_active-is_active gid s.exceptions x e)
          (Machine.transition-Outcome gid Status.opened actor (some memo) (revoke x.id s));
  }

  -- Revoking the exception of a group, or reopening one that has none, keeps the audit trail, the
  -- mirror, and the agreement of exceptions and statuses, also where the transition is refused.
  pub revoke_exception-IsSound : IsSound s → IsSound (revoke_exception gid actor memo s).1
  revoke_exception-IsSound h =
      rw revoke_exception_lem (after_lookup (first_active gid s.exceptions) refl h)
