-- ===== src/Api/Batches/Stale.antt =====
-- What reopening through the bulk transition route leaves behind.
use iam_sentinel_ese.Api.Batches.{bulk_transition_route, guarded_batch}
use iam_sentinel_ese.Bulk.{
  BulkResult, bulk_each, bulk_found, bulk_item, bulk_transition, empty_result, record_batch_event,
  tally,
}
use iam_sentinel_ese.Domain.Enums.{Status}
use iam_sentinel_ese.Exceptions.{is_exception_status}
use iam_sentinel_ese.Exceptions.Active.{active_count}
use iam_sentinel_ese.Exceptions.Coverage.{IsCovered, IsCoveredBy, exception_expects, opened_expects}
use iam_sentinel_ese.Exceptions.Reopen.{Allowed-reopen, group_key, reopened}
use iam_sentinel_ese.Models.{Group, Session, User, get_group, to_meta, update_group}
use iam_sentinel_ese.Prelude.{
  Bool, Option, String, [], ap, arith, false, refl, some, true, ℕ, ◌∙◌, ◌∷◌, ◌≡◌,
}
use iam_sentinel_ese.Rbac.{Minimum, Role, at_least, required}
use iam_sentinel_ese.Service.{Result, ok, ⊤}
use iam_sentinel_ese.Table.Laws.{All-get, get-key, get-update_self}
use iam_sentinel_ese.Workflow.{transition, write_transition}
use iam_sentinel_ese.Workflow.Machine.{Allowed-iff, transition-moved}

-- The group is open, and yet one of its exceptions is active.
pub record IsStale (g : Group) (s : Session) : Type 0 where
  pub row : get_group g.id s.groups ≡ some (record g { current_status = Status.opened })
  pub active : active_count g.id s.exceptions ≡ 1
  pub disagree : ¬ IsCovered s

-- The tables after a batch that reopens one group in an exception state.
module _ (gid : ℕ) (memo : Option String) (actor : Option ℕ) (s : Session) (g : Group)
    (found : get_group gid s.groups ≡ some g)
    (is_exc : is_exception_status g.current_status ≡ true) where
  abbrev end : Session
  end = (bulk_transition (gid ∷ []) Status.opened actor memo s).1

  moved_once :
      transition gid Status.opened actor memo s
      ≡ (ok tt, write_transition g Status.opened actor memo s)
  moved_once =
      transition-moved gid Status.opened actor memo s g found
        ((Allowed-iff g.current_status Status.opened).1 (Allowed-reopen g.current_status is_exc))

  found_once :
      bulk_found
        (λ i. transition i Status.opened actor memo)
        gid
        (get_group gid s.groups)
        (empty_result "transition")
        s
      ≡ (
        tally gid (ok tt) (empty_result "transition"),
        write_transition g Status.opened actor memo s,
      )
  unfolding bulk_found
  found_once =
      ap
        (λ (o : Option Group).
          bulk_found (λ i. transition i Status.opened actor memo) gid o (empty_result "transition")
            s)
        found
      ∙ ap (λ (x : Result ⊤ × Session). (tally gid x.0 (empty_result "transition"), x.1)) moved_once

  batch_once :
      bulk_transition (gid ∷ []) Status.opened actor memo s
      ≡ record_batch_event actor "transition" (to_meta Status.opened) (
        tally gid (ok tt) (empty_result "transition"),
        write_transition g Status.opened actor memo s,
      )
  unfolding bulk_transition bulk_each bulk_item
  batch_once = ap (record_batch_event actor "transition" (to_meta Status.opened)) found_once

  end_groups : end.groups ≡ update_group g.id reopened s.groups
  unfolding record_batch_event write_transition
  end_groups = ap (λ (x : BulkResult × Session). x.1.groups) batch_once

  end_exceptions : end.exceptions ≡ s.exceptions
  unfolding record_batch_event write_transition
  end_exceptions = ap (λ (x : BulkResult × Session). x.1.exceptions) batch_once

  still_active : IsCovered s → active_count g.id end.exceptions ≡ 1
  still_active c =
      ap (active_count g.id) end_exceptions
      ∙ All-get group_key (IsCoveredBy s.exceptions) gid s.groups g c.counted found
      ∙ exception_expects g.current_status is_exc

  row_reopened : get_group g.id end.groups ≡ some (reopened g)
  row_reopened =
      ap (get_group g.id) end_groups
      ∙ get-update_self group_key g.id reopened s.groups g (λ r. refl)
          (get-key group_key gid s.groups g found)

  no_longer-IsCovered : IsCovered s → ¬ IsCovered end
  no_longer-IsCovered c after =
      let none_left : active_count g.id end.exceptions ≡ 0 =
        All-get group_key (IsCoveredBy end.exceptions) g.id end.groups (reopened g) after.counted
          row_reopened
        ∙ opened_expects Status.opened refl in
      let one_left = still_active c in omega arith

  stale : IsCovered s → IsStale g end
  stale c = record { row = row_reopened; active = still_active c; disagree = no_longer-IsCovered c }

analyst_granted :
    (role : Role) (public_mode : Bool)
    → role ≡ Role.analyst
    → public_mode ≡ false
    → at_least public_mode (some role) Minimum.analyst ≡ true
unfolding at_least
analyst_granted role public_mode e private = ground arith

-- Outside public mode, an analyst who reopens one suppressed or accepted group through the bulk
-- transition route, in tables where exceptions and statuses agree, leaves the group open with its exception active, so that
-- exceptions and statuses no longer agree.
pub bulk_reopen-IsStale :
    (actor : User) (gid : ℕ) (memo : Option String) (s : Session) (g : Group)
    → actor.role ≡ Role.analyst
    → s.public_mode ≡ false
    → get_group gid s.groups ≡ some g
    → is_exception_status g.current_status ≡ true
    → IsCovered s
    → IsStale g (bulk_transition_route actor (gid ∷ []) Status.opened memo s).1
unfolding bulk_transition_route guarded_batch required
bulk_reopen-IsStale actor gid memo s g role private found is_exc c =
    rw (analyst_granted actor.role s.public_mode role private)
      (stale gid memo (some actor.id) s g found is_exc c)
