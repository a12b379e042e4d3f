-- ===== src/Workflow/Effect.antt =====
-- The effect of `transition` of app/services/workflow_service.py on every table, column by column.
use iam_sentinel_ese.Workflow.Machine
use iam_sentinel_ese.Domain.Enums.{Status, status_eq}
use iam_sentinel_ese.Exceptions.Reopen.{group_key}
use iam_sentinel_ese.Models.{Finding, Group, Session, get_group}
use iam_sentinel_ese.Prelude.{
  List, Option, String, [], arith, if◌then◌else◌, map, nat_eq, none, option_eq, refl, some,
  string_eq, sym, ℕ, ◌&&◌, ◌++◌, ◌==◌, ◌∷◌, ◌≡◌, ◌≢◌,
}
use iam_sentinel_ese.Service.{Result, detached, err, invalid_transition, ok, ⊤}
use iam_sentinel_ese.Table.Laws.{get-update_ne, get-update_self}
use iam_sentinel_ese.Workflow.{clean_note, set_finding_status, sync_findings, write_transition}
use iam_sentinel_ese.Workflow.Machine.{Allowed}

-- The tables after group `g` has moved to `st`. The findings that follow it are those of its last
-- run.
pub record IsMoved (g : Group) (st : Status) (actor : Option ℕ) (memo : Option String)
    (s s' : Session) : Type 0 where
  pub logged :
      s'.history
      ≡ s.history
        ++ record {
          group_id = g.id;
          from_status = some g.current_status;
          to_status = st;
          actor_id = actor;
          note = clean_note memo;
        }
          ∷ []
  pub row : get_group g.id s'.groups ≡ some (record g { current_status = st })
  pub other_rows : (i : ℕ) → i ≢ g.id → get_group i s'.groups ≡ get_group i s.groups
  pub snapshot :
      s'.findings
      ≡ map
          (λ (f : Finding).
            if (f.group_id == g.id) && (some f.run_id == g.last_seen_run)
            then record f { status = st }
            else f)
          s.findings
  pub same_users : s'.users ≡ s.users
  pub same_comments : s'.comments ≡ s.comments
  pub same_audit : s'.audit ≡ s.audit

-- How a call of `transition` ends.
pub data Effect (gid : ℕ) (st : Status) (actor : Option ℕ) (memo : Option String) (s : Session)
    : Result ⊤ × Session → Type 0 where
  missing : get_group gid s.groups ≡ none → Effect gid st actor memo s (err detached, s)
  refused :
      (g : Group)
      → get_group gid s.groups ≡ some g
      → ¬ Allowed g.current_status st
      → Effect gid st actor memo s (err (invalid_transition g.current_status st), s)
  moved :
      (g : Group) {s' : Session}
      → get_group gid s.groups ≡ some g
      → Allowed g.current_status st
      → IsMoved g st actor memo s s'
      → s'.exceptions ≡ s.exceptions
      → Effect gid st actor memo s (ok tt, s')

set_finding_status-map :
    (gid run : ℕ) (st : Status) (fs : List Finding)
    → set_finding_status gid run st fs
      ≡ map
          (λ (f : Finding).
            if (f.group_id == gid) && (some f.run_id == some run)
            then record f { status = st }
            else f)
          fs
set_finding_status-map gid run st [] = refl
set_finding_status-map gid run st (f ∷ fs) = ground (arith, set_finding_status-map gid run st fs)

unseen-map :
    (gid : ℕ) (st : Status) (fs : List Finding)
    → fs
      ≡ map
          (λ (f : Finding).
            if (f.group_id == gid) && (some f.run_id == none) then record f { status = st } else f)
          fs
unseen-map gid st [] = refl
unseen-map gid st (f ∷ fs) = ground (arith, unseen-map gid st fs)

sync_findings-map :
    (gid : ℕ) (run : Option ℕ) (st : Status) (fs : List Finding)
    → sync_findings gid run st fs
      ≡ map
          (λ (f : Finding).
            if (f.group_id == gid) && (some f.run_id == run) then record f { status = st } else f)
          fs
sync_findings-map gid none st fs = unseen-map gid st fs
sync_findings-map gid (some run) st fs = set_finding_status-map gid run st fs

pub write_transition-IsMoved :
    (g : Group) (st : Status) (actor : Option ℕ) (memo : Option String) (s : Session)
    → get_group g.id s.groups ≡ some g
    → IsMoved g st actor memo s (write_transition g st actor memo s)
unfolding write_transition
write_transition-IsMoved g st actor memo s found = record {
  logged = refl;
  row =
      get-update_self group_key g.id (λ q. record q { current_status = st }) s.groups g (λ r. refl)
        found;
  other_rows = λ i ne.
      get-update_ne group_key g.id i (λ q. record q { current_status = st }) s.groups (λ r. refl)
        (λ e. ne (sym e));
  snapshot = sync_findings-map g.id g.last_seen_run st s.findings;
  same_users = refl;
  same_comments = refl;
  same_audit = refl;
}
