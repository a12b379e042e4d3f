-- ===== src/Trail.antt =====
-- What the tables of findings, groups and status history promise one another: the history of a
-- group is a run of the state machine that ends in its status (the audit trail that the header of
-- app/services/workflow_service.py speaks of), and the snapshot of the last run shows that status.
pub mod Rows
pub mod Transition
use iam_sentinel_ese.Prelude.{
  ℕ, ◌<◌, ◌≡◌, Bool, ◌&&◌, Option, none, some, List, [], ◌∷◌, ◌==◌, contains, if◌then◌else◌, All,
  nat_eq, option_eq,
}
use iam_sentinel_ese.Table.Laws.{Distinct}
use iam_sentinel_ese.Domain.Enums.{Status, opened, status_eq}
use iam_sentinel_ese.Models.{Session, Group, Finding, History, fresh_group_id}
use iam_sentinel_ese.Workflow.{allowed_transitions}

-- A row of the history carries on from the status so far: the first detects, the others are moves
-- that the state machine allows.
unfoldable pub carries_on : Option Status → History → Bool
carries_on none h = (h.from_status == none) && (h.to_status == Status.opened)
carries_on (some now) h =
    (h.from_status == some now) && contains h.to_status (allowed_transitions now)

-- The status after a group's rows of the history, `none` if one of them does not carry on.
abbrev pub replay : ℕ → Option Status → List History → Option (Option Status)
replay gid now [] = some now
replay gid now (h ∷ hs) =
    let moved = replay gid (some h.to_status) hs in
    let same = replay gid now hs in
    if h.group_id == gid then (if carries_on now h then moved else none) else same

-- the history of this group ends in its status
abbrev pub IsAudited : List History → Group → Type 0
IsAudited hs g = replay g.id none hs ≡ some (some g.current_status)

-- the findings of this group's last run show its status
abbrev pub IsMirrored : List Finding → Group → Type 0
IsMirrored fs g =
    All
      (λ (f : Finding).
        f.group_id ≡ g.id → some f.run_id ≡ g.last_seen_run → f.status ≡ g.current_status)
      fs

pub record IsConsistent (s : Session) : Type 0 where
  pub distinct : Distinct (λ (g : Group). g.id) s.groups
  pub audited : All (IsAudited s.history) s.groups
  pub mirrored : All (IsMirrored s.findings) s.groups
  -- the foreign keys of the two tables
  pub history_known : All (λ (h : History). h.group_id < fresh_group_id s.groups) s.history
  pub findings_known : All (λ (f : Finding). f.group_id < fresh_group_id s.groups) s.findings
