-- ===== src/Workflow.antt =====
-- app/services/workflow_service.py: the finding-status state machine and its audit trail.
pub mod Machine
pub mod Effect
use iam_sentinel_ese.Prelude.{
  ℕ, String, Bool, not, ◌&&◌, Option, none, some, List, [], ◌∷◌, ◌++◌, map, ◌==◌, nat_eq, contains,
  filter_by, if◌then◌else◌,
}
use iam_sentinel_ese.Prelude.Text.{strip, is_empty}
use iam_sentinel_ese.Domain.Enums.{
  Status, opened, investigating, resolved, suppressed, accepted_risk, other, status_eq,
}
use iam_sentinel_ese.Rbac.{Role, Minimum, at_least}
use iam_sentinel_ese.Models.{Session, Group, Finding, History, update_group}
use iam_sentinel_ese.Service.{
  Error, invalid_transition, Action, ⊤, pure, raise_if, modify, attached, ◌>>=◌, ◌>>◌,
}

-- `TRANSITION_ACTIONS.get(status, [])`: the targets with their labels, in button order
abbrev pub transition_actions : Status → List (Status × String)
transition_actions opened =
    (investigating, "Start investigating")
    ∷ (Status.suppressed, "Suppress")
    ∷ (Status.accepted_risk, "Accept risk")
    ∷ []
transition_actions investigating = (resolved, "Resolve") ∷ (opened, "Reopen") ∷ []
transition_actions resolved = (opened, "Reopen") ∷ []
transition_actions Status.accepted_risk = (opened, "Reopen") ∷ []
transition_actions Status.suppressed = (opened, "Reopen") ∷ []
transition_actions (other s) = []

-- `ALLOWED_TRANSITIONS.get(status, set())`
abbrev pub allowed_transitions : Status → List Status
allowed_transitions status = map (λ action. action.0) (transition_actions status)

-- `available_actions(status, role)`
unfoldable pub available_actions : Bool → Status → Option Role → List (Status × String)
available_actions public_mode status none = transition_actions status
available_actions public_mode status (some role) =
    if not (at_least public_mode (some role) Minimum.analyst)
    then []
    else if not (at_least public_mode (some role) Minimum.admin)
    then filter_by (λ action. not (action.0 == Status.accepted_risk)) (transition_actions status)
    else transition_actions status

-- `(note or "").strip() or None`
unfoldable pub clean_note : Option String → Option String
clean_note none = none
clean_note (some note) = let text = strip note in if is_empty text then none else some text

-- `update(Finding).where(group_id == gid, run_id == run).values(status=to_status)`
abbrev pub set_finding_status : ℕ → ℕ → Status → List Finding → List Finding
set_finding_status gid run to_status [] = []
set_finding_status gid run to_status (f ∷ fs) =
    (if (f.group_id == gid) && (f.run_id == run) then record f { status = to_status } else f)
    ∷ set_finding_status gid run to_status fs

-- the snapshot of the group's last run, when it has one
abbrev pub sync_findings : ℕ → Option ℕ → Status → List Finding → List Finding
sync_findings gid none to_status fs = fs
sync_findings gid (some run) to_status fs = set_finding_status gid run to_status fs

-- what a permitted `transition` writes
unfoldable pub write_transition : Group → Status → Option ℕ → Option String → Session → Session
write_transition group to_status actor_id note s = record s {
  history =
      s.history
      ++ record {
        group_id = group.id;
        from_status = some group.current_status;
        to_status = to_status;
        actor_id = actor_id;
        note = clean_note note;
      }
        ∷ [];
  groups = update_group group.id (λ g. record g { current_status = to_status }) s.groups;
  findings = sync_findings group.id group.last_seen_run to_status s.findings;
}

unfoldable pub transition : ℕ → Status → Option ℕ → Option String → Action ⊤
transition gid to_status actor_id note = do
  group ← attached gid
  raise_if (not (contains to_status (allowed_transitions group.current_status)))
      (invalid_transition group.current_status to_status)
  modify (write_transition group to_status actor_id note)
