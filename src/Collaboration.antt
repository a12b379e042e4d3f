-- ===== src/Collaboration.antt =====
-- app/services/collaboration.py: comments on a finding group, and its assignee.
pub mod Assign
use iam_sentinel_ese.Models.{Group, Session, User, assignment, get_user, group_target, update_group}
use iam_sentinel_ese.Prelude.{
  List, Option, String, [], if◌then◌else◌, nat_eq, none, option_eq, some, string_eq, ℕ, ◌++◌, ◌==◌,
  ◌∷◌,
}
use iam_sentinel_ese.Prelude.Text.{is_empty, strip}
use iam_sentinel_ese.Service.{
  Action, attached, comment_empty, modify, pure, raise_if, ⊤, ◌>>=◌, ◌>>◌,
}

unfoldable pub add_comment : ℕ → ℕ → String → Action ⊤
add_comment gid author_id body = do
  let clean = strip body
  raise_if (is_empty clean) comment_empty
  group ← attached gid
  modify (λ s. record s {
    comments =
        s.comments ++ record { group_id = group.id; author_id = author_id; body = clean } ∷ [];
  })

-- `_display_name`
unfoldable pub display_name : Option ℕ → List User → Option String
display_name none users = none
display_name (some user_id) users = elim (get_user user_id users) [
  | none ↦ none
  | some user ↦ some user.display_name
]

-- `"unassign" if assignee_id is None else "assign"`
abbrev pub assign_action : Option ℕ → String
assign_action none = "unassign"
assign_action (some _) = "assign"

-- what `assign` writes when the assignee changes
abbrev pub write_assign : Group → Option ℕ → Option ℕ → Session → Session
write_assign group assignee_id actor_id s = record s {
  groups = update_group group.id (λ g. record g { assignee_id = assignee_id }) s.groups;
  audit =
      s.audit
      ++ record {
        actor_id = actor_id;
        action = assign_action assignee_id;
        target = some (group_target group.id);
        event_metadata =
            assignment group.assignee_id (display_name group.assignee_id s.users) assignee_id
              (display_name assignee_id s.users);
      }
        ∷ [];
}

unfoldable pub assign : ℕ → Option ℕ → Option ℕ → Action ⊤
assign gid assignee_id actor_id = do
  group ← attached gid
  if group.assignee_id == assignee_id
      then pure tt
      else modify (write_assign group assignee_id actor_id)
