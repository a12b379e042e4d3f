-- ===== src/Bulk/Kept.antt =====
-- What the batches of app/services/bulk_service.py keep of what the tables promise.
use iam_sentinel_ese.Bulk.{bulk_assign, bulk_exception, bulk_transition, empty_result, kind_action}
use iam_sentinel_ese.Bulk.Batch.{bulk_each-keeps, record-keeps}
use iam_sentinel_ese.Collaboration.{assign, write_assign}
use iam_sentinel_ese.Collaboration.Assign.{assign_changed, assign_missing, assign_same}
use iam_sentinel_ese.Domain.Enums.{Status, status_eq}
use iam_sentinel_ese.Exceptions.{create_exception}
use iam_sentinel_ese.Exceptions.Reopen.{group_key}
use iam_sentinel_ese.Exceptions.Revoke.{IsSound}
use iam_sentinel_ese.Exceptions.Sound.{create_exception-IsConsistent, create_exception-IsSound}
use iam_sentinel_ese.Models.{
  AuditEvent, Group, Session, assignee_meta, exception_meta, get_group, to_meta,
}
use iam_sentinel_ese.Prelude.{
  Bool-cases, List, Option, Option-cases, String, inl, inr, nat_eq, option_eq, refl, some,
  string_eq, ℕ, ◌==◌,
}
use iam_sentinel_ese.Rbac.{Role, role_eq}
use iam_sentinel_ese.Table.Laws.{All-update, Distinct-update, fresh-update}
use iam_sentinel_ese.Trail.{IsConsistent}
use iam_sentinel_ese.Trail.Transition.{transition-IsConsistent}
use iam_sentinel_ese.Workflow.{transition}

-- Audit events are no part of what the tables promise.
audit-IsConsistent :
    (s : Session) (a : List AuditEvent) → IsConsistent s → IsConsistent (record s { audit = a })
audit-IsConsistent s a c = record {
  distinct = c.distinct;
  audited = c.audited;
  mirrored = c.mirrored;
  history_known = c.history_known;
  findings_known = c.findings_known;
}

audit-IsSound : (s : Session) (a : List AuditEvent) → IsSound s → IsSound (record s { audit = a })
audit-IsSound s a h = record {
  consistent = audit-IsConsistent s a h.consistent;
  covered = record { keys = h.covered.keys; counted = h.covered.counted };
}

assigned-IsConsistent :
    (g : Group) (assignee actor : Option ℕ) (s : Session)
    → IsConsistent s
    → IsConsistent (write_assign g assignee actor s)
assigned-IsConsistent g assignee actor s c =
    let f : Group → Group = λ r. record r { assignee_id = assignee } in
    let same_keys = fresh-update group_key g.id f s.groups (λ r. refl) in
    record {
      distinct = Distinct-update group_key g.id f s.groups (λ r. refl) c.distinct;
      audited = All-update group_key _ _ g.id f s.groups (λ r e h. h) (λ r e h. h) c.audited;
      mirrored = All-update group_key _ _ g.id f s.groups (λ r e h. h) (λ r e h. h) c.mirrored;
      history_known = rw same_keys c.history_known;
      findings_known = rw same_keys c.findings_known;
    }

-- An assignment changes nothing that the audit trail speaks of.
assign-IsConsistent :
    (gid : ℕ) (assignee actor : Option ℕ) (s : Session)
    → IsConsistent s
    → IsConsistent (assign gid assignee actor s).1
assign-IsConsistent gid assignee actor s c = elim (Option-cases (get_group gid s.groups)) [
  | inl e ↦ rw (assign_missing gid assignee actor s e) c
  | inr (g, found) ↦ elim (Bool-cases (g.assignee_id == assignee)) [
    | inl h ↦ rw (assign_same gid assignee actor s g found h) c
    | inr h ↦
        rw (assign_changed gid assignee actor s g found h)
          (assigned-IsConsistent g assignee actor s c)
  ]
]

-- Each of the three batches keeps the audit trail consistent, whatever its items are and however
-- many of them fail.
pub bulk-IsConsistent :
    (ids : List ℕ) (st : Status) (actor assignee : Option ℕ) (memo : Option String)
    (reason : String) (author : ℕ) (role : Option Role) (expires_at : Option String) (s : Session)
    → IsConsistent s
    → IsConsistent (bulk_transition ids st actor memo s).1
      × IsConsistent (bulk_assign ids assignee actor s).1
      × IsConsistent (bulk_exception ids st reason author role expires_at s).1
unfolding bulk_transition bulk_assign bulk_exception
bulk-IsConsistent ids st actor assignee memo reason author role expires_at s c = (
  record-keeps actor "transition" (to_meta st) IsConsistent audit-IsConsistent _ _ _ refl (
      bulk_each-keeps (λ i. transition i st actor memo) IsConsistent
        (λ i q. transition-IsConsistent i st actor memo q) ids (empty_result "transition") s c),
  record-keeps actor "assign" (assignee_meta assignee) IsConsistent audit-IsConsistent _ _ _ refl (
      bulk_each-keeps (λ i. assign i assignee actor) IsConsistent
        (λ i q. assign-IsConsistent i assignee actor q) ids (empty_result "assign") s c),
  record-keeps (some author) (kind_action st) (exception_meta reason expires_at) IsConsistent
      audit-IsConsistent _ _ _ refl
      (bulk_each-keeps (λ i. create_exception i st reason author role expires_at) IsConsistent
        (λ i q. create_exception-IsConsistent i st reason author role expires_at q) ids
        (empty_result (kind_action st)) s c),
)

-- A batch of exceptions keeps the tables sound, whatever its items are and however many of them
-- fail.
pub bulk_exception-IsSound :
    (ids : List ℕ) (kind : Status) (reason : String) (author : ℕ) (role : Option Role)
    (expires_at : Option String) (s : Session)
    → IsSound s
    → IsSound (bulk_exception ids kind reason author role expires_at s).1
unfolding bulk_exception
bulk_exception-IsSound ids kind reason author role expires_at s h =
    record-keeps (some author) (kind_action kind) (exception_meta reason expires_at) IsSound
      audit-IsSound _ _ _ refl
      (bulk_each-keeps (λ i. create_exception i kind reason author role expires_at) IsSound
        (λ i q. create_exception-IsSound i kind reason author role expires_at q) ids
        (empty_result (kind_action kind)) s h)
