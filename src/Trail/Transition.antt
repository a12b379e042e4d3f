-- ===== src/Trail/Transition.antt =====
-- The tables of the audit trail after a transition of app/services/workflow_service.py.
use mathlib.Core.Path.{subst}
use iam_sentinel_ese.Domain.Enums.{Status, severity_eq, status_eq}
use iam_sentinel_ese.Models.{Group, History, Session, fresh_group_id, get_group, update_group}
use iam_sentinel_ese.Prelude.{
  All, All-append, All-both, Option, String, [], contains, nat_eq, none, option_eq, refl, some,
  string_eq, sym, true, ℕ, ◌++◌, ◌<◌, ◌∙◌, ◌∷◌, ◌≡◌,
}
use iam_sentinel_ese.Rbac.{role_eq}
use iam_sentinel_ese.Service.{Result, ⊤}
use iam_sentinel_ese.Table.Laws.{
  All-get, All-update, Distinct-update, fresh-update, get-key, get_unique, key-lt-fresh,
}
use iam_sentinel_ese.Trail.{IsAudited, IsConsistent, IsMirrored, carries_on}
use iam_sentinel_ese.Trail.Rows.{
  All-sync, mirror-sync_ne, mirror-sync_self, replay-append_ne, replay-append_self,
}
use iam_sentinel_ese.Workflow.{
  allowed_transitions, clean_note, sync_findings, transition, write_transition,
}
use iam_sentinel_ese.Workflow.Machine.{
  Outcome, Allowed-iff, missing, moved, refused, transition-Outcome,
}

abbrev with_status : Status → Group → Group
with_status st g = record g { current_status = st }

abbrev row : Group → Status → Option ℕ → Option String → History
row g st actor memo = record {
  group_id = g.id;
  from_status = some g.current_status;
  to_status = st;
  actor_id = actor;
  note = clean_note memo;
}

-- An allowed move carries on from the status that it leaves.
row-carries_on :
    (g : Group) (st : Status) (actor : Option ℕ) (memo : Option String)
    → contains st (allowed_transitions g.current_status) ≡ true
    → carries_on (some g.current_status) (row g st actor memo) ≡ true
unfolding carries_on
row-carries_on g st actor memo h =
    rw (h, (status_eq.beq_iff g.current_status g.current_status).1 refl)

module _ (g : Group) (st : Status) (actor : Option ℕ) (memo : Option String) (s : Session)
    (found : get_group g.id s.groups ≡ some g)
    (may : contains st (allowed_transitions g.current_status) ≡ true) where
  audited :
      All (IsAudited s.history) s.groups
      → All
          (IsAudited (s.history ++ row g st actor memo ∷ []))
          (update_group g.id (with_status st) s.groups)
  audited a =
      All-update (λ (h : Group). h.id) (IsAudited s.history)
        (IsAudited (s.history ++ row g st actor memo ∷ [])) g.id (with_status st) s.groups
        (λ r e h.
          replay-append_self r.id none s.history (row g st actor memo) (some g.current_status)
            (sym e)
            (rw e (All-get (λ (h : Group). h.id) (IsAudited s.history) g.id s.groups g a found))
            (row-carries_on g st actor memo may))
        (λ r e h. replay-append_ne r.id none s.history _ (λ d. e (sym d)) ∙ h) a

  -- the group that the lookup found is the only one with its key
  abbrev IsFound : Group → Type 0
  IsFound r = r.id ≡ g.id → r ≡ g

  mirrored :
      All IsFound s.groups
      → All (IsMirrored s.findings) s.groups
      → All
          (IsMirrored (sync_findings g.id g.last_seen_run st s.findings))
          (update_group g.id (with_status st) s.groups)
  mirrored u m =
      All-update (λ (h : Group). h.id) (λ r. IsFound r × IsMirrored s.findings r)
        (IsMirrored (sync_findings g.id g.last_seen_run st s.findings)) g.id (with_status st)
        s.groups
        (λ r e h.
          subst
            (λ q. IsMirrored (sync_findings g.id g.last_seen_run st s.findings) (with_status st q))
            (sym (h.0 e)) (mirror-sync_self g.id g.last_seen_run st s.findings))
        (λ r e h. mirror-sync_ne g.id g.last_seen_run st r s.findings e h.1)
        (All-both IsFound (IsMirrored s.findings) s.groups u m)

  same_keys : fresh_group_id (update_group g.id (with_status st) s.groups) ≡ fresh_group_id s.groups
  same_keys = fresh-update (λ (h : Group). h.id) g.id (with_status st) s.groups (λ r. refl)

  known : g.id < fresh_group_id s.groups
  known =
      All-get (λ (h : Group). h.id) (λ h. h.id < fresh_group_id s.groups) g.id s.groups g
        (key-lt-fresh (λ (h : Group). h.id) s.groups) found

  -- A permitted write keeps the tables consistent.
  pub write_transition-IsConsistent :
      IsConsistent s → IsConsistent (write_transition g st actor memo s)
  unfolding write_transition
  write_transition-IsConsistent c = record {
    distinct =
        Distinct-update (λ (h : Group). h.id) g.id (with_status st) s.groups (λ r. refl) c.distinct;
    audited = audited c.audited;
    mirrored =
        mirrored (get_unique (λ (h : Group). h.id) g.id s.groups g c.distinct found) c.mirrored;
    history_known = rw same_keys (All-append _ s.history _ c.history_known (known, tt));
    findings_known = rw same_keys (
        All-sync (λ f. f.group_id < fresh_group_id s.groups) g.id g.last_seen_run st s.findings
          (λ f h. h) c.findings_known);
  }

Outcome-IsConsistent :
    (gid : ℕ) (st : Status) (actor : Option ℕ) (memo : Option String) (s : Session)
    {r : Result ⊤ × Session}
    → IsConsistent s
    → Outcome gid st actor memo s r
    → IsConsistent r.1
Outcome-IsConsistent gid st actor memo s c (missing e) = c
Outcome-IsConsistent gid st actor memo s c (refused g e never) = c
Outcome-IsConsistent gid st actor memo s c (moved g e may) =
    write_transition-IsConsistent g st actor memo s (get-key (λ (h : Group). h.id) gid s.groups g e)
      ((Allowed-iff g.current_status st).1 may) c

-- Whether it moves the group or raises, `transition` keeps the tables consistent: the history of
-- every group stays a run of the state machine that ends in its status, and the findings of its
-- last run show that status.
pub transition-IsConsistent :
    (gid : ℕ) (st : Status) (actor : Option ℕ) (memo : Option String) (s : Session)
    → IsConsistent s
    → IsConsistent (transition gid st actor memo s).1
transition-IsConsistent gid st actor memo s c =
    Outcome-IsConsistent gid st actor memo s c (transition-Outcome gid st actor memo s)
