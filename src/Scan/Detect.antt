-- ===== src/Scan/Detect.antt =====
-- What one reported finding does to the tables, in `_get_or_create_group` and in the loop of
-- `_persist_findings` (app/services/scan_service.py).
use mathlib.Core.Bool.{false≢true}
use mathlib.Core.Path.{subst}
use iam_sentinel_ese.Domain.Enums.{Status, status_eq}
use iam_sentinel_ese.Exceptions.Reopen.{group_key}
use iam_sentinel_ese.Models.{
  Finding, Group, History, Session, fresh_group_id, get_group, update_group,
}
use iam_sentinel_ese.Prelude.{
  All, All-append, All-both, All-mono, All-of, Bool-cases, List, String, [], ap, arith, if_both,
  inl, inr, max, nat_eq, none, option_eq, refl, some, string_eq, sym, ℕ, ◌++◌, ◌+◌, ◌<◌, ◌==◌, ◌∙◌,
  ◌∷◌, ◌≡◌, ◌≢◌, ◌⊎◌,
}
use iam_sentinel_ese.Scan.{
  detected_row, find_group, redetected, redetected_status, write_detected, write_redetected,
}
use iam_sentinel_ese.Table.Laws.{
  All-get, All-update, Distinct, Distinct-append, Distinct-update, fresh-update, get_unique,
  key-lt-fresh, others,
}
use iam_sentinel_ese.Trail.{IsAudited, IsConsistent, IsMirrored, carries_on}
use iam_sentinel_ese.Trail.Rows.{replay-append_ne, replay-append_self, replay_unknown}

-- The tables while a run persists its findings: they are consistent, a group that the run has seen
-- is not resolved, and the run's findings belong to groups that it has seen.
pub record IsScanned (run_id : ℕ) (s : Session) : Type 0 where
  pub consistent : IsConsistent s
  pub seen :
      All
        (λ (g : Group). g.last_seen_run ≡ some run_id → g.current_status ≢ Status.resolved)
        s.groups
  pub own :
      All
        (λ (g : Group).
          All
            (λ (f : Finding). f.group_id ≡ g.id → f.run_id ≡ run_id → g.last_seen_run ≡ some run_id)
            s.findings)
        s.groups

-- the group that a finding is filed under
pub record IsDetected (run_id : ℕ) (g : Group) (s : Session) : Type 0 where
  pub scanned : IsScanned run_id s
  pub row : get_group g.id s.groups ≡ some g
  pub current : g.last_seen_run ≡ some run_id

find_cases :
    (account_id : ℕ) (fp : String) (q : Group) (gs : List Group) (g : Group)
    → find_group account_id fp (q ∷ gs) ≡ some g
    → (q ≡ g) ⊎ (find_group account_id fp gs ≡ some g)
find_cases account_id fp q gs g h = ground arith

-- The select returns the row that its key names.
pub get-find_group :
    (account_id : ℕ) (fp : String) (gs : List Group) (g : Group)
    → Distinct group_key gs
    → find_group account_id fp gs ≡ some g
    → get_group g.id gs ≡ some g
get-find_group account_id fp [] g d h = ground arith
get-find_group account_id fp (q ∷ gs) g d h = elim (find_cases account_id fp q gs g h) [
  | inl same ↦ rw same (ground arith)
  | inr later ↦
      let found = get-find_group account_id fp gs g d.1 later in
      let ne : g.id ≢ q.id = All-get group_key (λ r. r.id ≢ q.id) g.id gs g d.0 found in
      ground arith
]

pub redetected_open : (st : Status) → redetected_status st ≢ Status.resolved
redetected_open st h = ground arith

pub redetected_same : (st : Status) → st ≢ Status.resolved → redetected_status st ≡ st
redetected_same st ne = ground arith

pub fresh-append :
    (gs : List Group) (g : Group)
    → fresh_group_id (gs ++ g ∷ []) ≡ max (fresh_group_id gs) (g.id + 1)
fresh-append [] g = omega arith
fresh-append (q ∷ gs) g = rw (fresh-append gs g) (omega arith)

-- A known group.
module _ (run_id : ℕ) (g : Group) (s : Session) (found : get_group g.id s.groups ≡ some g)
    (d : Distinct group_key s.groups) where
  -- What an update of its row does.
  at_row :
      (P Q : Group → Type 0) (f : Group → Group)
      → (P g → Q (f g))
      → ((r : Group) → r.id ≢ g.id → P r → Q r)
      → All P s.groups
      → All Q (update_group g.id f s.groups)
  at_row P Q f mine others a =
      All-update group_key (λ r. (r.id ≡ g.id → r ≡ g) × P r) Q g.id f s.groups
        (λ r e h.
          subst (λ q. Q (f q)) (sym (h.0 e)) (mine (All-get group_key P g.id s.groups g a found)))
        (λ r e h. others r e h.1)
        (All-both _ P s.groups (get_unique group_key g.id s.groups g d found) a)

  abbrev again : History
  again = detected_row g.id (some Status.resolved) "Re-detected on new scan"

  reopened-IsAudited :
      g.current_status ≡ Status.resolved
      → All (IsAudited s.history) s.groups
      → All (IsAudited (s.history ++ again ∷ [])) (update_group g.id (redetected run_id) s.groups)
  unfolding carries_on
  reopened-IsAudited was a =
      at_row (IsAudited s.history) (IsAudited (s.history ++ again ∷ [])) (redetected run_id)
        (λ h.
          replay-append_self g.id none s.history again (some Status.resolved) refl
            (h ∙ ap (λ (x : Status). some (some x)) was) refl
          ∙ ap (λ (x : Status). some (some (redetected_status x))) (sym was))
        (λ r e h. replay-append_ne r.id none s.history again (λ k. e (sym k)) ∙ h) a

  kept-IsAudited :
      g.current_status ≢ Status.resolved
      → All (IsAudited s.history) s.groups
      → All (IsAudited s.history) (update_group g.id (redetected run_id) s.groups)
  kept-IsAudited was a =
      at_row (IsAudited s.history) (IsAudited s.history) (redetected run_id)
        (λ h. h ∙ ap (λ (x : Status). some (some x)) (sym (redetected_same g.current_status was)))
        (λ r e h. h) a

  redetected-IsAudited :
      All (IsAudited s.history) s.groups
      → All (IsAudited (write_redetected run_id g s).history) (write_redetected run_id g s).groups
  unfolding write_redetected
  redetected-IsAudited a = elim (Bool-cases (g.current_status == Status.resolved)) [
    | inl e ↦ rw e (reopened-IsAudited ((status_eq.beq_iff g.current_status Status.resolved).0 e) a)
    | inr e ↦ rw e (
        kept-IsAudited
          (λ was. false≢true (sym e ∙ (status_eq.beq_iff g.current_status Status.resolved).1 was))
          a)
  ]

  redetected-IsMirrored :
      IsScanned run_id s
      → All (IsMirrored s.findings) (update_group g.id (redetected run_id) s.groups)
  redetected-IsMirrored c =
      at_row _ (IsMirrored s.findings) (redetected run_id)
        (λ h.
          All-mono _ _ s.findings
            (λ f k e r.
              let cur = k.1 e (ground arith) in
              k.0 e (r ∙ sym cur) ∙ sym (redetected_same g.current_status (h.1.1 cur)))
            (All-both _ _ s.findings h.0 h.1.0))
        (λ r e h. h.0)
        (All-both _ _ s.groups c.consistent.mirrored (All-both _ _ s.groups c.own c.seen))

  same_keys :
      fresh_group_id (update_group g.id (redetected run_id) s.groups) ≡ fresh_group_id s.groups
  same_keys = fresh-update group_key g.id (redetected run_id) s.groups (λ r. refl)

  pub write_redetected-IsScanned :
      IsScanned run_id s → IsScanned run_id (write_redetected run_id g s)
  unfolding write_redetected
  write_redetected-IsScanned c = record {
    consistent = record {
      distinct = Distinct-update group_key g.id (redetected run_id) s.groups (λ r. refl) d;
      audited = redetected-IsAudited c.consistent.audited;
      mirrored = redetected-IsMirrored c;
      history_known = rw same_keys (
          if_both (All (λ (h : History). h.group_id < fresh_group_id s.groups)) _ _ _
            (All-append _ s.history _ c.consistent.history_known (
              (All-get group_key (λ q. q.id < fresh_group_id s.groups) g.id s.groups g
                  (key-lt-fresh group_key s.groups) found),
              tt,
            ))
            c.consistent.history_known);
      findings_known = rw same_keys c.consistent.findings_known;
    };
    seen =
        All-update group_key _ _ g.id (redetected run_id) s.groups
          (λ r e h k. redetected_open r.current_status) (λ r e h. h) c.seen;
    own =
        All-update group_key _ _ g.id (redetected run_id) s.groups
          (λ r e h. All-of _ s.findings (λ f e k. refl)) (λ r e h. h) c.own;
  }

-- A new group.
module _ (run_id : ℕ) (g : Group) (s : Session) (key : g.id ≡ fresh_group_id s.groups)
    (is_open : g.current_status ≡ Status.opened) where
  below : {m : ℕ} → m < fresh_group_id s.groups → m ≢ g.id
  below h e = omega arith

  grown : {m : ℕ} → m < fresh_group_id s.groups → m < fresh_group_id (s.groups ++ g ∷ [])
  grown h = rw (fresh-append s.groups g) (omega arith)

  unknown : IsConsistent s → All (λ (f : Finding). f.group_id ≢ g.id) s.findings
  unknown c = All-mono _ _ s.findings (λ f h. below h) c.findings_known

  new-IsAudited : IsConsistent s → IsAudited (s.history ++ detected_row g.id none "Detected" ∷ []) g
  unfolding carries_on
  new-IsAudited c =
      replay-append_self g.id none s.history (detected_row g.id none "Detected") none refl
        (replay_unknown g.id none s.history
          (All-mono _ _ s.history (λ h k. below k) c.history_known))
        refl
      ∙ ap (λ (x : Status). some (some x)) (sym is_open)

  pub write_detected-IsScanned : IsScanned run_id s → IsScanned run_id (write_detected g s)
  unfolding write_detected
  write_detected-IsScanned c =
      let keys : All (λ (r : Group). r.id < g.id) s.groups =
        rw key (key-lt-fresh group_key s.groups) in
      record {
        consistent = record {
          distinct = Distinct-append group_key s.groups g keys c.consistent.distinct;
          audited =
              All-append _ s.groups (g ∷ [])
                (All-mono _ _ s.groups
                  (λ r h.
                    replay-append_ne r.id none s.history (detected_row g.id none "Detected")
                      (λ k. below h.0 (sym k))
                    ∙ h.1)
                  (All-both _ _ s.groups (key-lt-fresh group_key s.groups) c.consistent.audited))
                (new-IsAudited c.consistent, tt);
          mirrored =
              All-append _ s.groups (g ∷ []) c.consistent.mirrored
                ((All-mono _ _ s.findings (λ f ne e r. absurd (ne e)) (unknown c.consistent)), tt);
          history_known =
              All-append _ s.history _
                (All-mono _ _ s.history (λ h k. grown k) c.consistent.history_known)
                ((rw (fresh-append s.groups g) (omega arith)), tt);
          findings_known = All-mono _ _ s.findings (λ f k. grown k) c.consistent.findings_known;
        };
        seen = All-append _ s.groups (g ∷ []) c.seen ((λ k r. absurd (cc)), tt);
        own =
            All-append _ s.groups (g ∷ []) c.own
              ((All-mono _ _ s.findings (λ f ne e r. absurd (ne e)) (unknown c.consistent)), tt);
      }
