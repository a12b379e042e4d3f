-- ===== src/Collaboration/Assign.antt =====
-- What `assign` of app/services/collaboration.py promises.
use iam_sentinel_ese.Collaboration.{assign, write_assign}
use iam_sentinel_ese.Exceptions.Reopen.{group_key}
use iam_sentinel_ese.Models.{Group, Session, get_group}
use iam_sentinel_ese.Prelude.{
  Bool-cases, Option, ap, arith, false, if◌then◌else◌, inl, inr, length, length-append, nat_eq,
  none, option_eq, refl, some, string_eq, sym, true, ℕ, ◌+◌, ◌==◌, ◌∙◌, ◌≡◌, ◌≢◌,
}
use iam_sentinel_ese.Service.{Result, detached, err, ok, ⊤}
use iam_sentinel_ese.Table.Laws.{get-update_found, get-update_ne, key-get}

pub assign_missing :
    (gid : ℕ) (assignee actor : Option ℕ) (s : Session)
    → get_group gid s.groups ≡ none
    → assign gid assignee actor s ≡ (err detached, s)
unfolding assign
assign_missing gid assignee actor s e = ground arith

module _ (gid : ℕ) (assignee actor : Option ℕ) (s : Session) (g : Group)
    (found : get_group gid s.groups ≡ some g) where
  pub assign_same : (g.assignee_id == assignee) ≡ true → assign gid assignee actor s ≡ (ok tt, s)
  unfolding assign
  assign_same h = ground arith

  pub assign_changed :
      (g.assignee_id == assignee) ≡ false
      → assign gid assignee actor s ≡ (ok tt, write_assign g assignee actor s)
  unfolding assign
  assign_changed h = ground arith

abbrev pub Effect : ℕ → Option ℕ → Session → Group → ℕ → ℕ → Result ⊤ × Session → Type 0
Effect gid assignee s g j events (r, s') =
    (r ≡ ok tt)
    × (get_group gid s'.groups ≡ some (record g { assignee_id = assignee }))
    × (get_group j s'.groups ≡ get_group j s.groups)
    × (length s'.audit ≡ length s.audit + events)

-- Once a group has been assigned, its assignee is the one asked for, the rest of its row and any
-- other group are as they were, and one audit event has been written if the assignee changed, none
-- if it did not.
pub assign-Effect :
    (gid : ℕ) (assignee actor : Option ℕ) (s : Session) (g : Group) (j : ℕ)
    → get_group gid s.groups ≡ some g
    → gid ≢ j
    → Effect gid assignee s g j
        (if g.assignee_id == assignee then 0 else 1)
        (assign gid assignee actor s)
assign-Effect gid assignee actor s g j found ne = elim (Bool-cases (g.assignee_id == assignee)) [
  | inl h ↦ rw (assign_same gid assignee actor s g found h) (
    refl,
    found
        ∙ ap (λ (a : Option ℕ). some (record g { assignee_id = a }))
            ((option_eq.beq_iff g.assignee_id assignee).0 h),
    refl,
    rw h (omega arith),
  )
  | inr h ↦ rw (assign_changed gid assignee actor s g found h) (
    refl,
    get-update_found group_key gid (λ q. record q { assignee_id = assignee }) s.groups g (λ r. refl)
        found,
    get-update_ne group_key g.id j (λ q. record q { assignee_id = assignee }) s.groups (λ r. refl)
        (λ k. ne (sym (key-get group_key gid s.groups g found) ∙ k)),
    rw h (length-append s.audit _),
  )
]
