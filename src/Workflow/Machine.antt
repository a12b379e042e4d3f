-- ===== src/Workflow/Machine.antt =====
-- What the state machine of app/services/workflow_service.py promises.
use mathlib.Core.Bool.{false≢true}
use iam_sentinel_ese.Domain.Enums.{Status, severity_eq, status_eq}
use iam_sentinel_ese.Models.{Group, Session, get_group}
use iam_sentinel_ese.Prelude.{
  Bool-cases, Option, Option-cases, String, arith, contains, false, inl, inr, nat_eq, none,
  option_eq, refl, some, string_eq, sym, true, ℕ, ◌↔◌, ◌∙◌, ◌≡◌,
}
use iam_sentinel_ese.Rbac.{role_eq}
use iam_sentinel_ese.Service.{Result, detached, err, invalid_transition, ok, ⊤}
use iam_sentinel_ese.Workflow.{allowed_transitions, transition, write_transition}

-- A move that the table permits.
pub data Allowed : Status → Status → Type 0 where
  start : Allowed Status.opened Status.investigating
  suppress : Allowed Status.opened Status.suppressed
  accept : Allowed Status.opened Status.accepted_risk
  resolve : Allowed Status.investigating Status.resolved
  put_back : Allowed Status.investigating Status.opened
  reopen_resolved : Allowed Status.resolved Status.opened
  reopen_suppressed : Allowed Status.suppressed Status.opened
  reopen_accepted : Allowed Status.accepted_risk Status.opened

-- The table and the relation agree.
pub Allowed-iff : (a b : Status) → (contains b (allowed_transitions a) ≡ true) ↔ Allowed a b
Allowed-iff a b = (sound a b, complete)
  where
    sound : (a b : Status) → contains b (allowed_transitions a) ≡ true → Allowed a b
    sound Status.opened Status.investigating h = start
    sound Status.opened Status.suppressed h = suppress
    sound Status.opened Status.accepted_risk h = accept
    sound Status.investigating Status.resolved h = resolve
    sound Status.investigating Status.opened h = put_back
    sound Status.resolved Status.opened h = reopen_resolved
    sound Status.suppressed Status.opened h = reopen_suppressed
    sound Status.accepted_risk Status.opened h = reopen_accepted
    sound _ _ h = ground arith

    complete : {a b : Status} → Allowed a b → contains b (allowed_transitions a) ≡ true
    complete start = refl
    complete suppress = refl
    complete accept = refl
    complete resolve = refl
    complete put_back = refl
    complete reopen_resolved = refl
    complete reopen_suppressed = refl
    complete reopen_accepted = refl

-- What a call of `transition` does: the three ways that it ends, and all that it writes.
pub data Outcome (gid : ℕ) (st : Status) (actor : Option ℕ) (memo : Option String) (s : Session)
    : Result ⊤ × Session → Type 0 where
  missing : get_group gid s.groups ≡ none → Outcome gid st actor memo s (err detached, s)
  refused :
      (g : Group)
      → get_group gid s.groups ≡ some g
      → ¬ Allowed g.current_status st
      → Outcome gid st actor memo s (err (invalid_transition g.current_status st), s)
  moved :
      (g : Group)
      → get_group gid s.groups ≡ some g
      → Allowed g.current_status st
      → Outcome gid st actor memo s (ok tt, write_transition g st actor memo s)

module _ (gid : ℕ) (st : Status) (actor : Option ℕ) (memo : Option String) (s : Session) where
  pub transition-missing :
      get_group gid s.groups ≡ none → transition gid st actor memo s ≡ (err detached, s)
  unfolding transition
  transition-missing e = ground arith

  pub transition-refused :
      (g : Group)
      → get_group gid s.groups ≡ some g
      → contains st (allowed_transitions g.current_status) ≡ false
      → transition gid st actor memo s ≡ (err (invalid_transition g.current_status st), s)
  unfolding transition
  transition-refused g found never = ground arith

  pub transition-moved :
      (g : Group)
      → get_group gid s.groups ≡ some g
      → contains st (allowed_transitions g.current_status) ≡ true
      → transition gid st actor memo s ≡ (ok tt, write_transition g st actor memo s)
  unfolding transition
  transition-moved g found may = ground arith

  Outcome-found :
      (g : Group)
      → get_group gid s.groups ≡ some g
      → Outcome gid st actor memo s (transition gid st actor memo s)
  Outcome-found g found = elim (Bool-cases (contains st (allowed_transitions g.current_status))) [
    | inl may ↦
        rw (transition-moved g found may) (moved g found ((Allowed-iff g.current_status st).0 may))
    | inr never ↦
        rw (transition-refused g found never)
          (refused g found (λ a. false≢true (sym never ∙ (Allowed-iff g.current_status st).1 a)))
  ]

-- `transition` raises on a move that the state machine does not allow, and then writes nothing; it
-- makes every move that is allowed.
pub transition-Outcome :
    (gid : ℕ) (st : Status) (actor : Option ℕ) (memo : Option String) (s : Session)
    → Outcome gid st actor memo s (transition gid st actor memo s)
transition-Outcome gid st actor memo s = elim (Option-cases (get_group gid s.groups)) [
  | inl e ↦ rw (transition-missing gid st actor memo s e) (missing e)
  | inr (g, found) ↦ Outcome-found gid st actor memo s g found
]
