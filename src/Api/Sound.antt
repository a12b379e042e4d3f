-- ===== src/Api/Sound.antt =====
-- The transition route of app/api/findings.py, for a move into a state that carries no exception.
use iam_sentinel_ese.Workflow.Machine
use mathlib.Core.Bool.{false≢true}
use mathlib.Core.Path.{subst}
use iam_sentinel_ese.Api.{
  Response, failure, forbidden, guarded, has_detail, in_scope, move_found, move_group, not_found,
  revoke_note, success, transition_route,
}
use iam_sentinel_ese.Domain.Enums.{Status, status_eq}
use iam_sentinel_ese.Exceptions.{is_exception_status}
use iam_sentinel_ese.Exceptions.Active.{active_count}
use iam_sentinel_ese.Exceptions.Coverage.{IsCovered, IsCoveredBy}
use iam_sentinel_ese.Exceptions.Reopen.{group_key}
use iam_sentinel_ese.Exceptions.Revoke.{IsSound, revoke_exception-IsSound}
use iam_sentinel_ese.Models.{Group, Session, User, get_group}
use iam_sentinel_ese.Prelude.{
  Bool, Bool-cases, Option, Option-cases, String, arith, false, if◌then◌else◌, inl, inr, nat_eq,
  not, option_eq, refl, some, string_eq, true, ℕ, ◌&&◌, ◌==◌, ◌∙◌, ◌≡◌,
}
use iam_sentinel_ese.Rbac.{Capability, at_least, required, role_eq, workflow_transition}
use iam_sentinel_ese.Service.{Action, Result, attached_found, attached_missing, err, ok, ⊤}
use iam_sentinel_ese.Table.Laws.{All-get, All-update}
use iam_sentinel_ese.Trail.Transition.{transition-IsConsistent}
use iam_sentinel_ese.Workflow.{write_transition}
use iam_sentinel_ese.Workflow.Machine.{Allowed}

-- A failed call is rolled back.
in_scope-keeps :
    (P : Session → Type 0) (call : Action ⊤) (s : Session)
    → P s
    → P (call s).1
    → P (in_scope call s).1
unfolding in_scope
in_scope-keeps P call s before after = settle (call s).0 after
  where
    settle :
        (r : Result ⊤)
        → P (call s).1
        → P
            (elim r as (λ _. Response × Session) [
              | ok _ ↦ (success, (call s).1)
              | err e ↦ (failure e, s)
            ]).1
    settle (ok _) h = h
    settle (err e) h = before

guarded-keeps :
    (P : Session → Type 0) (capability : Capability) (actor : User) (gid : ℕ) (call : Action ⊤)
    (s : Session)
    → P s
    → P (call s).1
    → P (guarded capability actor gid call s).1
unfolding guarded
guarded-keeps P capability actor gid call s before after =
    allowed (not (at_least s.public_mode (some actor.role) (required capability)))
  where
    shown : (b : Bool) → P (if b then (not_found, s) else in_scope call s).1
    shown true = before
    shown false = in_scope-keeps P call s before after

    allowed :
        (b : Bool)
        → P
            (if b
              then (forbidden, s)
              else if not (has_detail gid s)
              then (not_found, s)
              else in_scope call s).1
    allowed true = before
    allowed false = shown (not (has_detail gid s))

-- An exception state is left for `open` alone.
leaves_to_open :
    (a b : Status) → Allowed a b → is_exception_status a ≡ true → (b == Status.opened) ≡ true
unfolding is_exception_status
leaves_to_open a b Allowed.start h = absurd (false≢true h)
leaves_to_open a b Allowed.suppress h = absurd (false≢true h)
leaves_to_open a b Allowed.accept h = absurd (false≢true h)
leaves_to_open a b Allowed.resolve h = absurd (false≢true h)
leaves_to_open a b Allowed.put_back h = refl
leaves_to_open a b Allowed.reopen_resolved h = refl
leaves_to_open a b Allowed.reopen_suppressed h = refl
leaves_to_open a b Allowed.reopen_accepted h = refl

not_both : (a b : Bool) → a ≡ true → b ≡ true → (a && b) ≡ false → ⊥
not_both a b h k e = ground arith

plain_move-IsCovered :
    (gid : ℕ) (st : Status) (actor : Option ℕ) (memo : Option String) (s : Session)
    {r : Result ⊤ × Session}
    → IsCovered s
    → is_exception_status st ≡ false
    → ((g : Group)
        → get_group gid s.groups ≡ some g
        → Allowed g.current_status st
        → is_exception_status g.current_status ≡ false)
    → Machine.Outcome gid st actor memo s r
    → IsCovered r.1
unfolding write_transition
plain_move-IsCovered gid st actor memo s c plain from_plain (Machine.missing e) = c
plain_move-IsCovered gid st actor memo s c plain from_plain (Machine.refused g e never) = c
plain_move-IsCovered gid st actor memo s c plain from_plain (Machine.moved g found may) =
    let old : active_count g.id s.exceptions ≡ 0 =
      All-get group_key (IsCoveredBy s.exceptions) gid s.groups g c.counted found
      ∙ rw (from_plain g found may) refl in
    record {
      keys = c.keys;
      counted =
          All-update group_key (IsCoveredBy s.exceptions) (IsCoveredBy s.exceptions) g.id
            (λ q. record q { current_status = st }) s.groups
            (λ r e h. (let y : active_count r.id s.exceptions ≡ 0 = rw e old in y) ∙ rw plain refl)
            (λ r e h. h) c.counted;
    }

module _ (actor : User) (gid : ℕ) (memo : Option String) (s : Session) where
  move_found-IsSound :
      (st : Status) (g : Group)
      → get_group gid s.groups ≡ some g
      → is_exception_status st ≡ false
      → IsSound s
      → IsSound (move_found gid st actor.id memo g s).1
  move_found-IsSound st g found plain h =
      elim (Bool-cases ((st == Status.opened) && is_exception_status g.current_status)) [
        | inl e ↦ rw e (revoke_exception-IsSound gid (some actor.id) (revoke_note memo) s h)
        | inr e ↦ rw e (record {
          consistent = transition-IsConsistent gid st (some actor.id) memo s h.consistent;
          covered =
              plain_move-IsCovered gid st (some actor.id) memo s h.covered plain
                (λ q at may. from_plain q at may e)
                (Machine.transition-Outcome gid st (some actor.id) memo s);
        })
      ]
    where
      from_plain :
          (q : Group)
          → get_group gid s.groups ≡ some q
          → Allowed q.current_status st
          → ((st == Status.opened) && is_exception_status g.current_status) ≡ false
          → is_exception_status q.current_status ≡ false
      from_plain q at may e = elim (Bool-cases (is_exception_status q.current_status)) [
        | inl x ↦
            let same : q ≡ g = cc in
            let y = subst (λ (z : Group). is_exception_status z.current_status ≡ true) same x in
            absurd (
              not_both (st == Status.opened) (is_exception_status g.current_status)
                (leaves_to_open q.current_status st may x) y e)
        | inr x ↦ x
      ]

  move_group-IsSound :
      (st : Status)
      → is_exception_status st ≡ false
      → IsSound s
      → IsSound (move_group gid st actor.id memo s).1
  unfolding move_group
  move_group-IsSound st plain h = elim (Option-cases (get_group gid s.groups)) [
    | inl e ↦ rw (attached_missing gid (move_found gid st actor.id memo) s e) h
    | inr (g, found) ↦
        rw (attached_found gid (move_found gid st actor.id memo) s g found)
          (move_found-IsSound st g found plain h)
  ]

  -- A transition into a state that carries no exception, reopening included, keeps the audit trail,
  -- the mirror, and the agreement of exceptions and statuses.
  pub transition_route-IsSound :
      (st : Status)
      → is_exception_status st ≡ false
      → IsSound s
      → IsSound (transition_route actor gid st memo s).1
  unfolding transition_route
  transition_route-IsSound st plain h =
      guarded-keeps IsSound workflow_transition actor gid (move_group gid st actor.id memo) s h
        (move_group-IsSound st plain h)
