-- ===== src/Exceptions/Coverage.antt =====
-- When exceptions and statuses agree: a group has one active exception in the two exception states of
-- app/services/exception_service.py, and none in the others.
use iam_sentinel_ese.Exceptions.Create
use iam_sentinel_ese.Domain.Dates.{Text}
use iam_sentinel_ese.Domain.Enums.{Status}
use iam_sentinel_ese.Exceptions.{is_exception_status, new_row}
use iam_sentinel_ese.Exceptions.Active.{active_count, active_count-append, exception_key}
use iam_sentinel_ese.Models.{Exception, Group, Session, get_group, update_group}
use iam_sentinel_ese.Prelude.{
  All, All-both, List, Option, String, [], ap, arith, if◌then◌else◌, refl, some, true, ℕ, ◌++◌, ◌∙◌,
  ◌∷◌, ◌≡◌,
}
use iam_sentinel_ese.Prelude.Text.{strip}
use iam_sentinel_ese.Rbac.{Role}
use iam_sentinel_ese.Service.{Result, ⊤}
use iam_sentinel_ese.Table.Laws.{
  All-update, Distinct, Distinct-append, get_unique, key-get, key-lt-fresh,
}
use iam_sentinel_ese.Workflow.{write_transition}

-- how many active exceptions a status calls for
abbrev pub expected_count : Status → ℕ
expected_count status = if is_exception_status status then 1 else 0

abbrev pub IsCoveredBy : List Exception → Group → Type 0
IsCoveredBy es g = active_count g.id es ≡ expected_count g.current_status

pub record IsCovered (s : Session) : Type 0 where
  pub keys : Distinct exception_key s.exceptions
  pub counted : All (IsCoveredBy s.exceptions) s.groups

pub opened_expects : (st : Status) → st ≡ Status.opened → expected_count st ≡ 0
unfolding is_exception_status
opened_expects st h = rw h refl

pub exception_expects : (st : Status) → is_exception_status st ≡ true → expected_count st ≡ 1
exception_expects st h = rw h

created_counted :
    (gid : ℕ) (kind : Status) (reason : String) (actor_id : ℕ) (expiry : Option Text) (g : Group)
    (s : Session)
    → Distinct (λ (g : Group). g.id) s.groups
    → IsCovered s
    → get_group gid s.groups ≡ some g
    → g.current_status ≡ Status.opened
    → is_exception_status kind ≡ true
    → All
        (IsCoveredBy (s.exceptions ++ new_row gid kind reason actor_id expiry s.exceptions ∷ []))
        (update_group g.id (λ g. record g { current_status = kind }) s.groups)
created_counted gid kind reason actor_id expiry g s d c found was_open is_kind =
    let new = new_row gid kind reason actor_id expiry s.exceptions in
    let same_id : g.id ≡ gid = key-get (λ (g : Group). g.id) gid s.groups g found in
    All-update (λ (g : Group). g.id) (λ r. (r.id ≡ gid → r ≡ g) × IsCoveredBy s.exceptions r)
      (IsCoveredBy (s.exceptions ++ new ∷ [])) g.id (λ g. record g { current_status = kind })
      s.groups
      (λ r e h.
        let old : active_count r.id s.exceptions ≡ 0 =
          h.1
          ∙ opened_expects r.current_status
              (ap (λ (q : Group). q.current_status) (h.0 (e ∙ same_id)) ∙ was_open) in
        let more =
          active_count-append r.id gid kind reason actor_id expiry s.exceptions s.exceptions in
        more ∙ ground (arith, exception_expects kind is_kind))
      (λ r e h.
        let more =
          active_count-append r.id gid kind reason actor_id expiry s.exceptions s.exceptions in
        more ∙ ground (arith, h.1))
      (All-both _ _ s.groups (get_unique (λ (g : Group). g.id) gid s.groups g d found) c.counted)

-- `create_exception` keeps the agreement, whether it raises or not.
pub create_exception-IsCovered :
    (gid : ℕ) (kind : Status) (reason : String) (actor_id : ℕ) (actor_role : Option Role)
    (expires_at : Option String) (s : Session) {r : Result ⊤ × Session}
    → Distinct (λ (g : Group). g.id) s.groups
    → IsCovered s
    → Create.Outcome gid kind reason actor_id actor_role expires_at s r
    → IsCovered r.1
unfolding write_transition
create_exception-IsCovered gid kind reason actor_id role expires_at s d c (Create.refused e why) = c
create_exception-IsCovered gid kind reason actor_id role expires_at s d c
      (Create.created g expiry found was_open h) =
    record {
      keys =
          Distinct-append exception_key s.exceptions _ (key-lt-fresh exception_key s.exceptions)
            c.keys;
      counted =
          created_counted gid kind (strip reason) actor_id expiry g s d c found was_open h.is_kind;
    }
