-- ===== src/Tests/Exceptions.antt =====
-- The exception services at the tables of `Data`.
use iam_sentinel_ese.Domain.Dates.{IsDate, Text, isoformat}
use iam_sentinel_ese.Domain.Enums.{Status}
use iam_sentinel_ese.Exceptions.{create_exception, expire_exceptions, revoke_exception}
use iam_sentinel_ese.Exceptions.Active.{exception_key}
use iam_sentinel_ese.Exceptions.Cleared.{IsOpen}
use iam_sentinel_ese.Exceptions.Create.{accept_risk_denied}
use iam_sentinel_ese.Exceptions.Due.{IsSettled, expire_exceptions-IsSettled}
use iam_sentinel_ese.Exceptions.Effect.{Effect, create_exception-Effect}
use iam_sentinel_ese.Exceptions.Resurface.{expire_exceptions-IsSound}
use iam_sentinel_ese.Exceptions.Revoke.{IsSound, revoke_exception-IsSound}
use iam_sentinel_ese.Exceptions.Sound.{create_exception-IsSound}
use iam_sentinel_ese.Exceptions.Stored.{AreDated, exceptions-AreDated}
use iam_sentinel_ese.Models.{Session}
use iam_sentinel_ese.Prelude.{All, List, arith, inl, none, refl, some, sym, ℕ, ◌∙◌, ◌≡◌}
use iam_sentinel_ese.Prelude.Text.{codes}
use iam_sentinel_ese.Rbac.{Role}
use iam_sentinel_ese.Service.{err, ok, permission_denied}
use iam_sentinel_ese.Table.Laws.{Distinct}
use iam_sentinel_ese.Tests.Data.{tables, test_date}
use iam_sentinel_ese.Tests.Findings.{analyst_no_admin, tables-IsSound}

create_exception-Effect_example :
    Effect 1 Status.accepted_risk " agreed " 1 (some Role.admin) (some "2026-06-30") tables (
      create_exception 1 Status.accepted_risk " agreed " 1
        (some Role.admin)
        (some "2026-06-30")
        tables)
create_exception-Effect_example =
    create_exception-Effect 1 Status.accepted_risk " agreed " 1 (some Role.admin)
      (some "2026-06-30") tables

accept_risk_denied_example :
    create_exception 1 Status.accepted_risk "agreed" 2 (some Role.analyst) none tables
    ≡ (err permission_denied, tables)
accept_risk_denied_example =
    accept_risk_denied 1 "agreed" 2 Role.analyst none tables (inl analyst_no_admin)

create_exception-IsSound_example :
    IsSound (create_exception 1 Status.suppressed "noise" 2 (some Role.analyst) none tables).1
create_exception-IsSound_example =
    create_exception-IsSound 1 Status.suppressed "noise" 2 (some Role.analyst) none tables
      tables-IsSound

revoke_exception-IsSound_example : IsSound (revoke_exception 2 (some 2) "not noise" tables).1
revoke_exception-IsSound_example =
    revoke_exception-IsSound 2 (some 2) "not noise" tables tables-IsSound

expire_exceptions-IsSound_example :
    (ids : List ℕ) × (s' : Session) × (expire_exceptions (test_date 2026 1 31) tables
      ≡ (ok ids, s'))
    × IsSound s'
expire_exceptions-IsSound_example =
    expire_exceptions-IsSound (test_date 2026 1 31) tables tables-IsSound

january-IsDate : IsDate (test_date 2026 1 31)
january-IsDate = record {
  year_pos = omega arith;
  year_le = omega arith;
  month_pos = omega arith;
  month_le = omega arith;
  day_pos = omega arith;
  day_le = omega arith;
}

one_exception : Distinct exception_key tables.exceptions
one_exception = (tt, tt)

expire_exceptions-IsSettled_example :
    (ids : List ℕ) × (s' : Session) × (expire_exceptions (test_date 2026 1 31) tables
      ≡ (ok ids, s'))
    × IsSettled (test_date 2026 1 31) tables s'
    × All (IsOpen s') ids
expire_exceptions-IsSettled_example =
    expire_exceptions-IsSettled (test_date 2026 1 31) tables january-IsDate one_exception

january_text : isoformat (test_date 2026 1 31) ≡ codes "2026-01-31"
unfolding isoformat
january_text = refl

same_text : (u t : Text) → some u ≡ some t → t ≡ u
same_text u t e = ground arith

tables-AreDated : AreDated tables
tables-AreDated =
    ((λ t e. (test_date 2026 1 31, january-IsDate, same_text _ t e ∙ sym january_text)), tt)

exceptions-AreDated_example :
    AreDated
      (create_exception 1 Status.accepted_risk "agreed" 1
        (some Role.admin)
        (some "2026-W27")
        tables).1
    × AreDated (revoke_exception 2 (some 2) "not noise" tables).1
    × AreDated (expire_exceptions (test_date 2026 1 31) tables).1
exceptions-AreDated_example =
    exceptions-AreDated 1 Status.accepted_risk "agreed" 1 (some Role.admin) (some "2026-W27") 2
      (some 2) "not noise" (test_date 2026 1 31) tables tables-AreDated
