-- ===== src/Tests/Findings.antt =====
-- The findings services at the tables of `Data`.
use iam_sentinel_ese.Domain.Enums.{Status}
use iam_sentinel_ese.Exceptions.{is_exception_status}
use iam_sentinel_ese.Exceptions.Revoke.{IsSound}
use iam_sentinel_ese.Prelude.{arith, none, refl, some, ◌≢◌}
use iam_sentinel_ese.Rbac.{Role}
use iam_sentinel_ese.Tests.Data.{tables}
use iam_sentinel_ese.Trail.{IsConsistent, carries_on}
use iam_sentinel_ese.Trail.Transition.{transition-IsConsistent}
use iam_sentinel_ese.Workflow.{transition}
use iam_sentinel_ese.Workflow.Effect.{Effect}

pub tables-IsConsistent : IsConsistent tables
unfolding carries_on
tables-IsConsistent = record {
  distinct = omega arith;
  audited = (refl, (refl, (refl, tt)));
  mirrored = (
    ((λ _ _. refl), ((λ e _. absurd (omega arith)), ((λ e _. absurd (omega arith)), tt))),
    (
      ((λ e _. absurd (omega arith)), ((λ _ r. absurd (grind arith)), ((λ _ _. refl), tt))),
      (
        (
          (λ e _. absurd (omega arith)),
          ((λ e _. absurd (omega arith)), ((λ e _. absurd (omega arith)), tt)),
        ),
        tt,
      ),
    ),
  );
  history_known = omega arith;
  findings_known = omega arith;
}

pub tables-IsSound : IsSound tables
unfolding is_exception_status
tables-IsSound = record {
  consistent = tables-IsConsistent;
  covered = record { keys = omega arith; counted = (refl, (refl, (refl, tt))) };
}

pub analyst_no_admin : Role.analyst ≢ Role.admin
analyst_no_admin e = absurd (ground arith)

transition-IsConsistent_example : IsConsistent (transition 3 Status.resolved (some 2) none tables).1
transition-IsConsistent_example =
    transition-IsConsistent 3 Status.resolved (some 2) none tables tables-IsConsistent
