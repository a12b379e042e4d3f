-- ===== src/Tests/Routes.antt =====
-- The routes and the bulk services at the tables of `Data`.
use iam_sentinel_ese.Api.{
  accept_risk_route, comment_route, forbidden, success, suppress_route, transition_route,
}
use iam_sentinel_ese.Api.Findings.{
  accept_risk_route_admin, public_mode_frozen, transition_route_accepts,
}
use iam_sentinel_ese.Api.Sound.{transition_route-IsSound}
use iam_sentinel_ese.Bulk.{bulk_assign, bulk_exception, bulk_transition}
use iam_sentinel_ese.Bulk.Batch.{accounted, bulk_accounts, id_count}
use iam_sentinel_ese.Bulk.Kept.{bulk-IsConsistent}
use iam_sentinel_ese.Collaboration.{assign}
use iam_sentinel_ese.Collaboration.Assign.{Effect, assign-Effect}
use iam_sentinel_ese.Domain.Enums.{Status}
use iam_sentinel_ese.Exceptions.{is_exception_status}
use iam_sentinel_ese.Exceptions.Revoke.{IsSound}
use iam_sentinel_ese.Models.{Session, get_group}
use iam_sentinel_ese.Prelude.{[], arith, false, inl, none, refl, some, true, ◌∷◌, ◌≡◌}
use iam_sentinel_ese.Rbac.{Role}
use iam_sentinel_ese.Tests.Data.{tables, test_group, test_user}
use iam_sentinel_ese.Tests.Findings.{analyst_no_admin, tables-IsConsistent, tables-IsSound}
use iam_sentinel_ese.Trail.{IsConsistent}

plain_status : is_exception_status Status.investigating ≡ false
unfolding is_exception_status
plain_status = refl

transition_route-IsSound_example :
    IsSound
      (transition_route
        (test_user 2 Role.analyst true)
        1
        Status.investigating
        (some "looking")
        tables).1
transition_route-IsSound_example =
    transition_route-IsSound (test_user 2 Role.analyst true) 1 (some "looking") tables
      Status.investigating plain_status tables-IsSound

transition_route_accepts_example :
    let (r, s') =
      transition_route (test_user 2 Role.analyst true) 1 Status.accepted_risk none tables in
    (r ≡ success)
    × (get_group 1 s'.groups ≡ some (test_group 1 "fp-1" Status.accepted_risk))
    × (s'.exceptions ≡ tables.exceptions)
transition_route_accepts_example =
    transition_route_accepts (test_user 2 Role.analyst true) 1 none tables
      (test_group 1 "fp-1" Status.opened) refl refl refl refl refl

abbrev frozen_tables : Session
frozen_tables = record tables { public_mode = true }

public_mode_frozen_example :
    (transition_route (test_user 1 Role.admin true) 1 Status.suppressed none frozen_tables
      ≡ (forbidden, frozen_tables))
    × (suppress_route (test_user 1 Role.admin true) 1 "noise" frozen_tables
        ≡ (forbidden, frozen_tables))
    × (accept_risk_route (test_user 1 Role.admin true) 1 "noise" none frozen_tables
        ≡ (forbidden, frozen_tables))
    × (comment_route (test_user 1 Role.admin true) 1 "noise" frozen_tables
        ≡ (forbidden, frozen_tables))
public_mode_frozen_example =
    public_mode_frozen (test_user 1 Role.admin true) 1 Status.suppressed none "noise" none
      frozen_tables refl

accept_risk_route_admin_example :
    accept_risk_route (test_user 2 Role.analyst true) 1 "agreed" none tables ≡ (forbidden, tables)
accept_risk_route_admin_example =
    accept_risk_route_admin (test_user 2 Role.analyst true) 1 "agreed" none tables
      (inl analyst_no_admin)

bulk_accounts_example :
    (accounted 7 (bulk_transition (1 ∷ 7 ∷ []) Status.investigating (some 2) none tables).0
      ≡ id_count 7 (1 ∷ 7 ∷ []))
    × (accounted 7 (bulk_assign (1 ∷ 7 ∷ []) (some 2) (some 2) tables).0 ≡ id_count 7 (1 ∷ 7 ∷ []))
    × (accounted 7
          (bulk_exception
            (1 ∷ 7 ∷ [])
            Status.investigating
            "noise"
            1
            (some Role.admin)
            none
            tables).0
        ≡ id_count 7 (1 ∷ 7 ∷ []))
bulk_accounts_example =
    bulk_accounts 7 (1 ∷ 7 ∷ []) Status.investigating (some 2) (some 2) none "noise" 1
      (some Role.admin) none tables

bulk-IsConsistent_example :
    IsConsistent (bulk_transition (1 ∷ 7 ∷ []) Status.suppressed (some 2) none tables).1
    × IsConsistent (bulk_assign (1 ∷ 7 ∷ []) (some 2) (some 2) tables).1
    × IsConsistent
        (bulk_exception (1 ∷ 7 ∷ []) Status.suppressed "noise" 1 (some Role.admin) none tables).1
bulk-IsConsistent_example =
    bulk-IsConsistent (1 ∷ 7 ∷ []) Status.suppressed (some 2) (some 2) none "noise" 1
      (some Role.admin) none tables tables-IsConsistent

assign-Effect_example :
    Effect 1
      (some 2)
      tables
      (test_group 1 "fp-1" Status.opened)
      2
      1
      (assign 1 (some 2) (some 1) tables)
assign-Effect_example =
    assign-Effect 1 (some 2) (some 1) tables (test_group 1 "fp-1" Status.opened) 2 refl
      (λ e. absurd (omega arith))
