-- ===== src/Tests/Batches.antt =====
-- The bulk routes at the tables of `Data`.
use iam_sentinel_ese.Api.Batches.{
  batch_forbidden, bulk_accept_risk_route, bulk_assign_route, bulk_suppress_route,
  bulk_transition_route,
}
use iam_sentinel_ese.Api.Batches.Roles.{bulk_exception_routes-IsSound, bulk_routes_frozen}
use iam_sentinel_ese.Api.Batches.Stale.{IsStale, bulk_reopen-IsStale}
use iam_sentinel_ese.Domain.Enums.{Status}
use iam_sentinel_ese.Exceptions.{is_exception_status}
use iam_sentinel_ese.Exceptions.Revoke.{IsSound}
use iam_sentinel_ese.Models.{Session}
use iam_sentinel_ese.Prelude.{[], none, refl, some, true, ◌∷◌, ◌≡◌}
use iam_sentinel_ese.Rbac.{Role}
use iam_sentinel_ese.Tests.Data.{tables, test_group, test_user}
use iam_sentinel_ese.Tests.Findings.{tables-IsSound}

abbrev frozen : Session
frozen = record tables { public_mode = true }

suppressed_status : is_exception_status Status.suppressed ≡ true
unfolding is_exception_status
suppressed_status = refl

bulk_exception_routes-IsSound_example :
    IsSound (bulk_suppress_route (test_user 2 Role.analyst true) (1 ∷ 2 ∷ []) "noise" tables).1
    × IsSound
        (bulk_accept_risk_route
          (test_user 2 Role.analyst true)
          (1 ∷ 2 ∷ [])
          "noise"
          (some "2026-06-30")
          tables).1
bulk_exception_routes-IsSound_example =
    bulk_exception_routes-IsSound (test_user 2 Role.analyst true) (1 ∷ 2 ∷ []) "noise"
      (some "2026-06-30") tables tables-IsSound

bulk_routes_frozen_example :
    (bulk_transition_route (test_user 1 Role.admin true) (1 ∷ []) Status.suppressed none frozen
      ≡ (batch_forbidden, frozen))
    × (bulk_assign_route (test_user 1 Role.admin true) (1 ∷ []) (some 2) frozen
        ≡ (batch_forbidden, frozen))
    × (bulk_suppress_route (test_user 1 Role.admin true) (1 ∷ []) "noise" frozen
        ≡ (batch_forbidden, frozen))
    × (bulk_accept_risk_route (test_user 1 Role.admin true) (1 ∷ []) "noise" none frozen
        ≡ (batch_forbidden, frozen))
bulk_routes_frozen_example =
    bulk_routes_frozen (test_user 1 Role.admin true) (1 ∷ []) Status.suppressed none (some 2)
      "noise" none frozen refl

bulk_reopen-IsStale_example :
    IsStale
      (test_group 2 "fp-2" Status.suppressed)
      (bulk_transition_route (test_user 2 Role.analyst true) (2 ∷ []) Status.opened none tables).1
bulk_reopen-IsStale_example =
    bulk_reopen-IsStale (test_user 2 Role.analyst true) 2 none tables
      (test_group 2 "fp-2" Status.suppressed) refl refl refl suppressed_status
      tables-IsSound.covered
