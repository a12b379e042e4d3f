-- ===== src/Tests/Users.antt =====
-- User administration and the role ladder at the tables of `Data`.
use iam_sentinel_ese.Prelude.{Bool, arith, false, refl, some, true, ◌↔◌, ◌≡◌}
use iam_sentinel_ese.Rbac.{Minimum, Role, at_least}
use iam_sentinel_ese.Rbac.Ladder.{Meets, at_least_iff}
use iam_sentinel_ese.Table.Laws.{Distinct}
use iam_sentinel_ese.Tests.Data.{tables}
use iam_sentinel_ese.Users.{active_admin_count, set_active, update_role}
use iam_sentinel_ese.Users.LastAdmin.{HasAdmin, admin_survives, user_key}

users-Distinct : Distinct user_key tables.users
users-Distinct = omega arith

has_admin : HasAdmin tables
unfolding active_admin_count
has_admin = omega arith

admin_survives_example :
    HasAdmin (update_role 1 Role.read_only (some 1) tables).1
    × HasAdmin (set_active 1 false (some 1) tables).1
admin_survives_example =
    admin_survives 1 (some 1) tables Role.read_only false users-Distinct has_admin

at_least_iff_example : (at_least true (some Role.admin) Minimum.analyst ≡ true) ↔ (
    Meets (some Role.admin) Minimum.analyst
    × (◌≡◌ {A = Bool} true true → Minimum.analyst ≡ Minimum.read_only))
at_least_iff_example = at_least_iff true (some Role.admin) Minimum.analyst

read_only_granted : at_least true (some Role.analyst) Minimum.read_only ≡ true
unfolding at_least
read_only_granted = refl
