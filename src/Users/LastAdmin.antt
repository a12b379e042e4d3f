-- ===== src/Users/LastAdmin.antt =====
-- The guard for the last active admin in app/services/user_service.py.
use iam_sentinel_ese.Table
use iam_sentinel_ese.Models.{Session, User, get_user, update_user}
use iam_sentinel_ese.Prelude.{
  Bool, List, Option, arith, count_by, false, if◌then◌else◌, inl, inr, nat_eq, none, option_eq,
  refl, some, string_eq, true, ℕ, ◌+◌, ◌<◌, ◌==◌, ◌≡◌, ◌≢◌, ◌⊎◌,
}
use iam_sentinel_ese.Rbac.{Role, role_eq}
use iam_sentinel_ese.Table.Laws.{Distinct, count-others, count-update, get-key, others}
use iam_sentinel_ese.Users.{
  active_admin_count, deactivates_last_admin, demotes_last_admin, is_active_admin, set_active,
  update_role, write_active, write_role,
}

abbrev pub user_key : User → ℕ
user_key u = u.id

-- someone can still administer
abbrev pub HasAdmin : Session → Type 0
HasAdmin s = 0 < active_admin_count none s.users

-- the other active admins, as the guard counts them
others_count :
    (i : ℕ) (us : List User) → active_admin_count (some i) us ≡ others user_key is_active_admin i us
unfolding active_admin_count
others_count i us = refl

still_positive :
    (was is : Bool) (rest before after : ℕ)
    → before ≡ rest + (if was then 1 else 0)
    → after ≡ rest + (if is then 1 else 0)
    → (was ≡ true → is ≡ false → (rest == 0) ≡ false)
    → 0 < before
    → 0 < after
still_positive true true rest before after b a g h = omega arith
still_positive true false rest before after b a g h =
    let e = g refl refl in let ne : rest ≢ 0 = ground arith in omega arith
still_positive false true rest before after b a g h = omega arith
still_positive false false rest before after b a g h = omega arith

-- A change of a row that leaves an admin elsewhere, or an admin in the row, leaves an admin.
change_keeps :
    (i : ℕ) (f : User → User) (us : List User) (u : User)
    → Distinct user_key us
    → Table.get user_key i us ≡ some u
    → (is_active_admin u ≡ true
        → is_active_admin (f u) ≡ false
        → (active_admin_count (some i) us == 0) ≡ false)
    → 0 < active_admin_count none us
    → 0 < active_admin_count none (update_user i f us)
unfolding active_admin_count
change_keeps i f us u d found guarded h =
    still_positive (is_active_admin u) (is_active_admin (f u))
      (others user_key is_active_admin i us) (count_by is_active_admin us)
      (count_by is_active_admin (update_user i f us))
      (count-others user_key is_active_admin i us u d found)
      (count-update user_key is_active_admin i f us u d found) guarded h

-- The two guards cover what their changes take away.
role_guard :
    (u : User) (role : Role) (us : List User)
    → demotes_last_admin u role us ≡ false
    → is_active_admin u ≡ true
    → is_active_admin (record u { role = role }) ≡ false
    → (active_admin_count (some u.id) us == 0) ≡ false
unfolding demotes_last_admin
role_guard u role us h was now = ground arith

active_guard :
    (u : User) (active : Bool) (us : List User)
    → deactivates_last_admin u active us ≡ false
    → is_active_admin u ≡ true
    → is_active_admin (record u { is_active = active }) ≡ false
    → (active_admin_count (some u.id) us == 0) ≡ false
unfolding deactivates_last_admin
active_guard u active us h was now = ground arith

module _ (user_id : ℕ) (actor : Option ℕ) (s : Session) where
  role_changed :
      (role : Role)
      → ((update_role user_id role actor s).1 ≡ s)
        ⊎ ((u : User) × (get_user user_id s.users ≡ some u)
            × (demotes_last_admin u role s.users ≡ false)
            × ((update_role user_id role actor s).1 ≡ write_role u role actor s))
  unfolding update_role
  role_changed role = ground arith

  active_changed :
      (active : Bool)
      → ((set_active user_id active actor s).1 ≡ s)
        ⊎ ((u : User) × (get_user user_id s.users ≡ some u)
            × (deactivates_last_admin u active s.users ≡ false)
            × ((set_active user_id active actor s).1 ≡ write_active u active actor s))
  unfolding set_active
  active_changed active = ground arith

  -- Where the user ids are distinct and some user is an active admin, some user still is after a
  -- change of role or of activity, whether the call is carried out or refused.
  pub admin_survives :
      (role : Role) (active : Bool)
      → Distinct user_key s.users
      → HasAdmin s
      → HasAdmin (update_role user_id role actor s).1
        × HasAdmin (set_active user_id active actor s).1
  admin_survives role active d h = (
    elim (role_changed role) [
      | inl same ↦ rw same h
      | inr (u, found, guarded, written) ↦ rw written (
          change_keeps u.id (λ x. record x { role = role }) s.users u d
            (get-key user_key user_id s.users u found) (role_guard u role s.users guarded) h)
    ],
    elim (active_changed active) [
      | inl same ↦ rw same h
      | inr (u, found, guarded, written) ↦ rw written (
          change_keeps u.id (λ x. record x { is_active = active }) s.users u d
            (get-key user_key user_id s.users u found) (active_guard u active s.users guarded) h)
    ],
  )
