-- ===== src/Users.antt =====
-- app/services/user_service.py: user administration, and the guard that keeps an active admin. The
-- lock that serialises two callers is the database's, so a call is one step here.
-- `hash_password` is a library's function and a parameter.
pub mod LastAdmin
use iam_sentinel_ese.Collaboration.{display_name}
use iam_sentinel_ese.Models.{
  Metadata, Session, User, created, fresh_user_id, get_user, no_metadata, role_change, update_user,
  user_target,
}
use iam_sentinel_ese.Prelude.{
  Bool, List, Option, String, [], any, contains, count_by, if◌then◌else◌, length, ltb, nat_eq, none,
  not, option_eq, some, string_eq, true, ℕ, ◌&&◌, ◌++◌, ◌==◌, ◌∷◌,
}
use iam_sentinel_ese.Prelude.Text.{codes, is_empty, lower, strip}
use iam_sentinel_ese.Rbac.{Role, role_eq, roles}
use iam_sentinel_ese.Service.{
  Action, duplicate_email, email_required, gets, invalid_role, last_admin, modify, name_required,
  or_raise, pure, raise_if, short_password, user_not_found, ⊤, ◌>>=◌, ◌>>◌,
}

-- the rows of `_active_admin_ids_query`
abbrev pub is_active_admin : User → Bool
is_active_admin u = (u.role == Role.admin) && u.is_active

-- `active_admin_count(session)` and, with `excluding`, of the others
unfoldable pub active_admin_count : Option ℕ → List User → ℕ
active_admin_count none users = count_by is_active_admin users
active_admin_count (some excluding) users =
    count_by (λ u. is_active_admin u && not (u.id == excluding)) users

abbrev pub record_event : Option ℕ → String → ℕ → Metadata → Session → Session
record_event actor_id action user_id meta s = record s {
  audit =
      s.audit
      ++ record {
        actor_id = actor_id;
        action = action;
        target = some (user_target user_id);
        event_metadata = meta;
      }
        ∷ [];
}

abbrev pub has_email : String → List User → Bool
has_email email users = any (λ u. u.email == email) users

abbrev pub new_user : ℕ → String → String → Role → String → User
new_user id email display_name role password_hash = record {
  id = id;
  email = email;
  display_name = display_name;
  role = role;
  password_hash = password_hash;
  is_active = true;
}

-- `len(password)`
abbrev pub text_length : String → ℕ
text_length text = length (codes text)

abbrev pub write_user : User → Option ℕ → Session → Session
write_user user actor_id s =
    record_event actor_id "user_created" user.id (created user.email user.role)
      (record s { users = s.users ++ user ∷ [] })

unfoldable pub create_user :
    (String → String) → String → String → Role → String → Option ℕ → Action User
create_user hash_password email display_name role password actor_id = do
  let clean_email = lower (strip email)
  let clean_name = strip display_name
  raise_if (is_empty clean_email) email_required
  raise_if (is_empty clean_name) name_required
  raise_if (not (contains role roles)) invalid_role
  raise_if (ltb (text_length password) 8) short_password
  users ← gets (λ s. s.users)
  raise_if (has_email clean_email users) duplicate_email
  let user = new_user (fresh_user_id users) clean_email clean_name role (hash_password password)
  modify (write_user user actor_id)
  pure user

-- the test of `update_role` that would leave no active admin
unfoldable pub demotes_last_admin : User → Role → List User → Bool
demotes_last_admin user new_role users =
    (user.role == Role.admin)
    && user.is_active
    && not (new_role == Role.admin)
    && (active_admin_count (some user.id) users == 0)

abbrev pub write_role : User → Role → Option ℕ → Session → Session
write_role user new_role actor_id s =
    record_event actor_id "user_role_changed" user.id (role_change user.role new_role)
      (record s { users = update_user user.id (λ u. record u { role = new_role }) s.users })

unfoldable pub update_role : ℕ → Role → Option ℕ → Action ⊤
update_role user_id new_role actor_id = do
  raise_if (not (contains new_role roles)) invalid_role
  users ← gets (λ s. s.users)
  user ← or_raise (get_user user_id users) user_not_found
  raise_if (demotes_last_admin user new_role users) last_admin
  modify (write_role user new_role actor_id)

-- the test of `set_active` that would leave no active admin
unfoldable pub deactivates_last_admin : User → Bool → List User → Bool
deactivates_last_admin user is_active users =
    not is_active
    && (user.role == Role.admin)
    && user.is_active
    && (active_admin_count (some user.id) users == 0)

abbrev pub write_active : User → Bool → Option ℕ → Session → Session
write_active user active actor_id s =
    record_event actor_id (if active then "user_activated" else "user_deactivated") user.id
      no_metadata
      (record s { users = update_user user.id (λ u. record u { is_active = active }) s.users })

unfoldable pub set_active : ℕ → Bool → Option ℕ → Action ⊤
set_active user_id active actor_id = do
  users ← gets (λ s. s.users)
  user ← or_raise (get_user user_id users) user_not_found
  raise_if (deactivates_last_admin user active users) last_admin
  modify (write_active user active actor_id)
