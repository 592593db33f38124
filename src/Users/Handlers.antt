-- ===== src/Users/Handlers.antt =====
-- create_user, update_user and delete_user. Each commits at its end; until then nothing else writes.
use mdm_saa_s.Common.{
  ℕ, String, Bool, false, not, ◌&&◌, ◌||◌, Option, none, some, [], ◌∷◌, ◌++◌, ◌==◌, leb, length,
  present, get_or, is_some, select, update_where, delete_where, if◌then◌else◌,
}
use mdm_saa_s.Models.{User}
use mdm_saa_s.Database.{
  Action, http, pure, raise, lift, gets, require, new_uuid, ◌>>=◌, ◌>>◌, one_or_none,
}
use mdm_saa_s.Auth.Login.{on_users}

abbrev pub allowed_role : String → Bool
allowed_role r = r == "admin" || r == "owner"

abbrev pub allowed_status : String → Bool
allowed_status s = s == "active" || s == "inactive"

abbrev pub is_active_owner : String → User → Bool
is_active_owner tenant_id u = u.tenant_id == tenant_id && u.role == "owner" && u.status == "active"

unfoldable pub find_user : String → String → Action User
unfolding one_or_none
find_user tenant_id id = do
  found ← gets (λ s. select (λ u. u.id == id && u.tenant_id == tenant_id) s.users)
  user ← lift (one_or_none found)
  elim user [ none ↦ raise (http 404) | some u ↦ pure u ]

-- `lower` is `str.lower`. `email` is `body.email`.
module _ (lower : String → String) (now : ℕ) (current_user : User) where
  unfoldable pub create_user : String → String → Action User
  unfolding one_or_none
  create_user email role = do
    require (allowed_role role) (http 400)
    found ←
        gets (λ s.
          select (λ u. u.tenant_id == current_user.tenant_id && u.email == lower email) s.users)
    existing ← lift (one_or_none found)
    require (not (is_some existing)) (http 409)
    id ← new_uuid
    let user : User = record {
      id = id;
      tenant_id = current_user.tenant_id;
      email = lower email;
      hashed_password = none;
      role = role;
      status = "active";
      last_login = none;
      created_at = now;
      totp_secret = none;
      totp_enabled = false;
    }
    on_users (λ us. us ++ user ∷ [])
    pure user

-- `if body.role and user.role == "owner" and body.role != "owner"`
abbrev demotes : Option String → User → Bool
demotes role u = present role && u.role == "owner" && not (get_or role "" == "owner")

abbrev changed : Option String → String → String
changed value old = if present value then get_or value "" else old

unfoldable pub with_role : Option String → User → User
with_role role u = record u { role = changed role u.role }

unfoldable pub with_status : Option String → User → User
with_status status u = record u { status = changed status u.status }

module _ (current_user : User) where
  unfoldable pub update_user : String → Option String → Option String → Action Unit
  unfolding find_user with_role with_status
  update_user id role status = do
    user ← find_user current_user.tenant_id id
    owners ← gets (λ s. select (is_active_owner current_user.tenant_id) s.users)
    require (not (demotes role user && leb (length owners) 1)) (http 400)
    require (not (present role) || allowed_role (get_or role "")) (http 400)
    on_users (update_where (λ u. u.id == user.id) (with_role role))
    require (not (present status) || allowed_status (get_or status "")) (http 400)
    on_users (update_where (λ u. u.id == user.id) (with_status status))

  unfoldable pub delete_user : String → Action Unit
  unfolding find_user
  delete_user id = do
    require (not (id == current_user.id)) (http 400)
    user ← find_user current_user.tenant_id id
    on_users (delete_where (λ u. u.id == user.id))
