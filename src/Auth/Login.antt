-- ===== src/Auth/Login.antt =====
-- The handlers of app/api/routes/auth.py for passwords, logging out and two-factor codes.
use mdm_saa_s.Common.{
  ℕ, String, Bool, true, false, not, ◌&&◌, Option, none, some, List, [], ◌∷◌, ◌++◌, ◌==◌, any,
  present, get_or, some_is, select, update_where, if◌then◌else◌,
}
use mdm_saa_s.Models.{User}
use mdm_saa_s.Database.{
  Action, http, integrity, pure, raise, lift, gets, modify, require, new_uuid, ◌>>=◌, ◌>>◌,
  one_or_none,
}
use mdm_saa_s.Audit.{write_audit}
use mdm_saa_s.Auth.Tokens.{Claims, Crypto, create_access_token}
use mdm_saa_s.Auth.Session.{Cache, cache_invalidate}

pub record TokenResponse : Type 0 where
  pub access_token : String
  pub requires_2fa : Bool
  pub temp_token : Option String

abbrev pub on_users : (List User → List User) → Action Unit
on_users f = modify (λ s. record s { users = f s.users })

-- `jti` is unique in the table.
unfoldable pub add_revoked_token : ℕ → String → String → ℕ → Action Unit
add_revoked_token now jti user_id expires_at = do
  taken ← gets (λ s. any (λ r. r.jti == jti) s.revoked_tokens)
  require (not taken) integrity
  id ← new_uuid
  modify (λ s. record s {
    revoked_tokens =
        s.revoked_tokens
        ++ (record {
          id = id;
          jti = jti;
          user_id = user_id;
          expires_at = expires_at;
          revoked_at = now;
        })
          ∷ [];
  })

-- `if jti: db.add(RevokedToken(...))`; without an expiry the row expires at once.
unfoldable pub revoke_claims : ℕ → Claims → String → Action Unit
unfolding add_revoked_token
revoke_claims now payload user_id =
    if present payload.jti
    then add_revoked_token now (get_or payload.jti "") user_id (get_or payload.exp now)
    else pure tt

module _ (crypto : Crypto) (expire_minutes : ℕ) (now : ℕ) where
  -- `not user or not user.hashed_password or not verify_password(...)`
  abbrev pub password_ok : String → User → Bool
  password_ok password u =
      present u.hashed_password && crypto.verify password (get_or u.hashed_password "")

  unfoldable pub full_token : User → String → Action TokenResponse
  unfolding create_access_token write_audit
  full_token user method = do
    token ← create_access_token crypto now user.id user.tenant_id user.role none expire_minutes
    write_audit now user.tenant_id "auth.login" "user" (some user.id) (some user.id)
    pure (record { access_token = token; requires_2fa = false; temp_token = none })

  unfoldable pub pending_token : User → Action TokenResponse
  unfolding create_access_token
  pending_token user = do
    temp ← create_access_token crypto now user.id user.tenant_id user.role (some "2fa_pending") 5
    pure (record { access_token = ""; requires_2fa = true; temp_token = some temp })

  unfoldable pub login_user : String → Option User → Action TokenResponse
  unfolding full_token pending_token
  login_user password none = raise (http 401)
  login_user password (some user) = do
    require (password_ok password user) (http 401)
    require (user.status == "active") (http 403)
    if user.totp_enabled then pending_token user else full_token user "password"

  unfoldable pub login : String → String → Action TokenResponse
  unfolding one_or_none login_user
  login email password = do
    found ← gets (λ s. select (λ u. u.email == email) s.users)
    user ← lift (one_or_none found)
    login_user password user

  -- After `get_current_user` has let `user` through. The new cache is part of the result.
  unfoldable pub logout : String → User → Cache → Action Cache
  unfolding revoke_claims write_audit cache_invalidate
  logout token user cache = elim (crypto.decode now token) [
    | none ↦ raise (http 500)
    | some payload ↦ do
      revoke_claims now payload user.id
      write_audit now user.tenant_id "auth.logout" "user" (some user.id) (some user.id)
      pure (if present payload.jti then cache_invalidate (get_or payload.jti "") cache else cache)
  ]

  abbrev totp_ok : String → User → Bool
  totp_ok code u = crypto.verify_totp now (get_or u.totp_secret "") code

  abbrev has_totp : User → Bool
  has_totp u = u.totp_enabled && present u.totp_secret

  unfoldable pub validate_user : Claims → String → Option User → Action TokenResponse
  unfolding full_token revoke_claims
  validate_user payload code none = raise (http 401)
  validate_user payload code (some user) = do
    require (user.status == "active") (http 401)
    require (has_totp user) (http 400)
    require (totp_ok code user) (http 401)
    revoke_claims now payload user.id
    full_token user "password+totp"

  unfoldable pub validate_2fa : String → String → Action TokenResponse
  unfolding one_or_none validate_user
  validate_2fa temp_token code = elim (crypto.decode now temp_token) [
    | none ↦ raise (http 401)
    | some payload ↦ do
      require (some_is (λ k. k == "2fa_pending") payload.kind) (http 400)
      found ← gets (λ s. select (λ u. u.id == payload.sub) s.users)
      user ← lift (one_or_none found)
      validate_user payload code user
  ]

  -- `secret` is `pyotp.random_base32()`.
  unfoldable pub setup_2fa : String → User → Action Unit
  setup_2fa secret user =
      on_users (update_where (λ u. u.id == user.id) (λ u. record u { totp_secret = some secret }))

  unfoldable pub enable_2fa : String → User → Action Unit
  enable_2fa code user = do
    require (present user.totp_secret) (http 400)
    require (totp_ok code user) (http 400)
    on_users (update_where (λ u. u.id == user.id) (λ u. record u { totp_enabled = true }))

  unfoldable pub disable_2fa : String → User → Action Unit
  disable_2fa code user = do
    require (has_totp user) (http 400)
    require (totp_ok code user) (http 400)
    on_users (
        update_where (λ u. u.id == user.id)
          (λ u. record u { totp_enabled = false; totp_secret = none }))
