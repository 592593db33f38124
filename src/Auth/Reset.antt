-- ===== src/Auth/Reset.antt =====
-- The password reset of app/api/routes/auth.py. The e-mail that carries the token is not modelled.
use Prim.Native.String.{len}
use mdm_saa_s.Common.{
  leb, ℕ, ◌+◌, String, Bool, true, false, not, ◌||◌, Option, none, some, List, [], ◌∷◌, ◌++◌, ◌==◌,
  ltb, select, update_where, if◌then◌else◌,
}
use mdm_saa_s.Models.{User, PasswordResetToken}
use mdm_saa_s.Database.{
  Action, http, pure, raise, lift, gets, modify, require, new_uuid, ◌>>=◌, ◌>>◌, one_or_none,
}
use mdm_saa_s.Audit.{write_audit}
use mdm_saa_s.Auth.Tokens.{Crypto}
use mdm_saa_s.Auth.Login.{on_users}
use mdm_saa_s.Compliance.Evaluation.{microseconds_per_hour}

abbrev pub on_reset_tokens : (List PasswordResetToken → List PasswordResetToken) → Action Unit
on_reset_tokens f = modify (λ s. record s { reset_tokens = f s.reset_tokens })

-- RESET_TOKEN_TTL_HOURS is 1.
unfoldable pub issue_reset_token : ℕ → User → Action Unit
issue_reset_token now user = do
  token ← new_uuid
  id ← new_uuid
  on_reset_tokens (λ ts.
      ts
      ++ (record {
        id = id;
        user_id = user.id;
        token = token;
        used = false;
        expires_at = now + microseconds_per_hour;
        created_at = now;
      })
        ∷ [])

unfoldable pub forgot_password : ℕ → String → Action Unit
unfolding one_or_none issue_reset_token
forgot_password now email = do
  found ← gets (λ s. select (λ u. u.email == email) s.users)
  user ← lift (one_or_none found)
  elim user [
    | none ↦ pure tt
    | some u ↦ if u.status == "active" then issue_reset_token now u else pure tt
  ]

abbrev pub is_usable : ℕ → PasswordResetToken → Bool
is_usable now r = not (r.used || ltb r.expires_at now)

unfoldable pub complete_reset : Crypto → ℕ → String → PasswordResetToken → Option User → Action Unit
unfolding write_audit
complete_reset crypto now password record_ none = raise (http 400)
complete_reset crypto now password record_ (some user) = do
  require (user.status == "active") (http 400)
  on_users (
      update_where (λ u. u.id == user.id)
        (λ u. record u { hashed_password = some (crypto.hash password) }))
  on_reset_tokens (update_where (λ r. r.id == record_.id) (λ r. record r { used = true }))
  write_audit now user.tenant_id "auth.password_reset" "user" (some user.id) (some user.id)

unfoldable pub use_token : Crypto → ℕ → String → Option PasswordResetToken → Action Unit
unfolding one_or_none complete_reset
use_token crypto now password none = raise (http 400)
use_token crypto now password (some record_) = do
  require (is_usable now record_) (http 400)
  users ← gets (λ s. select (λ u. u.id == record_.user_id) s.users)
  user ← lift (one_or_none users)
  complete_reset crypto now password record_ user

-- The validator of the body: a shorter password is answered with 422 before the handler runs.
abbrev pub password_strength : String → Bool
password_strength password = leb 8 (len password)

unfoldable pub reset_password : Crypto → ℕ → String → String → Action Unit
unfolding one_or_none use_token
reset_password crypto now token password = do
  require (password_strength password) (http 422)
  found ← gets (λ s. select (λ r. r.token == token) s.reset_tokens)
  record_ ← lift (one_or_none found)
  use_token crypto now password record_
