-- ===== src/Auth/SecondFactor.antt =====
-- What the token is good for that login hands out before the two-factor code.
use mdm_saa_s.Common.{
  ℕ, String, ◌≡◌, refl, ap, ◌∙◌, true, false, some, [], ◌∷◌, ◌==◌, truthy, select, inl, inr,
  Bool-cases, if◌then◌else◌,
}
use mdm_saa_s.Models.{User}
use mdm_saa_s.Database.{Db, ok, http, lift, require, one_or_none, ◌>>=◌, ◌>>◌}
use mdm_saa_s.Auth.Tokens.{Claims, Crypto, new_claims, create_access_token}
use mdm_saa_s.Auth.Session.{
  Cache, cache_get, cache_put, is_fresh, is_revoked, check_revocation, active_user,
  get_current_user,
}
use mdm_saa_s.Auth.Login.{password_ok, full_token, pending_token, login_user, login}

module _ (crypto : Crypto) (minutes now : ℕ) (user : User) (s : Db) where
  -- The claims of that token.
  abbrev pub pending_claims : Claims
  pending_claims =
      new_claims now user.id user.tenant_id user.role (some "2fa_pending") 5 (s.uuids s.drawn)

  -- Past the test of revocation, for any cache.
  not_revoked :
      (mono : ℕ) (jti : String) (c : Cache)
      → is_revoked jti s ≡ false
      → (c' : Cache) × (check_revocation mono jti s c ≡ some c')
  unfolding check_revocation
  not_revoked mono jti c r = elim (Bool-cases (is_fresh mono (cache_get c jti))) [
    | inl e ↦ (c, rw e refl)
    | inr e ↦ (cache_put jti mono c, rw (e, r) refl)
  ]

  -- What login does for such a user.
  login_runs :
      (email password : String)
      → select (λ u. u.email == email) s.users ≡ user ∷ []
      → password_ok crypto minutes now password user ≡ true
      → (user.status == "active") ≡ true
      → user.totp_enabled ≡ true
      → login crypto minutes now email password s ≡ pending_token crypto minutes now user s
  unfolding login login_user one_or_none
  login_runs email password found known active second =
      ap (λ xs. (lift (one_or_none xs) >>= login_user crypto minutes now password) s) found
      ∙ ap
          (λ b.
            (require b (http 401)
                >> (require (user.status == "active") (http 403)
                    >> (if user.totp_enabled
                        then pending_token crypto minutes now user
                        else full_token crypto minutes now user "password")))
              s)
          known
      ∙ ap
          (λ b.
            (require b (http 403)
                >> (if user.totp_enabled
                    then pending_token crypto minutes now user
                    else full_token crypto minutes now user "password"))
              s)
          active
      ∙ ap
          (λ b.
            (if b
                then pending_token crypto minutes now user
                else full_token crypto minutes now user "password")
              s)
          second

  accepted :
      (later mono : ℕ) (c : Cache)
      → select (λ u. u.id == user.id) s.users ≡ user ∷ []
      → (user.status == "active") ≡ true
      → crypto.decode later (crypto.encode pending_claims) ≡ some pending_claims
      → truthy (s.uuids s.drawn) ≡ true
      → is_revoked (s.uuids s.drawn) s ≡ false
      → (get_current_user crypto later mono
          (crypto.encode pending_claims)
          (pending_token crypto minutes now user s).1
          c).0
        ≡ ok user
  unfolding pending_token create_access_token get_current_user active_user new_claims one_or_none
      check_revocation
  accepted later mono c only active d t r =
      let (c', passed) = not_revoked mono (s.uuids s.drawn) c r in
      rw (d, get_current_user, t, passed, only, active_user, active) refl

  -- An active user with two-factor login, who is found by the e-mail and by the identifier, receives a
  -- temporary token for the password alone. It is accepted as a full session for as long as it decodes to its
  -- claims, whatever the revocation cache holds, if the identifier that was drawn for it is neither empty nor
  -- on the list of revoked tokens.
  pub pending_token_is_a_session :
      (email password : String) (later mono : ℕ) (c : Cache)
      → select (λ u. u.email == email) s.users ≡ user ∷ []
      → password_ok crypto minutes now password user ≡ true
      → (user.status == "active") ≡ true
      → user.totp_enabled ≡ true
      → select (λ u. u.id == user.id) s.users ≡ user ∷ []
      → crypto.decode later (crypto.encode pending_claims) ≡ some pending_claims
      → truthy (s.uuids s.drawn) ≡ true
      → is_revoked (s.uuids s.drawn) s ≡ false
      → ((login crypto minutes now email password s).0
          ≡ ok (record {
            access_token = "";
            requires_2fa = true;
            temp_token = some (crypto.encode pending_claims);
          }))
        × ((get_current_user crypto later mono
              (crypto.encode pending_claims)
              (login crypto minutes now email password s).1
              c).0
            ≡ ok user)
  unfolding pending_token
  pending_token_is_a_session email password later mono c found known active second only d t r =
      let run = login_runs email password found known active second in
      (
        ap (λ x. x.0) run,
        ap (λ x. (get_current_user crypto later mono (crypto.encode pending_claims) x.1 c).0) run
            ∙ accepted later mono c only active d t r,
      )
