-- ===== src/Auth/Session.antt =====
-- app/core/deps.py: who a request comes from. The cache of the process maps a token's identifier to
-- the time, on the monotonic clock, at which it was last seen not to be revoked.
use mdm_saa_s.Common.{
  ℕ, ◌+◌, String, Bool, true, false, not, Option, none, some, List, [], ◌∷◌, ◌==◌, ltb, truthy,
  some_is, get_or, select, delete_where, if◌then◌else◌,
}
use mdm_saa_s.Models.{User, Tenant}
use mdm_saa_s.Database.{Db, Result, ok, err, http, one_or_none}
use mdm_saa_s.Auth.Tokens.{Crypto}

abbrev pub Cache : Type 0
Cache = List (String × ℕ)

abbrev pub cache_get : Cache → String → Option ℕ
cache_get [] jti = none
cache_get ((k, t) ∷ c) jti = if k == jti then some t else cache_get c jti

unfoldable pub cache_invalidate : String → Cache → Cache
cache_invalidate jti c = delete_where (λ e. e.0 == jti) c

abbrev pub cache_put : String → ℕ → Cache → Cache
cache_put jti t c = (jti, t) ∷ c

-- _REVOCATION_CACHE_TTL, in microseconds
abbrev pub revocation_cache_ttl : ℕ
revocation_cache_ttl = 60_000_000

abbrev pub is_revoked : String → Db → Bool
is_revoked jti s = elim (select (λ r. r.jti == jti) s.revoked_tokens) [ [] ↦ false | _ ∷ _ ↦ true ]

-- `cached_at is not None and now - cached_at <= TTL`
abbrev pub is_fresh : ℕ → Option ℕ → Bool
is_fresh mono cached_at = some_is (λ t. not (ltb (t + revocation_cache_ttl) mono)) cached_at

-- The test against the blocklist: `none` where it raises, else the new cache.
unfoldable pub check_revocation : ℕ → String → Db → Cache → Option Cache
check_revocation mono jti s c =
    if is_fresh mono (cache_get c jti)
    then some c
    else if is_revoked jti s
    then none
    else some (cache_put jti mono c)

abbrev pub is_active_user : Option User → Bool
is_active_user = some_is (λ u. u.status == "active")

unfoldable pub active_user : String → Db → Result User
unfolding one_or_none
active_user sub s = elim (one_or_none (select (λ u. u.id == sub) s.users)) [
  | err e ↦ err e
  | ok none ↦ err (http 401)
  | ok (some u) ↦ if u.status == "active" then ok u else err (http 401)
]

-- `mono` is `time.monotonic()`. The cache is kept also where the request is refused.
unfoldable pub get_current_user : Crypto → ℕ → ℕ → String → Db → Cache → Result User × Cache
unfolding check_revocation active_user
get_current_user crypto now mono token s c = elim (crypto.decode now token) [
  | none ↦ (err (http 401), c)
  | some payload ↦
      if some_is truthy payload.jti
      then (elim (check_revocation mono (get_or payload.jti "") s c) [
        | none ↦ (err (http 401), c)
        | some c' ↦ (active_user payload.sub s, c')
      ])
      else (active_user payload.sub s, c)
]

unfoldable pub get_current_tenant : User → Db → Result Tenant
unfolding one_or_none
get_current_tenant user s = elim (one_or_none (select (λ t. t.id == user.tenant_id) s.tenants)) [
  | err e ↦ err e
  | ok none ↦ err (http 403)
  | ok (some t) ↦ if t.status == "active" then ok t else err (http 403)
]
