-- ===== src/Auth/Revocation.antt =====
-- What logging out means for the tokens that are presented later.
use mathlib.Core.Path.{subst}
use mdm_saa_s.Common.{
  ◌≤◌, ◌+◌, arith, ℕ, ◌≡◌, refl, sym, ap, ◌∙◌, String, Bool, true, false, not, Option, none, some,
  List, [], ◌∷◌, ◌++◌, ◌==◌, Bool-cases, inl, inr, present, truthy, some_is, get_or, select,
  eq_refl, any, if◌then◌else◌,
}
use mdm_saa_s.Models.{User, RevokedToken}
use mdm_saa_s.Database.{
  Db, Action, pure, raise, require, modify, new_uuid, Result, ok, err, http, integrity, ◌>>=◌, ◌>>◌,
}
use mdm_saa_s.Database.Laws.{ok-injective, err≢ok}
use mdm_saa_s.Audit.{write_audit}
use mdm_saa_s.Auth.Tokens.{Claims, Crypto}
use mdm_saa_s.Auth.Session.{
  Cache, is_fresh, revocation_cache_ttl, cache_get, cache_invalidate, is_revoked, check_revocation,
  get_current_user,
}
use mdm_saa_s.Auth.Login.{add_revoked_token, revoke_claims, logout}

-- A token's identifier that was dropped from the cache is not in it.
cache_get-invalidate : (jti : String) (c : Cache) → cache_get (cache_invalidate jti c) jti ≡ none
unfolding cache_invalidate
cache_get-invalidate jti [] = refl
cache_get-invalidate jti ((k, t) ∷ c) = elim (Bool-cases (k == jti)) [
  | inl e ↦ rw e (cache_get-invalidate jti c)
  | inr e ↦ rw (e, cache_get, e) (cache_get-invalidate jti c)
]

abbrev filled : List RevokedToken → Bool
filled rs = elim rs [ [] ↦ false | _ ∷ _ ↦ true ]

-- A row at the end of the table of revoked tokens is found.
appended_found :
    (jti : String) (rs : List RevokedToken) (r : RevokedToken)
    → (r.jti == jti) ≡ true
    → filled (select (λ x. x.jti == jti) (rs ++ r ∷ [])) ≡ true
appended_found jti [] r h = rw h refl
appended_found jti (x ∷ xs) r h = elim (Bool-cases (x.jti == jti)) [
  | inl e ↦ rw e refl
  | inr e ↦ rw e (appended_found jti xs r h)
]

module _ (now : ℕ) (user : User) (c : Cache) where
  -- What `logout` does with the claims of the token.
  sign_out : Option Claims → Action Cache
  sign_out none = raise (http 500)
  sign_out (some payload) = do
    revoke_claims now payload user.id
    write_audit now user.tenant_id "auth.logout" "user" (some user.id) (some user.id)
    pure (if present payload.jti then cache_invalidate (get_or payload.jti "") c else c)

  -- The same, for a token with an identifier, from the test whether that is revoked already.
  add_row : Bool → String → Claims → Action Unit
  add_row taken jti payload = do
    require (not taken) integrity
    id ← new_uuid
    modify (λ s. record s {
      revoked_tokens =
          s.revoked_tokens
          ++ (record {
            id = id;
            jti = jti;
            user_id = user.id;
            expires_at = get_or payload.exp now;
            revoked_at = now;
          })
            ∷ [];
    })

  store : Bool → String → Claims → Action Cache
  store taken jti payload = do
    add_row taken jti payload
    write_audit now user.tenant_id "auth.logout" "user" (some user.id) (some user.id)
    pure (cache_invalidate jti c)

  -- The token is on the list afterwards, and out of the cache.
  abbrev IsOut : String → Result Cache × Db → Type 0
  IsOut jti x =
      (c' : Cache) → x.0 ≡ ok c' → (is_revoked jti x.1 ≡ true) × (cache_invalidate jti c ≡ c')

  store-IsOut :
      (taken : Bool) (jti : String) (payload : Claims) (s : Db)
      → IsOut jti (store taken jti payload s)
  unfolding store add_row write_audit
  store-IsOut true jti payload s c' h = err≢ok h
  store-IsOut false jti payload s c' h =
      (appended_found jti s.revoked_tokens _ (eq_refl jti), ok-injective h)

  sign_out-IsOut :
      (payload : Claims) (s : Db)
      → present payload.jti ≡ true
      → IsOut (get_or payload.jti "") (sign_out (some payload) s)
  unfolding sign_out revoke_claims add_revoked_token store add_row
  sign_out-IsOut payload s p =
      let j = get_or payload.jti "" in
      let start : Bool → Action Unit =
        λ b. if b then add_revoked_token now j user.id (get_or payload.exp now) else pure tt in
      subst
        (λ b. IsOut j (
          (start b
              >> (write_audit now user.tenant_id "auth.logout" "user" (some user.id) (some user.id)
                  >> pure (if b then cache_invalidate j c else c)))
            s))
        (sym p) (store-IsOut (any (λ r. r.jti == j) s.revoked_tokens) j payload s)

-- A revoked token that is not in the cache does not pass.
revoked_refused :
    (crypto : Crypto) (later mono : ℕ) (token : String) (payload : Claims) (t : Db) (c : Cache)
    → crypto.decode later token ≡ some payload
    → some_is truthy payload.jti ≡ true
    → is_revoked (get_or payload.jti "") t ≡ true
    → cache_get c (get_or payload.jti "") ≡ none
    → get_current_user crypto later mono token t c ≡ (err (http 401), c)
unfolding get_current_user check_revocation
revoked_refused crypto later mono token payload t c d p r g =
    rw (d, get_current_user, p, g, check_revocation, r) refl

some_is-present : (o : Option String) → present o ≡ some_is truthy o
some_is-present none = refl
some_is-present (some s) = refl

pub logged_out_is_refused :
    (crypto : Crypto) (minutes now : ℕ) (token : String) (user : User) (c c' : Cache) (s : Db)
    → (payload : Claims) → crypto.decode now token ≡ some payload
    → present payload.jti ≡ true
    → (logout crypto minutes now token user c s).0 ≡ ok c'
    → (later mono : ℕ) → crypto.decode later token ≡ some payload
    → get_current_user crypto later mono token (logout crypto minutes now token user c s).1 c'
      ≡ (err (http 401), c')
unfolding logout sign_out get_current_user check_revocation
logged_out_is_refused crypto minutes now token user c c' s payload d p h later mono d' =
    let j = get_or payload.jti "" in
    let start = ap (λ o. sign_out now user c o s) d in
    let (found, dropped) =
      sign_out-IsOut now user c payload s p c' (sym (ap (λ x. x.0) start) ∙ h) in
    let absent = ap (λ x. cache_get x j) (sym dropped) ∙ cache_get-invalidate j c in
    revoked_refused crypto later mono token payload (logout crypto minutes now token user c s).1 c'
      d' (sym (some_is-present payload.jti) ∙ p) (ap (λ x. is_revoked j x.1) start ∙ found) absent

fresh_entry :
    (mono : ℕ) (o : Option ℕ)
    → is_fresh mono o ≡ true
    → (t : ℕ) × ((o ≡ some t) × (mono ≤ t + revocation_cache_ttl))
fresh_entry mono none h = absurd (cc)
fresh_entry mono (some t) h = (t, (refl, ground arith))

-- A token with an identifier on the list of revoked tokens is accepted only on the word of the cache, and
-- for a minute at most after the cache was told so.
pub revoked_needs_fresh :
    (crypto : Crypto) (now mono : ℕ) (token : String) (payload : Claims) (s : Db) (c : Cache)
    (u : User)
    → crypto.decode now token ≡ some payload
    → some_is truthy payload.jti ≡ true
    → is_revoked (get_or payload.jti "") s ≡ true
    → (get_current_user crypto now mono token s c).0 ≡ ok u
    → (t : ℕ) × ((cache_get c (get_or payload.jti "") ≡ some t) × (mono ≤ t + revocation_cache_ttl))
unfolding get_current_user check_revocation
revoked_needs_fresh crypto now mono token payload s c u d p r h =
    elim (Bool-cases (is_fresh mono (cache_get c (get_or payload.jti "")))) [
      | inl e ↦ fresh_entry mono (cache_get c (get_or payload.jti "")) e
      | inr e ↦ err≢ok (rw (d, get_current_user, p, check_revocation, e, r) at h)
    ]
