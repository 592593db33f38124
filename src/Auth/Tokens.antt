-- ===== src/Auth/Tokens.antt =====
-- app/core/security.py. The packages `jose` and `passlib` are not part of the program: their operations
-- are the fields of `Crypto`.
use mdm_saa_s.Common.{ℕ, ◌+◌, ◌*◌, String, Bool, Option, some}
use mdm_saa_s.Database.{Action, pure, new_uuid, ◌>>=◌}

-- The claims of a token that the server writes and reads.
pub record Claims : Type 0 where
  pub sub : String
  pub tenant_id : String
  pub role : String
  pub exp : Option ℕ
  pub jti : Option String
  pub kind : Option String

-- `decode now token` is `none` where `jwt.decode` raises a JWTError at the time `now`.
pub record Crypto : Type 0 where
  pub encode : Claims → String
  pub decode : ℕ → String → Option Claims
  pub verify : String → String → Bool
  pub hash : String → String
  pub verify_totp : ℕ → String → String → Bool

abbrev pub microseconds_per_minute : ℕ
microseconds_per_minute = 60_000_000

-- `kind` is the claim "type" of `extra`, and `minutes` the token's life.
unfoldable pub new_claims : ℕ → String → String → String → Option String → ℕ → String → Claims
new_claims now subject tenant_id role kind minutes jti = record {
  sub = subject;
  tenant_id = tenant_id;
  role = role;
  exp = some (now + minutes * microseconds_per_minute);
  jti = some jti;
  kind = kind;
}

unfoldable pub create_access_token :
    Crypto → ℕ → String → String → String → Option String → ℕ → Action String
unfolding new_claims
create_access_token crypto now subject tenant_id role kind minutes = do
  jti ← new_uuid
  pure (crypto.encode (new_claims now subject tenant_id role kind minutes jti))
