-- ===== src/Tenants/Signup.antt =====
-- signup and _slugify. `lower_strip` is Python's `name.lower().strip()`, `strip` is `str.strip`, `str` prints a
-- number; the e-mail of welcome is left out.
use Prim.Native.String
use Prim.Native.Char.{Char, code}
use mdm_saa_s.Common.{
  ℕ, zero, suc, String, Bool, true, false, not, ◌&&◌, ◌||◌, Option, none, some, List, [], ◌∷◌, ◌++◌,
  ◌==◌, ◌=ℕ◌, leb, truthy, is_some, any, select, length, if◌then◌else◌,
}
use mdm_saa_s.Models.{Tenant, User}
use mdm_saa_s.Database.{
  Action, Result, ok, err, http, integrity, pure, raise, lift, gets, require, new_uuid, ◌>>=◌, ◌>>◌,
  one_or_none,
}
use mdm_saa_s.Agent.Jobs.{prefix}
use mdm_saa_s.Auth.Tokens.{Crypto, create_access_token}
use mdm_saa_s.Auth.Login.{on_users}
use mdm_saa_s.Auth.Reset.{password_strength}
use mdm_saa_s.Billing.Events.{on_tenants}

-- [a-z0-9]
abbrev pub is_slug_char : Char → Bool
is_slug_char c =
    (leb b'a' (code c) && leb (code c) b'z') || (leb b'0' (code c) && leb (code c) b'9')

-- `re.sub(r"[^a-z0-9]+", "-", s)`; the flag says that the last character was replaced
unfoldable pub dashed : Bool → String → String
dashed replaced String.[] = ""
dashed replaced (String.◌∷◌ c s) =
    let kept = dashed false s in
    let gone = dashed true s in
    if is_slug_char c then String.◌∷◌ c kept else if replaced then gone else String.◌++◌ "-" gone

-- `s.strip("-")`
unfoldable pub lead_stripped : String → String
lead_stripped String.[] = ""
lead_stripped (String.◌∷◌ c s) =
    let rest = lead_stripped s in if code c =ℕ b'-' then rest else String.◌∷◌ c s

unfoldable pub end_stripped : String → String
end_stripped String.[] = ""
end_stripped (String.◌∷◌ c s) =
    let rest = end_stripped s in if (code c =ℕ b'-') && rest == "" then "" else String.◌∷◌ c rest

unfoldable pub slugify : (String → String) → String → String
unfolding dashed lead_stripped end_stripped prefix
slugify lower_strip name =
    let slug = prefix 80 (end_stripped (lead_stripped (dashed false (lower_strip name)))) in
    if truthy slug then slug else "org"

-- A slug is in use: the column is unique, so at most one row has it.
abbrev pub is_taken : String → List Tenant → Bool
is_taken slug ts = any (λ t. t.slug == slug) ts

abbrev pub with_suffix : (ℕ → String) → String → ℕ → String
with_suffix str base n = String.◌++◌ base (String.◌++◌ "-" (str n))

-- The loop, in at most so many rounds as the first argument says; `none` is that they do not suffice.
unfoldable pub free_slug : (ℕ → String) → String → ℕ → ℕ → String → List Tenant → Option String
free_slug str base zero suffix slug ts = none
free_slug str base (suc rounds) suffix slug ts =
    let rest = free_slug str base rounds (suc suffix) (with_suffix str base suffix) ts in
    if is_taken slug ts then rest else some slug

-- As many rounds as there are tenants, and one more.
unfoldable pub unique_slug : (ℕ → String) → String → List Tenant → Option String
unfolding free_slug
unique_slug str base ts = free_slug str base (suc (length ts)) 1 base ts

pub record SignupRequest : Type 0 where
  pub org_name : String
  pub email : String
  pub password : String
  pub plan : String

pub record SignupResponse : Type 0 where
  pub access_token : String
  pub tenant_id : String
  pub tenant_slug : String
  pub plan : String

unfoldable pub new_tenant : ℕ → String → String → String → String → Tenant
new_tenant now id name slug plan = record {
  id = id;
  name = name;
  slug = slug;
  plan = plan;
  status = "active";
  apns_cert_arn = none;
  apns_key_arn = none;
  apns_push_topic = none;
  entra_tenant_id = none;
  entra_client_id = none;
  created_at = now;
  billing_status = "pending";
  plan_device_limit = 0;
  trial_ends_at = none;
  trial_reminder_sent_at = none;
  stripe_customer_id = none;
  stripe_subscription_id = none;
}

unfoldable pub new_owner : ℕ → String → String → String → String → User
new_owner now id tenant_id email hashed_password = record {
  id = id;
  tenant_id = tenant_id;
  email = email;
  hashed_password = some hashed_password;
  role = "owner";
  status = "active";
  last_login = none;
  created_at = now;
  totp_secret = none;
  totp_enabled = false;
}

module _ (crypto : Crypto) (lower_strip strip : String → String) (str : ℕ → String)
    (now minutes : ℕ) where
  -- What follows the choice of a slug.
  unfoldable pub open_account : SignupRequest → String → Action SignupResponse
  unfolding new_tenant new_owner create_access_token
  open_account body slug = do
    tenant_id ← new_uuid
    on_tenants (λ ts. ts ++ new_tenant now tenant_id (strip body.org_name) slug body.plan ∷ [])
    user_id ← new_uuid
    on_users
        (λ us. us ++ new_owner now user_id tenant_id body.email (crypto.hash body.password) ∷ [])
    token ← create_access_token crypto now user_id tenant_id "owner" none minutes
    pure (record {
      access_token = token;
      tenant_id = tenant_id;
      tenant_slug = slug;
      plan = body.plan;
    })

  unfoldable pub with_slug : SignupRequest → Option String → Action SignupResponse
  unfolding open_account
  with_slug body none = raise integrity
  with_slug body (some slug) = open_account body slug

  -- The validators of the body; what they refuse is answered with 422.
  unfoldable pub validated : SignupRequest → Result SignupRequest
  validated body =
      let org_name = strip body.org_name in
      if truthy org_name
        && password_strength body.password
        && (body.plan == "starter" || body.plan == "professional")
      then ok (record body { org_name = org_name })
      else err (http 422)

  unfoldable pub signup : SignupRequest → Action SignupResponse
  unfolding one_or_none slugify unique_slug with_slug validated
  signup request = do
    body ← lift (validated request)
    found ← gets (λ s. select (λ u. u.email == body.email) s.users)
    existing ← lift (one_or_none found)
    require (not (is_some existing)) (http 409)
    slug ← gets (λ s. unique_slug str (slugify lower_strip body.org_name) s.tenants)
    with_slug body slug
