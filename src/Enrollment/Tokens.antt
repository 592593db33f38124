-- ===== src/Enrollment/Tokens.antt =====
-- _check_device_limit, create_enrollment_token and download_enrollment_profile. A duration is a natural
-- number of hours here. A row's attribute that the handler assigns is an UPDATE by the row's identifier.
use Prim.Native.String
use mdm_saa_s.Common.{
  ℕ, ◌+◌, ◌*◌, String, Bool, true, false, not, ◌&&◌, Option, none, some, List, [], ◌∷◌, ◌++◌, ◌==◌,
  count, select, update_where, ltb, leb, present, get_or, some_is, if◌then◌else◌,
}
use mdm_saa_s.Models.{Tenant, EnrollmentToken}
use mdm_saa_s.Database.{
  Db, Action, http, pure, raise, lift, gets, modify, new_uuid, require, ◌>>=◌, ◌>>◌, one_or_none,
}

abbrev pub on_tokens : (List EnrollmentToken → List EnrollmentToken) → Action Unit
on_tokens f = modify (λ s. record s { enrollment_tokens = f s.enrollment_tokens })

unfoldable pub device_count : Tenant → Db → ℕ
device_count tenant s = count (λ d. d.tenant_id == tenant.id) s.devices

unfoldable pub check_device_limit : Tenant → Action Unit
unfolding device_count
check_device_limit tenant = do
  n ← gets (device_count tenant)
  require (not (leb tenant.plan_device_limit n)) (http 402)

abbrev pub new_token : ℕ → Tenant → String → Bool → ℕ → String → String → EnrollmentToken
new_token now tenant platform reusable hours token id = record {
  id = id;
  tenant_id = tenant.id;
  token = token;
  platform = platform;
  enroll_type = "manual";
  reusable = reusable;
  used = false;
  expires_at = some (now + hours * 3_600_000_000);
  created_at = now;
}

unfoldable pub issue_token : ℕ → Tenant → String → Bool → ℕ → Action String
issue_token now tenant platform reusable hours = do
  token ← new_uuid
  id ← new_uuid
  on_tokens (λ ts. ts ++ new_token now tenant platform reusable hours token id ∷ [])
  pure token

unfoldable pub create_enrollment_token : ℕ → Tenant → String → Bool → ℕ → Action String
unfolding check_device_limit issue_token
create_enrollment_token now tenant platform reusable hours =
    check_device_limit tenant >> issue_token now tenant platform reusable hours

-- What is served: the page with a button, or the profile, by what it is built from.
pub data Served : Type 0 where
  landing_page : String → Served
  enrollment_profile : Tenant → String → Served

unfoldable pub push_topic : Tenant → String
push_topic tenant =
    if present tenant.apns_push_topic
    then get_or tenant.apns_push_topic ""
    else String.◌++◌ "com.mdmsaas.mdm." tenant.slug

abbrev pub mark_used : EnrollmentToken → EnrollmentToken
mark_used r = record r { used = true }

abbrev pub has_token : String → EnrollmentToken → Bool
has_token token r = r.token == token

-- `record.used and not record.reusable`, and `record.expires_at and record.expires_at < now`
unfoldable pub is_spent : EnrollmentToken → Bool
is_spent r = r.used && not r.reusable

unfoldable pub is_expired : ℕ → EnrollmentToken → Bool
is_expired now r = some_is (λ t. ltb t now) r.expires_at

-- The checks of the row that is found.
unfoldable pub checked_token : ℕ → Option EnrollmentToken → Action EnrollmentToken
unfolding is_spent is_expired
checked_token now none = raise (http 404)
checked_token now (some r) = do
  require (not (is_spent r)) (http 410)
  require (not (is_expired now r)) (http 410)
  pure r

unfoldable pub valid_token : ℕ → String → Action EnrollmentToken
unfolding one_or_none checked_token
valid_token now token = do
  found ← gets (λ s. select (has_token token) s.enrollment_tokens)
  one ← lift (one_or_none found)
  checked_token now one

unfoldable pub token_tenant : EnrollmentToken → Action Tenant
unfolding one_or_none
token_tenant r = do
  found ← gets (λ s. select (λ t. t.id == r.tenant_id) s.tenants)
  one ← lift (one_or_none found)
  elim one [ none ↦ raise (http 404) | some t ↦ pure t ]

-- The response, by whether a browser asks for the page.
unfoldable pub serve : Bool → EnrollmentToken → Tenant → Action Served
unfolding push_topic
serve true r tenant = pure (landing_page tenant.name)
serve false r tenant = do
  on_tokens (λ ts. if r.reusable then ts else update_where (λ x. x.id == r.id) mark_used ts)
  pure (enrollment_profile tenant (push_topic tenant))

-- `html` and `download`: the Accept header names text/html, and the query parameter.
unfoldable pub download_enrollment_profile : ℕ → String → Bool → Bool → Action Served
unfolding valid_token token_tenant serve
download_enrollment_profile now token html download = do
  r ← valid_token now token
  tenant ← token_tenant r
  serve (html && not download) r tenant
