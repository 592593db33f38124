-- ===== src/Portal/Session.antt =====
-- get_portal_session of app/core/deps.py and get_portal_device: who asks, and from which device. `upn` is the
-- claim of that name, or the e-mail.
use Prim.Native.String.{find, slice, len}
use mdm_saa_s.Common.{
  ℕ, String, Bool, true, false, ◌&&◌, Option, none, some, List, [], ◌∷◌, ◌==◌, ltb, leb, any,
  select, truthy, if◌then◌else◌,
}
use mdm_saa_s.Models.{Device, DeviceUser, is_enrolled_device}
use mdm_saa_s.Database.{Db, Action, http, pure, raise, gets, lift, ◌>>=◌, one_or_none}

pub record PortalClaims : Type 0 where
  pub sub : String
  pub tenant_id : String
  pub role : Option String
  pub name : Option String
  pub upn : Option String

pub record PortalSession : Type 0 where
  pub email : String
  pub tenant_id : String
  pub display_name : String
  pub upn : String

abbrev claim_or : Option String → String → String
claim_or none d = d
claim_or (some x) d = x

abbrev pub session_of : PortalClaims → PortalSession
session_of c = record {
  email = c.sub;
  tenant_id = c.tenant_id;
  display_name = claim_or c.name c.sub;
  upn = claim_or c.upn c.sub;
}

unfoldable pub portal_tenant : PortalClaims → Action PortalSession
unfolding one_or_none
portal_tenant c = do
  found ← gets (λ s. select (λ t. t.id == c.tenant_id) s.tenants)
  tenant ← lift (one_or_none found)
  elim tenant [
    | none ↦ raise (http 403)
    | some t ↦ if t.status == "active" then pure (session_of c) else raise (http 403)
  ]

-- The cookie, and `decode_token` on it, `none` where it raises.
unfoldable pub get_portal_session :
    (String → Option PortalClaims) → Option String → Action PortalSession
unfolding portal_tenant
get_portal_session decode none = raise (http 401)
get_portal_session decode (some token) =
    if truthy token
    then (elim (decode token) [
      | none ↦ raise (http 401)
      | some c ↦ if claim_or c.role "" == "portal" then portal_tenant c else raise (http 403)
    ])
    else raise (http 401)

-- `upn.split("@")[0].lower()`
abbrev pub upn_prefix : (String → String) → PortalSession → String
upn_prefix lower session =
    let u = session.upn in lower (if leb (find u "@") (len u) then slice u 0 (find u "@") else u)

-- ORDER BY last_checkin DESC: a device that has not checked in is first.
abbrev pub is_after : Option ℕ → Option ℕ → Bool
is_after a none = false
is_after none (some y) = true
is_after (some x) (some y) = ltb y x

abbrev pub later_device : Device → Option Device → Device
later_device d none = d
later_device d (some e) = if is_after e.last_checkin d.last_checkin then e else d

unfoldable pub newest : List Device → Option Device
newest [] = none
newest (d ∷ ds) = some (later_device d (newest ds))

-- The newest enrolled device of the tenant with one of these users.
unfoldable pub device_with : String → List DeviceUser → Db → Option Device
unfolding newest
device_with tenant_id us s = newest (
    select
      (λ d.
        any (λ u. u.device_id == d.id) us
        && d.tenant_id == tenant_id
        && is_enrolled_device d.status)
      s.devices)

unfoldable pub get_portal_device : (String → String) → PortalSession → Action Device
unfolding device_with
get_portal_device lower session = do
  named ← gets (λ s.
      device_with session.tenant_id
        (select (λ u. u.short_name == upn_prefix lower session && u.tenant_id == session.tenant_id)
          s.device_users)
        s)
  logged_in ← gets (λ s.
      device_with session.tenant_id
        (select (λ u. u.tenant_id == session.tenant_id && u.is_logged_in) s.device_users) s)
  elim named [
    | some d ↦ pure d
    | none ↦ elim logged_in [ some d ↦ pure d | none ↦ raise (http 404) ]
  ]
