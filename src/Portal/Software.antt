-- ===== src/Portal/Software.antt =====
-- create_software_request, list_software_requests and create_portal_admin_request. `lower` is `str.lower`. The
-- column `updated_at`, which the session sets on each write and nothing reads, is left as it is.
use Prim.Native.String.{slice, len}
use text.Mathlib.Text.{starts_with}
use mdm_saa_s.Common.{
  ℕ, String, not, ◌&&◌, Option, none, some, List, [], ◌∷◌, ◌++◌, ◌==◌, ◌=ℕ◌, leb, truthy, present,
  get_or, or_else, head?, select, update_where, if◌then◌else◌,
}
use mdm_saa_s.Models.{
  AdminAccessRequest, User, Device, DeviceUser, ScriptJob, JobStatus, SoftwarePackage,
  SoftwareRequest, RequestStatus,
}
use mdm_saa_s.Database.{
  Action, http, pure, raise, lift, gets, modify, require, new_uuid, ◌>>=◌, ◌>>◌, one_or_none,
}
use mdm_saa_s.Portal.Catalog.{software_catalog}
use mdm_saa_s.Portal.Session.{PortalSession, upn_prefix}

abbrev pub on_software_requests : (List SoftwareRequest → List SoftwareRequest) → Action Unit
on_software_requests f = modify (λ s. record s { software_requests = f s.software_requests })

pub record SoftwareRequestCreate : Type 0 where
  pub software_id : Option String
  pub software_name : Option String
  pub software_pkg_url : Option String
  pub reason : Option String

abbrev pub package_item : Option SoftwarePackage → Option (String × Option String)
package_item none = none
package_item (some p) = some (p.name, none)

-- An uploaded package of the tenant, whose identifier follows `pkg_`.
unfoldable pub resolve_package : String → Device → Action (Option (String × Option String))
unfolding one_or_none
resolve_package id device = do
  found ← gets (λ s.
      select (λ p. p.id == slice id 4 (len id) && p.tenant_id == device.tenant_id)
        s.software_packages)
  pkg ← lift (one_or_none found)
  pure (package_item pkg)

unfoldable pub catalog_item : String → Option (String × Option String)
catalog_item id = elim (head? (select (λ c. c.id == id) software_catalog)) [
  | none ↦ none
  | some c ↦ some (c.name, some c.pkg_url)
]

-- The name and the address of the software that the identifier names.
unfoldable pub resolve_software : Option String → Device → Action (Option (String × Option String))
unfolding resolve_package catalog_item
resolve_software none device = pure none
resolve_software (some id) device =
    if not (truthy id)
    then pure none
    else if starts_with id "pkg_"
    then resolve_package id device
    else pure (catalog_item id)

abbrev pub item_name : Option (String × Option String) → Option String → String
item_name none name = get_or name ""
item_name (some (n, u)) name = n

abbrev item_url : Option (String × Option String) → Option String
item_url none = none
item_url (some (n, u)) = u

unfoldable pub new_software_request :
    ℕ
    → PortalSession
    → Device
    → SoftwareRequestCreate
    → Option (String × Option String)
    → String
    → SoftwareRequest
new_software_request now session device body item id = record {
  id = id;
  tenant_id = device.tenant_id;
  device_id = device.id;
  requester_name = if truthy session.display_name then session.display_name else session.email;
  software_name = item_name item body.software_name;
  software_pkg_url = or_else body.software_pkg_url (item_url item);
  reason = body.reason;
  status = "pending";
  reviewed_by_id = none;
  script_job_id = none;
  created_at = now;
  updated_at = now;
}

unfoldable pub add_request : (String → SoftwareRequest) → Action String
add_request row = do id ← new_uuid; on_software_requests (λ rs. rs ++ row id ∷ []); pure id

unfoldable pub create_software_request :
    ℕ → PortalSession → Device → SoftwareRequestCreate → Action String
unfolding resolve_software new_software_request add_request
create_software_request now session device body = do
  item ← resolve_software body.software_id device
  require (truthy (item_name item body.software_name)) (http 400)
  add_request (new_software_request now session device body item)

-- The status that an installing request has after its job, with the job's status and exit code.
abbrev pub after_status : JobStatus → Option ℕ → SoftwareRequest → SoftwareRequest
after_status JobStatus.completed code r = record r {
  status = if get_or code 1 =ℕ 0 then "completed" else "failed";
}
after_status JobStatus.failed code r = record r { status = "failed" }
after_status _ code r = r

abbrev pub after_job : Option ScriptJob → SoftwareRequest → SoftwareRequest
after_job none r = r
after_job (some job) r = after_status job.status job.exit_code r

unfoldable pub synced : List ScriptJob → SoftwareRequest → SoftwareRequest
synced jobs r =
    if present r.script_job_id && r.status == "installing"
    then after_job (head? (select (λ j. j.id == get_or r.script_job_id "") jobs)) r
    else r

-- The list writes what it finds of the jobs. The result is the requests of the device.
unfoldable pub list_software_requests : Device → Action (List SoftwareRequest)
unfolding synced
list_software_requests device = do
  jobs ← gets (λ s. s.script_jobs)
  on_software_requests (update_where (λ r. r.device_id == device.id) (synced jobs))
  gets (λ s. select (λ r. r.device_id == device.id) s.software_requests)

unfoldable pub choose_user : Option DeviceUser → Option DeviceUser → Action DeviceUser
choose_user (some u) logged_in = pure u
choose_user none (some u) = pure u
choose_user none none = raise (http 404)

-- The account on the device: that of the name, or else one that is logged in.
unfoldable pub portal_user : (String → String) → PortalSession → Device → Action DeviceUser
unfolding one_or_none choose_user
portal_user lower session device = do
  found ← gets (λ s.
      select (λ u. u.device_id == device.id && u.short_name == upn_prefix lower session)
        s.device_users)
  named ← lift (one_or_none found)
  logged_in ←
      gets (λ s. head? (select (λ u. u.device_id == device.id && u.is_logged_in) s.device_users))
  choose_user named logged_in

unfoldable pub new_portal_request :
    ℕ → Device → DeviceUser → Option String → ℕ → User → String → AdminAccessRequest
new_portal_request now device user reason duration_hours requester id = record {
  id = id;
  tenant_id = device.tenant_id;
  device_id = device.id;
  device_user_id = user.id;
  requested_by_id = requester.id;
  approved_by_id = none;
  status = RequestStatus.pending;
  reason = reason;
  duration_hours = duration_hours;
  requested_at = now;
  decided_at = none;
  revoke_at = none;
  revoked_at = none;
}

-- The row, for a requester who is registered.
unfoldable pub submit_request : (User → String → AdminAccessRequest) → Option User → Action String
submit_request row none = raise (http 404)
submit_request row (some requester) = do
  id ← new_uuid
  modify (λ s. record s { requests = s.requests ++ row requester id ∷ [] })
  pure id

unfoldable pub create_portal_admin_request :
    (String → String) → ℕ → PortalSession → Device → Option String → ℕ → Action String
unfolding portal_user one_or_none new_portal_request submit_request
create_portal_admin_request lower now session device reason duration_hours = do
  user ← portal_user lower session device
  require (not user.is_admin) (http 400)
  require (leb 1 duration_hours && leb duration_hours 72) (http 400)
  found ←
      gets (λ s.
        select (λ u. u.email == lower session.email && u.tenant_id == device.tenant_id) s.users)
  requester ← lift (one_or_none found)
  submit_request (new_portal_request now device user reason duration_hours) requester
