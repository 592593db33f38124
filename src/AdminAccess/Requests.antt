-- ===== src/AdminAccess/Requests.antt =====
-- app/api/routes/admin_access.py. The push that wakes the device after an approval changes no state.
use Prim.Native.String
use mdm_saa_s.Common.{
  ℕ, ◌+◌, ◌*◌, String, Bool, not, ◌&&◌, Option, none, some, List, [], ◌∷◌, ◌++◌, ◌==◌, leb, head?,
  select, update_where, if◌then◌else◌,
}
use mdm_saa_s.Models.{
  Tenant, User, Device, DeviceUser, ScriptJob, JobStatus, AdminAccessRequest, RequestStatus,
  is_pending, is_approved,
}
use mdm_saa_s.Database.{
  Db, Action, Failure, pure, raise, lift, gets, modify, require, http, attribute_error, new_uuid,
  ◌>>=◌, ◌>>◌, one_or_none, add_command,
}
use mdm_saa_s.Audit.{write_audit}
use mdm_saa_s.Apple.Commands.{make_user_list_command}
use mdm_saa_s.Compliance.Evaluation.{microseconds_per_hour}

pub record CreateRequestBody : Type 0 where
  pub device_id : String
  pub device_user_id : String
  pub reason : Option String
  pub duration_hours : ℕ

-- The columns of the request are in `request`; then the joined fields.
pub record RequestResponse : Type 0 where
  pub request : AdminAccessRequest
  pub device_hostname : Option String
  pub device_serial : Option String
  pub username : Option String
  pub is_currently_admin : Option Bool
  pub elevation_command : Option String

abbrev concat : String → String → String
concat a b = String.◌++◌ a b

-- The rows that `selectinload` joins to a request.
abbrev pub device_user_of : AdminAccessRequest → Db → Option DeviceUser
device_user_of r s = head? (select (λ u. u.id == r.device_user_id) s.device_users)

abbrev pub device_of : AdminAccessRequest → Db → Option Device
device_of r s = head? (select (λ d. d.id == r.device_id) s.devices)

abbrev on_user : {A : Type 0} → (DeviceUser → A) → Option DeviceUser → Option A
on_user f none = none
on_user f (some u) = some (f u)

abbrev on_device : (Device → Option String) → Option Device → Option String
on_device f none = none
on_device f (some d) = f d

elevation_text : Option DeviceUser → String
elevation_text none = "sudo dseditgroup -o edit -a USERNAME -t user admin"
elevation_text (some u) =
    concat "sudo dseditgroup -o edit -a " (concat u.short_name " -t user admin")

unfoldable pub build_response : AdminAccessRequest → Db → RequestResponse
unfolding elevation_text
build_response r s = record {
  request = r;
  device_hostname = on_device (λ d. d.hostname) (device_of r s);
  device_serial = on_device (λ d. d.serial_number) (device_of r s);
  username = on_user (λ u. u.short_name) (device_user_of r s);
  is_currently_admin = on_user (λ u. u.is_admin) (device_user_of r s);
  elevation_command =
      if is_approved r.status then some (elevation_text (device_user_of r s)) else none;
}

abbrev pub has_request_id : String → AdminAccessRequest → Bool
has_request_id id r = r.id == id

abbrev pub on_requests : (List AdminAccessRequest → List AdminAccessRequest) → Action Unit
on_requests f = modify (λ s. record s { requests = f s.requests })

abbrev pub add_job : ScriptJob → Action Unit
add_job j = modify (λ s. record s { script_jobs = s.script_jobs ++ j ∷ [] })

-- A job that is queued for the agent: `dseditgroup -o edit -a 'username' -t user admin`, or with -d.
abbrev pub group_command : String → String → String
group_command flag username =
    concat "dseditgroup -o edit " (concat flag (concat " '" (concat username "' -t user admin")))

unfoldable pub new_job : ℕ → String → String → String → String → Option String → String → ScriptJob
new_job now tenant_id device_id command label created_by_id id = record {
  id = id;
  tenant_id = tenant_id;
  device_id = device_id;
  command = command;
  label = some label;
  status = JobStatus.pending;
  exit_code = none;
  stdout = none;
  stderr = none;
  queued_at = now;
  completed_at = none;
  created_by_id = created_by_id;
}

-- `if not o: raise e`
abbrev pub expect : {A : Type 0} → Failure → Option A → Action A
expect e none = raise e
expect e (some a) = pure a

unfoldable pub load_request : String → Tenant → Action AdminAccessRequest
unfolding one_or_none
load_request id tenant = do
  found ← gets (λ s. select (λ r. has_request_id id r && r.tenant_id == tenant.id) s.requests)
  req ← lift (one_or_none found)
  expect (http 404) req

-- `req.device_user.short_name`
unfoldable pub username_of : AdminAccessRequest → Action String
username_of req = do
  user ← gets (device_user_of req)
  u ← expect attribute_error user
  pure u.short_name

-- The job of a decision, and the UserList command that confirms its effect.
unfoldable pub queue_change :
    ℕ → AdminAccessRequest → String → String → String → Option String → Action Unit
unfolding new_job make_user_list_command
queue_change now req username flag label created_by_id = do
  id ← new_uuid
  add_job
      (new_job now req.tenant_id req.device_id (group_command flag username) label created_by_id id)
  cmd ← make_user_list_command now req.device_id req.tenant_id
  add_command cmd

-- What each decision writes to its row.
unfoldable pub approved : ℕ → String → AdminAccessRequest → AdminAccessRequest
approved now user_id r = record r {
  status = RequestStatus.approved;
  approved_by_id = some user_id;
  decided_at = some now;
  revoke_at = some (now + r.duration_hours * microseconds_per_hour);
}

unfoldable pub denied : ℕ → String → AdminAccessRequest → AdminAccessRequest
denied now user_id r = record r {
  status = RequestStatus.denied;
  approved_by_id = some user_id;
  decided_at = some now;
}

unfoldable pub revoked : ℕ → AdminAccessRequest → AdminAccessRequest
revoked now r = record r { status = RequestStatus.revoked; revoked_at = some now }

unfoldable pub new_request : ℕ → String → String → CreateRequestBody → String → AdminAccessRequest
new_request now tenant_id user_id body id = record {
  id = id;
  tenant_id = tenant_id;
  device_id = body.device_id;
  device_user_id = body.device_user_id;
  requested_by_id = user_id;
  approved_by_id = none;
  status = RequestStatus.pending;
  reason = body.reason;
  duration_hours = body.duration_hours;
  requested_at = now;
  decided_at = none;
  revoke_at = none;
  revoked_at = none;
}

module _ (now : ℕ) (tenant : Tenant) (user : User) where
  unfoldable pub create_request : CreateRequestBody → Action RequestResponse
  unfolding one_or_none new_request write_audit build_response
  create_request body = do
    devices ← gets (λ s. select (λ d. d.id == body.device_id && d.tenant_id == tenant.id) s.devices)
    device ← lift (one_or_none devices)
    expect (http 404) device
    users ← gets (λ s.
        select (λ u. u.id == body.device_user_id && u.device_id == body.device_id) s.device_users)
    found ← lift (one_or_none users)
    device_user ← expect (http 404) found
    require (not device_user.is_admin) (http 400)
    require (leb 1 body.duration_hours && leb body.duration_hours 72) (http 400)
    id ← new_uuid
    let req = new_request now tenant.id user.id body id
    on_requests (λ rs. rs ++ req ∷ [])
    write_audit now tenant.id "admin_access.requested" "admin_access_request" (some user.id)
        (some id)
    gets (build_response req)

  unfoldable pub get_request : String → Action RequestResponse
  unfolding load_request build_response
  get_request id = do req ← load_request id tenant; gets (build_response req)

  unfoldable pub approve_request : String → Action RequestResponse
  unfolding load_request approved username_of queue_change write_audit build_response
  approve_request id = do
    req ← load_request id tenant
    require (is_pending req.status) (http 400)
    on_requests (update_where (has_request_id req.id) (approved now user.id))
    username ← username_of req
    queue_change now (record req { tenant_id = tenant.id }) username "-a" "admin_elevation"
        (some user.id)
    write_audit now tenant.id "admin_access.approved" "admin_access_request" (some user.id)
        (some req.id)
    gets (build_response (approved now user.id req))

  unfoldable pub deny_request : String → Action RequestResponse
  unfolding load_request denied username_of write_audit build_response
  deny_request id = do
    req ← load_request id tenant
    require (is_pending req.status) (http 400)
    on_requests (update_where (has_request_id req.id) (denied now user.id))
    username_of req
    write_audit now tenant.id "admin_access.denied" "admin_access_request" (some user.id)
        (some req.id)
    gets (build_response (denied now user.id req))

  unfoldable pub revoke_request : String → Action RequestResponse
  unfolding load_request revoked username_of queue_change write_audit build_response
  revoke_request id = do
    req ← load_request id tenant
    require (is_approved req.status) (http 400)
    on_requests (update_where (has_request_id req.id) (revoked now))
    username ← username_of req
    queue_change now (record req { tenant_id = tenant.id }) username "-d" "admin_revocation"
        (some user.id)
    write_audit now tenant.id "admin_access.revoked" "admin_access_request" (some user.id)
        (some req.id)
    gets (build_response (revoked now req))
