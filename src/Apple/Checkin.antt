-- ===== src/Apple/Checkin.antt =====
-- app/mdm/apple/checkin.py: PUT /mdm/apple/checkin.
pub mod Enrollment
pub mod Departure
use Prim.Native.Char.{code}
use mdm_saa_s.Common.{
  ℕ, String, Bool, false, ◌||◌, Option, none, some, List, [], ◌∷◌, ◌++◌, ◌==◌, ◌=ℕ◌, truthy,
  or_else, some_is, select, update_where, head?, if◌then◌else◌,
}
use mdm_saa_s.Models.{Tenant, Device, DeviceStatus, ComplianceStatus, is_wiped}
use mdm_saa_s.Database.{
  Action, Result, pure, raise, lift, gets, http, attempt, if_given, new_uuid, ◌>>=◌, ◌>>◌,
  one_or_none, on_devices, has_udid, add_command,
}
use mdm_saa_s.Apple.Plist.{
  PlistDict, AuthenticateMessage, TokenUpdateMessage, CheckOutMessage, CheckinMessage, authenticate,
  token_update, check_out, unhandled, parse_checkin_message, push_token_hex,
}
use mdm_saa_s.Apple.Commands.{make_install_profile_command}

-- select(Device).where(Device.udid == udid), then scalar_one_or_none()
unfoldable pub find_device : String → Action (Option Device)
unfolding one_or_none
find_device udid s = (one_or_none (select (has_udid udid) s.devices), s)

-- `msg.unlock_token.hex() if msg.unlock_token else None`: empty bytes are falsy too.
abbrev unlock_text : Option (List ℕ) → Option String
unlock_text none = none
unlock_text (some []) = none
unlock_text (some (b ∷ bytes)) = some (push_token_hex (b ∷ bytes))

-- `device.enrolled_at or datetime.utcnow()`: a time is never falsy
abbrev or_now : Option ℕ → ℕ → Option ℕ
or_now none now = some now
or_now (some t) now = some t

unfoldable pub has_dot : String → Bool
has_dot String.[] = false
has_dot (String.◌∷◌ c s) = (code c =ℕ b'.') || has_dot s

-- `text.split(".")[-1]`
unfoldable pub last_part : String → String
unfolding has_dot
last_part String.[] = ""
last_part (String.◌∷◌ c s) =
    let rest = last_part s in
    if has_dot s then rest else if code c =ℕ b'.' then s else String.◌∷◌ c s

-- select(Tenant).where(Tenant.apns_push_topic == topic).limit(1), and the same by slug
abbrev pub tenant_by_topic : String → List Tenant → Option Tenant
tenant_by_topic topic ts = head? (select (λ t. some_is (λ x. x == topic) t.apns_push_topic) ts)

abbrev pub tenant_by_slug : String → List Tenant → Option Tenant
tenant_by_slug slug ts = head? (select (λ t. t.slug == slug) ts)

-- The tenant of a device that is not known yet: by the push topic, or else by the topic's last part.
unfoldable pub resolve_tenant : String → List Tenant → Option Tenant
unfolding last_part
resolve_tenant topic ts = elim (tenant_by_topic topic ts) [
  | some t ↦ some t
  | none ↦ if truthy (last_part topic) then tenant_by_slug (last_part topic) ts else none
]

-- The row that a first TokenUpdate adds; the columns that it does not name have their defaults.
unfoldable pub new_device : String → Tenant → TokenUpdateMessage → ℕ → Device
new_device id tenant msg now = record {
  id = id;
  tenant_id = tenant.id;
  udid = msg.udid;
  platform = "macos";
  serial_number = none;
  model = none;
  os_version = none;
  hostname = none;
  status = DeviceStatus.enrolled;
  enroll_type = "manual";
  assigned_user_id = none;
  push_token = some (push_token_hex msg.token);
  push_magic = some msg.push_magic;
  push_topic = some msg.topic;
  unlock_token = unlock_text msg.unlock_token;
  psso_status = "not_configured";
  enrolled_at = some now;
  last_checkin = some now;
  is_encrypted = none;
  is_supervised = none;
  firewall_enabled = none;
  gatekeeper_enabled = none;
  screen_lock_enabled = none;
  compliance_status = ComplianceStatus.unknown;
  compliance_checked_at = none;
  agent_token = none;
}

-- The UPDATE statements of the three handlers, on one row.
unfoldable pub authenticated : AuthenticateMessage → Device → ℕ → Device → Device
authenticated msg device now d = record d {
  os_version = or_else msg.os_version device.os_version;
  serial_number = or_else msg.serial_number device.serial_number;
  model = or_else msg.model device.model;
  status = DeviceStatus.authenticating;
  push_topic = some msg.topic;
  last_checkin = some now;
}

unfoldable pub token_updated : TokenUpdateMessage → Device → ℕ → Device → Device
token_updated msg device now d = record d {
  push_token = some (push_token_hex msg.token);
  push_magic = some msg.push_magic;
  push_topic = some msg.topic;
  unlock_token = unlock_text msg.unlock_token;
  status = DeviceStatus.enrolled;
  enrolled_at = or_now device.enrolled_at now;
  last_checkin = some now;
}

unfoldable pub checked_out : DeviceStatus → ℕ → Device → Device
checked_out status now d = record d {
  status = status;
  push_token = none;
  push_magic = none;
  last_checkin = some now;
}

unfoldable pub checkout_status : Option Device → DeviceStatus
checkout_status device =
    if some_is (λ d. is_wiped d.status) device then DeviceStatus.spare else DeviceStatus.unenrolled

-- `psso_profile` stands for `build_psso_profile` of app/mdm/apple/profiles.py followed by base64: the
-- profile's text, or the exception that it raises. `now` is the time of the request.
module _ (psso_profile : Tenant → Result String) (now : ℕ) where
  unfoldable pub queue_psso_profile : Device → Tenant → Action Unit
  unfolding make_install_profile_command
  queue_psso_profile device tenant = attempt do
    profile_xml ← lift (psso_profile tenant)
    cmd ← make_install_profile_command now device.id tenant.id profile_xml
    add_command cmd

  unfoldable pub enroll_device : TokenUpdateMessage → Option Tenant → Action Unit
  unfolding queue_psso_profile new_device
  enroll_device msg none = pure tt
  enroll_device msg (some tenant) = do
    id ← new_uuid
    let device = new_device id tenant msg now
    on_devices (λ ds. ds ++ device ∷ [])
    queue_psso_profile device tenant

  unfoldable pub handle_authenticate : AuthenticateMessage → Action Unit
  unfolding find_device authenticated
  handle_authenticate msg = do
    found ← find_device msg.udid
    if_given found
        (λ device. on_devices (update_where (has_udid msg.udid) (authenticated msg device now)))

  -- An unknown device, or one that is known.
  unfoldable pub update_token : TokenUpdateMessage → Option Device → Action Unit
  unfolding token_updated enroll_device resolve_tenant
  update_token msg none = do
    tenant ← gets (λ s. resolve_tenant msg.topic s.tenants)
    enroll_device msg tenant
  update_token msg (some device) =
      on_devices (update_where (has_udid msg.udid) (token_updated msg device now))

  unfoldable pub handle_token_update : TokenUpdateMessage → Action Unit
  unfolding find_device update_token
  handle_token_update msg = do found ← find_device msg.udid; update_token msg found

  unfoldable pub leave : CheckOutMessage → Option Device → Action Unit
  unfolding checked_out checkout_status
  leave msg device =
      on_devices (update_where (has_udid msg.udid) (checked_out (checkout_status device) now))

  unfoldable pub handle_checkout : CheckOutMessage → Action Unit
  unfolding find_device leave
  handle_checkout msg = do device ← find_device msg.udid; leave msg device

  unfoldable pub handle_checkin : CheckinMessage → Action Unit
  unfolding handle_authenticate handle_token_update handle_checkout
  handle_checkin (authenticate msg) = handle_authenticate msg
  handle_checkin (token_update msg) = handle_token_update msg
  handle_checkin (check_out msg) = handle_checkout msg
  handle_checkin unhandled = pure tt

  -- The body is empty, is no plist (`some none`), or decodes to a dict. The answer is an empty plist.
  unfoldable pub checkin : Option (Option PlistDict) → Action Unit
  unfolding handle_checkin parse_checkin_message
  checkin none = raise (http 400)
  checkin (some none) = raise (http 400)
  checkin (some (some data_)) = do msg ← lift (parse_checkin_message data_); handle_checkin msg
