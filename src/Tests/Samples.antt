-- ===== src/Tests/Samples.antt =====
-- A tenant, a user, two devices, and what is stored of them.
use mdm_saa_s.Common.{true, false, none, some, [], ◌∷◌}
use mdm_saa_s.Models.{
  Tenant, User, Device, DeviceStatus, ComplianceStatus, MdmCommand, CommandState, DeviceUser,
  ScriptJob, JobStatus, AdminAccessRequest, RequestStatus, CompliancePolicy,
}
use mdm_saa_s.Database.{Db}
use mdm_saa_s.Compliance.Templates.{iso27001_rules}

abbrev pub acme : Tenant
acme = record {
  id = "t1";
  name = "Acme";
  slug = "acme";
  plan = "trial";
  status = "active";
  apns_cert_arn = none;
  apns_key_arn = none;
  apns_push_topic = some "com.apple.mgmt.acme";
  entra_tenant_id = none;
  entra_client_id = none;
  created_at = 0;
  billing_status = "trialing";
  plan_device_limit = 10;
  trial_ends_at = none;
  trial_reminder_sent_at = none;
  stripe_customer_id = none;
  stripe_subscription_id = none;
}

abbrev pub ada : User
ada = record {
  id = "u1";
  tenant_id = "t1";
  email = "ada@acme.com";
  hashed_password = some "hash";
  role = "owner";
  status = "active";
  last_login = none;
  created_at = 0;
  totp_secret = none;
  totp_enabled = false;
}

abbrev pub laptop : Device
laptop = record {
  id = "d1";
  tenant_id = "t1";
  udid = "UDID-1";
  platform = "macos";
  serial_number = some "C02";
  model = none;
  os_version = some "15.1";
  hostname = some "ada-mac";
  status = DeviceStatus.enrolled;
  enroll_type = "manual";
  assigned_user_id = none;
  push_token = some "0102";
  push_magic = some "magic";
  push_topic = some "com.apple.mgmt.acme";
  unlock_token = none;
  psso_status = "not_configured";
  enrolled_at = some 100;
  last_checkin = some 200;
  is_encrypted = some true;
  is_supervised = none;
  firewall_enabled = some false;
  gatekeeper_enabled = none;
  screen_lock_enabled = none;
  compliance_status = ComplianceStatus.unknown;
  compliance_checked_at = none;
  agent_token = some "agent";
}

abbrev pub other : Device
other = record laptop { id = "d2"; udid = "UDID-2"; agent_token = none }

abbrev pub erase : MdmCommand
erase = record {
  id = "c1";
  device_id = "d1";
  tenant_id = "t1";
  command_uuid = "UUID-1";
  command_type = "EraseDevice";
  status = CommandState.queued;
  payload = [];
  result = none;
  queued_at = 300;
  executed_at = none;
}

abbrev pub query : MdmCommand
query = record erase {
  id = "c2";
  command_uuid = "UUID-2";
  command_type = "DeviceInformation";
  queued_at = 250;
}

abbrev pub account : DeviceUser
account = record {
  id = "du1";
  device_id = "d1";
  tenant_id = "t1";
  user_guid = none;
  short_name = "ada";
  full_name = none;
  is_admin = false;
  is_logged_in = true;
  has_secure_token = true;
  last_seen_at = 200;
}

abbrev pub job : ScriptJob
job = record {
  id = "j1";
  tenant_id = "t1";
  device_id = "d1";
  command = "uptime";
  label = none;
  status = JobStatus.pending;
  exit_code = none;
  stdout = none;
  stderr = none;
  queued_at = 220;
  completed_at = none;
  created_by_id = some "u1";
}

-- A grant for one hour from the time 0.
abbrev pub grant : AdminAccessRequest
grant = record {
  id = "r1";
  tenant_id = "t1";
  device_id = "d1";
  device_user_id = "du1";
  requested_by_id = "u1";
  approved_by_id = some "u1";
  status = RequestStatus.approved;
  reason = none;
  duration_hours = 1;
  requested_at = 0;
  decided_at = some 0;
  revoke_at = some 3_600_000_000;
  revoked_at = none;
}

abbrev pub policy : CompliancePolicy
policy = record {
  id = "p1";
  tenant_id = "t1";
  name = "ISO";
  framework = "iso27001";
  description = none;
  rules = iso27001_rules;
  is_active = true;
  created_at = 0;
  updated_at = 0;
}

abbrev pub office : Db
office = record {
  tenants = acme ∷ [];
  users = ada ∷ [];
  reset_tokens = [];
  revoked_tokens = [];
  audit_logs = [];
  devices = laptop ∷ other ∷ [];
  commands = erase ∷ query ∷ [];
  installed_apps = [];
  device_users = account ∷ [];
  device_updates = [];
  script_jobs = job ∷ [];
  requests = grant ∷ [];
  policies = policy ∷ [];
  results = [];
  groups = [];
  members = [];
  enrollment_tokens = [];
  profiles = [];
  profile_versions = [];
  software_requests = [];
  software_packages = [];
  uuids = λ n. "fresh";
  drawn = 0;
}
