-- ===== src/Models/Devices.antt =====
-- The tables of devices, of what they report, and of the work queued for them.
use mdm_saa_s.Common.{ℕ, String, Bool, Option, List}
use mdm_saa_s.Models.Status.{DeviceStatus, ComplianceStatus, CommandState, JobStatus}

pub record Device : Type 0 where
  pub id : String
  pub tenant_id : String
  pub udid : String
  pub platform : String
  pub serial_number : Option String
  pub model : Option String
  pub os_version : Option String
  pub hostname : Option String
  pub status : DeviceStatus
  pub enroll_type : String
  pub assigned_user_id : Option String
  pub push_token : Option String
  pub push_magic : Option String
  pub push_topic : Option String
  pub unlock_token : Option String
  pub psso_status : String
  pub enrolled_at : Option ℕ
  pub last_checkin : Option ℕ
  pub is_encrypted : Option Bool
  pub is_supervised : Option Bool
  pub firewall_enabled : Option Bool
  pub gatekeeper_enabled : Option Bool
  pub screen_lock_enabled : Option Bool
  pub compliance_status : ComplianceStatus
  pub compliance_checked_at : Option ℕ
  pub agent_token : Option String

-- A JSON object whose values the server only stores: keys and printed values.
abbrev pub Payload : Type 0
Payload = List (String × List String)

-- `result`, as the connect handler of Apple devices and the OMA-DM handler of Windows devices write it.
pub data CommandOutcome : Type 0 where
  reported : String → List String → CommandOutcome
  syncml_status : Option String → CommandOutcome

pub record MdmCommand : Type 0 where
  pub id : String
  pub device_id : String
  pub tenant_id : String
  pub command_uuid : String
  pub command_type : String
  pub status : CommandState
  pub payload : Payload
  pub result : Option CommandOutcome
  pub queued_at : ℕ
  pub executed_at : Option ℕ

pub record InstalledApp : Type 0 where
  pub id : String
  pub device_id : String
  pub tenant_id : String
  pub name : String
  pub bundle_id : Option String
  pub version : Option String
  pub short_version : Option String
  pub source : Option String
  pub last_seen_at : ℕ

pub record DeviceUser : Type 0 where
  pub id : String
  pub device_id : String
  pub tenant_id : String
  pub user_guid : Option String
  pub short_name : String
  pub full_name : Option String
  pub is_admin : Bool
  pub is_logged_in : Bool
  pub has_secure_token : Bool
  pub last_seen_at : ℕ

pub record DeviceUpdate : Type 0 where
  pub id : String
  pub device_id : String
  pub tenant_id : String
  pub product_key : String
  pub human_readable_name : Option String
  pub version : Option String
  pub build : Option String
  pub is_critical : Bool
  pub is_config_data_only : Bool
  pub restart_required : Bool
  pub metadata_url : Option String
  pub last_seen_at : ℕ

-- `exit_code` is 0 or not: its sign is not read.
pub record ScriptJob : Type 0 where
  pub id : String
  pub tenant_id : String
  pub device_id : String
  pub command : String
  pub label : Option String
  pub status : JobStatus
  pub exit_code : Option ℕ
  pub stdout : Option String
  pub stderr : Option String
  pub queued_at : ℕ
  pub completed_at : Option ℕ
  pub created_by_id : Option String
