-- ===== src/Apple/Connect/Handler.antt =====
-- connect and _process_command_result.
use mdm_saa_s.Common.{
  ℕ, String, Bool, not, ◌&&◌, Option, none, some, ◌==◌, present, get_or, some_is, select,
  update_where, if◌then◌else◌,
}
use mdm_saa_s.Models.{
  Device, DeviceStatus, ComplianceStatus, MdmCommand, CommandState, Payload, reported,
}
use mdm_saa_s.Database.{
  Action, pure, gets, lift, attempt, if_given, one_or_none, on_devices, on_commands, has_udid,
  ◌>>=◌, ◌>>◌,
}
use mdm_saa_s.Compliance.Evaluation.{evaluate_device_all_policies}
use mdm_saa_s.Apple.Plist.{PlistDict, CommandResultMessage, parse_connect_message}
use mdm_saa_s.Apple.Checkin.{find_device}
use mdm_saa_s.Apple.Connect.Queue.{get_next_command}
use mdm_saa_s.Apple.Connect.Reports.{
  apply_device_info, apply_installed_apps, apply_available_updates, apply_user_list,
}

unfoldable pub command_state : String → CommandState
command_state status =
    if status == "Acknowledged"
    then CommandState.completed
    else if status == "NotNow"
    then CommandState.not_now
    else CommandState.failed

abbrev pub has_command_uuid : String → MdmCommand → Bool
has_command_uuid uuid c = c.command_uuid == uuid

unfoldable pub record_result : ℕ → String → CommandResultMessage → MdmCommand → MdmCommand
unfolding command_state
record_result now uuid msg c = record c {
  status = command_state msg.status;
  result = some (reported msg.status msg.error_chain);
  executed_at = some now;
}

unfoldable pub wiped : Device → Device
wiped d = record d {
  status = DeviceStatus.wiped;
  compliance_status = ComplianceStatus.unknown;
  push_token = none;
  push_magic = none;
}

-- the body of the try block
unfoldable pub evaluate_policies_of : ℕ → String → Action Unit
evaluate_policies_of now udid = do
  found ← find_device udid
  if_given found (evaluate_device_all_policies now)

-- What an acknowledged command other than EraseDevice reports.
unfoldable pub apply_reports : ℕ → CommandResultMessage → Action Unit
apply_reports now msg = do
  attempt (evaluate_policies_of now msg.udid)
  if_given msg.raw.query_responses (apply_device_info now msg.udid)
  if_given msg.raw.installed_application_list (apply_installed_apps now msg.udid)
  if_given msg.raw.available_os_updates (apply_available_updates now msg.udid)
  if_given msg.raw.users (apply_user_list now msg.udid)

abbrev pub is_erase : Option MdmCommand → Bool
is_erase cmd = some_is (λ c. c.command_type == "EraseDevice") cmd

-- An acknowledged EraseDevice command wipes the device, and ends the handling of the result.
unfoldable pub acknowledged : ℕ → String → CommandResultMessage → Action Unit
unfolding one_or_none wiped
acknowledged now uuid msg = do
  found ← gets (λ s. select (has_command_uuid uuid) s.commands)
  cmd ← lift (one_or_none found)
  if is_erase cmd
      then on_devices (update_where (has_udid msg.udid) wiped)
      else apply_reports now msg

unfoldable pub process_command_result : ℕ → String → CommandResultMessage → Action Unit
unfolding record_result acknowledged
process_command_result now uuid msg = do
  on_commands (update_where (has_command_uuid uuid) (record_result now uuid msg))
  if msg.status == "Acknowledged" then acknowledged now uuid msg else pure tt

-- The answer: a command, or the empty plist.
pub data Reply : Type 0 where
  idle : Reply
  command : String → String → Payload → Reply

abbrev pub reply_of : Option MdmCommand → Reply
reply_of none = idle
reply_of (some c) = command c.command_type c.command_uuid c.payload

unfoldable pub touch : ℕ → Device → Device
touch now d = record d { last_checkin = some now }

-- A result is processed unless the device reports none, or is idle.
unfoldable pub process_if_any : ℕ → CommandResultMessage → Action Unit
process_if_any now msg =
    if present msg.command_uuid && not (msg.status == "Idle")
    then process_command_result now (get_or msg.command_uuid "") msg
    else pure tt

unfoldable pub connect_message : ℕ → CommandResultMessage → Action Reply
unfolding touch process_if_any
connect_message now msg = do
  on_devices (update_where (has_udid msg.udid) (touch now))
  process_if_any now msg
  next ← get_next_command msg.udid
  pure (reply_of next)

-- The body is empty, is no plist (`some none`), or decodes to a dict.
unfoldable pub connect : ℕ → Option (Option PlistDict) → Action Reply
unfolding parse_connect_message
connect now none = pure idle
connect now (some none) = pure idle
connect now (some (some data_)) = connect_message now (parse_connect_message data_)
