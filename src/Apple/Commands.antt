-- ===== src/Apple/Commands.antt =====
-- app/mdm/apple/commands.py: the builders of queued commands. Each draws two identifiers, the row's and
-- the command's. `queued_at` is the column's default, the time of the statement.
use mdm_saa_s.Common.{
  ℕ, String, Bool, Option, none, List, [], ◌∷◌, ◌++◌, present, get_or, if◌then◌else◌,
}
use mdm_saa_s.Models.{MdmCommand, Payload, CommandState}
use mdm_saa_s.Database.{Action, pure, ◌>>=◌, new_uuid}

unfoldable pub make_command : ℕ → String → String → String → Payload → Action MdmCommand
make_command now device_id tenant_id command_type payload = do
  id ← new_uuid
  command_uuid ← new_uuid
  pure (record {
    id = id;
    device_id = device_id;
    tenant_id = tenant_id;
    command_uuid = command_uuid;
    command_type = command_type;
    status = CommandState.queued;
    payload = payload;
    result = none;
    queued_at = now;
    executed_at = none;
  })

module _ (now : ℕ) (device_id tenant_id : String) where
  unfoldable pub make_remove_profile_command : String → Action MdmCommand
  unfolding make_command
  make_remove_profile_command profile_identifier =
      make_command now device_id tenant_id "RemoveProfile"
        (("Identifier", profile_identifier ∷ []) ∷ [])

  -- `profile_b64` is the base64 text of the profile.
  unfoldable pub make_install_profile_command : String → Action MdmCommand
  unfolding make_command
  make_install_profile_command profile_b64 =
      make_command now device_id tenant_id "InstallProfile" (("Payload", profile_b64 ∷ []) ∷ [])

  abbrev entry : String → Option String → Payload
  entry key value = if present value then (key, get_or value "" ∷ []) ∷ [] else []

  unfoldable pub make_device_lock_command : Option String → Option String → Action MdmCommand
  unfolding make_command
  make_device_lock_command pin message =
      make_command now device_id tenant_id "DeviceLock" (entry "PIN" pin ++ entry "Message" message)

  unfoldable pub make_erase_device_command : String → List String → Action MdmCommand
  unfolding make_command
  make_erase_device_command pin [] =
      make_command now device_id tenant_id "EraseDevice" (("PIN", pin ∷ []) ∷ [])
  make_erase_device_command pin (c ∷ config) =
      make_command now device_id tenant_id "EraseDevice"
        (("PIN", pin ∷ []) ∷ ("ReturnToService", c ∷ config) ∷ [])

  abbrev default_queries : List String
  default_queries =
      "UDID" ∷ "SerialNumber" ∷ "OSVersion" ∷ "BuildVersion" ∷ "ModelName" ∷ "Model" ∷ "DeviceName"
      ∷ "WiFiMAC" ∷ "BluetoothMAC" ∷ "AvailableDeviceCapacity" ∷ "DeviceCapacity" ∷ "BatteryLevel"
      ∷ "IsActivationLockEnabled" ∷ "IsSupervised" ∷ "IsEncrypted" ∷ []

  unfoldable pub make_device_information_command : List String → Action MdmCommand
  unfolding make_command
  make_device_information_command [] =
      make_command now device_id tenant_id "DeviceInformation" (("Queries", default_queries) ∷ [])
  make_device_information_command (q ∷ queries) =
      make_command now device_id tenant_id "DeviceInformation" (("Queries", q ∷ queries) ∷ [])

  unfoldable pub make_restart_command : Action MdmCommand
  unfolding make_command
  make_restart_command = make_command now device_id tenant_id "RestartDevice" []

  unfoldable pub make_installed_app_list_command : Action MdmCommand
  unfolding make_command
  make_installed_app_list_command =
      make_command now device_id tenant_id "InstalledApplicationList" []

  unfoldable pub make_available_os_updates_command : Action MdmCommand
  unfolding make_command
  make_available_os_updates_command = make_command now device_id tenant_id "AvailableOSUpdates" []

  unfoldable pub make_schedule_os_update_scan_command : Bool → Action MdmCommand
  unfolding make_command
  make_schedule_os_update_scan_command force =
      make_command now device_id tenant_id "ScheduleOSUpdateScan"
        (("Force", (if force then "true" else "false") ∷ []) ∷ [])

  unfoldable pub make_user_list_command : Action MdmCommand
  unfolding make_command
  make_user_list_command = make_command now device_id tenant_id "UserList" []

  unfoldable pub make_schedule_os_update_command : List String → Action MdmCommand
  unfolding make_command
  make_schedule_os_update_command updates =
      make_command now device_id tenant_id "ScheduleOSUpdate" (("Updates", updates) ∷ [])
