-- ===== src/Windows/Commands.antt =====
-- app/mdm/windows/commands.py: the builders of commands for Windows devices. The identifiers are the
-- columns' defaults, which the session draws when it writes the row. In `payload` the nested object
-- `params` is flattened into its entries.
use Prim.Native.String
use mdm_saa_s.Common.{
  ℕ, String, Option, none, some, List, [], ◌∷◌, ◌==◌, map, get_or, if◌then◌else◌,
}
use mdm_saa_s.Models.{MdmCommand, Payload}
use mdm_saa_s.Database.{Action}
use mdm_saa_s.Apple.Commands.{make_command}
use mdm_saa_s.Windows.SyncMl.{Reply, exec, get}

module _ (now : ℕ) (device_id tenant_id : String) where
  unfoldable pub make_windows_lock : Action MdmCommand
  unfolding make_command
  make_windows_lock =
      make_command now device_id tenant_id "RemoteLock" (
        ("command_type", "RemoteLock" ∷ []) ∷ ("target", "./Vendor/MSFT/RemoteLock/Lock" ∷ []) ∷ [])

  unfoldable pub make_windows_wipe : Action MdmCommand
  unfolding make_command
  make_windows_wipe = make_command now device_id tenant_id "RemoteWipe" (
      ("command_type", "RemoteWipe" ∷ [])
      ∷ ("target", "./Device/Vendor/MSFT/RemoteWipe/doWipe" ∷ [])
      ∷ [])

  unfoldable pub make_windows_restart : Action MdmCommand
  unfolding make_command
  make_windows_restart = make_command now device_id tenant_id "Reboot" (
      ("command_type", "Reboot" ∷ [])
      ∷ ("target", "./Device/Vendor/MSFT/Reboot/RebootNow" ∷ [])
      ∷ [])

  abbrev query_nodes : List String
  query_nodes =
      "./DevInfo/DevId" ∷ "./DevInfo/Man" ∷ "./DevInfo/Mod" ∷ "./DevDetail/SwV" ∷ "./DevDetail/HwV"
      ∷ "./DevDetail/DevTyp" ∷ "./DevDetail/Ext/Microsoft/DNSComputerName"
      ∷ "./DevDetail/Ext/Microsoft/SMBIOSSerialNumber" ∷ []

  unfoldable pub make_windows_query : Action MdmCommand
  unfolding make_command
  make_windows_query =
      make_command now device_id tenant_id "DeviceQuery"
        (("command_type", "DeviceQuery" ∷ []) ∷ ("nodes", query_nodes) ∷ [])

-- `params.get(key)`, and its text
abbrev pub param : String → Payload → Option (List String)
param key [] = none
param key ((k, v) ∷ es) = if k == key then some v else param key es

abbrev first_text : Option (List String) → Option String
first_text none = none
first_text (some []) = none
first_text (some (x ∷ xs)) = some x

-- A target with the command's identifier.
abbrev pub with_id : String → MdmCommand → String
with_id target cmd = String.◌++◌ target (String.◌++◌ "?id=" cmd.command_uuid)

-- Every verb of `_CMD_VERB` but that of DeviceQuery is Exec, which is also the default.
unfoldable pub build_syncml_cmds : MdmCommand → List Reply
build_syncml_cmds cmd =
    let kind = get_or (first_text (param "command_type" cmd.payload)) cmd.command_type in
    if kind == "DeviceQuery"
    then map (λ node. get (with_id node cmd)) (get_or (param "nodes" cmd.payload) [])
    else exec (with_id (get_or (first_text (param "target" cmd.payload)) "") cmd)
        (first_text (param "data" cmd.payload))
      ∷ []
