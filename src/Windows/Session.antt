-- ===== src/Windows/Session.antt =====
-- app/mdm/windows/omadm.py: one check-in of a Windows device. `decode` is ElementTree's reader of a body,
-- `strip` and `str` are Python's, and `next_msg_id` is `str(int(x) + 1)`, none where `int` raises.
use Prim.Native.String.{find, slice, len}
use mdm_saa_s.Common.{
  ℕ, zero, suc, ◌+◌, ◌-◌, String, Bool, not, ◌&&◌, ◌||◌, Option, none, some, List, [], ◌∷◌, ◌++◌,
  ◌==◌, leb, truthy, present, get_or, or_else, is_some, any, head?, select, take, update_where,
  least, sort_by, if◌then◌else◌,
}
use mdm_saa_s.Models.{Device, MdmCommand, CommandState, syncml_status, is_queued, is_delivered}
use mdm_saa_s.Database.{
  Db, Action, value_error, pure, raise, gets, if_given, ◌>>=◌, ◌>>◌, on_devices, on_commands,
  add_command, has_id,
}
use mdm_saa_s.Windows.Xml.{Element}
use mdm_saa_s.Windows.SyncMl.{SyncItem, SyncCmd, SyncMsg, Reply, status, parse, build}
use mdm_saa_s.Windows.Commands.{make_windows_query, build_syncml_cmds}

-- `sub in s`
abbrev pub contains : String → String → Bool
contains sub s = leb (find s sub) (len s)

-- `s.split(sep)[-1]`, in at most as many rounds as `s` has bytes
abbrev pub last_part : ℕ → String → String → String
last_part zero sep s = s
last_part (suc n) sep s =
    let rest = last_part n sep (slice s (find s sep + len sep) (len s)) in
    if contains sep s then rest else s

-- `s.split(sep)[0]`
abbrev pub first_part : String → String → String
first_part sep s = if contains sep s then slice s 0 (find s sep) else s

abbrev pub ends_with : String → String → Bool
ends_with t s = leb (len t) (len s) && (slice s (len s - len t) (len s) == t)

-- `s.rstrip("/")`, in at most as many rounds as `s` has bytes
abbrev pub drop_slashes : ℕ → String → String
drop_slashes zero s = s
drop_slashes (suc n) s =
    let rest = drop_slashes n (slice s 0 (len s - 1)) in if ends_with "/" s then rest else s

-- The first item whose address names a command.
unfoldable pub command_uuid_of : List SyncItem → Option String
command_uuid_of [] = none
command_uuid_of (item ∷ items) =
    let later = command_uuid_of items in
    let uri = get_or (or_else item.target item.source) "" in
    if contains "?id=" uri then some (last_part (len uri) "?id=" uri) else later

abbrev pub status_of : Option String → CommandState
status_of code = if get_or code "" == "200" then CommandState.completed else CommandState.failed

-- The UPDATE of a command that has been answered.
unfoldable pub answered : ℕ → Option String → MdmCommand → MdmCommand
answered now code c = record c {
  status = status_of code;
  executed_at = some now;
  result = some (syncml_status code);
}

abbrev pub is_delivered_to : Device → MdmCommand → Bool
is_delivered_to device c = c.device_id == device.id && is_delivered c.status

unfoldable pub process_status : ℕ → SyncCmd → Device → Action Unit
unfolding command_uuid_of answered least
process_status now cmd device =
    if present (command_uuid_of cmd.items)
    then on_commands (
        update_where (λ c. c.command_uuid == get_or (command_uuid_of cmd.items) "")
          (answered now cmd.data_))
    else do
      oldest ← gets (λ s. least (λ c. c.queued_at) (select (is_delivered_to device) s.commands))
      if_given oldest (λ o. on_commands (update_where (λ c. c.id == o.id) (answered now cmd.data_)))

-- `updates`
pub record DeviceInfo : Type 0 where
  pub os_version : Option String
  pub model : Option String
  pub hostname : Option String
  pub serial_number : Option String

abbrev no_info : DeviceInfo
no_info = record { os_version = none; model = none; hostname = none; serial_number = none }

unfoldable pub note_item : String → String → DeviceInfo → DeviceInfo
note_item node val u =
    if ends_with "SwV" node
    then record u { os_version = some val }
    else if ends_with "Mod" node
    then record u { model = some val }
    else if ends_with "Man" node && not (is_some u.model)
    then record u { model = some val }
    else if ends_with "DevTyp" node && not (is_some u.model)
    then record u { model = some val }
    else if ends_with "DNSComputerName" node
    then record u { hostname = some val }
    else if ends_with "SMBIOSSerialNumber" node
    then record u { serial_number = some val }
    else u

abbrev given : Option String → Option String → Option String
given none old = old
given (some x) old = some x

abbrev pub informed : DeviceInfo → Device → Device
informed u d = record d {
  os_version = given u.os_version d.os_version;
  model = given u.model d.model;
  hostname = given u.hostname d.hostname;
  serial_number = given u.serial_number d.serial_number;
}

abbrev pub has_info : DeviceInfo → Bool
has_info u =
    is_some u.os_version || is_some u.model || is_some u.hostname || is_some u.serial_number

-- `limit(1)` without an order: the first row.
unfoldable pub resolve_device : String → Db → Option Device
resolve_device uri s =
    if truthy uri
    then head? (select (λ d. d.udid == uri && d.platform == "windows") s.devices)
    else none

unfoldable pub queued_commands : String → Db → List MdmCommand
unfolding sort_by
queued_commands device_id s = take 5 (
    sort_by (λ c. c.queued_at)
      (select (λ c. c.device_id == device_id && is_queued c.status) s.commands))

-- _status_ok, without references where they are not given
abbrev pub status_ok : String → String → String → String → String → Reply
status_ok msg_ref cmd_ref ref_cmd target_ref source_ref =
    status msg_ref cmd_ref ref_cmd target_ref source_ref "200"

abbrev pub mark_delivered : MdmCommand → MdmCommand
mark_delivered c = record c { status = CommandState.delivered }

unfoldable pub deliver_all : List MdmCommand → Action (List Reply)
unfolding build_syncml_cmds
deliver_all [] = pure []
deliver_all (c ∷ cs) = do
  on_commands (update_where (λ x. x.id == c.id) mark_delivered)
  replies ← deliver_all cs
  pure (build_syncml_cmds c ++ replies)

-- Auto-queue of a query while nothing is known of the device.
unfoldable pub auto_query : ℕ → Device → Action Unit
unfolding make_windows_query
auto_query now device =
    if not (present device.os_version) && not (present device.hostname)
    then (do
      asked ←
          gets
            (λ s. any (λ c. c.device_id == device.id && c.command_type == "DeviceQuery") s.commands)
      if asked
          then pure tt
          else (make_windows_query now device.id device.tenant_id >>= add_command))
    else pure tt

-- The session keeps the object of the device as the UPDATE statements have made it.
abbrev pub reload : Option Device → Db → Option Device
reload none s = none
reload (some d) s = head? (select (has_id d.id) s.devices)

module _ (strip : String → String) where
  unfoldable pub collect_info : List SyncItem → DeviceInfo → DeviceInfo
  unfolding note_item
  collect_info [] u = u
  collect_info (item ∷ items) u =
      let uri = first_part "?" (get_or (or_else item.source item.target) "") in
      let val = strip (get_or item.data_ "") in
      collect_info items (if truthy val then note_item (drop_slashes (len uri) uri) val u else u)

  unfoldable pub apply_device_info : SyncCmd → Device → Action Unit
  unfolding collect_info
  apply_device_info cmd device =
      let u = collect_info cmd.items no_info in
      if has_info u then on_devices (update_where (has_id device.id) (informed u)) else pure tt

  -- One command of the message: what it changes, and the reply.
  unfoldable pub process_command : ℕ → String → Option Device → SyncCmd → Action (List Reply)
  unfolding process_status apply_device_info
  process_command now msg_id device cmd =
      if cmd.cmd == "Alert"
      then pure (status_ok msg_id cmd.cmd_id "Alert" "" "" ∷ [])
      else if cmd.cmd == "Status"
      then if_given device (process_status now cmd) >> pure []
      else if cmd.cmd == "Results"
      then if_given device (apply_device_info cmd) >> pure []
      else pure []

  unfoldable pub process_commands : ℕ → String → Option Device → List SyncCmd → Action (List Reply)
  unfolding process_command
  process_commands now msg_id device [] = pure []
  process_commands now msg_id device (cmd ∷ cmds) = do
    replies ← process_command now msg_id device cmd
    rest ← process_commands now msg_id device cmds
    pure (replies ++ rest)

  abbrev touch_device : ℕ → Device → Action Unit
  touch_device now d =
      on_devices (update_where (has_id d.id) (λ x. record x { last_checkin = some now }))

  unfoldable pub deliver_to : Option Device → Action (List Reply)
  unfolding deliver_all queued_commands
  deliver_to none = pure []
  deliver_to (some d) = gets (queued_commands d.id) >>= deliver_all

  unfoldable pub answer :
      (ℕ → String) → (String → Option String) → ℕ → String → SyncMsg → Action Element
  unfolding resolve_device process_commands auto_query deliver_to build
  answer str next_msg_id now server_uri msg = do
    device ← gets (resolve_device msg.header.source_uri)
    if_given device (touch_device now)
    replies ← process_commands now msg.header.msg_id device msg.commands
    current ← gets (reload device)
    if_given current (auto_query now)
    commands ← deliver_to device
    elim (next_msg_id msg.header.msg_id) [
      | none ↦ raise value_error
      | some id ↦ pure (
          build str msg.header.session_id id server_uri msg.header.source_uri (
            status_ok msg.header.msg_id "0" "SyncHdr" msg.header.target_uri msg.header.source_uri
            ∷ (replies ++ commands)))
    ]

  -- The body as a tree, `none` where the reader raises; the response's `none` is the status 400.
  unfoldable pub omadm_sync :
      (ℕ → String)
      → (String → Option String)
      → ℕ
      → String
      → Option Element
      → Action (Option Element)
  unfolding parse answer
  omadm_sync str next_msg_id now server_uri none = pure none
  omadm_sync str next_msg_id now server_uri (some root) = elim (parse strip root) [
    | none ↦ pure none
    | some msg ↦ answer str next_msg_id now server_uri msg >>= λ e. pure (some e)
  ]
