-- ===== src/Devices/Handlers.antt =====
-- The handlers of app/api/routes/devices.py that change state, and the lookup that all of them share.
-- The push that wakes a device is sent after the response and is left out.
use Prim.Native.String
use mdm_saa_s.Common.{
  ℕ, String, Bool, ◌&&◌, Option, none, some, List, [], ◌∷◌, ◌==◌, any, select, update_where,
  present, get_or, if◌then◌else◌,
}
use mdm_saa_s.Models.{Tenant, User, Device, MdmCommand}
use mdm_saa_s.Database.{
  Db, Action, http, pure, raise, lift, gets, new_uuid, ◌>>=◌, ◌>>◌, one_or_none, add_command,
  on_devices, has_id,
}
use mdm_saa_s.Audit.{write_audit}
use mdm_saa_s.Apple.Commands.{
  make_device_lock_command, make_erase_device_command, make_restart_command,
  make_device_information_command, make_user_list_command,
}
use mdm_saa_s.Windows.Commands.{
  make_windows_lock, make_windows_wipe, make_windows_restart, make_windows_query,
}
use mdm_saa_s.Groups.Handlers.{BulkAction, lock, erase, restart, query, parse_action}

abbrev pub is_device_of : String → Tenant → Device → Bool
is_device_of id tenant d = d.id == id && d.tenant_id == tenant.id

unfoldable pub get_device : String → Tenant → Action Device
unfolding one_or_none
get_device id tenant = do
  found ← gets (λ s. select (is_device_of id tenant) s.devices)
  device ← lift (one_or_none found)
  elim device [ none ↦ raise (http 404) | some d ↦ pure d ]

-- `cmd.command_uuid` in the response: a Windows command's is drawn when the row is written, which is later.
unfoldable pub response_uuid : Device → MdmCommand → Option String
response_uuid device cmd = if device.platform == "windows" then none else some cmd.command_uuid

-- The choice of the builder, by the action and the platform.
unfoldable pub device_command :
    ℕ → BulkAction → Option String → Option String → Device → String → Action MdmCommand
unfolding make_device_lock_command make_erase_device_command make_restart_command
    make_device_information_command make_windows_lock make_windows_wipe make_windows_restart
    make_windows_query
device_command now lock pin message d t =
    if d.platform == "windows"
    then make_windows_lock now d.id t
    else make_device_lock_command now d.id t pin message
device_command now erase pin message d t =
    if d.platform == "windows"
    then make_windows_wipe now d.id t
    else make_erase_device_command now d.id t (if present pin then get_or pin "" else "") []
device_command now restart pin message d t =
    if d.platform == "windows"
    then make_windows_restart now d.id t
    else make_restart_command now d.id t
device_command now query pin message d t =
    if d.platform == "windows"
    then make_windows_query now d.id t
    else make_device_information_command now d.id t []

-- The loop of `bulk_action`, with `command_uuids`.
unfoldable pub queue_each :
    (Device → Action MdmCommand) → List Device → Action (List (Option String))
unfolding response_uuid
queue_each make [] = pure []
queue_each make (d ∷ ds) = do
  cmd ← make d
  add_command cmd
  uuids ← queue_each make ds
  pure (response_uuid d cmd ∷ uuids)

module _ (now : ℕ) (tenant : Tenant) (user : User) where
  -- The devices that a bulk action is for.
  abbrev pub targets : List String → Db → List Device
  targets ids s = select (λ d. any (λ i. d.id == i) ids && d.tenant_id == tenant.id) s.devices

  unfoldable pub queue_found :
      BulkAction
      → String
      → Option String
      → Option String
      → List Device
      → Action (List (Option String))
  unfolding queue_each device_command write_audit
  queue_found action name pin message [] = raise (http 404)
  queue_found action name pin message (d ∷ ds) = do
    uuids ← queue_each (λ x. device_command now action pin message x tenant.id) (d ∷ ds)
    write_audit now tenant.id (String.◌++◌ "device.bulk_" name) "device" (some user.id) none
    pure uuids

  unfoldable pub queue_targets :
      Option BulkAction
      → String
      → List String
      → Option String
      → Option String
      → Action (List (Option String))
  unfolding queue_found
  queue_targets none name ids pin message = raise (http 400)
  queue_targets (some action) name [] pin message = raise (http 400)
  queue_targets (some action) name (i ∷ is) pin message = do
    found ← gets (targets (i ∷ is))
    queue_found action name pin message found

  unfoldable pub bulk_action :
      String → List String → Option String → Option String → Action (List (Option String))
  unfolding queue_targets
  bulk_action name device_ids pin message =
      queue_targets (parse_action name) name device_ids pin message

  -- `execute` stands for the database on DELETE FROM devices WHERE id = … AND tenant_id = …, which other tables
  -- refer to by foreign keys.
  unfoldable pub delete_device : (String → Tenant → Action Unit) → String → Action Unit
  unfolding get_device write_audit
  delete_device execute device_id = do
    get_device device_id tenant
    write_audit now tenant.id "device.delete" "device" (some user.id) (some device_id)
    execute device_id tenant

  -- The common body of the routes on one device, with the response's `command_uuid`.
  unfoldable pub queue_one : String → String → (Device → Action MdmCommand) → Action (Option String)
  unfolding get_device response_uuid write_audit
  queue_one device_id name make = do
    device ← get_device device_id tenant
    cmd ← make device
    add_command cmd
    write_audit now tenant.id name "device" (some user.id) (some device_id)
    pure (response_uuid device cmd)

  unfoldable pub lock_device : String → Option String → Option String → Action (Option String)
  unfolding queue_one device_command
  lock_device device_id pin message =
      queue_one device_id "device.lock" (λ d. device_command now lock pin message d tenant.id)

  unfoldable pub erase_device : String → String → Action (Option String)
  unfolding queue_one device_command
  erase_device device_id pin =
      queue_one device_id "device.erase" (λ d. device_command now erase (some pin) none d tenant.id)

  unfoldable pub restart_device : String → Action (Option String)
  unfolding queue_one device_command
  restart_device device_id =
      queue_one device_id "device.restart" (λ d. device_command now restart none none d tenant.id)

  unfoldable pub query_device : String → Action (Option String)
  unfolding queue_one device_command
  query_device device_id =
      queue_one device_id "device.query" (λ d. device_command now query none none d tenant.id)

  -- This one is built the same way for every platform.
  unfoldable pub refresh_device_users : String → Action String
  unfolding get_device make_user_list_command write_audit
  refresh_device_users device_id = do
    device ← get_device device_id tenant
    cmd ← make_user_list_command now device.id tenant.id
    add_command cmd
    write_audit now tenant.id "device.user_list" "device" (some user.id) (some device_id)
    pure cmd.command_uuid

-- The token that the agent of a device authenticates with, generated when it is first asked for.
unfoldable pub get_agent_token : Tenant → String → Action (Option String)
unfolding get_device
get_agent_token tenant device_id = do
  device ← get_device device_id tenant
  if present device.agent_token then pure device.agent_token else do
    token ← new_uuid
    on_devices (update_where (has_id device.id) (λ d. record d { agent_token = some token }))
    pure (some token)
