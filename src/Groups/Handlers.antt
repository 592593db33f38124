-- ===== src/Groups/Handlers.antt =====
-- The handlers of app/api/routes/groups.py that change state.
use Prim.Native.String
use mdm_saa_s.Common.{
  ℕ, suc, String, Bool, true, false, not, ◌&&◌, Option, none, some, List, [], ◌∷◌, ◌++◌, ◌==◌, any,
  select, delete_where, if◌then◌else◌,
}
use mdm_saa_s.Models.{Tenant, User, Device, DeviceGroup, DeviceGroupMember, MdmCommand}
use mdm_saa_s.Database.{
  Db, Action, http, pure, raise, lift, gets, modify, new_uuid, ◌>>=◌, ◌>>◌, one_or_none,
  add_command,
}
use mdm_saa_s.Audit.{write_audit}
use mdm_saa_s.Apple.Commands.{
  make_device_lock_command, make_erase_device_command, make_restart_command,
  make_device_information_command,
}
use mdm_saa_s.Windows.Commands.{
  make_windows_lock, make_windows_wipe, make_windows_restart, make_windows_query,
}

abbrev pub on_members : (List DeviceGroupMember → List DeviceGroupMember) → Action Unit
on_members f = modify (λ s. record s { members = f s.members })

abbrev pub on_groups : (List DeviceGroup → List DeviceGroup) → Action Unit
on_groups f = modify (λ s. record s { groups = f s.groups })

unfoldable pub get_group : String → Tenant → Action DeviceGroup
unfolding one_or_none
get_group id tenant = do
  found ← gets (λ s. select (λ g. g.id == id && g.tenant_id == tenant.id) s.groups)
  group ← lift (one_or_none found)
  elim group [ none ↦ raise (http 404) | some g ↦ pure g ]

-- {d.id for d in devices} and {row[0] for row in memberships}, as tests
abbrev pub is_valid_device : String → Db → String → Bool
is_valid_device tenant_id s id = any (λ d. d.id == id && d.tenant_id == tenant_id) s.devices

abbrev pub is_member : String → String → DeviceGroupMember → Bool
is_member group_id device_id m = m.group_id == group_id && m.device_id == device_id

abbrev pub already_in : String → Db → String → Bool
already_in group_id s id = any (is_member group_id id) s.members

unfoldable pub add_member : ℕ → String → String → String → Action Unit
add_member now group_id tenant_id device_id = do
  id ← new_uuid
  on_members (λ ms.
      ms
      ++ (record {
        id = id;
        group_id = group_id;
        device_id = device_id;
        tenant_id = tenant_id;
        added_at = now;
      })
        ∷ [])

-- The loop over `body.device_ids`; both sets are those of the start, `s0`. The result is `len(added)`.
unfoldable pub add_members : ℕ → String → String → Db → List String → Action ℕ
unfolding add_member
add_members now group_id tenant_id s0 [] = pure 0
add_members now group_id tenant_id s0 (d ∷ ds) =
    elim (is_valid_device tenant_id s0 d && not (already_in group_id s0 d)) [
      | true ↦ do
        add_member now group_id tenant_id d
        n ← add_members now group_id tenant_id s0 ds
        pure (suc n)
      | false ↦ add_members now group_id tenant_id s0 ds
    ]

-- lock | erase | restart | query
pub data BulkAction : Type 0 where
  lock erase restart query : BulkAction

abbrev pub parse_action : String → Option BulkAction
parse_action a =
    if a == "lock"
    then some lock
    else if a == "erase"
    then some erase
    else if a == "restart"
    then some restart
    else if a == "query"
    then some query
    else none

unfoldable pub apple_command : ℕ → BulkAction → String → String → Action MdmCommand
unfolding make_device_lock_command make_erase_device_command make_restart_command
    make_device_information_command
apple_command now lock d t = make_device_lock_command now d t none none
apple_command now erase d t = make_erase_device_command now d t "" []
apple_command now restart d t = make_restart_command now d t
apple_command now query d t = make_device_information_command now d t []

unfoldable pub windows_command : ℕ → BulkAction → String → String → Action MdmCommand
unfolding make_windows_lock make_windows_wipe make_windows_restart make_windows_query
windows_command now lock d t = make_windows_lock now d t
windows_command now erase d t = make_windows_wipe now d t
windows_command now restart d t = make_windows_restart now d t
windows_command now query d t = make_windows_query now d t

-- The body of the loop, with the entry of `command_uuids`: that of a Windows command is not drawn before
-- the row is written, so the entry is None.
unfoldable pub queue_action : ℕ → BulkAction → String → Device → Action (Option String)
unfolding apple_command windows_command
queue_action now action tenant_id device =
    if device.platform == "windows"
    then (do cmd ← windows_command now action device.id tenant_id; add_command cmd; pure none)
    else do
      cmd ← apple_command now action device.id tenant_id
      add_command cmd
      pure (some cmd.command_uuid)

unfoldable pub queue_all : ℕ → BulkAction → String → List Device → Action (List (Option String))
unfolding queue_action
queue_all now action tenant_id [] = pure []
queue_all now action tenant_id (d ∷ ds) = do
  uuid ← queue_action now action tenant_id d
  uuids ← queue_all now action tenant_id ds
  pure (uuid ∷ uuids)

-- The join: a device once for each of its memberships in the group.
abbrev memberships : String → String → String → DeviceGroupMember → Bool
memberships group_id tenant_id device_id m =
    is_member group_id device_id m && m.tenant_id == tenant_id

abbrev pub copies : {A B : Type 0} → List B → A → List A
copies [] a = []
copies (b ∷ bs) a = a ∷ copies bs a

unfoldable pub group_devices : String → String → List DeviceGroupMember → List Device → List Device
group_devices group_id tenant_id ms [] = []
group_devices group_id tenant_id ms (d ∷ ds) =
    copies (select (memberships group_id tenant_id d.id) ms) d
    ++ group_devices group_id tenant_id ms ds

module _ (now : ℕ) (tenant : Tenant) (user : User) (group_id : String) where
  abbrev audit_group : String → Action Unit
  audit_group action =
      write_audit now tenant.id action "device_group" (some user.id) (some group_id)

  unfoldable pub add_devices_to_group : List String → Action ℕ
  unfolding get_group add_members write_audit
  add_devices_to_group device_ids = do
    get_group group_id tenant
    s0 ← gets (λ s. s)
    added ← add_members now group_id tenant.id s0 device_ids
    audit_group "group.add_devices"
    pure added

  unfoldable pub remove_device_from_group : String → Action Unit
  unfolding get_group
  remove_device_from_group device_id = do
    get_group group_id tenant
    on_members (delete_where (λ m. is_member group_id device_id m && m.tenant_id == tenant.id))

  -- The memberships go with the group: their foreign key has ON DELETE CASCADE.
  unfoldable pub delete_group : Action Unit
  unfolding get_group write_audit
  delete_group = do
    get_group group_id tenant
    audit_group "group.delete"
    on_groups (delete_where (λ g. g.id == group_id && g.tenant_id == tenant.id))
    on_members (delete_where (λ m. m.group_id == group_id))

  unfoldable pub bulk_action_group : String → Action (List (Option String))
  unfolding get_group queue_all group_devices write_audit
  bulk_action_group name = elim (parse_action name) [
    | none ↦ raise (http 400)
    | some action ↦ do
      get_group group_id tenant
      devices ← gets (λ s. group_devices group_id tenant.id s.members s.devices)
      elim devices [
        | [] ↦ pure []
        | d ∷ ds ↦ do
          uuids ← queue_all now action tenant.id (d ∷ ds)
          audit_group (String.◌++◌ "group.bulk_" name)
          pure uuids
      ]
  ]
