-- ===== src/Profiles/Push.antt =====
-- The handlers of app/api/routes/profiles.py that queue profiles for devices. `encode` stands for
-- `plistlib.dumps` and base64 on a profile's dictionary, `encode_stored` on a payload that an
-- administrator has stored, which may have values that a property list has not.
use mdm_saa_s.Common.{
  ℕ, String, Bool, ◌&&◌, none, some, List, [], ◌∷◌, ◌==◌, select, truthy, present, get_or,
  if◌then◌else◌,
}
use mdm_saa_s.Models.{Tenant, User, Device, Payload, is_enrolled_device}
use mdm_saa_s.Database.{
  Action, Result, http, pure, raise, lift, gets, require, ◌>>=◌, ◌>>◌, one_or_none, add_command,
}
use mdm_saa_s.Audit.{write_audit}
use mdm_saa_s.Apple.Commands.{make_install_profile_command, make_remove_profile_command}
use mdm_saa_s.Apple.Profiles.Values.{Entries}
use mdm_saa_s.Apple.Profiles.Builder.{usb_block_profile_identifier, icloud_block_profile_identifier}
use mdm_saa_s.Apple.Profiles.Restrictions.{
  build_usb_block_profile, build_icloud_block_profile, build_onedrive_kfm_profile,
  build_gatekeeper_profile,
}
use mdm_saa_s.Apple.Profiles.Entra.{PssoProfileOptions, build_psso_profile}
use mdm_saa_s.Devices.Handlers.{get_device}
use mdm_saa_s.Profiles.Versions.{get_profile}

abbrev pub is_enrolled_in : Tenant → Device → Bool
is_enrolled_in tenant d = d.tenant_id == tenant.id && is_enrolled_device d.status

-- A device of the tenant that is enrolled, by its identifier.
unfoldable pub get_enrolled : String → Tenant → Action Device
unfolding one_or_none
get_enrolled id tenant = do
  found ← gets (λ s. select (λ d. d.id == id && is_enrolled_in tenant d) s.devices)
  device ← lift (one_or_none found)
  elim device [ none ↦ raise (http 404) | some d ↦ pure d ]

-- The loop over the devices, with `command_uuids`.
unfoldable pub install_each : ℕ → String → String → List Device → Action (List String)
unfolding make_install_profile_command
install_each now tenant_id profile_b64 [] = pure []
install_each now tenant_id profile_b64 (d ∷ ds) = do
  cmd ← make_install_profile_command now d.id tenant_id profile_b64
  add_command cmd
  uuids ← install_each now tenant_id profile_b64 ds
  pure (cmd.command_uuid ∷ uuids)

module _ (encode : Entries → String) (now : ℕ) (tenant : Tenant) (user : User) where
  -- The common body of the routes for all enrolled devices, with `command_uuids`.
  unfoldable pub push_to_all : String → String → Action Entries → Action (List String)
  unfolding install_each write_audit
  push_to_all action resource build = do
    profile ← build
    devices ← gets (λ s. select (is_enrolled_in tenant) s.devices)
    uuids ← install_each now tenant.id (encode profile) devices
    write_audit now tenant.id action resource (some user.id) none
    pure uuids

  -- The common end of the routes for one device.
  unfoldable pub push_to_one : Device → String → String → Action Entries → Action String
  unfolding make_install_profile_command write_audit
  push_to_one device action resource build = do
    profile ← build
    cmd ← make_install_profile_command now device.id tenant.id (encode profile)
    add_command cmd
    write_audit now tenant.id action resource (some user.id) none
    pure cmd.command_uuid

  unfoldable pub push_psso_profile : PssoProfileOptions → Action (List String)
  unfolding push_to_all build_psso_profile
  push_psso_profile options =
      push_to_all "profile.psso_push" "profile" (build_psso_profile tenant options)

  unfoldable pub push_psso_profile_device : String → PssoProfileOptions → Action String
  unfolding get_enrolled push_to_one build_psso_profile
  push_psso_profile_device device_id options = do
    device ← get_enrolled device_id tenant
    push_to_one device "profile.psso_push" "profile" (build_psso_profile tenant options)

  unfoldable pub push_usb_block : Action (List String)
  unfolding push_to_all build_usb_block_profile
  push_usb_block = push_to_all "policy.usb_block_push" "policy" (build_usb_block_profile tenant)

  -- This one asks only that the device is the tenant's.
  unfoldable pub push_usb_block_device : String → Action String
  unfolding get_device push_to_one build_usb_block_profile
  push_usb_block_device device_id = do
    device ← get_device device_id tenant
    push_to_one device "policy.usb_block_push" "policy" (build_usb_block_profile tenant)

  unfoldable pub push_gatekeeper : Bool → Action (List String)
  unfolding push_to_all build_gatekeeper_profile
  push_gatekeeper allow_identified_developers =
      push_to_all "policy.gatekeeper_push" "policy"
        (build_gatekeeper_profile tenant allow_identified_developers)

  unfoldable pub push_icloud_block : Action (List String)
  unfolding push_to_all build_icloud_block_profile
  push_icloud_block =
      push_to_all "policy.icloud_block_push" "policy" (build_icloud_block_profile tenant)

  unfoldable pub push_icloud_block_device : String → Action String
  unfolding get_enrolled push_to_one build_icloud_block_profile
  push_icloud_block_device device_id = do
    device ← get_enrolled device_id tenant
    push_to_one device "policy.icloud_block_push" "policy" (build_icloud_block_profile tenant)

  -- `body.entra_tenant_id or tenant.entra_tenant_id or ""`
  unfoldable pub entra_tid : String → String
  entra_tid given =
      if truthy given
      then given
      else if present tenant.entra_tenant_id
      then get_or tenant.entra_tenant_id ""
      else ""

  unfoldable pub push_onedrive_kfm : String → Action (List String)
  unfolding entra_tid push_to_all build_onedrive_kfm_profile
  push_onedrive_kfm given = do
    require (truthy (entra_tid given)) (http 400)
    push_to_all "policy.onedrive_kfm_push" "policy"
        (build_onedrive_kfm_profile tenant (entra_tid given))

  unfoldable pub push_onedrive_kfm_device : String → String → Action String
  unfolding entra_tid get_enrolled push_to_one build_onedrive_kfm_profile
  push_onedrive_kfm_device device_id given = do
    device ← get_enrolled device_id tenant
    require (truthy (entra_tid given)) (http 400)
    push_to_one device "policy.onedrive_kfm_push" "policy"
        (build_onedrive_kfm_profile tenant (entra_tid given))

module _ (now : ℕ) (tenant : Tenant) (user : User) where
  -- The common body of the two removals.
  unfoldable pub remove_from_one : String → String → String → Action String
  unfolding get_device make_remove_profile_command write_audit
  remove_from_one device_id action identifier = do
    device ← get_device device_id tenant
    cmd ← make_remove_profile_command now device.id tenant.id identifier
    add_command cmd
    write_audit now tenant.id action "policy" (some user.id) none
    pure cmd.command_uuid

  unfoldable pub remove_icloud_block_device : String → Action String
  unfolding remove_from_one icloud_block_profile_identifier
  remove_icloud_block_device device_id =
      remove_from_one device_id "policy.icloud_block_remove"
        (icloud_block_profile_identifier tenant.id)

  unfoldable pub remove_usb_block_device : String → Action String
  unfolding remove_from_one usb_block_profile_identifier
  remove_usb_block_device device_id =
      remove_from_one device_id "policy.usb_block_remove" (usb_block_profile_identifier tenant.id)

unfoldable pub push_profile : (Payload → Result String) → ℕ → Tenant → String → Action (List String)
unfolding get_profile install_each
push_profile encode_stored now tenant profile_id = do
  profile ← get_profile profile_id tenant
  profile_b64 ← lift (encode_stored profile.payload)
  devices ← gets (λ s. select (is_enrolled_in tenant) s.devices)
  install_each now tenant.id profile_b64 devices
