-- ===== src/Devices/Patches.antt =====
-- app/api/routes/patch.py: what a device has reported of its updates, and the commands that scan for
-- and install them. The two routes that only list rows, and the push after a response, are left out.
-- `print` is the text of an entry with a product key and an install action.
use mdm_saa_s.Common.{
  ℕ, String, Bool, not, ◌&&◌, Option, List, [], ◌∷◌, ◌==◌, any, select, count, map,
}
use mdm_saa_s.Models.{Tenant, ComplianceStatus, DeviceUpdate}
use mdm_saa_s.Database.{Action, http, pure, gets, require, ◌>>=◌, ◌>>◌, add_command}
use mdm_saa_s.Apple.Commands.{
  make_installed_app_list_command, make_available_os_updates_command,
  make_schedule_os_update_scan_command, make_schedule_os_update_command,
}
use mdm_saa_s.Devices.Handlers.{get_device}

pub record ComplianceResponse : Type 0 where
  pub compliance_status : ComplianceStatus
  pub compliance_checked_at : Option ℕ
  pub is_encrypted : Option Bool
  pub is_supervised : Option Bool
  pub critical_update_count : ℕ
  pub total_update_count : ℕ
  pub total_app_count : ℕ

module _ (tenant : Tenant) where
  unfoldable pub get_compliance : String → Action ComplianceResponse
  unfolding get_device
  get_compliance device_id = do
    device ← get_device device_id tenant
    critical ← gets (λ s. count (λ u. u.device_id == device_id && u.is_critical) s.device_updates)
    updates ← gets (λ s. count (λ u. u.device_id == device_id) s.device_updates)
    apps ← gets (λ s. count (λ a. a.device_id == device_id) s.installed_apps)
    pure (record {
      compliance_status = device.compliance_status;
      compliance_checked_at = device.compliance_checked_at;
      is_encrypted = device.is_encrypted;
      is_supervised = device.is_supervised;
      critical_update_count = critical;
      total_update_count = updates;
      total_app_count = apps;
    })

  unfoldable pub scan_device : ℕ → String → Bool → Action (List String)
  unfolding get_device make_installed_app_list_command make_available_os_updates_command
      make_schedule_os_update_scan_command
  scan_device now device_id force = do
    device ← get_device device_id tenant
    scan ← make_schedule_os_update_scan_command now device.id tenant.id force
    updates ← make_available_os_updates_command now device.id tenant.id
    apps ← make_installed_app_list_command now device.id tenant.id
    add_command scan
    add_command updates
    add_command apps
    pure (scan.command_uuid ∷ updates.command_uuid ∷ apps.command_uuid ∷ [])

  -- A product key that is no update of the device.
  unfoldable pub is_unknown_key : List DeviceUpdate → String → Bool
  is_unknown_key updates key = not (any (λ u. u.product_key == key) updates)

  unfoldable pub install_updates :
      (String → String → String) → ℕ → String → List String → String → Action String
  unfolding get_device is_unknown_key make_schedule_os_update_command
  install_updates print now device_id product_keys install_action = do
    device ← get_device device_id tenant
    found ← gets (λ s. select (λ u. u.device_id == device_id) s.device_updates)
    require (not (any (is_unknown_key found) product_keys)) (http 422)
    cmd ←
        make_schedule_os_update_command now device.id tenant.id
          (map (λ key. print key install_action) product_keys)
    add_command cmd
    pure cmd.command_uuid
