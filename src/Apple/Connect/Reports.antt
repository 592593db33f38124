-- ===== src/Apple/Connect/Reports.antt =====
-- _apply_device_info, _apply_installed_apps, _apply_available_updates and _apply_user_list: the
-- snapshots that a device reports replace those that are stored.
use mdm_saa_s.Common.{
  ℕ, String, Bool, not, ◌&&◌, ◌||◌, any, Option, none, some, List, [], ◌∷◌, ◌++◌, ◌==◌, present,
  truthy, or_else, get_or, holds, is_some, update_where, delete_where, if◌then◌else◌,
}
use mdm_saa_s.Models.{Device, InstalledApp, DeviceUpdate, DeviceUser}
use mdm_saa_s.Database.{
  Db, Action, pure, gets, modify, require, if_given, integrity, new_uuid, on_devices, has_udid,
  ◌>>=◌, ◌>>◌,
}
use mdm_saa_s.Apple.Plist.{QueryResponses, AppEntry, UpdateEntry, UserEntry}
use mdm_saa_s.Apple.Checkin.{find_device}
use mdm_saa_s.Apple.Connect.Status.{evaluate_compliance}

abbrev keep {ℓ} : {A : Type ℓ} → Option A → Option A → Option A
keep none old = old
keep (some a) old = some a

-- `updates` is not empty.
unfoldable pub has_updates : QueryResponses → Bool
has_updates qr =
    present qr.serial_number
    || present qr.os_version
    || present qr.model_name
    || present qr.model
    || present qr.device_name
    || is_some qr.is_encrypted
    || is_some qr.is_supervised

unfoldable pub apply_info : QueryResponses → Device → Device
apply_info qr d = record d {
  serial_number = or_else qr.serial_number d.serial_number;
  os_version = or_else qr.os_version d.os_version;
  model = or_else qr.model_name (or_else qr.model d.model);
  hostname = or_else qr.device_name d.hostname;
  is_encrypted = keep qr.is_encrypted d.is_encrypted;
  is_supervised = keep qr.is_supervised d.is_supervised;
}

-- The rows made from a list of entries, each with an identifier of its own.
unfoldable pub with_row : {B : Type 0} → Option (String → B) → Action (List B) → Action (List B)
with_row none rest = rest
with_row (some row) rest = do id ← new_uuid; others ← rest; pure (row id ∷ others)

unfoldable pub rows : {A B : Type 0} → (A → Option (String → B)) → List A → Action (List B)
unfolding with_row
rows f [] = pure []
rows f (x ∷ xs) = with_row (f x) (rows f xs)

unfoldable pub app_row : ℕ → Device → AppEntry → Option (String → InstalledApp)
app_row now device a =
    if present a.name
    then some (λ id. record {
      id = id;
      device_id = device.id;
      tenant_id = device.tenant_id;
      name = get_or a.name "Unknown";
      bundle_id = a.identifier;
      version = a.version;
      short_version = a.short_version;
      source = a.source;
      last_seen_at = now;
    })
    else none

unfoldable pub update_row : ℕ → Device → UpdateEntry → Option (String → DeviceUpdate)
update_row now device u =
    if present u.product_key
    then some (λ id. record {
      id = id;
      device_id = device.id;
      tenant_id = device.tenant_id;
      product_key = get_or u.product_key "";
      human_readable_name = u.human_readable_name;
      version = u.product_version;
      build = u.build;
      is_critical = holds u.is_critical;
      is_config_data_only = holds u.is_config_data_only;
      restart_required = holds u.restart_required;
      metadata_url = u.metadata_url;
      last_seen_at = now;
    })
    else none

-- `u.get("UserShortName") or u.get("UserName", "")`
abbrev short_name_of : UserEntry → String
short_name_of u = get_or (or_else u.user_short_name u.user_name) ""

unfoldable pub user_row : ℕ → Device → UserEntry → Option (String → DeviceUser)
user_row now device u =
    if truthy (short_name_of u)
    then some (λ id. record {
      id = id;
      device_id = device.id;
      tenant_id = device.tenant_id;
      user_guid = u.user_guid;
      short_name = short_name_of u;
      full_name = or_else u.user_full_name u.full_name;
      is_admin = holds u.is_admin;
      is_logged_in = holds u.is_logged_in;
      has_secure_token = holds u.has_secure_token;
      last_seen_at = now;
    })
    else none

-- The foreign key admin_access_requests.device_user_id has no ON DELETE: the rows of users to whom a
-- request refers cannot be deleted, and the statement raises an IntegrityError.
unfoldable pub users_referenced : String → Db → Bool
users_referenced device_id s =
    any (λ u. u.device_id == device_id && any (λ r. r.device_user_id == u.id) s.requests)
      s.device_users

module _ (now : ℕ) (udid : String) where
  unfoldable pub apply_device_info : QueryResponses → Action Unit
  unfolding apply_info evaluate_compliance has_updates
  apply_device_info qr =
      if has_updates qr
      then (do
        on_devices (update_where (has_udid udid) (apply_info qr))
        evaluate_compliance now udid)
      else pure tt

  unfoldable pub replace_apps : List AppEntry → Device → Action Unit
  unfolding rows app_row evaluate_compliance
  replace_apps app_list device = do
    modify (λ s. record s {
      installed_apps = delete_where (λ a. a.device_id == device.id) s.installed_apps;
    })
    new_rows ← rows (app_row now device) app_list
    modify (λ s. record s { installed_apps = s.installed_apps ++ new_rows })
    evaluate_compliance now udid

  unfoldable pub apply_installed_apps : List AppEntry → Action Unit
  unfolding find_device replace_apps
  apply_installed_apps app_list = do
    found ← find_device udid
    if_given found (replace_apps app_list)

  unfoldable pub replace_updates : List UpdateEntry → Device → Action Unit
  unfolding rows update_row evaluate_compliance
  replace_updates updates_list device = do
    modify (λ s. record s {
      device_updates = delete_where (λ u. u.device_id == device.id) s.device_updates;
    })
    new_rows ← rows (update_row now device) updates_list
    modify (λ s. record s { device_updates = s.device_updates ++ new_rows })
    evaluate_compliance now udid

  unfoldable pub apply_available_updates : List UpdateEntry → Action Unit
  unfolding find_device replace_updates
  apply_available_updates updates_list = do
    found ← find_device udid
    if_given found (replace_updates updates_list)

  unfoldable pub replace_users : List UserEntry → Device → Action Unit
  unfolding rows user_row users_referenced
  replace_users users device = do
    referenced ← gets (users_referenced device.id)
    require (not referenced) integrity
    modify (λ s. record s {
      device_users = delete_where (λ u. u.device_id == device.id) s.device_users;
    })
    new_rows ← rows (user_row now device) users
    modify (λ s. record s { device_users = s.device_users ++ new_rows })

  unfoldable pub apply_user_list : List UserEntry → Action Unit
  unfolding find_device replace_users
  apply_user_list users = do found ← find_device udid; if_given found (replace_users users)
