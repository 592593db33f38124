-- ===== src/Tests/Apple.antt =====
-- The protocol of Apple devices, at the office.
use mdm_saa_s.Common.{
  any, ◌≡◌, ◌≤◌, ◌⊎◌, refl, String, true, false, not, ◌++◌, none, some, List, [], ◌∷◌, ◌==◌, arith,
  least, All, select,
}
use mdm_saa_s.Models.{Tenant, Device, DeviceStatus, MdmCommand, CommandState}
use mdm_saa_s.Database.{Db, Result, ok, has_udid, ◌>>◌, one_or_none}
use mdm_saa_s.Apple.Plist.{CommandResultMessage, TokenUpdateMessage, PlistDict, push_token_hex}
use mdm_saa_s.Apple.Checkin.{
  resolve_tenant, tenant_by_topic, last_part, find_device, leave, handle_token_update,
  handle_checkout,
}
use mdm_saa_s.Apple.Checkin.Enrollment.{resolve_tenant_owner, first_token_update, InstallsProfile}
use mdm_saa_s.Apple.Checkin.Departure.{checkout_silences}
use mdm_saa_s.CommandQueue.Consumer.{deleted, delivered, wake_device}
use mdm_saa_s.Apple.Connect.Queue.{waiting, is_of_udid, get_next_command}
use mdm_saa_s.Apple.Connect.Queue.Order.{
  next_command_oldest, waiting-get_next_command, poll, poll_drains,
}
use mdm_saa_s.Apple.Connect.Handler.{has_command_uuid, process_command_result, connect}
use mdm_saa_s.Apple.Connect.Frame.Base.{frame}
use mdm_saa_s.Apple.Connect.Frame.Handler.{frame-connect}
use mdm_saa_s.Apple.Connect.Results.{IsSpare, erase_checkout-IsSpare, not_now_leaves_queue}
use mdm_saa_s.Tests.Samples.{acme, laptop, erase, query, office}

next_command_oldest_example :
    (is_of_udid office.devices "UDID-1" query ≡ true)
    × (query.status ≡ CommandState.queued)
    × All (λ x. query.queued_at ≤ x.queued_at) (waiting "UDID-1" office)
unfolding get_next_command least
next_command_oldest_example = next_command_oldest "UDID-1" office query refl

queue_after_delivery_example :
    waiting "UDID-1" (get_next_command "UDID-1" office).1
    ≡ select (λ x. not (x.id == query.id)) (waiting "UDID-1" office)
unfolding get_next_command least
queue_after_delivery_example = waiting-get_next_command "UDID-1" office query refl

poll_drains_example :
    All (λ c. any (λ x. x.id == c.id) (poll 2 "UDID-1" office).0 ≡ true) (waiting "UDID-1" office)
    × (waiting "UDID-1" (poll 2 "UDID-1" office).1 ≡ [])
poll_drains_example = poll_drains "UDID-1" 2 office (omega arith)

-- What the device sends back for a command.
abbrev body : String → PlistDict
body status = record {
  message_type = none;
  udid = some "UDID-1";
  topic = none;
  push_magic = none;
  token = none;
  unlock_token = none;
  os_version = none;
  serial_number = none;
  model = none;
  status = some status;
  command_uuid = some "UUID-1";
  error_chain = none;
  query_responses = none;
  installed_application_list = none;
  available_os_updates = none;
  users = none;
}

abbrev answer : String → CommandResultMessage
answer status = record {
  udid = "UDID-1";
  status = status;
  command_uuid = some "UUID-1";
  error_chain = [];
  raw = body status;
}

frame-connect_example :
    frame (connect 400 (some (some (body "Acknowledged"))) office).1 ≡ frame office
frame-connect_example = frame-connect 400 (some (some (body "Acknowledged"))) office

abbrev psso : Tenant → Result String
psso t = ok "<plist/>"

erase_checkout-IsSpare_example :
    All
      (λ x. has_udid "UDID-1" x ≡ true → IsSpare x)
      ((process_command_result 500 "UUID-1" (answer "Acknowledged")
          >> handle_checkout psso 600 (record { udid = "UDID-1"; topic = "" }))
        office).1.devices
erase_checkout-IsSpare_example =
    erase_checkout-IsSpare 500 600 psso "UUID-1" "" (answer "Acknowledged") office erase laptop refl
      refl refl refl

not_now_example :
    All
      (λ c. has_command_uuid "UUID-1" c ≡ false)
      (waiting "UDID-1" (process_command_result 500 "UUID-1" (answer "NotNow") office).1)
not_now_example = not_now_leaves_queue 500 "UUID-1" "UDID-1" (answer "NotNow") office refl

resolve_tenant_owner_example :
    (acme.apns_push_topic ≡ some "com.apple.mgmt.acme")
    ⊎ ((tenant_by_topic "com.apple.mgmt.acme" office.tenants ≡ none)
        × (acme.slug ≡ last_part "com.apple.mgmt.acme"))
unfolding resolve_tenant
resolve_tenant_owner_example = resolve_tenant_owner "com.apple.mgmt.acme" office.tenants acme refl

checkout_silences_example :
    All
      (λ d. (t : Db) → wake_device (λ x. delivered) (some d) t ≡ (ok deleted, t))
      (select
        (has_udid "UDID-1")
        (handle_checkout psso 600 (record { udid = "UDID-1"; topic = "" }) office).1.devices)
unfolding handle_checkout find_device one_or_none leave
checkout_silences_example =
    checkout_silences psso 600 (record { udid = "UDID-1"; topic = "" }) office (λ x. delivered) refl

-- The first token of a device that is not known.
abbrev first : TokenUpdateMessage
first = record {
  udid = "UDID-9";
  topic = "com.apple.mgmt.acme";
  push_magic = "magic";
  token = 1 ∷ 2 ∷ [];
  unlock_token = none;
}

first_token_update_example :
    ((resolve_tenant first.topic office.tenants ≡ none)
      × (handle_token_update psso 700 first office ≡ (ok tt, office)))
    ⊎ ((t : Tenant) × ((d : Device) × (resolve_tenant first.topic office.tenants ≡ some t)
          × (d.tenant_id ≡ t.id)
          × (d.udid ≡ first.udid)
          × (d.status ≡ DeviceStatus.enrolled)
          × (d.push_token ≡ some (push_token_hex first.token))
          × (d.push_magic ≡ some first.push_magic)
          × (d.push_topic ≡ some first.topic)
          × ((handle_token_update psso 700 first office).0 ≡ ok tt)
          × ((handle_token_update psso 700 first office).1.devices ≡ office.devices ++ d ∷ [])
          × ((cs : List MdmCommand) × ((handle_token_update psso 700 first office).1.commands
                ≡ office.commands ++ cs)
              × All (InstallsProfile d) cs)))
first_token_update_example = first_token_update psso 700 first office refl
