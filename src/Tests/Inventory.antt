-- ===== src/Tests/Inventory.antt =====
-- The devices of the office, their profiles, and a Windows device's messages.
use mdm_saa_s.Common.{
  Bool, true, false, ◌==◌, ◌⊎◌, delete_where, eq_refl, if◌then◌else◌, ℕ, String, ◌≡◌, refl, none,
  some, List, [], ◌∷◌, All,
}
use mdm_saa_s.Models.{Payload, Tenant}
use mdm_saa_s.Database.{Db, Action, Failure, Result, ok, err, modify, get_db, one_or_none}
use mdm_saa_s.Devices.Handlers.{bulk_action, delete_device, get_device, is_device_of}
use mdm_saa_s.Devices.Bulk.{Queues, bulk_action-Queues}
use mdm_saa_s.Audit.{write_audit}
use mdm_saa_s.Devices.Deletion.{Deletes, delete_device-DeletesOne}
use mdm_saa_s.Groups.Handlers.{lock}
use mdm_saa_s.Profiles.Versions.{value_at, differing, payload_diff}
use mdm_saa_s.Profiles.Diffs.{agree, apply_diff, diff_round_trip}
use mdm_saa_s.Profiles.History.{
  numbers, up_to, HasHistory, create, handle_request, handle_request-HasHistory,
}
use mdm_saa_s.Windows.Xml.{Element, element, nil, cons, find_below}
use mdm_saa_s.Windows.SyncMl.{
  SyncMsg, Reply, status, exec, get, plain, parse, build, stripped, parse_header, parse_body,
  parse_command,
}
use mdm_saa_s.Windows.SyncMl.RoundTrip.{read_all, parse-build}
use mdm_saa_s.Windows.Statuses.{AnswersOldest, every_status-AnswersOldest}
use mdm_saa_s.Tests.Samples.{acme, ada, laptop, other, office}

bulk_action_example :
    Queues "t1"
      (laptop ∷ other ∷ [])
      office
      (bulk_action 7 acme ada "lock" ("d2" ∷ "d1" ∷ []) (some "1234") none office)
bulk_action_example =
    bulk_action-Queues 7 acme ada "lock" lock ("d2" ∷ "d1" ∷ []) (some "1234") none laptop
      (other ∷ []) office refl refl

-- A database in which nothing refers to a device.
abbrev delete_plainly : String → Tenant → Action Unit
delete_plainly id tenant =
    modify (λ s. record s { devices = delete_where (is_device_of id tenant) s.devices })

abbrev deletion : Result Unit × Db
deletion = get_db (delete_device 7 acme ada delete_plainly "d1") office

delete_device_example :
    ((deletion.0 ≡ ok tt) × Deletes acme ada "d1" office deletion.1)
    ⊎ ((e : Failure) × (deletion.0 ≡ err e)
        × (deletion.1 ≡ record office { drawn = deletion.1.drawn }))
delete_device_example =
    delete_device-DeletesOne delete_plainly (λ id tenant s h. (refl, refl)) 7 acme ada "d1" office

deletion_returns : deletion.0 ≡ ok tt
unfolding get_db delete_device get_device one_or_none write_audit
deletion_returns = refl

-- The texts that Python takes for one number.
abbrev as_number : String → String
as_number x = if x == "true" then "1" else x

abbrev equal : List String → List String → Bool
equal [] [] = true
equal (x ∷ xs) (y ∷ ys) = if as_number x == as_number y then equal xs ys else false
equal _ _ = false

equal_refl : (v : List String) → equal v v ≡ true
equal_refl [] = refl
equal_refl (x ∷ xs) = rw (eq_refl (as_number x)) (equal_refl xs)

abbrev old_payload : Payload
old_payload = ("ssid", "office" ∷ []) ∷ ("hidden", "1" ∷ []) ∷ []

abbrev new_payload : Payload
new_payload = ("ssid", "lab" ∷ []) ∷ ("hidden", "true" ∷ []) ∷ ("proxy", "none" ∷ []) ∷ []

-- A change from 1 to true is not in the difference.
same_number :
    (payload_diff equal old_payload new_payload).changed ≡ ("ssid", "office" ∷ [], "lab" ∷ []) ∷ []
unfolding payload_diff differing value_at
same_number = refl

diff_round_trip_example :
    agree equal
      (value_at "hidden" new_payload)
      (value_at "hidden" (apply_diff (payload_diff equal old_payload new_payload) old_payload))
    ≡ true
diff_round_trip_example =
    diff_round_trip equal equal_refl old_payload new_payload "hidden" (refl, (refl, (refl, tt)))

handle_request_example :
    HasHistory
      (handle_request 7 acme ada
        (create "Wi-Fi" "wifi" "macos" new_payload)
        office).1.profile_versions
unfolding numbers up_to
handle_request_example =
    handle_request-HasHistory 7 acme ada (create "Wi-Fi" "wifi" "macos" new_payload) office refl
      (λ id. (0, refl))

abbrev same : String → String
same s = s

abbrev print : ℕ → String
print n = "7"

abbrev replies : List Reply
replies =
    status "1" "0" "SyncHdr" "https://mdm" "UDID-1" "200"
    ∷ get "./DevInfo/Man?id=UUID-2"
    ∷ exec "./Vendor/MSFT/RemoteLock/Lock?id=UUID-1" none
    ∷ []

parse-build_example :
    parse same (build print "12" "2" "https://mdm" "UDID-1" replies)
    ≡ some (record {
      header = record {
        session_id = "12";
        msg_id = "2";
        target_uri = "UDID-1";
        source_uri = "https://mdm";
      };
      commands = read_all print 1 replies;
    })
parse-build_example =
    parse-build same print "12" "2" "https://mdm" "UDID-1" replies (λ n. (refl, refl)) (refl, refl)
      (refl, refl) refl refl ((refl, refl, refl, refl, refl, refl), (tt, (tt, tt)))

-- The acknowledgement of a header, as every message of a device begins.
abbrev header_status : Element
header_status = element "SyncML" none (
    cons (element "SyncHdr" none nil) (
      cons
        (element "SyncBody" none
          (cons (element "Status" none (cons (element "Data" (some "200") nil) nil)) nil))
        nil))

abbrev header_message : SyncMsg
header_message = record {
  header = record { session_id = "0"; msg_id = "0"; target_uri = ""; source_uri = "" };
  commands = record (plain "Status" "0") { data_ = some "200" } ∷ [];
}

every_status-AnswersOldest_example : All (AnswersOldest 7 laptop office) header_message.commands
unfolding parse stripped parse_header parse_body parse_command find_below
every_status-AnswersOldest_example =
    every_status-AnswersOldest same header_status header_message 7 laptop office refl
