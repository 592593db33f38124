-- ===== src/Apple/Connect/Results.antt =====
-- What the result of a command does: EraseDevice and the way to a spare device, and NotNow.
use mathlib.Core.Path.{subst}
use mdm_saa_s.Common.{
  ℕ, String, true, false, ◌≡◌, refl, sym, ap, ◌∙◌, none, some, List, [], ◌∷◌, map, arith, All,
  All-update_hit, select, select-update_where, update_where,
}
use mdm_saa_s.Models.{Device, DeviceStatus, MdmCommand, Tenant, is_queued}
use mdm_saa_s.Database.{Db, Result, ok, ◌>>◌, one_or_none, has_udid}
use mdm_saa_s.Database.Laws.{bind-ok}
use mdm_saa_s.Apple.Plist.{CommandResultMessage, CheckOutMessage}
use mdm_saa_s.Apple.Checkin.{find_device, leave, handle_checkout, checked_out}
use mdm_saa_s.Apple.Connect.Queue.{waiting, is_waiting}
use mdm_saa_s.Apple.Connect.Handler.{
  has_command_uuid, record_result, command_state, wiped, acknowledged, process_command_result,
}

-- A wiped device cannot be woken.
abbrev pub IsWiped : Device → Type 0
IsWiped d = (d.status ≡ DeviceStatus.wiped) × (d.push_token ≡ none) × (d.push_magic ≡ none)

abbrev pub IsSpare : Device → Type 0
IsSpare d = (d.status ≡ DeviceStatus.spare) × (d.push_token ≡ none) × (d.push_magic ≡ none)

module _ (now : ℕ) (uuid : String) (msg : CommandResultMessage) where
  acknowledged-erase :
      (c : MdmCommand) (t : Db)
      → select (has_command_uuid uuid) t.commands ≡ c ∷ []
      → c.command_type ≡ "EraseDevice"
      → acknowledged now uuid msg t
        ≡ (ok tt, record t { devices = update_where (has_udid msg.udid) wiped t.devices })
  unfolding acknowledged one_or_none
  acknowledged-erase c t only erase = rw (only, erase)

  abbrev recorded : Db → Db
  recorded s = record s {
    commands = update_where (has_command_uuid uuid) (record_result now uuid msg) s.commands;
  }

  process-ack :
      (s : Db)
      → msg.status ≡ "Acknowledged"
      → process_command_result now uuid msg s ≡ acknowledged now uuid msg (recorded s)
  unfolding process_command_result
  process-ack s ack = rw ack

  still_only :
      (c : MdmCommand) (s : Db)
      → select (has_command_uuid uuid) s.commands ≡ c ∷ []
      → select (has_command_uuid uuid) (recorded s).commands ≡ record_result now uuid msg c ∷ []
  unfolding record_result
  still_only c s only =
      select-update_where (has_command_uuid uuid) (record_result now uuid msg) s.commands
        (λ x. refl)
      ∙ ap (map (record_result now uuid msg)) only

  -- An acknowledged EraseDevice command: the whole effect.
  pub process-erase :
      (c : MdmCommand) (s : Db)
      → msg.status ≡ "Acknowledged"
      → select (has_command_uuid uuid) s.commands ≡ c ∷ []
      → c.command_type ≡ "EraseDevice"
      → process_command_result now uuid msg s ≡ (
        ok tt,
        record (recorded s) { devices = update_where (has_udid msg.udid) wiped s.devices },
      )
  unfolding record_result
  process-erase c s ack only erase =
      process-ack s ack
      ∙ acknowledged-erase (record_result now uuid msg c) (recorded s) (still_only c s only) erase

module _ (psso : Tenant → Result String) (now : ℕ) (msg : CheckOutMessage) where
  leave-wiped :
      (d : Device) (t : Db)
      → d.status ≡ DeviceStatus.wiped
      → All (λ x. has_udid msg.udid x ≡ true → IsSpare x) (leave psso now msg (some d) t).1.devices
  unfolding leave
  leave-wiped d t h = rw h (
      All-update_hit (λ x. has_udid msg.udid x ≡ true → IsSpare x) (has_udid msg.udid)
        (checked_out DeviceStatus.spare now) t.devices
        (unfold checked_out in λ x _ _. (refl, refl, refl)) (λ x out hit. absurd (cc)))

  -- A checkout of a device that is wiped.
  checkout-wiped :
      (d : Device) (t : Db)
      → select (has_udid msg.udid) t.devices ≡ d ∷ []
      → d.status ≡ DeviceStatus.wiped
      → All (λ x. has_udid msg.udid x ≡ true → IsSpare x) (handle_checkout psso now msg t).1.devices
  unfolding handle_checkout
  checkout-wiped d t only h =
      subst (λ y. All (λ x. has_udid msg.udid x ≡ true → IsSpare x) y.1.devices)
        (sym (
          bind-ok (find_device msg.udid) (leave psso now msg) t (some d) t
            (ap (λ xs. (one_or_none xs, t)) only)))
        (leave-wiped d t h)

-- When a device reports that it has been erased, and later leaves, it is a spare device without push
-- token and magic. The command's identifier is unique, and so is the device's udid.
pub erase_checkout-IsSpare :
    (now later : ℕ) (psso : Tenant → Result String) (uuid topic : String)
    (msg : CommandResultMessage) (s : Db) (c : MdmCommand) (d : Device)
    → msg.status ≡ "Acknowledged"
    → select (has_command_uuid uuid) s.commands ≡ c ∷ []
    → c.command_type ≡ "EraseDevice"
    → select (has_udid msg.udid) s.devices ≡ d ∷ []
    → All
        (λ x. has_udid msg.udid x ≡ true → IsSpare x)
        ((process_command_result now uuid msg
            >> handle_checkout psso later (record { udid = msg.udid; topic = topic }))
          s).1.devices
erase_checkout-IsSpare now later psso uuid topic msg s c d ack only erase one =
    let bye : CheckOutMessage = record { udid = msg.udid; topic = topic } in
    let t : Db = record (recorded now uuid msg s) {
      devices = update_where (has_udid msg.udid) wiped s.devices;
    } in
    subst (λ y. All (λ x. has_udid msg.udid x ≡ true → IsSpare x) y.1.devices)
      (sym (
        bind-ok (process_command_result now uuid msg) (λ _. handle_checkout psso later bye) s tt t
          (process-erase now uuid msg c s ack only erase)))
      (checkout-wiped psso later bye (wiped d) t
        (select-update_where (has_udid msg.udid) wiped s.devices (unfold wiped in λ x. refl)
          ∙ ap (map wiped) one)
        (unfold wiped in refl))

-- Updating commands so that they are not queued takes them out of every queue.
waiting-without :
    (ds : List Device) (udid uuid : String) (f : MdmCommand → MdmCommand) (cs : List MdmCommand)
    → ((x : MdmCommand)
        → (is_queued (f x).status ≡ false)
          × (has_command_uuid uuid (f x) ≡ has_command_uuid uuid x))
    → All
        (λ c. has_command_uuid uuid c ≡ false)
        (select (is_waiting ds udid) (update_where (has_command_uuid uuid) f cs))
waiting-without ds udid uuid f [] k = tt
waiting-without ds udid uuid f (c ∷ cs) k = ground (arith, k c, waiting-without ds udid uuid f cs k)

-- A command that the device puts off is out of every device's queue: no device will receive it.
pub not_now_leaves_queue :
    (now : ℕ) (uuid udid : String) (msg : CommandResultMessage) (s : Db)
    → msg.status ≡ "NotNow"
    → All
        (λ c. has_command_uuid uuid c ≡ false)
        (waiting udid (process_command_result now uuid msg s).1)
unfolding process_command_result record_result command_state
not_now_leaves_queue now uuid udid msg s deferred = rw deferred (
    waiting-without s.devices udid uuid (record_result now uuid (record msg { status = "NotNow" }))
      s.commands (λ x. (refl, refl)))
