-- ===== src/Apple/Connect/Frame/Handler.antt =====
-- The handler keeps the frame.
use mdm_saa_s.Common.{
  ℕ, String, ◌≡◌, refl, not, ◌&&◌, Option, none, some, ◌==◌, present, get_or, select, update_where,
  least, if◌then◌else◌,
}
use mdm_saa_s.Models.{MdmCommand}
use mdm_saa_s.Database.{
  Db, Action, pure, attempt, on_devices, on_commands, has_udid, if_given, one_or_none, ◌>>=◌, ◌>>◌,
}
use mdm_saa_s.Database.Keeps.{
  Keeps, Keeps-bind, Keeps-then, Keeps-if_given, Keeps-if, Keeps-attempt, Keeps-pure,
}
use mdm_saa_s.Apple.Plist.{PlistDict, CommandResultMessage, parse_connect_message}
use mdm_saa_s.Apple.Connect.Queue.{deliver, get_next_command, waiting}
use mdm_saa_s.Apple.Connect.Reports.{
  apply_device_info, apply_installed_apps, apply_available_updates, apply_user_list,
}
use mdm_saa_s.Apple.Connect.Handler.{
  Reply, reply_of, is_erase, has_command_uuid, record_result, wiped, touch, evaluate_policies_of,
  apply_reports, acknowledged, process_command_result, process_if_any, connect_message, connect,
}
use mdm_saa_s.Apple.Connect.Frame.Base.{
  HasFrame, frame, on_devices-HasFrame, on_commands-HasFrame, elsewhere,
}
use mdm_saa_s.Apple.Connect.Frame.Evaluation.{evaluate_policies_of-HasFrame}
use mdm_saa_s.Apple.Connect.Frame.Reports.{
  apply_device_info-HasFrame, apply_installed_apps-HasFrame, apply_available_updates-HasFrame,
  apply_user_list-HasFrame,
}

module _ (s0 : Db) (now : ℕ) where
  apply_reports-HasFrame :
      (msg : CommandResultMessage) → Keeps (HasFrame s0) (apply_reports now msg)
  unfolding apply_reports
  apply_reports-HasFrame msg =
      let udid = msg.udid in
      let info = if_given msg.raw.query_responses (apply_device_info now udid) in
      let apps = if_given msg.raw.installed_application_list (apply_installed_apps now udid) in
      let updates = if_given msg.raw.available_os_updates (apply_available_updates now udid) in
      let users = if_given msg.raw.users (apply_user_list now udid) in
      Keeps-then (HasFrame s0) (attempt (evaluate_policies_of now udid))
        (info >> (apps >> (updates >> users)))
        (Keeps-attempt (HasFrame s0) (evaluate_policies_of now udid)
          (evaluate_policies_of-HasFrame s0 now udid))
        (Keeps-then (HasFrame s0) info (apps >> (updates >> users))
          (Keeps-if_given (HasFrame s0) msg.raw.query_responses _
            (apply_device_info-HasFrame s0 now udid))
          (Keeps-then (HasFrame s0) apps (updates >> users)
            (Keeps-if_given (HasFrame s0) msg.raw.installed_application_list _
              (apply_installed_apps-HasFrame s0 now udid))
            (Keeps-then (HasFrame s0) updates users
              (Keeps-if_given (HasFrame s0) msg.raw.available_os_updates _
                (apply_available_updates-HasFrame s0 now udid))
              (Keeps-if_given (HasFrame s0) msg.raw.users _
                (apply_user_list-HasFrame s0 now udid)))))

  acknowledged-HasFrame :
      (uuid : String) (msg : CommandResultMessage) → Keeps (HasFrame s0) (acknowledged now uuid msg)
  unfolding acknowledged
  acknowledged-HasFrame uuid msg =
      let wipe = on_devices (update_where (has_udid msg.udid) wiped) in
      Keeps-bind (HasFrame s0) (λ s. (one_or_none (select (has_command_uuid uuid) s.commands), s))
        (λ cmd. if is_erase cmd then wipe else apply_reports now msg) (elsewhere s0 _ (λ s. refl))
        (λ cmd.
          Keeps-if (HasFrame s0) (is_erase cmd) wipe (apply_reports now msg)
            (on_devices-HasFrame s0 (has_udid msg.udid) wiped (λ x. refl))
            (apply_reports-HasFrame msg))

  process_command_result-HasFrame :
      (uuid : String) (msg : CommandResultMessage)
      → Keeps (HasFrame s0) (process_command_result now uuid msg)
  unfolding process_command_result
  process_command_result-HasFrame uuid msg =
      let mark = on_commands (update_where (has_command_uuid uuid) (record_result now uuid msg)) in
      let is_ack = msg.status == "Acknowledged" in
      Keeps-then (HasFrame s0) mark (if is_ack then acknowledged now uuid msg else pure tt)
        (on_commands-HasFrame s0 (has_command_uuid uuid) (record_result now uuid msg) (λ x. refl))
        (Keeps-if (HasFrame s0) is_ack (acknowledged now uuid msg) (pure tt)
          (acknowledged-HasFrame uuid msg) (Keeps-pure (HasFrame s0) tt))

  deliver-HasFrame : (o : Option MdmCommand) → Keeps (HasFrame s0) (deliver o)
  unfolding deliver
  deliver-HasFrame none = Keeps-pure (HasFrame s0) none
  deliver-HasFrame (some c) = record {
    at = λ s h. (on_commands-HasFrame s0 _ _ (λ x. refl)).at s h;
  }

  get_next_command-HasFrame : (udid : String) → Keeps (HasFrame s0) (get_next_command udid)
  unfolding get_next_command
  get_next_command-HasFrame udid = record {
    at = λ s h. (deliver-HasFrame (least (λ c. c.queued_at) (waiting udid s))).at s h;
  }

  connect_message-HasFrame :
      (msg : CommandResultMessage) → Keeps (HasFrame s0) (connect_message now msg)
  unfolding connect_message
  connect_message-HasFrame msg =
      let reports = present msg.command_uuid && not (msg.status == "Idle") in
      let process = process_command_result now (get_or msg.command_uuid "") msg in
      let answer : Action Reply = get_next_command msg.udid >>= λ next. pure (reply_of next) in
      Keeps-then (HasFrame s0) (on_devices (update_where (has_udid msg.udid) (touch now)))
        (process_if_any now msg >> answer)
        (on_devices-HasFrame s0 (has_udid msg.udid) (touch now) (λ x. refl))
        (Keeps-then (HasFrame s0) (process_if_any now msg) answer
          (Keeps-if (HasFrame s0) reports process (pure tt)
            (process_command_result-HasFrame (get_or msg.command_uuid "") msg)
            (Keeps-pure (HasFrame s0) tt))
          (Keeps-bind (HasFrame s0) (get_next_command msg.udid) (λ next. pure (reply_of next))
            (get_next_command-HasFrame msg.udid) (λ _. Keeps-pure (HasFrame s0) _)))

-- Whatever a device sends to the connect endpoint, and whether or not the handler raises: no device
-- changes its identifier, its tenant, its udid or its agent token, no command changes what it is or
-- whose it is, no device or command is added or removed, and tenants, users, script jobs, admin access
-- requests and policies stay as they are.
pub frame-connect :
    (now : ℕ) (body : Option (Option PlistDict)) (s : Db) → frame (connect now body s).1 ≡ frame s
unfolding connect
frame-connect now none s = refl
frame-connect now (some none) s = refl
frame-connect now (some (some dict)) s =
    (connect_message-HasFrame s now (parse_connect_message dict)).at s refl
