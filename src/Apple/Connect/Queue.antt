-- ===== src/Apple/Connect/Queue.antt =====
-- _get_next_command: the oldest queued command of a device.
pub mod Order
use mdm_saa_s.Common.{
  String, Bool, ◌&&◌, Option, none, some, List, ◌==◌, any, select, update_where, least,
}
use mdm_saa_s.Models.{Device, MdmCommand, CommandState, is_queued}
use mdm_saa_s.Database.{Db, Action, pure, gets, on_commands, has_udid, ◌>>=◌, ◌>>◌}

-- The JOIN: the command's device is one with the given udid. A device's id is its primary key, so a
-- command joins one row at most.
abbrev pub is_of_udid : List Device → String → MdmCommand → Bool
is_of_udid devices udid c = any (λ d. c.device_id == d.id && has_udid udid d) devices

abbrev pub is_waiting : List Device → String → MdmCommand → Bool
is_waiting devices udid c = is_of_udid devices udid c && is_queued c.status

-- The commands that the query selects, in the order of insertion.
abbrev pub waiting : String → Db → List MdmCommand
waiting udid s = select (is_waiting s.devices udid) s.commands

abbrev pub mark_sent : String → List MdmCommand → List MdmCommand
mark_sent id = update_where (λ c. c.id == id) (λ c. record c { status = CommandState.sent })

unfoldable pub deliver : Option MdmCommand → Action (Option MdmCommand)
deliver none = pure none
deliver (some c) = do on_commands (mark_sent c.id); pure (some c)

unfoldable pub get_next_command : String → Action (Option MdmCommand)
unfolding deliver
get_next_command udid = do
  command ← gets (λ s. least (λ c. c.queued_at) (waiting udid s))
  deliver command
