-- ===== src/Database/Rows.antt =====
-- Statements on single tables: the UPDATE, DELETE and INSERT that the handlers send, on the columns
-- that they name. `on_devices f` rewrites the table of devices, and so for the others.
use mdm_saa_s.Common.{String, Bool, ◌==◌, List, [], ◌∷◌, ◌++◌}
use mdm_saa_s.Models.{Device, MdmCommand}
use mdm_saa_s.Database.Session.{Action, modify}

abbrev pub on_devices : (List Device → List Device) → Action Unit
on_devices f = modify (λ s. record s { devices = f s.devices })

abbrev pub on_commands : (List MdmCommand → List MdmCommand) → Action Unit
on_commands f = modify (λ s. record s { commands = f s.commands })

-- Device.udid == udid, and Device.id == id
abbrev pub has_udid : String → Device → Bool
has_udid udid d = d.udid == udid

abbrev pub has_id : String → Device → Bool
has_id id d = d.id == id

-- `db.add` of one row
abbrev pub add_command : MdmCommand → Action Unit
add_command c = on_commands (λ cs. cs ++ c ∷ [])
