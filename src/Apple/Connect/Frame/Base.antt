-- ===== src/Apple/Connect/Frame/Base.antt =====
-- What the connect handler leaves alone, whatever the device sends.
use mdm_saa_s.Common.{ℕ, String, Bool, ◌≡◌, ◌∙◌, Option, List, map, update_where, map-update_where}
use mdm_saa_s.Models.{
  Tenant, User, Device, MdmCommand, Payload, ScriptJob, AdminAccessRequest, CompliancePolicy,
}
use mdm_saa_s.Database.{Db, Action, on_devices, on_commands}
use mdm_saa_s.Database.Keeps.{Keeps}

-- Who a device is and whom it belongs to.
abbrev pub DeviceKey : Type 0
DeviceKey = String × String × String × Option String

abbrev pub device_key : Device → DeviceKey
device_key d = (d.id, d.tenant_id, d.udid, d.agent_token)

-- What a command is, without its progress.
abbrev pub CommandKey : Type 0
CommandKey = String × String × String × String × String × Payload × ℕ

abbrev pub command_key : MdmCommand → CommandKey
command_key c =
    (c.id, c.device_id, c.tenant_id, c.command_uuid, c.command_type, c.payload, c.queued_at)

-- The tables that the handler does not touch, and the columns that it does not touch of the tables of
-- devices and of commands.
abbrev pub FrameOf : Type 0
FrameOf =
    List DeviceKey
    × List CommandKey
    × List Tenant
    × List User
    × List ScriptJob
    × List AdminAccessRequest
    × List CompliancePolicy

abbrev pub frame : Db → FrameOf
frame s = (
  map device_key s.devices,
  map command_key s.commands,
  s.tenants,
  s.users,
  s.script_jobs,
  s.requests,
  s.policies,
)

module _ (s0 : Db) where
  abbrev pub HasFrame : Db → Type 0
  HasFrame s = frame s ≡ frame s0

  pub on_devices-HasFrame :
      (p : Device → Bool) (f : Device → Device)
      → ((x : Device) → device_key (f x) ≡ device_key x)
      → Keeps HasFrame (on_devices (update_where p f))
  on_devices-HasFrame p f k = record {
    at = λ s h. rw (map-update_where device_key p f s.devices k) h;
  }

  pub on_commands-HasFrame :
      (p : MdmCommand → Bool) (f : MdmCommand → MdmCommand)
      → ((x : MdmCommand) → command_key (f x) ≡ command_key x)
      → Keeps HasFrame (on_commands (update_where p f))
  on_commands-HasFrame p f k = record {
    at = λ s h. rw (map-update_where command_key p f s.commands k) h;
  }

  -- An action that writes other tables.
  pub elsewhere :
      {A : Type 0} (m : Action A) → ((s : Db) → frame (m s).1 ≡ frame s) → Keeps HasFrame m
  elsewhere m k = record { at = λ s h. k s ∙ h }
