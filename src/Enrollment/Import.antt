-- ===== src/Enrollment/Import.antt =====
-- import_devices_csv. The rows are those of `csv.DictReader`, with the columns that the handler reads;
-- `texts` stands for the methods of `str` that it calls.
use Prim.Native.String
use mdm_saa_s.Common.{
  ℕ, suc, String, ◌||◌, Option, none, some, List, [], ◌∷◌, ◌++◌, ◌==◌, any, present, get_or, truthy,
  if◌then◌else◌,
}
use mdm_saa_s.Models.{Tenant, Device, DeviceStatus, ComplianceStatus}
use mdm_saa_s.Database.{Action, http, pure, raise, gets, new_uuid, ◌>>=◌, ◌>>◌, on_devices}

pub record Texts : Type 0 where
  pub strip : String → String
  pub upper : String → String
  pub lower : String → String

pub record CsvRow : Type 0 where
  pub serial_number : Option String
  pub hostname : Option String
  pub model : Option String
  pub platform : Option String

-- `bad` is the rows, by their line numbers, that the response lists under `errors`.
pub record Imported : Type 0 where
  pub imported : ℕ
  pub skipped : ℕ
  pub bad : List ℕ

-- The serial numbers that are there: `{row[0] for row in … if row[0]}`
unfoldable pub serials_of : String → List Device → List String
serials_of tenant_id [] = []
serials_of tenant_id (d ∷ ds) =
    let rest = serials_of tenant_id ds in
    if d.tenant_id == tenant_id
    then (if present d.serial_number then get_or d.serial_number "" ∷ rest else rest)
    else rest

-- What the loop does with a row.
pub data RowCase : Type 0 where
  missing duplicate fresh : RowCase

unfoldable pub row_case : List String → String → RowCase
row_case existing serial =
    if serial == "" then missing else if any (λ x. x == serial) existing then duplicate else fresh

module _ (texts : Texts) (tenant : Tenant) where
  -- `(value or "").strip() or None`
  unfoldable pub optional_text : Option String → Option String
  optional_text value = let s = texts.strip (get_or value "") in if truthy s then some s else none

  unfoldable pub clean_serial : CsvRow → String
  clean_serial row = texts.upper (texts.strip (get_or row.serial_number ""))

  unfoldable pub clean_platform : Option String → String
  clean_platform value =
      let p = texts.lower (texts.strip (if present value then get_or value "" else "macos")) in
      if (p == "macos") || (p == "windows") then p else "macos"

  unfoldable pub pending_device : CsvRow → String → String → Device
  unfolding optional_text clean_platform
  pending_device row serial id = record {
    id = id;
    tenant_id = tenant.id;
    udid = String.◌++◌ "serial:" serial;
    platform = clean_platform row.platform;
    serial_number = some serial;
    model = optional_text row.model;
    os_version = none;
    hostname = optional_text row.hostname;
    status = DeviceStatus.pending;
    enroll_type = "csv_import";
    assigned_user_id = none;
    push_token = none;
    push_magic = none;
    push_topic = none;
    unlock_token = none;
    psso_status = "not_configured";
    enrolled_at = none;
    last_checkin = none;
    is_encrypted = none;
    is_supervised = none;
    firewall_enabled = none;
    gatekeeper_enabled = none;
    screen_lock_enabled = none;
    compliance_status = ComplianceStatus.unknown;
    compliance_checked_at = none;
    agent_token = none;
  }

  -- What each case writes, what it adds to `existing_serials`, and what it adds to the response.
  unfoldable pub stage_row : RowCase → CsvRow → String → Action Unit
  unfolding pending_device
  stage_row missing row serial = pure tt
  stage_row duplicate row serial = pure tt
  stage_row fresh row serial = do
    id ← new_uuid
    on_devices (λ ds. ds ++ pending_device row serial id ∷ [])

  unfoldable pub next_existing : RowCase → List String → String → List String
  next_existing fresh existing serial = existing ++ serial ∷ []
  next_existing _ existing serial = existing

  unfoldable pub counted : RowCase → ℕ → Imported → Imported
  counted missing i r = record r { bad = i ∷ r.bad }
  counted duplicate i r = record r { skipped = suc r.skipped }
  counted fresh i r = record r { imported = suc r.imported }

  -- The loop from line `i` on.
  unfoldable pub import_rows : ℕ → List String → List CsvRow → Action Imported
  unfolding clean_serial row_case stage_row next_existing counted
  import_rows i existing [] = pure (record { imported = 0; skipped = 0; bad = [] })
  import_rows i existing (row ∷ rows) =
      let serial = clean_serial row in
      let c = row_case existing serial in
      let rest = import_rows (suc i) (next_existing c existing serial) rows in
      (do stage_row c row serial; r ← rest; pure (counted c i r))

  -- `none` is a file that is not UTF-8 or that has no column serial_number.
  unfoldable pub import_devices_csv : Option (List CsvRow) → Action Imported
  unfolding import_rows serials_of
  import_devices_csv none = raise (http 400)
  import_devices_csv (some rows) = do
    existing ← gets (λ s. serials_of tenant.id s.devices)
    import_rows 2 existing rows
