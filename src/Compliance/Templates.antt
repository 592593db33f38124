-- ===== src/Compliance/Templates.antt =====
-- The built-in policy templates and the labels of the controls.
use mdm_saa_s.Common.{String, true, false, List, [], ◌∷◌, ◌==◌, if◌then◌else◌}
use mdm_saa_s.Models.{Rules, flag, number}

abbrev pub iso27001_rules : Rules
iso27001_rules =
    ("filevault_required", flag true)
    ∷ ("firewall_required", flag true)
    ∷ ("gatekeeper_required", flag true)
    ∷ ("max_checkin_age_hours", number 48)
    ∷ ("critical_updates_allowed", number 0)
    ∷ ("psso_required", flag false)
    ∷ ("screen_lock_required", flag true)
    ∷ []

abbrev pub pci_dss_rules : Rules
pci_dss_rules =
    ("filevault_required", flag true)
    ∷ ("firewall_required", flag true)
    ∷ ("gatekeeper_required", flag true)
    ∷ ("max_checkin_age_hours", number 24)
    ∷ ("critical_updates_allowed", number 0)
    ∷ ("psso_required", flag false)
    ∷ ("screen_lock_required", flag true)
    ∷ []

pub record Template : Type 0 where
  pub framework : String
  pub name : String
  pub description : String
  pub rules : Rules

abbrev pub framework_templates : List Template
framework_templates =
    (record {
      framework = "iso27001";
      name = "ISO 27001";
      description = "ISO/IEC 27001 information security controls for endpoint devices";
      rules = iso27001_rules;
    })
    ∷ (record {
      framework = "pci_dss";
      name = "PCI DSS v4";
      description = "PCI DSS v4.0 endpoint security requirements";
      rules = pci_dss_rules;
    })
    ∷ []

abbrev pub control_labels : List (String × String)
control_labels =
    ("filevault_required", "FileVault encryption enabled")
    ∷ ("firewall_required", "Firewall enabled")
    ∷ ("gatekeeper_required", "Gatekeeper enabled")
    ∷ ("max_checkin_age_hours", "Device checked in recently")
    ∷ ("critical_updates_allowed", "No critical updates pending")
    ∷ ("psso_required", "Platform SSO configured")
    ∷ ("screen_lock_required", "Screen lock enabled")
    ∷ []

-- `labels.get(control, control)`
label_in : List (String × String) → String → String
label_in [] control = control
label_in ((k, v) ∷ labels) control = if k == control then v else label_in labels control

unfoldable pub label : String → String
unfolding label_in
label control = label_in control_labels control
