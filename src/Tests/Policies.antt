-- ===== src/Tests/Policies.antt =====
-- The compliance engine at the office.
use mdm_saa_s.Common.{arith, ◌≡◌, refl, ◌||◌, [], ◌∷◌, ltb, update_where}
use mdm_saa_s.Models.{is_non_compliant}
use mdm_saa_s.Database.{ok, has_id, one_or_none}
use mdm_saa_s.Compliance.Templates.{iso27001_rules, pci_dss_rules, label}
use mdm_saa_s.Compliance.Evaluation.{
  Tally, judge, flag_verdict, at_most, age_verdict, add_verdict, tally, tally_status,
  critical_count, write_result, upsert_result, evaluate_device, evaluate_policies, set_compliance,
  evaluate_against, evaluate_device_all_policies,
}
use mdm_saa_s.Compliance.Verdicts.{
  labels_with, is_pass, is_fail, is_unknown, some_rule_fails, tally_lists, status_of_tally,
}
use mdm_saa_s.Compliance.Device.{marked, some_policy_fails, evaluated_device}
use mdm_saa_s.Compliance.Seed.{seed_default_policies}
use mdm_saa_s.Compliance.Seeded.{seed_twice}
use mdm_saa_s.Compliance.Results.{HasOneResult, evaluation_keeps_one_result}
use mdm_saa_s.Compliance.Standards.{is_off, is_stale, iso27001_fails, pci_dss_fails}
use mdm_saa_s.Tests.Samples.{laptop, policy, office}

-- The firewall is off, and two settings are not known.
abbrev found : Tally
found = record {
  passing =
      "FileVault encryption enabled" ∷ "Device checked in recently" ∷ "No critical updates pending"
      ∷ [];
  failing = "Firewall enabled" ∷ [];
  unknown = "Gatekeeper enabled" ∷ "Screen lock enabled" ∷ [];
}

tally_lists_example :
    (found.passing ≡ labels_with 300 0 laptop is_pass iso27001_rules)
    × (found.failing ≡ labels_with 300 0 laptop is_fail iso27001_rules)
    × (found.unknown ≡ labels_with 300 0 laptop is_unknown iso27001_rules)
unfolding tally judge flag_verdict at_most age_verdict add_verdict label
tally_lists_example = tally_lists 300 0 laptop iso27001_rules found refl

status_of_tally_example :
    is_non_compliant (tally_status found) ≡ some_rule_fails 300 0 laptop iso27001_rules
unfolding tally judge flag_verdict at_most age_verdict add_verdict label
status_of_tally_example = status_of_tally 300 0 laptop iso27001_rules found refl

evaluated_device_example :
    (evaluate_device_all_policies 300 laptop office).1.devices
    ≡ update_where
        (has_id "d1")
        (marked 300 laptop
          (some_policy_fails 300 laptop (critical_count "d1" office) (policy ∷ [])))
        office.devices
unfolding evaluate_device_all_policies evaluate_against evaluate_policies evaluate_device
    upsert_result write_result tally judge flag_verdict at_most age_verdict add_verdict
    set_compliance one_or_none
evaluated_device_example = evaluated_device 300 laptop office policy [] refl refl

iso27001_fails_example : some_rule_fails 300 2 laptop iso27001_rules ≡ (
    is_off laptop.is_encrypted
    || (is_off laptop.firewall_enabled
        || (is_off laptop.gatekeeper_enabled
            || (is_stale 48 300 laptop.last_checkin
                || (ltb 0 2 || is_off laptop.screen_lock_enabled)))))
iso27001_fails_example = iso27001_fails 300 2 laptop

pci_dss_fails_example : some_rule_fails 300 2 laptop pci_dss_rules ≡ (
    is_off laptop.is_encrypted
    || (is_off laptop.firewall_enabled
        || (is_off laptop.gatekeeper_enabled
            || (is_stale 24 300 laptop.last_checkin
                || (ltb 0 2 || is_off laptop.screen_lock_enabled)))))
pci_dss_fails_example = pci_dss_fails 300 2 laptop

seed_twice_example :
    seed_default_policies 20 "t2" (seed_default_policies 10 "t2" office).1
    ≡ (ok [], (seed_default_policies 10 "t2" office).1)
seed_twice_example = seed_twice 10 20 "t2" office

evaluation_keeps_one_result_example :
    HasOneResult (evaluate_device_all_policies 300 laptop office).1
evaluation_keeps_one_result_example =
    evaluation_keeps_one_result 300 laptop office (λ d p. omega arith)
