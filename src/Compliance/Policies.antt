-- ===== src/Compliance/Policies.antt =====
-- app/api/routes/compliance.py: the routes on policies, and the views of a fleet and of a device. The
-- change of a policy, whose time of change depends on what differs, and the CSV file are left out.
use mdm_saa_s.Common.{
  ℕ, String, Bool, true, false, not, ◌&&◌, ◌||◌, Option, none, some, List, [], ◌∷◌, ◌++◌, ◌==◌,
  select, delete_where, count, length, sort_by,
}
use mdm_saa_s.Models.{
  Tenant, Device, CompliancePolicy, ComplianceResult, ComplianceStatus, Rules, flag, number,
  is_non_compliant, is_enrolled_device,
}
use mdm_saa_s.Database.{
  Action, http, pure, raise, lift, gets, modify, new_uuid, ◌>>=◌, ◌>>◌, one_or_none,
}
use mdm_saa_s.Compliance.Evaluation.{evaluate_device}
use mdm_saa_s.Compliance.Seed.{seed_default_policies}
use mdm_saa_s.Devices.Handlers.{get_device}

-- The numbers are those that are not negative.
pub record PolicyRules : Type 0 where
  pub filevault_required : Bool
  pub firewall_required : Bool
  pub gatekeeper_required : Bool
  pub max_checkin_age_hours : ℕ
  pub critical_updates_allowed : ℕ
  pub psso_required : Bool
  pub screen_lock_required : Bool

-- model_dump: the fields in their order.
unfoldable pub model_dump : PolicyRules → Rules
model_dump r =
    ("filevault_required", flag r.filevault_required)
    ∷ ("firewall_required", flag r.firewall_required)
    ∷ ("gatekeeper_required", flag r.gatekeeper_required)
    ∷ ("max_checkin_age_hours", number r.max_checkin_age_hours)
    ∷ ("critical_updates_allowed", number r.critical_updates_allowed)
    ∷ ("psso_required", flag r.psso_required)
    ∷ ("screen_lock_required", flag r.screen_lock_required)
    ∷ []

pub record CreatePolicyRequest : Type 0 where
  pub name : String
  pub framework : String
  pub description : Option String
  pub rules : PolicyRules

pub record FleetSummary : Type 0 where
  pub total_devices : ℕ
  pub compliant : ℕ
  pub non_compliant : ℕ
  pub unknown : ℕ
  pub policies : List CompliancePolicy

abbrev pub is_compliant : ComplianceStatus → Bool
is_compliant ComplianceStatus.compliant = true
is_compliant _ = false

module _ (now : ℕ) (tenant : Tenant) where
  abbrev policies_of_tenant : Action (List CompliancePolicy)
  policies_of_tenant = gets (λ s. select (λ p. p.tenant_id == tenant.id) s.policies)

  abbrev enrolled_devices : Action (List Device)
  enrolled_devices =
      gets (λ s. select (λ d. d.tenant_id == tenant.id && is_enrolled_device d.status) s.devices)

  unfoldable pub list_policies : Action (List CompliancePolicy)
  unfolding seed_default_policies
  list_policies = do
    seed_default_policies now tenant.id
    policies ← policies_of_tenant
    pure (sort_by (λ p. p.created_at) policies)

  unfoldable pub create_policy : CreatePolicyRequest → Action CompliancePolicy
  unfolding model_dump
  create_policy body = do
    id ← new_uuid
    let policy : CompliancePolicy = record {
      id = id;
      tenant_id = tenant.id;
      name = body.name;
      framework = body.framework;
      description = body.description;
      rules = model_dump body.rules;
      is_active = true;
      created_at = now;
      updated_at = now;
    }
    modify (λ s. record s { policies = s.policies ++ policy ∷ [] })
    pure policy

  -- The lookup that the routes on one policy begin with.
  unfoldable pub find_policy : String → Action CompliancePolicy
  unfolding one_or_none
  find_policy policy_id = do
    found ← gets (λ s. select (λ p. p.id == policy_id && p.tenant_id == tenant.id) s.policies)
    policy ← lift (one_or_none found)
    elim policy [ none ↦ raise (http 404) | some p ↦ pure p ]

  -- The results of the policy go along.
  unfoldable pub delete_policy : String → Action Unit
  unfolding find_policy
  delete_policy policy_id = do
    policy ← find_policy policy_id
    modify (λ s. record s {
      policies = delete_where (λ p. p.id == policy.id) s.policies;
      results = delete_where (λ r. r.policy_id == policy.id) s.results;
    })

  unfoldable pub evaluate_each : CompliancePolicy → List Device → Action Unit
  unfolding evaluate_device
  evaluate_each policy [] = pure tt
  evaluate_each policy (d ∷ ds) = do evaluate_device now d policy; evaluate_each policy ds

  -- Returns the number of evaluated devices and the name of the policy.
  unfoldable pub evaluate_policy : String → Action (ℕ × String)
  unfolding find_policy evaluate_each
  evaluate_policy policy_id = do
    policy ← find_policy policy_id
    devices ← enrolled_devices
    evaluate_each policy devices
    pure (length devices, policy.name)

  unfoldable pub fleet_summary : Action FleetSummary
  unfolding seed_default_policies
  fleet_summary = do
    seed_default_policies now tenant.id
    devices ← enrolled_devices
    policies ← policies_of_tenant
    pure (record {
      total_devices = length devices;
      compliant = count (λ d. is_compliant d.compliance_status) devices;
      non_compliant = count (λ d. is_non_compliant d.compliance_status) devices;
      unknown =
          count
            (λ d. not (is_compliant d.compliance_status || is_non_compliant d.compliance_status))
            devices;
      policies = policies;
    })

  -- The device, which names it and has its overall status, with its results.
  unfoldable pub device_compliance : String → Action (Device × List ComplianceResult)
  unfolding get_device
  device_compliance device_id = do
    device ← get_device device_id tenant
    results ←
        gets (λ s. select (λ r. r.device_id == device_id && r.tenant_id == tenant.id) s.results)
    pure (device, results)
