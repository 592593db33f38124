-- ===== src/Billing/Plans.antt =====
-- The plan catalogue, and what a tenant is told of its plan. Names, prices and features are left out.
use mdm_saa_s.Common.{ℕ, String, Bool, Option, ◌==◌, ltb, some_is, present, if◌then◌else◌}
use mdm_saa_s.Models.{Tenant}

-- PLANS.get(plan, PLANS["starter"])["device_limit"]
unfoldable pub device_limit : String → ℕ
device_limit plan =
    if plan == "trial"
    then 5
    else if plan == "starter"
    then 25
    else if plan == "professional"
    then 100
    else if plan == "enterprise"
    then 999_999
    else 25

pub record BillingStatus : Type 0 where
  pub plan : String
  pub billing_status : String
  pub device_limit : ℕ
  pub trial_ends_at : Option ℕ
  pub trial_expired : Bool
  pub has_stripe : Bool

unfoldable pub billing_status : ℕ → Tenant → BillingStatus
billing_status now tenant = record {
  plan = tenant.plan;
  billing_status = tenant.billing_status;
  device_limit = tenant.plan_device_limit;
  trial_ends_at = tenant.trial_ends_at;
  trial_expired = some_is (λ t. ltb t now) tenant.trial_ends_at;
  has_stripe = present tenant.stripe_customer_id;
}
