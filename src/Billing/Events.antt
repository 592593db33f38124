-- ===== src/Billing/Events.antt =====
-- _handle_event and _activate_plan: what an event of the payment provider does to a tenant. `retrieve`
-- stands for the provider's `subscriptions.retrieve`: the status and the end of the trial, or what it
-- raises. Event objects are given by the keys that the handler reads; a missing key is `none`.
use mdm_saa_s.Common.{
  ℕ, zero, suc, ◌*◌, String, Bool, Option, none, some, List, ◌==◌, some_is, present, get_or,
  update_where, if◌then◌else◌,
}
use mdm_saa_s.Models.{Tenant}
use mdm_saa_s.Database.{Action, Result, pure, lift, modify, ◌>>=◌}
use mdm_saa_s.Billing.Plans.{device_limit}

pub record Subscription : Type 0 where
  pub status : String
  pub trial_end : Option ℕ

pub data StripeEvent : Type 0 where
  -- tenant, plan, customer, subscription
  checkout_completed : Option String → Option String → Option String → Option String → StripeEvent
  -- tenant, plan, status, end of the trial, subscription
  subscription_updated :
      Option String → Option String → Option String → Option ℕ → Option String → StripeEvent
  -- tenant
  subscription_deleted : Option String → StripeEvent
  -- customer
  payment_failed : Option String → StripeEvent
  other : StripeEvent

-- Seconds, which are microseconds here; 0 is falsy.
unfoldable pub epoch_to_dt : Option ℕ → Option ℕ
epoch_to_dt none = none
epoch_to_dt (some zero) = none
epoch_to_dt (some (suc n)) = some (suc n * 1_000_000)

abbrev pub on_tenants : (List Tenant → List Tenant) → Action Unit
on_tenants f = modify (λ s. record s { tenants = f s.tenants })

abbrev pub has_tenant_id : String → Tenant → Bool
has_tenant_id id t = t.id == id

-- The UPDATE statements, on one row.
unfoldable pub activated :
    String → Option String → Option String → String → Option ℕ → Tenant → Tenant
activated plan customer_id subscription_id status trial_ends_at t = record t {
  plan = plan;
  billing_status = status;
  plan_device_limit = device_limit plan;
  trial_ends_at = trial_ends_at;
  trial_reminder_sent_at = none;
  stripe_customer_id = customer_id;
  stripe_subscription_id = subscription_id;
}

unfoldable pub renewed : String → String → Option ℕ → Option String → Tenant → Tenant
renewed plan status trial_end subscription_id t = record t {
  plan = plan;
  billing_status = status;
  plan_device_limit = device_limit plan;
  trial_ends_at = epoch_to_dt trial_end;
  trial_reminder_sent_at = none;
  stripe_subscription_id = subscription_id;
}

unfoldable pub canceled : Tenant → Tenant
canceled t = record t {
  billing_status = "canceled";
  plan_device_limit = 0;
  trial_ends_at = none;
  stripe_subscription_id = none;
}

unfoldable pub past_due : Tenant → Tenant
past_due t = record t { billing_status = "past_due" }

unfoldable pub activate_plan :
    String → String → Option String → Option String → String → Option ℕ → Action Unit
unfolding activated
activate_plan tenant_id plan customer_id subscription_id status trial_ends_at = on_tenants (
    update_where (has_tenant_id tenant_id)
      (activated plan customer_id subscription_id status trial_ends_at))

module _ (retrieve : String → Result Subscription) where
  -- The subscription that a checkout session has created, or the default without one.
  unfoldable pub checked_out_subscription : Option String → Result Subscription
  checked_out_subscription id =
      if present id
      then retrieve (get_or id "")
      else Result.ok (record { status = "active"; trial_end = none })

  unfoldable pub handle_event : StripeEvent → Action Unit
  unfolding activate_plan renewed canceled past_due epoch_to_dt checked_out_subscription
  handle_event (checkout_completed tenant_id plan customer subscription) =
      if present tenant_id
      then (do
        sub ← lift (checked_out_subscription subscription)
        activate_plan (get_or tenant_id "") (get_or plan "starter") customer subscription sub.status
            (epoch_to_dt sub.trial_end))
      else pure tt
  handle_event (subscription_updated tenant_id plan status trial_end id) =
      if present tenant_id
      then on_tenants (
          update_where (has_tenant_id (get_or tenant_id ""))
            (renewed (get_or plan "starter") (get_or status "active") trial_end id))
      else pure tt
  handle_event (subscription_deleted tenant_id) =
      if present tenant_id
      then on_tenants (update_where (has_tenant_id (get_or tenant_id "")) canceled)
      else pure tt
  handle_event (payment_failed customer) =
      if present customer
      then on_tenants
          (update_where (λ t. some_is (λ c. c == get_or customer "") t.stripe_customer_id) past_due)
      else pure tt
  handle_event other = pure tt
