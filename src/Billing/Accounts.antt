-- ===== src/Billing/Accounts.antt =====
-- An abstract account for each tenant, and the events as changes to a function from identifiers.
use mdm_saa_s.Common.{
  ℕ, String, Bool, Option, none, some, List, [], ◌∷◌, ◌==◌, some_is, present, get_or, select, head?,
  if◌then◌else◌,
}
use mdm_saa_s.Models.{Tenant}
use mdm_saa_s.Database.{Db, Result, ok, err}
use mdm_saa_s.Billing.Plans.{device_limit}
use mdm_saa_s.Billing.Events.{
  Subscription, StripeEvent, checkout_completed, subscription_updated, subscription_deleted,
  payment_failed, other, epoch_to_dt, has_tenant_id, checked_out_subscription,
}

-- What billing knows of a tenant.
pub record Account : Type 0 where
  pub plan : String
  pub status : String
  pub limit : ℕ
  pub trial_ends_at : Option ℕ
  pub customer : Option String
  pub subscription : Option String

abbrev pub Accounts : Type 0
Accounts = String → Option Account

abbrev pub map_option : {A B : Type 0} → (A → B) → Option A → Option B
map_option f none = none
map_option f (some a) = some (f a)

abbrev pub account : Tenant → Account
account t = record {
  plan = t.plan;
  status = t.billing_status;
  limit = t.plan_device_limit;
  trial_ends_at = t.trial_ends_at;
  customer = t.stripe_customer_id;
  subscription = t.stripe_subscription_id;
}

abbrev pub tenant_of : List Tenant → String → Option Tenant
tenant_of ts id = head? (select (has_tenant_id id) ts)

-- The view of a database: an account for each stored tenant.
unfoldable pub accounts : Db → Accounts
accounts s id = map_option account (tenant_of s.tenants id)

-- Changing the account of one tenant.
abbrev pub change : String → (Account → Account) → Accounts → Accounts
change tenant f accs id = if id == tenant then map_option f (accs id) else accs id

-- Changing every account of which a test holds.
abbrev pub change_all : (Account → Bool) → (Account → Account) → Accounts → Accounts
change_all p f accs id = map_option (λ a. if p a then f a else a) (accs id)

abbrev pub belongs_to : String → Account → Bool
belongs_to customer a = some_is (λ c. c == customer) a.customer

abbrev pub opened : String → Option String → Option String → Subscription → Account → Account
opened plan customer subscription sub a = record {
  plan = plan;
  status = sub.status;
  limit = device_limit plan;
  trial_ends_at = epoch_to_dt sub.trial_end;
  customer = customer;
  subscription = subscription;
}

abbrev pub extended : String → String → Option ℕ → Option String → Account → Account
extended plan status trial_end id a = record a {
  plan = plan;
  status = status;
  limit = device_limit plan;
  trial_ends_at = epoch_to_dt trial_end;
  subscription = id;
}

abbrev pub closed : Account → Account
closed a = record a { status = "canceled"; limit = 0; trial_ends_at = none; subscription = none }

abbrev pub checkout :
    String → String → Option String → Option String → Result Subscription → Accounts → Accounts
checkout tenant plan customer id (ok sub) accs = change tenant (opened plan customer id sub) accs
checkout tenant plan customer id (err e) accs = accs

abbrev pub overdue : Account → Account
overdue a = record a { status = "past_due" }

module _ (retrieve : String → Result Subscription) where
  -- The abstract machine. An event that the provider cannot complete changes nothing.
  unfoldable pub account_step : StripeEvent → Accounts → Accounts
  account_step (checkout_completed tenant plan customer id) accs =
      if present tenant
      then checkout (get_or tenant "") (get_or plan "starter") customer id
          (checked_out_subscription retrieve id) accs
      else accs
  account_step (subscription_updated tenant plan status trial_end id) accs =
      if present tenant
      then change (get_or tenant "")
          (extended (get_or plan "starter") (get_or status "active") trial_end id) accs
      else accs
  account_step (subscription_deleted tenant) accs =
      if present tenant then change (get_or tenant "") closed accs else accs
  account_step (payment_failed customer) accs =
      if present customer then change_all (belongs_to (get_or customer "")) overdue accs else accs
  account_step other accs = accs

  unfoldable pub account_steps : List StripeEvent → Accounts → Accounts
  account_steps [] accs = accs
  account_steps (e ∷ es) accs = account_steps es (account_step e accs)
