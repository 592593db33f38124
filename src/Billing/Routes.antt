-- ===== src/Billing/Routes.antt =====
-- The other routes of app/api/routes/billing.py: checkout, the portal of the payment provider and its
-- webhook. The client of the provider is a parameter: what it returns, or what its calls raise.
use mdm_saa_s.Common.{String, Bool, not, ◌||◌, Option, ◌==◌, truthy, present, get_or, if◌then◌else◌}
use mdm_saa_s.Models.{Tenant, User}
use mdm_saa_s.Database.{Action, Result, ok, err, http, lift, require, ◌>>=◌, ◌>>◌}
use mdm_saa_s.Apple.Profiles.Builder.{◌<>◌}
use mdm_saa_s.Billing.Events.{Subscription, StripeEvent, handle_event}

-- The settings of app/core/config.py that these routes read.
pub record StripeSettings : Type 0 where
  pub stripe_secret_key : String
  pub stripe_webhook_secret : String
  pub stripe_starter_price_id : String
  pub stripe_pro_price_id : String
  pub app_base_url : String

-- What goes into a checkout session besides its constants.
pub record Checkout : Type 0 where
  pub customer : String
  pub price : String
  pub success_url : String
  pub cancel_url : String
  pub tenant_id : String
  pub plan : String

-- The provider: a customer of an e-mail address, a name, a tenant and its slug; the addresses of its
-- pages; a signature that it takes for that of a body; the event of a JSON text.
pub record Stripe : Type 0 where
  pub create_customer : String → String → String → String → Result String
  pub create_session : Checkout → Result String
  pub create_portal : String → String → Result String
  pub retrieve : String → Result Subscription
  pub verify_header : String → Option String → String → Bool
  pub construct : String → Result StripeEvent

module _ (settings : StripeSettings) (client : Stripe) where
  -- PLANS[plan]["stripe_price_id"], for the plans that are sold; "" is None.
  unfoldable pub price_id : String → String
  price_id plan =
      if plan == "starter" then settings.stripe_starter_price_id else settings.stripe_pro_price_id

  -- _stripe_client: the client is there only with a key.
  unfoldable pub stripe_client : Action Unit
  stripe_client = require (truthy settings.stripe_secret_key) (http 503)

  unfoldable pub customer_of : Tenant → User → Result String
  customer_of tenant user =
      if present tenant.stripe_customer_id
      then ok (get_or tenant.stripe_customer_id "")
      else client.create_customer user.email tenant.name tenant.id tenant.slug

  unfoldable pub create_checkout_session : String → Tenant → User → Action String
  unfolding price_id stripe_client customer_of
  create_checkout_session plan tenant user = do
    require (plan == "starter" || plan == "professional") (http 400)
    require (truthy (price_id plan)) (http 503)
    stripe_client
    customer_id ← lift (customer_of tenant user)
    lift (
        client.create_session (record {
          customer = customer_id;
          price = price_id plan;
          success_url = settings.app_base_url <> "/settings?billing=success";
          cancel_url = settings.app_base_url <> "/settings?billing=cancel";
          tenant_id = tenant.id;
          plan = plan;
        }))

  unfoldable pub billing_portal : Tenant → Action String
  unfolding stripe_client
  billing_portal tenant = do
    require (present tenant.stripe_customer_id) (http 400)
    stripe_client
    lift (
        client.create_portal (get_or tenant.stripe_customer_id "")
          (settings.app_base_url <> "/settings"))

  -- The client of the event's handler, which raises 503 without a key.
  unfoldable pub retrieve_with_key : String → Result Subscription
  retrieve_with_key id =
      if truthy settings.stripe_secret_key then client.retrieve id else err (http 503)

  -- The event of a body, checked where a secret is set.
  unfoldable pub received_event : String → Option String → Result StripeEvent
  received_event body signature =
      if not (truthy settings.stripe_webhook_secret)
      then elim (client.construct body) [ ok e ↦ ok e | err _ ↦ err (http 400) ]
      else if client.verify_header body signature settings.stripe_webhook_secret
      then client.construct body
      else err (http 400)

  unfoldable pub stripe_webhook : String → Option String → Action Unit
  unfolding received_event
  stripe_webhook body signature = do
    event ← lift (received_event body signature)
    handle_event retrieve_with_key event
