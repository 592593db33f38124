-- ===== src/Tests/Tenants.antt =====
-- Plans and enrollment at the office.
use Prim.Native.String
use Prim.Native.String.{count}
use text.Mathlib.TextLemmas.{length-append}
use mdm_saa_s.Tenants.Signup.{unique_slug, is_taken}
use mdm_saa_s.Tenants.Slugs.{unique_slug-IsFree}
use mdm_saa_s.Portal.Reviews.{
  approve_software_request, find_request, review, install_command, latest_package, queue_install,
  is_request_of, reject_software_request,
}
use mdm_saa_s.Portal.Once.{Step, Steps, Installs, approved_once}
use mdm_saa_s.Common.{
  ℕ, zero, suc, ap, arith, select, ◌++◌, ◌==◌, some_is, if◌then◌else◌, String, ◌≡◌, refl, true,
  false, none, some, List, [], ◌∷◌,
}
use mdm_saa_s.Models.{ScriptJob, SoftwareRequest, Tenant, EnrollmentToken}
use mdm_saa_s.Database.{Db, Failure, Result, ok, err, http, value_error, one_or_none}
use mdm_saa_s.Auth.Session.{get_current_tenant}
use mdm_saa_s.Billing.Events.{
  Subscription, checkout_completed, subscription_deleted, payment_failed, handle_event, canceled,
}
use mdm_saa_s.Billing.Accounts.{accounts}
use mdm_saa_s.Billing.Routes.{StripeSettings, Stripe}
use mdm_saa_s.Billing.Webhook.{Delivery, authentic_events, deliver, steps, deliveries_refine}
use mdm_saa_s.Enrollment.Tokens.{
  create_enrollment_token, download_enrollment_profile, valid_token, checked_token, is_spent,
  is_expired, token_tenant, serve, push_topic,
}
use mdm_saa_s.Enrollment.Lockout.{canceled_tenant_gets_no_token}
use mdm_saa_s.Enrollment.SingleUse.{enrollment_token_single_use}
use mdm_saa_s.Enrollment.Import.{Texts, CsvRow, serials_of, import_devices_csv}
use mdm_saa_s.Enrollment.Serials.{IsDistinct, import_devices_csv-IsDistinct}
use mdm_saa_s.Tests.Samples.{acme, ada, laptop, office}

abbrev retrieve : String → Result Subscription
retrieve id = ok (record { status = "trialing"; trial_end = some 9 })

abbrev settings : StripeSettings
settings = record {
  stripe_secret_key = "sk_test";
  stripe_webhook_secret = "whsec";
  stripe_starter_price_id = "price_1";
  stripe_pro_price_id = "price_2";
  app_base_url = "http://localhost:3000";
}

-- A provider whose events are named by their bodies.
abbrev stripe : Stripe
stripe = record {
  create_customer = λ email name id slug. ok "cus_1";
  create_session = λ c. ok "https://pay.example/c";
  create_portal = λ customer url. ok "https://pay.example/p";
  retrieve = retrieve;
  verify_header = λ body signature secret. some_is (λ x. x == "good") signature;
  construct = λ body.
      if body == "paid"
      then ok (checkout_completed (some "t1") (some "professional") (some "cus_1") (some "sub_1"))
      else if body == "failed"
      then ok (payment_failed (some "cus_1"))
      else err value_error;
}

abbrev deliveries : List Delivery
deliveries =
    ("paid", some "good")
    ∷ ("failed", some "forged")
    ∷ ("garbage", some "good")
    ∷ ("failed", some "good")
    ∷ []

accepted_events : authentic_events settings stripe deliveries ≡ (
    checkout_completed (some "t1") (some "professional") (some "cus_1") (some "sub_1")
    ∷ payment_failed (some "cus_1")
    ∷ [])
unfolding authentic_events
accepted_events = refl

deliveries_refine_example :
    accounts (deliver settings stripe deliveries office)
    ≡ steps settings stripe (authentic_events settings stripe deliveries) (accounts office)
deliveries_refine_example = deliveries_refine settings stripe deliveries office

abbrev after_cancel : Db
after_cancel = (handle_event retrieve (subscription_deleted (some "t1")) office).1

abbrev canceled_acme : Tenant
canceled_acme = record acme { billing_status = "canceled"; plan_device_limit = 0 }

canceled_tenant_gets_no_token_example :
    create_enrollment_token 5 canceled_acme "macos" false 72 after_cancel
    ≡ (err (http 402), after_cancel)
unfolding get_current_tenant handle_event canceled one_or_none
canceled_tenant_gets_no_token_example =
    canceled_tenant_gets_no_token retrieve "t1" office ada canceled_acme 5 72 "macos" false refl
      refl refl

abbrev ticket : EnrollmentToken
ticket = record {
  id = "e1";
  tenant_id = "t1";
  token = "secret";
  platform = "macos";
  enroll_type = "manual";
  reusable = false;
  used = false;
  expires_at = some 900;
  created_at = 0;
}

abbrev ticket_office : Db
ticket_office = record office { enrollment_tokens = ticket ∷ [] }

enrollment_token_single_use_example :
    (download_enrollment_profile 20 "secret" true false
      (download_enrollment_profile 10 "secret" false false ticket_office).1).0
    ≡ err (http 410)
unfolding download_enrollment_profile valid_token checked_token is_spent is_expired token_tenant
    serve push_topic one_or_none
enrollment_token_single_use_example =
    enrollment_token_single_use "secret" 10 20 false false true false acme "com.apple.mgmt.acme"
      ticket_office (refl, tt) refl

abbrev texts : Texts
texts = record { strip = λ s. s; upper = λ s. s; lower = λ s. s }

abbrev csv_row : CsvRow
csv_row = record {
  serial_number = some "C03";
  hostname = none;
  model = none;
  platform = some "linux";
}

abbrev one_laptop : Db
one_laptop = record office { devices = laptop ∷ [] }

import_devices_csv_example :
    IsDistinct texts acme
      (import_devices_csv texts acme (some (csv_row ∷ csv_row ∷ [])) one_laptop).1
unfolding serials_of
import_devices_csv_example =
    import_devices_csv-IsDistinct texts acme (some (csv_row ∷ csv_row ∷ [])) one_laptop (refl, tt)

-- A print of numbers that tells them apart.
strokes : ℕ → String
strokes zero = ""
strokes (suc n) = String.◌++◌ "1" (strokes n)

count-strokes : (n : ℕ) → count (strokes n) ≡ n
unfolding strokes
count-strokes zero = refl
count-strokes (suc n) = omega (arith, length-append "1" (strokes n), one_stroke, count-strokes n)
  where
    one_stroke : count "1" ≡ 1
    one_stroke = refl

strokes-injective : (m n : ℕ) → strokes m ≡ strokes n → m ≡ n
strokes-injective m n h = omega (arith, ap (count) h, count-strokes m, count-strokes n)

unique_slug_example :
    (slug : String) × (unique_slug strokes "acme" office.tenants ≡ some slug)
    × (is_taken slug office.tenants ≡ false)
unique_slug_example = unique_slug-IsFree strokes "acme" strokes-injective office.tenants

abbrev wish : SoftwareRequest
wish = record {
  id = "q1";
  tenant_id = "t1";
  device_id = "d1";
  requester_name = "Ada";
  software_name = "Zoom";
  software_pkg_url = none;
  reason = none;
  status = "pending";
  reviewed_by_id = none;
  script_job_id = none;
  created_at = 0;
  updated_at = 0;
}

abbrev shop : Db
shop = record office { software_requests = wish ∷ [] }

abbrev same : String → String
same s = s

abbrev approved_shop : Db
approved_shop = (approve_software_request same "https://mdm" 5 acme ada "q1" shop).1

abbrev rejected_shop : Db
rejected_shop = (reject_software_request acme ada "q1" approved_shop).1

approved_once_example :
    ((r : SoftwareRequest) × (command : String) × (j : ScriptJob) × (select
          (is_request_of "q1" acme)
          shop.software_requests
        ≡ r ∷ [])
      × ((r.status == "pending") ≡ true)
      × (install_command "https://mdm" acme r shop ≡ some command)
      × (approved_shop.script_jobs ≡ shop.script_jobs ++ j ∷ [])
      × Installs acme r command "fresh" j)
    × ((e : Failure) × ((approve_software_request same "https://mdm" 6 acme ada "q1"
            rejected_shop).0
          ≡ err e))
unfolding approve_software_request find_request review install_command latest_package queue_install
    one_or_none
approved_once_example =
    approved_once same "https://mdm" acme 5 6 ada ada "q1" "fresh" shop rejected_shop refl
      (Steps.next _ _ _ (Step.reject acme ada "q1" approved_shop) (Steps.done rejected_shop))
