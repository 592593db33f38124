-- ===== src/Billing/Webhook.antt =====
-- Deliveries at the webhook, as changes to the abstract accounts.
use mdm_saa_s.Common.{
  ◌≡◌, refl, sym, ap, ◌∙◌, String, Bool, not, ◌||◌, Option, List, [], ◌∷◌, truthy, present, get_or,
  inl, inr, Bool-cases, if◌then◌else◌,
}
use mdm_saa_s.Database.{Db, Action, Result, ok, err, get_db, ◌>>=◌, lift}
use mdm_saa_s.Database.Laws.{Result-cases}
use mdm_saa_s.Billing.Events.{
  Subscription, StripeEvent, checkout_completed, subscription_updated, subscription_deleted,
  payment_failed, other, epoch_to_dt, activate_plan, checked_out_subscription, handle_event,
}
use mdm_saa_s.Billing.Accounts.{Accounts, accounts, account_steps}
use mdm_saa_s.Billing.Routes.{
  StripeSettings, Stripe, retrieve_with_key, received_event, stripe_webhook,
}
use mdm_saa_s.Billing.Refinement.{handle_event-account_step}

-- A body with its signature.
abbrev pub Delivery : Type 0
Delivery = String × Option String

-- An event that raises has written nothing to the tenants, so that a rollback takes nothing back.
module _ (retrieve : String → Result Subscription) where
  rolled_back :
      (tenant plan : String) (customer id : Option String) (r : Result Subscription) (s : Db)
      → let run : Action Unit = lift r >>= λ sub.
          activate_plan tenant plan customer id sub.status (epoch_to_dt sub.trial_end) in
        accounts (get_db run s).1 ≡ accounts (run s).1
  unfolding get_db activate_plan accounts
  rolled_back tenant plan customer id (ok sub) s = refl
  rolled_back tenant plan customer id (err e) s = refl

  get_db-handle_event :
      (e : StripeEvent) (s : Db)
      → accounts (get_db (handle_event retrieve e) s).1 ≡ accounts (handle_event retrieve e s).1
  unfolding get_db handle_event accounts
  get_db-handle_event (checkout_completed tenant plan customer id) s =
      elim (Bool-cases (present tenant)) [
        | inl y ↦ rw y (
            rolled_back (get_or tenant "") (get_or plan "starter") customer id
              (checked_out_subscription retrieve id) s)
        | inr n ↦ rw n refl
      ]
  get_db-handle_event (subscription_updated tenant plan status trial_end id) s =
      elim (Bool-cases (present tenant)) [ inl y ↦ rw y refl | inr n ↦ rw n refl ]
  get_db-handle_event (subscription_deleted tenant) s = elim (Bool-cases (present tenant)) [
    | inl y ↦ rw y refl
    | inr n ↦ rw n refl
  ]
  get_db-handle_event (payment_failed customer) s = elim (Bool-cases (present customer)) [
    | inl y ↦ rw y refl
    | inr n ↦ rw n refl
  ]
  get_db-handle_event other s = refl

module _ (settings : StripeSettings) (client : Stripe) where
  -- Without a secret every body counts as the provider's.
  abbrev pub is_authentic : Delivery → Bool
  is_authentic (body, signature) =
      not (truthy settings.stripe_webhook_secret)
      || client.verify_header body signature settings.stripe_webhook_secret

  abbrev pub readable : Result StripeEvent → List StripeEvent → List StripeEvent
  readable (ok e) es = e ∷ es
  readable (err _) es = es

  -- The events that authentic deliveries carry, in their order.
  unfoldable pub authentic_events : List Delivery → List StripeEvent
  authentic_events [] = []
  authentic_events (d ∷ ds) =
      let rest = authentic_events ds in
      if is_authentic d then readable (client.construct d.0) rest else rest

  -- One delivery after another, each in its own session.
  unfoldable pub deliver : List Delivery → Db → Db
  deliver [] s = s
  deliver ((body, signature) ∷ ds) s =
      deliver ds (get_db (stripe_webhook settings client body signature) s).1

  abbrev pub steps : List StripeEvent → Accounts → Accounts
  steps = account_steps (retrieve_with_key settings client)

  one_event :
      (e : StripeEvent) (rest : List StripeEvent) (s : Db)
      → steps (e ∷ rest) (accounts s)
        ≡ steps rest (accounts (get_db (handle_event (retrieve_with_key settings client) e) s).1)
  unfolding account_steps
  one_event e rest s = ap (steps rest) (
      sym (handle_event-account_step (retrieve_with_key settings client) e s)
      ∙ sym (get_db-handle_event (retrieve_with_key settings client) e s))

  one_result :
      (r : Result StripeEvent) (rest : List StripeEvent) (s : Db)
      → steps (readable r rest) (accounts s)
        ≡ steps rest (
            accounts
              (get_db (lift r >>= λ e. handle_event (retrieve_with_key settings client) e) s).1)
  unfolding get_db accounts
  one_result (ok e) rest s = one_event e rest s
  one_result (err f) rest s = refl

  readable-received_event :
      (d : Delivery) (rest : List StripeEvent)
      → (if is_authentic d then readable (client.construct d.0) rest else rest)
        ≡ readable (received_event settings client d.0 d.1) rest
  unfolding received_event
  readable-received_event d rest = elim (Bool-cases (truthy settings.stripe_webhook_secret)) [
    | inl y ↦ elim (Bool-cases (client.verify_header d.0 d.1 settings.stripe_webhook_secret)) [
      | inl v ↦ rw (y, v) refl
      | inr v ↦ rw (y, v) refl
    ]
    | inr n ↦ elim (Result-cases (client.construct d.0)) [
      | inl (e, q) ↦ rw (n, q) refl
      | inr (f, q) ↦ rw (n, q) refl
    ]
  ]

  pub deliveries_refine :
      (ds : List Delivery) (s : Db)
      → accounts (deliver ds s) ≡ steps (authentic_events ds) (accounts s)
  unfolding deliver authentic_events account_steps stripe_webhook
  deliveries_refine [] s = refl
  deliveries_refine (d ∷ ds) s =
      deliveries_refine ds (get_db (stripe_webhook settings client d.0 d.1) s).1
      ∙ sym (
          ap (λ es. steps es (accounts s)) (readable-received_event d (authentic_events ds))
          ∙ one_result (received_event settings client d.0 d.1) (authentic_events ds) s)
