-- ===== src/Billing/Refinement.antt =====
-- The handler of events implements the machine on accounts.
use mathlib.Core.Path.{fun_ext}
use mdm_saa_s.Common.{
  ◌≡◌, refl, ap, String, Bool, true, Option, some, List, [], ◌∷◌, ◌==◌, inl, inr, present, get_or,
  update_where, Bool-cases, arith, if◌then◌else◌, eq_iff,
}
use mdm_saa_s.Models.{Tenant}
use mdm_saa_s.Database.{Db, Result, ok, err, ◌>>=◌, lift}
use mdm_saa_s.Billing.Events.{
  Subscription, StripeEvent, checkout_completed, subscription_updated, subscription_deleted,
  payment_failed, other, epoch_to_dt, has_tenant_id, canceled, past_due, activate_plan,
  checked_out_subscription, handle_event,
}
use mdm_saa_s.Billing.Accounts.{
  Account, map_option, account, tenant_of, accounts, change, change_all, belongs_to, opened, closed,
  overdue, checkout, account_step,
}

-- An UPDATE of one tenant changes one account.
module _ (f : Tenant → Tenant) (g : Account → Account)
    (h : (t : Tenant) → account (f t) ≡ g (account t)) (k : (t : Tenant) → (f t).id ≡ t.id)
    (x : String) where
  here :
      (t : Tenant) (id : String)
      → (t.id == id) ≡ true
      → map_option account (some (if t.id == x then f t else t))
        ≡ (if id == x then some (g (account t)) else some (account t))
  here t id e =
      let same : (t.id == x) ≡ (id == x) = ap (λ i. i == x) ((eq_iff t.id id).0 e) in
      elim (Bool-cases (id == x)) [ inl y ↦ ground (arith, h t) | inr y ↦ ground (arith, h t) ]

  changed :
      (ts : List Tenant) (id : String)
      → map_option account (tenant_of (update_where (has_tenant_id x) f ts) id) ≡ (
          if id == x
          then map_option g (map_option account (tenant_of ts id))
          else map_option account (tenant_of ts id))
  changed [] id = ground arith
  changed (t ∷ ts) id = ground (arith, k t, h t, here t id, changed ts id)

module _ (q : Account → Bool) (g : Account → Account) (p : Tenant → Bool) (f : Tenant → Tenant)
    (hp : (t : Tenant) → p t ≡ q (account t)) (h : (t : Tenant) → account (f t) ≡ g (account t))
    (k : (t : Tenant) → (f t).id ≡ t.id) where
  changed_all :
      (ts : List Tenant) (id : String)
      → map_option account (tenant_of (update_where p f ts) id)
        ≡ map_option (λ a. if q a then g a else a) (map_option account (tenant_of ts id))
  changed_all [] id = refl
  changed_all (t ∷ ts) id = ground (arith, k t, h t, hp t, changed_all ts id)

-- The pointwise changes of the tables, as functions on accounts.
changed_account :
    (f : Tenant → Tenant) (g : Account → Account)
    → ((t : Tenant) → account (f t) ≡ g (account t))
    → ((t : Tenant) → (f t).id ≡ t.id)
    → (x : String) (s : Db)
    → accounts (record s { tenants = update_where (has_tenant_id x) f s.tenants })
      ≡ change x g (accounts s)
unfolding accounts
changed_account f g h k x s = fun_ext (λ id. changed f g h k x s.tenants id)

changed_accounts :
    (q : Account → Bool) (g : Account → Account) (p : Tenant → Bool) (f : Tenant → Tenant)
    → ((t : Tenant) → p t ≡ q (account t))
    → ((t : Tenant) → account (f t) ≡ g (account t))
    → ((t : Tenant) → (f t).id ≡ t.id)
    → (s : Db)
    → accounts (record s { tenants = update_where p f s.tenants }) ≡ change_all q g (accounts s)
unfolding accounts
changed_accounts q g p f hp h k s = fun_ext (λ id. changed_all q g p f hp h k s.tenants id)

module _ (retrieve : String → Result Subscription) where
  checked_out :
      (tenant plan : String) (customer id : Option String) (r : Result Subscription) (s : Db)
      → accounts
          ((lift r >>= λ sub.
              activate_plan tenant plan customer id sub.status (epoch_to_dt sub.trial_end))
            s).1
        ≡ checkout tenant plan customer id r (accounts s)
  unfolding activate_plan
  checked_out tenant plan customer id (ok sub) s =
      changed_account _ (opened plan customer id sub) (λ t. refl) (λ t. refl) tenant s
  checked_out tenant plan customer id (err e) s = refl

  pub handle_event-account_step :
      (e : StripeEvent) (s : Db)
      → accounts (handle_event retrieve e s).1 ≡ account_step retrieve e (accounts s)
  unfolding handle_event account_step
  handle_event-account_step (checkout_completed tenant plan customer id) s =
      elim (Bool-cases (present tenant)) [
        | inl y ↦ rw y (
            checked_out (get_or tenant "") (get_or plan "starter") customer id
              (checked_out_subscription retrieve id) s)
        | inr n ↦ rw n refl
      ]
  handle_event-account_step (subscription_updated tenant plan status trial_end id) s =
      elim (Bool-cases (present tenant)) [
        | inl y ↦ rw y (changed_account _ _ (λ t. refl) (λ t. refl) (get_or tenant "") s)
        | inr n ↦ rw n refl
      ]
  handle_event-account_step (subscription_deleted tenant) s = elim (Bool-cases (present tenant)) [
    | inl y ↦ rw y (changed_account canceled closed (λ t. refl) (λ t. refl) (get_or tenant "") s)
    | inr n ↦ rw n refl
  ]
  handle_event-account_step (payment_failed customer) s = elim (Bool-cases (present customer)) [
    | inl y ↦ rw y (
        changed_accounts (belongs_to (get_or customer "")) overdue _ past_due (λ t. refl)
          (λ t. refl) (λ t. refl) s)
    | inr n ↦ rw n refl
  ]
  handle_event-account_step other s = refl
