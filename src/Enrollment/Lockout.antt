-- ===== src/Enrollment/Lockout.antt =====
-- A tenant at its limit gets no token, and a tenant whose subscription has ended is at its limit.
use mathlib.Core.Path.{subst}
use mdm_saa_s.Common.{
  ℕ, ◌≡◌, refl, ap, String, Bool, true, not, Option, none, some, List, ◌==◌, inl, inr, present,
  select, leb, Bool-cases, arith, if◌then◌else◌, All, All-select, All-selected, All-update_hit,
}
use mdm_saa_s.Models.{Tenant, User}
use mdm_saa_s.Database.{Db, Result, ok, err, http, one_or_none, require}
use mdm_saa_s.Database.Laws.{one_or_none-some, err≢ok, ok-injective, bind-err}
use mdm_saa_s.Billing.Events.{
  Subscription, subscription_deleted, canceled, has_tenant_id, handle_event,
}
use mdm_saa_s.Auth.Session.{get_current_tenant}
use mdm_saa_s.Enrollment.Tokens.{
  device_count, check_device_limit, create_enrollment_token, issue_token,
}

module _ (now : ℕ) (tenant : Tenant) (platform : String) (reusable : Bool) (hours : ℕ)
    (s : Db) where
  limit_reached :
      leb tenant.plan_device_limit (device_count tenant s) ≡ true
      → check_device_limit tenant s ≡ (err (http 402), s)
  unfolding check_device_limit device_count
  limit_reached h = ap (λ b. require (not b) (http 402) s) h

  pub create-limit :
      leb tenant.plan_device_limit (device_count tenant s) ≡ true
      → create_enrollment_token now tenant platform reusable hours s ≡ (err (http 402), s)
  unfolding create_enrollment_token
  create-limit h =
      bind-err (check_device_limit tenant) (λ _. issue_token now tenant platform reusable hours) s
        (http 402) s (limit_reached h)

-- What a found tenant satisfies.
one_tenant :
    (P : Tenant → Type 0) (p : Tenant → Bool) (ts : List Tenant) (t : Tenant)
    → All P ts
    → one_or_none (select p ts) ≡ ok (some t)
    → P t × (p t ≡ true)
one_tenant P p ts t all h =
    let one = one_or_none-some (select p ts) t h in
    (
      (subst (All P) one (All-select P p ts all)).0,
      (subst (All (λ x. p x ≡ true)) one (All-selected p ts)).0,
    )

active_tenant : Result (Option Tenant) → Result Tenant
active_tenant r = elim r [
  | err e ↦ err e
  | ok none ↦ err (http 403)
  | ok (some t) ↦ if t.status == "active" then ok t else err (http 403)
]

active_tenant-ok :
    (r : Result (Option Tenant)) (t : Tenant) → active_tenant r ≡ ok t → r ≡ ok (some t)
unfolding active_tenant
active_tenant-ok (err e) t h = err≢ok h
active_tenant-ok (ok none) t h = err≢ok h
active_tenant-ok (ok (some x)) t h = elim (Bool-cases (x.status == "active")) [
  | inl y ↦ ap {B = Result (Option Tenant)} (λ z. ok (some z)) (ok-injective (rw y at h))
  | inr n ↦ err≢ok (rw n at h)
]

-- Of the identifier, a row of the tenant has limit 0.
abbrev IsLockedOut : String → Tenant → Type 0
IsLockedOut id t = (t.id == id) ≡ true → t.plan_device_limit ≡ 0

limit_0 : (t : Tenant) (n : ℕ) → t.plan_device_limit ≡ 0 → leb t.plan_device_limit n ≡ true
limit_0 t n h = ground arith

module _ (retrieve : String → Result Subscription) (id : String) (s : Db) where
  canceled-IsLockedOut :
      present (some id) ≡ true
      → All (IsLockedOut id) (handle_event retrieve (subscription_deleted (some id)) s).1.tenants
  unfolding handle_event canceled
  canceled-IsLockedOut h = rw h (
      All-update_hit (IsLockedOut id) (has_tenant_id id) canceled s.tenants (λ t e _. refl)
        (λ t e y. ground arith))

  -- After the event that ends a subscription, the tenant of the event gets no enrollment token, whatever else
  -- is in the database.
  pub canceled_tenant_gets_no_token :
      (user : User) (tenant : Tenant) (now hours : ℕ) (platform : String) (reusable : Bool)
      → present (some id) ≡ true
      → user.tenant_id ≡ id
      → get_current_tenant user (handle_event retrieve (subscription_deleted (some id)) s).1
        ≡ ok tenant
      → create_enrollment_token now tenant platform reusable hours
          (handle_event retrieve (subscription_deleted (some id)) s).1
        ≡ (err (http 402), (handle_event retrieve (subscription_deleted (some id)) s).1)
  unfolding get_current_tenant active_tenant
  canceled_tenant_gets_no_token user tenant now hours platform reusable h e current =
      let s' = (handle_event retrieve (subscription_deleted (some id)) s).1 in
      let found =
        active_tenant-ok (one_or_none (select (λ t. t.id == user.tenant_id) s'.tenants)) tenant
          current in
      let (locked, mine) =
        one_tenant (IsLockedOut id) (λ t. t.id == user.tenant_id) s'.tenants tenant
          (canceled-IsLockedOut h) found in
      create-limit now tenant platform reusable hours s' (
        limit_0 tenant (device_count tenant s')
          (locked (subst (λ i. (tenant.id == i) ≡ true) e mine)))
