-- ===== src/Tenants/Reminder.antt =====
-- app/services/trial_reminder.py: one run of the worker. A run gives the e-mails that it sends: the owner and
-- the name of the tenant. An e-mail that fails is not modelled.
use mdm_saa_s.Common.{
  ℕ, ◌+◌, ◌*◌, String, Bool, not, ◌&&◌, Option, none, some, List, [], ◌∷◌, ◌++◌, ◌==◌, ltb, leb,
  some_is, is_some, head?, select, update_where,
}
use mdm_saa_s.Models.{Tenant, User}
use mdm_saa_s.Database.{Db, Action, pure, gets, ◌>>=◌, ◌>>◌}
use mdm_saa_s.Billing.Events.{on_tenants, has_tenant_id}

abbrev pub reminder_window : ℕ
reminder_window = 24 * 3_600_000_000

unfoldable pub is_ending : ℕ → Tenant → Bool
is_ending now t =
    t.billing_status == "trialing"
    && some_is (λ x. ltb now x && leb x (now + reminder_window)) t.trial_ends_at
    && not (is_some t.trial_reminder_sent_at)

abbrev pub owner_of : Tenant → Db → Option User
owner_of t s = head? (select (λ u. u.tenant_id == t.id && u.role == "owner") s.users)

abbrev pub reminded : ℕ → Tenant → Tenant
reminded now t = record t { trial_reminder_sent_at = some now }

unfoldable pub remind : ℕ → Tenant → Option User → Action (List (String × String))
remind now t none = pure []
remind now t (some owner) = do
  on_tenants (update_where (has_tenant_id t.id) (reminded now))
  pure ((owner.email, t.name) ∷ [])

unfoldable pub remind_all : ℕ → List Tenant → Action (List (String × String))
unfolding remind
remind_all now [] = pure []
remind_all now (t ∷ ts) = do
  owner ← gets (owner_of t)
  sent ← remind now t owner
  rest ← remind_all now ts
  pure (sent ++ rest)

unfoldable pub remind_once : ℕ → Action (List (String × String))
unfolding is_ending remind_all
remind_once now = gets (λ s. select (is_ending now) s.tenants) >>= remind_all now
