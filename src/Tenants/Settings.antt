-- ===== src/Tenants/Settings.antt =====
-- update_tenant of app/api/routes/tenant.py: the values that the request gives.
use mdm_saa_s.Common.{String, Option, none, some, get_or, update_where}
use mdm_saa_s.Models.{Tenant}
use mdm_saa_s.Database.{Action, pure, ◌>>◌}
use mdm_saa_s.Billing.Events.{on_tenants, has_tenant_id}

pub record TenantUpdate : Type 0 where
  pub name : Option String
  pub apns_cert_arn : Option String
  pub apns_key_arn : Option String
  pub apns_push_topic : Option String
  pub entra_tenant_id : Option String
  pub entra_client_id : Option String

abbrev given_value : Option String → Option String → Option String
given_value none old = old
given_value (some x) old = some x

unfoldable pub with_values : TenantUpdate → Tenant → Tenant
with_values body t = record t {
  name = get_or body.name t.name;
  apns_cert_arn = given_value body.apns_cert_arn t.apns_cert_arn;
  apns_key_arn = given_value body.apns_key_arn t.apns_key_arn;
  apns_push_topic = given_value body.apns_push_topic t.apns_push_topic;
  entra_tenant_id = given_value body.entra_tenant_id t.entra_tenant_id;
  entra_client_id = given_value body.entra_client_id t.entra_client_id;
}

-- Without values the statement is not sent, and would change nothing.
unfoldable pub update_tenant : Tenant → TenantUpdate → Action Tenant
unfolding with_values
update_tenant tenant body = do
  on_tenants (update_where (has_tenant_id tenant.id) (with_values body))
  pure (with_values body tenant)
