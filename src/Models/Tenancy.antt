-- ===== src/Models/Tenancy.antt =====
-- The tables of tenants, users and their tokens.
use mdm_saa_s.Common.{ℕ, String, Bool, Option}

pub record Tenant : Type 0 where
  pub id : String
  pub name : String
  pub slug : String
  pub plan : String
  pub status : String
  pub apns_cert_arn : Option String
  pub apns_key_arn : Option String
  pub apns_push_topic : Option String
  pub entra_tenant_id : Option String
  pub entra_client_id : Option String
  pub created_at : ℕ
  pub billing_status : String
  pub plan_device_limit : ℕ
  pub trial_ends_at : Option ℕ
  pub trial_reminder_sent_at : Option ℕ
  pub stripe_customer_id : Option String
  pub stripe_subscription_id : Option String

pub record User : Type 0 where
  pub id : String
  pub tenant_id : String
  pub email : String
  pub hashed_password : Option String
  pub role : String
  pub status : String
  pub last_login : Option ℕ
  pub created_at : ℕ
  pub totp_secret : Option String
  pub totp_enabled : Bool

pub record PasswordResetToken : Type 0 where
  pub id : String
  pub user_id : String
  pub token : String
  pub used : Bool
  pub expires_at : ℕ
  pub created_at : ℕ

pub record RevokedToken : Type 0 where
  pub id : String
  pub jti : String
  pub user_id : String
  pub expires_at : ℕ
  pub revoked_at : ℕ

-- Without `changes` and `ip_address`, which the server writes and nothing modelled reads.
pub record AuditLog : Type 0 where
  pub id : String
  pub tenant_id : String
  pub actor_id : Option String
  pub action : String
  pub resource_type : String
  pub resource_id : Option String
  pub created_at : ℕ
