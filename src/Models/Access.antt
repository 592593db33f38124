-- ===== src/Models/Access.antt =====
-- The tables of admin access requests, compliance policies and results, and device groups.
use mdm_saa_s.Common.{ℕ, String, Bool, Option, List}
use mdm_saa_s.Models.Status.{RequestStatus, ComplianceStatus}

pub record AdminAccessRequest : Type 0 where
  pub id : String
  pub tenant_id : String
  pub device_id : String
  pub device_user_id : String
  pub requested_by_id : String
  pub approved_by_id : Option String
  pub status : RequestStatus
  pub reason : Option String
  pub duration_hours : ℕ
  pub requested_at : ℕ
  pub decided_at : Option ℕ
  pub revoke_at : Option ℕ
  pub revoked_at : Option ℕ

-- A value of the `rules` object: a JSON boolean, a JSON integer that is not negative, or a value
-- that is no number, such as a text.
pub data RuleValue : Type 0 where
  flag : Bool → RuleValue
  number : ℕ → RuleValue
  text : String → RuleValue

-- The order of the entries is the order in which the dict is iterated.
abbrev pub Rules : Type 0
Rules = List (String × RuleValue)

pub record CompliancePolicy : Type 0 where
  pub id : String
  pub tenant_id : String
  pub name : String
  pub framework : String
  pub description : Option String
  pub rules : Rules
  pub is_active : Bool
  pub created_at : ℕ
  pub updated_at : ℕ

pub record ComplianceResult : Type 0 where
  pub id : String
  pub device_id : String
  pub policy_id : String
  pub tenant_id : String
  pub status : ComplianceStatus
  pub passing : List String
  pub failing : List String
  pub unknown : List String
  pub checked_at : ℕ

pub record DeviceGroup : Type 0 where
  pub id : String
  pub tenant_id : String
  pub name : String
  pub description : Option String
  pub color : String
  pub created_at : ℕ

pub record DeviceGroupMember : Type 0 where
  pub id : String
  pub group_id : String
  pub device_id : String
  pub tenant_id : String
  pub added_at : ℕ
