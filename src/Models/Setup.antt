-- ===== src/Models/Setup.antt =====
-- The tables of enrollment tokens, of configuration profiles with their versions, of requests for
-- software and of packages.
use mdm_saa_s.Common.{ℕ, String, Bool, Option}
use mdm_saa_s.Models.Devices.{Payload}

pub record EnrollmentToken : Type 0 where
  pub id : String
  pub tenant_id : String
  pub token : String
  pub platform : String
  pub enroll_type : String
  pub reusable : Bool
  pub used : Bool
  pub expires_at : Option ℕ
  pub created_at : ℕ

-- `signed_xml` is a cache that no handler fills.
pub record Profile : Type 0 where
  pub id : String
  pub tenant_id : String
  pub name : String
  pub kind : String
  pub platform : String
  pub payload : Payload
  pub signed_xml : Option String
  pub status : String
  pub created_at : ℕ

pub record ProfileVersion : Type 0 where
  pub id : String
  pub profile_id : String
  pub tenant_id : String
  pub version : ℕ
  pub payload_snapshot : Payload
  pub changed_by_id : Option String
  pub change_note : Option String
  pub created_at : ℕ

-- What users ask for in the self-service portal.
pub record SoftwareRequest : Type 0 where
  pub id : String
  pub tenant_id : String
  pub device_id : String
  pub requester_name : String
  pub software_name : String
  pub software_pkg_url : Option String
  pub reason : Option String
  pub status : String
  pub reviewed_by_id : Option String
  pub script_job_id : Option String
  pub created_at : ℕ
  pub updated_at : ℕ

pub record SoftwarePackage : Type 0 where
  pub id : String
  pub tenant_id : String
  pub name : String
  pub version : Option String
  pub description : Option String
  pub filename : String
  pub file_path : String
  pub file_size : Option ℕ
  pub pkg_type : String
  pub uploaded_by_id : Option String
  pub uploaded_at : ℕ
