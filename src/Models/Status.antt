-- ===== src/Models/Status.antt =====
-- The vocabularies of the status columns of app/db/models.py, as the handlers write them, and the
-- tests that the handlers make on them.
use mathlib.Core.Bool.{Bool, true, false}

-- `Device.status`
pub data DeviceStatus : Type 0 where
  pending enrolled authenticating unenrolled wiped spare token_expired : DeviceStatus

-- `Device.compliance_status` and `ComplianceResult.status`
pub data ComplianceStatus : Type 0 where
  compliant non_compliant unknown : ComplianceStatus

-- `MdmCommand.status`
pub data CommandState : Type 0 where
  queued sent delivered completed not_now failed : CommandState

-- `ScriptJob.status`
pub data JobStatus : Type 0 where
  pending running completed failed : JobStatus

-- `AdminAccessRequest.status`
pub data RequestStatus : Type 0 where
  pending approved denied revoked expired : RequestStatus

abbrev pub is_wiped : DeviceStatus → Bool
is_wiped DeviceStatus.wiped = true
is_wiped _ = false

abbrev pub is_non_compliant : ComplianceStatus → Bool
is_non_compliant ComplianceStatus.non_compliant = true
is_non_compliant _ = false

abbrev pub is_queued : CommandState → Bool
is_queued CommandState.queued = true
is_queued _ = false

abbrev pub is_pending_job : JobStatus → Bool
is_pending_job JobStatus.pending = true
is_pending_job _ = false

abbrev pub is_pending : RequestStatus → Bool
is_pending RequestStatus.pending = true
is_pending _ = false

abbrev pub is_approved : RequestStatus → Bool
is_approved RequestStatus.approved = true
is_approved _ = false

abbrev pub is_enrolled_device : DeviceStatus → Bool
is_enrolled_device DeviceStatus.enrolled = true
is_enrolled_device _ = false

abbrev pub is_delivered : CommandState → Bool
is_delivered CommandState.delivered = true
is_delivered _ = false
