-- ===== src/Database/Session.antt =====
-- The state of one database session, and the actions on it. A handler is an action: it returns the
-- state that it has written also where it raises, and `get_db` of app/db/base.py then commits or
-- rolls back.
use mdm_saa_s.Common.{ℕ, suc, String, Option, none, some, List, [], ◌∷◌, Bool, true, false}
use mdm_saa_s.Models.{
  Tenant, User, PasswordResetToken, RevokedToken, AuditLog, Device, MdmCommand, InstalledApp,
  DeviceUser, DeviceUpdate, ScriptJob, AdminAccessRequest, CompliancePolicy, ComplianceResult,
  DeviceGroup, DeviceGroupMember, EnrollmentToken, Profile, ProfileVersion, SoftwareRequest,
  SoftwarePackage,
}

-- `uuids n` is the n-th value that `uuid.uuid4()`, or the `secrets` module, will return, and `drawn`
-- counts those that have been used.
pub record Db : Type 0 where
  pub tenants : List Tenant
  pub users : List User
  pub reset_tokens : List PasswordResetToken
  pub revoked_tokens : List RevokedToken
  pub audit_logs : List AuditLog
  pub devices : List Device
  pub commands : List MdmCommand
  pub installed_apps : List InstalledApp
  pub device_users : List DeviceUser
  pub device_updates : List DeviceUpdate
  pub script_jobs : List ScriptJob
  pub requests : List AdminAccessRequest
  pub policies : List CompliancePolicy
  pub results : List ComplianceResult
  pub groups : List DeviceGroup
  pub members : List DeviceGroupMember
  pub enrollment_tokens : List EnrollmentToken
  pub profiles : List Profile
  pub profile_versions : List ProfileVersion
  pub software_requests : List SoftwareRequest
  pub software_packages : List SoftwarePackage
  pub uuids : ℕ → String
  pub drawn : ℕ

-- What a handler raises: an HTTPException with its status code, SQLAlchemy's MultipleResultsFound and
-- IntegrityError, a TypeError, a KeyError, a ValueError, and an AttributeError (of None).
pub data Failure : Type 0 where
  http : ℕ → Failure
  many_rows integrity type_error key_error value_error attribute_error : Failure

pub data Result (A : Type 0) : Type 0 where
  ok : A → Result A
  err : Failure → Result A

abbrev pub Action : Type 0 → Type 0
Action A = Db → Result A × Db

module _ {A : Type 0} where
  abbrev pub pure : A → Action A
  pure a s = (ok a, s)

  abbrev pub raise : Failure → Action A
  raise e s = (err e, s)

  abbrev pub gets : (Db → A) → Action A
  gets f s = (ok (f s), s)

  abbrev pub lift : Result A → Action A
  lift r s = (r, s)

infixl 5 ◌>>=◌ ◌>>◌
abbrev pub ◌>>=◌ : {A B : Type 0} → Action A → (A → Action B) → Action B
◌>>=◌ m f s = let (r, s') = m s in elim r [ ok a ↦ f a s' | err e ↦ (err e, s') ]

abbrev pub ◌>>◌ : {A B : Type 0} → Action A → Action B → Action B
m >> k = m >>= λ _. k

abbrev pub modify : (Db → Db) → Action Unit
modify f s = (ok tt, f s)

-- `if not c: raise e`
abbrev pub require : Bool → Failure → Action Unit
require true e s = (ok tt, s)
require false e s = (err e, s)

-- `if o is not None: f(o)`
abbrev pub if_given : {A : Type 0} → Option A → (A → Action Unit) → Action Unit
if_given none f = pure tt
if_given (some a) f = f a

-- `try: m except Exception: log`: what `m` has written before it raises stays in the session.
abbrev pub attempt : Action Unit → Action Unit
attempt m s = let (_, s') = m s in (ok tt, s')

-- A new identifier.
abbrev pub new_uuid : Action String
new_uuid s = (ok (s.uuids s.drawn), record s { drawn = suc s.drawn })

-- `scalar_one_or_none()`
unfoldable pub one_or_none : {A : Type 0} → List A → Result (Option A)
one_or_none [] = ok none
one_or_none (x ∷ []) = ok (some x)
one_or_none (x ∷ y ∷ xs) = err many_rows

-- `get_db`: a request's session is committed if the handler returns, and rolled back if it raises.
-- Identifiers that were drawn stay drawn.
unfoldable pub get_db : {A : Type 0} → Action A → Action A
get_db m s =
    let (r, s') = m s in
    elim r [ ok a ↦ (ok a, s') | err e ↦ (err e, record s { drawn = s'.drawn }) ]
