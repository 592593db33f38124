-- ===== src/AdminAccess/Grants.antt =====
-- What holds of every stored request, whichever handler has run.
use mdm_saa_s.Common.{
  ℕ, ◌+◌, ◌*◌, ◌≤◌, ◌≡◌, refl, String, Bool, ◌&&◌, Option, none, some, List, ◌==◌, select, All,
  All-update_where, update_where,
}
use mdm_saa_s.Models.{Tenant, User, is_pending, is_approved, AdminAccessRequest, RequestStatus}
use mdm_saa_s.Database.{
  Db, Failure, http, attribute_error, Action, pure, gets, lift, require, one_or_none, ◌>>=◌, ◌>>◌,
}
use mdm_saa_s.Audit.{write_audit}
use mdm_saa_s.Apple.Commands.{make_command, make_user_list_command}
use mdm_saa_s.Database.Keeps.{
  Keeps, Keeps-bind, Keeps-gets, Keeps-lift, Keeps-pure, Keeps-require, Keeps-then,
}
use mdm_saa_s.Compliance.Evaluation.{microseconds_per_hour}
use mdm_saa_s.AdminAccess.Requests.{
  RequestResponse, build_response, load_request, username_of, device_user_of, queue_change, expect,
  on_requests, has_request_id, approved, denied, revoked, approve_request, deny_request,
  revoke_request,
}

-- The end of an approved grant is its start and as many hours as were asked for.
abbrev pub EndsOnTime : AdminAccessRequest → Type 0
EndsOnTime r =
    (t : ℕ) × ((r.decided_at ≡ some t)
      × (r.revoke_at ≡ some (t + r.duration_hours * microseconds_per_hour)))

-- A request is for 1 to 72 hours, and if it is approved it ends on time.
abbrev pub IsValidRequest : AdminAccessRequest → Type 0
IsValidRequest r =
    (1 ≤ r.duration_hours)
    × (r.duration_hours ≤ 72)
    × (r.status ≡ RequestStatus.approved → EndsOnTime r)

abbrev pub IsValidDb : Db → Type 0
IsValidDb s = All IsValidRequest s.requests

approved-IsValid :
    (now : ℕ) (id : String) (r : AdminAccessRequest)
    → IsValidRequest r
    → IsValidRequest (approved now id r)
unfolding approved
approved-IsValid now id r (a, b, c) = (a, b, (λ h. (now, (refl, refl))))

denied-IsValid :
    (now : ℕ) (id : String) (r : AdminAccessRequest)
    → IsValidRequest r
    → IsValidRequest (denied now id r)
unfolding denied
denied-IsValid now id r (a, b, c) = (a, b, (λ h. absurd (cc)))

pub revoked-IsValid :
    (now : ℕ) (r : AdminAccessRequest) → IsValidRequest r → IsValidRequest (revoked now r)
unfolding revoked
revoked-IsValid now r (a, b, c) = (a, b, (λ h. absurd (cc)))

-- An update that keeps each row valid.
keeps_rows :
    (p : AdminAccessRequest → Bool) (f : AdminAccessRequest → AdminAccessRequest)
    → ((r : AdminAccessRequest) → IsValidRequest r → IsValidRequest (f r))
    → (rs : List AdminAccessRequest) → All IsValidRequest rs
    → All IsValidRequest (update_where p f rs)
keeps_rows p f k rs h = All-update_where IsValidRequest p f rs (λ x v _. k x v) h

-- The steps of the handlers.
pub expect-Keeps : {A : Type 0} (e : Failure) (o : Option A) → Keeps IsValidDb (expect e o)
expect-Keeps e none = record { at = λ s h. h }
expect-Keeps e (some a) = record { at = λ s h. h }

username-Keeps : (req : AdminAccessRequest) → Keeps IsValidDb (username_of req)
unfolding username_of
username-Keeps req =
    Keeps-bind IsValidDb (gets (device_user_of req))
      (λ user. expect attribute_error user >>= λ u. pure u.short_name) (Keeps-gets IsValidDb _)
      (λ o.
        Keeps-bind IsValidDb (expect attribute_error o) (λ u. pure u.short_name)
          (expect-Keeps attribute_error o) (λ u. Keeps-pure IsValidDb _))

pub rows-Keeps :
    (p : AdminAccessRequest → Bool) (f : AdminAccessRequest → AdminAccessRequest)
    → ((r : AdminAccessRequest) → IsValidRequest r → IsValidRequest (f r))
    → Keeps IsValidDb (on_requests (update_where p f))
rows-Keeps p f k = record { at = λ s h. keeps_rows p f k s.requests h }

module _ (now : ℕ) where
  pub queue-Keeps :
      (req : AdminAccessRequest) (name flag label : String) (by : Option String)
      → Keeps IsValidDb (queue_change now req name flag label by)
  unfolding queue_change make_user_list_command make_command
  queue-Keeps req name flag label by = record { at = λ s h. h }

module _ (now : ℕ) (tenant : Tenant) (user : User) where
  load-Keeps : (id : String) → Keeps IsValidDb (load_request id tenant)
  unfolding load_request
  load-Keeps id =
      Keeps-bind IsValidDb
        (gets (λ s. select (λ r. has_request_id id r && r.tenant_id == tenant.id) s.requests))
        (λ found. lift (one_or_none found) >>= λ req. expect (http 404) req)
        (Keeps-gets IsValidDb _)
        (λ found.
          Keeps-bind IsValidDb (lift (one_or_none found)) (λ req. expect (http 404) req)
            (Keeps-lift IsValidDb _) (λ o. expect-Keeps (http 404) o))

  pub audit-Keeps :
      (a b : String) (c d : Option String) → Keeps IsValidDb (write_audit now tenant.id a b c d)
  unfolding write_audit
  audit-Keeps a b c d = record { at = λ s h. h }

  -- The common end of approving and revoking.
  change :
      (AdminAccessRequest → AdminAccessRequest)
      → String
      → String
      → String
      → (AdminAccessRequest → Db → RequestResponse)
      → AdminAccessRequest
      → Action RequestResponse
  change f flag label event out req = do
    on_requests (update_where (has_request_id req.id) f)
    username ← username_of req
    queue_change now (record req { tenant_id = tenant.id }) username flag label (some user.id)
    write_audit now tenant.id event "admin_access_request" (some user.id) (some req.id)
    gets (out req)

  change-Keeps :
      (f : AdminAccessRequest → AdminAccessRequest)
      → ((r : AdminAccessRequest) → IsValidRequest r → IsValidRequest (f r))
      → (flag label event : String) (out : AdminAccessRequest → Db → RequestResponse)
      → (req : AdminAccessRequest) → Keeps IsValidDb (change f flag label event out req)
  unfolding change
  change-Keeps f k flag label event out req =
      let queue = λ (name : String).
        queue_change now (record req { tenant_id = tenant.id }) name flag label (some user.id) in
      let audit =
        write_audit now tenant.id event "admin_access_request" (some user.id) (some req.id) in
      let end = λ (name : String). queue name >> (audit >> gets (out req)) in
      Keeps-then IsValidDb (on_requests (update_where (has_request_id req.id) f))
        (username_of req >>= end) (rows-Keeps (has_request_id req.id) f k)
        (Keeps-bind IsValidDb (username_of req) end (username-Keeps req) (λ name.
          Keeps-then IsValidDb (queue name) (audit >> gets (out req))
            (queue-Keeps now (record req { tenant_id = tenant.id }) name flag label (some user.id))
            (Keeps-then IsValidDb audit (gets (out req))
              (audit-Keeps event "admin_access_request" (some user.id) (some req.id))
              (Keeps-gets IsValidDb (out req)))))

  -- Loading a request, testing its status and then an action that depends on it.

  guarded-Keeps :
      (id : String) (test : RequestStatus → Bool)
      (next : AdminAccessRequest → Action RequestResponse)
      → ((req : AdminAccessRequest) → Keeps IsValidDb (next req))
      → Keeps IsValidDb
          (load_request id tenant >>= λ req. require (test req.status) (http 400) >> next req)
  guarded-Keeps id test next k =
      Keeps-bind IsValidDb (load_request id tenant)
        (λ req. require (test req.status) (http 400) >> next req) (load-Keeps id)
        (λ req.
          Keeps-then IsValidDb (require (test req.status) (http 400)) (next req)
            (Keeps-require IsValidDb _ _) (k req))

  pub approve-Keeps : (id : String) → Keeps IsValidDb (approve_request now tenant user id)
  unfolding approve_request change
  approve-Keeps id = guarded-Keeps id is_pending _ (
      change-Keeps (approved now user.id) (approved-IsValid now user.id) "-a" "admin_elevation"
        "admin_access.approved" (λ req. build_response (approved now user.id req)))

  pub revoke-Keeps : (id : String) → Keeps IsValidDb (revoke_request now tenant user id)
  unfolding revoke_request change
  revoke-Keeps id = guarded-Keeps id is_approved _ (
      change-Keeps (revoked now) (revoked-IsValid now) "-d" "admin_revocation"
        "admin_access.revoked" (λ req. build_response (revoked now req)))

  refuse : AdminAccessRequest → Action RequestResponse
  refuse req = do
    on_requests (update_where (has_request_id req.id) (denied now user.id))
    username_of req
    write_audit now tenant.id "admin_access.denied" "admin_access_request" (some user.id)
        (some req.id)
    gets (build_response (denied now user.id req))

  pub deny-Keeps : (id : String) → Keeps IsValidDb (deny_request now tenant user id)
  unfolding deny_request refuse
  deny-Keeps id = guarded-Keeps id is_pending refuse (λ req.
      let audit =
        write_audit now tenant.id "admin_access.denied" "admin_access_request" (some user.id)
          (some req.id) in
      let end = audit >> gets (build_response (denied now user.id req)) in
      Keeps-then IsValidDb (on_requests (update_where (has_request_id req.id) (denied now user.id)))
        (username_of req >>= λ _. end)
        (rows-Keeps (has_request_id req.id) (denied now user.id) (denied-IsValid now user.id))
        (Keeps-bind IsValidDb (username_of req) (λ _. end) (username-Keeps req)
          (λ _.
            Keeps-then IsValidDb audit (gets (build_response (denied now user.id req)))
              (audit-Keeps "admin_access.denied" "admin_access_request" (some user.id)
                (some req.id))
              (Keeps-gets IsValidDb (build_response (denied now user.id req))))))
