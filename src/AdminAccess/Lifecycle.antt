-- ===== src/AdminAccess/Lifecycle.antt =====
-- The life of a request as a relation between the states before and after a handler or a run of the
-- worker.
use mdm_saa_s.Common.{
  ℕ, ◌≡◌, String, true, not, ◌&&◌, Option, none, some, List, [], ◌∷◌, ◌++◌, ◌==◌, ◌≤◌, leb, select,
  head?, arith, All-append, truthy, update_where,
}
use mdm_saa_s.Models.{Tenant, User, Device, DeviceUser, AdminAccessRequest}
use mdm_saa_s.Database.{
  Db, Action, Failure, http, pure, gets, lift, require, new_uuid, one_or_none, ◌>>=◌, ◌>>◌,
}
use mdm_saa_s.Database.Keeps.{
  Keeps, Keeps-bind, Keeps-gets, Keeps-lift, Keeps-pure, Keeps-guard, Keeps-then, Keeps-if,
  Keeps-raise,
}
use mdm_saa_s.Portal.Session.{PortalSession, upn_prefix}
use mdm_saa_s.Portal.Software.{
  choose_user, portal_user, new_portal_request, submit_request, create_portal_admin_request,
}
use mdm_saa_s.Audit.{write_audit}
use mdm_saa_s.AdminAccess.Requests.{
  CreateRequestBody, RequestResponse, build_response, expect, on_requests, has_request_id,
  device_user_of, revoked, queue_change, new_request, create_request, approve_request, deny_request,
  revoke_request,
}
use mdm_saa_s.AdminAccess.AutoRevoke.{is_due, revoke_grant, revoke_all, run_once}
use mdm_saa_s.AdminAccess.Grants.{
  IsValidRequest, IsValidDb, expect-Keeps, queue-Keeps, rows-Keeps, revoked-IsValid, approve-Keeps,
  deny-Keeps, revoke-Keeps,
}

duration_bounds : (n : ℕ) → (leb 1 n && leb n 72) ≡ true → (1 ≤ n) × (n ≤ 72)
duration_bounds n h = ground arith

-- `scalar_one_or_none()` and a 404.
lookup-Keeps :
    {A B : Type 0} (q : Db → List A) (e : Failure) (k : A → Action B)
    → ((a : A) → Keeps IsValidDb (k a))
    → Keeps IsValidDb (gets q >>= λ xs. lift (one_or_none xs) >>= λ o. expect e o >>= k)
lookup-Keeps q e k h =
    Keeps-bind IsValidDb (gets q) (λ xs. lift (one_or_none xs) >>= λ o. expect e o >>= k)
      (Keeps-gets IsValidDb q)
      (λ xs.
        Keeps-bind IsValidDb (lift (one_or_none xs)) (λ o. expect e o >>= k)
          (Keeps-lift IsValidDb (one_or_none xs))
          (λ o. Keeps-bind IsValidDb (expect e o) k (expect-Keeps e o) h))

module _ (now : ℕ) (tenant : Tenant) (user : User) where
  -- What create_request does once its guards are passed.
  insert : CreateRequestBody → Action RequestResponse
  insert body = do
    id ← new_uuid
    let req = new_request now tenant.id user.id body id
    on_requests (λ rs. rs ++ req ∷ [])
    write_audit now tenant.id "admin_access.requested" "admin_access_request" (some user.id)
        (some id)
    gets (build_response req)

  insert-Keeps :
      (body : CreateRequestBody)
      → (leb 1 body.duration_hours && leb body.duration_hours 72) ≡ true
      → Keeps IsValidDb (insert body)
  unfolding insert new_request write_audit
  insert-Keeps body h = record {
    at = λ s k.
        let (a, b) = duration_bounds body.duration_hours h in
        All-append IsValidRequest s.requests _ k ((a, b, (λ e. absurd (cc))), tt);
  }

  create-Keeps : (body : CreateRequestBody) → Keeps IsValidDb (create_request now tenant user body)
  unfolding create_request insert
  create-Keeps body =
      let last =
        require (leb 1 body.duration_hours && leb body.duration_hours 72) (http 400)
        >> insert body in
      let on_user = λ (u : DeviceUser). require (not u.is_admin) (http 400) >> last in
      let users_of : Db → List DeviceUser = λ s.
        select (λ u. u.id == body.device_user_id && u.device_id == body.device_id) s.device_users in
      let find =
        gets users_of >>= λ us. lift (one_or_none us) >>= λ o. expect (http 404) o >>= on_user in
      lookup-Keeps (λ s. select (λ d. d.id == body.device_id && d.tenant_id == tenant.id) s.devices)
        (http 404) (λ _. find)
        (λ _. lookup-Keeps users_of (http 404) on_user (λ u.
          Keeps-guard IsValidDb (not u.is_admin) (http 400) last (λ _.
            Keeps-guard IsValidDb (leb 1 body.duration_hours && leb body.duration_hours 72)
              (http 400) (insert body) (insert-Keeps body))))

-- The request from the portal.
module _ (lower : String → String) (now : ℕ) (session : PortalSession) (device : Device) where
  choose-Keeps : (a b : Option DeviceUser) → Keeps IsValidDb (choose_user a b)
  unfolding choose_user
  choose-Keeps (some u) b = Keeps-pure IsValidDb u
  choose-Keeps none (some u) = Keeps-pure IsValidDb u
  choose-Keeps none none = Keeps-raise IsValidDb (http 404)

  portal_user-Keeps : Keeps IsValidDb (portal_user lower session device)
  unfolding portal_user
  portal_user-Keeps =
      let logged_in : Db → Option DeviceUser =
        λ s. head? (select (λ u. u.device_id == device.id && u.is_logged_in) s.device_users) in
      Keeps-bind IsValidDb
        (gets (λ s.
          select (λ u. u.device_id == device.id && u.short_name == upn_prefix lower session)
            s.device_users))
        (λ found. lift (one_or_none found) >>= λ named. gets logged_in >>= choose_user named)
        (Keeps-gets IsValidDb _)
        (λ found.
          Keeps-bind IsValidDb (lift (one_or_none found))
            (λ named. gets logged_in >>= choose_user named) (Keeps-lift IsValidDb _)
            (λ named.
              Keeps-bind IsValidDb (gets logged_in) (choose_user named)
                (Keeps-gets IsValidDb logged_in) (choose-Keeps named)))

  submit-Keeps :
      (user : DeviceUser) (reason : Option String) (hours : ℕ) (o : Option User)
      → (leb 1 hours && leb hours 72) ≡ true
      → Keeps IsValidDb (submit_request (new_portal_request now device user reason hours) o)
  unfolding submit_request new_portal_request
  submit-Keeps user reason hours none h = Keeps-raise IsValidDb (http 404)
  submit-Keeps user reason hours (some requester) h = record {
    at = λ s k.
        let (a, b) = duration_bounds hours h in
        All-append IsValidRequest s.requests _ k ((a, b, (λ e. absurd (cc))), tt);
  }

  portal-Keeps :
      (reason : Option String) (hours : ℕ)
      → Keeps IsValidDb (create_portal_admin_request lower now session device reason hours)
  unfolding create_portal_admin_request
  portal-Keeps reason hours =
      let users_of : Db → List User = λ s.
        select (λ u. u.email == lower session.email && u.tenant_id == device.tenant_id) s.users in
      let submit = λ (u : DeviceUser) (o : Option User).
        submit_request (new_portal_request now device u reason hours) o in
      let last = λ (u : DeviceUser). gets users_of >>= λ us. lift (one_or_none us) >>= submit u in
      let bounded =
        λ (u : DeviceUser). require (leb 1 hours && leb hours 72) (http 400) >> last u in
      Keeps-bind IsValidDb (portal_user lower session device)
        (λ u. require (not u.is_admin) (http 400) >> bounded u) portal_user-Keeps
        (λ u. Keeps-guard IsValidDb (not u.is_admin) (http 400) (bounded u) (λ _.
          Keeps-guard IsValidDb (leb 1 hours && leb hours 72) (http 400) (last u) (λ h.
            Keeps-bind IsValidDb (gets users_of) (λ us. lift (one_or_none us) >>= submit u)
              (Keeps-gets IsValidDb users_of)
              (λ us.
                Keeps-bind IsValidDb (lift (one_or_none us)) (submit u) (Keeps-lift IsValidDb _)
                  (λ o. submit-Keeps u reason hours o h)))))

-- The worker.
module _ (now : ℕ) where
  grant-Keeps :
      (req : AdminAccessRequest) (o : Option DeviceUser) → Keeps IsValidDb (revoke_grant now req o)
  unfolding revoke_grant
  grant-Keeps req none = Keeps-pure IsValidDb tt
  grant-Keeps req (some u) =
      let end = queue_change now req u.short_name "-d" "admin_revocation_auto" none in
      let rows = on_requests (update_where (has_request_id req.id) (revoked now)) in
      Keeps-if IsValidDb (truthy u.short_name) (rows >> end) (pure tt)
        (Keeps-then IsValidDb rows end
          (rows-Keeps (has_request_id req.id) (revoked now) (revoked-IsValid now))
          (queue-Keeps now req u.short_name "-d" "admin_revocation_auto" none))
        (Keeps-pure IsValidDb tt)

  revoke_all-Keeps : (reqs : List AdminAccessRequest) → Keeps IsValidDb (revoke_all now reqs)
  unfolding revoke_all
  revoke_all-Keeps [] = Keeps-pure IsValidDb tt
  revoke_all-Keeps (req ∷ reqs) =
      Keeps-bind IsValidDb (gets (device_user_of req))
        (λ o. revoke_grant now req o >> revoke_all now reqs)
        (Keeps-gets IsValidDb (device_user_of req))
        (λ o.
          Keeps-then IsValidDb (revoke_grant now req o) (revoke_all now reqs) (grant-Keeps req o)
            (revoke_all-Keeps reqs))

  run_once-Keeps : Keeps IsValidDb (run_once now)
  unfolding run_once
  run_once-Keeps =
      Keeps-bind IsValidDb (gets (λ s. select (is_due now) s.requests)) (revoke_all now)
        (Keeps-gets IsValidDb (λ s. select (is_due now) s.requests)) revoke_all-Keeps

-- One request to the service, with its time, or one run of the worker. A handler that raises counts with
-- the state that it leaves in the session.
pub data Step : Db → Db → Type 0 where
  create :
      (now : ℕ) (t : Tenant) (u : User) (body : CreateRequestBody) (s : Db)
      → Step s (create_request now t u body s).1
  portal :
      (lower : String → String) (now : ℕ) (session : PortalSession) (device : Device)
      (reason : Option String) (hours : ℕ) (s : Db)
      → Step s (create_portal_admin_request lower now session device reason hours s).1
  approve :
      (now : ℕ) (t : Tenant) (u : User) (id : String) (s : Db)
      → Step s (approve_request now t u id s).1
  deny :
      (now : ℕ) (t : Tenant) (u : User) (id : String) (s : Db)
      → Step s (deny_request now t u id s).1
  revoke :
      (now : ℕ) (t : Tenant) (u : User) (id : String) (s : Db)
      → Step s (revoke_request now t u id s).1
  expire : (now : ℕ) (s : Db) → Step s (run_once now s).1

pub data Steps : Db → Db → Type 0 where
  done : (s : Db) → Steps s s
  next : (s t u : Db) → Step s t → Steps t u → Steps s u

Step-IsValidDb : (s t : Db) → Step s t → IsValidDb s → IsValidDb t
Step-IsValidDb _ _ (create now t u body s) h = (create-Keeps now t u body).at s h
Step-IsValidDb _ _ (portal lower now session device reason hours s) h =
    (portal-Keeps lower now session device reason hours).at s h
Step-IsValidDb _ _ (approve now t u id s) h = (approve-Keeps now t u id).at s h
Step-IsValidDb _ _ (deny now t u id s) h = (deny-Keeps now t u id).at s h
Step-IsValidDb _ _ (revoke now t u id s) h = (revoke-Keeps now t u id).at s h
Step-IsValidDb _ _ (expire now s) h = (run_once-Keeps now).at s h

-- If every stored request is for 1 to 72 hours and ends, when it is approved, as many hours after its
-- approval, then the same holds after any sequence of creations by administrators or from the portal, approvals,
-- denials, revocations and runs of the worker.
pub requests_stay_valid : (s t : Db) → Steps s t → IsValidDb s → IsValidDb t
requests_stay_valid _ _ (done s) h = h
requests_stay_valid _ _ (next s t u step rest) h =
    requests_stay_valid t u rest (Step-IsValidDb s t step h)
