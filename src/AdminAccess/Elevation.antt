-- ===== src/AdminAccess/Elevation.antt =====
-- What an approval sends to the device's agent.
use Prim.Native.String
use mdm_saa_s.Common.{
  ℕ, ◌+◌, ◌*◌, ◌≡◌, refl, sym, ap, ◌∙◌, String, Bool, true, ◌&&◌, Option, some, [], ◌∷◌, ◌++◌, ◌==◌,
  select, count, count-append, update_where, eq_iff,
}
use mdm_saa_s.Models.{
  Tenant, User, Device, DeviceUser, AdminAccessRequest, is_pending, ScriptJob, JobStatus,
  RequestStatus,
}
use mdm_saa_s.Database.{
  Db, Action, Result, ok, err, get_db, http, attribute_error, pure, gets, lift, require,
  one_or_none, ◌>>=◌, ◌>>◌,
}
use mdm_saa_s.Database.Laws.{bind-ok}
use mdm_saa_s.Audit.{write_audit}
use mdm_saa_s.Apple.Commands.{make_command, make_user_list_command}
use mdm_saa_s.AdminAccess.Requests.{
  RequestResponse, build_response, on_requests, has_request_id, device_user_of, load_request,
  expect, approved, username_of, queue_change, new_job, group_command, approve_request,
}
use mdm_saa_s.Agent.Jobs.{is_waiting}

counted : {A : Type 0} (p : A → Bool) (x : A) → p x ≡ true → count p (x ∷ []) ≡ 1
counted p x h = rw h refl

-- The shell command that makes an account an administrator.
abbrev pub elevating_command : String → String
elevating_command name =
    String.◌++◌ "dseditgroup -o edit "
      (String.◌++◌ "-a" (String.◌++◌ " '" (String.◌++◌ name "' -t user admin")))

-- The job is pending, for the agent of the device, and makes the account an administrator.
abbrev pub Elevates : Tenant → AdminAccessRequest → DeviceUser → ScriptJob → Type 0
Elevates tenant r u j =
    (j.tenant_id ≡ tenant.id)
    × (j.device_id ≡ r.device_id)
    × (j.status ≡ JobStatus.pending)
    × (j.command ≡ elevating_command u.short_name)

-- The request with the decision, by whom and when, and the end of the grant, in microseconds.
abbrev pub granted : ℕ → User → AdminAccessRequest → AdminAccessRequest
granted now user x = record x {
  status = RequestStatus.approved;
  approved_by_id = some user.id;
  decided_at = some now;
  revoke_at = some (now + x.duration_hours * 3_600_000_000);
}

-- An approval in its session.
abbrev pub approving : ℕ → Tenant → User → String → Db → Result RequestResponse × Db
approving now tenant user id s = get_db (approve_request now tenant user id) s

module _ (now : ℕ) (tenant : Tenant) (user : User) (id : String) (r : AdminAccessRequest)
    (u : DeviceUser) where
  elevation : Db → ScriptJob
  elevation s =
      new_job now tenant.id r.device_id (group_command "-a" u.short_name) "admin_elevation"
        (some user.id) (s.uuids s.drawn)

  -- What approve_request does with a request that is pending.
  decide : AdminAccessRequest → Action String → Action RequestResponse
  decide req name = do
    on_requests (update_where (has_request_id req.id) (approved now user.id))
    username ← name
    queue_change now (record req { tenant_id = tenant.id }) username "-a" "admin_elevation"
        (some user.id)
    write_audit now tenant.id "admin_access.approved" "admin_access_request" (some user.id)
        (some req.id)
    gets (build_response (approved now user.id req))

  named : Option DeviceUser → Action String
  named o = expect attribute_error o >>= λ x. pure x.short_name

  loaded :
      (s : Db)
      → select (λ x. has_request_id id x && x.tenant_id == tenant.id) s.requests ≡ r ∷ []
      → load_request id tenant s ≡ (ok r, s)
  unfolding load_request one_or_none
  loaded s only = ap (λ xs. (lift (one_or_none xs) >>= λ o. expect (http 404) o) s) only

  approve_runs :
      (s : Db)
      → select (λ x. has_request_id id x && x.tenant_id == tenant.id) s.requests ≡ r ∷ []
      → is_pending r.status ≡ true
      → device_user_of r s ≡ some u
      → approve_request now tenant user id s ≡ decide r (named (some u)) s
  unfolding approve_request decide username_of named
  approve_runs s only pending known =
      bind-ok (load_request id tenant)
        (λ req. require (is_pending req.status) (http 400) >> decide req (username_of req)) s r s
        (loaded s only)
      ∙ ap (λ b. (require b (http 400) >> decide r (username_of r)) s) pending
      ∙ ap (λ o. decide r (named o) s) known

  elevation_waits :
      (s : Db) (d : Device)
      → d.id ≡ r.device_id
      → d.tenant_id ≡ tenant.id
      → is_waiting d (elevation s) ≡ true
  unfolding new_job elevation
  elevation_waits s d e f =
      rw ((eq_iff r.device_id d.id).1 (sym e), (eq_iff tenant.id d.tenant_id).1 (sym f)) refl

  -- The end of a request's session.
  abbrev settled : Db → Result RequestResponse × Db → Result RequestResponse × Db
  settled s x = elim x.0 [ ok a ↦ (ok a, x.1) | err e ↦ (err e, record s { drawn = x.1.drawn }) ]

  -- Approving a pending request whose user is stored, as the only one of its identifier in the tenant, returns the
  -- approved request and is committed: the request is approved by this user, and ends after the hours that were
  -- asked for. One job is added, which is pending for the agent of the request's device and makes the account an
  -- administrator, so that one job more waits there than before.
  pub approval_reaches_agent :
      (s : Db) (d : Device)
      → select (λ x. has_request_id id x && x.tenant_id == tenant.id) s.requests ≡ r ∷ []
      → is_pending r.status ≡ true
      → device_user_of r s ≡ some u
      → d.id ≡ r.device_id
      → d.tenant_id ≡ tenant.id
      → ((response : RequestResponse) × ((approving now tenant user id s).0 ≡ ok response)
          × (response.request ≡ granted now user r))
        × ((approving now tenant user id s).1.requests
            ≡ update_where (λ x. x.id == r.id) (granted now user) s.requests)
        × ((j : ScriptJob) × ((approving now tenant user id s).1.script_jobs
              ≡ s.script_jobs ++ j ∷ [])
            × Elevates tenant r u j)
        × (count (is_waiting d) (approving now tenant user id s).1.script_jobs
            ≡ count (is_waiting d) s.script_jobs + 1)
  unfolding get_db decide named queue_change make_user_list_command make_command write_audit
      approved build_response new_job elevation
  approval_reaches_agent s d only pending known here ours =
      let run : approve_request now tenant user id s ≡ decide r (named (some u)) s =
        approve_runs s only pending known in
      let jobs = ap (λ x. (settled s x).1.script_jobs) run in
      (
        (_, ap (λ x. (settled s x).0) run, refl),
        ap (λ x. (settled s x).1.requests) run,
        (elevation s, jobs, (refl, refl, refl, refl)),
        ap (count (is_waiting d)) jobs
            ∙ count-append (is_waiting d) s.script_jobs (elevation s ∷ [])
            ∙ ap (λ n. count (is_waiting d) s.script_jobs + n)
                (counted (is_waiting d) (elevation s) (elevation_waits s d here ours)),
      )
