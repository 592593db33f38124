-- ===== src/Portal/Once.antt =====
-- A request for software is approved once, whatever is asked of the portal afterwards.
use mdm_saa_s.Common.{
  ℕ, ◌≡◌, refl, sym, ap, ◌∙◌, String, true, some, [], ◌∷◌, ◌++◌, ◌==◌, select, update_where, any,
  arith, select-marked, eq_refl, inl, inr,
}
use mdm_saa_s.Models.{Tenant, User, Device, ScriptJob, JobStatus, SoftwareRequest}
use mdm_saa_s.Database.{Db, Failure, ok, err}
use mdm_saa_s.Database.Laws.{Result-cases}
use mdm_saa_s.Portal.Session.{PortalSession}
use mdm_saa_s.Portal.Software.{
  SoftwareRequestCreate, create_software_request, list_software_requests,
}
use mdm_saa_s.Portal.Reviews.{
  is_request_of, installing, install_command, install_job, approve_software_request,
  reject_software_request,
}
use mdm_saa_s.Portal.Approvals.{approve-found}
use mdm_saa_s.Portal.Reviewed.{
  any-select, is_reviewed, Reviewed, approve-Keeps, reject-Keeps, sync-Keeps, create-Keeps,
}

-- One request to the portal or its administration that writes requests for software, with its time. A handler that
-- raises counts with the state that it leaves in the session.
pub data Step : Db → Db → Type 0 where
  create :
      (now : ℕ) (session : PortalSession) (device : Device) (body : SoftwareRequestCreate) (s : Db)
      → Step s (create_software_request now session device body s).1
  sync : (device : Device) (s : Db) → Step s (list_software_requests device s).1
  approve :
      (lower : String → String) (public_url : String) (now : ℕ) (t : Tenant) (u : User)
      (id : String) (s : Db)
      → Step s (approve_software_request lower public_url now t u id s).1
  reject :
      (t : Tenant) (u : User) (id : String) (s : Db) → Step s (reject_software_request t u id s).1

pub data Steps : Db → Db → Type 0 where
  done : (s : Db) → Steps s s
  next : (s t u : Db) → Step s t → Steps t u → Steps s u

module _ (id : String) (tenant : Tenant) where
  Step-Reviewed : (s t : Db) → Step s t → Reviewed id tenant s → Reviewed id tenant t
  Step-Reviewed _ _ (create now session device body s) h =
      (create-Keeps id tenant now session device body).at s h
  Step-Reviewed _ _ (sync device s) h = (sync-Keeps id tenant device).at s h
  Step-Reviewed _ _ (approve lower url now t u i s) h =
      (approve-Keeps id tenant lower url now t u i).at s h
  Step-Reviewed _ _ (reject t u i s) h = (reject-Keeps id tenant t u i).at s h

  Steps-Reviewed : (s t : Db) → Steps s t → Reviewed id tenant s → Reviewed id tenant t
  Steps-Reviewed _ _ (done s) h = h
  Steps-Reviewed _ _ (next s t u step rest) h = Steps-Reviewed t u rest (Step-Reviewed s t step h)

  -- Then an approval is refused.
  Reviewed-refused :
      (lower : String → String) (url : String) (now : ℕ) (u : User) (s : Db)
      → Reviewed id tenant s
      → (e : Failure) × ((approve_software_request lower url now tenant u id s).0 ≡ err e)
  Reviewed-refused lower url now u s h =
      elim (Result-cases (approve_software_request lower url now tenant u id s).0) [
        | inr e ↦ e
        | inl (job, e) ↦
            let (r, found, pending, _, _) = approve-found lower url now tenant u id job s e in
            let row : any is_reviewed (r ∷ []) ≡ true =
              ap (any is_reviewed) (sym found)
              ∙ sym (any-select is_reviewed (is_request_of id tenant) s.software_requests)
              ∙ h in
            absurd (ground arith)
      ]

  -- An approval that returns leaves the request reviewed.
  approved-Reviewed :
      (lower : String → String) (url : String) (now : ℕ) (u : User) (job : String) (s : Db)
      → (approve_software_request lower url now tenant u id s).0 ≡ ok job
      → Reviewed id tenant (approve_software_request lower url now tenant u id s).1
  approved-Reviewed lower url now u job s h =
      let (r, found, pending, rows, _) = approve-found lower url now tenant u id job s h in
      any-select is_reviewed (is_request_of id tenant) _
      ∙ ap (λ xs. any is_reviewed (select (is_request_of id tenant) xs)) rows
      ∙ ap (any is_reviewed) (
          select-marked (is_request_of id tenant) (λ y. y.id == r.id) (installing u job) (λ x. refl)
            s.software_requests)
      ∙ ap (λ xs. any is_reviewed (update_where (λ y. y.id == r.id) (installing u job) xs)) found
      ∙ rw (eq_refl r.id) refl

-- The pending job for the request's device that runs the command, in the tenant's name.
abbrev pub Installs : Tenant → SoftwareRequest → String → String → ScriptJob → Type 0
Installs tenant r command id j =
    (j.id ≡ id)
    × (j.tenant_id ≡ tenant.id)
    × (j.device_id ≡ r.device_id)
    × (j.command ≡ command)
    × (j.status ≡ JobStatus.pending)

module _ (lower : String → String) (public_url : String) (tenant : Tenant) where
  -- An approval that returns has found the request as the only one of its identifier in the tenant, pending and with
  -- a known way to install its software. It has added one job to the end of the script jobs, which is pending, for
  -- the request's device, runs that installation and has the identifier that is returned. After any sequence of
  -- creations, lists, approvals and rejections of requests for software, a further approval of the request, by
  -- whomever in the tenant, is refused.
  pub approved_once :
      (now later : ℕ) (user user' : User) (id job : String) (s t : Db)
      → (approve_software_request lower public_url now tenant user id s).0 ≡ ok job
      → Steps (approve_software_request lower public_url now tenant user id s).1 t
      → ((r : SoftwareRequest) × (command : String) × (j : ScriptJob) × (select
              (is_request_of id tenant)
              s.software_requests
            ≡ r ∷ [])
          × ((r.status == "pending") ≡ true)
          × (install_command public_url tenant r s ≡ some command)
          × ((approve_software_request lower public_url now tenant user id s).1.script_jobs
              ≡ s.script_jobs ++ j ∷ [])
          × Installs tenant r command job j)
        × ((e : Failure) × ((approve_software_request lower public_url later tenant user' id t).0
              ≡ err e))
  unfolding install_job
  approved_once now later user user' id job s t h steps =
      let (r, found, pending, _, (command, known, jobs)) =
        approve-found lower public_url now tenant user id job s h in
      (
        (
          r,
          command,
          install_job lower now tenant user r command job,
          found,
          pending,
          known,
          jobs,
          (refl, refl, refl, refl, refl),
        ),
        Reviewed-refused id tenant lower public_url later user' t (
            Steps-Reviewed id tenant
              (approve_software_request lower public_url now tenant user id s).1 t steps
              (approved-Reviewed id tenant lower public_url now user job s h)),
      )
