-- ===== src/Portal/Approvals.antt =====
-- What the approval of a request for software has found and written, if it returns.
use mdm_saa_s.Common.{
  ℕ, ◌≡◌, refl, sym, ap, ◌∙◌, String, Bool, true, false, Option, none, some, List, [], ◌∷◌, ◌++◌,
  ◌==◌, select, update_where,
}
use mdm_saa_s.Models.{Tenant, User, SoftwareRequest}
use mdm_saa_s.Database.{
  Db, Action, Result, ok, http, one_or_none, require, pure, raise, gets, lift, ◌>>◌, ◌>>=◌,
}
use mdm_saa_s.Database.Laws.{err≢ok, ok-injective, bind-ok, bind_inv}
use mdm_saa_s.Portal.Reviews.{
  is_request_of, find_request, installing, install_command, install_job, queue_install, review,
  approve_software_request,
}

module _ (id : String) (tenant : Tenant) where
  -- A lookup that returns has found one row, and writes nothing.
  pub find_request-found :
      (r : SoftwareRequest) (s t : Db)
      → find_request id tenant s ≡ (ok r, t)
      → (select (is_request_of id tenant) s.software_requests ≡ r ∷ []) × (s ≡ t)
  unfolding find_request one_or_none
  find_request-found r s t h = go (select (is_request_of id tenant) s.software_requests) h
    where
      go :
          (xs : List SoftwareRequest)
          → (lift (one_or_none xs) >>= λ x. elim x as (λ _. Action SoftwareRequest) [
            | none ↦ raise (http 404)
            | some y ↦ pure y
          ])
              s
            ≡ (ok r, t)
          → (xs ≡ r ∷ []) × (s ≡ t)
      go [] k = err≢ok (ap (λ x. x.0) k)
      go (x ∷ []) k = (ap (λ y. y ∷ []) (ok-injective (ap (λ x. x.0) k)), ap (λ x. x.1) k)
      go (x ∷ y ∷ xs) k = err≢ok (ap (λ x. x.0) k)

module _ (lower : String → String) (public_url : String) (now : ℕ) (tenant : Tenant)
    (user : User) where
  -- What an approval of a request that returns has found and written.
  abbrev Approves : SoftwareRequest → Db → Result String × Db → Type 0
  Approves r s x =
      (job : String)
      → x.0 ≡ ok job
      → ((r.status == "pending") ≡ true)
        × (x.1.software_requests
            ≡ update_where (λ y. y.id == r.id) (installing user job) s.software_requests)
        × ((command : String) × (install_command public_url tenant r s ≡ some command)
            × (x.1.script_jobs
                ≡ s.script_jobs ++ install_job lower now tenant user r command job ∷ []))

  queued :
      (r : SoftwareRequest) (o : Option String) (s : Db) (job : String)
      → (queue_install lower public_url now tenant user r o s).0 ≡ ok job
      → ((queue_install lower public_url now tenant user r o s).1.software_requests
          ≡ update_where (λ y. y.id == r.id) (installing user job) s.software_requests)
        × ((command : String) × (o ≡ some command)
            × ((queue_install lower public_url now tenant user r o s).1.script_jobs
                ≡ s.script_jobs ++ install_job lower now tenant user r command job ∷ []))
  unfolding queue_install
  queued r none s job h = err≢ok h
  queued r (some command) s job h =
      let e : s.uuids s.drawn ≡ job = ok-injective h in
      (
        ap (λ i. update_where (λ y. y.id == r.id) (installing user i) s.software_requests) e,
        (
          command,
          refl,
          ap (λ i. s.script_jobs ++ install_job lower now tenant user r command i ∷ []) e,
        ),
      )

  review-Approves :
      (r : SoftwareRequest) (s : Db) → Approves r s (review lower public_url now tenant user r s)
  unfolding review
  review-Approves r s = go (r.status == "pending") refl
    where
      go :
          (b : Bool)
          → (r.status == "pending") ≡ b
          → Approves r s (
              (require b (http 400)
                  >> (gets (install_command public_url tenant r)
                      >>= queue_install lower public_url now tenant user r))
                s)
      go true e job h =
          let (rows, jobs) = queued r (install_command public_url tenant r s) s job h in
          (e, rows, jobs)
      go false e job h = err≢ok h

  pub approve-found :
      (id job : String) (s : Db)
      → (approve_software_request lower public_url now tenant user id s).0 ≡ ok job
      → (r : SoftwareRequest) × (select (is_request_of id tenant) s.software_requests ≡ r ∷ [])
        × ((r.status == "pending") ≡ true)
        × ((approve_software_request lower public_url now tenant user id s).1.software_requests
            ≡ update_where (λ y. y.id == r.id) (installing user job) s.software_requests)
        × ((command : String) × (install_command public_url tenant r s ≡ some command)
            × ((approve_software_request lower public_url now tenant user id s).1.script_jobs
                ≡ s.script_jobs ++ install_job lower now tenant user r command job ∷ []))
  unfolding approve_software_request
  approve-found id job s h =
      let (r, t, e, k) =
        bind_inv (find_request id tenant) (review lower public_url now tenant user) s job h in
      let (found, same) = find_request-found id tenant r s t e in
      let (pending, rows, (command, known, jobs)) = review-Approves r t job k in
      let run =
        bind-ok (find_request id tenant) (review lower public_url now tenant user) s r t e in
      (
        r,
        found,
        pending,
        ap (λ x. x.1.software_requests) run
            ∙ rows
            ∙ ap (λ x. update_where (λ y. y.id == r.id) (installing user job) x.software_requests)
                (sym same),
        (
          command,
          ap (install_command public_url tenant r) same ∙ known,
          ap (λ x. x.1.script_jobs) run
              ∙ jobs
              ∙ ap (λ x. x.script_jobs ++ install_job lower now tenant user r command job ∷ [])
                  (sym same),
        ),
      )
