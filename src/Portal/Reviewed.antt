-- ===== src/Portal/Reviewed.antt =====
-- No handler of the portal turns a request for software that has been reviewed into a pending one.
use Prim.Native.String.{slice, len}
use text.Mathlib.Text.{starts_with}
use mdm_saa_s.Common.{
  present, get_or, head?, ◌=ℕ◌, ℕ, ◌≡◌, refl, String, Bool, true, not, ◌&&◌, Option, none, some,
  List, [], ◌∷◌, ◌++◌, ◌==◌, select, update_where, any, arith, truthy, inl, inr, Bool-cases,
  if◌then◌else◌,
}
use mdm_saa_s.Models.{Tenant, User, Device, ScriptJob, JobStatus, SoftwareRequest}
use mdm_saa_s.Database.{Db, Action, http, one_or_none, require, pure, raise, gets, lift}
use mdm_saa_s.Database.Keeps.{
  Keeps, Keeps-bind, Keeps-gets, Keeps-lift, Keeps-pure, Keeps-raise, Keeps-require, Keeps-then,
  Keeps-if,
}
use mdm_saa_s.Portal.Session.{PortalSession}
use mdm_saa_s.Portal.Software.{
  SoftwareRequestCreate, on_software_requests, item_name, package_item, resolve_package,
  catalog_item, resolve_software, new_software_request, add_request, create_software_request,
  after_status, after_job, synced, list_software_requests,
}
use mdm_saa_s.Portal.Reviews.{
  is_request_of, find_request, installing, rejected, install_command, queue_install, review,
  approve_software_request, reject_software_request,
}

module _ {A : Type 0} (p : A → Bool) where
  any-update_where :
      (q : A → Bool) (f : A → A)
      → ((x : A) → p x ≡ true → p (f x) ≡ true)
      → (xs : List A) → any p xs ≡ true
      → any p (update_where q f xs) ≡ true
  any-update_where q f k [] h = h
  any-update_where q f k (x ∷ xs) h = elim (Bool-cases (p x)) [
    | inl e ↦ ground (arith, k x e)
    | inr e ↦ ground (arith, any-update_where q f k xs)
  ]

  any-append : (xs ys : List A) → any p xs ≡ true → any p (xs ++ ys) ≡ true
  any-append [] ys h = absurd (cc)
  any-append (x ∷ xs) ys h = ground (arith, any-append xs ys)

  pub any-select : (q : A → Bool) (xs : List A) → any (λ x. q x && p x) xs ≡ any p (select q xs)
  any-select q [] = refl
  any-select q (x ∷ xs) = ground (arith, any-select q xs)

abbrev pub is_reviewed : SoftwareRequest → Bool
is_reviewed r = not (r.status == "pending")

module _ (id : String) (tenant : Tenant) where
  abbrev pub is_mine : SoftwareRequest → Bool
  is_mine r = is_request_of id tenant r && is_reviewed r

  -- A row of the request has been reviewed.
  abbrev pub Reviewed : Db → Type 0
  Reviewed s = any is_mine s.software_requests ≡ true

  rows-Keeps :
      (q : SoftwareRequest → Bool) (f : SoftwareRequest → SoftwareRequest)
      → ((r : SoftwareRequest) → is_mine r ≡ true → is_mine (f r) ≡ true)
      → Keeps Reviewed (on_software_requests (update_where q f))
  rows-Keeps q f k = record { at = λ s h. any-update_where is_mine q f k s.software_requests h }

  found-Keeps :
      (o : Option SoftwareRequest)
      → Keeps Reviewed
          (elim o as (λ _. Action SoftwareRequest) [ none ↦ raise (http 404) | some r ↦ pure r ])
  found-Keeps none = Keeps-raise Reviewed (http 404)
  found-Keeps (some r) = Keeps-pure Reviewed r

  find-Keeps : (i : String) (t : Tenant) → Keeps Reviewed (find_request i t)
  unfolding find_request
  find-Keeps i t =
      Keeps-bind Reviewed (gets (λ s. select (is_request_of i t) s.software_requests)) _
        (Keeps-gets Reviewed _)
        (λ found.
          Keeps-bind Reviewed (lift (one_or_none found)) _ (Keeps-lift Reviewed _) found-Keeps)

  installing-IsMine :
      (u : User) (job : String) (r : SoftwareRequest)
      → is_mine r ≡ true
      → is_mine (installing u job r) ≡ true
  installing-IsMine u job r h = ground arith

  rejected-IsMine :
      (u : User) (r : SoftwareRequest) → is_mine r ≡ true → is_mine (rejected u r) ≡ true
  rejected-IsMine u r h = ground arith

  status-IsMine :
      (status : JobStatus) (code : Option ℕ) (r : SoftwareRequest)
      → is_mine r ≡ true
      → is_mine (after_status status code r) ≡ true
  status-IsMine JobStatus.completed code r h = elim (Bool-cases (get_or code 1 =ℕ 0)) [
    | inl e ↦ rw e (ground arith)
    | inr e ↦ rw e (ground arith)
  ]
  status-IsMine JobStatus.failed code r h = ground arith
  status-IsMine JobStatus.pending code r h = h
  status-IsMine JobStatus.running code r h = h

  job-IsMine :
      (o : Option ScriptJob) (r : SoftwareRequest)
      → is_mine r ≡ true
      → is_mine (after_job o r) ≡ true
  job-IsMine none r h = h
  job-IsMine (some j) r h = status-IsMine j.status j.exit_code r h

  synced-IsMine :
      (jobs : List ScriptJob) (r : SoftwareRequest)
      → is_mine r ≡ true
      → is_mine (synced jobs r) ≡ true
  unfolding synced
  synced-IsMine jobs r h = elim (Bool-cases (present r.script_job_id && r.status == "installing")) [
    | inl e ↦ rw e (job-IsMine (head? (select (λ j. j.id == get_or r.script_job_id "") jobs)) r h)
    | inr e ↦ rw e h
  ]

  queue-Keeps :
      (lower : String → String) (url : String) (now : ℕ) (t : Tenant) (u : User)
      (r : SoftwareRequest) (o : Option String)
      → Keeps Reviewed (queue_install lower url now t u r o)
  unfolding queue_install
  queue-Keeps lower url now t u r none = Keeps-raise Reviewed (http 400)
  queue-Keeps lower url now t u r (some command) = record {
    at = λ s h.
        any-update_where is_mine (λ x. x.id == r.id) (installing u (s.uuids s.drawn))
          (installing-IsMine u (s.uuids s.drawn)) s.software_requests h;
  }

  pub approve-Keeps :
      (lower : String → String) (url : String) (now : ℕ) (t : Tenant) (u : User) (i : String)
      → Keeps Reviewed (approve_software_request lower url now t u i)
  unfolding approve_software_request review
  approve-Keeps lower url now t u i =
      Keeps-bind Reviewed (find_request i t) (review lower url now t u) (find-Keeps i t) (λ r.
        Keeps-then Reviewed (require (r.status == "pending") (http 400)) _
          (Keeps-require Reviewed _ _)
          (Keeps-bind Reviewed (gets (install_command url t r)) (queue_install lower url now t u r)
            (Keeps-gets Reviewed _) (queue-Keeps lower url now t u r)))

  pub reject-Keeps :
      (t : Tenant) (u : User) (i : String) → Keeps Reviewed (reject_software_request t u i)
  unfolding reject_software_request
  reject-Keeps t u i =
      Keeps-bind Reviewed (find_request i t)
        (λ r. on_software_requests (update_where (λ x. x.id == r.id) (rejected u))) (find-Keeps i t)
        (λ r. rows-Keeps (λ x. x.id == r.id) (rejected u) (rejected-IsMine u))

  pub sync-Keeps : (device : Device) → Keeps Reviewed (list_software_requests device)
  unfolding list_software_requests
  sync-Keeps device = record {
    at = λ s h.
        any-update_where is_mine (λ r. r.device_id == device.id) (synced s.script_jobs)
          (synced-IsMine s.script_jobs) s.software_requests h;
  }

  package-Keeps : (i : String) (device : Device) → Keeps Reviewed (resolve_package i device)
  unfolding resolve_package
  package-Keeps i device =
      Keeps-bind Reviewed
        (gets (λ s.
          select (λ p. p.id == slice i 4 (len i) && p.tenant_id == device.tenant_id)
            s.software_packages))
        _ (Keeps-gets Reviewed _)
        (λ found.
          Keeps-bind Reviewed (lift (one_or_none found)) _ (Keeps-lift Reviewed _)
            (λ pkg. Keeps-pure Reviewed (package_item pkg)))

  item-Keeps : (o : Option String) (device : Device) → Keeps Reviewed (resolve_software o device)
  unfolding resolve_software
  item-Keeps none device = Keeps-pure Reviewed none
  item-Keeps (some i) device =
      Keeps-if Reviewed (not (truthy i)) (pure none)
        (if starts_with i "pkg_" then resolve_package i device else pure (catalog_item i))
        (Keeps-pure Reviewed none)
        (Keeps-if Reviewed (starts_with i "pkg_") (resolve_package i device) (pure (catalog_item i))
          (package-Keeps i device) (Keeps-pure Reviewed (catalog_item i)))

  add-Keeps : (row : String → SoftwareRequest) → Keeps Reviewed (add_request row)
  unfolding add_request
  add-Keeps row = record { at = λ s h. any-append is_mine s.software_requests _ h }

  pub create-Keeps :
      (now : ℕ) (session : PortalSession) (device : Device) (body : SoftwareRequestCreate)
      → Keeps Reviewed (create_software_request now session device body)
  unfolding create_software_request
  create-Keeps now session device body =
      Keeps-bind Reviewed (resolve_software body.software_id device) _
        (item-Keeps body.software_id device)
        (λ item.
          Keeps-then Reviewed (require (truthy (item_name item body.software_name)) (http 400))
            (add_request (new_software_request now session device body item))
            (Keeps-require Reviewed _ _)
            (add-Keeps (new_software_request now session device body item)))
