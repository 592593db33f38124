-- ===== src/Portal/Reviews.antt =====
-- admin_approve_software_request and admin_reject_software_request. `lower` is `str.lower`, and `public_url` the
-- server's address.
use Prim.Native.Char.{code}
use mdm_saa_s.Common.{
  ℕ, String, Bool, ◌&&◌, Option, none, some, List, [], ◌∷◌, ◌++◌, ◌==◌, ◌=ℕ◌, present, get_or,
  head?, select, update_where, leb, if◌then◌else◌,
}
use mdm_saa_s.Models.{Tenant, User, Device, ScriptJob, JobStatus, SoftwareRequest, SoftwarePackage}
use mdm_saa_s.Database.{
  Db, Action, http, pure, raise, lift, gets, modify, require, new_uuid, ◌>>=◌, ◌>>◌, one_or_none,
}
use mdm_saa_s.Agent.Jobs.{prefix}
use mdm_saa_s.Apple.Profiles.Builder.{◌<>◌}
use mdm_saa_s.Portal.Catalog.{software_catalog}
use mdm_saa_s.Portal.Software.{on_software_requests}

-- `name.replace('"', '')` and `s.replace(' ', '_')`
unfoldable pub unquoted : String → String
unquoted String.[] = ""
unquoted (String.◌∷◌ c s) =
    let rest = unquoted s in if code c =ℕ b'"' then rest else String.◌∷◌ c rest

unfoldable pub underscored : String → String
underscored String.[] = ""
underscored (String.◌∷◌ c s) =
    let rest = underscored s in if code c =ℕ b' ' then "_" <> rest else String.◌∷◌ c rest

-- The command that fetches an uploaded package, up to what installs it.
abbrev fetch : String → String → SoftwarePackage → String → String
fetch agent_token public_url p file =
    "curl -sL -H \"Authorization: Bearer " <> agent_token <> "\" \"" <> public_url
    <> "/api/v1/packages/" <> p.id <> "/download\" -o " <> file <> " && "

unfoldable pub package_command : String → String → SoftwarePackage → String
unfolding unquoted prefix
package_command agent_token public_url p =
    let file = "/tmp/install_" <> prefix 8 p.id <> "." <> p.pkg_type in
    let vol = unquoted p.name in
    if p.pkg_type == "pkg"
    then fetch agent_token public_url p file
      <> "installer -pkg "
      <> file
      <> " -target / && rm "
      <> file
    else fetch agent_token public_url p file
      <> "hdiutil attach "
      <> file
      <> " -nobrowse -quiet && cp -R \"/Volumes/"
      <> vol
      <> "/"
      <> p.name
      <> ".app\" /Applications/ && hdiutil detach \"/Volumes/"
      <> vol
      <> "\" -quiet && rm "
      <> file

abbrev url_command : String → String
url_command url =
    "cd /tmp && curl -L \"" <> url
    <> "\" -o install.pkg && installer -pkg install.pkg -target / && rm install.pkg"

-- ORDER BY uploaded_at DESC LIMIT 1
unfoldable pub latest_package : List SoftwarePackage → Option SoftwarePackage
latest_package [] = none
latest_package (p ∷ ps) = some (elim (latest_package ps) [
  | none ↦ p
  | some q ↦ if leb q.uploaded_at p.uploaded_at then p else q
])

-- Python prints a missing token as None; a missing device has an empty one.
abbrev token_text : Option Device → String
token_text none = ""
token_text (some d) = get_or d.agent_token "None"

-- What installs the software: an uploaded package, the catalogue, or the address.
unfoldable pub install_command : String → Tenant → SoftwareRequest → Db → Option String
unfolding latest_package package_command
install_command public_url tenant req s =
    let token = token_text (head? (select (λ d. d.id == req.device_id) s.devices)) in
    elim (latest_package
      (select (λ p. p.tenant_id == tenant.id && p.name == req.software_name) s.software_packages)) [
        | some p ↦ some (package_command token public_url p)
        | none ↦ elim (head? (select (λ c. c.name == req.software_name) software_catalog)) [
          | some c ↦ some c.install_cmd
          | none ↦
              if present req.software_pkg_url
              then some (url_command (get_or req.software_pkg_url ""))
              else none
        ]
      ]

abbrev pub is_request_of : String → Tenant → SoftwareRequest → Bool
is_request_of id tenant r = r.id == id && r.tenant_id == tenant.id

unfoldable pub find_request : String → Tenant → Action SoftwareRequest
unfolding one_or_none
find_request id tenant = do
  found ← gets (λ s. select (is_request_of id tenant) s.software_requests)
  req ← lift (one_or_none found)
  elim req [ none ↦ raise (http 404) | some r ↦ pure r ]

abbrev pub installing : User → String → SoftwareRequest → SoftwareRequest
installing user job_id r = record r {
  status = "installing";
  reviewed_by_id = some user.id;
  script_job_id = some job_id;
}

abbrev pub rejected : User → SoftwareRequest → SoftwareRequest
rejected user r = record r { status = "rejected"; reviewed_by_id = some user.id }

unfoldable pub install_job :
    (String → String) → ℕ → Tenant → User → SoftwareRequest → String → String → ScriptJob
unfolding underscored
install_job lower now tenant user req command id = record {
  id = id;
  tenant_id = tenant.id;
  device_id = req.device_id;
  command = command;
  label = some ("install_" <> underscored (lower req.software_name));
  status = JobStatus.pending;
  exit_code = none;
  stdout = none;
  stderr = none;
  queued_at = now;
  completed_at = none;
  created_by_id = some user.id;
}

module _ (lower : String → String) (public_url : String) (now : ℕ) (tenant : Tenant)
    (user : User) where
  -- The job, and the request's new status, which the session writes before it.
  unfoldable pub queue_install : SoftwareRequest → Option String → Action String
  unfolding install_job
  queue_install req none = raise (http 400)
  queue_install req (some command) = do
    job_id ← new_uuid
    on_software_requests (update_where (λ r. r.id == req.id) (installing user job_id))
    modify (λ s. record s {
      script_jobs = s.script_jobs ++ install_job lower now tenant user req command job_id ∷ [];
    })
    pure job_id

  unfoldable pub review : SoftwareRequest → Action String
  unfolding install_command queue_install
  review req = do
    require (req.status == "pending") (http 400)
    command ← gets (install_command public_url tenant req)
    queue_install req command

  unfoldable pub approve_software_request : String → Action String
  unfolding find_request review
  approve_software_request id = find_request id tenant >>= review

-- Any request may be rejected, whatever its status.
unfoldable pub reject_software_request : Tenant → User → String → Action Unit
unfolding find_request
reject_software_request tenant user id = do
  req ← find_request id tenant
  on_software_requests (update_where (λ r. r.id == req.id) (rejected user))
