-- ===== src/Agent/Jobs.antt =====
-- get_device_by_agent_token, poll_jobs, post_job_result and report_users.
use mdm_saa_s.Common.{
  ℕ, zero, suc, String, Bool, true, false, ◌&&◌, Option, none, some, List, [], ◌∷◌, ◌++◌, ◌==◌,
  ◌=ℕ◌, is_some, some_is, or_else, get_or, take, select, update_where, length, if◌then◌else◌,
}
use mdm_saa_s.Models.{Device, DeviceUser, ScriptJob, JobStatus, is_pending_job}
use mdm_saa_s.Database.{
  Action, pure, raise, lift, gets, modify, http, new_uuid, ◌>>=◌, ◌>>◌, one_or_none,
}

unfoldable pub get_device_by_agent_token : String → Action Device
unfolding one_or_none
get_device_by_agent_token token = do
  found ← gets (λ s. select (λ d. some_is (λ t. t == token) d.agent_token) s.devices)
  device ← lift (one_or_none found)
  elim device [ none ↦ raise (http 401) | some d ↦ pure d ]

abbrev pub is_job_of : Device → ScriptJob → Bool
is_job_of device j = j.device_id == device.id && j.tenant_id == device.tenant_id

abbrev pub is_waiting : Device → ScriptJob → Bool
is_waiting device j = is_job_of device j && is_pending_job j.status

abbrev pub batch_size : ℕ
batch_size = 10

abbrev pub on_jobs : (List ScriptJob → List ScriptJob) → Action Unit
on_jobs f = modify (λ s. record s { script_jobs = f s.script_jobs })

-- `for job in jobs: job.status = "running"`: the first `n` rows that the query selects.
unfoldable pub start_first : ℕ → (ScriptJob → Bool) → List ScriptJob → List ScriptJob
start_first zero p js = js
start_first (suc n) p [] = []
start_first (suc n) p (j ∷ js) = elim (p j) [
  | true ↦ (record j { status = JobStatus.running }) ∷ start_first n p js
  | false ↦ j ∷ start_first (suc n) p js
]

-- Without `command_b64`, the command once more in base64.
pub record AgentJobResponse : Type 0 where
  pub id : String
  pub command : String
  pub label : Option String

abbrev pub from_job : ScriptJob → AgentJobResponse
from_job j = record { id = j.id; command = j.command; label = j.label }

abbrev pub responses : List ScriptJob → List AgentJobResponse
responses [] = []
responses (j ∷ js) = from_job j ∷ responses js

-- The query takes at most ten rows. `skip_locked` leaves out rows that another session holds; here no
-- other session is at work.
unfoldable pub poll_jobs : Device → Action (List AgentJobResponse)
unfolding start_first
poll_jobs device = do
  jobs ← gets (λ s. take batch_size (select (is_waiting device) s.script_jobs))
  on_jobs (start_first batch_size (is_waiting device))
  pure (responses jobs)

pub record JobResultBody : Type 0 where
  pub exit_code : ℕ
  pub stdout : Option String
  pub stderr : Option String

abbrev pub output_limit : ℕ
output_limit = 65536

-- `s[:n]`, by characters
unfoldable pub prefix : ℕ → String → String
prefix zero s = ""
prefix (suc n) String.[] = ""
prefix (suc n) (String.◌∷◌ c s) = String.◌∷◌ c (prefix n s)

unfoldable pub finished : ℕ → JobResultBody → ScriptJob → ScriptJob
finished now body j = record j {
  status = if body.exit_code =ℕ 0 then JobStatus.completed else JobStatus.failed;
  exit_code = some body.exit_code;
  stdout = some (prefix output_limit (get_or body.stdout ""));
  stderr = some (prefix output_limit (get_or body.stderr ""));
  completed_at = some now;
}

unfoldable pub post_job_result : ℕ → String → JobResultBody → Device → Action JobStatus
unfolding one_or_none finished
post_job_result now job_id body device = do
  found ← gets (λ s. select (λ j. j.id == job_id && is_job_of device j) s.script_jobs)
  job ← lift (one_or_none found)
  elim job [
    | none ↦ raise (http 404)
    | some j ↦ do
      on_jobs (update_where (λ k. k.id == j.id) (finished now body))
      pure (if body.exit_code =ℕ 0 then JobStatus.completed else JobStatus.failed)
  ]

pub record AgentUserEntry : Type 0 where
  pub short_name : String
  pub full_name : Option String
  pub is_admin : Bool
  pub is_logged_in : Bool
  pub has_secure_token : Bool

unfoldable pub reported : AgentUserEntry → DeviceUser → DeviceUser
reported e u = record u {
  full_name = or_else e.full_name u.full_name;
  is_admin = e.is_admin;
  is_logged_in = e.is_logged_in;
  has_secure_token = e.has_secure_token;
}

-- The dict comprehension `existing`: of several rows with one name it keeps the last.
unfoldable pub existing_user : String → List DeviceUser → Option DeviceUser
existing_user name [] = none
existing_user name (u ∷ us) =
    let later = existing_user name us in
    if is_some later then later else if u.short_name == name then some u else none

-- The body of the loop over the reported users. `existing` is not extended by the rows that the loop
-- adds.
unfoldable pub report_user : ℕ → Device → List DeviceUser → AgentUserEntry → Action Unit
unfolding reported existing_user
report_user now device existing e = elim (existing_user e.short_name existing) [
  | some u ↦ modify (λ s. record s {
    device_users = update_where (λ x. x.id == u.id) (reported e) s.device_users;
  })
  | none ↦ do
    id ← new_uuid
    modify (λ s. record s {
      device_users =
          s.device_users
          ++ (record {
            id = id;
            device_id = device.id;
            tenant_id = device.tenant_id;
            user_guid = none;
            short_name = e.short_name;
            full_name = e.full_name;
            is_admin = e.is_admin;
            is_logged_in = e.is_logged_in;
            has_secure_token = e.has_secure_token;
            last_seen_at = now;
          })
            ∷ [];
    })
]

unfoldable pub report_all : ℕ → Device → List DeviceUser → List AgentUserEntry → Action Unit
unfolding report_user
report_all now device existing [] = pure tt
report_all now device existing (e ∷ es) = do
  report_user now device existing e
  report_all now device existing es

-- The answer is the number of entries.
unfoldable pub report_users : ℕ → Device → List AgentUserEntry → Action ℕ
unfolding report_all
report_users now device users = do
  existing ← gets (λ s. select (λ u. u.device_id == device.id) s.device_users)
  report_all now device existing users
  pure (length users)
