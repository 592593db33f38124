-- ===== src/Tests/Access.antt =====
-- Grants, script jobs and sessions at the office.
use mdm_saa_s.Common.{
  ℕ, ◌↔◌, ◌++◌, update_where, true, false, ◌+◌, ◌≤◌, ◌≡◌, refl, ◌==◌, none, some, List, [], ◌∷◌,
  arith, length, count, if◌then◌else◌,
}
use mdm_saa_s.Database.{Db, ok, err, http, one_or_none}
use mdm_saa_s.AdminAccess.Requests.{RequestResponse, revoke_request}
use mdm_saa_s.AdminAccess.Elevation.{granted, approving, Elevates, approval_reaches_agent}
use mdm_saa_s.AdminAccess.AutoRevoke.{run_once}
use mdm_saa_s.AdminAccess.Lifecycle.{Step, Steps, requests_stay_valid}
use mdm_saa_s.AdminAccess.Grants.{IsValidDb}
use mdm_saa_s.AdminAccess.Expiry.{NothingDue, run_clears_due}
use mdm_saa_s.Agent.Jobs.{
  AgentJobResponse, JobResultBody, poll_jobs, is_waiting, batch_size, post_job_result,
}
use mdm_saa_s.Agent.Delivery.{HasBoundedOutput, text_length, poll_hands_out, post_result_bounded}
use mdm_saa_s.Auth.Tokens.{Claims, Crypto}
use mdm_saa_s.Auth.Session.{
  Cache, cache_get, revocation_cache_ttl, check_revocation, active_user, cache_invalidate,
  get_current_user,
}
use mdm_saa_s.Auth.Login.{logout, login, revoke_claims, add_revoked_token}
use mdm_saa_s.Auth.Reset.{reset_password, use_token, complete_reset}
use mdm_saa_s.Auth.SingleUse.{reset_token_single_use}
use mdm_saa_s.Auth.SecondFactor.{pending_claims, pending_token_is_a_session}
use mdm_saa_s.CommandQueue.Consumer.{PushOutcome, push_failed, wakes, left, process_message}
use mdm_saa_s.CommandQueue.Redelivery.{FailsToWake, left_iff}
use mdm_saa_s.Groups.Handlers.{get_group, add_devices_to_group}
use mdm_saa_s.Groups.Membership.{AddsMembers, added_members}
use mdm_saa_s.Models.{
  AdminAccessRequest, RequestStatus, Device, DeviceGroup, PasswordResetToken, RevokedToken,
  ScriptJob, User,
}
use mdm_saa_s.Auth.Revocation.{logged_out_is_refused, revoked_needs_fresh}
use mdm_saa_s.Audit.{write_audit}
use mdm_saa_s.Tests.Samples.{acme, ada, laptop, office, grant, account}

abbrev after_revoke : Db
after_revoke = (revoke_request 50 acme ada "r1" office).1

abbrev after_run : Db
after_run = (run_once 99 after_revoke).1

requests_stay_valid_example : IsValidDb after_run
requests_stay_valid_example =
    requests_stay_valid office after_run
      (Steps.next _ _ _ (Step.revoke 50 acme ada "r1" office)
        (Steps.next _ _ _ (Step.expire 99 after_revoke) (Steps.done after_run)))
      ((omega arith, omega arith, (λ _. (0, (refl, refl)))), tt)

run_clears_due_example : NothingDue 3_700_000_000 (run_once 3_700_000_000 office)
run_clears_due_example = run_clears_due 3_700_000_000 office

poll_hands_out_example :
    (xs : List AgentJobResponse) × (((poll_jobs laptop office).0 ≡ ok xs)
      × (length xs ≤ batch_size)
      × (length xs + count (is_waiting laptop) (poll_jobs laptop office).1.script_jobs
          ≡ count (is_waiting laptop) office.script_jobs))
poll_hands_out_example = poll_hands_out laptop office

abbrev outcome : JobResultBody
outcome = record { exit_code = 0; stdout = some "up 3 days"; stderr = none }

post_result_bounded_example : HasBoundedOutput (post_job_result 400 "j1" outcome laptop office).1
unfolding text_length
post_result_bounded_example =
    post_result_bounded 400 "j1" outcome laptop office ((omega arith, omega arith), tt)

-- A token that says who Ada is, at any time.
abbrev claims : Claims
claims = record {
  sub = "u1";
  tenant_id = "t1";
  role = "owner";
  exp = some 900;
  jti = some "token-id";
  kind = none;
}

abbrev keys : Crypto
keys = record {
  encode = λ c. "token";
  decode = λ now t. if t == "token" then some claims else none;
  verify = λ a b. a == b;
  hash = λ a. a;
  verify_totp = λ now secret code. code == secret;
}

abbrev seen : Cache
seen = ("token-id", 10) ∷ []

logged_out_is_refused_example :
    get_current_user keys 600 20 "token" (logout keys 480 500 "token" ada seen office).1 []
    ≡ (err (http 401), [])
unfolding logout revoke_claims add_revoked_token write_audit cache_invalidate
logged_out_is_refused_example =
    logged_out_is_refused keys 480 500 "token" ada seen [] office claims refl refl refl 600 20 refl

abbrev reset_row : PasswordResetToken
reset_row = record {
  id = "pr1";
  user_id = "u1";
  token = "reset-me";
  used = false;
  expires_at = 1000;
  created_at = 0;
}

abbrev resetting : Db
resetting = record office { reset_tokens = reset_row ∷ [] }

reset_token_single_use_example :
    (reset_password keys 900 "reset-me" "other-secret"
      (reset_password keys 800 "reset-me" "new-secret" resetting).1).0
    ≡ err (http 400)
unfolding reset_password use_token complete_reset one_or_none write_audit
reset_token_single_use_example =
    reset_token_single_use keys "reset-me" 800 900 "new-secret" "other-secret" resetting refl

-- Ada with a second factor, and keys that decode the claims of her temporary token.
abbrev wary : User
wary = record ada { totp_secret = some "seed"; totp_enabled = true }

abbrev guarded : Db
guarded = record office { users = wary ∷ [] }

abbrev half_keys : Crypto
half_keys = record keys { decode = λ now t. some (pending_claims keys 480 500 wary guarded) }

pending_token_is_a_session_example :
    ((login half_keys 480 500 "ada@acme.com" "hash" guarded).0
      ≡ ok (record { access_token = ""; requires_2fa = true; temp_token = some "token" }))
    × ((get_current_user half_keys 600 20 "token"
          (login half_keys 480 500 "ada@acme.com" "hash" guarded).1
          seen).0
        ≡ ok wary)
pending_token_is_a_session_example =
    pending_token_is_a_session half_keys 480 500 wary guarded "ada@acme.com" "hash" 600 20 seen refl
      refl refl refl refl refl refl refl

abbrev never : Device → PushOutcome
never d = push_failed

left_iff_example :
    ((process_message never (wakes (some "d1")) office).0 ≡ ok left) ↔ FailsToWake never "d1" office
left_iff_example = left_iff never "d1" office

abbrev group : DeviceGroup
group = record {
  id = "g1";
  tenant_id = "t1";
  name = "Office";
  description = none;
  color = "blue";
  created_at = 0;
}

abbrev grouped : Db
grouped = record office { groups = group ∷ [] }

added_members_example :
    AddsMembers 10 "g1" "t1" grouped grouped
      (add_devices_to_group 10 acme ada "g1" ("d1" ∷ "d7" ∷ []) grouped)
unfolding get_group one_or_none
added_members_example = added_members 10 acme ada "g1" ("d1" ∷ "d7" ∷ []) grouped group refl

abbrev asked : AdminAccessRequest
asked = record grant { id = "r2"; status = RequestStatus.pending }

abbrev asking : Db
asking = record office { requests = grant ∷ asked ∷ [] }

approval_reaches_agent_example :
    ((response : RequestResponse) × ((approving 60 acme ada "r2" asking).0 ≡ ok response)
      × (response.request ≡ granted 60 ada asked))
    × ((approving 60 acme ada "r2" asking).1.requests
        ≡ update_where (λ x. x.id == "r2") (granted 60 ada) asking.requests)
    × ((j : ScriptJob) × ((approving 60 acme ada "r2" asking).1.script_jobs
          ≡ asking.script_jobs ++ j ∷ [])
        × Elevates acme asked account j)
    × (count (is_waiting laptop) (approving 60 acme ada "r2" asking).1.script_jobs
        ≡ count (is_waiting laptop) asking.script_jobs + 1)
approval_reaches_agent_example =
    approval_reaches_agent 60 acme ada "r2" asked account asking laptop refl refl refl refl refl

abbrev revoked_row : RevokedToken
revoked_row = record {
  id = "rt1";
  jti = "token-id";
  user_id = "u1";
  expires_at = 900;
  revoked_at = 15;
}

abbrev elsewhere : Db
elsewhere = record office { revoked_tokens = revoked_row ∷ [] }

revoked_needs_fresh_example :
    (t : ℕ) × ((cache_get seen "token-id" ≡ some t) × (20 ≤ t + revocation_cache_ttl))
unfolding get_current_user check_revocation active_user one_or_none
revoked_needs_fresh_example =
    revoked_needs_fresh keys 600 20 "token" claims elsewhere seen ada refl refl refl refl
