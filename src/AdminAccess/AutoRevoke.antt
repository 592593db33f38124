-- ===== src/AdminAccess/AutoRevoke.antt =====
-- app/services/auto_revoke.py: one run of the worker that ends the grants whose time is over.
use mdm_saa_s.Common.{
  ℕ, Bool, ◌&&◌, Option, none, some, List, [], ◌∷◌, leb, some_is, truthy, select, update_where,
  if◌then◌else◌,
}
use mdm_saa_s.Models.{AdminAccessRequest, DeviceUser, is_approved}
use mdm_saa_s.Database.{Action, pure, gets, ◌>>=◌, ◌>>◌}
use mdm_saa_s.AdminAccess.Requests.{
  device_user_of, on_requests, has_request_id, revoked, queue_change,
}

-- AdminAccessRequest.status == "approved", AdminAccessRequest.revoke_at <= now
abbrev pub is_due : ℕ → AdminAccessRequest → Bool
is_due now r = is_approved r.status && some_is (λ t. leb t now) r.revoke_at

unfoldable pub revoke_grant : ℕ → AdminAccessRequest → Option DeviceUser → Action Unit
unfolding revoked queue_change
revoke_grant now req none = pure tt
revoke_grant now req (some u) =
    if truthy u.short_name
    then (do
      on_requests (update_where (has_request_id req.id) (revoked now))
      queue_change now req u.short_name "-d" "admin_revocation_auto" none)
    else pure tt

-- The loop over the rows that the query has loaded.
unfoldable pub revoke_all : ℕ → List AdminAccessRequest → Action Unit
unfolding revoke_grant
revoke_all now [] = pure tt
revoke_all now (req ∷ reqs) = do
  user ← gets (device_user_of req)
  revoke_grant now req user
  revoke_all now reqs

unfoldable pub run_once : ℕ → Action Unit
unfolding revoke_all
run_once now = do expired ← gets (λ s. select (is_due now) s.requests); revoke_all now expired
