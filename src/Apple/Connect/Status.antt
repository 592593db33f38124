-- ===== src/Apple/Connect/Status.antt =====
-- _evaluate_compliance: the device's own compliance status, from what it has reported.
use mdm_saa_s.Common.{
  ℕ, ◌+◌, ◌*◌, String, Bool, not, ◌||◌, some, ltb, some_is, present, update_where,
}
use mdm_saa_s.Models.{Device}
use mdm_saa_s.Database.{Action, gets, if_given, on_devices, has_id, ◌>>=◌}
use mdm_saa_s.Compliance.Evaluation.{critical_count, overall, microseconds_per_hour}
use mdm_saa_s.Apple.Checkin.{find_device}

-- One of the four tests of the handler finds an issue.
unfoldable pub has_issue : ℕ → Device → ℕ → Bool
has_issue now device critical =
    some_is not device.is_encrypted
    || not (present device.os_version)
    || some_is (λ t. ltb (t + 24 * microseconds_per_hour) now) device.last_checkin
    || ltb 0 critical

unfoldable pub evaluate_found : ℕ → Device → Action Unit
evaluate_found now device = do
  critical ← gets (critical_count device.id)
  on_devices (
      update_where (has_id device.id) (λ d. record d {
        compliance_status = overall (has_issue now device critical);
        compliance_checked_at = some now;
      }))

unfoldable pub evaluate_compliance : ℕ → String → Action Unit
unfolding find_device evaluate_found
evaluate_compliance now udid = do found ← find_device udid; if_given found (evaluate_found now)
