-- ===== src/Compliance/Evaluation.antt =====
-- evaluate_device and evaluate_device_all_policies.
use mdm_saa_s.Common.{
  ℕ, zero, suc, ◌+◌, ◌*◌, String, Bool, true, false, not, ◌&&◌, ◌||◌, Option, none, some, List, [],
  ◌∷◌, ◌++◌, ◌==◌, leb, select, update_where, count, if◌then◌else◌,
}
use mdm_saa_s.Models.{
  Device, CompliancePolicy, ComplianceResult, ComplianceStatus, is_non_compliant, RuleValue, Rules,
  flag, number, text,
}
use mdm_saa_s.Database.{
  Db, Action, Result, ok, err, pure, lift, gets, modify, type_error, new_uuid, ◌>>=◌, ◌>>◌,
  one_or_none, on_devices, has_id,
}
use mdm_saa_s.Compliance.Templates.{label}

abbrev pub microseconds_per_hour : ℕ
microseconds_per_hour = 3_600_000_000

-- What one control says of a device; `skip` is a control that is switched off or not known.
pub data Verdict : Type 0 where
  passing failing unknown skip : Verdict

-- `bool(required)`
abbrev pub is_required : RuleValue → Bool
is_required (flag b) = b
is_required (number zero) = false
is_required (number (suc n)) = true
is_required (text s) = not (s == "")

-- `required` in a comparison with a number: True is 1, and a text raises.
abbrev pub bound : RuleValue → Option ℕ
bound (flag true) = some 1
bound (flag false) = some 0
bound (number n) = some n
bound (text s) = none

unfoldable pub flag_verdict : Option Bool → Verdict
flag_verdict none = unknown
flag_verdict (some true) = passing
flag_verdict (some false) = failing

-- `value <= required * unit`
unfoldable pub at_most : ℕ → ℕ → ℕ → Option ℕ → Result Verdict
at_most value offset unit none = err type_error
at_most value offset unit (some n) = ok (if leb value (offset + n * unit) then passing else failing)

-- The age of the last check-in in hours is at most `required`. The division by 3600 is exact here.
unfoldable pub age_verdict : ℕ → Option ℕ → RuleValue → Result Verdict
unfolding at_most
age_verdict now none required = ok unknown
age_verdict now (some t) required = at_most now t microseconds_per_hour (bound required)

unfoldable pub psso_verdict : String → Verdict
psso_verdict status =
    if status == "registered"
    then passing
    else if status == "not_configured"
    then failing
    else unknown

-- The body of the loop over `rules.items()`. `critical` is the device's number of critical updates.
unfoldable pub judge : ℕ → ℕ → Device → String → RuleValue → Result Verdict
unfolding flag_verdict at_most age_verdict psso_verdict
judge now critical device control required =
    if control == "filevault_required" && is_required required
    then ok (flag_verdict device.is_encrypted)
    else if control == "firewall_required" && is_required required
    then ok (flag_verdict device.firewall_enabled)
    else if control == "gatekeeper_required" && is_required required
    then ok (flag_verdict device.gatekeeper_enabled)
    else if control == "screen_lock_required" && is_required required
    then ok (flag_verdict device.screen_lock_enabled)
    else if control == "max_checkin_age_hours"
    then age_verdict now device.last_checkin required
    else if control == "critical_updates_allowed"
    then at_most critical 0 1 (bound required)
    else if control == "psso_required" && is_required required
    then ok (psso_verdict device.psso_status)
    else ok skip

-- The three lists that the loop fills.
pub record Tally : Type 0 where
  pub passing : List String
  pub failing : List String
  pub unknown : List String

abbrev pub empty_tally : Tally
empty_tally = record { passing = []; failing = []; unknown = [] }

unfoldable pub add_verdict : Verdict → String → Tally → Tally
add_verdict passing name t = record t { passing = t.passing ++ name ∷ [] }
add_verdict failing name t = record t { failing = t.failing ++ name ∷ [] }
add_verdict unknown name t = record t { unknown = t.unknown ++ name ∷ [] }
add_verdict skip name t = t

abbrev on_ok : {A B : Type 0} → Result A → (A → Result B) → Result B
on_ok (ok a) f = f a
on_ok (err e) f = err e

unfoldable pub tally : ℕ → ℕ → Device → Rules → Tally → Result Tally
tally now critical device [] t = ok t
tally now critical device ((control, required) ∷ rules) t =
    on_ok (judge now critical device control required)
      (λ v. tally now critical device rules (add_verdict v (label control) t))

abbrev pub is_empty : List String → Bool
is_empty [] = true
is_empty (x ∷ xs) = false

unfoldable pub tally_status : Tally → ComplianceStatus
tally_status t =
    if not (is_empty t.failing)
    then ComplianceStatus.non_compliant
    else if not (is_empty t.unknown) && is_empty t.passing
    then ComplianceStatus.unknown
    else ComplianceStatus.compliant

-- DeviceUpdate.device_id == device.id, DeviceUpdate.is_critical == True
unfoldable pub critical_count : String → Db → ℕ
critical_count id s = count (λ u. u.device_id == id && u.is_critical) s.device_updates

abbrev pub is_result_of : String → String → ComplianceResult → Bool
is_result_of device_id policy_id r = r.device_id == device_id && r.policy_id == policy_id

abbrev pub on_results : (List ComplianceResult → List ComplianceResult) → Action Unit
on_results f = modify (λ s. record s { results = f s.results })

unfoldable pub rejudged : ℕ → Tally → ComplianceResult → ComplianceResult
rejudged now t r = record r {
  status = tally_status t;
  passing = t.passing;
  failing = t.failing;
  unknown = t.unknown;
  checked_at = now;
}

unfoldable pub new_result : ℕ → Device → CompliancePolicy → Tally → String → ComplianceResult
new_result now device policy t id = record {
  id = id;
  device_id = device.id;
  policy_id = policy.id;
  tenant_id = device.tenant_id;
  status = tally_status t;
  passing = t.passing;
  failing = t.failing;
  unknown = t.unknown;
  checked_at = now;
}

unfoldable pub write_result :
    ℕ → Device → CompliancePolicy → Tally → Option ComplianceResult → Action Unit
unfolding rejudged new_result
write_result now device policy t (some _) =
    on_results (update_where (is_result_of device.id policy.id) (rejudged now t))
write_result now device policy t none = do
  id ← new_uuid
  on_results (λ rs. rs ++ new_result now device policy t id ∷ [])

unfoldable pub upsert_result : ℕ → Device → CompliancePolicy → Tally → Action ComplianceStatus
unfolding one_or_none write_result
upsert_result now device policy t = do
  found ← gets (λ s. select (is_result_of device.id policy.id) s.results)
  existing ← lift (one_or_none found)
  write_result now device policy t existing
  pure (tally_status t)

unfoldable pub evaluate_device : ℕ → Device → CompliancePolicy → Action ComplianceStatus
evaluate_device now device policy = do
  critical ← gets (critical_count device.id)
  t ← lift (tally now critical device policy.rules empty_tally)
  upsert_result now device policy t

-- The loop over the policies; the result is `any_failing`.
unfoldable pub evaluate_policies : ℕ → Device → List CompliancePolicy → Bool → Action Bool
evaluate_policies now device [] any_failing = pure any_failing
evaluate_policies now device (p ∷ ps) any_failing = do
  status ← evaluate_device now device p
  evaluate_policies now device ps (any_failing || is_non_compliant status)

abbrev pub is_active_policy_of : String → CompliancePolicy → Bool
is_active_policy_of tenant_id p = p.tenant_id == tenant_id && p.is_active

abbrev pub overall : Bool → ComplianceStatus
overall any_failing =
    if any_failing then ComplianceStatus.non_compliant else ComplianceStatus.compliant

unfoldable pub set_compliance : ℕ → Device → Bool → Action Unit
set_compliance now device any_failing = on_devices (
    update_where (has_id device.id)
      (λ d. record d { compliance_status = overall any_failing; compliance_checked_at = some now }))

-- `if not policies: return`
unfoldable pub evaluate_against : ℕ → Device → List CompliancePolicy → Action Unit
unfolding set_compliance evaluate_policies
evaluate_against now device [] = pure tt
evaluate_against now device (p ∷ ps) = do
  any_failing ← evaluate_policies now device (p ∷ ps) false
  set_compliance now device any_failing

unfoldable pub evaluate_device_all_policies : ℕ → Device → Action Unit
unfolding evaluate_against
evaluate_device_all_policies now device = do
  policies ← gets (λ s. select (is_active_policy_of device.tenant_id) s.policies)
  evaluate_against now device policies
