-- ===== src/Apple/Connect/Frame/Evaluation.antt =====
-- The evaluation of policies keeps the frame.
use mdm_saa_s.Common.{ℕ, String, Bool, false, ◌||◌, refl, Option, none, some, List, [], ◌∷◌, select}
use mdm_saa_s.Models.{Device, CompliancePolicy, ComplianceResult, is_non_compliant}
use mdm_saa_s.Database.{Db, pure, ◌>>=◌, if_given, one_or_none}
use mdm_saa_s.Database.Keeps.{Keeps, Keeps-bind, Keeps-if_given, Keeps-pure}
use mdm_saa_s.Compliance.Evaluation.{
  Tally, tally, empty_tally, tally_status, critical_count, is_result_of, write_result,
  upsert_result, evaluate_device, evaluate_policies, set_compliance, evaluate_against,
  evaluate_device_all_policies,
}
use mdm_saa_s.Apple.Checkin.{find_device}
use mdm_saa_s.Apple.Connect.Status.{evaluate_found, evaluate_compliance}
use mdm_saa_s.Apple.Connect.Handler.{evaluate_policies_of}
use mdm_saa_s.Apple.Connect.Frame.Base.{HasFrame, on_devices-HasFrame, elsewhere}

module _ (s0 : Db) where
  write_result-HasFrame :
      (now : ℕ) (d : Device) (p : CompliancePolicy) (t : Tally) (o : Option ComplianceResult)
      → Keeps (HasFrame s0) (write_result now d p t o)
  unfolding write_result
  write_result-HasFrame now d p t none = elsewhere s0 _ (λ s. refl)
  write_result-HasFrame now d p t (some r) = elsewhere s0 _ (λ s. refl)

  upsert_result-HasFrame :
      (now : ℕ) (d : Device) (p : CompliancePolicy) (t : Tally)
      → Keeps (HasFrame s0) (upsert_result now d p t)
  unfolding upsert_result
  upsert_result-HasFrame now d p t =
      Keeps-bind (HasFrame s0) (λ s. (one_or_none (select (is_result_of d.id p.id) s.results), s))
        (λ o. write_result now d p t o >>= λ _. pure (tally_status t)) (elsewhere s0 _ (λ s. refl))
        (λ o.
          Keeps-bind (HasFrame s0) (write_result now d p t o) (λ _. pure (tally_status t))
            (write_result-HasFrame now d p t o) (λ _. Keeps-pure (HasFrame s0) _))

  evaluate_device-HasFrame :
      (now : ℕ) (d : Device) (p : CompliancePolicy) → Keeps (HasFrame s0) (evaluate_device now d p)
  unfolding evaluate_device
  evaluate_device-HasFrame now d p =
      Keeps-bind (HasFrame s0) (λ s. (tally now (critical_count d.id s) d p.rules empty_tally, s))
        (upsert_result now d p) (elsewhere s0 _ (λ s. refl)) (upsert_result-HasFrame now d p)

  evaluate_policies-HasFrame :
      (now : ℕ) (d : Device) (ps : List CompliancePolicy) (b : Bool)
      → Keeps (HasFrame s0) (evaluate_policies now d ps b)
  unfolding evaluate_policies
  evaluate_policies-HasFrame now d [] b = Keeps-pure (HasFrame s0) b
  evaluate_policies-HasFrame now d (p ∷ ps) b =
      Keeps-bind (HasFrame s0) (evaluate_device now d p)
        (λ status. evaluate_policies now d ps (b || is_non_compliant status))
        (evaluate_device-HasFrame now d p)
        (λ status. evaluate_policies-HasFrame now d ps (b || is_non_compliant status))

  evaluate_against-HasFrame :
      (now : ℕ) (d : Device) (ps : List CompliancePolicy)
      → Keeps (HasFrame s0) (evaluate_against now d ps)
  unfolding evaluate_against
  evaluate_against-HasFrame now d [] = Keeps-pure (HasFrame s0) tt
  evaluate_against-HasFrame now d (p ∷ ps) =
      Keeps-bind (HasFrame s0) (evaluate_policies now d (p ∷ ps) false) (set_compliance now d)
        (evaluate_policies-HasFrame now d (p ∷ ps) false)
        (λ b. on_devices-HasFrame s0 _ _ (λ x. refl))

  pub evaluate_policies_of-HasFrame :
      (now : ℕ) (udid : String) → Keeps (HasFrame s0) (evaluate_policies_of now udid)
  unfolding evaluate_policies_of evaluate_device_all_policies find_device
  evaluate_policies_of-HasFrame now udid =
      Keeps-bind (HasFrame s0) (find_device udid)
        (λ o. if_given o (evaluate_device_all_policies now)) (elsewhere s0 _ (λ s. refl))
        (λ o.
          Keeps-if_given (HasFrame s0) o (evaluate_device_all_policies now)
            (λ d. record { at = λ s h. (evaluate_against-HasFrame now d _).at s h }))

  pub evaluate_compliance-HasFrame :
      (now : ℕ) (udid : String) → Keeps (HasFrame s0) (evaluate_compliance now udid)
  unfolding evaluate_compliance
  evaluate_compliance-HasFrame now udid =
      Keeps-bind (HasFrame s0) (find_device udid) (λ o. if_given o (evaluate_found now))
        (elsewhere s0 _ (λ s. refl))
        (λ o.
          Keeps-if_given (HasFrame s0) o (evaluate_found now)
            (λ d. record { at = λ s h. (on_devices-HasFrame s0 _ _ (λ x. refl)).at s h }))
