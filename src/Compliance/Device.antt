-- ===== src/Compliance/Device.antt =====
-- The status that evaluate_device_all_policies gives a device.
use mathlib.Core.Path.{subst}
use mdm_saa_s.Common.{
  ℕ, String, Bool, true, false, ◌&&◌, ◌||◌, count, ◌==◌, ◌≡◌, refl, sym, ap, ◌∙◌, inl, inr, Option,
  none, some, List, [], ◌∷◌, select, update_where,
}
use mdm_saa_s.Models.{
  Device, DeviceUpdate, CompliancePolicy, ComplianceResult, ComplianceStatus, is_non_compliant,
}
use mdm_saa_s.Database.{Db, Result, ok, err, Action, pure, lift, ◌>>=◌, ◌>>◌, one_or_none, has_id}
use mdm_saa_s.Database.Laws.{Result-cases, bind-ok, bind-err, ok-injective, err≢ok}
use mdm_saa_s.Compliance.Evaluation.{
  Tally, empty_tally, tally, tally_status, critical_count, is_result_of, write_result,
  upsert_result, evaluate_device, evaluate_policies, set_compliance, evaluate_against,
  is_active_policy_of, overall, evaluate_device_all_policies,
}
use mdm_saa_s.Compliance.Verdicts.{some_rule_fails, status_of_tally}

or_assoc : (a b c : Bool) → a || (b || c) ≡ (a || b) || c
or_assoc true b c = refl
or_assoc false b c = refl

or_false : (b : Bool) → b || false ≡ b
or_false true = refl
or_false false = refl

abbrev is_critical_of : String → DeviceUpdate → Bool
is_critical_of id u = u.device_id == id && u.is_critical

module _ (now : ℕ) (device : Device) where
  -- A run that leaves the tables of devices and of updates alone, with a property of its result.
  abbrev Judges : {A : Type 0} → (A → Type 0) → Db → Result A × Db → Type 0
  Judges P s x =
      ((a : _) → x.0 ≡ ok a → P a)
      × (x.1.devices ≡ s.devices)
      × (x.1.device_updates ≡ s.device_updates)

  finish : CompliancePolicy → Tally → Result (Option ComplianceResult) → Action ComplianceStatus
  finish p t r = do existing ← lift r; write_result now device p t existing; pure (tally_status t)

  finish-Judges :
      (p : CompliancePolicy) (t : Tally) (r : Result (Option ComplianceResult)) (s : Db)
      → Judges (λ st. tally_status t ≡ st) s (finish p t r s)
  unfolding finish write_result
  finish-Judges p t (ok none) s = ((λ a h. ok-injective h), refl, refl)
  finish-Judges p t (ok (some r)) s = ((λ a h. ok-injective h), refl, refl)
  finish-Judges p t (err e) s = ((λ a h. err≢ok h), refl, refl)

  judge_policy : CompliancePolicy → Result Tally → Action ComplianceStatus
  judge_policy p r = do t ← lift r; upsert_result now device p t

  judge_policy_ok :
      (p : CompliancePolicy) (r : Result Tally) (s : Db)
      → tally now (critical_count device.id s) device p.rules empty_tally ≡ r
      → Judges
          (λ st.
            some_rule_fails now (critical_count device.id s) device p.rules ≡ is_non_compliant st)
          s
          (judge_policy p r s)
  unfolding judge_policy upsert_result finish
  judge_policy_ok p (ok t) s e =
      let found = one_or_none (select (is_result_of device.id p.id) s.results) in
      let (st, d, u) = finish-Judges p t found s in
      (
        (λ a h.
            sym (status_of_tally now (critical_count device.id s) device p.rules t e)
            ∙ ap is_non_compliant (st a h)),
        d,
        u,
      )
  judge_policy_ok p (err x) s e = ((λ a h. err≢ok h), refl, refl)

  policy_judged :
      (p : CompliancePolicy) (s : Db)
      → Judges
          (λ st.
            some_rule_fails now (critical_count device.id s) device p.rules ≡ is_non_compliant st)
          s
          (evaluate_device now device p s)
  unfolding evaluate_device judge_policy
  policy_judged p s = judge_policy_ok p _ s refl

  -- Some rule of one of the policies fails.
  unfoldable pub some_policy_fails : ℕ → List CompliancePolicy → Bool
  some_policy_fails critical [] = false
  some_policy_fails critical (p ∷ ps) =
      some_rule_fails now critical device p.rules || some_policy_fails critical ps

  policies_judged :
      (ps : List CompliancePolicy) (b : Bool) (s : Db)
      → Judges
          (λ x. b || some_policy_fails (critical_count device.id s) ps ≡ x)
          s
          (evaluate_policies now device ps b s)
  unfolding evaluate_policies some_policy_fails critical_count
  policies_judged [] b s = ((λ a h. or_false b ∙ ok-injective h), refl, refl)
  policies_judged (p ∷ ps) b s =
      let run = evaluate_device now device p s in
      let (j, d, u) = policy_judged p s in
      let rest : ComplianceStatus → Action Bool =
        λ st. evaluate_policies now device ps (b || is_non_compliant st) in
      elim (Result-cases run.0) [
        | inl (st, e) ↦
            let (j', d', u') = policies_judged ps (b || is_non_compliant st) run.1 in
            subst (Judges (λ x. b || some_policy_fails (critical_count device.id s) (p ∷ ps) ≡ x) s)
              (sym
                (bind-ok (evaluate_device now device p) rest s st run.1 (ap (λ r. (r, run.1)) e)))
              (
                (λ a h.
                    ap (λ x. b || (x || some_policy_fails (critical_count device.id s) ps)) (j st e)
                    ∙ or_assoc b (is_non_compliant st) _
                    ∙ ap
                        (λ us.
                          (b || is_non_compliant st)
                          || some_policy_fails (count (is_critical_of device.id) us) ps)
                        (sym u)
                    ∙ j' a h),
                d' ∙ d,
                u' ∙ u,
              )
        | inr (x, e) ↦
            subst (Judges (λ x. b || some_policy_fails (critical_count device.id s) (p ∷ ps) ≡ x) s)
              (sym
                (bind-err (evaluate_device now device p) rest s x run.1 (ap (λ r. (r, run.1)) e)))
              ((λ a h. err≢ok h), d, u)
      ]

  -- A row with the status of the evaluation.
  abbrev pub marked : Bool → Device → Device
  marked any_failing d = record d {
    compliance_status = overall any_failing;
    compliance_checked_at = some now;
  }

  -- After a device is evaluated against the active policies of its tenant, of which there is one at
  -- least, and nothing raises, its row is non-compliant if some rule of some of these policies fails, and
  -- compliant otherwise, and carries the time of the evaluation.
  pub evaluated_device :
      (s : Db) (p : CompliancePolicy) (ps : List CompliancePolicy)
      → select (is_active_policy_of device.tenant_id) s.policies ≡ p ∷ ps
      → (evaluate_device_all_policies now device s).0 ≡ ok tt
      → (evaluate_device_all_policies now device s).1.devices
        ≡ update_where
            (has_id device.id)
            (marked (some_policy_fails (critical_count device.id s) (p ∷ ps)))
            s.devices
  unfolding evaluate_device_all_policies evaluate_against set_compliance
  evaluated_device s p ps e h =
      let start = ap (λ xs. evaluate_against now device xs s) e in
      let run = evaluate_policies now device (p ∷ ps) false s in
      let (j, d, u) = policies_judged (p ∷ ps) false s in
      elim (Result-cases run.0) [
        | inl (b, k) ↦
            ap (λ x. x.1.devices)
              (start
                ∙ bind-ok (evaluate_policies now device (p ∷ ps) false) (set_compliance now device)
                    s b run.1 (ap (λ r. (r, run.1)) k))
            ∙ ap (update_where (has_id device.id) (marked b)) d
            ∙ ap (λ x. update_where (has_id device.id) (marked x) s.devices) (sym (j b k))
        | inr (x, k) ↦ err≢ok (
            sym (
              ap (λ x. x.0)
                (start
                  ∙ bind-err (evaluate_policies now device (p ∷ ps) false)
                      (set_compliance now device) s x run.1 (ap (λ r. (r, run.1)) k)))
            ∙ h)
      ]
