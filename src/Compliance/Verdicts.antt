-- ===== src/Compliance/Verdicts.antt =====
-- The lists that the loop over the rules fills, against the verdict on each rule.
use mathlib.Core.List.{append-nil, append_assoc}
use mdm_saa_s.Common.{
  ℕ, String, Bool, true, false, not, ◌&&◌, ◌||◌, Bool-cases, ◌≡◌, refl, sym, ap, ◌∙◌, inl, inr,
  List, [], ◌∷◌, ◌++◌, if◌then◌else◌,
}
use mdm_saa_s.Models.{Device, is_non_compliant, Rules}
use mdm_saa_s.Database.{Result, ok, err}
use mdm_saa_s.Database.Laws.{Result-cases, ok-injective}
use mdm_saa_s.Compliance.Templates.{label}
use mdm_saa_s.Compliance.Evaluation.{
  Verdict, judge, Tally, empty_tally, add_verdict, tally, tally_status, is_empty,
}

abbrev pub is_pass : Verdict → Bool
is_pass Verdict.passing = true
is_pass _ = false

abbrev pub is_fail : Verdict → Bool
is_fail Verdict.failing = true
is_fail _ = false

abbrev pub is_unknown : Verdict → Bool
is_unknown Verdict.unknown = true
is_unknown _ = false

abbrev pub gives : (Verdict → Bool) → Result Verdict → Bool
gives p (ok v) = p v
gives p (err e) = false

module _ (now critical : ℕ) (device : Device) where
  -- The labels of the rules whose verdict is in `p`, in the order of the rules.
  unfoldable pub labels_with : (Verdict → Bool) → Rules → List String
  labels_with p [] = []
  labels_with p ((control, required) ∷ rules) =
      let rest = labels_with p rules in
      if gives p (judge now critical device control required) then label control ∷ rest else rest

  -- Some rule of the list fails.
  unfoldable pub some_rule_fails : Rules → Bool
  some_rule_fails [] = false
  some_rule_fails ((control, required) ∷ rules) =
      gives is_fail (judge now critical device control required) || some_rule_fails rules

abbrev put : Bool → String → List String → List String
put b l xs = if b then l ∷ xs else xs

-- One step of the loop, on the three lists.
module _ (l : String) (t : Tally) (xs : List String) where
  step_passing :
      (v : Verdict) → (add_verdict v l t).passing ++ xs ≡ t.passing ++ put (is_pass v) l xs
  unfolding add_verdict
  step_passing Verdict.passing = append_assoc t.passing (l ∷ []) xs
  step_passing Verdict.failing = refl
  step_passing Verdict.unknown = refl
  step_passing Verdict.skip = refl

  step_failing :
      (v : Verdict) → (add_verdict v l t).failing ++ xs ≡ t.failing ++ put (is_fail v) l xs
  unfolding add_verdict
  step_failing Verdict.passing = refl
  step_failing Verdict.failing = append_assoc t.failing (l ∷ []) xs
  step_failing Verdict.unknown = refl
  step_failing Verdict.skip = refl

  step_unknown :
      (v : Verdict) → (add_verdict v l t).unknown ++ xs ≡ t.unknown ++ put (is_unknown v) l xs
  unfolding add_verdict
  step_unknown Verdict.passing = refl
  step_unknown Verdict.failing = refl
  step_unknown Verdict.unknown = append_assoc t.unknown (l ∷ []) xs
  step_unknown Verdict.skip = refl

failing_status : (t : Tally) → is_non_compliant (tally_status t) ≡ not (is_empty t.failing)
unfolding tally_status
failing_status t = elim (Bool-cases (is_empty t.failing)) [
  | inl e ↦ elim (Bool-cases (not (is_empty t.unknown) && is_empty t.passing)) [
    | inl k ↦ rw (e, k) refl
    | inr k ↦ rw (e, k) refl
  ]
  | inr e ↦ rw e refl
]

module _ (now critical : ℕ) (device : Device) where
  -- The three lists after the loop, whatever they held before.
  tally_from :
      (rules : Rules) (t t' : Tally)
      → tally now critical device rules t ≡ ok t'
      → (t'.passing ≡ t.passing ++ labels_with now critical device is_pass rules)
        × (t'.failing ≡ t.failing ++ labels_with now critical device is_fail rules)
        × (t'.unknown ≡ t.unknown ++ labels_with now critical device is_unknown rules)
  unfolding tally labels_with
  tally_from [] t t' h =
      let e = sym (ok-injective h) in
      (
        ap (λ x. x.passing) e ∙ sym (append-nil t.passing),
        ap (λ x. x.failing) e ∙ sym (append-nil t.failing),
        ap (λ x. x.unknown) e ∙ sym (append-nil t.unknown),
      )
  tally_from ((c, r) ∷ rules) t t' h = elim (Result-cases (judge now critical device c r)) [
    | inl (v, e) ↦
        let (p, f, u) = tally_from rules (add_verdict v (label c) t) t' (rw e at h) in
        (
          rw e (p ∙ step_passing (label c) t _ v),
          rw e (f ∙ step_failing (label c) t _ v),
          rw e (u ∙ step_unknown (label c) t _ v),
        )
    | inr (x, e) ↦ absurd (cc (rw e at h))
  ]

  -- When no control raises, the three lists hold the labels of the rules that pass, that fail and whose
  -- value is not known, each in the order of the rules.
  pub tally_lists :
      (rules : Rules) (t : Tally)
      → tally now critical device rules empty_tally ≡ ok t
      → (t.passing ≡ labels_with now critical device is_pass rules)
        × (t.failing ≡ labels_with now critical device is_fail rules)
        × (t.unknown ≡ labels_with now critical device is_unknown rules)
  tally_lists rules t h = tally_from rules empty_tally t h

  some_label :
      (rules : Rules)
      → not (is_empty (labels_with now critical device is_fail rules))
        ≡ some_rule_fails now critical device rules
  unfolding labels_with some_rule_fails
  some_label [] = refl
  some_label ((c, r) ∷ rules) = elim (Bool-cases (gives is_fail (judge now critical device c r))) [
    | inl e ↦ rw e refl
    | inr e ↦ rw e (some_label rules)
  ]

  -- The status of a policy is non-compliant exactly where one of its rules fails.
  pub status_of_tally :
      (rules : Rules) (t : Tally)
      → tally now critical device rules empty_tally ≡ ok t
      → is_non_compliant (tally_status t) ≡ some_rule_fails now critical device rules
  status_of_tally rules t h =
      let (_, f, _) = tally_lists rules t h in
      failing_status t ∙ ap (λ xs. not (is_empty xs)) f ∙ some_label rules
