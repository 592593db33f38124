-- ===== src/Compliance/Results.antt =====
-- How many results a device has for a policy.
use mdm_saa_s.Common.{
  ℕ, ◌≤◌, ◌≡◌, refl, sym, ap, ◌∙◌, String, Bool, true, false, ◌&&◌, ◌||◌, Option, none, some, List,
  [], ◌∷◌, ◌++◌, ◌==◌, arith, Bool-cases, inl, inr, count, select, update_where, count-append,
  eq_iff,
}
use mdm_saa_s.Models.{
  Device, CompliancePolicy, ComplianceResult, ComplianceStatus, is_non_compliant,
}
use mdm_saa_s.Database.{Db, Action, Result, ok, err, pure, gets, lift, one_or_none, ◌>>=◌, ◌>>◌}
use mdm_saa_s.Database.Laws.{one_or_none-none}
use mdm_saa_s.Database.Keeps.{Keeps, Keeps-bind, Keeps-gets, Keeps-lift, Keeps-pure}
use mdm_saa_s.Compliance.Evaluation.{
  Tally, tally, empty_tally, tally_status, critical_count, is_result_of, rejudged, new_result,
  write_result, upsert_result, evaluate_device, evaluate_policies, set_compliance, evaluate_against,
  is_active_policy_of, evaluate_device_all_policies,
}

-- Every device has one result at most for every policy.
abbrev pub HasOneResult : Db → Type 0
HasOneResult s = (d p : String) → count (is_result_of d p) s.results ≤ 1

none_selected : {A : Type 0} (p : A → Bool) (xs : List A) → select p xs ≡ [] → count p xs ≡ 0
none_selected p [] h = refl
none_selected p (x ∷ xs) h = ground (arith, none_selected p xs)

count-update_where :
    {A : Type 0} (q p : A → Bool) (f : A → A) (xs : List A)
    → ((x : A) → q (f x) ≡ q x)
    → count q (update_where p f xs) ≡ count q xs
count-update_where q p f [] k = refl
count-update_where q p f (x ∷ xs) k = ground (arith, k x, count-update_where q p f xs k)

count_single_le : {A : Type 0} (p : A → Bool) (x : A) → count p (x ∷ []) ≤ 1
count_single_le p x = elim (Bool-cases (p x)) [
  | inl e ↦ rw e (omega arith)
  | inr e ↦ rw e (omega arith)
]

count_single : {A : Type 0} (p : A → Bool) (x : A) → p x ≡ false → count p (x ∷ []) ≡ 0
count_single p x e = rw e refl

both_true : (a b : Bool) → (a && b) ≡ true → (a ≡ true) × (b ≡ true)
both_true a b h = ground arith

module _ (now : ℕ) (device : Device) where
  -- A new result for a pair that has none.
  inserted :
      (policy : CompliancePolicy) (t : Tally) (id d p : String) (rs : List ComplianceResult)
      → count (is_result_of d p) rs ≤ 1
      → count (is_result_of device.id policy.id) rs ≡ 0
      → count (is_result_of d p) (rs ++ new_result now device policy t id ∷ []) ≤ 1
  unfolding new_result
  inserted policy t id d p rs h z =
      let new = new_result now device policy t id in
      let sum = count-append (is_result_of d p) rs (new ∷ []) in
      elim (Bool-cases (device.id == d && policy.id == p)) [
        | inl e ↦
            let (a, b) = both_true (device.id == d) (policy.id == p) e in
            let zero_here =
              ap (λ x. count (is_result_of x p) rs) (sym ((eq_iff device.id d).0 a))
              ∙ ap (λ x. count (is_result_of device.id x) rs) (sym ((eq_iff policy.id p).0 b))
              ∙ z in
            omega (arith, sum, zero_here, count_single_le (is_result_of d p) new)
        | inr e ↦ omega (arith, sum, h, count_single (is_result_of d p) new e)
      ]

  write : CompliancePolicy → Tally → Result (Option ComplianceResult) → Action ComplianceStatus
  write policy t r = do
    existing ← lift r
    write_result now device policy t existing
    pure (tally_status t)

  written :
      (policy : CompliancePolicy) (t : Tally) (r : Result (Option ComplianceResult)) (s : Db)
      → one_or_none (select (is_result_of device.id policy.id) s.results) ≡ r
      → HasOneResult s
      → HasOneResult (write policy t r s).1
  unfolding write write_result rejudged
  written policy t (ok none) s e h d p = inserted policy t (s.uuids s.drawn) d p s.results (h d p) (
      none_selected (is_result_of device.id policy.id) s.results
        (one_or_none-none (select (is_result_of device.id policy.id) s.results) e))
  written policy t (ok (some r)) s e h d p = omega (
    arith,
    h d p,
    count-update_where (is_result_of d p) (is_result_of device.id policy.id) (rejudged now t)
        s.results (λ x. refl),
  )
  written policy t (err x) s e h d p = h d p

  upsert-Keeps :
      (policy : CompliancePolicy) (t : Tally)
      → Keeps HasOneResult (upsert_result now device policy t)
  unfolding upsert_result write
  upsert-Keeps policy t = record { at = λ s h. written policy t _ s refl h }

  device-Keeps :
      (policy : CompliancePolicy) → Keeps HasOneResult (evaluate_device now device policy)
  unfolding evaluate_device
  device-Keeps policy =
      let judged = λ (critical : ℕ).
        lift (tally now critical device policy.rules empty_tally)
        >>= upsert_result now device policy in
      Keeps-bind HasOneResult (gets (critical_count device.id)) judged
        (Keeps-gets HasOneResult (critical_count device.id))
        (λ critical.
          Keeps-bind HasOneResult (lift (tally now critical device policy.rules empty_tally))
            (upsert_result now device policy) (Keeps-lift HasOneResult _) (upsert-Keeps policy))

  policies-Keeps :
      (ps : List CompliancePolicy) (b : Bool)
      → Keeps HasOneResult (evaluate_policies now device ps b)
  unfolding evaluate_policies
  policies-Keeps [] b = Keeps-pure HasOneResult b
  policies-Keeps (p ∷ ps) b =
      Keeps-bind HasOneResult (evaluate_device now device p)
        (λ status. evaluate_policies now device ps (b || is_non_compliant status)) (device-Keeps p)
        (λ status. policies-Keeps ps (b || is_non_compliant status))

  against-Keeps : (ps : List CompliancePolicy) → Keeps HasOneResult (evaluate_against now device ps)
  unfolding evaluate_against set_compliance
  against-Keeps [] = Keeps-pure HasOneResult tt
  against-Keeps (p ∷ ps) =
      Keeps-bind HasOneResult (evaluate_policies now device (p ∷ ps) false)
        (set_compliance now device) (policies-Keeps (p ∷ ps) false) (λ b. record { at = λ s h. h })

  -- Evaluating a device keeps it true that every device has one stored result at most for every policy,
  -- whether the evaluation returns or raises.
  pub evaluation_keeps_one_result :
      (s : Db) → HasOneResult s → HasOneResult (evaluate_device_all_policies now device s).1
  unfolding evaluate_device_all_policies
  evaluation_keeps_one_result s h =
      (against-Keeps (select (is_active_policy_of device.tenant_id) s.policies)).at s h
