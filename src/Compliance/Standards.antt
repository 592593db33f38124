-- ===== src/Compliance/Standards.antt =====
-- What the built-in policies ask of a device.
use mdm_saa_s.Common.{
  ℕ, ◌+◌, ◌*◌, Bool, true, false, not, ◌||◌, ◌≡◌, refl, ap, ◌∙◌, inl, inr, Option, none, some, leb,
  ltb, some_is, Bool-cases, arith,
}
use mdm_saa_s.Models.{Device, number}
use mdm_saa_s.Database.{ok}
use mdm_saa_s.Compliance.Templates.{iso27001_rules, pci_dss_rules}
use mdm_saa_s.Compliance.Evaluation.{
  judge, flag_verdict, age_verdict, at_most, microseconds_per_hour,
}
use mdm_saa_s.Compliance.Verdicts.{gives, is_fail, some_rule_fails}

-- A check-in that is known, and more than some hours ago.
abbrev pub is_stale : ℕ → ℕ → Option ℕ → Bool
is_stale hours now t = some_is (λ x. not (leb now (x + hours * microseconds_per_hour))) t

-- Known to be off.
abbrev pub is_off : Option Bool → Bool
is_off o = some_is not o

flag_fails : (o : Option Bool) → gives is_fail (ok (flag_verdict o)) ≡ is_off o
unfolding flag_verdict
flag_fails none = refl
flag_fails (some true) = refl
flag_fails (some false) = refl

bound_fails :
    (v offset unit n : ℕ)
    → gives is_fail (at_most v offset unit (some n)) ≡ not (leb v (offset + n * unit))
unfolding at_most
bound_fails v offset unit n = elim (Bool-cases (leb v (offset + n * unit))) [
  | inl e ↦ rw e refl
  | inr e ↦ rw e refl
]

age_fails :
    (now hours : ℕ) (t : Option ℕ)
    → gives is_fail (age_verdict now t (number hours)) ≡ is_stale hours now t
unfolding age_verdict
age_fails now hours none = refl
age_fails now hours (some t) = bound_fails now t microseconds_per_hour hours

count_fails : (n : ℕ) → gives is_fail (at_most n 0 1 (some 0)) ≡ ltb 0 n
count_fails n = bound_fails n 0 1 0 ∙ (ground arith)

or-eq : {a a' b b' : Bool} → a ≡ a' → b ≡ b' → a || b ≡ (a' || b')
or-eq {a' = a'} {b = b} e f = ap (λ x. x || b) e ∙ ap (λ y. a' || y) f

or_false : (b : Bool) → b || false ≡ b
or_false true = refl
or_false false = refl

module _ (now critical : ℕ) (d : Device) where
  -- A device fails ISO 27001 exactly where disk encryption, firewall, Gatekeeper or screen lock is known to
  -- be off, the last check-in is more than 48 hours ago, or a critical update is missing.
  pub iso27001_fails : some_rule_fails now critical d iso27001_rules ≡ (
      is_off d.is_encrypted
      || (is_off d.firewall_enabled
          || (is_off d.gatekeeper_enabled
              || (is_stale 48 now d.last_checkin
                  || (ltb 0 critical || is_off d.screen_lock_enabled)))))
  unfolding some_rule_fails judge
  iso27001_fails = or-eq (flag_fails d.is_encrypted) (
      or-eq (flag_fails d.firewall_enabled) (
        or-eq (flag_fails d.gatekeeper_enabled) (
          or-eq (age_fails now 48 d.last_checkin)
            (or-eq (count_fails critical) (or_false _ ∙ flag_fails d.screen_lock_enabled)))))

  -- A device fails PCI DSS exactly where one of the same four settings is known to be off, the last
  -- check-in is more than 24 hours ago, or a critical update is missing.
  pub pci_dss_fails : some_rule_fails now critical d pci_dss_rules ≡ (
      is_off d.is_encrypted
      || (is_off d.firewall_enabled
          || (is_off d.gatekeeper_enabled
              || (is_stale 24 now d.last_checkin
                  || (ltb 0 critical || is_off d.screen_lock_enabled)))))
  unfolding some_rule_fails judge
  pci_dss_fails = or-eq (flag_fails d.is_encrypted) (
      or-eq (flag_fails d.firewall_enabled) (
        or-eq (flag_fails d.gatekeeper_enabled) (
          or-eq (age_fails now 24 d.last_checkin)
            (or-eq (count_fails critical) (or_false _ ∙ flag_fails d.screen_lock_enabled)))))
