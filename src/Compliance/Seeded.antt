-- ===== src/Compliance/Seeded.antt =====
-- Seeding the policies of a tenant twice.
use mathlib.Core.Path.{subst}
use mdm_saa_s.Common.{
  ℕ, ◌≡◌, refl, sym, ap, ◌∙◌, String, Bool, true, false, List, [], ◌∷◌, ◌++◌, any, All, arith,
  eq_refl,
}
use mdm_saa_s.Models.{CompliancePolicy}
use mdm_saa_s.Database.{Db, Result, ok, err, pure, lift, ◌>>=◌}
use mdm_saa_s.Database.Laws.{bind-ok}
use mdm_saa_s.Compliance.Templates.{Template, framework_templates}
use mdm_saa_s.Compliance.Seed.{is_policy_for, new_policy, seed_one, seed_all, seed_default_policies}

any-append :
    {A : Type 0} (p : A → Bool) (xs ys : List A) → any p xs ≡ true → any p (xs ++ ys) ≡ true
any-append p [] ys h = absurd (cc)
any-append p (x ∷ xs) ys h = ground (arith, any-append p xs ys)

any-last :
    {A : Type 0} (p : A → Bool) (xs : List A) (y : A) → p y ≡ true → any p (xs ++ y ∷ []) ≡ true
any-last p [] y h = rw h refl
any-last p (x ∷ xs) y h = ground (arith, any-last p xs y h)

module _ (now : ℕ) (tenant_id : String) where
  -- The tenant has a policy of each framework.
  abbrev Covers : List Template → Db → Type 0
  Covers ts s = All (λ t. any (is_policy_for tenant_id t.framework) s.policies ≡ true) ts

  nothing_to_seed :
      (ts : List Template) (s : Db) → Covers ts s → seed_all now tenant_id ts s ≡ (ok [], s)
  unfolding seed_all seed_one
  nothing_to_seed [] s h = refl
  nothing_to_seed (t ∷ ts) s (e, h) = rw e (
      bind-ok (seed_all now tenant_id ts) (λ rest. pure ([] ++ rest)) s [] s
        (nothing_to_seed ts s h))

  abbrev exists : Template → Db → Bool
  exists t s = any (is_policy_for tenant_id t.framework) s.policies

  -- The state after the turn of the loop for `t`.
  after_one : Template → Bool → Db → Db
  after_one t b s = (seed_one now tenant_id t b s).1

  pure_state :
      {A B : Type 0} (r : Result A) (f : A → B) (s : Db) → ((lift r >>= λ a. pure (f a)) s).1 ≡ s
  pure_state (ok a) f s = refl
  pure_state (err e) f s = refl

  turn_state :
      (t : Template) (ts : List Template) (b : Bool) (s : Db)
      → ((seed_one now tenant_id t b >>= λ created.
            seed_all now tenant_id ts >>= λ rest. pure (created ++ rest))
          s).1
        ≡ (seed_all now tenant_id ts (after_one t b s)).1
  unfolding seed_one after_one
  turn_state t ts true s =
      let x = seed_all now tenant_id ts (after_one t true s) in
      pure_state x.0 (λ rest. [] ++ rest) x.1
  turn_state t ts false s =
      let x = seed_all now tenant_id ts (after_one t false s) in
      pure_state x.0 (λ rest. (new_policy now tenant_id t (s.uuids s.drawn) ∷ []) ++ rest) x.1

  loop_state :
      (t : Template) (ts : List Template) (s : Db)
      → (seed_all now tenant_id (t ∷ ts) s).1
        ≡ (seed_all now tenant_id ts (after_one t (exists t s) s)).1
  unfolding seed_all
  loop_state t ts s = turn_state t ts (exists t s) s

  one_grows :
      (q : CompliancePolicy → Bool) (t : Template) (b : Bool) (s : Db)
      → any q s.policies ≡ true
      → any q (after_one t b s).policies ≡ true
  unfolding after_one seed_one
  one_grows q t true s h = h
  one_grows q t false s h = any-append q s.policies _ h

  all_grow :
      (q : CompliancePolicy → Bool) (ts : List Template) (s : Db)
      → any q s.policies ≡ true
      → any q (seed_all now tenant_id ts s).1.policies ≡ true
  unfolding seed_all
  all_grow q [] s h = h
  all_grow q (t ∷ ts) s h =
      ap (λ x. any q x.policies) (loop_state t ts s)
      ∙ all_grow q ts (after_one t (exists t s) s) (one_grows q t (exists t s) s h)

  one_covers :
      (t : Template) (b : Bool) (s : Db) → exists t s ≡ b → exists t (after_one t b s) ≡ true
  unfolding after_one seed_one new_policy
  one_covers t true s e = e
  one_covers t false s e =
      any-last (is_policy_for tenant_id t.framework) s.policies _
        (rw (eq_refl tenant_id, eq_refl t.framework) refl)

  all_cover : (ts : List Template) (s : Db) → Covers ts (seed_all now tenant_id ts s).1
  unfolding seed_all
  all_cover [] s = tt
  all_cover (t ∷ ts) s =
      let s' = after_one t (exists t s) s in
      subst (Covers (t ∷ ts)) (sym (loop_state t ts s)) (
        all_grow (is_policy_for tenant_id t.framework) ts s' (one_covers t (exists t s) s refl),
        all_cover ts s',
      )

-- Seeding the policies of a tenant again creates nothing and changes nothing.
pub seed_twice :
    (now later : ℕ) (tenant_id : String) (s : Db)
    → seed_default_policies later tenant_id (seed_default_policies now tenant_id s).1
      ≡ (ok [], (seed_default_policies now tenant_id s).1)
unfolding seed_default_policies
seed_twice now later tenant_id s =
    nothing_to_seed later tenant_id framework_templates (seed_default_policies now tenant_id s).1
      (all_cover now tenant_id framework_templates s)
