-- ===== src/Compliance/Seed.antt =====
-- seed_default_policies: the policies that a tenant starts with.
use mdm_saa_s.Common.{ℕ, String, Bool, true, false, ◌&&◌, List, [], ◌∷◌, ◌++◌, ◌==◌, any, some}
use mdm_saa_s.Models.{CompliancePolicy}
use mdm_saa_s.Database.{Action, pure, gets, modify, new_uuid, ◌>>=◌, ◌>>◌}
use mdm_saa_s.Compliance.Templates.{Template, framework_templates}

-- CompliancePolicy.tenant_id == tenant_id, CompliancePolicy.framework == framework
abbrev pub is_policy_for : String → String → CompliancePolicy → Bool
is_policy_for tenant_id framework p = p.tenant_id == tenant_id && p.framework == framework

unfoldable pub new_policy : ℕ → String → Template → String → CompliancePolicy
new_policy now tenant_id t id = record {
  id = id;
  tenant_id = tenant_id;
  name = t.name;
  framework = t.framework;
  description = some t.description;
  rules = t.rules;
  is_active = true;
  created_at = now;
  updated_at = now;
}

-- The body of the loop over the templates: the policy that it creates, if any.
unfoldable pub seed_one : ℕ → String → Template → Bool → Action (List CompliancePolicy)
unfolding new_policy
seed_one now tenant_id t true = pure []
seed_one now tenant_id t false = do
  id ← new_uuid
  let policy = new_policy now tenant_id t id
  modify (λ s. record s { policies = s.policies ++ policy ∷ [] })
  pure (policy ∷ [])

unfoldable pub seed_all : ℕ → String → List Template → Action (List CompliancePolicy)
unfolding seed_one
seed_all now tenant_id [] = pure []
seed_all now tenant_id (t ∷ ts) = do
  exists ← gets (λ s. any (is_policy_for tenant_id t.framework) s.policies)
  created ← seed_one now tenant_id t exists
  rest ← seed_all now tenant_id ts
  pure (created ++ rest)

unfoldable pub seed_default_policies : ℕ → String → Action (List CompliancePolicy)
unfolding seed_all
seed_default_policies now tenant_id = seed_all now tenant_id framework_templates
