-- ===== src/Audit.antt =====
-- app/services/audit.py
use mdm_saa_s.Common.{ℕ, String, Option, [], ◌∷◌, ◌++◌}
use mdm_saa_s.Database.{Action, modify, new_uuid, ◌>>=◌}

unfoldable pub write_audit :
    ℕ → String → String → String → Option String → Option String → Action Unit
write_audit now tenant_id action resource_type actor_id resource_id = do
  id ← new_uuid
  modify (λ s. record s {
    audit_logs =
        s.audit_logs
        ++ (record {
          id = id;
          tenant_id = tenant_id;
          actor_id = actor_id;
          action = action;
          resource_type = resource_type;
          resource_id = resource_id;
          created_at = now;
        })
          ∷ [];
  })
