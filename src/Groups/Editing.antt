-- ===== src/Groups/Editing.antt =====
-- create_group and update_group of app/api/routes/groups.py.
use mdm_saa_s.Common.{ℕ, String, Option, none, some, [], ◌∷◌, ◌++◌, ◌==◌, get_or, update_where}
use mdm_saa_s.Models.{Tenant, User, DeviceGroup}
use mdm_saa_s.Database.{Action, pure, new_uuid, ◌>>=◌, ◌>>◌}
use mdm_saa_s.Audit.{write_audit}
use mdm_saa_s.Groups.Handlers.{get_group, on_groups}

pub record UpdateGroupRequest : Type 0 where
  pub name : Option String
  pub description : Option String
  pub color : Option String

abbrev given_text : Option String → Option String → Option String
given_text none old = old
given_text (some x) old = some x

unfoldable pub edited : UpdateGroupRequest → DeviceGroup → DeviceGroup
edited body g = record g {
  name = get_or body.name g.name;
  description = given_text body.description g.description;
  color = get_or body.color g.color;
}

module _ (now : ℕ) (tenant : Tenant) (user : User) where
  unfoldable pub create_group : String → Option String → String → Action DeviceGroup
  unfolding write_audit
  create_group name description color = do
    id ← new_uuid
    let group : DeviceGroup = record {
      id = id;
      tenant_id = tenant.id;
      name = name;
      description = description;
      color = color;
      created_at = now;
    }
    on_groups (λ gs. gs ++ group ∷ [])
    write_audit now tenant.id "group.create" "device_group" (some user.id) (some id)
    pure group

  unfoldable pub update_group : String → UpdateGroupRequest → Action DeviceGroup
  unfolding get_group edited write_audit
  update_group group_id body = do
    group ← get_group group_id tenant
    on_groups (update_where (λ g. g.id == group.id) (edited body))
    write_audit now tenant.id "group.update" "device_group" (some user.id) (some group_id)
    pure (edited body group)
