-- ===== src/Groups/Membership.antt =====
-- Which devices add_devices_to_group adds.
use mathlib.Core.List.{append-nil, append_assoc}
use mdm_saa_s.Common.{
  ℕ, suc, ◌≡◌, refl, sym, ap, ◌∙◌, String, true, false, not, ◌&&◌, List, [], ◌∷◌, ◌++◌, All, arith,
  Bool-cases, inl, inr, length, some,
}
use mdm_saa_s.Models.{Tenant, User, DeviceGroup, DeviceGroupMember}
use mdm_saa_s.Database.{Db, Action, Result, ok, pure, gets, ◌>>=◌, ◌>>◌}
use mdm_saa_s.Database.Laws.{bind-ok}
use mdm_saa_s.Audit.{write_audit}
use mdm_saa_s.Groups.Handlers.{
  get_group, is_valid_device, already_in, add_member, add_members, add_devices_to_group,
}

module _ (now : ℕ) (group_id tenant_id : String) (s0 : Db) where
  -- A row of this group and tenant, for a device of the tenant that was not a member at the start.
  abbrev pub IsNewMember : DeviceGroupMember → Type 0
  IsNewMember m =
      (m.group_id ≡ group_id)
      × (m.tenant_id ≡ tenant_id)
      × (is_valid_device tenant_id s0 m.device_id ≡ true)
      × (already_in group_id s0 m.device_id ≡ false)

  -- A run that returns how many such rows it has added.
  abbrev pub AddsMembers : Db → Result ℕ × Db → Type 0
  AddsMembers s x =
      (ms : List DeviceGroupMember) × ((x.0 ≡ ok (length ms))
        × ((x.1.members ≡ s.members ++ ms) × All IsNewMember ms))

  add_one : String → List String → Action ℕ
  add_one d ds = do
    add_member now group_id tenant_id d
    n ← add_members now group_id tenant_id s0 ds
    pure (suc n)

  eligible :
      (d : String)
      → (is_valid_device tenant_id s0 d && not (already_in group_id s0 d)) ≡ true
      → (is_valid_device tenant_id s0 d ≡ true) × (already_in group_id s0 d ≡ false)
  eligible d h = ground arith

  one_adds :
      (d : String) (ds : List String) (s : Db)
      → (is_valid_device tenant_id s0 d && not (already_in group_id s0 d)) ≡ true
      → ((t : Db) → AddsMembers t (add_members now group_id tenant_id s0 ds t))
      → AddsMembers s (add_one d ds s)
  unfolding add_one add_member
  one_adds d ds s e k =
      let s' = (add_member now group_id tenant_id d s).1 in
      let (ms, (count, (rows, good))) = k s' in
      let rest = add_members now group_id tenant_id s0 ds in
      let run =
        bind-ok rest (λ n. pure (suc n)) s' (length ms) (rest s').1
          (ap (λ r. (r, (rest s').1)) count) in
      let (valid, fresh) = eligible d e in
      (
        _ ∷ ms,
        (
          ap (λ x. x.0) run,
          (
            ap (λ x. x.1.members) run ∙ rows ∙ append_assoc s.members _ ms,
            ((refl, refl, valid, fresh), good),
          ),
        ),
      )

  loop_adds :
      (ds : List String) (s : Db) → AddsMembers s (add_members now group_id tenant_id s0 ds s)
  unfolding add_members add_one
  loop_adds [] s = ([], (refl, (sym (append-nil s.members), tt)))
  loop_adds (d ∷ ds) s =
      elim (Bool-cases (is_valid_device tenant_id s0 d && not (already_in group_id s0 d))) [
        | inl e ↦ rw (e, add_members) (one_adds d ds s e (loop_adds ds))
        | inr e ↦ rw (e, add_members) (loop_adds ds s)
      ]

-- Adding devices to a group of the tenant returns how many rows it adds. Each of these is for a device of
-- the tenant, whichever devices the caller names, and for one that was not a member of the group before.
pub added_members :
    (now : ℕ) (tenant : Tenant) (user : User) (group_id : String) (device_ids : List String)
    (s : Db) (g : DeviceGroup)
    → get_group group_id tenant s ≡ (ok g, s)
    → AddsMembers now group_id tenant.id s s
        (add_devices_to_group now tenant user group_id device_ids s)
unfolding add_devices_to_group write_audit
added_members now tenant user group_id device_ids s g found =
    let (ms, (count, (rows, good))) = loop_adds now group_id tenant.id s device_ids s in
    let add = add_members now group_id tenant.id s device_ids in
    let last : ℕ → Action ℕ = λ added.
      write_audit now tenant.id "group.add_devices" "device_group" (some user.id) (some group_id)
      >> pure added in
    let inner : Db → Action ℕ = λ s0. add_members now group_id tenant.id s0 device_ids >>= last in
    let run =
      bind-ok (get_group group_id tenant) (λ _. gets (λ t. t) >>= inner) s g s found
      ∙ bind-ok add last s (length ms) (add s).1 (ap (λ r. (r, (add s).1)) count) in
    (ms, (ap (λ x. x.0) run, (ap (λ x. x.1.members) run ∙ rows, good)))
