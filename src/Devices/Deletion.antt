-- ===== src/Devices/Deletion.antt =====
-- What the deletion of a device leaves, whether the database carries the statement out or refuses it.
use mathlib.Core.Path.{subst}
use mdm_saa_s.Common.{
  ℕ, ◌+◌, ◌≡◌, refl, sym, ap, ◌∙◌, ◌⊎◌, inl, inr, String, Bool, true, false, not, none, some, List,
  [], ◌∷◌, ◌++◌, ◌==◌, any, select, delete_where, length, arith, Bool-cases,
}
use mdm_saa_s.Models.{Tenant, User, Device, AuditLog}
use mdm_saa_s.Database.{
  Db, Action, Failure, Result, ok, err, http, pure, raise, lift, one_or_none, get_db, ◌>>◌, ◌>>=◌,
}
use mdm_saa_s.Database.Laws.{bind_inv, err≢ok, ok-injective, bind-ok}
use mdm_saa_s.Audit.{write_audit}
use mdm_saa_s.Devices.Handlers.{is_device_of, delete_device, get_device}

module _ {A : Type 0} (p : A → Bool) where
  length-delete_where :
      (xs : List A) → length (delete_where p xs) + length (select p xs) ≡ length xs
  length-delete_where [] = refl
  length-delete_where (x ∷ xs) = ground (arith, length-delete_where xs)

  any-delete_where : (xs : List A) → any p (delete_where p xs) ≡ false
  any-delete_where [] = refl
  any-delete_where (x ∷ xs) = ground (arith, any-delete_where xs)

  select-delete_where :
      (q : A → Bool)
      → ((x : A) → p x ≡ true → q x ≡ false)
      → (xs : List A) → select q (delete_where p xs) ≡ select q xs
  select-delete_where q k [] = refl
  select-delete_where q k (x ∷ xs) = elim (Bool-cases (p x)) [
    | inl e ↦ ground (arith, k x e, select-delete_where q k xs)
    | inr e ↦ ground (arith, select-delete_where q k xs)
  ]

-- What the database does with the statement, if it does not refuse it: of the devices it deletes the matching rows,
-- and the audit log has no reference to a device.
abbrev pub DeletesDevices : (String → Tenant → Action Unit) → Type 0
DeletesDevices execute =
    (id : String) (tenant : Tenant) (s : Db)
    → (execute id tenant s).0 ≡ ok tt
    → ((execute id tenant s).1.devices ≡ delete_where (is_device_of id tenant) s.devices)
      × ((execute id tenant s).1.audit_logs ≡ s.audit_logs)

-- The entry that says who has deleted which device of the tenant.
abbrev pub Records : Tenant → User → String → AuditLog → Type 0
Records tenant user id a =
    (a.tenant_id ≡ tenant.id)
    × (a.action ≡ "device.delete")
    × (a.actor_id ≡ some user.id)
    × (a.resource_id ≡ some id)

-- A row of another tenant.
abbrev pub is_foreign : Tenant → Device → Bool
is_foreign tenant d = not (d.tenant_id == tenant.id)

-- One device of the tenant is gone, those of other tenants are as before, and the log has one entry more.
abbrev pub Deletes : Tenant → User → String → Db → Db → Type 0
Deletes tenant user id s t =
    (any (is_device_of id tenant) t.devices ≡ false)
    × (length t.devices + 1 ≡ length s.devices)
    × (select (is_foreign tenant) t.devices ≡ select (is_foreign tenant) s.devices)
    × ((a : AuditLog) × (t.audit_logs ≡ s.audit_logs ++ a ∷ []) × Records tenant user id a)

module _ (id : String) (tenant : Tenant) where
  -- A lookup that returns has found one row, and writes nothing.
  get_device-found :
      (d : Device) (s t : Db)
      → get_device id tenant s ≡ (ok d, t)
      → (select (is_device_of id tenant) s.devices ≡ d ∷ []) × (s ≡ t)
  unfolding get_device one_or_none
  get_device-found d s t h = go (select (is_device_of id tenant) s.devices) h
    where
      go :
          (xs : List Device)
          → (lift (one_or_none xs) >>= λ x. elim x as (λ _. Action Device) [
            | none ↦ raise (http 404)
            | some y ↦ pure y
          ])
              s
            ≡ (ok d, t)
          → (xs ≡ d ∷ []) × (s ≡ t)
      go [] k = err≢ok (ap (λ x. x.0) k)
      go (x ∷ []) k = (ap (λ y. y ∷ []) (ok-injective (ap (λ x. x.0) k)), ap (λ x. x.1) k)
      go (x ∷ y ∷ xs) k = err≢ok (ap (λ x. x.0) k)

  own-not-foreign : (d : Device) → is_device_of id tenant d ≡ true → is_foreign tenant d ≡ false
  own-not-foreign d h = ground arith

module _ (execute : String → Tenant → Action Unit) (deletes : DeletesDevices execute) (now : ℕ)
    (tenant : Tenant) (user : User) (id : String) where
  -- What follows the lookup.
  finish : Action Unit
  finish =
      write_audit now tenant.id "device.delete" "device" (some user.id) (some id)
      >> execute id tenant

  finish-Deletes :
      (d : Device) (s : Db)
      → select (is_device_of id tenant) s.devices ≡ d ∷ []
      → (finish s).0 ≡ ok tt
      → Deletes tenant user id s (finish s).1
  unfolding finish write_audit
  finish-Deletes d s found h =
      let logged =
        (write_audit now tenant.id "device.delete" "device" (some user.id) (some id) s).1 in
      let (devices, logs) = deletes id tenant logged h in
      let mine = is_device_of id tenant in
      (
        ap (any mine) devices ∙ any-delete_where mine s.devices,
        omega (
          arith,
          ap (λ (ds : List Device). length ds) devices,
          length-delete_where mine s.devices,
          ap (λ (ds : List Device). length ds) found,
        ),
        ap (select (is_foreign tenant)) devices
            ∙ select-delete_where mine (is_foreign tenant) (own-not-foreign id tenant) s.devices,
        (_, logs, (refl, refl, refl, refl)),
      )

  delete_device-Deletes :
      (s : Db)
      → (delete_device now tenant user execute id s).0 ≡ ok tt
      → Deletes tenant user id s (delete_device now tenant user execute id s).1
  unfolding delete_device finish
  delete_device-Deletes s h =
      let (d, t, e, k) = bind_inv (get_device id tenant) (λ _. finish) s tt h in
      let (found, same) = get_device-found id tenant d s t e in
      let run = bind-ok (get_device id tenant) (λ _. finish) s d t e in
      subst (λ x. Deletes tenant user id x (delete_device now tenant user execute id s).1)
        (sym same)
        (subst (λ x. Deletes tenant user id t x.1) (sym run)
          (finish-Deletes d t
            (ap (λ x. select (is_device_of id tenant) x.devices) (sym same) ∙ found) k))

  -- The end of the request's session.
  abbrev settled : Db → Result Unit × Db → Result Unit × Db
  settled s x = elim x.0 [ ok a ↦ (ok a, x.1) | err e ↦ (err e, record s { drawn = x.1.drawn }) ]

  -- A request to delete a device ends in one of two ways. Either it returns: then exactly one device is gone, which is
  -- that of the tenant with the identifier, the devices of other tenants are as they were, and the audit log has one
  -- entry more, which says who has deleted which device. Or it is refused, and every table is as it was. This is so
  -- for every database that deletes the matching devices where it does not refuse the statement.
  pub delete_device-DeletesOne :
      (s : Db)
      → (((get_db (delete_device now tenant user execute id) s).0 ≡ ok tt)
          × Deletes tenant user id s (get_db (delete_device now tenant user execute id) s).1)
        ⊎ ((e : Failure) × ((get_db (delete_device now tenant user execute id) s).0 ≡ err e)
            × ((get_db (delete_device now tenant user execute id) s).1 ≡ record s {
              drawn = (get_db (delete_device now tenant user execute id) s).1.drawn;
            }))
  unfolding get_db
  delete_device-DeletesOne s =
      go (delete_device now tenant user execute id s) (delete_device-Deletes s)
    where
      go :
          (x : Result Unit × Db)
          → (x.0 ≡ ok tt → Deletes tenant user id s x.1)
          → (((settled s x).0 ≡ ok tt) × Deletes tenant user id s (settled s x).1)
            ⊎ ((e : Failure) × ((settled s x).0 ≡ err e)
                × ((settled s x).1 ≡ record s { drawn = (settled s x).1.drawn }))
      go (ok a, t) k = inl (refl, k refl)
      go (err e, t) k = inr (e, refl, refl)
