-- ===== src/Apple/Connect/Frame/Reports.antt =====
-- The reports of a device keep the frame.
use mdm_saa_s.Common.{
  ℕ, String, refl, not, Option, none, some, List, [], ◌∷◌, ◌++◌, delete_where, ◌==◌, update_where,
}
use mdm_saa_s.Models.{Device, DeviceUser}
use mdm_saa_s.Database.{
  Db, Action, pure, modify, gets, require, integrity, new_uuid, on_devices, has_udid, if_given,
  ◌>>=◌, ◌>>◌,
}
use mdm_saa_s.Database.Keeps.{
  Keeps, Keeps-bind, Keeps-then, Keeps-if_given, Keeps-if, Keeps-gets, Keeps-require, Keeps-pure,
}
use mdm_saa_s.Apple.Plist.{QueryResponses, AppEntry, UpdateEntry, UserEntry}
use mdm_saa_s.Apple.Checkin.{find_device}
use mdm_saa_s.Apple.Connect.Status.{evaluate_compliance}
use mdm_saa_s.Apple.Connect.Reports.{
  with_row, rows, app_row, update_row, user_row, apply_info, has_updates, apply_device_info,
  replace_apps, replace_updates, replace_users, apply_installed_apps, apply_available_updates,
  apply_user_list, users_referenced,
}
use mdm_saa_s.Apple.Connect.Frame.Base.{HasFrame, on_devices-HasFrame, elsewhere}
use mdm_saa_s.Apple.Connect.Frame.Evaluation.{evaluate_compliance-HasFrame}

module _ (s0 : Db) where
  with_row-HasFrame :
      {B : Type 0} (o : Option (String → B)) (rest : Action (List B))
      → Keeps (HasFrame s0) rest
      → Keeps (HasFrame s0) (with_row o rest)
  unfolding with_row
  with_row-HasFrame none rest k = k
  with_row-HasFrame (some row) rest k =
      Keeps-bind (HasFrame s0) new_uuid (λ id. rest >>= λ others. pure (row id ∷ others))
        (elsewhere s0 _ (λ s. refl))
        (λ id.
          Keeps-bind (HasFrame s0) rest (λ others. pure (row id ∷ others)) k
            (λ _. Keeps-pure (HasFrame s0) _))

  rows-HasFrame :
      {A B : Type 0} (f : A → Option (String → B)) (xs : List A) → Keeps (HasFrame s0) (rows f xs)
  unfolding rows
  rows-HasFrame f [] = Keeps-pure (HasFrame s0) []
  rows-HasFrame f (x ∷ xs) = with_row-HasFrame (f x) (rows f xs) (rows-HasFrame f xs)

module _ (s0 : Db) (now : ℕ) (udid : String) where
  -- Delete the old rows, make the new ones, and go on.
  replace-HasFrame :
      {A B : Type 0} (clear : Db → Db) (f : A → Option (String → B)) (xs : List A)
      (fill : List B → Action Unit)
      → Keeps (HasFrame s0) (modify clear)
      → ((bs : List B) → Keeps (HasFrame s0) (fill bs))
      → Keeps (HasFrame s0) (modify clear >> (rows f xs >>= fill))
  replace-HasFrame clear f xs fill kc kf =
      Keeps-then (HasFrame s0) (modify clear) (rows f xs >>= fill) kc
        (Keeps-bind (HasFrame s0) (rows f xs) fill (rows-HasFrame s0 f xs) kf)

  replace_apps-HasFrame :
      (xs : List AppEntry) (d : Device) → Keeps (HasFrame s0) (replace_apps now udid xs d)
  unfolding replace_apps
  replace_apps-HasFrame xs d =
      replace-HasFrame _ (app_row now d) xs
        (λ bs.
          modify (λ s. record s { installed_apps = s.installed_apps ++ bs })
          >> evaluate_compliance now udid)
        (elsewhere s0 _ (λ s. refl))
        (λ bs.
          Keeps-then (HasFrame s0)
            (modify (λ s. record s { installed_apps = s.installed_apps ++ bs }))
            (evaluate_compliance now udid) (elsewhere s0 _ (λ s. refl))
            (evaluate_compliance-HasFrame s0 now udid))

  replace_updates-HasFrame :
      (xs : List UpdateEntry) (d : Device) → Keeps (HasFrame s0) (replace_updates now udid xs d)
  unfolding replace_updates
  replace_updates-HasFrame xs d =
      replace-HasFrame _ (update_row now d) xs
        (λ bs.
          modify (λ s. record s { device_updates = s.device_updates ++ bs })
          >> evaluate_compliance now udid)
        (elsewhere s0 _ (λ s. refl))
        (λ bs.
          Keeps-then (HasFrame s0)
            (modify (λ s. record s { device_updates = s.device_updates ++ bs }))
            (evaluate_compliance now udid) (elsewhere s0 _ (λ s. refl))
            (evaluate_compliance-HasFrame s0 now udid))

  replace_users-HasFrame :
      (xs : List UserEntry) (d : Device) → Keeps (HasFrame s0) (replace_users now udid xs d)
  unfolding replace_users
  replace_users-HasFrame xs d =
      let clear : Db → Db =
        λ s. record s { device_users = delete_where (λ u. u.device_id == d.id) s.device_users } in
      let fill : List DeviceUser → Action Unit =
        λ bs. modify (λ s. record s { device_users = s.device_users ++ bs }) in
      Keeps-bind (HasFrame s0) (gets (users_referenced d.id))
        (λ b. require (not b) integrity >> (modify clear >> (rows (user_row now d) xs >>= fill)))
        (Keeps-gets (HasFrame s0) _)
        (λ b.
          Keeps-then (HasFrame s0) (require (not b) integrity)
            (modify clear >> (rows (user_row now d) xs >>= fill))
            (Keeps-require (HasFrame s0) (not b) integrity)
            (replace-HasFrame clear (user_row now d) xs fill (elsewhere s0 _ (λ s. refl))
              (λ bs. elsewhere s0 _ (λ s. refl))))

  -- `find_device`, then what is done with the device that is found
  found-HasFrame :
      (f : Device → Action Unit)
      → ((d : Device) → Keeps (HasFrame s0) (f d))
      → Keeps (HasFrame s0) (find_device udid >>= λ o. if_given o f)
  unfolding find_device
  found-HasFrame f k =
      Keeps-bind (HasFrame s0) (find_device udid) (λ o. if_given o f) (elsewhere s0 _ (λ s. refl))
        (λ o. Keeps-if_given (HasFrame s0) o f k)

  pub apply_installed_apps-HasFrame :
      (xs : List AppEntry) → Keeps (HasFrame s0) (apply_installed_apps now udid xs)
  unfolding apply_installed_apps
  apply_installed_apps-HasFrame xs =
      found-HasFrame (replace_apps now udid xs) (replace_apps-HasFrame xs)

  pub apply_available_updates-HasFrame :
      (xs : List UpdateEntry) → Keeps (HasFrame s0) (apply_available_updates now udid xs)
  unfolding apply_available_updates
  apply_available_updates-HasFrame xs =
      found-HasFrame (replace_updates now udid xs) (replace_updates-HasFrame xs)

  pub apply_user_list-HasFrame :
      (xs : List UserEntry) → Keeps (HasFrame s0) (apply_user_list now udid xs)
  unfolding apply_user_list
  apply_user_list-HasFrame xs =
      found-HasFrame (replace_users now udid xs) (replace_users-HasFrame xs)

  pub apply_device_info-HasFrame :
      (qr : QueryResponses) → Keeps (HasFrame s0) (apply_device_info now udid qr)
  unfolding apply_device_info apply_info
  apply_device_info-HasFrame qr =
      Keeps-if (HasFrame s0) (has_updates qr)
        (on_devices (update_where (has_udid udid) (apply_info qr)) >> evaluate_compliance now udid)
        (pure tt)
        (Keeps-then (HasFrame s0) (on_devices (update_where (has_udid udid) (apply_info qr)))
          (evaluate_compliance now udid)
          (on_devices-HasFrame s0 (has_udid udid) (apply_info qr) (λ x. refl))
          (evaluate_compliance-HasFrame s0 now udid))
        (Keeps-pure (HasFrame s0) tt)
