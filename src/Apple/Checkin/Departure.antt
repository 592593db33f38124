-- ===== src/Apple/Checkin/Departure.antt =====
-- What a CheckOut leaves behind for the worker that sends pushes (app/services/command_queue.py).
use mdm_saa_s.Common.{
  ℕ, String, ◌≡◌, refl, sym, ap, inl, inr, Option, some, List, [], ◌∷◌, map, All, select,
  update_where, select-update_where,
}
use mathlib.Core.Path.{subst}
use mdm_saa_s.Models.{Tenant, Device}
use mdm_saa_s.Database.{Db, Result, ok, one_or_none, has_udid}
use mdm_saa_s.Database.Laws.{Result-cases, bind-ok, bind-err}
use mdm_saa_s.Apple.Plist.{CheckOutMessage}
use mdm_saa_s.Apple.Checkin.{find_device, checkout_status, checked_out, leave, handle_checkout}
use mdm_saa_s.CommandQueue.Consumer.{PushOutcome, deleted, has_push_credentials, wake_device}

All-map :
    {A : Type 0} (P : A → Type 0) (f : A → A) (xs : List A) → ((x : A) → P (f x)) → All P (map f xs)
All-map P f [] h = tt
All-map P f (x ∷ xs) h = (h x, All-map P f xs h)

module _ (psso : Tenant → Result String) (now : ℕ) (msg : CheckOutMessage) (s : Db) where
  -- The devices after a CheckOut that is answered.
  checkout_devices :
      (handle_checkout psso now msg s).0 ≡ ok tt
      → (o : Option Device) × ((handle_checkout psso now msg s).1.devices
          ≡ update_where (has_udid msg.udid) (checked_out (checkout_status o) now) s.devices)
  unfolding handle_checkout leave find_device
  checkout_devices h = elim (Result-cases (one_or_none (select (has_udid msg.udid) s.devices))) [
    | inl (o, e) ↦ (
      o,
      ap (λ x. x.1.devices)
          (bind-ok (find_device msg.udid) (leave psso now msg) s o s (ap (λ r. (r, s)) e)),
    )
    | inr (f, e) ↦ absurd (
        cc (
          h,
          ap (λ x. x.0)
              (bind-err (find_device msg.udid) (leave psso now msg) s f s (ap (λ r. (r, s)) e)),
        ))
  ]

  -- After a CheckOut that is answered no push reaches the device that left: whatever a push would do, the
  -- worker deletes a message for it and changes nothing.
  pub checkout_silences :
      (push : Device → PushOutcome)
      → (handle_checkout psso now msg s).0 ≡ ok tt
      → All
          (λ d. (t : Db) → wake_device push (some d) t ≡ (ok deleted, t))
          (select (has_udid msg.udid) (handle_checkout psso now msg s).1.devices)
  unfolding wake_device has_push_credentials checked_out
  checkout_silences push h =
      let (o, e) = checkout_devices h in
      let f = checked_out (checkout_status o) now in
      subst
        (λ ds.
          All (λ d. (t : Db) → wake_device push (some d) t ≡ (ok deleted, t))
            (select (has_udid msg.udid) ds))
        (sym e)
        (subst (All (λ d. (t : Db) → wake_device push (some d) t ≡ (ok deleted, t)))
          (sym (select-update_where (has_udid msg.udid) f s.devices (λ x. refl)))
          (All-map _ f (select (has_udid msg.udid) s.devices) (λ x t. refl)))
