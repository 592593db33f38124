-- ===== src/CommandQueue/Redelivery.antt =====
-- When a message stays in the queue.
use mdm_saa_s.Common.{
  ◌≡◌, ◌↔◌, refl, ap, ◌∙◌, String, Bool, true, false, inl, inr, some, List, [], ◌∷◌, Bool-cases,
  select,
}
use mdm_saa_s.Models.{Device}
use mdm_saa_s.Database.{Db, Result, ok, one_or_none, has_id, ◌>>=◌, lift}
use mdm_saa_s.Database.Laws.{err≢ok}
use mdm_saa_s.CommandQueue.Consumer.{
  PushOutcome, Disposition, delivered, unregistered, push_failed, left, wakes, has_push_credentials,
  push_result, wake_device, process_message,
}

module _ (push : Device → PushOutcome) where
  -- The device is stored once, can be woken, and the push fails.
  abbrev pub FailsToWake : String → Db → Type 0
  FailsToWake id s =
      (d : Device) × ((select (has_id id) s.devices ≡ d ∷ [])
        × ((has_push_credentials d ≡ true) × (push d ≡ push_failed)))

  is_left : Result Disposition → Bool
  is_left (ok left) = true
  is_left _ = false

  outcome :
      (d : Device) (o : PushOutcome) (s : Db) → (push_result d o s).0 ≡ ok left → o ≡ push_failed
  unfolding push_result is_left
  outcome d delivered s h = absurd (cc (ap is_left h))
  outcome d unregistered s h = absurd (cc (ap is_left h))
  outcome d push_failed s h = refl

  woken :
      (d : Device) (s : Db)
      → (wake_device push (some d) s).0 ≡ ok left
      → (has_push_credentials d ≡ true) × (push d ≡ push_failed)
  unfolding wake_device is_left
  woken d s h = elim (Bool-cases (has_push_credentials d)) [
    | inl e ↦ (e, outcome d (push d) s (rw (e, wake_device) at h))
    | inr e ↦ absurd (cc (ap is_left (rw (e, wake_device) at h)))
  ]

  looked_up :
      (xs : List Device) (s : Db)
      → ((lift (one_or_none xs) >>= wake_device push) s).0 ≡ ok left
      → (d : Device) × ((xs ≡ d ∷ []) × ((has_push_credentials d ≡ true) × (push d ≡ push_failed)))
  unfolding one_or_none wake_device is_left
  looked_up [] s h = absurd (cc (ap is_left h))
  looked_up (d ∷ []) s h = (d, (refl, woken d s h))
  looked_up (x ∷ y ∷ xs) s h = err≢ok h

  stays :
      (d : Device) (s : Db)
      → has_push_credentials d ≡ true
      → push d ≡ push_failed
      → ((lift (one_or_none (d ∷ [])) >>= wake_device push) s).0 ≡ ok left
  unfolding one_or_none wake_device push_result
  stays d s c f = rw (c, wake_device, f) refl

  -- A message for a device is left in the queue by a processing that returns exactly where the device is
  -- stored, has push credentials, and the push fails for another reason than an expired token.
  pub left_iff :
      (id : String) (s : Db)
      → ((process_message push (wakes (some id)) s).0 ≡ ok left) ↔ FailsToWake id s
  unfolding process_message
  left_iff id s = (
    λ h. looked_up (select (has_id id) s.devices) s h,
    λ k.
        let (d, (e, (c, f))) = k in
        ap (λ xs. ((lift (one_or_none xs) >>= wake_device push) s).0) e ∙ stays d s c f,
  )
