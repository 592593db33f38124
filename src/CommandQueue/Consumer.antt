-- ===== src/CommandQueue/Consumer.antt =====
-- _process_message and _consumer_loop. The queue, the clock of its visibility timeout and APNs are not
-- part of the program: a message is its decoded body, and the outcome of a push is an argument.
use mdm_saa_s.Common.{
  String, Bool, ◌&&◌, Option, none, some, List, [], ◌∷◌, present, select, update_where,
  if◌then◌else◌,
}
use mdm_saa_s.Models.{Device, DeviceStatus}
use mdm_saa_s.Database.{
  Db, Action, Result, ok, err, pure, lift, gets, one_or_none, on_devices, has_id, ◌>>=◌, ◌>>◌,
}

-- What `send_mdm_push` does: it returns, raises DeviceUnregisteredError, or raises anything else.
pub data PushOutcome : Type 0 where
  delivered unregistered push_failed : PushOutcome

-- What becomes of the message: it is deleted, or left in the queue, which will deliver it again.
pub data Disposition : Type 0 where
  deleted left : Disposition

-- `message["Body"]`: no JSON, or an object with or without a device.
pub data Body : Type 0 where
  malformed : Body
  wakes : Option String → Body

unfoldable pub has_push_credentials : Device → Bool
has_push_credentials d = present d.push_token && present d.push_magic && present d.push_topic

unfoldable pub token_expired : Device → Device
token_expired d = record d { push_token = none; status = DeviceStatus.token_expired }

unfoldable pub push_result : Device → PushOutcome → Action Disposition
unfolding token_expired
push_result device delivered = pure deleted
push_result device unregistered = do
  on_devices (update_where (has_id device.id) token_expired)
  pure deleted
push_result device push_failed = pure left

abbrev remaining : Result Disposition → Body → List Body → List Body
remaining (ok deleted) b rest = rest
remaining (ok left) b rest = b ∷ rest
remaining (err e) b rest = b ∷ rest

-- `push` gives the outcome for the device that is woken.
module _ (push : Device → PushOutcome) where
  unfoldable pub wake_device : Option Device → Action Disposition
  unfolding push_result has_push_credentials
  wake_device none = pure deleted
  wake_device (some device) =
      if has_push_credentials device then push_result device (push device) else pure deleted

  unfoldable pub process_message : Body → Action Disposition
  unfolding wake_device one_or_none
  process_message malformed = pure deleted
  process_message (wakes none) = pure deleted
  process_message (wakes (some id)) = do
    found ← gets (λ s. select (has_id id) s.devices)
    device ← lift (one_or_none found)
    wake_device device

  -- One batch of the loop: what is left of it. A message whose processing raises is left too.
  unfoldable pub process_batch : List Body → Db → List Body × Db
  process_batch [] s = ([], s)
  process_batch (b ∷ bs) s =
      let (r, s') = process_message b s in
      let (rest, t) = process_batch bs s' in (remaining r b rest, t)
