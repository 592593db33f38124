-- ===== src/Devices/Bulk.antt =====
-- What a bulk action puts on the queue.
use Prim.Native.String
use mdm_saa_s.Common.{
  ℕ, ◌≡◌, refl, sym, ap, ◌∙◌, String, Bool, true, false, ◌&&◌, Option, none, some, List, [], ◌∷◌,
  ◌++◌, map, ◌==◌, select, length, present, get_or, arith, if◌then◌else◌, All,
}
use mathlib.Core.List.{append_assoc, append-nil, cons-ne-nil}
use mathlib.Core.Path.{subst}
use mdm_saa_s.Models.{Tenant, User, Device, MdmCommand, CommandState, Payload}
use mdm_saa_s.Database.{Db, Action, Result, ok, pure, ◌>>◌, ◌>>=◌, add_command}
use mdm_saa_s.Database.Laws.{bind-ok}
use mdm_saa_s.Audit.{write_audit}
use mdm_saa_s.Apple.Commands.{
  make_command, make_device_lock_command, make_erase_device_command, make_restart_command,
  make_device_information_command,
}
use mdm_saa_s.Windows.Commands.{
  make_windows_lock, make_windows_wipe, make_windows_restart, make_windows_query,
}
use mdm_saa_s.Groups.Handlers.{BulkAction, lock, erase, restart, query, parse_action}
use mdm_saa_s.Devices.Handlers.{
  device_command, response_uuid, queue_each, targets, queue_found, queue_targets, bulk_action,
}

-- A queued command for a device, in the name of a tenant.
abbrev pub IsQueuedFor : String → MdmCommand → Type 0
IsQueuedFor tenant_id c = (c.tenant_id ≡ tenant_id) × (c.status ≡ CommandState.queued)

-- A builder returns a queued command for the device, and leaves the queue.
abbrev Makes : Action MdmCommand → Device → String → Db → Type 0
Makes make d tenant_id s =
    (c : MdmCommand) × (t : Db) × (make s ≡ (ok c, t))
    × (t.commands ≡ s.commands)
    × (c.device_id ≡ d.id)
    × IsQueuedFor tenant_id c

if-Makes :
    (b : Bool) (m n : Action MdmCommand) (d : Device) (tenant_id : String) (s : Db)
    → Makes m d tenant_id s
    → Makes n d tenant_id s
    → Makes (if b then m else n) d tenant_id s
if-Makes true m n d t s h k = h
if-Makes false m n d t s h k = k

made :
    (now : ℕ) (d : Device) (tenant_id kind : String) (payload : Payload) (s : Db)
    → Makes (make_command now d.id tenant_id kind payload) d tenant_id s
unfolding make_command
made now d tenant_id kind payload s = (_, _, refl, refl, refl, (refl, refl))

device_command-Makes :
    (now : ℕ) (action : BulkAction) (pin message : Option String) (d : Device) (tenant_id : String)
    (s : Db)
    → Makes (device_command now action pin message d tenant_id) d tenant_id s
unfolding device_command make_device_lock_command make_erase_device_command make_restart_command
    make_device_information_command make_windows_lock make_windows_wipe make_windows_restart
    make_windows_query
device_command-Makes now lock pin message d t s =
    if-Makes (d.platform == "windows") (make_windows_lock now d.id t)
      (make_device_lock_command now d.id t pin message) d t s (made now d t _ _ s)
      (made now d t _ _ s)
device_command-Makes now erase pin message d t s =
    if-Makes (d.platform == "windows") (make_windows_wipe now d.id t)
      (make_erase_device_command now d.id t (if present pin then get_or pin "" else "") []) d t s
      (made now d t _ _ s) (made now d t _ _ s)
device_command-Makes now restart pin message d t s =
    if-Makes (d.platform == "windows") (make_windows_restart now d.id t)
      (make_restart_command now d.id t) d t s (made now d t _ _ s) (made now d t _ _ s)
device_command-Makes now query pin message d t s =
    if-Makes (d.platform == "windows") (make_windows_query now d.id t)
      (make_device_information_command now d.id t []) d t s (made now d t _ _ s)
      (made now d t _ _ s)

-- A run that returns, with one command more for each device, in the order of the devices.
abbrev pub Queues : String → List Device → Db → Result (List (Option String)) × Db → Type 0
Queues tenant_id ds s x =
    (uuids : List (Option String)) × (cs : List MdmCommand) × (t : Db) × (x ≡ (ok uuids, t))
    × (t.commands ≡ s.commands ++ cs)
    × (map (λ c. c.device_id) cs ≡ map (λ d. d.id) ds)
    × All (IsQueuedFor tenant_id) cs
    × (length uuids ≡ length ds)

module _ (make : Device → Action MdmCommand) (tenant_id : String)
    (makes : (d : Device) (s : Db) → Makes (make d) d tenant_id s) where
  -- The turn of the loop after the command has been built.
  turn : Device → List Device → MdmCommand → Action (List (Option String))
  turn d ds c = add_command c >> (queue_each make ds >>= λ us. pure (response_uuid d c ∷ us))

  queue_each-Queues : (ds : List Device) (s : Db) → Queues tenant_id ds s (queue_each make ds s)
  unfolding queue_each turn
  queue_each-Queues [] s = ([], [], s, refl, sym (append-nil s.commands), refl, tt, refl)
  queue_each-Queues (d ∷ ds) s =
      let (c, t, e, same, dev, q) = makes d s in
      let t' : Db = record t { commands = t.commands ++ c ∷ [] } in
      let (us, cs, t2, r, h, ids, qs, n) = queue_each-Queues ds t' in
      (
        response_uuid d c ∷ us,
        c ∷ cs,
        t2,
        bind-ok (make d) (turn d ds) s c t e
            ∙ bind-ok (queue_each make ds) (λ us. pure (response_uuid d c ∷ us)) t' us t2 r,
        h ∙ append_assoc t.commands (c ∷ []) cs ∙ ap (λ x. x ++ c ∷ cs) same,
        cc,
        (q, qs),
        omega (arith, n),
      )

module _ (now : ℕ) (tenant : Tenant) (user : User) where
  no_targets : (ds : List Device) → select (λ d. false && d.tenant_id == tenant.id) ds ≡ []
  no_targets [] = refl
  no_targets (d ∷ ds) = no_targets ds

  audited : String → List (Option String) → Action (List (Option String))
  audited name us =
      write_audit now tenant.id (String.◌++◌ "device.bulk_" name) "device" (some user.id) none
      >> pure us

  queue_found-Queues :
      (action : BulkAction) (name : String) (pin message : Option String) (d : Device)
      (ds : List Device) (s : Db)
      → Queues tenant.id (d ∷ ds) s (queue_found now tenant user action name pin message (d ∷ ds) s)
  unfolding queue_found audited write_audit
  queue_found-Queues action name pin message d ds s =
      let make : Device → Action MdmCommand =
        λ x. device_command now action pin message x tenant.id in
      let (us, cs, t, r, h, ids, qs, n) =
        queue_each-Queues make tenant.id
          (λ x. device_command-Makes now action pin message x tenant.id) (d ∷ ds) s in
      (
        us,
        cs,
        (audited name us t).1,
        bind-ok (queue_each make (d ∷ ds)) (audited name) s us t r,
        h,
        ids,
        qs,
        n,
      )

  -- A bulk action with a known name, on at least one device of the tenant, returns. It has put exactly one queued
  -- command in the tenant's name on the queue for each of these devices, in their order, and for no other device.
  pub bulk_action-Queues :
      (name : String) (action : BulkAction) (ids : List String) (pin message : Option String)
      (d : Device) (ds : List Device) (s : Db)
      → parse_action name ≡ some action
      → targets now tenant user ids s ≡ d ∷ ds
      → Queues tenant.id (d ∷ ds) s (bulk_action now tenant user name ids pin message s)
  unfolding bulk_action queue_targets
  bulk_action-Queues name action [] pin message d ds s h k =
      absurd (cons-ne-nil d ds (sym k ∙ no_targets s.devices))
  bulk_action-Queues name action (i ∷ is) pin message d ds s h k =
      subst (Queues tenant.id (d ∷ ds) s)
        (sym (
          ap (λ o. queue_targets now tenant user o name (i ∷ is) pin message s) h
          ∙ ap (λ x. queue_found now tenant user action name pin message x s) k))
        (queue_found-Queues action name pin message d ds s)
