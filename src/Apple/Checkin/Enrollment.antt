-- ===== src/Apple/Checkin/Enrollment.antt =====
-- Which tenant a new device is given to, and what its first TokenUpdate adds.
use Prim.Native.String
use text.Mathlib.TextLemmas.{nil-append, cons-append}
use mathlib.Core.Path.{subst}
use mathlib.Core.List.{append-nil}
use mathlib.Core.Option.{some-injective}
use mdm_saa_s.Common.{
  ℕ, suc, String, Bool, true, false, ◌≡◌, refl, sym, ap, ◌∙◌, ◌⊎◌, inl, inr, Option, none, some,
  List, [], ◌∷◌, ◌++◌, ◌==◌, eq_iff, arith, Bool-cases, Option-cases, All, select, head?, some_is,
  truthy, if◌then◌else◌,
}
use mdm_saa_s.Models.{Tenant, Device, DeviceStatus, MdmCommand, CommandState}
use mdm_saa_s.Database.{
  Db, Action, Result, ok, err, attempt, lift, add_command, ◌>>=◌, one_or_none, has_udid,
}
use mdm_saa_s.Database.Laws.{bind-ok}
use mdm_saa_s.Apple.Plist.{TokenUpdateMessage, push_token_hex}
use mdm_saa_s.Apple.Commands.{make_command, make_install_profile_command}
use mdm_saa_s.Apple.Checkin.{
  has_dot, last_part, tenant_by_topic, tenant_by_slug, resolve_tenant, new_device, find_device,
  queue_psso_profile, enroll_device, update_token, handle_token_update,
}

last_part_of_plain : (slug : String) → has_dot slug ≡ false → last_part slug ≡ slug
unfolding last_part has_dot
last_part_of_plain String.[] h = refl
last_part_of_plain (String.◌∷◌ c s) h = ground arith

has_dot-append : (p s : String) → has_dot (String.◌++◌ p (String.◌∷◌ "." s)) ≡ true
unfolding has_dot
has_dot-append String.[] s = rw nil-append refl
has_dot-append (String.◌∷◌ c p) s = rw cons-append (ground (arith, has_dot-append p s))

-- The fallback reads the slug from a topic "prefix.slug", if the slug holds no dot itself.
last_part-append :
    (prefix slug : String)
    → has_dot slug ≡ false
    → last_part (String.◌++◌ prefix (String.◌∷◌ "." slug)) ≡ slug
unfolding last_part
last_part-append String.[] slug h = rw nil-append (rw h refl)
last_part-append (String.◌∷◌ c p) slug h =
    rw cons-append (rw (has_dot-append p slug) (last_part-append p slug h))

found_first :
    (p : Tenant → Bool) (ts : List Tenant) (t : Tenant) → head? (select p ts) ≡ some t → p t ≡ true
found_first p [] t h = absurd (cc)
found_first p (x ∷ xs) t h = elim (Bool-cases (p x)) [
  | inl e ↦ subst (λ y. p y ≡ true) (some-injective _ _ (rw e at h)) e
  | inr e ↦ found_first p xs t (rw e at h)
]

some_is-eq : (text : String) (o : Option String) → some_is (λ x. x == text) o ≡ true → o ≡ some text
some_is-eq text none h = absurd (cc)
some_is-eq text (some x) h = ap {B = Option String} some ((eq_iff x text).0 h)

by_slug :
    (slug : String) (ts : List Tenant) (t : Tenant)
    → (if truthy slug then tenant_by_slug slug ts else none) ≡ some t
    → t.slug ≡ slug
by_slug slug ts t h = elim (Bool-cases (truthy slug)) [
  | inl e ↦ (eq_iff t.slug slug).0 (found_first (λ x. x.slug == slug) ts t (rw e at h))
  | inr e ↦ absurd (cc (rw e at h))
]

-- A tenant is only resolved by its own push topic, or else, if no tenant has that topic, by its slug.
pub resolve_tenant_owner :
    (topic : String) (ts : List Tenant) (t : Tenant)
    → resolve_tenant topic ts ≡ some t
    → (t.apns_push_topic ≡ some topic)
      ⊎ ((tenant_by_topic topic ts ≡ none) × (t.slug ≡ last_part topic))
unfolding resolve_tenant
resolve_tenant_owner topic ts t h = elim (Option-cases (tenant_by_topic topic ts)) [
  | inl e ↦ inr (e, by_slug (last_part topic) ts t (rw (e, resolve_tenant) at h))
  | inr (x, e) ↦ inl (
      some_is-eq topic t.apns_push_topic (
        found_first (λ y. some_is (λ z. z == topic) y.apns_push_topic) ts t
          (e ∙ (rw (e, resolve_tenant) at h))))
]

-- A queued InstallProfile command for a device.
abbrev pub InstallsProfile : Device → MdmCommand → Type 0
InstallsProfile d c =
    (c.device_id ≡ d.id)
    × (c.tenant_id ≡ d.tenant_id)
    × (c.command_type ≡ "InstallProfile")
    × (c.status ≡ CommandState.queued)

module _ (psso : Tenant → Result String) (now : ℕ) where
  -- A run that leaves the devices alone, and adds such commands.
  abbrev pub AddsProfiles : Device → Db → Result Unit × Db → Type 0
  AddsProfiles d s x =
      (x.0 ≡ ok tt)
      × (x.1.devices ≡ s.devices)
      × ((cs : List MdmCommand) × (x.1.commands ≡ s.commands ++ cs) × All (InstallsProfile d) cs)

  queue_profile : Device → Tenant → Result String → Action Unit
  queue_profile d t r = attempt do
    profile_xml ← lift r
    cmd ← make_install_profile_command now d.id t.id profile_xml
    add_command cmd

  queue_adds :
      (d : Device) (t : Tenant) (s : Db) (r : Result String)
      → d.tenant_id ≡ t.id
      → AddsProfiles d s (queue_profile d t r s)
  unfolding queue_profile make_install_profile_command make_command
  queue_adds d t s (ok x) h = (refl, refl, (_, refl, ((refl, sym h, refl, refl), tt)))
  queue_adds d t s (err x) h = (refl, refl, ([], sym (append-nil s.commands), tt))

  -- What the handler does when no row has the message's udid.
  known_nothing :
      (msg : TokenUpdateMessage) (s : Db)
      → select (has_udid msg.udid) s.devices ≡ []
      → handle_token_update psso now msg s
        ≡ enroll_device psso now msg (resolve_tenant msg.topic s.tenants) s
  unfolding handle_token_update find_device update_token one_or_none
  known_nothing msg s unknown =
      bind-ok (find_device msg.udid) (update_token psso now msg) s none s
        (ap (λ xs. (one_or_none xs, s)) unknown)

  -- The first TokenUpdate of a device that is not known returns: without a tenant nothing changes; with
  -- one, one device is added, which belongs to that tenant, is enrolled and has the push credentials of the
  -- message, and the commands that are added are queued InstallProfile commands for it. This is so also where
  -- the making of the profile raises.
  pub first_token_update :
      (msg : TokenUpdateMessage) (s : Db)
      → select (has_udid msg.udid) s.devices ≡ []
      → ((resolve_tenant msg.topic s.tenants ≡ none)
          × (handle_token_update psso now msg s ≡ (ok tt, s)))
        ⊎ ((t : Tenant) × ((d : Device) × (resolve_tenant msg.topic s.tenants ≡ some t)
              × (d.tenant_id ≡ t.id)
              × (d.udid ≡ msg.udid)
              × (d.status ≡ DeviceStatus.enrolled)
              × (d.push_token ≡ some (push_token_hex msg.token))
              × (d.push_magic ≡ some msg.push_magic)
              × (d.push_topic ≡ some msg.topic)
              × ((handle_token_update psso now msg s).0 ≡ ok tt)
              × ((handle_token_update psso now msg s).1.devices ≡ s.devices ++ d ∷ [])
              × ((cs : List MdmCommand) × ((handle_token_update psso now msg s).1.commands
                    ≡ s.commands ++ cs)
                  × All (InstallsProfile d) cs)))
  unfolding enroll_device new_device queue_psso_profile queue_profile
  first_token_update msg s unknown = elim (Option-cases (resolve_tenant msg.topic s.tenants)) [
    | inl e ↦ inl (e, known_nothing msg s unknown ∙ ap (λ o. enroll_device psso now msg o s) e)
    | inr (t, e) ↦
        let d = new_device (s.uuids s.drawn) t msg now in
        let run = known_nothing msg s unknown ∙ ap (λ o. enroll_device psso now msg o s) e in
        let s' = record s { drawn = suc s.drawn; devices = s.devices ++ d ∷ [] } in
        let (returns, same, (cs, added, all)) = queue_adds d t s' (psso t) refl in
        inr (
          t,
          (
            d,
            e,
            refl,
            refl,
            refl,
            refl,
            refl,
            refl,
            (ap (λ x. x.0) run ∙ returns),
            (ap (λ x. x.1.devices) run ∙ same),
            (cs, (ap (λ x. x.1.commands) run ∙ added), all),
          ),
        )
  ]
