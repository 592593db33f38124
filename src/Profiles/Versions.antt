-- ===== src/Profiles/Versions.antt =====
-- create_profile, update_profile, delete_profile and diff_profile_version.
use mdm_saa_s.Common.{
  ℕ, zero, suc, ◌+◌, String, Bool, ◌&&◌, Option, none, some, List, [], ◌∷◌, ◌++◌, ◌==◌, ◌=ℕ◌, ltb,
  select, update_where, delete_where, is_some, if◌then◌else◌,
}
use mdm_saa_s.Models.{Tenant, User, Profile, ProfileVersion, Payload}
use mdm_saa_s.Database.{
  Action, http, pure, raise, lift, gets, modify, new_uuid, ◌>>=◌, ◌>>◌, one_or_none,
}

abbrev pub on_profiles : (List Profile → List Profile) → Action Unit
on_profiles f = modify (λ s. record s { profiles = f s.profiles })

abbrev pub on_versions : (List ProfileVersion → List ProfileVersion) → Action Unit
on_versions f = modify (λ s. record s { profile_versions = f s.profile_versions })

abbrev pub is_profile_of : String → Tenant → Profile → Bool
is_profile_of id tenant p = p.id == id && p.tenant_id == tenant.id

unfoldable pub get_profile : String → Tenant → Action Profile
unfolding one_or_none
get_profile id tenant = do
  found ← gets (λ s. select (is_profile_of id tenant) s.profiles)
  profile ← lift (one_or_none found)
  elim profile [ none ↦ raise (http 404) | some p ↦ pure p ]

-- `max(ProfileVersion.version) or 0` of a profile
unfoldable pub current_max : String → List ProfileVersion → ℕ
current_max id [] = 0
current_max id (v ∷ vs) =
    let m = current_max id vs in
    if v.profile_id == id then (if ltb m v.version then v.version else m) else m

-- The version that is added, with the identifier that the session draws.
unfoldable pub add_version : ℕ → Tenant → User → String → ℕ → Payload → Option String → Action Unit
add_version now tenant user profile_id version snapshot change_note = do
  id ← new_uuid
  on_versions (λ vs.
      vs
      ++ (record {
        id = id;
        profile_id = profile_id;
        tenant_id = tenant.id;
        version = version;
        payload_snapshot = snapshot;
        changed_by_id = some user.id;
        change_note = change_note;
        created_at = now;
      })
        ∷ [])

unfoldable pub create_profile :
    ℕ → Tenant → User → String → String → String → Payload → Action Profile
unfolding add_version
create_profile now tenant user name kind platform payload = do
  id ← new_uuid
  let profile : Profile = record {
    id = id;
    tenant_id = tenant.id;
    name = name;
    kind = kind;
    platform = platform;
    payload = payload;
    signed_xml = none;
    status = "active";
    created_at = now;
  }
  on_profiles (λ ps. ps ++ profile ∷ [])
  add_version now tenant user id 1 payload (some "Initial version")
  pure profile

abbrev pub renamed : Option String → Profile → Profile
renamed none p = p
renamed (some name) p = record p { name = name }

abbrev pub repacked : Option Payload → Profile → Profile
repacked none p = p
repacked (some payload) p = record p { payload = payload; signed_xml = none }

-- The update of a profile that is found.
unfoldable pub write_update :
    ℕ
    → Tenant
    → User
    → String
    → Option String
    → Option Payload
    → Option String
    → Profile
    → Action Profile
unfolding current_max add_version
write_update now tenant user profile_id name payload change_note profile = do
  let changed = repacked payload (renamed name profile)
  on_profiles (update_where (λ p. p.id == profile.id) (λ _. changed))
  m ← gets (λ s. current_max profile_id s.profile_versions)
  add_version now tenant user profile.id (m + 1) changed.payload change_note
  pure changed

unfoldable pub update_profile :
    ℕ → Tenant → User → String → Option String → Option Payload → Option String → Action Profile
unfolding get_profile write_update
update_profile now tenant user profile_id name payload change_note =
    get_profile profile_id tenant
    >>= write_update now tenant user profile_id name payload change_note

-- The versions go with the profile: their foreign key has ON DELETE CASCADE.
unfoldable pub erase_profile : Tenant → String → Action Unit
erase_profile tenant profile_id = do
  on_profiles (delete_where (is_profile_of profile_id tenant))
  on_versions (delete_where (λ v. v.profile_id == profile_id))

unfoldable pub delete_profile : Tenant → String → Action Unit
unfolding get_profile erase_profile
delete_profile tenant profile_id = get_profile profile_id tenant >> erase_profile tenant profile_id

-- `d.get(key)` on a stored object.
unfoldable pub value_at : String → Payload → Option (List String)
value_at key [] = none
value_at key ((k, v) ∷ es) = if k == key then some v else value_at key es

pub record Diff : Type 0 where
  pub added : Payload
  pub removed : Payload
  pub changed : List (String × List String × List String)

-- `{k: a[k] for k in a if k not in b}`
unfoldable pub only_in : Payload → Payload → Payload
unfolding value_at
only_in [] b = []
only_in ((k, v) ∷ a) b =
    let rest = only_in a b in if is_some (value_at k b) then rest else (k, v) ∷ rest

-- `equal` is Python's `==` on two values of JSON, of which a stored object holds the printed forms: it has
-- True == 1 == 1.0, which are printed differently.
module _ (equal : List String → List String → Bool) where
  -- `{k: {"from": prev[k], "to": curr[k]} for k in curr if k in prev and curr[k] != prev[k]}`
  unfoldable pub differing : Payload → Payload → List (String × List String × List String)
  unfolding value_at
  differing [] prev = []
  differing ((k, v) ∷ curr) prev =
      let rest = differing curr prev in
      elim (value_at k prev) [ none ↦ rest | some w ↦ if equal v w then rest else (k, w, v) ∷ rest ]

  unfoldable pub payload_diff : Payload → Payload → Diff
  unfolding only_in differing
  payload_diff prev curr = record {
    added = only_in curr prev;
    removed = only_in prev curr;
    changed = differing curr prev;
  }

-- `by_ver.get(n)`: of two rows with one number the later one stays in the dictionary.
unfoldable pub numbered : ℕ → List ProfileVersion → Option ProfileVersion
numbered n [] = none
numbered n (v ∷ vs) =
    let later = numbered n vs in
    if is_some later then later else if v.version =ℕ n then some v else none

unfoldable pub numbered_before : ℕ → List ProfileVersion → Option ProfileVersion
unfolding numbered
numbered_before zero vs = none
numbered_before (suc n) vs = numbered n vs

abbrev pub snapshot_or_empty : Option ProfileVersion → Payload
snapshot_or_empty none = []
snapshot_or_empty (some v) = v.payload_snapshot

unfoldable pub diff_profile_version :
    (List String → List String → Bool) → Tenant → String → ℕ → Action Diff
unfolding get_profile numbered_before payload_diff
diff_profile_version equal tenant profile_id version_num = do
  get_profile profile_id tenant
  versions ←
      gets (λ s.
        select (λ v. v.profile_id == profile_id && v.tenant_id == tenant.id) s.profile_versions)
  elim (numbered version_num versions) [
    | none ↦ raise (http 404)
    | some current ↦ pure (
        payload_diff equal (snapshot_or_empty (numbered_before version_num versions))
          current.payload_snapshot)
  ]
