-- ===== src/Apple/Profiles/Builder.antt =====
-- build_profile_xml, and the identifiers of profiles.
use Prim.Native.String
use mdm_saa_s.Common.{
  String, Bool, Option, List, [], ◌∷◌, ◌++◌, map, present, get_or, if◌then◌else◌,
}
use mdm_saa_s.Database.{Action, pure, new_uuid, ◌>>=◌}
use mdm_saa_s.Apple.Profiles.Values.{
  Value, text, number, flag, array, dict, Entries, list_of, dict_of,
}

infixr 65 ◌<>◌
abbrev pub ◌<>◌ : String → String → String
s <> t = String.◌++◌ s t

-- The keys that each payload begins with.
abbrev pub payload_head : String → String → String → String → List (String × Value)
payload_head kind identifier uuid name =
    ("PayloadType", text kind)
    ∷ ("PayloadVersion", number 1)
    ∷ ("PayloadIdentifier", text identifier)
    ∷ ("PayloadUUID", text uuid)
    ∷ ("PayloadDisplayName", text name)
    ∷ []

unfoldable pub usb_block_profile_identifier : String → String
usb_block_profile_identifier tenant_id = "com.mdmsaas.usb.block.profile." <> tenant_id

unfoldable pub icloud_block_profile_identifier : String → String
icloud_block_profile_identifier tenant_id = "com.mdmsaas.icloud.block.profile." <> tenant_id

unfoldable pub onedrive_kfm_profile_identifier : String → String
onedrive_kfm_profile_identifier tenant_id = "com.mdmsaas.onedrive.kfm.profile." <> tenant_id

unfoldable pub psso_profile_identifier : String → String
psso_profile_identifier tenant_id = "com.mdmsaas.psso.profile." <> tenant_id

-- `identifier if identifier else f"com.mdmsaas.profile.{uuid.uuid4()}"`
unfoldable pub top_identifier : Option String → Action String
top_identifier identifier =
    if present identifier
    then pure (get_or identifier "")
    else (do u ← new_uuid; pure ("com.mdmsaas.profile." <> u))

unfoldable pub build_profile_xml :
    List Entries → String → String → Bool → Option String → Action Entries
unfolding top_identifier
build_profile_xml payloads name description removal_disallowed identifier = do
  top ← top_identifier identifier
  uuid ← new_uuid
  pure (
      dict_of (
        payload_head "Configuration" top uuid name
        ++ ("PayloadDescription", text description)
          ∷ ("PayloadScope", text "System")
          ∷ ("PayloadRemovalDisallowed", flag removal_disallowed)
          ∷ ("PayloadContent", array (list_of (map dict payloads)))
          ∷ []))
