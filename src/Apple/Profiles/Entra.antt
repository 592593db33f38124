-- ===== src/Apple/Profiles/Entra.antt =====
-- build_psso_profile, and the payload for management of build_mdm_enrollment_profile. `p12_data` is the text
-- of the identity file that the server loads.
use mdm_saa_s.Common.{
  String, Bool, true, false, Option, none, some, List, [], ◌∷◌, ◌++◌, truthy, if◌then◌else◌,
}
use mdm_saa_s.Models.{Tenant}
use mdm_saa_s.Database.{Action, pure, new_uuid, ◌>>=◌}
use mdm_saa_s.Apple.Profiles.Values.{Value, text, number, flag, dict, Entries, dict_of, texts_of}
use mdm_saa_s.Apple.Profiles.Builder.{
  ◌<>◌, payload_head, build_profile_xml, psso_profile_identifier,
}

pub record PssoProfileOptions : Type 0 where
  pub auth_method : String
  pub enable_create_user_at_login : Bool
  pub registration_token : String
  pub admin_groups : Option (List String)

abbrev pub microsoft_sso_extension_id : String
microsoft_sso_extension_id = "com.microsoft.CompanyPortalMac.ssoextension"

abbrev pub microsoft_team_id : String
microsoft_team_id = "UBF8T346G9"

abbrev pub entra_sso_urls : List String
entra_sso_urls =
    "https://login.microsoftonline.com" ∷ "https://login.microsoft.com" ∷ "https://sts.windows.net"
    ∷ "https://graph.microsoft.com" ∷ "https://management.azure.com" ∷ []

abbrev pub entra_sso_hosts : List String
entra_sso_hosts =
    "login.microsoftonline.com" ∷ "login.microsoft.com" ∷ "sts.windows.net" ∷ "graph.microsoft.com"
    ∷ "management.azure.com" ∷ []

abbrev administrator_groups : Option (List String) → List (String × Value)
administrator_groups none = []
administrator_groups (some []) = []
administrator_groups (some (g ∷ gs)) = ("AdministratorGroups", texts_of (g ∷ gs)) ∷ []

unfoldable pub platform_sso : PssoProfileOptions → Entries
platform_sso options = dict_of (
    (("AuthenticationMethod", text options.auth_method)
      ∷ ("EnableCreateUserAtLogin", flag options.enable_create_user_at_login)
      ∷ ("EnableAuthorization", flag true)
      ∷ ("UseSharedDeviceKeys", flag true)
      ∷ (
        "TokenToUserMapping",
        dict
            (dict_of (("AccountName", text "preferred_username") ∷ ("FullName", text "name") ∷ [])),
      )
      ∷ [])
    ++ (if truthy options.registration_token
        then ("RegistrationToken", text options.registration_token) ∷ []
        else [])
    ++ administrator_groups options.admin_groups)

unfoldable pub build_psso_payload : Tenant → PssoProfileOptions → Action Entries
unfolding platform_sso
build_psso_payload tenant options = do
  uuid ← new_uuid
  pure (
      dict_of (
        payload_head "com.apple.extensiblesso" ("com.mdmsaas.psso." <> tenant.id) uuid
          "Platform Single Sign-On"
        ++ (
          "PayloadDescription",
          text ("Enables SSO with " <> tenant.name <> " Microsoft Entra ID"),
        )
          ∷ ("ExtensionIdentifier", text microsoft_sso_extension_id)
          ∷ ("TeamIdentifier", text microsoft_team_id)
          ∷ ("Type", text "Redirect")
          ∷ ("Hosts", texts_of entra_sso_hosts)
          ∷ ("URLs", texts_of entra_sso_urls)
          ∷ ("ScreenLockedBehavior", text "DoNotHandle")
          ∷ ("PlatformSSO", dict (platform_sso options))
          ∷ (
            "ExtensionData",
            dict (
                dict_of (
                  ("browser_sso_interaction_enabled", flag true)
                  ∷ ("disable_explicit_app_prompt", flag true)
                  ∷ ("AppPrefixAllowList", text "com.microsoft.,com.apple.")
                  ∷ [])),
          )
          ∷ []))

unfoldable pub build_psso_profile : Tenant → PssoProfileOptions → Action Entries
unfolding build_psso_payload build_profile_xml psso_profile_identifier
build_psso_profile tenant options = do
  payload ← build_psso_payload tenant options
  build_profile_xml (payload ∷ []) (tenant.name <> " — Platform SSO")
      "Enables macOS login with Microsoft Entra ID credentials" true
      (some (psso_profile_identifier tenant.id))

abbrev pub device_identity_uuid : String
device_identity_uuid = "3F3D1D3C-5A5B-4A4A-8A8A-1C1C1C1C1C1C"

unfoldable pub build_mdm_enrollment_profile :
    String → Tenant → String → String → String → Bool → Action Entries
unfolding build_profile_xml
build_mdm_enrollment_profile p12_data tenant server_url checkin_url push_topic sign_message = do
  let cert_payload = dict_of (
      payload_head "com.apple.security.pkcs12" ("com.mdmsaas.device.identity." <> tenant.id)
        device_identity_uuid "Device Identity Certificate"
      ++ ("PayloadContent", text p12_data) ∷ ("Password", text "mdmdev") ∷ [])
  uuid ← new_uuid
  build_profile_xml
      (cert_payload
        ∷ dict_of (
            payload_head "com.apple.mdm" ("com.mdmsaas.mdm." <> tenant.id) uuid "MDM Enrollment"
            ++ ("ServerURL", text server_url)
              ∷ ("CheckInURL", text checkin_url)
              ∷ ("Topic", text push_topic)
              ∷ ("IdentityCertificateUUID", text device_identity_uuid)
              ∷ ("SignMessage", flag sign_message)
              ∷ ("CheckOutWhenRemoved", flag true)
              ∷ ("AccessRights", number 8191)
              ∷ ("ServerCapabilities", texts_of ("com.apple.mdm.per-user-connections" ∷ []))
              ∷ [])
        ∷ [])
      (tenant.name <> " MDM Enrollment") "Enrolls this Mac in your organisation's MDM system" false
      none
