-- ===== src/Apple/Profiles/Restrictions.antt =====
-- The profiles that restrict a device: USB storage, iCloud, OneDrive and Gatekeeper.
use mdm_saa_s.Common.{String, Bool, true, false, none, some, [], ◌∷◌, ◌++◌, if◌then◌else◌}
use mdm_saa_s.Models.{Tenant}
use mdm_saa_s.Database.{Action, pure, new_uuid, ◌>>=◌}
use mdm_saa_s.Apple.Profiles.Values.{text, flag, dict, Entries, dict_of, texts_of}
use mdm_saa_s.Apple.Profiles.Builder.{
  ◌<>◌, payload_head, build_profile_xml, usb_block_profile_identifier,
  icloud_block_profile_identifier, onedrive_kfm_profile_identifier,
}

unfoldable pub build_usb_block_payload : String → Action Entries
build_usb_block_payload tenant_id = do
  uuid ← new_uuid
  pure (
      dict_of (
        payload_head "com.apple.systemuiserver" ("com.mdmsaas.usb.block." <> tenant_id) uuid
          "USB Storage Block"
        ++ ("PayloadDescription", text "Prevents mounting of external USB storage devices")
          ∷ (
            "mount-controls",
            dict (
                dict_of (
                  ("harddisk-external", texts_of ("deny" ∷ "eject" ∷ []))
                  ∷ ("disk-image", texts_of ("deny" ∷ []))
                  ∷ ("dvd", texts_of ("deny" ∷ "eject" ∷ []))
                  ∷ ("bd", texts_of ("deny" ∷ "eject" ∷ []))
                  ∷ ("cd", texts_of ("deny" ∷ "eject" ∷ []))
                  ∷ [])),
          )
          ∷ []))

unfoldable pub build_usb_block_profile : Tenant → Action Entries
unfolding build_usb_block_payload build_profile_xml usb_block_profile_identifier
build_usb_block_profile tenant = do
  legacy ← build_usb_block_payload tenant.id
  uuid ← new_uuid
  build_profile_xml
      (legacy
        ∷ dict_of (
            payload_head "com.apple.security.diskaccess"
              ("com.mdmsaas.usb.diskaccess." <> tenant.id) uuid "USB Disk Access Block"
            ++ ("PayloadDescription", text "Blocks access to external USB storage devices")
              ∷ ("DenyExternalStorage", flag true)
              ∷ [])
        ∷ [])
      (tenant.name <> " — USB Storage Block") "Blocks mounting of external USB storage devices" true
      (some (usb_block_profile_identifier tenant.id))

unfoldable pub build_icloud_block_profile : Tenant → Action Entries
unfolding build_profile_xml icloud_block_profile_identifier
build_icloud_block_profile tenant = do
  uuid ← new_uuid
  build_profile_xml
      (dict_of (
          payload_head "com.apple.applicationaccess" ("com.mdmsaas.icloud.block." <> tenant.id) uuid
            "iCloud Restrictions"
          ++ ("PayloadDescription", text "Disables iCloud services on managed Macs")
            ∷ ("allowCloudDocumentSync", flag false)
            ∷ ("allowCloudPhotoLibrary", flag false)
            ∷ ("allowCloudKeychainSync", flag false)
            ∷ ("allowCloudMail", flag false)
            ∷ ("allowCloudAddressBook", flag false)
            ∷ ("allowCloudCalendar", flag false)
            ∷ ("allowCloudReminders", flag false)
            ∷ ("allowCloudNotes", flag false)
            ∷ ("allowCloudBookmarks", flag false)
            ∷ ("allowManagedAppsCloudSync", flag false)
            ∷ [])
        ∷ [])
      (tenant.name <> " — iCloud Block") "Disables iCloud services — use OneDrive for cloud storage"
      true (some (icloud_block_profile_identifier tenant.id))

unfoldable pub build_onedrive_kfm_profile : Tenant → String → Action Entries
unfolding build_profile_xml onedrive_kfm_profile_identifier
build_onedrive_kfm_profile tenant entra_tenant_id = do
  uuid ← new_uuid
  build_profile_xml
      (dict_of (
          payload_head "com.apple.ManagedClient.preferences"
            ("com.mdmsaas.onedrive.kfm." <> tenant.id) uuid "OneDrive Known Folder Move"
          ++ ("PayloadDescription", text "Redirects Desktop, Documents, Pictures to OneDrive")
            ∷ (
              "PayloadContent",
              dict (
                  dict_of (
                    (
                      "com.microsoft.OneDrive",
                      dict (
                          dict_of (
                            (
                              "Forced",
                              dict (
                                  dict_of (
                                    ("KFMSilentOptIn", text entra_tenant_id)
                                    ∷ ("KFMSilentOptInWithNotification", flag true)
                                    ∷ ("KFMBlockOptOut", flag true)
                                    ∷ ("DisablePersonalSync", flag true)
                                    ∷ ("EnableSSOForApps", flag true)
                                    ∷ ("OpenAtLogin", flag true)
                                    ∷ [])),
                            )
                            ∷ [])),
                    )
                    ∷ [])),
            )
            ∷ [])
        ∷ [])
      (tenant.name <> " — OneDrive KFM") "Redirects Desktop, Documents, and Pictures to OneDrive"
      true (some (onedrive_kfm_profile_identifier tenant.id))

unfoldable pub build_gatekeeper_payload : String → Bool → Action Entries
build_gatekeeper_payload tenant_id allow_identified_developers = do
  uuid ← new_uuid
  pure (
      dict_of (
        payload_head "com.apple.systempolicy.control" ("com.mdmsaas.gatekeeper." <> tenant_id) uuid
          "Gatekeeper Policy"
        ++ ("PayloadDescription", text "Enforces Gatekeeper to block unidentified software")
          ∷ ("EnableAssessment", flag true)
          ∷ ("AllowIdentifiedDevelopers", flag allow_identified_developers)
          ∷ []))

unfoldable pub build_gatekeeper_profile : Tenant → Bool → Action Entries
unfolding build_gatekeeper_payload build_profile_xml
build_gatekeeper_profile tenant allow_identified_developers = do
  payload ← build_gatekeeper_payload tenant.id allow_identified_developers
  let label = if allow_identified_developers then "App Store + Signed Apps" else "App Store Only"
  build_profile_xml (payload ∷ []) (tenant.name <> " — Gatekeeper (" <> label <> ")")
      ("Enforces Gatekeeper policy: " <> label) true none
