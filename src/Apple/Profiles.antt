-- ===== src/Apple/Profiles.antt =====
-- app/mdm/apple/profiles.py: the builders of configuration profiles. `plistlib.dumps` is not modelled: a
-- builder returns the dictionary that it is given. Signing is left out.
pub mod Values
pub mod Builder
pub mod Restrictions
pub mod Entra
