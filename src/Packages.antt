-- ===== src/Packages.antt =====
-- app/api/routes/packages.py: uploaded installers. The store of files (a directory or S3) is outside the
-- database: `size` is how many bytes an upload has, `path` where its file is put; the removal of a file is left
-- out, and so is the response with a file's bytes.
use mdm_saa_s.Common.{
  ℕ, ◌*◌, String, Bool, not, ◌&&◌, ◌||◌, Option, none, some, List, [], ◌∷◌, ◌++◌, ◌==◌, ltb, truthy,
  some_is, select, delete_where, if◌then◌else◌,
}
use mdm_saa_s.Models.{Tenant, User, SoftwarePackage}
use mdm_saa_s.Database.{
  Action, http, pure, raise, lift, gets, modify, require, new_uuid, ◌>>=◌, ◌>>◌, one_or_none,
}
use mdm_saa_s.Auth.Tokens.{Crypto}

abbrev pub on_packages : (List SoftwarePackage → List SoftwarePackage) → Action Unit
on_packages f = modify (λ s. record s { software_packages = f s.software_packages })

-- MAX_FILE_SIZE
abbrev pub max_file_size : ℕ
max_file_size = 4 * 1024 * 1024 * 1024

abbrev text_or_none : String → Option String
text_or_none s = if truthy s then some s else none

-- `suffix` is the file's name from its last dot on, in lower case.
unfoldable pub upload_package :
    ℕ
    → Tenant
    → User
    → String
    → String
    → String
    → String
    → String
    → String
    → ℕ
    → Action SoftwarePackage
upload_package now tenant user name version description filename suffix path size = do
  require (suffix == ".pkg" || suffix == ".dmg") (http 400)
  require (not (ltb max_file_size size)) (http 413)
  id ← new_uuid
  let pkg : SoftwarePackage = record {
    id = id;
    tenant_id = tenant.id;
    name = name;
    version = text_or_none version;
    description = text_or_none description;
    filename = filename;
    file_path = path;
    file_size = some size;
    pkg_type = if suffix == ".pkg" then "pkg" else "dmg";
    uploaded_by_id = some user.id;
    uploaded_at = now;
  }
  on_packages (λ ps. ps ++ pkg ∷ [])
  pure pkg

abbrev pub is_package_of : String → String → SoftwarePackage → Bool
is_package_of id tenant_id p = p.id == id && p.tenant_id == tenant_id

unfoldable pub find_package : String → String → Action SoftwarePackage
unfolding one_or_none
find_package id tenant_id = do
  found ← gets (λ s. select (is_package_of id tenant_id) s.software_packages)
  pkg ← lift (one_or_none found)
  elim pkg [ none ↦ raise (http 404) | some p ↦ pure p ]

unfoldable pub delete_package : Tenant → String → Action Unit
unfolding find_package
delete_package tenant pkg_id = do
  pkg ← find_package pkg_id tenant.id
  on_packages (delete_where (λ p. p.id == pkg.id))

-- The tenant of a user's token.
unfoldable pub tenant_of_token : Crypto → ℕ → String → Action String
unfolding one_or_none
tenant_of_token crypto now token = elim (crypto.decode now token) [
  | none ↦ raise (http 401)
  | some payload ↦ do
    found ← gets (λ s. select (λ u. u.id == payload.sub) s.users)
    user ← lift (one_or_none found)
    elim user [ none ↦ raise (http 401) | some u ↦ pure u.tenant_id ]
]

-- The tenant of the bearer: of the device with this agent token, or else of the user.
unfoldable pub bearer_tenant : Crypto → ℕ → String → Action String
unfolding one_or_none tenant_of_token
bearer_tenant crypto now token = do
  found ← gets (λ s. select (λ d. some_is (λ t. t == token) d.agent_token) s.devices)
  device ← lift (one_or_none found)
  elim device [ some d ↦ pure d.tenant_id | none ↦ tenant_of_token crypto now token ]

unfoldable pub download_package : Crypto → ℕ → Option String → String → Action SoftwarePackage
unfolding bearer_tenant find_package
download_package crypto now none pkg_id = raise (http 401)
download_package crypto now (some token) pkg_id =
    bearer_tenant crypto now token >>= find_package pkg_id
