-- ===== src/Manifest.antt =====
-- permission_manifest.go: the declarations of a service's permissions, their preparation for the
-- server, and the commands that send them. This file has the types and the preparation.
pub mod Text
pub mod Canonical
pub mod Prepare
pub mod Transport
pub mod Response
pub mod Client
mod Tests
use vertex_sdk_go.Prelude.{
  ℕ, Bool, true, false, not, ◌&&◌, ◌||◌, List, [], ◌∷◌, ◌++◌, Option, none, some, Result, ok, err,
  ◌>>=◌, ◌>>◌, length, ltb, if◌then◌else◌,
}
use vertex_sdk_go.Prelude.Sort.{sort}
use vertex_sdk_go.Prelude.Strings.{Bytes, bytes, str_eq, str_lt}
use vertex_sdk_go.Manifest.Canonical.{canonical_manifest, canonical_declaration}
use vertex_sdk_go.Manifest.Text.{
  Declaration, key, ManifestError, invalid_mode, invalid_manifest_id, invalid_revision,
  bad_permissions, duplicate_key, require, validate_declaration, is_manifest_id, is_revision,
}

abbrev pub mode_validate : Bytes
mode_validate = bytes "validate"

abbrev pub mode_upsert : Bytes
mode_upsert = bytes "upsert"

-- `PermissionManifest`; `none` is the nil slice
pub record PermissionManifest : Type 0 where
  pub manifest_id : Bytes
  pub revision : Bytes
  pub permissions : Option (List Declaration)

pub record PreparedManifest : Type 0 where
  pub mode : Bytes
  pub manifest_id : Bytes
  pub revision : Bytes
  pub fingerprint : Bytes
  pub permissions : List Declaration

-- the order of `sort.Slice`
pub key_lt : Declaration → Declaration → Bool
key_lt a b = str_lt (key a) (key b)

-- the loop that compares each key with the one before it
pub has_duplicate : List Declaration → Bool
has_duplicate [] = false
has_duplicate (x ∷ []) = false
has_duplicate (x ∷ y ∷ ys) = if str_eq (key x) (key y) then true else has_duplicate (y ∷ ys)

-- The loop over the declarations; `is_nfc` is `norm.NFC.IsNormalString` of golang.org/x/text.
pub validate_declarations : (Bytes → Bool) → List Declaration → Result ManifestError (Unit {0})
validate_declarations is_nfc [] = ok tt
validate_declarations is_nfc (d ∷ ds) = do
  validate_declaration is_nfc d
  validate_declarations is_nfc ds

-- `sha256_hex` is the digest of crypto/sha256 in hexadecimal.
module _ (is_nfc : Bytes → Bool) (sha256_hex : Bytes → Bytes) where
  -- `PreparePermissionManifest` from the check of the slice on
  prepare_permissions :
      PermissionManifest → Bytes → Option (List Declaration) → Result ManifestError PreparedManifest
  prepare_permissions m mode none = err bad_permissions
  prepare_permissions m mode (some ds) = do
    require (not (ltb 1000 (length ds))) bad_permissions
    validate_declarations is_nfc ds
    let permissions = sort key_lt ds
    require (not (has_duplicate permissions)) duplicate_key
    ok (record {
      mode = mode;
      manifest_id = m.manifest_id;
      revision = m.revision;
      fingerprint = sha256_hex (canonical_manifest permissions);
      permissions = permissions;
    })

  pub prepare : PermissionManifest → Bytes → Result ManifestError PreparedManifest
  unfolding prepare_permissions
  prepare m mode = do
    require (str_eq mode mode_validate || str_eq mode mode_upsert) invalid_mode
    require (is_manifest_id m.manifest_id) invalid_manifest_id
    require (is_revision m.revision) invalid_revision
    prepare_permissions m mode m.permissions

  -- `PermissionDeclarationRevision`
  pub declaration_revision : Declaration → Result ManifestError Bytes
  declaration_revision d = do
    validate_declaration is_nfc d
    ok (sha256_hex (canonical_declaration d))
