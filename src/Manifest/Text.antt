-- ===== src/Manifest/Text.antt =====
-- permission_manifest.go: a declaration and the rules for its text and for a manifest's names.
use vertex_sdk_go.Prelude.{
  ℕ, ◌+◌, Bool, true, false, not, ◌&&◌, ◌||◌, List, [], ◌∷◌, ◌++◌, Option, none, some, Result, ok,
  err, ◌>>◌, ltb, leb, ◌==◌, all, if◌then◌else◌,
}
use vertex_sdk_go.Prelude.Strings.{Bytes, bytes, str_eq, class_match}
use vertex_sdk_go.Prelude.Utf8.{Piece, pieces, trim_space, is_control, valid_string}

pub record Declaration : Type 0 where
  pub resource : Bytes
  pub action : Bytes
  pub name : Bytes
  pub description : Option Bytes

-- `Key`
unfoldable pub key : Declaration → Bytes
key d = d.resource ++ (bytes ":" ++ d.action)

pub data ManifestError : Type 0 where
  invalid_mode invalid_manifest_id invalid_revision bad_permissions duplicate_key : ManifestError
  invalid_key invalid_name invalid_description not_nfc : ManifestError

abbrev lower_or_digit : ℕ → Bool
lower_or_digit c = leb b'a' c && leb c b'z' || leb b'0' c && leb c b'9'

abbrev upper : ℕ → Bool
upper c = leb b'A' c && leb c b'Z'

-- `segmentPattern`
unfoldable pub is_segment : Bytes → Bool
is_segment = class_match (λ c. lower_or_digit c || c == b'_' || c == b'-') 1 128

manifest_id_char : ℕ → Bool
manifest_id_char c = lower_or_digit c || c == b'.' || c == b'_' || c == b'-'

-- `manifestIDPattern`: `^[a-z0-9][a-z0-9._-]{0,127}$`
unfoldable pub is_manifest_id : Bytes → Bool
unfolding manifest_id_char
is_manifest_id [] = false
is_manifest_id (c ∷ s) = lower_or_digit c && class_match manifest_id_char 0 127 s

revision_char : ℕ → Bool
revision_char c =
    upper c
    || lower_or_digit c
    || c == b'.'
    || c == b'_'
    || c == b':'
    || c == b'@'
    || c == b'/'
    || c == b'+'
    || c == b'~'
    || c == b'-'

-- `revisionPattern`
unfoldable pub is_revision : Bytes → Bool
unfolding revision_char
is_revision = class_match revision_char 1 128

hex_char : ℕ → Bool
hex_char c = leb b'0' c && leb c b'9' || leb b'a' c && leb c b'f'

-- `fingerprintPattern`
unfoldable pub is_fingerprint : Bytes → Bool
unfolding hex_char
is_fingerprint = class_match hex_char 64 64

-- `idempotencyPattern`, and `requireManifestIdempotencyKey` that tests it
unfoldable pub is_idempotency_key : Bytes → Bool
is_idempotency_key = class_match (λ c. leb 0x21 c && leb c 0x7e) 8 128

-- `utf16.RuneLen` of a character that a `range` loop yields
rune_len : ℕ → ℕ
rune_len r = if ltb r 0x10000 then 1 else 2

utf16_sum : List Piece → ℕ
utf16_sum [] = 0
utf16_sum (p ∷ ps) = rune_len p.rune + utf16_sum ps

unfoldable pub utf16_length : Bytes → ℕ
unfolding utf16_sum rune_len
utf16_length value = utf16_sum (pieces value)

-- `if !test { return err }`
abbrev pub require : Bool → ManifestError → Result ManifestError (Unit {0})
require true e = ok tt
require false e = err e

-- `validateManifestText`; the error stands for the field's name
unfoldable pub validate_text : Bytes → ℕ → ManifestError → Result ManifestError (Unit {0})
validate_text value max field = do
  require
      (not
        (str_eq value [] || ltb max (utf16_length value) || not (str_eq (trim_space value) value)))
      field
  require (all (λ p. not (is_control p.rune)) (pieces value)) field

validate_description : Option Bytes → Result ManifestError (Unit {0})
validate_description none = ok tt
validate_description (some text) = validate_text text 512 invalid_description

-- Valid UTF-8 in normal form C.
is_normal : (Bytes → Bool) → Bytes → Bool
is_normal is_nfc text = valid_string text && is_nfc text

description_normal : (Bytes → Bool) → Option Bytes → Bool
unfolding is_normal
description_normal is_nfc none = true
description_normal is_nfc (some text) = is_normal is_nfc text

-- `validateManifestDeclaration`. The loop over the fields runs in no fixed order, so its error does
-- not name the field.
unfoldable pub validate_declaration : (Bytes → Bool) → Declaration → Result ManifestError (Unit {0})
unfolding validate_description is_normal description_normal
validate_declaration is_nfc d = do
  require (is_segment d.resource && is_segment d.action) invalid_key
  validate_text d.name 128 invalid_name
  validate_description d.description
  require (is_normal is_nfc d.resource && is_normal is_nfc d.action && is_normal is_nfc d.name)
      not_nfc
  require (description_normal is_nfc d.description) not_nfc
