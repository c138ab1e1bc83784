-- ===== src/Permission/Tests.antt =====
-- Permission strings at concrete inputs, and the theorems applied to them.
use vertex_sdk_go.Prelude.{◌≡◌, refl, ◌↔◌, true, false, [], ◌∷◌, ok, err}
use vertex_sdk_go.Prelude.Strings.{bytes, str_eq, count_byte, index_byte, class_match}
use vertex_sdk_go.Permission.{
  PermissionKey, authority, segment_char, is_segment, is_concrete, key_eq, parse_permission,
  matches, has_permission,
}
use vertex_sdk_go.Permission.Parsing.{IsWire, parse_permission_iff}
use vertex_sdk_go.Permission.Matching.{Covers, IsGranted, matches_iff, has_permission_iff}

abbrev posts_read : PermissionKey
posts_read = record { resource = bytes "posts"; action = bytes "read" }

parse_ok : parse_permission (bytes "posts:read") ≡ ok posts_read
unfolding parse_permission count_byte index_byte
parse_ok = refl

parse_errors :
    (parse_permission (bytes "posts") ≡ err (record { raw = bytes "posts" }))
    × (parse_permission (bytes ":read") ≡ err (record { raw = bytes ":read" }))
    × (parse_permission (bytes "posts:") ≡ err (record { raw = bytes "posts:" }))
    × (parse_permission (bytes "a:b:c") ≡ err (record { raw = bytes "a:b:c" }))
unfolding parse_permission count_byte index_byte
parse_errors = (refl, refl, refl, refl)

matches_rules :
    (matches posts_read (bytes "posts:read") ≡ true)
    × (matches posts_read (bytes "posts:*") ≡ true)
    × (matches posts_read (bytes "*:*") ≡ true)
    × (matches posts_read (bytes "*:read") ≡ false)
    × (matches posts_read (bytes "Posts:read") ≡ false)
unfolding matches is_concrete is_segment segment_char class_match parse_permission count_byte
    index_byte str_eq key_eq
matches_rules = (refl, refl, refl, refl, refl)

parse_permission_iff_example :
    (parse_permission (bytes "posts:read") ≡ ok posts_read)
    ↔ ((bytes "posts:read" ≡ authority posts_read) × IsWire posts_read)
parse_permission_iff_example = parse_permission_iff (bytes "posts:read") posts_read

matches_iff_example :
    (matches posts_read (bytes "posts:*") ≡ true)
    ↔ ((is_concrete posts_read ≡ true) × Covers posts_read (bytes "posts:*"))
matches_iff_example = matches_iff posts_read (bytes "posts:*")

has_permission_iff_example :
    (has_permission posts_read (bytes "a:b" ∷ bytes "*:*" ∷ []) ≡ true)
    ↔ IsGranted (bytes "a:b" ∷ bytes "*:*" ∷ []) posts_read
has_permission_iff_example = has_permission_iff posts_read (bytes "a:b" ∷ bytes "*:*" ∷ [])
