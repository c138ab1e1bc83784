-- ===== src/Generator/Tests.antt =====
-- Names of constants, and the theorem at concrete permissions.
use vertex_sdk_go.Prelude.{
  ℕ, ◌≡◌, ◌≢◌, refl, Bool, true, List, [], ◌∷◌, ok, leb, ◌&&◌, ◌-◌, if◌then◌else◌,
}
use vertex_sdk_go.Prelude.Sort.{sort, insert}
use vertex_sdk_go.Prelude.Strings.{Bytes, bytes, str_eq, str_lt, class_match}
use vertex_sdk_go.Prelude.Utf8.{pieces, encode_rune, valid_string}
use vertex_sdk_go.Permission.{PermissionDefinition, key, is_concrete, is_segment, segment_char}
use vertex_sdk_go.Generator.{Entry, definition_lt, pascal, const_name, entries_from, render_entries}
use vertex_sdk_go.Generator.Names.{IsRendered, render_entries-IsRendered}

-- `unicode.ToUpper` on ASCII
abbrev upper : ℕ → ℕ
upper r = if leb b'a' r && leb r b'z' then r - 32 else r

abbrev all_normal : Bytes → Bool
all_normal text = true

signing-keys : const_name upper (bytes "signing-keys") (bytes "read") ≡ bytes "SigningKeysRead"
unfolding const_name pascal pieces encode_rune str_eq
signing-keys = refl

abbrev posts_read : PermissionDefinition
posts_read = record { resource = bytes "posts"; action = bytes "read"; description = [] }

abbrev files_edit : PermissionDefinition
files_edit = record { resource = bytes "files"; action = bytes "edit"; description = [] }

abbrev entries : List Entry
entries =
    record {
      const_name = bytes "FilesEdit";
      resource = bytes "files";
      action = bytes "edit";
      description = [];
    }
    ∷ record {
      const_name = bytes "PostsRead";
      resource = bytes "posts";
      action = bytes "read";
      description = [];
    }
    ∷ []

rendered :
    render_entries upper all_normal (bytes "perms") (posts_read ∷ files_edit ∷ []) ≡ ok entries
unfolding render_entries entries_from definition_lt sort insert str_eq str_lt const_name pascal
    pieces encode_rune valid_string is_concrete is_segment segment_char class_match key
rendered = refl

render_entries-IsRendered_example :
    (bytes "perms" ≢ []) × IsRendered upper all_normal (posts_read ∷ files_edit ∷ []) entries
render_entries-IsRendered_example =
    render_entries-IsRendered upper all_normal (bytes "perms") (posts_read ∷ files_edit ∷ [])
      entries rendered
