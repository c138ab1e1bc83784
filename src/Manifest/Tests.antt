-- ===== src/Manifest/Tests.antt =====
-- Manifests, their commands and their results at concrete inputs, and the theorems applied to them.
use mathlib.Core.List.{Permᴰ}
use vertex_sdk_go.Prelude.{
  ℕ, ◌*◌, ◌≡◌, ◌↔◌, refl, Bool, true, false, List, [], ◌∷◌, none, some, ok, err, ◌==◌,
  if◌then◌else◌,
}
use vertex_sdk_go.Prelude.Int.{pos}
use vertex_sdk_go.Prelude.Sort.{sort, insert}
use vertex_sdk_go.Prelude.Strings.{Bytes, bytes, str_eq, str_lt, class_match}
use vertex_sdk_go.Prelude.Utf8.{pieces, trim_space, is_control, valid_string, encode_rune}
use vertex_sdk_go.Manifest.Text.{
  Declaration, key, duplicate_key, validate_text, validate_declaration, is_segment, is_manifest_id,
  is_revision, is_fingerprint, utf16_length,
}
use vertex_sdk_go.Manifest.Canonical.{jcs_string, escape, escape_all}
use vertex_sdk_go.Manifest.Prepare.{IsNamed, AreSendable, prepared, prepare_iff, prepare_perm}
use vertex_sdk_go.Manifest.Transport.{
  Reply, failed, answered, Network, Command, execute, atoi, parse_retry_after, second, retryable,
}
use vertex_sdk_go.Manifest.Transport.Budget.{Spends, execute-Spends}
use vertex_sdk_go.Manifest.Transport.Outcome.{Ends, execute-Ends}
use vertex_sdk_go.Manifest.Response.{
  ManifestResult, known_reason, known_drift, known_source, operation_of, counted, check_items,
  check_drift, counts_match, same_identity, valid_manifest_key, validate_manifest_result,
}
use vertex_sdk_go.Manifest.Response.Consistent.{IsConsistent, validate_manifest_result-IsConsistent}
use vertex_sdk_go.Manifest.{
  mode_upsert, PermissionManifest, PreparedManifest, key_lt, has_duplicate, validate_declarations,
  prepare_permissions, prepare,
}

abbrev posts : Declaration
posts = record {
  resource = bytes "posts";
  action = bytes "read";
  name = bytes "Read posts";
  description = none;
}

abbrev files : Declaration
files = record {
  resource = bytes "files";
  action = bytes "edit";
  name = bytes "Edit";
  description = some (bytes "Edit a file");
}

abbrev manifest : PermissionManifest
manifest = record {
  manifest_id = bytes "blog";
  revision = bytes "v1.2";
  permissions = some (posts ∷ files ∷ []);
}

-- Every text is in normal form, and a digest that is always the same.
abbrev all_normal : Bytes → Bool
all_normal text = true

abbrev digest : Bytes → Bytes
digest text = bytes "0123456789abcdef0123456789abcdef0123456789abcdef0123456789abcdef"

abbrev blog : PreparedManifest
blog = record {
  mode = bytes "upsert";
  manifest_id = bytes "blog";
  revision = bytes "v1.2";
  fingerprint = digest [];
  permissions = files ∷ posts ∷ [];
}

escaped : jcs_string (bytes "a\"\\\n") ≡ bytes "\"a\\\"\\\\\\n\""
unfolding jcs_string escape escape_all pieces encode_rune
escaped = refl

manifest-prepared : prepare all_normal digest manifest mode_upsert ≡ ok blog
unfolding prepare prepare_permissions validate_declarations validate_declaration has_duplicate
    key_lt sort insert str_eq str_lt is_manifest_id is_revision class_match is_segment validate_text
    utf16_length pieces trim_space is_control valid_string key
manifest-prepared = refl

-- a repeated key
manifest-refused :
    prepare all_normal digest
      (record manifest { permissions = some (posts ∷ files ∷ posts ∷ []) })
      mode_upsert
    ≡ err duplicate_key
unfolding prepare prepare_permissions validate_declarations validate_declaration has_duplicate
    key_lt sort insert str_eq str_lt is_manifest_id is_revision class_match is_segment validate_text
    utf16_length pieces trim_space is_control valid_string key
manifest-refused = refl

prepare_iff_example : (prepare all_normal digest manifest mode_upsert ≡ ok blog) ↔ (
    IsNamed all_normal digest manifest mode_upsert
    × ((ds : List Declaration) × (manifest.permissions ≡ some ds)
        × AreSendable all_normal ds
        × (blog ≡ prepared all_normal digest manifest mode_upsert ds)))
prepare_iff_example = prepare_iff all_normal digest manifest mode_upsert blog

prepare_perm_example :
    prepare all_normal digest
      (record manifest { permissions = some (files ∷ posts ∷ []) })
      mode_upsert
    ≡ ok blog
prepare_perm_example =
    prepare_perm all_normal digest mode_upsert manifest (posts ∷ files ∷ []) (files ∷ posts ∷ [])
      blog (Permᴰ.swap refl refl) manifest-prepared

-- A network whose first request fails and whose second is answered, 503 and then 200.
abbrev answer : ℕ → Bytes → Reply
answer status wait = answered (record { status = status; retry_after = wait; body = bytes "{}" })

abbrev flaky : Network
flaky = record {
  reply = λ n.
      if n == 0
      then failed (bytes "reset")
      else if n == 1
      then answer 503 (bytes "7")
      else answer 200 [];
  cancelled = λ n. false;
}

abbrev start : Command
start = record { sent = 0; attempts = 3; delays = [] }

-- The waits are the backoff of 250 ms and the server's 7 s, cut to 5 s.
flaky-execute :
    (execute flaky 2 (5 * second) start).1
    ≡ record { sent = 3; attempts = 0; delays = 5_000_000_000 ∷ 250_000_000 ∷ [] }
unfolding execute retryable parse_retry_after atoi
flaky-execute = refl

execute-Spends_example : Spends (5 * second) 3 start (execute flaky 2 (5 * second) start).1
execute-Spends_example = execute-Spends flaky 2 (5 * second) start

execute-Ends_example : Ends flaky 2 (5 * second) 0 (execute flaky 2 (5 * second) start)
execute-Ends_example = execute-Ends flaky 2 (5 * second) start

abbrev answered_result : ManifestResult
answered_result = record {
  mode = bytes "upsert";
  manifest_id = bytes "blog";
  revision = bytes "v1.2";
  fingerprint = digest [];
  applied = true;
  results =
      record {
        key = bytes "files:edit";
        operation = bytes "CREATE";
        reason = bytes "DECLARATION_ACCEPTED";
      }
      ∷ record {
        key = bytes "posts:read";
        operation = bytes "UNCHANGED";
        reason = bytes "DECLARATION_ACCEPTED";
      }
      ∷ [];
  drift = [];
  counts = record {
    created = pos 1;
    updated = pos 0;
    unchanged = pos 1;
    resurrected = pos 0;
    conflict = pos 0;
    drift = pos 0;
  };
}

result-valid : validate_manifest_result answered_result blog ≡ ok tt
unfolding validate_manifest_result check_items counted check_drift counts_match same_identity
    valid_manifest_key known_reason known_drift known_source operation_of str_eq str_lt is_segment
    is_fingerprint class_match
result-valid = refl

validate_manifest_result-IsConsistent_example : IsConsistent answered_result blog
validate_manifest_result-IsConsistent_example =
    validate_manifest_result-IsConsistent answered_result blog result-valid
