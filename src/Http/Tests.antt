-- ===== src/Http/Tests.antt =====
-- The client at concrete inputs, and the theorems applied to it.
use vertex_sdk_go.Prelude.{
  suc, ◌≡◌, ◌≢◌, refl, false, List, [], ◌∷◌, All, none, some, Result, ok, err, length,
}
use vertex_sdk_go.Prelude.Sort.{AllPairs}
use vertex_sdk_go.Prelude.Strings.{Bytes, bytes, str_eq, class_match, index_byte}
use vertex_sdk_go.Prelude.Utf8.{trim_space, pieces, is_space}
use vertex_sdk_go.Json.{decode_strict, reject_duplicates, is_seen}
use vertex_sdk_go.Permission.{is_segment, segment_char}
use vertex_sdk_go.CurrentUser.{normalize_bearer}
use vertex_sdk_go.Middleware.{equal_fold}
use vertex_sdk_go.Manifest.Response.{split_colon}
use vertex_sdk_go.Portal.{Body}
use vertex_sdk_go.Http.{
  api_error, duplicate_key, signed, unsigned, bearer, Log, Did, is_retryable, max_retries,
  request_of, do_json, plain_answer, plain_failure, plain_attempt, do_json_retry, strict_answer,
  strict_failure, strict_attempt, do_json_strict_retry,
}
use vertex_sdk_go.Http.Samples.{patient, config, response, shaky, steady}
use vertex_sdk_go.Http.Retries.{
  SendsAtMost, Responded, the_request, body_of, do_json_retry-SendsAtMost, do_json_retry-final,
}
use vertex_sdk_go.Http.Permissions.{
  valid_key, keys_from, strict_keys, resolve_permissions, definition_of, Codec,
}
use vertex_sdk_go.Http.Resolved.{IsKey, resolve_permissions-IsResolved}

abbrev decode : Body → Result Bytes Bytes
decode body = ok body.content

abbrev path : Bytes
path = bytes "/api/v1/auth/logout"

abbrev logged_out : Did Bytes
logged_out =
    do_json_retry patient shaky config (bearer (bytes "t")) (bytes "POST") path none decode []

second-answer : (logged_out.0 ≡ ok (bytes "{}")) × (length logged_out.1 ≡ 2)
unfolding do_json_retry plain_attempt do_json plain_answer plain_failure is_retryable max_retries
second-answer = (refl, refl)

do_json_retry-SendsAtMost_example :
    SendsAtMost
      (suc (max_retries config))
      (the_request shaky config (bytes "POST") path none (bearer (bytes "t")))
      []
      logged_out.1
do_json_retry-SendsAtMost_example =
    do_json_retry-SendsAtMost patient shaky config (bytes "POST") path none (bearer (bytes "t"))
      decode []

forbidden : is_retryable 403 ≡ false
unfolding is_retryable
forbidden = refl

-- A write with a body is not repeated after an answer of 403.
do_json_retry-final_example :
    do_json_retry patient
      (steady 403)
      config
      unsigned
      (bytes "POST")
      path
      (some (ok (bytes "{}")))
      decode
      []
    ≡ (
      err (api_error 403 (bytes "{}")),
      request_of (steady 403) config unsigned (bytes "POST") path (some (bytes "{}")) ∷ [],
    )
do_json_retry-final_example =
    do_json_retry-final patient (steady 403) config (bytes "POST") path unsigned (some (bytes "{}"))
      decode [] (response 403) refl refl refl forbidden

abbrev codec : Codec
codec = record {
  marshal_resolve = λ client_id roles. ok (bytes "{}");
  decode_resolved = λ body. ok (some (bytes "posts:read" ∷ bytes "comments:*" ∷ []));
  decode_snapshot = λ body. err (bytes "none");
}

abbrev resolved : Did (List Bytes)
resolved = resolve_permissions patient shaky config codec (bytes "blog") (bytes "editor" ∷ []) []

resolution-succeeds : resolved.0 ≡ ok (bytes "posts:read" ∷ bytes "comments:*" ∷ [])
unfolding resolve_permissions do_json_strict_retry strict_attempt do_json strict_answer
    strict_failure is_retryable max_retries decode_strict reject_duplicates strict_keys keys_from
    valid_key split_colon is_segment segment_char class_match is_seen str_eq
resolution-succeeds = refl

resolve_permissions-IsResolved_example :
    let body = some (codec.marshal_resolve (bytes "blog") (bytes "editor" ∷ [])) in
    let resolve_path = bytes "/open/v1/permissions:resolve" in
    All IsKey (bytes "posts:read" ∷ bytes "comments:*" ∷ [])
    × AllPairs (λ x y. x ≢ y) (bytes "posts:read" ∷ bytes "comments:*" ∷ [])
    × SendsAtMost
        (suc (max_retries config))
        (the_request shaky config (bytes "POST") resolve_path body signed)
        []
        resolved.1
    × ((before : Log) × Responded shaky config signed
          (bytes "POST")
          resolve_path
          (strict_answer shaky codec.decode_resolved)
          (body_of body)
          (some (bytes "posts:read" ∷ bytes "comments:*" ∷ []))
          before
          resolved.1)
resolve_permissions-IsResolved_example =
    resolve_permissions-IsResolved patient shaky config codec (bytes "blog") (bytes "editor") [] []
      (bytes "posts:read" ∷ bytes "comments:*" ∷ []) resolution-succeeds

twice : strict_keys (some (bytes "a:b" ∷ bytes "a:b" ∷ [])) ≡ err (duplicate_key (bytes "a:b"))
unfolding strict_keys keys_from valid_key split_colon is_segment segment_char class_match is_seen
    str_eq
twice = refl

cut :
    definition_of (bytes "posts:read") ≡ record { resource = bytes "posts"; action = bytes "read" }
unfolding definition_of index_byte
cut = refl

abbrev no_token : Bytes
no_token = bytes "  "

is_blank : normalize_bearer no_token ≡ []
unfolding normalize_bearer trim_space pieces is_space equal_fold str_eq
is_blank = refl
