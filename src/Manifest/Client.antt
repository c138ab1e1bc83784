-- ===== src/Manifest/Client.antt =====
-- permission_manifest.go: the client that sends a manifest. A command first gets a machine token,
-- from the client's cache or from the issuer, and then sends the manifest; both requests share one
-- budget. Each operation returns its result, the client after it, and the command with what it spent.
-- `Wire` has what comes from outside: the answers of the two servers, and the decoding of their JSON.
pub mod Sending
pub mod Commands
mod Tests
use mathlib.Core.List.{reverse}
use vertex_sdk_go.Prelude.{
  ℕ, suc, zero, ◌+◌, ◌-◌, ◌*◌, ◌^◌, ◌%◌, Bool, true, false, not, ◌&&◌, ◌||◌, List, [], ◌∷◌, ◌++◌,
  Option, none, some, Result, ok, err, ◌>>=◌, length, ltb, leb, ◌==◌, if◌then◌else◌,
}
use vertex_sdk_go.Prelude.Int.{ℤ, pos, negsuc}
use vertex_sdk_go.Prelude.Strings.{Bytes, bytes, str_eq}
use vertex_sdk_go.Prelude.Utf8.{trim_space}
use vertex_sdk_go.Json.{Stream, JsonError}
use vertex_sdk_go.Middleware.{equal_fold}
use vertex_sdk_go.Manifest.Text.{ManifestError, is_idempotency_key}
use vertex_sdk_go.Manifest.Transport.{
  Response, Network, Command, Failure, command_timeout, transport_error, response_size_exceeded,
  context_done, panic, Run, execute, parse_retry_after, second,
}
use vertex_sdk_go.Manifest.Response.{
  Item, Drift, Counts, ManifestResult, ResultError, validate_manifest_result,
}
use vertex_sdk_go.Manifest.{
  PermissionManifest, PreparedManifest, mode_validate, mode_upsert, prepare,
}

-- `PermissionManifestClientConfig`; `http_client` says whether the caller gives a client of its own.
pub record Config : Type 0 where
  pub issuer_endpoint : Bytes
  pub portal_api_endpoint : Bytes
  pub client_id : Bytes
  pub client_secret : Bytes
  pub timeout : ℤ
  pub token_skew : ℤ
  pub max_retries : ℤ
  pub max_retry_delay : ℤ
  pub http_client : Bool
  pub observer : Bool

pub record Token : Type 0 where
  pub access_token : Bytes
  pub expires_at : ℕ

-- `http_timeout` is that of the client that the constructor makes, if it makes one.
pub record Client : Type 0 where
  pub issuer_endpoint : Bytes
  pub portal_api_endpoint : Bytes
  pub client_id : Bytes
  pub client_secret : Bytes
  pub token_skew : ℕ
  pub max_retries : ℕ
  pub max_retry_delay : ℕ
  pub http_timeout : Option ℕ
  pub observer : Bool
  pub token : Option Token

pub data ConfigError : Type 0 where
  missing_setting negative_setting timeout_too_long : ConfigError

-- `strings.TrimRight(s, "/")`, on the text reversed and as it is
unfoldable drop_slashes : Bytes → Bytes
drop_slashes [] = []
drop_slashes (c ∷ s) = if c == b'/' then drop_slashes s else c ∷ s

unfoldable pub trim_slashes : Bytes → Bytes
unfolding drop_slashes
trim_slashes s = reverse (drop_slashes (reverse s))

unfoldable pub is_negative : ℤ → Bool
is_negative (pos n) = false
is_negative (negsuc n) = true

-- `if v == 0 { v = fallback }`, for a value that is not negative
unfoldable pub or_default : ℕ → ℤ → ℕ
or_default fallback (pos zero) = fallback
or_default fallback (pos (suc n)) = suc n
or_default fallback (negsuc n) = 0

-- `if timeout <= 0 { timeout = 5 * time.Second }`
unfoldable pub timeout_of : ℤ → ℕ
timeout_of (pos zero) = 5 * second
timeout_of (pos (suc n)) = suc n
timeout_of (negsuc n) = 5 * second

pub new_client : Config → Result ConfigError Client
unfolding trim_slashes is_negative or_default timeout_of
new_client cfg =
    let issuer = trim_slashes (trim_space cfg.issuer_endpoint) in
    let portal = trim_slashes (trim_space cfg.portal_api_endpoint) in
    let client_id = trim_space cfg.client_id in
    let client_secret = trim_space cfg.client_secret in
    if str_eq issuer [] || str_eq portal [] || str_eq client_id [] || str_eq client_secret []
    then err missing_setting
    else if is_negative cfg.token_skew
        || is_negative cfg.max_retries
        || is_negative cfg.max_retry_delay
    then err negative_setting
    else if ltb (5 * second) (timeout_of cfg.timeout)
    then err timeout_too_long
    else ok (record {
      issuer_endpoint = issuer;
      portal_api_endpoint = portal;
      client_id = client_id;
      client_secret = client_secret;
      token_skew = or_default (30 * second) cfg.token_skew;
      max_retries = or_default 0 cfg.max_retries;
      max_retry_delay = or_default (5 * second) cfg.max_retry_delay;
      http_timeout = if cfg.http_client then none else some (timeout_of cfg.timeout);
      observer = cfg.observer;
      token = none;
    })

-- `PermissionManifestError`
pub record ProtocolError : Type 0 where
  pub status : ℤ
  pub code : Bytes
  pub message : Bytes
  pub correlation_id : Bytes
  pub retry_after_seconds : ℤ
  pub body : Bytes

pub data ClientError : Type 0 where
  invalid_manifest : ManifestError → ClientError
  invalid_idempotency_key : ClientError
  bad_request : Bytes → ClientError
  no_answer : Failure → ClientError
  protocol : ProtocolError → ClientError

-- A protocol error with neither correlation ID nor wait.
abbrev plain_error : ℤ → Bytes → Bytes → Bytes → ClientError
plain_error status code message body = protocol (record {
  status = status;
  code = code;
  message = message;
  correlation_id = [];
  retry_after_seconds = pos 0;
  body = body;
})

-- The bodies of the servers' answers.
pub record TokenPayload : Type 0 where
  pub access_token : Bytes
  pub token_type : Bytes
  pub expires_in : ℤ
  pub scope : Bytes

pub record TokenErrorPayload : Type 0 where
  pub error : Bytes
  pub description : Bytes

pub record ErrorPayload : Type 0 where
  pub status : ℤ
  pub error : Bytes
  pub message : Bytes
  pub timestamp : Bytes
  pub correlation_id : Bytes

pub record CountsWire : Type 0 where
  pub created : Option ℤ
  pub updated : Option ℤ
  pub unchanged : Option ℤ
  pub resurrected : Option ℤ
  pub conflict : Option ℤ
  pub drift : Option ℤ

pub record ResultWire : Type 0 where
  pub mode : Option Bytes
  pub manifest_id : Option Bytes
  pub revision : Option Bytes
  pub fingerprint : Option Bytes
  pub applied : Option Bool
  pub results : Option (List Item)
  pub drift : Option (List Drift)
  pub counts : Option CountsWire

pub record Request : Type 0 where
  pub url : Bytes
  pub headers : List (Bytes × Bytes)
  pub body : Bytes

-- The network of a command's request, `http.NewRequestWithContext` as far as it refuses a URL,
-- `base64.StdEncoding`, and encoding/json: the encoding of a prepared manifest and the decoding of
-- each body into its target by `Decoder.Decode`, with the tokens of `Decoder.Token` before it and the
-- text of an error.
pub record Wire : Type 0 where
  pub network : Request → Network
  pub refused_url : Bytes → Option Bytes
  pub base64 : Bytes → Bytes
  pub marshal : PreparedManifest → Result Bytes Bytes
  pub stream : Bytes → Stream
  pub json_error_text : JsonError → Bytes
  pub decode_token : Bytes → Result Bytes TokenPayload
  pub decode_token_error : Bytes → Result Bytes TokenErrorPayload
  pub decode_error : Bytes → Result Bytes ErrorPayload
  pub decode_result : Bytes → Result Bytes ResultWire
  pub result_error_text : ResultError → Bytes

-- The instants at which a command reads the clock: for the token's test and for its expiry.
pub record Instants : Type 0 where
  pub token_test : ℕ
  pub token_expiry : ℕ

abbrev pub scope : Bytes
scope = bytes "permissions:sync"

abbrev pub fresh_command : Command
fresh_command = record { sent = 0; attempts = 3; delays = [] }
