-- ===== src/Manifest/Client/Sending.antt =====
-- permission_manifest.go: the machine token, and a command from the token to the checked result.
pub mod Budget
pub mod Success
use vertex_sdk_go.Prelude.{
  ℕ, ◌+◌, ◌-◌, ◌*◌, ◌^◌, ◌%◌, Bool, true, false, not, ◌||◌, List, [], ◌∷◌, ◌++◌, Option, none, some,
  Result, ok, err, ◌>>=◌, ltb, leb, ◌==◌, if◌then◌else◌,
}
use vertex_sdk_go.Prelude.Int.{ℤ, pos, negsuc}
use vertex_sdk_go.Prelude.Strings.{Bytes, bytes, str_eq}
use vertex_sdk_go.Json.{JsonError, decode_strict}
use vertex_sdk_go.Middleware.{equal_fold}
use vertex_sdk_go.Manifest.Text.{ManifestError, is_idempotency_key}
use vertex_sdk_go.Manifest.Transport.{
  Response, Network, Command, Failure, Run, execute, parse_retry_after, second,
  response_size_exceeded, command_timeout, transport_error, context_done, panic,
}
use vertex_sdk_go.Manifest.Response.{Counts, ManifestResult, ResultError, validate_manifest_result}
use vertex_sdk_go.Manifest.{
  PermissionManifest, PreparedManifest, mode_validate, mode_upsert, prepare,
}
use vertex_sdk_go.Manifest.Client.{
  Token, Client, ClientError, invalid_manifest, invalid_idempotency_key, bad_request, no_answer,
  protocol, plain_error, TokenPayload, CountsWire, ResultWire, Request, Wire, Instants, scope,
  fresh_command,
}

-- What an operation returns, the client after it, and the command with what it spent.
pub record Sent (A : Type 0) : Type 0 where
  pub result : Result ClientError A
  pub client : Client
  pub command : Command

-- The token of the cache, if it is still good.
unfoldable pub cached : ℕ → Option Token → Option Token
cached now none = none
cached now (some t) = if ltb now t.expires_at then some t else none

-- Go's conversion and subtraction of durations, of 64 bits; a negative lifetime becomes 0.
unfoldable pub lifetime : ℤ → ℕ → ℕ
lifetime (pos n) skew =
    let ttl = (n * second + 2 ^ 64 - skew) % 2 ^ 64 in if ltb ttl (2 ^ 63) then ttl else 0
lifetime (negsuc n) skew = 0

is_positive : ℤ → Bool
is_positive (pos n) = ltb 0 n
is_positive (negsuc n) = false

same_status : ℤ → ℕ → Bool
same_status (pos n) status = n == status
same_status (negsuc n) status = false

or_missing : {A : Type 0} → Option A → Result Bytes A
or_missing none = err (bytes "missing required manifest result field")
or_missing (some a) = ok a

-- `result` of `permissionManifestResultWire`
counts_of : CountsWire → Result Bytes Counts
unfolding or_missing
counts_of w = do
  created ← or_missing w.created
  updated ← or_missing w.updated
  unchanged ← or_missing w.unchanged
  resurrected ← or_missing w.resurrected
  conflict ← or_missing w.conflict
  drift ← or_missing w.drift
  ok (record {
    created = created;
    updated = updated;
    unchanged = unchanged;
    resurrected = resurrected;
    conflict = conflict;
    drift = drift;
  })

unfoldable pub result_of : ResultWire → Result Bytes ManifestResult
unfolding counts_of or_missing
result_of w = do
  mode ← or_missing w.mode
  manifest_id ← or_missing w.manifest_id
  revision ← or_missing w.revision
  fingerprint ← or_missing w.fingerprint
  applied ← or_missing w.applied
  results ← or_missing w.results
  drift ← or_missing w.drift
  counts_wire ← or_missing w.counts
  counts ← counts_of counts_wire
  ok (record {
    mode = mode;
    manifest_id = manifest_id;
    revision = revision;
    fingerprint = fingerprint;
    applied = applied;
    results = results;
    drift = drift;
    counts = counts;
  })

module _ (w : Wire) where
  abbrev token_url : Client → Bytes
  token_url c = c.issuer_endpoint ++ bytes "/oauth2/token"

  -- The form is `url.Values.Encode` of the grant and the scope.
  token_request : Client → Request
  token_request c = record {
    url = token_url c;
    headers =
        (
          bytes "Authorization",
          bytes "Basic " ++ w.base64 (c.client_id ++ (bytes ":" ++ c.client_secret)),
        )
        ∷ (bytes "Content-Type", bytes "application/x-www-form-urlencoded")
        ∷ (bytes "Accept", bytes "application/json")
        ∷ [];
    body = bytes "grant_type=client_credentials&scope=permissions%3Async";
  }

  -- `parsePermissionManifestTokenError`
  token_error : Response → ClientError
  token_error r =
      let invalid =
        plain_error (pos r.status) (bytes "INVALID_ERROR_RESPONSE")
          (bytes "invalid machine token error response") [] in
      elim (decode_strict w.stream w.decode_token_error r.body) [
        | err e ↦ invalid
        | ok p ↦
            if str_eq p.error []
            then invalid
            else plain_error (pos r.status) p.error
                (bytes "permission manifest machine token request failed") []
      ]

  bad_payload : TokenPayload → Bool
  unfolding is_positive
  bad_payload p =
      str_eq p.access_token []
      || not (equal_fold p.token_type (bytes "bearer"))
      || not (is_positive p.expires_in)
      || not (str_eq p.scope scope)

  token_of : Response → Result ClientError TokenPayload
  unfolding bad_payload token_error
  token_of r =
      let invalid =
        plain_error (pos r.status) (bytes "INVALID_TOKEN_RESPONSE")
          (bytes "invalid exact-scope machine token response") [] in
      if leb 400 r.status
      then err (token_error r)
      else elim (decode_strict w.stream w.decode_token r.body) [
        | err e ↦ err invalid
        | ok p ↦ if bad_payload p then err invalid else ok p
      ]

  granted : Instants → Client → Command → Result ClientError TokenPayload → Sent Token
  granted t c s (err e) = record { result = err e; client = c; command = s }
  granted t c s (ok p) =
      let token : Token = record {
        access_token = p.access_token;
        expires_at = t.token_expiry + lifetime p.expires_in c.token_skew;
      } in
      record { result = ok token; client = record c { token = some token }; command = s }

  token_answered : Instants → Client → Run → Sent Token
  unfolding granted token_of
  token_answered t c (err e, s) = record { result = err (no_answer e); client = c; command = s }
  token_answered t c (ok r, s) = granted t c s (token_of r)

  -- `machineToken` without a good token in the cache, from the refusal of the URL on
  request_token : Option Bytes → Instants → Client → Command → Sent Token
  unfolding token_answered token_request
  request_token (some e) t c s = record { result = err (bad_request e); client = c; command = s }
  request_token none t c s =
      token_answered t c (execute (w.network (token_request c)) c.max_retries c.max_retry_delay s)

  token_from : Option Token → Instants → Client → Command → Sent Token
  unfolding request_token
  token_from (some token) t c s = record { result = ok token; client = c; command = s }
  token_from none t c s = request_token (w.refused_url (token_url c)) t c s

  unfoldable pub machine_token : Instants → Client → Command → Sent Token
  unfolding token_from
  machine_token t c s = token_from (cached t.token_test c.token) t c s

  idempotency_header : Bytes → List (Bytes × Bytes)
  idempotency_header k = if str_eq k [] then [] else (bytes "Idempotency-Key", k) ∷ []

  manifest_request : Client → Token → Bytes → Bytes → Bytes → Request
  unfolding idempotency_header
  manifest_request c token path idempotency_key body = record {
    url = c.portal_api_endpoint ++ path;
    headers =
        (bytes "Authorization", bytes "Bearer " ++ token.access_token)
        ∷ (bytes "Content-Type", bytes "application/json")
        ∷ (bytes "Accept", bytes "application/json")
        ∷ idempotency_header idempotency_key;
    body = body;
  }

  -- `parsePermissionManifestError`
  manifest_error : Response → ClientError
  unfolding same_status
  manifest_error r =
      let invalid =
        plain_error (pos r.status) (bytes "INVALID_ERROR_RESPONSE")
          (bytes "invalid permission manifest error response") r.body in
      elim (decode_strict w.stream w.decode_error r.body) [
        | err e ↦ invalid
        | ok p ↦
            if not (same_status p.status r.status)
              || str_eq p.error []
              || str_eq p.message []
              || str_eq p.timestamp []
            then invalid
            else protocol (record {
              status = p.status;
              code = p.error;
              message = p.message;
              correlation_id = p.correlation_id;
              retry_after_seconds = (parse_retry_after r.retry_after).0;
              body = r.body;
            })
      ]

  abbrev invalid_response : Bytes → Bytes → ClientError
  invalid_response body message =
      plain_error (pos 0) (bytes "INVALID_MANIFEST_RESPONSE") message body

  abbrev responded : {A : Type 0} → Bytes → Result Bytes A → Result ClientError A
  responded body (ok a) = ok a
  responded body (err e) = err (invalid_response body e)

  abbrev texted : {A : Type 0} → Result JsonError A → Result Bytes A
  texted (ok a) = ok a
  texted (err e) = err (w.json_error_text e)

  abbrev checked :
      Bytes → ManifestResult → Result ResultError (Unit {0}) → Result ClientError ManifestResult
  checked body result (ok u) = ok result
  checked body result (err e) = err (invalid_response body (w.result_error_text e))

  -- `send` from the server's answer on
  result_from : PreparedManifest → Response → Result ClientError ManifestResult
  unfolding manifest_error
  result_from p r = if leb 400 r.status then err (manifest_error r) else do
    decoded ← responded r.body (texted (decode_strict w.stream w.decode_result r.body))
    result ← responded r.body (result_of decoded)
    checked r.body result (validate_manifest_result result p)

  manifest_answered : PreparedManifest → Client → Run → Sent ManifestResult
  unfolding result_from
  manifest_answered p c (err e, s) = record { result = err (no_answer e); client = c; command = s }
  manifest_answered p c (ok r, s) = record { result = result_from p r; client = c; command = s }

  -- `send` with its token and its body, from the refusal of the URL on
  send_body :
      Option Bytes
      → PreparedManifest
      → Bytes
      → Bytes
      → Token
      → Bytes
      → Client
      → Command
      → Sent ManifestResult
  unfolding manifest_answered manifest_request
  send_body (some e) p path idempotency_key token body c s = record {
    result = err (bad_request e);
    client = c;
    command = s;
  }
  send_body none p path idempotency_key token body c s = manifest_answered p c (
      execute (w.network (manifest_request c token path idempotency_key body)) c.max_retries
        c.max_retry_delay s)

  send_encoded :
      Result Bytes Bytes
      → PreparedManifest
      → Bytes
      → Bytes
      → Token
      → Client
      → Command
      → Sent ManifestResult
  unfolding send_body
  send_encoded (err e) p path idempotency_key token c s = record {
    result = err (bad_request e);
    client = c;
    command = s;
  }
  send_encoded (ok body) p path idempotency_key token c s =
      send_body (w.refused_url (c.portal_api_endpoint ++ path)) p path idempotency_key token body c
        s

  -- `send` from the token on
  send_with :
      Result ClientError Token
      → PreparedManifest
      → Bytes
      → Bytes
      → Client
      → Command
      → Sent ManifestResult
  unfolding send_encoded
  send_with (err e) p path idempotency_key c s = record { result = err e; client = c; command = s }
  send_with (ok token) p path idempotency_key c s =
      send_encoded (w.marshal p) p path idempotency_key token c s

  unfoldable pub send : Instants → PreparedManifest → Bytes → Bytes → Client → Sent ManifestResult
  unfolding send_with machine_token
  send t p path idempotency_key c =
      let m = machine_token t c fresh_command in
      send_with m.result p path idempotency_key m.client m.command
