-- ===== src/Portal/Token.antt =====
-- portal_open_api_client.go: the machine tokens, one for each scope.
pub mod Safety
pub mod Reuse
use vertex_sdk_go.Prelude.{
  ℕ, suc, ◌+◌, ◌-◌, Bool, true, false, not, ◌&&◌, List, [], ◌∷◌, ◌++◌, Option, none, some, Result,
  ok, err, ◌>>=◌, ◌>>◌, reject, or_error, any, ltb, leb, if◌then◌else◌,
}
use vertex_sdk_go.Prelude.Int.{ℤ, pos, negsuc}
use vertex_sdk_go.Prelude.Strings.{Bytes, bytes, str_eq}
use vertex_sdk_go.Prelude.Utf8.{trim_space}
use vertex_sdk_go.Prelude.Formats.{query_escape, fields}
use vertex_sdk_go.Middleware.{equal_fold}
use vertex_sdk_go.Portal.{
  Client, PortalError, token_error, failed, validate_scope, HttpRequest, HttpResponse, Body, Value,
  missing, other, string, number, Payload, Wire, first_string, payload_of, or_code, MachineToken,
  State, Instants, Done,
}

-- The Go map of the cache: writing and deleting.
unfoldable pub put :
    Bytes → MachineToken → (Bytes → Option MachineToken) → Bytes → Option MachineToken
put scope token tokens s = if str_eq s scope then some token else tokens s

unfoldable pub delete : Bytes → (Bytes → Option MachineToken) → Bytes → Option MachineToken
delete scope tokens s = if str_eq s scope then none else tokens s

-- `cached.ExpiresAt.After(time.Now())`
unfoldable pub fresh : ℕ → Option MachineToken → Option MachineToken
fresh now none = none
fresh now (some token) = if ltb now token.expires_at then some token else none

-- `time.Now().Add(ttl)`; an instant before the clock's origin counts as the origin.
instant_after : ℕ → ℤ → ℕ
instant_after now (pos n) = now + n
instant_after now (negsuc n) = now - suc n

-- `numberFromJSON` on what encoding/json puts into a map, and `expiresIn <= 0`
lifetime_of : Wire → Value → Option Bytes
lifetime_of w missing = none
lifetime_of w other = none
lifetime_of w (string s) = none
lifetime_of w (number n) = if w.is_positive n then some n else none

module _ (w : Wire) (c : Client) where
  unfoldable pub token_request : Bytes → HttpRequest
  token_request scope = record {
    method = bytes "POST";
    url = c.issuer ++ bytes "/oauth2/token";
    headers =
        (bytes "Accept", bytes "application/json")
        ∷ (bytes "Content-Type", bytes "application/x-www-form-urlencoded")
        ∷ (
          bytes "Authorization",
          bytes "Basic " ++ w.base64 (c.client_id ++ (bytes ":" ++ c.client_secret)),
        )
        ∷ [];
    body = some (bytes "grant_type=client_credentials&scope=" ++ query_escape scope);
  }

  -- The checks of `requestMachineToken` on an answer below 400: the token, its type, its lifetime, and
  -- the scope that the answer names.
  token_from_payload : ℕ → Bytes → ℕ → Bytes → Payload → Result PortalError MachineToken
  unfolding instant_after lifetime_of
  token_from_payload now scope status raw payload =
      let access_token = trim_space (first_string payload (bytes "access_token" ∷ [])) in
      let response_scope = or_code (first_string payload (bytes "scope" ∷ [])) scope in
      do
        reject (str_eq access_token []) (token_error status (bytes "missing_bearer_token") raw)
        reject (not (equal_fold (first_string payload (bytes "token_type" ∷ [])) (bytes "bearer")))
            (token_error status (bytes "missing_bearer_token") raw)
        lifetime ←
            or_error (lifetime_of w (payload (bytes "expires_in")))
              (token_error status (bytes "invalid_token_response") raw)
        reject (not (any (λ s. str_eq s scope) (fields response_scope)))
            (token_error status (bytes "invalid_scope") raw)
        ok (record {
          access_token = access_token;
          scope = scope;
          expires_at = instant_after now (w.lifetime lifetime c.token_skew);
        })

  -- `requestMachineToken` from the body on
  token_from_body : ℕ → Bytes → ℕ → Body → Result PortalError MachineToken
  unfolding token_from_payload
  token_from_body now scope status body = elim body.read_error [
    | some e ↦ err (failed e)
    | none ↦
        let payload = payload_of w body.content in
        if leb 400 status
        then err (
            token_error status
              (or_code
                (first_string payload (bytes "error" ∷ bytes "code" ∷ bytes "errorCode" ∷ []))
                (bytes "token_request_failed"))
              body.content)
        else token_from_payload now scope status body.content payload
  ]

  token_from_response : ℕ → Bytes → Result Bytes HttpResponse → Result PortalError MachineToken
  unfolding token_from_body
  token_from_response now scope (err e) = err (failed e)
  token_from_response now scope (ok r) = token_from_body now scope r.status r.body

  -- What the cache keeps of an answer.
  granted : Bytes → Result PortalError MachineToken → State → Done MachineToken
  unfolding put
  granted scope (err e) s = (err e, s)
  granted scope (ok token) s = (ok token, record s { tokens = put scope token s.tokens })

  -- `requestMachineToken` from the refusal of the URL on, and the cache behind it
  request_token : Option Bytes → ℕ → Bytes → State → Done MachineToken
  unfolding granted token_from_response token_request
  request_token (some e) now scope s = (err (failed e), s)
  request_token none now scope s =
      let request = token_request scope in
      granted scope (token_from_response now scope (w.send s.sent request))
        (record s { sent = request ∷ s.sent })

  token_or_request : Option MachineToken → ℕ → Bytes → State → Done MachineToken
  unfolding request_token
  token_or_request (some token) now scope s = (ok token, s)
  token_or_request none now scope s =
      request_token (w.refused (bytes "POST") (c.issuer ++ bytes "/oauth2/token")) now scope s

  token_checked : Result PortalError (Unit {0}) → Instants → Bytes → State → Done MachineToken
  unfolding token_or_request fresh
  token_checked (err e) t scope s = (err e, s)
  token_checked (ok u) t scope s =
      token_or_request (fresh t.token_test (s.tokens scope)) t.token_expiry scope s

  -- `GetMachineToken`
  unfoldable pub get_machine_token : Instants → Bytes → State → Done MachineToken
  unfolding token_checked
  get_machine_token t scope s = token_checked (validate_scope scope) t scope s

delete_all : List Bytes → (Bytes → Option MachineToken) → Bytes → Option MachineToken
unfolding delete
delete_all [] tokens = tokens
delete_all (scope ∷ scopes) tokens = delete_all scopes (delete scope tokens)

-- `ClearTokenCache`
unfoldable pub clear_token_cache : List Bytes → State → State
unfolding delete_all
clear_token_cache [] s = record s { tokens = λ scope. none }
clear_token_cache (scope ∷ scopes) s = record s { tokens = delete_all (scope ∷ scopes) s.tokens }
