-- ===== src/Portal/Request.antt =====
-- portal_open_api_client.go: the requests for resources of the portal.
pub mod Safety
pub mod Contents
pub mod Behaviour
use vertex_sdk_go.Prelude.{
  ℕ, Bool, true, false, ◌||◌, List, [], ◌∷◌, ◌++◌, map, Option, none, some, Result, ok, err, ◌>>=◌,
  ◌>>◌, leb, ◌==◌, length, take, drop, if◌then◌else◌,
}
use vertex_sdk_go.Prelude.Strings.{Bytes, bytes, str_eq}
use vertex_sdk_go.Prelude.Utf8.{trim_space}
use vertex_sdk_go.Prelude.Formats.{decimal, to_upper, to_lower}
use vertex_sdk_go.Portal.{
  Client, PortalError, portal_error, failed, validate_scope, Header, HttpRequest, HttpResponse,
  Body, header_get, Wire, first_string, payload_of, or_code, MachineToken, State, Instants, Done,
}
use vertex_sdk_go.Portal.Token.{get_machine_token}

unfoldable pub is_method : Bytes → Bool
unfolding str_eq
is_method m =
    str_eq m (bytes "GET")
    || str_eq m (bytes "POST")
    || str_eq m (bytes "PUT")
    || str_eq m (bytes "PATCH")
    || str_eq m (bytes "DELETE")

-- `normalizePortalOpenAPIMethod`
unfoldable pub normalize_method : Bytes → Result PortalError Bytes
normalize_method method =
    let normalized = to_upper (trim_space method) in
    if is_method normalized
    then ok normalized
    else err (portal_error 0 (bytes "invalid_portal_method") method [])

-- `portalOpenAPIScopeForMethod`
unfoldable pub scope_for_method : Bytes → Bytes
scope_for_method method =
    if str_eq method (bytes "GET")
    then bytes "portal:openapi:read"
    else bytes "portal:openapi:write"

abbrev pub path_prefix : Bytes
path_prefix = bytes "/open/v1/"

-- `strings.HasPrefix(path, "/open/v1/")`
unfoldable pub is_portal_path : Bytes → Bool
unfolding str_eq
is_portal_path path = str_eq (take (length path_prefix) path) path_prefix

-- `portalURL`
unfoldable pub portal_url : Client → Bytes → Result PortalError Bytes
portal_url c path =
    if is_portal_path path
    then ok (c.portal_endpoint ++ path)
    else err (portal_error 0 (bytes "invalid_portal_path") path [])

unfoldable pub is_forbidden : Bytes → Bool
unfolding str_eq to_lower
is_forbidden key =
    let name = to_lower key in
    str_eq name (bytes "authorization")
    || str_eq name (bytes "x-iam-client-id")
    || str_eq name (bytes "x-application-id")
    || str_eq name (bytes "x-app-key")

-- `http.Header` in the order of a loop over it
abbrev pub Extra : Type 0
Extra = List (Bytes × List Bytes)

-- `validatePortalOpenAPIHeaders`
unfoldable pub validate_headers : Extra → Result PortalError (Unit {0})
validate_headers [] = ok tt
validate_headers (h ∷ hs) =
    if is_forbidden h.0
    then err (portal_error 0 (bytes "invalid_portal_header") h.0 [])
    else validate_headers hs

-- `req.Header.Add` for each of the values
unfoldable pub added : Extra → List Header
added [] = []
added (h ∷ hs) = map (λ v. (h.0, v)) h.1 ++ added hs

abbrev pub content_type : Option Bytes → List Header
content_type none = []
content_type (some body) = (bytes "Content-Type", bytes "application/json") ∷ []

-- The body of a call: none, or what `json.Marshal` makes of it.
unfoldable pub encoded : Option (Result Bytes Bytes) → Result PortalError (Option Bytes)
encoded none = ok none
encoded (some (err e)) = err (failed e)
encoded (some (ok body)) = ok (some body)

-- `portalOpenAPIErrorFromResponse`; an error in reading the body goes unnoticed.
unfoldable pub error_from_response : Wire → HttpResponse → PortalError
error_from_response w r =
    let raw = r.body.content in
    portal_error r.status
      (or_code
        (first_string (payload_of w raw) (bytes "code" ∷ bytes "error" ∷ bytes "errorCode" ∷ []))
        (bytes "HTTP_" ++ decimal r.status))
      raw (header_get (r.headers (bytes "Retry-After")))

abbrev pub ResponseHeaders : Type 0
ResponseHeaders = Bytes → List Bytes

-- What a call leaves in `out`, which stays as it is if nothing is decoded, and the headers.
abbrev pub Answer : Type 0 → Type 0
Answer A = Option A × ResponseHeaders

-- `json.NewDecoder(resp.Body).Decode(out)` for an `out` that is not nil
abbrev pub Decoder : Type 0 → Type 0
Decoder A = Body → Result Bytes A

module _ {A : Type 0} (w : Wire) (out : Option (Decoder A)) where
  decoded : ResponseHeaders → Result Bytes A → Result PortalError (Answer A)
  decoded headers (err e) = err (failed e)
  decoded headers (ok a) = ok (some a, headers)

  decoded_into : Option (Decoder A) → HttpResponse → Result PortalError (Answer A)
  unfolding decoded
  decoded_into none r = ok (none, r.headers)
  decoded_into (some decode) r =
      if r.status == 204 then ok (none, r.headers) else decoded r.headers (decode r.body)

  -- `requestJSONWithScopeAndHeaders` from the reply on
  answer_of : Result Bytes HttpResponse → Result PortalError (Answer A)
  unfolding decoded_into
  answer_of (err e) = err (failed e)
  answer_of (ok r) = if leb 400 r.status then err (error_from_response w r) else decoded_into out r

unfoldable pub resource_request : Bytes → Bytes → Option Bytes → Extra → MachineToken → HttpRequest
resource_request method url body extra token = record {
  method = method;
  url = url;
  headers =
      (bytes "Accept", bytes "application/json")
      ∷ (bytes "Authorization", bytes "Bearer " ++ token.access_token)
      ∷ (content_type body ++ added extra);
  body = body;
}

-- What the checks at the beginning make of the arguments: the method and the URL.
unfoldable pub checked : Client → Bytes → Bytes → Bytes → Extra → Result PortalError (Bytes × Bytes)
checked c method path scope extra = do
  normalized ← normalize_method method
  url ← portal_url c path
  validate_scope scope
  validate_headers extra
  ok (normalized, url)

module _ {A : Type 0} (w : Wire) (c : Client) (out : Option (Decoder A)) (extra : Extra) where
  exchange : Option Bytes → HttpRequest → State → Done (Answer A)
  unfolding answer_of
  exchange (some e) request s = (err (failed e), s)
  exchange none request s =
      (answer_of w out (w.send s.sent request), record s { sent = request ∷ s.sent })

  with_body :
      Bytes → Bytes → MachineToken → Result PortalError (Option Bytes) → State → Done (Answer A)
  unfolding exchange
  with_body method url token (err e) s = (err e, s)
  with_body method url token (ok body) s =
      exchange (w.refused method url) (resource_request method url body extra token) s

  with_token : Bytes → Bytes → Option (Result Bytes Bytes) → Done MachineToken → Done (Answer A)
  unfolding with_body
  with_token method url body (err e, s) = (err e, s)
  with_token method url body (ok token, s) = with_body method url token (encoded body) s

  after_checks :
      Result PortalError (Bytes × Bytes)
      → Instants
      → Bytes
      → Option (Result Bytes Bytes)
      → State
      → Done (Answer A)
  unfolding with_token
  after_checks (err e) t scope body s = (err e, s)
  after_checks (ok (method, url)) t scope body s =
      with_token method url body (get_machine_token w c t scope s)

  -- `requestJSONWithScopeAndHeaders`
  unfoldable pub request_with_headers :
      Instants → Bytes → Bytes → Bytes → Option (Result Bytes Bytes) → State → Done (Answer A)
  unfolding after_checks
  request_with_headers t method path scope body s =
      after_checks (checked c method path scope extra) t scope body s

module _ {A : Type 0} (w : Wire) (c : Client) (out : Option (Decoder A)) where
  -- `requestJSONWithScope`, whose result is what is left in `out`
  unfoldable pub request_with_scope :
      Instants → Bytes → Bytes → Bytes → Option (Result Bytes Bytes) → State → Done (Answer A)
  unfolding request_with_headers
  request_with_scope = request_with_headers w c out []

  for_method :
      Result PortalError Bytes
      → Instants
      → Bytes
      → Option (Result Bytes Bytes)
      → State
      → Done (Answer A)
  unfolding request_with_scope scope_for_method
  for_method (err e) t path body s = (err e, s)
  for_method (ok method) t path body s =
      request_with_scope t method path (scope_for_method method) body s

  -- `RequestJSON`
  unfoldable pub request_json :
      Instants → Bytes → Bytes → Option (Result Bytes Bytes) → State → Done (Answer A)
  unfolding for_method
  request_json t method path body s = for_method (normalize_method method) t path body s
