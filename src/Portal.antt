-- ===== src/Portal.antt =====
-- portal_open_api_client.go: the client for the portal's API, its configuration, its scopes, what it
-- sends and what comes back. Its operations are in Portal.Token and Portal.Request.
pub mod Token
pub mod Request
pub mod Samples
mod Tests
use vertex_sdk_go.Prelude.{
  ℕ, zero, suc, ◌+◌, ◌-◌, ◌*◌, Bool, true, false, ◌||◌, List, [], ◌∷◌, ◌++◌, Option, none, some,
  Result, ok, err, any, if◌then◌else◌,
}
use vertex_sdk_go.Prelude.Int.{ℤ, pos, negsuc}
use vertex_sdk_go.Prelude.Strings.{Bytes, bytes, str_eq}
use vertex_sdk_go.Prelude.Utf8.{trim_space}
use vertex_sdk_go.Manifest.Transport.{second}
use vertex_sdk_go.Manifest.Client.{trim_slashes, is_negative, or_default, timeout_of}

-- `PortalOpenAPIClientConfig`; `http_client` says whether the caller gives a client of its own.
pub record Config : Type 0 where
  pub issuer : Bytes
  pub portal_endpoint : Bytes
  pub client_id : Bytes
  pub client_secret : Bytes
  pub timeout : ℤ
  pub token_skew : ℤ
  pub http_client : Bool

-- `PortalOpenAPIClient` without its cache; `http_timeout` is that of the client that the constructor
-- makes, if it makes one.
pub record Client : Type 0 where
  pub issuer : Bytes
  pub portal_endpoint : Bytes
  pub client_id : Bytes
  pub client_secret : Bytes
  pub token_skew : ℕ
  pub http_timeout : Option ℕ

-- `ErrPortalOpenAPIConfig` with its text, `PortalOpenAPITokenError`, `PortalOpenAPIError`, and the errors
-- of net/http, encoding/json and the callers; 0 for a missing status.
pub data PortalError : Type 0 where
  config_error : Bytes → PortalError
  token_error : ℕ → Bytes → Bytes → PortalError
  portal_error : ℕ → Bytes → Bytes → Bytes → PortalError
  failed : Bytes → PortalError

-- `NewPortalOpenAPIClient`
pub new_client : Config → Result PortalError Client
unfolding trim_slashes is_negative or_default timeout_of
new_client cfg =
    let issuer = trim_slashes (trim_space cfg.issuer) in
    let portal_endpoint = trim_slashes (trim_space cfg.portal_endpoint) in
    let client_id = trim_space cfg.client_id in
    let client_secret = trim_space cfg.client_secret in
    if str_eq issuer []
    then err (config_error (bytes "Issuer is required"))
    else if str_eq portal_endpoint []
    then err (config_error (bytes "PortalEndpoint is required"))
    else if str_eq client_id [] || str_eq client_secret []
    then err
        (config_error (bytes "ClientID and ClientSecret are required for M2M confidential client"))
    else if is_negative cfg.token_skew
    then err (config_error (bytes "TokenSkew must be non-negative"))
    else ok (record {
      issuer = issuer;
      portal_endpoint = portal_endpoint;
      client_id = client_id;
      client_secret = client_secret;
      token_skew = or_default (30 * second) cfg.token_skew;
      http_timeout = if cfg.http_client then none else some (timeout_of cfg.timeout);
    })

-- The scopes that `validatePortalOpenAPIScope` lists.
abbrev scopes : List Bytes
scopes =
    bytes "portal:openapi:read"
    ∷ bytes "portal:openapi:write"
    ∷ bytes "registration_grants:read"
    ∷ bytes "registration_grants:write"
    ∷ bytes "registration_grants:redemptions:read"
    ∷ bytes "organizations:read"
    ∷ bytes "organizations:write"
    ∷ bytes "organization_invitations:read"
    ∷ bytes "organization_invitations:write"
    ∷ bytes "organization_members:read"
    ∷ bytes "organization_members:write"
    ∷ bytes "roles:read"
    ∷ bytes "roles:write"
    ∷ bytes "permissions:read"
    ∷ bytes "permissions:write"
    ∷ bytes "role_permissions:read"
    ∷ bytes "role_permissions:write"
    ∷ bytes "user_roles:read"
    ∷ bytes "user_roles:write"
    ∷ []

unfoldable pub is_scope : Bytes → Bool
unfolding str_eq
is_scope scope = any (str_eq scope) scopes

-- `validatePortalOpenAPIScope`
unfoldable pub validate_scope : Bytes → Result PortalError (Unit {0})
validate_scope scope =
    if is_scope scope
    then ok tt
    else if str_eq scope []
    then err (
        token_error 0 (bytes "invalid_scope")
          (bytes "Portal Open API token requests require an explicit scope"))
    else err (token_error 0 (bytes "invalid_scope") scope)

abbrev pub Header : Type 0
Header = Bytes × Bytes

pub record HttpRequest : Type 0 where
  pub method : Bytes
  pub url : Bytes
  pub headers : List Header
  pub body : Option Bytes

-- A body as far as it is read, and the error that ends it, if there is one.
pub record Body : Type 0 where
  pub content : Bytes
  pub read_error : Option Bytes

-- `headers` has the values under a canonical name.
pub record HttpResponse : Type 0 where
  pub status : ℕ
  pub headers : Bytes → List Bytes
  pub body : Body

-- `Header.Get`
abbrev pub header_get : List Bytes → Bytes
header_get [] = []
header_get (v ∷ vs) = v

-- A member of a JSON object as `map[string]any` has it; a number by its literal.
pub data Value : Type 0 where
  missing other : Value
  string number : Bytes → Value

abbrev pub Payload : Type 0
Payload = Bytes → Value

-- What comes from outside: the servers, which may answer by all that was sent before;
-- `http.NewRequestWithContext` as far as it refuses a method or a URL; base64; `json.Unmarshal` of a text
-- into an empty map, which stays empty where it fails; and the float64 arithmetic on a lifetime: the
-- test `expiresIn <= 0`, and `math.Max(expiresIn-skew.Seconds(), 0) * float64(time.Second)`
-- as a duration.
pub record Wire : Type 0 where
  pub send : List HttpRequest → HttpRequest → Result Bytes HttpResponse
  pub refused : Bytes → Bytes → Option Bytes
  pub base64 : Bytes → Bytes
  pub unmarshal : Bytes → Payload
  pub is_positive : Bytes → Bool
  pub lifetime : Bytes → ℕ → ℤ

-- `firstString`
non_empty : Value → Option Bytes
non_empty missing = none
non_empty other = none
non_empty (number n) = none
non_empty (string []) = none
non_empty (string (c ∷ s)) = some (c ∷ s)

unfoldable pub first_string : Payload → List Bytes → Bytes
unfolding non_empty
first_string payload [] = []
first_string payload (key ∷ keys) = elim (non_empty (payload key)) [
  | none ↦ first_string payload keys
  | some s ↦ s
]

-- The payload of an answer.
abbrev pub payload_of : Wire → Bytes → Payload
payload_of w raw = if str_eq raw [] then (λ key. missing) else w.unmarshal raw

-- `if code == "" { code = ... }`
abbrev pub or_code : Bytes → Bytes → Bytes
or_code [] fallback = fallback
or_code (c ∷ s) fallback = c ∷ s

-- `PortalOpenAPIMachineToken`; times are in nanoseconds.
pub record MachineToken : Type 0 where
  pub access_token : Bytes
  pub scope : Bytes
  pub expires_at : ℕ

-- The client's cache, and all that it has sent, the latest first.
pub record State : Type 0 where
  pub tokens : Bytes → Option MachineToken
  pub sent : List HttpRequest

-- The instants at which an operation reads the clock: for the token's test and for its expiry.
pub record Instants : Type 0 where
  pub token_test : ℕ
  pub token_expiry : ℕ

-- What an operation returns, and the state after it.
abbrev pub Done : Type 0 → Type 0
Done A = Result PortalError A × State
