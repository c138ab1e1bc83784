-- ===== src/Portal/Tests.antt =====
-- The client of the portal's API at concrete inputs, with servers that answer every request alike, and
-- the theorems applied to it.
use vertex_sdk_go.Prelude.{◌≡◌, refl, inl, inr, true, [], ◌∷◌, Option, none, some, ok, err}
use vertex_sdk_go.Prelude.Strings.{Bytes, bytes, str_eq}
use vertex_sdk_go.Prelude.Utf8.{is_space, trim_space}
use vertex_sdk_go.Prelude.Formats.{
  query_escape, fields, to_upper, to_lower, decimal, is_digit, path_escape,
}
use vertex_sdk_go.Middleware.{equal_fold}
use vertex_sdk_go.Portal.{PortalError, is_scope, validate_scope, first_string, MachineToken, Done}
use vertex_sdk_go.Portal.Samples.{response, servers, client, empty, start}
use vertex_sdk_go.Portal.Token.{fresh, token_request, get_machine_token}
use vertex_sdk_go.Portal.Token.Safety.{IsValid, AllSent}
use vertex_sdk_go.Portal.Token.Reuse.{get_machine_token-reused}
use vertex_sdk_go.Portal.Request.{
  Extra, Decoder, Answer, normalize_method, is_method, is_portal_path, portal_url, is_forbidden,
  validate_headers, encoded, resource_request, checked, request_with_headers,
}
use vertex_sdk_go.Portal.Request.Safety.{IsAllowed, new, next, requested, Reachable-IsAllowed}
use vertex_sdk_go.Portal.Request.Behaviour.{
  Succeeds, request_with_headers-Succeeds, request_with_headers-refused,
}

abbrev scope : Bytes
scope = bytes "roles:read"

abbrev other_scope : Bytes
other_scope = bytes "roles:write"

abbrev token : MachineToken
token = record { access_token = bytes "token"; scope = scope; expires_at = 30_000_001_000 }

token-obtained : (get_machine_token servers client start scope empty).0 ≡ ok token
unfolding get_machine_token is_scope validate_scope fresh str_eq equal_fold fields trim_space
    first_string token_request is_space
token-obtained = refl

get_machine_token-reused_example :
    let s' =
      (get_machine_token servers client start other_scope
        (get_machine_token servers client start scope empty).1).1 in
    get_machine_token servers client start scope s' ≡ (ok token, s')
get_machine_token-reused_example =
    get_machine_token-reused servers client start start start scope other_scope empty token
      token-obtained (λ e. cc) refl

abbrev extra : Extra
extra = (bytes "If-Match", bytes "\"3\"" ∷ []) ∷ []

abbrev decode : Option (Decoder Bytes)
decode = some (λ body. ok body.content)

abbrev path : Bytes
path = bytes "/open/v1/roles"

abbrev called : Done (Answer Bytes)
called = request_with_headers servers client decode extra start (bytes "get") path scope none empty

call-succeeds : called.0 ≡ ok (some (bytes "{}"), response.headers)
unfolding request_with_headers checked normalize_method is_method portal_url is_portal_path
    is_forbidden validate_headers encoded get_machine_token is_scope validate_scope fresh str_eq
    equal_fold fields trim_space first_string token_request is_space to_upper to_lower
    resource_request
call-succeeds = refl

call_eq : called ≡ (ok (some (bytes "{}"), response.headers), called.1)
call_eq = cc (call-succeeds)

request_with_headers-Succeeds_example :
    Succeeds servers client extra start (bytes "get") path scope none empty called.1
request_with_headers-Succeeds_example =
    request_with_headers-Succeeds servers client decode extra (some (bytes "{}")) response.headers
      called.1 start (bytes "get") path scope none empty call_eq

request_with_headers-refused_example :
    (e : PortalError) × (request_with_headers servers client decode extra start
        (bytes "GET")
        (bytes "/iam/api")
        scope
        none
        empty
      ≡ (err e, empty))
unfolding is_portal_path str_eq
request_with_headers-refused_example =
    request_with_headers-refused servers client decode extra start (bytes "GET") (bytes "/iam/api")
      scope none empty (inr (inl refl))

Reachable-IsAllowed_example :
    AllSent (IsAllowed servers client) called.1.sent
    × IsValid servers client called.1.sent called.1.tokens
Reachable-IsAllowed_example =
    Reachable-IsAllowed
      (next new (requested decode extra start (bytes "get") path scope none empty))

-- Other spellings of a forbidden name
forbidden-spelling : is_forbidden (bytes "X-APP-KEY") ≡ true
unfolding is_forbidden str_eq to_lower
forbidden-spelling = refl

escapes : path_escape (bytes "a b/c") ≡ bytes "a%20b%2Fc"
unfolding path_escape is_digit
escapes = refl

query : query_escape (bytes "roles:read x") ≡ bytes "roles%3Aread+x"
unfolding query_escape is_digit
query = refl

number_text : decimal 404 ≡ bytes "404"
unfolding decimal
number_text = refl
