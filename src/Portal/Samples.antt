-- ===== src/Portal/Samples.antt =====
-- A client of the portal's API and an answer of the issuer, for the tests.
use vertex_sdk_go.Prelude.{true, ok, [], none, if◌then◌else◌}
use vertex_sdk_go.Prelude.Int.{pos}
use vertex_sdk_go.Prelude.Strings.{bytes, str_eq}
use vertex_sdk_go.Portal.{
  Client, HttpResponse, Wire, Payload, missing, string, number, State, Instants,
}

abbrev pub client : Client
client = record {
  issuer = bytes "https://id";
  portal_endpoint = bytes "https://portal";
  client_id = bytes "blog";
  client_secret = bytes "secret";
  token_skew = 30_000_000_000;
  http_timeout = none;
}

abbrev pub payload : Payload
payload key =
    if str_eq key (bytes "access_token")
    then string (bytes "token")
    else if str_eq key (bytes "token_type")
    then string (bytes "Bearer")
    else if str_eq key (bytes "expires_in")
    then number (bytes "60")
    else missing

abbrev pub empty : State
empty = record { tokens = λ scope. none; sent = [] }

abbrev pub start : Instants
start = record { token_test = 1000; token_expiry = 1000 }

abbrev pub response : HttpResponse
response = record {
  status = 200;
  headers = λ name. [];
  body = record { content = bytes "{}"; read_error = none };
}

abbrev pub servers : Wire
servers = record {
  send = λ sent request. ok response;
  refused = λ method url. none;
  base64 = λ s. s;
  unmarshal = λ raw. payload;
  is_positive = λ n. true;
  lifetime = λ n skew. pos 30_000_000_000;
}
