-- ===== src/Http.antt =====
-- client.go: the client of the IAM server: its requests, which are repeated by the library backoff, and what
-- it makes of the answers. The operations are in Http.Permissions and Http.Account.
pub mod Retries
pub mod Permissions
pub mod Account
pub mod Resolved
pub mod Samples
mod Tests
use vertex_sdk_go.Prelude.{
  ℕ, zero, suc, ◌+◌, ◌-◌, ◌^◌, ◌≤◌, ◌≡◌, Bool, true, false, not, ◌&&◌, ◌||◌, List, [], ◌∷◌, ◌++◌,
  Option, none, some, Result, ok, err, ◌>>=◌, leb, ltb, ◌==◌, if◌then◌else◌,
}
use vertex_sdk_go.Prelude.Int.{ℤ, pos, negsuc}
use vertex_sdk_go.Prelude.Strings.{Bytes, bytes, str_eq}
use vertex_sdk_go.Config.{SdkConfig}
use vertex_sdk_go.Json.{JsonError, Stream, decode_strict}
use vertex_sdk_go.Manifest.Client.{trim_slashes}
use vertex_sdk_go.Portal.{Header, HttpRequest, HttpResponse, Body}

-- `APIError`, `strictJSONResponseError`, the errors of net/http and encoding/json with their texts, and
-- those of the arguments and of what an answer holds.
pub data HttpError : Type 0 where
  api_error : ℕ → Bytes → HttpError
  strict_error : JsonError → HttpError
  transport failed : Bytes → HttpError
  context_done : HttpError
  invalid_argument invalid_answer malformed_key duplicate_key duplicate_role : Bytes → HttpError

-- `IsRetryable`
unfoldable pub is_retryable : ℕ → Bool
is_retryable status = status == 429 || leb 500 status

-- How a request is signed: `signRequest`, the function of `doJSONBearer`, or not at all.
pub data Auth : Type 0 where
  signed unsigned : Auth
  bearer : Bytes → Auth

-- What has been sent, the latest first.
abbrev pub Log : Type 0
Log = List HttpRequest

-- What an attempt or an operation returns, and the log after it.
abbrev pub Did : Type 0 → Type 0
Did A = Result HttpError A × Log

-- An attempt that failed: `backoff.Permanent`, or an error after which another attempt may follow.
pub data Failed : Type 0 where
  permanent again : HttpError → Failed

abbrev pub Attempt : Type 0 → Type 0
Attempt A = Log → Result Failed A × Log

-- What the documentation of `backoff.Retry` promises of it with a number of retries at most: attempts in a
-- row, of which all but the last failed and allowed another. It returns what the last attempt returned, or
-- the context's error instead of the last attempt's.
pub data Runs {A : Type 0} (op : Attempt A) : ℕ → Log → Did A → Type 0 where
  success : {n : ℕ} {l l' : Log} (a : A) → op l ≡ (ok a, l') → Runs op n l (ok a, l')
  no_more :
      {n : ℕ} {l l' : Log} (e : HttpError)
      → op l ≡ (err (permanent e), l')
      → Runs op n l (err e, l')
  gave_up :
      {n : ℕ} {l l' : Log} (e : HttpError) → op l ≡ (err (again e), l') → Runs op n l (err e, l')
  cancelled :
      {n : ℕ} {l l' : Log} (e : HttpError)
      → op l ≡ (err (again e), l')
      → Runs op n l (err context_done, l')
  retried :
      {n : ℕ} {l l' : Log} {d : Did A} (e : HttpError)
      → op l ≡ (err (again e), l')
      → Runs op n l' d
      → Runs op (suc n) l d

-- The library: retries as many as given, if they are not cut short.
pub record Backoff : Type 1 where
  pub retry : {A : Type 0} → ℕ → Attempt A → Log → Did A
  pub retry_runs : {A : Type 0} (n : ℕ) (op : Attempt A) (l : Log) → Runs op n l (retry n op l)

-- The rest of what comes from outside: the server, which may answer by what was sent before;
-- `http.NewRequestWithContext` as far as it refuses a method and a URL; the context's error at an attempt;
-- the errors of the transport that are the context's; base64, and the tokens of a JSON text.
pub record Server : Type 0 where
  pub send : Log → HttpRequest → Result Bytes HttpResponse
  pub refused : Bytes → Bytes → Option Bytes
  pub is_done : Log → Bool
  pub is_context_error : Bytes → Bool
  pub base64 : Bytes → Bytes
  pub stream : Bytes → Stream

-- `Endpoint`
unfoldable pub endpoint : SdkConfig → Bytes
unfolding trim_slashes
endpoint c = trim_slashes c.endpoint

-- `uint64(c.cfg.MaxRetries)`
unfoldable pub max_retries : SdkConfig → ℕ
max_retries c = elim c.max_retries [ pos n ↦ n | negsuc n ↦ 2 ^ 64 - suc n ]

-- `signRequest`, in the order of its two settings
signature : Server → SdkConfig → List Header
signature v c =
    (if str_eq c.client_id [] then [] else (bytes "X-IAM-Client-Id", c.client_id) ∷ [])
    ++ (if str_eq c.client_secret []
        then []
        else (
          bytes "Authorization",
          bytes "Basic " ++ v.base64 (c.client_id ++ (bytes ":" ++ c.client_secret)),
        )
          ∷ [])

unfoldable pub auth_headers : Server → SdkConfig → Auth → List Header
unfolding signature
auth_headers v c signed = signature v c
auth_headers v c unsigned = []
auth_headers v c (bearer token) = (bytes "Authorization", bytes "Bearer " ++ token) ∷ []

abbrev pub content_header : Option Bytes → List Header
content_header none = []
content_header (some body) = (bytes "Content-Type", bytes "application/json") ∷ []

-- The request that one attempt sends.
unfoldable pub request_of : Server → SdkConfig → Auth → Bytes → Bytes → Option Bytes → HttpRequest
request_of v c auth method path body = record {
  method = method;
  url = endpoint c ++ path;
  headers =
      content_header body ++ ((bytes "Accept", bytes "application/json") ∷ auth_headers v c auth);
  body = body;
}

-- The body of a call: none, or what `json.Marshal` makes of it.
abbrev pub marshalled : Option (Result Bytes Bytes) → Result HttpError (Option Bytes)
marshalled none = ok none
marshalled (some (err e)) = err (failed e)
marshalled (some (ok body)) = ok (some body)

abbrev pub decoded_by : {A : Type 0} → Result Bytes A → Result HttpError A
decoded_by (err e) = err (failed e)
decoded_by (ok a) = ok a

-- `doJSONWithAuth` from the response on
unfoldable pub plain_answer :
    {A : Type 0} → (Body → Result Bytes A) → HttpResponse → Result HttpError A
plain_answer decode r =
    if leb 400 r.status then err (api_error r.status r.body.content) else decoded_by (decode r.body)

abbrev strictly : {A : Type 0} → Result JsonError A → Result HttpError A
strictly (err e) = err (strict_error e)
strictly (ok a) = ok a

-- `doJSONStrict` from the response on
unfoldable pub strict_answer :
    {A : Type 0} → Server → (Bytes → Result Bytes A) → HttpResponse → Result HttpError A
strict_answer v decode r = elim r.body.read_error [
  | some e ↦ err (transport e)
  | none ↦
      if leb 400 r.status
      then err (api_error r.status r.body.content)
      else strictly (decode_strict v.stream decode r.body.content)
]

abbrev answered :
    {A : Type 0}
    → (HttpResponse → Result HttpError A)
    → Result Bytes HttpResponse
    → Result HttpError A
answered answer (err e) = err (transport e)
answered answer (ok r) = answer r

module _ {A : Type 0} (v : Server) (c : SdkConfig) (auth : Auth) (method path : Bytes)
    (answer : HttpResponse → Result HttpError A) where
  sent : Option Bytes → Option Bytes → Log → Did A
  sent (some e) body l = (err (failed e), l)
  sent none body l =
      let request = request_of v c auth method path body in
      (answered answer (v.send l request), request ∷ l)

  with_body : Result HttpError (Option Bytes) → Log → Did A
  unfolding sent
  with_body (err e) l = (err e, l)
  with_body (ok body) l = sent (v.refused method (endpoint c ++ path)) body l

  -- `doJSONWithAuth` and `doJSONStrict`, which differ in what they make of a response
  unfoldable pub do_json : Option (Result Bytes Bytes) → Log → Did A
  unfolding with_body
  do_json body l = with_body (marshalled body) l

-- What `doJSONRetry`, `doJSONNoAuthRetry` and `doJSONBearerRetry` make of an error
unfoldable pub plain_failure : HttpError → Failed
plain_failure (api_error status body) =
    if is_retryable status then again (api_error status body) else permanent (api_error status body)
plain_failure e = again e

-- What `doJSONStrictRetry` makes of an error
unfoldable pub strict_failure : Server → HttpError → Failed
strict_failure v (api_error status body) =
    if is_retryable status then again (api_error status body) else permanent (api_error status body)
strict_failure v (strict_error e) = permanent (strict_error e)
strict_failure v (transport e) =
    if v.is_context_error e then permanent (transport e) else again (transport e)
strict_failure v context_done = permanent context_done
strict_failure v e = again e

abbrev pub failing : {A : Type 0} → (HttpError → Failed) → Did A → Result Failed A × Log
failing failure (err e, l) = (err (failure e), l)
failing failure (ok a, l) = (ok a, l)

module _ {A : Type 0} (b : Backoff) (v : Server) (c : SdkConfig) where
  unfoldable pub plain_attempt :
      Auth → Bytes → Bytes → Option (Result Bytes Bytes) → (Body → Result Bytes A) → Attempt A
  plain_attempt auth method path body decode l =
      failing plain_failure (do_json v c auth method path (plain_answer decode) body l)

  -- `doJSONBearerRetry` and `doJSONNoAuthRetry`
  unfoldable pub do_json_retry :
      Auth → Bytes → Bytes → Option (Result Bytes Bytes) → (Body → Result Bytes A) → Log → Did A
  do_json_retry auth method path body decode =
      b.retry (max_retries c) (plain_attempt auth method path body decode)

  unfoldable pub strict_attempt :
      Bytes → Bytes → Option (Result Bytes Bytes) → (Bytes → Result Bytes A) → Attempt A
  strict_attempt method path body decode l =
      if v.is_done l
      then (err (permanent context_done), l)
      else failing (strict_failure v)
          (do_json v c signed method path (strict_answer v decode) body l)

  -- `doJSONStrictRetry`
  unfoldable pub do_json_strict_retry :
      Bytes → Bytes → Option (Result Bytes Bytes) → (Bytes → Result Bytes A) → Log → Did A
  do_json_strict_retry method path body decode =
      b.retry (max_retries c) (strict_attempt method path body decode)
