-- ===== src/Portal/Token/Safety.antt =====
-- What the cache of machine tokens may hold, and the requests for them.
use mathlib.Core.Path.{subst}
use vertex_sdk_go.Prelude.{
  ℕ, ◌≡◌, ◌≢◌, sym, ◌∙◌, inl, inr, refl, true, false, not, List, [], ◌∷◌, ◌++◌, Option, none, some,
  Result, ok, err, >>=-eq-ok, reject, or_error, any, leb, Bool-cases, Option-cases, arith,
}
use vertex_sdk_go.Prelude.Strings.{Bytes, bytes, str_eq, str_eq_iff}
use vertex_sdk_go.Prelude.Utf8.{trim_space}
use vertex_sdk_go.Prelude.Formats.{query_escape, fields}
use vertex_sdk_go.Middleware.{equal_fold}
use vertex_sdk_go.Portal.{
  Client, PortalError, token_error, first_string, or_code, is_scope, validate_scope, HttpRequest,
  HttpResponse, Payload, Wire, payload_of, MachineToken, State, Instants, Done,
}
use vertex_sdk_go.Portal.Token.{
  put, delete, fresh, lifetime_of, token_request, token_from_payload, token_from_body,
  token_from_response, granted, request_token, token_or_request, token_checked, get_machine_token,
  delete_all, clear_token_cache,
}

-- A request for a token of the scope, with the credentials of the client.
pub record RequestsToken (w : Wire) (c : Client) (scope : Bytes) (r : HttpRequest) : Type 0 where
  pub is_post : r.method ≡ bytes "POST"
  pub to_issuer : r.url ≡ c.issuer ++ bytes "/oauth2/token"
  pub asks_scope :
      r.body ≡ some (bytes "grant_type=client_credentials&scope=" ++ query_escape scope)
  pub has_credentials :
      r.headers
      ≡ (bytes "Accept", bytes "application/json")
        ∷ (bytes "Content-Type", bytes "application/x-www-form-urlencoded")
        ∷ (
          bytes "Authorization",
          bytes "Basic " ++ w.base64 (c.client_id ++ (bytes ":" ++ c.client_secret)),
        )
        ∷ []

token_request-RequestsToken :
    (w : Wire) (c : Client) (scope : Bytes) → RequestsToken w c scope (token_request w c scope)
unfolding token_request
token_request-RequestsToken w c scope = record {
  is_post = refl;
  to_issuer = refl;
  asks_scope = refl;
  has_credentials = refl;
}

-- The second log is the first, or what it had become later.
pub data IsPast (l : List HttpRequest) : List HttpRequest → Type 0 where
  at_once : IsPast l l
  later : {r : HttpRequest} {l' : List HttpRequest} → IsPast l l' → IsPast l (r ∷ l')

-- The issuer gave the token in an answer below 400 to a request for its scope that has been sent.
pub record Issued (w : Wire) (c : Client) (sent : List HttpRequest) (k : MachineToken)
    : Type 0 where
  pub before : List HttpRequest
  pub request : HttpRequest
  pub response : HttpResponse
  pub asks : RequestsToken w c k.scope request
  pub was_sent : IsPast (request ∷ before) sent
  pub replied : w.send before request ≡ ok response
  pub is_success : leb 400 response.status ≡ false
  pub is_token :
      k.access_token
      ≡ trim_space (first_string (payload_of w response.body.content) (bytes "access_token" ∷ []))
  pub not_blank : k.access_token ≢ []

Issued-later :
    {w : Wire} {c : Client} {sent : List HttpRequest} {k : MachineToken} (r : HttpRequest)
    → Issued w c sent k
    → Issued w c (r ∷ sent) k
Issued-later r i = record {
  before = i.before;
  request = i.request;
  response = i.response;
  asks = i.asks;
  was_sent = later i.was_sent;
  replied = i.replied;
  is_success = i.is_success;
  is_token = i.is_token;
  not_blank = i.not_blank;
}

-- The token is one of the scope asked for, and was issued.
abbrev pub IsFor :
    Wire → Client → List HttpRequest → Bytes → Result PortalError MachineToken → Type 0
IsFor w c sent scope r = (k : MachineToken) → r ≡ ok k → (k.scope ≡ scope) × Issued w c sent k

-- A token of the cache was issued, for the scope that it is kept under, which is one of the portal's.
abbrev pub IsValid : Wire → Client → List HttpRequest → (Bytes → Option MachineToken) → Type 0
IsValid w c sent tokens =
    (scope : Bytes) (k : MachineToken)
    → tokens scope ≡ some k
    → (k.scope ≡ scope) × (is_scope scope ≡ true) × Issued w c sent k

pub IsValid-later :
    {w : Wire} {c : Client} {sent : List HttpRequest} {tokens : Bytes → Option MachineToken}
    (r : HttpRequest)
    → IsValid w c sent tokens
    → IsValid w c (r ∷ sent) tokens
IsValid-later r valid scope k h =
    let (same, known, issued) = valid scope k h in (same, known, Issued-later r issued)

module _ (w : Wire) (c : Client) where
  -- What an answer has to be for a token.
  abbrev Gives : Bytes → HttpResponse → MachineToken → Type 0
  Gives scope r k =
      (k.scope ≡ scope)
      × (leb 400 r.status ≡ false)
      × (k.access_token
          ≡ trim_space (first_string (payload_of w r.body.content) (bytes "access_token" ∷ [])))
      × (k.access_token ≢ [])

  payload-token :
      (now : ℕ) (scope : Bytes) (status : ℕ) (raw : Bytes) (payload : Payload) (k : MachineToken)
      → token_from_payload w c now scope status raw payload ≡ ok k
      → (k.scope ≡ scope)
        × (k.access_token ≡ trim_space (first_string payload (bytes "access_token" ∷ [])))
        × (k.access_token ≢ [])
  unfolding token_from_payload
  payload-token now scope status raw payload k h =
      let no_token = token_error status (bytes "missing_bearer_token") raw in
      let access_token = trim_space (first_string payload (bytes "access_token" ∷ [])) in
      let response_scope = or_code (first_string payload (bytes "scope" ∷ [])) scope in
      let (u, h₁, h₂) = >>=-eq-ok (reject (str_eq access_token []) no_token) _ h in
      let (v, h₃, h₄) =
        >>=-eq-ok
          (reject
            (not (equal_fold (first_string payload (bytes "token_type" ∷ [])) (bytes "bearer")))
            no_token)
          _ h₂ in
      let (lifetime, h₅, h₆) =
        >>=-eq-ok
          (or_error (lifetime_of w (payload (bytes "expires_in")))
            (token_error status (bytes "invalid_token_response") raw))
          _ h₄ in
      let (x, h₇, h₈) =
        >>=-eq-ok
          (reject (not (any (λ s. str_eq s scope) (fields response_scope)))
            (token_error status (bytes "invalid_scope") raw))
          _ h₆ in
      let same : access_token ≡ k.access_token = cc in
      (cc, sym same, λ e. not_blank access_token no_token u h₁ (same ∙ e))
    where
      not_blank :
          (s : Bytes) (e : PortalError) (u : Unit {0}) → reject (str_eq s []) e ≡ ok u → s ≢ []
      not_blank s e u h b = ground (arith, str_eq_iff s [])

  body-Gives :
      (now : ℕ) (scope : Bytes) (r : HttpResponse) (k : MachineToken)
      → token_from_body w c now scope r.status r.body ≡ ok k
      → Gives scope r k
  unfolding token_from_body
  body-Gives now scope r k h = elim (Option-cases r.body.read_error) [
    | inl e ↦ elim (Bool-cases (leb 400 r.status)) [
      | inl b ↦ absurd (ground arith)
      | inr b ↦
          let (same, text, blank) =
            payload-token now scope r.status r.body.content (payload_of w r.body.content) k
              (ground arith) in
          (same, b, text, blank)
    ]
    | inr (a, e) ↦ absurd (ground arith)
  ]

  response-IsFor :
      (now : ℕ) (scope : Bytes) (sent : List HttpRequest) (reply : Result Bytes HttpResponse)
      → w.send sent (token_request w c scope) ≡ reply
      → IsFor w c (token_request w c scope ∷ sent) scope (token_from_response w c now scope reply)
  unfolding token_from_response
  response-IsFor now scope sent (err e) replied k h = absurd (cc)
  response-IsFor now scope sent (ok r) replied k h =
      let (same, success, text, blank) = body-Gives now scope r k h in
      (
        same,
        record {
          before = sent;
          request = token_request w c scope;
          response = r;
          asks =
              subst (λ x. RequestsToken w c x (token_request w c scope)) (sym same)
                (token_request-RequestsToken w c scope);
          was_sent = at_once;
          replied = replied;
          is_success = success;
          is_token = text;
          not_blank = blank;
        },
      )

pub validate_scope-ok :
    (scope : Bytes) (u : Unit {0}) → validate_scope scope ≡ ok u → is_scope scope ≡ true
unfolding validate_scope
validate_scope-ok scope u h = elim (Bool-cases (is_scope scope)) [
  | inl e ↦ e
  | inr e ↦ elim (Bool-cases (str_eq scope [])) [
    | inl d ↦ absurd (ground arith)
    | inr d ↦ absurd (ground arith)
  ]
]

put-IsValid :
    {w : Wire} {c : Client} {sent : List HttpRequest} (scope : Bytes) (k : MachineToken)
    (tokens : Bytes → Option MachineToken)
    → (k.scope ≡ scope) × Issued w c sent k
    → is_scope scope ≡ true
    → IsValid w c sent tokens
    → IsValid w c sent (put scope k tokens)
unfolding put
put-IsValid {w} {c} {sent} scope k tokens (same, issued) known valid s a h =
    elim (Bool-cases (str_eq s scope)) [
      | inl e ↦
          let at : s ≡ scope = (str_eq_iff s scope).0 e in
          let found : k ≡ a = ground arith in (cc, cc, subst (Issued w c sent) found issued)
      | inr e ↦ valid s a (ground arith)
    ]

delete-IsValid :
    {w : Wire} {c : Client} {sent : List HttpRequest} (scope : Bytes)
    (tokens : Bytes → Option MachineToken)
    → IsValid w c sent tokens
    → IsValid w c sent (delete scope tokens)
unfolding delete
delete-IsValid scope tokens valid s a h = elim (Bool-cases (str_eq s scope)) [
  | inl e ↦ absurd (ground arith)
  | inr e ↦ valid s a (ground arith)
]

delete_all-IsValid :
    {w : Wire} {c : Client} {sent : List HttpRequest} (scopes : List Bytes)
    (tokens : Bytes → Option MachineToken)
    → IsValid w c sent tokens
    → IsValid w c sent (delete_all scopes tokens)
unfolding delete_all
delete_all-IsValid [] tokens valid = valid
delete_all-IsValid (scope ∷ scopes) tokens valid =
    delete_all-IsValid scopes (delete scope tokens) (delete-IsValid scope tokens valid)

pub clear_token_cache-IsValid :
    {w : Wire} {c : Client} {sent : List HttpRequest} (scopes : List Bytes) (s : State)
    → IsValid w c sent s.tokens
    → IsValid w c sent (clear_token_cache scopes s).tokens
unfolding clear_token_cache
clear_token_cache-IsValid [] s valid = λ scope k h. cc
clear_token_cache-IsValid (scope ∷ scopes) s valid =
    delete_all-IsValid (scope ∷ scopes) s.tokens valid

pub sent-clear_token_cache :
    (scopes : List Bytes) (s : State) → (clear_token_cache scopes s).sent ≡ s.sent
unfolding clear_token_cache
sent-clear_token_cache [] s = refl
sent-clear_token_cache (scope ∷ scopes) s = refl

fresh-some :
    (now : ℕ) (o : Option MachineToken) (k : MachineToken) → fresh now o ≡ some k → o ≡ some k
unfolding fresh
fresh-some now none k h = cc
fresh-some now (some a) k h = ground arith

-- Every request that was sent has the property, by what had been sent before it.
abbrev pub AllSent : (List HttpRequest → HttpRequest → Type 0) → List HttpRequest → Type 0
AllSent P [] = Unit
AllSent P (r ∷ l) = P l r × AllSent P l

-- All that is sent has the property, the cache is valid, and the token is for the scope.
abbrev pub IsSafe :
    Wire → Client → (List HttpRequest → HttpRequest → Type 0) → Bytes → Done MachineToken → Type 0
IsSafe w c P scope (r, s) =
    AllSent P s.sent × IsValid w c s.sent s.tokens × IsFor w c s.sent scope r

module _ (w : Wire) (c : Client) (P : List HttpRequest → HttpRequest → Type 0)
    (allowed : (scope : Bytes) (l : List HttpRequest) (r : HttpRequest)
      → is_scope scope ≡ true
      → RequestsToken w c scope r
      → P l r) where
  granted-IsSafe :
      (scope : Bytes) (r : Result PortalError MachineToken) (s : State)
      → is_scope scope ≡ true
      → IsFor w c s.sent scope r
      → AllSent P s.sent
      → IsValid w c s.sent s.tokens
      → IsSafe w c P scope (granted w c scope r s)
  unfolding granted
  granted-IsSafe scope (err e) s known is_for all valid = (all, valid, is_for)
  granted-IsSafe scope (ok k) s known is_for all valid =
      (all, put-IsValid scope k s.tokens (is_for k refl) known valid, is_for)

  request-IsSafe :
      (refused : Option Bytes) (now : ℕ) (scope : Bytes) (s : State)
      → is_scope scope ≡ true
      → AllSent P s.sent
      → IsValid w c s.sent s.tokens
      → IsSafe w c P scope (request_token w c refused now scope s)
  unfolding request_token
  request-IsSafe (some e) now scope s known all valid = (all, valid, λ k h. absurd (cc))
  request-IsSafe none now scope s known all valid =
      let request = token_request w c scope in
      let reply = w.send s.sent request in
      granted-IsSafe scope (token_from_response w c now scope reply)
        (record s { sent = request ∷ s.sent }) known
        (response-IsFor w c now scope s.sent reply refl)
        (allowed scope s.sent request known (token_request-RequestsToken w c scope), all)
        (IsValid-later request valid)

  or_request-IsSafe :
      (cached : Option MachineToken) (now : ℕ) (scope : Bytes) (s : State)
      → is_scope scope ≡ true
      → ((k : MachineToken) → cached ≡ some k → (k.scope ≡ scope) × Issued w c s.sent k)
      → AllSent P s.sent
      → IsValid w c s.sent s.tokens
      → IsSafe w c P scope (token_or_request w c cached now scope s)
  unfolding token_or_request
  or_request-IsSafe (some a) now scope s known is_for all valid =
      (all, valid, λ k h. is_for k (ground arith))
  or_request-IsSafe none now scope s known is_for all valid =
      request-IsSafe (w.refused (bytes "POST") (c.issuer ++ bytes "/oauth2/token")) now scope s
        known all valid

  checked-IsSafe :
      (v : Result PortalError (Unit {0})) (t : Instants) (scope : Bytes) (s : State)
      → ((u : Unit {0}) → v ≡ ok u → is_scope scope ≡ true)
      → AllSent P s.sent
      → IsValid w c s.sent s.tokens
      → IsSafe w c P scope (token_checked w c v t scope s)
  unfolding token_checked
  checked-IsSafe (err e) t scope s known all valid = (all, valid, λ k h. absurd (cc))
  checked-IsSafe (ok u) t scope s known all valid =
      or_request-IsSafe (fresh t.token_test (s.tokens scope)) t.token_expiry scope s (known u refl)
        (λ k h.
          let (same, is_known, issued) =
            valid scope k (fresh-some t.token_test (s.tokens scope) k h) in
          (same, issued))
        all valid

  pub get_machine_token-IsSafe :
      (t : Instants) (scope : Bytes) (s : State)
      → AllSent P s.sent
      → IsValid w c s.sent s.tokens
      → IsSafe w c P scope (get_machine_token w c t scope s)
  unfolding get_machine_token
  get_machine_token-IsSafe t scope s all valid =
      checked-IsSafe (validate_scope scope) t scope s (validate_scope-ok scope) all valid
