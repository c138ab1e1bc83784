-- ===== src/Portal/Request/Safety.antt =====
-- What the client of the portal's API sends over its whole life, and what its cache holds.
use mathlib.Core.Path.{subst}
use vertex_sdk_go.Prelude.{
  ◌≡◌, ◌⊎◌, inl, inr, refl, sym, ap, ◌∙◌, true, false, List, [], ◌∷◌, ◌++◌, map, Option, none, some,
  Result, ok, err, >>=-eq-ok, length, take, drop, take-append-drop, All, All-append, Bool-cases,
  arith,
}
use vertex_sdk_go.Prelude.Strings.{Bytes, bytes, str_eq_iff}
use vertex_sdk_go.Prelude.Formats.{to_lower, to_upper}
use vertex_sdk_go.Prelude.Utf8.{trim_space, pieces}
use vertex_sdk_go.Portal.{
  Client, PortalError, is_scope, validate_scope, Header, HttpRequest, Wire, MachineToken, State,
  Instants, Done,
}
use vertex_sdk_go.Portal.Token.{get_machine_token, clear_token_cache}
use vertex_sdk_go.Portal.Token.Safety.{
  RequestsToken, Issued, IsValid, IsValid-later, AllSent, IsSafe, get_machine_token-IsSafe,
  clear_token_cache-IsValid, sent-clear_token_cache, validate_scope-ok,
}
use vertex_sdk_go.Portal.Request.{
  is_method, normalize_method, scope_for_method, path_prefix, is_portal_path, portal_url,
  is_forbidden, Extra, validate_headers, added, content_type, encoded, Decoder, resource_request,
  checked, exchange, with_body, with_token, after_checks, request_with_headers, for_method,
  request_with_scope, request_json,
}

-- The caller may set the header's name.
abbrev pub IsFree : Header → Type 0
IsFree h = is_forbidden h.0 ≡ false

module _ (w : Wire) (c : Client) where
  abbrev pub IsTokenRequest : HttpRequest → Type 0
  IsTokenRequest r = (scope : Bytes) × (is_scope scope ≡ true) × RequestsToken w c scope r

  -- A request that goes to a path below /open/v1/ with a known method and, as the only header with a
  -- name that a caller may not set, the bearer's, whose token the issuer gave for a known scope before.
  pub record IsResourceRequest (before : List HttpRequest) (r : HttpRequest) : Type 0 where
    pub rest : Bytes
    pub token : MachineToken
    pub others : List Header
    pub below : r.url ≡ c.portal_endpoint ++ (path_prefix ++ rest)
    pub known_method : is_method r.method ≡ true
    pub known_scope : is_scope token.scope ≡ true
    pub issued : Issued w c before token
    pub has_bearer :
        r.headers
        ≡ (bytes "Accept", bytes "application/json")
          ∷ (bytes "Authorization", bytes "Bearer " ++ token.access_token)
          ∷ others
    pub others_free : All IsFree others

  abbrev pub IsAllowed : List HttpRequest → HttpRequest → Type 0
  IsAllowed before r = IsTokenRequest r ⊎ IsResourceRequest before r

values-IsFree :
    (key : Bytes) (vs : List Bytes) → is_forbidden key ≡ false → All IsFree (map (λ v. (key, v)) vs)
values-IsFree key [] h = tt
values-IsFree key (v ∷ vs) h = (h, values-IsFree key vs h)

extra-IsFree : (extra : Extra) → validate_headers extra ≡ ok tt → All IsFree (added extra)
unfolding validate_headers added
extra-IsFree [] h = tt
extra-IsFree (e ∷ es) h = elim (Bool-cases (is_forbidden e.0)) [
  | inl b ↦ absurd (ground arith)
  | inr b ↦
      All-append IsFree (map (λ v. (e.0, v)) e.1) (added es) (values-IsFree e.0 e.1 b)
        (extra-IsFree es (ground arith))
]

content_type_free : is_forbidden (bytes "Content-Type") ≡ false
unfolding is_forbidden to_lower pieces
content_type_free = refl

content_type-IsFree : (body : Option Bytes) → All IsFree (content_type body)
content_type-IsFree none = tt
content_type-IsFree (some body) = (content_type_free, tt)

portal_path-rest :
    (path : Bytes)
    → is_portal_path path ≡ true
    → path ≡ path_prefix ++ drop (length path_prefix) path
unfolding is_portal_path
portal_path-rest path h =
    sym (take-append-drop (length path_prefix) path)
    ∙ ap (λ s. s ++ drop (length path_prefix) path)
        ((str_eq_iff (take (length path_prefix) path) path_prefix).0 h)

resource_request-IsAllowed :
    (w : Wire) (c : Client) (before : List HttpRequest) (method path : Bytes) (body : Option Bytes)
    (extra : Extra) (token : MachineToken)
    → is_method method ≡ true
    → is_portal_path path ≡ true
    → validate_headers extra ≡ ok tt
    → is_scope token.scope ≡ true
    → Issued w c before token
    → IsAllowed w c before (resource_request method (c.portal_endpoint ++ path) body extra token)
unfolding resource_request
resource_request-IsAllowed w c before method path body extra token m p h known issued =
    inr (record {
      rest = drop (length path_prefix) path;
      token = token;
      others = content_type body ++ added extra;
      below = ap (λ s. c.portal_endpoint ++ s) (portal_path-rest path p);
      known_method = m;
      known_scope = known;
      issued = issued;
      has_bearer = refl;
      others_free =
          All-append IsFree (content_type body) (added extra) (content_type-IsFree body)
            (extra-IsFree extra h);
    })

normalize_method-IsMethod : (method m : Bytes) → normalize_method method ≡ ok m → is_method m ≡ true
unfolding normalize_method
normalize_method-IsMethod method m h =
    elim (Bool-cases (is_method (to_upper (trim_space method)))) [
      | inl e ↦ let same : to_upper (trim_space method) ≡ m = ground arith in cc
      | inr e ↦ absurd (ground arith)
    ]

portal_url-ok :
    (c : Client) (path url : Bytes)
    → portal_url c path ≡ ok url
    → (is_portal_path path ≡ true) × (url ≡ c.portal_endpoint ++ path)
unfolding portal_url
portal_url-ok c path url h = elim (Bool-cases (is_portal_path path)) [
  | inl e ↦ (e, ground arith)
  | inr e ↦ absurd (ground arith)
]

-- What the checks at the beginning of a request have tested.
pub checked-ok :
    (c : Client) (method path scope : Bytes) (extra : Extra) (m url : Bytes)
    → checked c method path scope extra ≡ ok (m, url)
    → (normalize_method method ≡ ok m)
      × (is_method m ≡ true)
      × (is_portal_path path ≡ true)
      × (url ≡ c.portal_endpoint ++ path)
      × (is_scope scope ≡ true)
      × (validate_headers extra ≡ ok tt)
unfolding checked
checked-ok c method path scope extra m url h =
    let (n, h₁, h₂) = >>=-eq-ok (normalize_method method) _ h in
    let (u, h₃, h₄) = >>=-eq-ok (portal_url c path) _ h₂ in
    let (x, h₅, h₆) = >>=-eq-ok (validate_scope scope) _ h₄ in
    let (y, h₇, h₈) = >>=-eq-ok (validate_headers extra) _ h₆ in
    let same : n ≡ m = cc in
    let url_same : u ≡ url = cc in
    let (p, at) = portal_url-ok c path u h₃ in
    (cc, normalize_method-IsMethod method m (cc), p, cc, validate_scope-ok scope x h₅, cc)

abbrev IsKept : Wire → Client → State → Type 0
IsKept w c s = AllSent (IsAllowed w c) s.sent × IsValid w c s.sent s.tokens

module _ {A : Type 0} (w : Wire) (c : Client) (out : Option (Decoder A)) (extra : Extra) where
  exchange-IsKept :
      (refused : Option Bytes) (request : HttpRequest) (s : State)
      → IsAllowed w c s.sent request
      → IsKept w c s
      → IsKept w c (exchange w c out extra refused request s).1
  unfolding exchange
  exchange-IsKept (some e) request s a k = k
  exchange-IsKept none request s a k = ((a, k.0), IsValid-later request k.1)

  body-IsKept :
      (method url : Bytes) (token : MachineToken) (body : Result PortalError (Option Bytes))
      (s : State)
      → ((b : Option Bytes) → IsAllowed w c s.sent (resource_request method url b extra token))
      → IsKept w c s
      → IsKept w c (with_body w c out extra method url token body s).1
  unfolding with_body
  body-IsKept method url token (err e) s a k = k
  body-IsKept method url token (ok body) s a k =
      exchange-IsKept (w.refused method url) (resource_request method url body extra token) s
        (a body) k

  token-IsKept :
      (method url : Bytes) (body : Option (Result Bytes Bytes)) (scope : Bytes)
      (d : Done MachineToken)
      → ((before : List HttpRequest) (token : MachineToken) (b : Option Bytes)
          → token.scope ≡ scope
          → Issued w c before token
          → IsAllowed w c before (resource_request method url b extra token))
      → IsSafe w c (IsAllowed w c) scope d
      → IsKept w c (with_token w c out extra method url body d).1
  unfolding with_token
  token-IsKept method url body scope (err e, s) a (all, valid, is_for) = (all, valid)
  token-IsKept method url body scope (ok token, s) a (all, valid, is_for) =
      let (same, issued) = is_for token refl in
      body-IsKept method url token (encoded body) s (λ b. a s.sent token b same issued) (all, valid)

  checks-IsKept :
      (r : Result PortalError (Bytes × Bytes)) (t : Instants) (method path scope : Bytes)
      (body : Option (Result Bytes Bytes)) (s : State)
      → checked c method path scope extra ≡ r
      → IsKept w c s
      → IsKept w c (after_checks w c out extra r t scope body s).1
  unfolding after_checks
  checks-IsKept (err e) t method path scope body s h k = k
  checks-IsKept (ok (m, url)) t method path scope body s h k =
      let (n, is_m, p, at, known, headers) = checked-ok c method path scope extra m url h in
      token-IsKept m url body scope (get_machine_token w c t scope s)
        (λ before token b same issued.
          subst (λ u. IsAllowed w c before (resource_request m u b extra token)) (sym at)
            (resource_request-IsAllowed w c before m path b extra token is_m p headers (cc) issued))
        (get_machine_token-IsSafe w c (IsAllowed w c) (λ x l r e asks. inl (x, e, asks)) t scope s
          k.0 k.1)

  request-IsKept :
      (t : Instants) (method path scope : Bytes) (body : Option (Result Bytes Bytes)) (s : State)
      → IsKept w c s
      → IsKept w c (request_with_headers w c out extra t method path scope body s).1
  unfolding request_with_headers
  request-IsKept t method path scope body s k =
      checks-IsKept (checked c method path scope extra) t method path scope body s refl k

method-IsKept :
    {A : Type 0} (w : Wire) (c : Client) (out : Option (Decoder A)) (r : Result PortalError Bytes)
    (t : Instants) (path : Bytes) (body : Option (Result Bytes Bytes)) (s : State)
    → IsKept w c s
    → IsKept w c (for_method w c out r t path body s).1
unfolding for_method request_with_scope
method-IsKept w c out (err e) t path body s k = k
method-IsKept w c out (ok m) t path body s k =
    request-IsKept w c out [] t m path (scope_for_method m) body s k

-- One operation of the client.
pub data Step (w : Wire) (c : Client) : State → State → Type 1 where
  got_token :
      (t : Instants) (scope : Bytes) (s : State) → Step w c s (get_machine_token w c t scope s).1
  cleared : (scopes : List Bytes) (s : State) → Step w c s (clear_token_cache scopes s)
  requested :
      {A : Type 0} (out : Option (Decoder A)) (extra : Extra) (t : Instants)
      (method path scope : Bytes) (body : Option (Result Bytes Bytes)) (s : State)
      → Step w c s (request_with_headers w c out extra t method path scope body s).1
  requested_json :
      {A : Type 0} (out : Option (Decoder A)) (t : Instants) (method path : Bytes)
      (body : Option (Result Bytes Bytes)) (s : State)
      → Step w c s (request_json w c out t method path body s).1

-- The states of a client from its construction on.
pub data Reachable (w : Wire) (c : Client) : State → Type 1 where
  new : Reachable w c (record { tokens = λ scope. none; sent = [] })
  next : {s s' : State} → Reachable w c s → Step w c s s' → Reachable w c s'

Step-IsKept : {w : Wire} {c : Client} {s s' : State} → Step w c s s' → IsKept w c s → IsKept w c s'
unfolding request_json
Step-IsKept {w} {c} (got_token t scope s) k =
    let (all, valid, is_for) =
      get_machine_token-IsSafe w c (IsAllowed w c) (λ x l r e asks. inl (x, e, asks)) t scope s k.0
        k.1 in
    (all, valid)
Step-IsKept {w} {c} (cleared scopes s) k = (
  subst (AllSent (IsAllowed w c)) (sym (sent-clear_token_cache scopes s)) k.0,
  subst (λ l. IsValid w c l (clear_token_cache scopes s).tokens)
      (sym (sent-clear_token_cache scopes s)) (clear_token_cache-IsValid scopes s k.1),
)
Step-IsKept {w} {c} (requested out extra t method path scope body s) k =
    request-IsKept w c out extra t method path scope body s k
Step-IsKept {w} {c} (requested_json out t method path body s) k =
    method-IsKept w c out (normalize_method method) t path body s k

-- In any sequence of operations, each request that a client sends is either a POST to the issuer's token
-- endpoint for a token of a known scope, with the client's credentials; or goes with a known method to
-- a path below /open/v1/ of the portal, with an Authorization header that is "Bearer " before a token
-- which the issuer gave for a known scope, in an answer below 400 to an earlier one of these requests, and
-- with no other header of a forbidden name. The cache has only such tokens, each under its own scope.
pub Reachable-IsAllowed :
    {w : Wire} {c : Client} {s : State}
    → Reachable w c s
    → AllSent (IsAllowed w c) s.sent × IsValid w c s.sent s.tokens
Reachable-IsAllowed new = (tt, λ scope k h. absurd (cc))
Reachable-IsAllowed (next r step) = Step-IsKept step (Reachable-IsAllowed r)
