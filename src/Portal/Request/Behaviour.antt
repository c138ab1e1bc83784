-- ===== src/Portal/Request/Behaviour.antt =====
-- What a request for a resource comes to: success, and the refusals that send nothing.
use mathlib.Core.Path.{subst}
use vertex_sdk_go.Prelude.{
  ◌≡◌, ◌⊎◌, refl, sym, ap, inl, inr, true, false, ◌∷◌, ◌++◌, Option, none, some, Result, ok, err,
  leb, ◌==◌, Bool-cases, arith,
}
use vertex_sdk_go.Prelude.Strings.{Bytes}
use vertex_sdk_go.Prelude.Utf8.{trim_space}
use vertex_sdk_go.Prelude.Formats.{to_upper}
use vertex_sdk_go.Portal.{
  Client, PortalError, is_scope, HttpRequest, HttpResponse, Wire, MachineToken, State, Instants,
  Done,
}
use vertex_sdk_go.Portal.Token.{get_machine_token}
use vertex_sdk_go.Portal.Request.{
  is_method, normalize_method, is_portal_path, Extra, validate_headers, encoded, ResponseHeaders,
  Answer, Decoder, decoded, decoded_into, answer_of, resource_request, checked, exchange, with_body,
  with_token, after_checks, request_with_headers,
}
use vertex_sdk_go.Portal.Request.Safety.{checked-ok}
use vertex_sdk_go.Portal.Request.Contents.{
  IsRequestFor, normalize_method-ok, resource_request-IsRequestFor,
}

module _ {A : Type 0} (w : Wire) (out : Option (Decoder A)) where
  decoded-headers :
      (headers : ResponseHeaders) (r : Result Bytes A) (a : Option A) (h : ResponseHeaders)
      → decoded w out headers r ≡ ok (a, h)
      → h ≡ headers
  unfolding decoded
  decoded-headers headers (err e) a h k = cc
  decoded-headers headers (ok x) a h k = cc

  into-headers :
      (o : Option (Decoder A)) (r : HttpResponse) (a : Option A) (h : ResponseHeaders)
      → decoded_into w out o r ≡ ok (a, h)
      → h ≡ r.headers
  unfolding decoded_into
  into-headers none r a h k = cc
  into-headers (some d) r a h k = elim (Bool-cases (r.status == 204)) [
    | inl e ↦
        let first : Result PortalError (Answer A) = ok (none, r.headers) in
        let same : first ≡ ok (a, h) = ground arith in cc
    | inr e ↦ decoded-headers r.headers (d r.body) a h (ground arith)
  ]

  -- An answer comes from a response below 400.
  abbrev Responded : Result Bytes HttpResponse → ResponseHeaders → Type 0
  Responded reply h =
      (r : HttpResponse) × (reply ≡ ok r) × (leb 400 r.status ≡ false) × (h ≡ r.headers)

  answer_of-ok :
      (reply : Result Bytes HttpResponse) (a : Option A) (h : ResponseHeaders)
      → answer_of w out reply ≡ ok (a, h)
      → Responded reply h
  unfolding answer_of
  answer_of-ok (err e) a h k = cc
  answer_of-ok (ok r) a h k = elim (Bool-cases (leb 400 r.status)) [
    | inl e ↦ absurd (ground arith)
    | inr e ↦ (r, refl, e, into-headers out r a h (ground arith))
  ]

-- What a successful request has done: the token for the scope it asked for, then the request for its
-- arguments with it, which was answered below 400.
abbrev pub Succeeds :
    Wire
    → Client
    → Extra
    → Instants
    → Bytes
    → Bytes
    → Bytes
    → Option (Result Bytes Bytes)
    → State
    → State
    → Type 0
Succeeds w c extra t method path scope body s s' =
    (token : MachineToken) × (between : State) × (request : HttpRequest) × (r : HttpResponse)
    × (is_method (to_upper (trim_space method)) ≡ true)
    × (is_portal_path path ≡ true)
    × (validate_headers extra ≡ ok tt)
    × (get_machine_token w c t scope s ≡ (ok token, between))
    × IsRequestFor c extra method path body token request
    × (w.send between.sent request ≡ ok r)
    × (leb 400 r.status ≡ false)
    × (s' ≡ record between { sent = request ∷ between.sent })

module _ {A : Type 0} (w : Wire) (c : Client) (out : Option (Decoder A)) (extra : Extra)
    (a : Option A) (h : ResponseHeaders) (s' : State) where
  abbrev Exchanged : HttpRequest → State → Type 0
  Exchanged request s =
      (r : HttpResponse) × (w.send s.sent request ≡ ok r)
      × (leb 400 r.status ≡ false)
      × (s' ≡ record s { sent = request ∷ s.sent })

  exchange-ok :
      (refused : Option Bytes) (request : HttpRequest) (s : State)
      → exchange w c out extra refused request s ≡ (ok (a, h), s')
      → Exchanged request s
  unfolding exchange
  exchange-ok (some e) request s k = cc
  exchange-ok none request s k =
      let (r, sent, below, same) =
        answer_of-ok w out (w.send s.sent request) a h (ap (λ x. x.0) k) in
      (r, sent, below, sym (ap (λ x. x.1) k))

  body-ok :
      (method url : Bytes) (token : MachineToken) (body : Result PortalError (Option Bytes))
      (s : State)
      → with_body w c out extra method url token body s ≡ (ok (a, h), s')
      → (b : Option Bytes) × (body ≡ ok b) × Exchanged (resource_request method url b extra token) s
  unfolding with_body
  body-ok method url token (err e) s k = cc
  body-ok method url token (ok b) s k =
      (b, refl, exchange-ok (w.refused method url) (resource_request method url b extra token) s k)

  token-ok :
      (method url : Bytes) (body : Option (Result Bytes Bytes)) (d : Done MachineToken)
      → with_token w c out extra method url body d ≡ (ok (a, h), s')
      → (token : MachineToken) × (between : State) × (b : Option Bytes) × (d ≡ (ok token, between))
        × (encoded body ≡ ok b)
        × Exchanged (resource_request method url b extra token) between
  unfolding with_token
  token-ok method url body (err e, s) k = cc
  token-ok method url body (ok token, s) k =
      let (b, coded, done) = body-ok method url token (encoded body) s k in
      (token, s, b, refl, coded, done)

  checks-ok :
      (r : Result PortalError (Bytes × Bytes)) (t : Instants) (method path scope : Bytes)
      (body : Option (Result Bytes Bytes)) (s : State)
      → checked c method path scope extra ≡ r
      → after_checks w c out extra r t scope body s ≡ (ok (a, h), s')
      → Succeeds w c extra t method path scope body s s'
  unfolding after_checks
  checks-ok (err e) t method path scope body s v k = cc
  checks-ok (ok (m, url)) t method path scope body s v k =
      let (normal, is_m, p, at, known, headers) = checked-ok c method path scope extra m url v in
      let (token, between, b, got, coded, done) =
        subst
          (λ u.
            (token : MachineToken) × (between : State) × (b : Option Bytes) × (get_machine_token w c
                t scope s
              ≡ (ok token, between))
            × (encoded body ≡ ok b)
            × Exchanged (resource_request m u b extra token) between)
          at (token-ok m url body (get_machine_token w c t scope s) k) in
      let (r, sent, below, after) = done in
      (
        token,
        between,
        resource_request m (c.portal_endpoint ++ path) b extra token,
        r,
        subst (λ x. is_method x ≡ true) (normalize_method-ok method m normal) is_m,
        p,
        headers,
        got,
        resource_request-IsRequestFor c extra method m path body b token normal coded,
        sent,
        below,
        after,
      )

  -- A request that succeeds has obtained the token for the scope it was called with and then, last of
  -- all, sent one request that was answered below 400: with the method in capitals, which is a known
  -- one, to the path, which is below /open/v1/, under the portal's endpoint; with the encoded body, if
  -- there is one; and with the headers Accept, Authorization (the bearer's, with that token), the content
  -- type of a body, and then the headers it was called with and no others, none of a forbidden name.
  pub request_with_headers-Succeeds :
      (t : Instants) (method path scope : Bytes) (body : Option (Result Bytes Bytes)) (s : State)
      → request_with_headers w c out extra t method path scope body s ≡ (ok (a, h), s')
      → Succeeds w c extra t method path scope body s s'
  unfolding request_with_headers
  request_with_headers-Succeeds t method path scope body s k =
      checks-ok (checked c method path scope extra) t method path scope body s refl k

module _ {A : Type 0} (w : Wire) (c : Client) (out : Option (Decoder A)) (extra : Extra) where
  -- An unknown method, a path elsewhere, an unknown scope or a forbidden header.
  abbrev pub IsImproper : Bytes → Bytes → Bytes → Type 0
  IsImproper method path scope =
      ((e : PortalError) × (normalize_method method ≡ err e))
      ⊎ (is_portal_path path ≡ false)
      ⊎ (is_scope scope ≡ false)
      ⊎ ((e : PortalError) × (validate_headers extra ≡ err e))

  improper-refused :
      (r : Result PortalError (Bytes × Bytes)) (t : Instants) (method path scope : Bytes)
      (body : Option (Result Bytes Bytes)) (s : State)
      → checked c method path scope extra ≡ r
      → IsImproper method path scope
      → (e : PortalError) × (after_checks w c out extra r t scope body s ≡ (err e, s))
  unfolding after_checks
  improper-refused (err e) t method path scope body s v i = (e, refl)
  improper-refused (ok (m, url)) t method path scope body s v i =
      let (normal, is_m, p, at, known, headers) = checked-ok c method path scope extra m url v in
      elim i [
        | inl (e, x) ↦ absurd (cc)
        | inr j ↦ elim j [
          | inl x ↦ absurd (cc)
          | inr k ↦ elim k [ inl x ↦ absurd (cc) | inr (e, x) ↦ absurd (cc) ]
        ]
      ]

  -- A call with an unknown method, a path that is not below /open/v1/, an unknown scope or a forbidden
  -- header fails, sends nothing, not even for a token, and leaves the cache as it is.
  pub request_with_headers-refused :
      (t : Instants) (method path scope : Bytes) (body : Option (Result Bytes Bytes)) (s : State)
      → IsImproper method path scope
      → (e : PortalError) × (request_with_headers w c out extra t method path scope body s
          ≡ (err e, s))
  unfolding request_with_headers
  request_with_headers-refused t method path scope body s i =
      improper-refused (checked c method path scope extra) t method path scope body s refl i
