-- ===== src/Portal/Request/Contents.antt =====
-- The request for a resource, against a description of what a call with its arguments is to send.
use mathlib.Core.Path.{subst}
use vertex_sdk_go.Prelude.{
  ◌≡◌, ◌⊎◌, ◌↔◌, List, [], map, refl, sym, ap, inl, inr, ◌∷◌, ◌++◌, Option, none, some, Result, ok,
  err, Bool-cases, arith,
}
use vertex_sdk_go.Prelude.Strings.{Bytes, bytes}
use vertex_sdk_go.Prelude.Utf8.{trim_space}
use vertex_sdk_go.Prelude.Formats.{to_upper}
use vertex_sdk_go.Portal.{Header, Client, HttpRequest, MachineToken}
use vertex_sdk_go.Portal.Request.{
  is_method, added, content_type, normalize_method, Extra, encoded, resource_request,
}

-- The list has the member.
abbrev pub Among : {A : Type 0} → A → List A → Type 0
Among x [] = ⊥
Among x (y ∷ ys) = (x ≡ y) ⊎ Among x ys

-- The caller gave the header: it has the name, and the value is one of the name's.
abbrev pub IsGiven : Extra → Header → Type 0
IsGiven extra h = (vs : List Bytes) × Among (h.0, vs) extra × Among h.1 vs

-- The content type goes with a body, and only with one.
abbrev pub IsContentType : Option Bytes → List Header → Type 0
IsContentType body hs =
    ((body ≡ none) × (hs ≡ []))
    ⊎ ((b : Bytes) × (body ≡ some b) × (hs ≡ (bytes "Content-Type", bytes "application/json") ∷ []))

-- A body of a call that `json.Marshal` could encode, and its text.
abbrev pub IsEncoded : Option (Result Bytes Bytes) → Option Bytes → Type 0
IsEncoded body b =
    ((body ≡ none) × (b ≡ none)) ⊎ ((text : Bytes) × (body ≡ some (ok text)) × (b ≡ some text))

-- The request that a call with these arguments is for.
pub record IsRequestFor (c : Client) (extra : Extra) (method path : Bytes)
    (body : Option (Result Bytes Bytes)) (token : MachineToken) (r : HttpRequest) : Type 0 where
  pub has_method : r.method ≡ to_upper (trim_space method)
  pub has_url : r.url ≡ c.portal_endpoint ++ path
  pub has_body : IsEncoded body r.body
  pub content_headers : List Header
  pub given_headers : List Header
  pub has_headers :
      r.headers
      ≡ (bytes "Accept", bytes "application/json")
        ∷ (bytes "Authorization", bytes "Bearer " ++ token.access_token)
        ∷ (content_headers ++ given_headers)
  pub has_content_type : IsContentType r.body content_headers
  pub has_given : (h : Header) → Among h given_headers ↔ IsGiven extra h

Among-append :
    {A : Type 0} (x : A) (xs ys : List A) → Among x (xs ++ ys) ↔ (Among x xs ⊎ Among x ys)
Among-append x [] ys = (inr, elim [ inl m ↦ absurd m | inr m ↦ m ])
Among-append x (y ∷ xs) ys =
    let iff = Among-append x xs ys in
    (
      elim [ inl e ↦ inl (inl e) | inr m ↦ elim (iff.0 m) [ inl a ↦ inl (inr a) | inr b ↦ inr b ] ],
      elim [
        | inl m ↦ elim m [ inl e ↦ inl e | inr a ↦ inr (iff.1 (inl a)) ]
        | inr b ↦ inr (iff.1 (inr b))
      ],
    )

Among-values :
    (key : Bytes) (vs : List Bytes) (h : Header)
    → Among h (map (λ v. (key, v)) vs) ↔ ((h.0 ≡ key) × Among h.1 vs)
Among-values key [] h = (λ m. absurd m, λ d. absurd d.1)
Among-values key (v ∷ vs) h =
    let iff = Among-values key vs h in
    (
      elim [
        | inl e ↦ (ap (λ x. x.0) e, inl (ap (λ x. x.1) e))
        | inr m ↦ let (k, a) = iff.0 m in (k, inr a)
      ],
      λ d. elim d.1 [ inl e ↦ inl (cc (d.0, e)) | inr m ↦ inr (iff.1 (d.0, m)) ],
    )

Among-added : (extra : Extra) (h : Header) → Among h (added extra) ↔ IsGiven extra h
unfolding added
Among-added [] h = (λ m. absurd m, λ d. absurd d.1)
Among-added (e ∷ es) h =
    let split = Among-append h (map (λ v. (e.0, v)) e.1) (added es) in
    let first = Among-values e.0 e.1 h in
    let rest = Among-added es h in
    (
      λ m. elim (split.0 m) [
        | inl a ↦ let (k, v) = first.0 a in (e.1, inl (ap (λ x. (x, e.1)) k), v)
        | inr a ↦ let (vs, n, v) = rest.0 a in (vs, inr n, v)
      ],
      λ d.
          let (vs, n, v) = d in
          elim n [
            | inl same ↦
                split.1
                  (inl (first.1 (ap (λ x. x.0) same, subst (Among h.1) (ap (λ x. x.1) same) v)))
            | inr n ↦ split.1 (inr (rest.1 (vs, n, v)))
          ],
    )

content_type-IsContentType : (body : Option Bytes) → IsContentType body (content_type body)
content_type-IsContentType none = inl (refl, refl)
content_type-IsContentType (some b) = inr (b, refl, refl)

encoded-IsEncoded :
    (body : Option (Result Bytes Bytes)) (b : Option Bytes) → encoded body ≡ ok b → IsEncoded body b
unfolding encoded
encoded-IsEncoded none b h = inl (refl, cc)
encoded-IsEncoded (some (err e)) b h = absurd (cc)
encoded-IsEncoded (some (ok text)) b h = inr (text, refl, cc)

pub normalize_method-ok :
    (method m : Bytes) → normalize_method method ≡ ok m → m ≡ to_upper (trim_space method)
unfolding normalize_method
normalize_method-ok method m h = elim (Bool-cases (is_method (to_upper (trim_space method)))) [
  | inl e ↦ let same : to_upper (trim_space method) ≡ m = ground arith in sym same
  | inr e ↦ absurd (ground arith)
]

pub resource_request-IsRequestFor :
    (c : Client) (extra : Extra) (method m path : Bytes) (body : Option (Result Bytes Bytes))
    (b : Option Bytes) (token : MachineToken)
    → normalize_method method ≡ ok m
    → encoded body ≡ ok b
    → IsRequestFor c extra method path body token
        (resource_request m (c.portal_endpoint ++ path) b extra token)
unfolding resource_request
resource_request-IsRequestFor c extra method m path body b token normal coded = record {
  has_method = normalize_method-ok method m normal;
  has_url = refl;
  has_body = encoded-IsEncoded body b coded;
  content_headers = content_type b;
  given_headers = added extra;
  has_headers = refl;
  has_content_type = content_type-IsContentType b;
  has_given = Among-added extra;
}
