-- ===== src/Manifest/Client/Sending/Success.antt =====
-- What a successful command of the client means, and the life of its token.
use mathlib.Core.Path.{subst}
use vertex_sdk_go.Prelude.{
  ℕ, ◌≡◌, refl, ap, inl, inr, true, ◌++◌, Option, none, some, Result, ok, err, ◌>>=◌, >>=-eq-ok,
  arith, ltb, leb, Bool-cases,
}
use vertex_sdk_go.Prelude.Strings.{Bytes}
use vertex_sdk_go.Json.{decode_strict}
use vertex_sdk_go.Manifest.Transport.{Response, Command, Run, execute}
use vertex_sdk_go.Manifest.Response.{ManifestResult, ResultError, validate_manifest_result}
use vertex_sdk_go.Manifest.Response.Consistent.{IsConsistent, validate_manifest_result-IsConsistent}
use vertex_sdk_go.Manifest.{PreparedManifest}
use vertex_sdk_go.Manifest.Client.{
  Token, Client, ClientError, TokenPayload, Wire, Instants, fresh_command,
}
use vertex_sdk_go.Manifest.Client.Sending.{
  Sent, cached, token_from, send_encoded, responded, texted, checked, token_url, granted, token_of,
  token_answered, request_token, token_request, manifest_request, machine_token, result_of,
  result_from, manifest_answered, send_body, send_with, send,
}

module _ (w : Wire) (p : PreparedManifest) where
  checked_ok :
      (body : Bytes) (a r : ManifestResult) (v : Result ResultError (Unit {0}))
      → checked w body a v ≡ ok r
      → (v ≡ ok tt) × (a ≡ r)
  checked_ok body a r (ok u) h = (refl, cc)
  checked_ok body a r (err e) h = cc

  result_from-IsConsistent :
      (answer : Response) (r : ManifestResult) → result_from w p answer ≡ ok r → IsConsistent r p
  unfolding result_from
  result_from-IsConsistent answer r h = elim (Bool-cases (leb 400 answer.status)) [
    | inl e ↦ absurd (ground arith)
    | inr e ↦
        let decoding : (do
          decoded ←
              responded w answer.body
                (texted w (decode_strict w.stream w.decode_result answer.body))
          result ← responded w answer.body (result_of decoded)
          checked w answer.body result (validate_manifest_result result p))
            ≡ ok r =
          ground arith in
        let (d, h₁, h₂) =
          >>=-eq-ok
            (responded w answer.body
              (texted w (decode_strict w.stream w.decode_result answer.body)))
            _ decoding in
        let (a, h₃, h₄) = >>=-eq-ok (responded w answer.body (result_of d)) _ h₂ in
        let (valid, same) = checked_ok answer.body a r _ h₄ in
        subst (λ x. IsConsistent x p) same (validate_manifest_result-IsConsistent a p valid)
  ]

  answered-IsConsistent :
      (c : Client) (run : Run) (r : ManifestResult)
      → (manifest_answered w p c run).result ≡ ok r
      → IsConsistent r p
  unfolding manifest_answered
  answered-IsConsistent c (err e, s) r h = cc
  answered-IsConsistent c (ok a, s) r h = result_from-IsConsistent a r h

  module _ (path idempotency_key : Bytes) (r : ManifestResult) where
    body-IsConsistent :
        (refused : Option Bytes) (token : Token) (body : Bytes) (c : Client) (s : Command)
        → (send_body w refused p path idempotency_key token body c s).result ≡ ok r
        → IsConsistent r p
    unfolding send_body
    body-IsConsistent (some e) token body c s h = cc
    body-IsConsistent none token body c s h =
        answered-IsConsistent c
          (execute (w.network (manifest_request w c token path idempotency_key body)) c.max_retries
            c.max_retry_delay s)
          r h

    encoded-IsConsistent :
        (encoded : Result Bytes Bytes) (token : Token) (c : Client) (s : Command)
        → (send_encoded w encoded p path idempotency_key token c s).result ≡ ok r
        → IsConsistent r p
    unfolding send_encoded
    encoded-IsConsistent (err e) token c s h = cc
    encoded-IsConsistent (ok body) token c s h =
        body-IsConsistent (w.refused_url (c.portal_api_endpoint ++ path)) token body c s h

    with-IsConsistent :
        (m : Result ClientError Token) (c : Client) (s : Command)
        → (send_with w m p path idempotency_key c s).result ≡ ok r
        → IsConsistent r p
    unfolding send_with
    with-IsConsistent (err e) c s h = cc
    with-IsConsistent (ok token) c s h = encoded-IsConsistent (w.marshal p) token c s h

    -- A result that `send` returns answers the manifest that was sent, and is consistent.
    pub send-IsConsistent :
        (t : Instants) (c : Client)
        → (send w t p path idempotency_key c).result ≡ ok r
        → IsConsistent r p
    unfolding send
    send-IsConsistent t c h =
        let m = machine_token w t c fresh_command in with-IsConsistent m.result m.client m.command h

-- The token that a client keeps is the one that it returned.
abbrev IsKept : Sent Token → Type 0
IsKept m = (k : Token) → m.result ≡ ok k → m.client.token ≡ some k

cached-some : (now : ℕ) (o : Option Token) (k : Token) → cached now o ≡ some k → o ≡ some k
unfolding cached
cached-some now none k h = cc
cached-some now (some a) k h = ground arith

module _ (w : Wire) (t : Instants) where
  granted-IsKept :
      (c : Client) (s : Command) (p : Result ClientError TokenPayload) → IsKept (granted w t c s p)
  unfolding granted
  granted-IsKept c s (err e) k h = cc
  granted-IsKept c s (ok p) k h = cc

  answered-IsKept : (c : Client) (run : Run) → IsKept (token_answered w t c run)
  unfolding token_answered
  answered-IsKept c (err e, s) k h = cc
  answered-IsKept c (ok r, s) k h = granted-IsKept c s (token_of w r) k h

  request-IsKept :
      (refused : Option Bytes) (c : Client) (s : Command) → IsKept (request_token w refused t c s)
  unfolding request_token
  request-IsKept (some e) c s k h = cc
  request-IsKept none c s k h =
      answered-IsKept c (execute (w.network (token_request w c)) c.max_retries c.max_retry_delay s)
        k h

  from-IsKept :
      (o : Option Token) (c : Client) (s : Command)
      → ((k : Token) → o ≡ some k → c.token ≡ some k)
      → IsKept (token_from w o t c s)
  unfolding token_from
  from-IsKept (some a) c s kept k h = kept k (cc)
  from-IsKept none c s kept k h = request-IsKept (w.refused_url (token_url w c)) c s k h

-- A token that was obtained is used again until it expires: until then the client asks the issuer for
-- no other, so that the next command spends nothing on it.
pub machine_token-reused :
    (w : Wire) (t later : Instants) (c : Client) (s next : Command) (k : Token)
    → (machine_token w t c s).result ≡ ok k
    → ltb later.token_test k.expires_at ≡ true
    → machine_token w later (machine_token w t c s).client next
      ≡ record { result = ok k; client = (machine_token w t c s).client; command = next }
unfolding machine_token token_from cached
machine_token-reused w t later c s next k h fresh =
    let kept : (machine_token w t c s).client.token ≡ some k =
      from-IsKept w t (cached t.token_test c.token) c s
        (λ a e. cached-some t.token_test c.token a e) k h in
    let good : cached later.token_test (machine_token w t c s).client.token ≡ some k =
      ground arith in
    ap (λ o. token_from w o later (machine_token w t c s).client next) good
