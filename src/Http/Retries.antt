-- ===== src/Http/Retries.antt =====
-- How often a request is repeated, and which attempt's result is returned.
use mathlib.Core.Path.{subst}
use vertex_sdk_go.Prelude.{
  ℕ, zero, suc, ◌≤◌, ◌≡◌, inl, inr, refl, sym, ap, ◌∙◌, true, false, ◌∷◌, ◌++◌, Option, none, some,
  Result, ok, err, leb, Bool-cases, arith,
}
use vertex_sdk_go.Prelude.Strings.{Bytes}
use vertex_sdk_go.Config.{SdkConfig}
use vertex_sdk_go.Portal.{HttpRequest, HttpResponse, Body}
use vertex_sdk_go.Http.{
  HttpError, api_error, is_retryable, Auth, signed, Log, Did, Failed, permanent, Attempt, Runs,
  success, no_more, gave_up, cancelled, retried, Backoff, Server, max_retries, endpoint, request_of,
  answered, sent, with_body, do_json, plain_answer, plain_failure, failing, plain_attempt,
  do_json_retry, strict_answer, strict_failure, strict_attempt, do_json_strict_retry,
}

-- `n` times the same request before what was sent.
abbrev pub copies : ℕ → HttpRequest → Log → Log
copies zero r l = l
copies (suc n) r l = r ∷ copies n r l

copies_more : (n : ℕ) (r : HttpRequest) (l : Log) → copies n r (r ∷ l) ≡ r ∷ copies n r l
copies_more zero r l = refl
copies_more (suc n) r l = ap (λ x. r ∷ x) (copies_more n r l)

-- At most so many of the same request.
abbrev pub SendsAtMost : ℕ → HttpRequest → Log → Log → Type 0
SendsAtMost n r l l' = (m : ℕ) × (m ≤ n) × (l' ≡ copies m r l)

module _ {A : Type 0} (op : Attempt A) (r : HttpRequest)
    (once : (l : Log) → SendsAtMost 1 r l (op l).1) where
  one : {l l' : Log} {x : Result Failed A} (n : ℕ) → op l ≡ (x, l') → SendsAtMost (suc n) r l l'
  one {l = l} {l' = l'} n h =
      let (m, few, same) = once l in (m, omega arith, sym (ap (λ d. d.1) h) ∙ same)

  grow :
      (m k n : ℕ) (l l'' : Log)
      → m ≤ 1
      → k ≤ n
      → l'' ≡ copies k r (copies m r l)
      → SendsAtMost (suc n) r l l''
  grow zero k n l l'' little few e = (k, omega arith, e)
  grow (suc zero) k n l l'' little few e = (suc k, omega arith, e ∙ copies_more k r l)
  grow (suc (suc m)) k n l l'' little few e = absurd (omega arith)

  more :
      {l l' l'' : Log} {x : Result Failed A} (n : ℕ)
      → op l ≡ (x, l')
      → SendsAtMost n r l' l''
      → SendsAtMost (suc n) r l l''
  more {l = l} {l' = l'} {l'' = l''} n h (k, few, same) =
      let (m, little, first) = once l in
      let between : l' ≡ copies m r l = sym (ap (λ d. d.1) h) ∙ first in
      grow m k n l l'' little few (same ∙ ap (copies k r) between)

  -- However the library repeats an attempt, it sends at most one request more than the retries allowed.
  Runs-SendsAtMost : {n : ℕ} {l : Log} {d : Did A} → Runs op n l d → SendsAtMost (suc n) r l d.1
  Runs-SendsAtMost (success {n = n} a h) = one n h
  Runs-SendsAtMost (no_more {n = n} e h) = one n h
  Runs-SendsAtMost (gave_up {n = n} e h) = one n h
  Runs-SendsAtMost (cancelled {n = n} e h) = one n h
  Runs-SendsAtMost (retried {n = n} e h rest) = more (suc n) h (Runs-SendsAtMost rest)

  -- A value that the library returns is the last attempt's.
  Runs-last :
      {n : ℕ} {l : Log} {d : Did A} (a : A)
      → Runs op n l d
      → d.0 ≡ ok a
      → (before : Log) × (op before ≡ (ok a, d.1))
  Runs-last a (success {l = l} {l' = l'} b h) e =
      let same : b ≡ a = cc in (l, h ∙ ap (λ x. (ok x, l')) same)
  Runs-last a (no_more e h) k = cc
  Runs-last a (gave_up e h) k = cc
  Runs-last a (cancelled e h) k = cc
  Runs-last a (retried e h rest) k = Runs-last a rest k

  -- After an attempt that failed for good there is no other.
  Runs-permanent :
      {n : ℕ} {l l' : Log} {d : Did A} (e : HttpError)
      → Runs op n l d
      → op l ≡ (err (permanent e), l')
      → d ≡ (err e, l')
  Runs-permanent e (success a h) k = absurd (let x = ap (λ y. y.0) (sym h ∙ k) in cc)
  Runs-permanent e (no_more f h) k =
      let x = ap (λ y. y.0) (sym h ∙ k) in let y = ap (λ z. z.1) (sym h ∙ k) in cc
  Runs-permanent e (gave_up f h) k = absurd (let x = ap (λ y. y.0) (sym h ∙ k) in cc)
  Runs-permanent e (cancelled f h) k = absurd (let x = ap (λ y. y.0) (sym h ∙ k) in cc)
  Runs-permanent e (retried f h rest) k = absurd (let x = ap (λ y. y.0) (sym h ∙ k) in cc)

-- The body of a request, as far as it can be encoded.
abbrev pub body_of : Option (Result Bytes Bytes) → Option Bytes
body_of none = none
body_of (some (err e)) = none
body_of (some (ok body)) = some body

module _ {A : Type 0} (v : Server) (c : SdkConfig) (auth : Auth) (method path : Bytes)
    (answer : HttpResponse → Result HttpError A) where
  abbrev Once : Option Bytes → Log → Did A → Type 0
  Once body l d = SendsAtMost 1 (request_of v c auth method path body) l d.1

  sent-Once :
      (refused body : Option Bytes) (l : Log)
      → Once body l (sent v c auth method path answer refused body l)
  unfolding sent
  sent-Once (some e) body l = (0, omega arith, refl)
  sent-Once none body l = (1, omega arith, refl)

  do_json-Once :
      (body : Option (Result Bytes Bytes)) (l : Log)
      → Once (body_of body) l (do_json v c auth method path answer body l)
  unfolding do_json with_body
  do_json-Once none l = sent-Once (v.refused method _) none l
  do_json-Once (some (err e)) l = (0, omega arith, refl)
  do_json-Once (some (ok body)) l = sent-Once (v.refused method _) (some body) l

  -- A value comes from a response to the request.
  abbrev pub Responded : Option Bytes → A → Log → Log → Type 0
  Responded body a l l' =
      (r : HttpResponse) × (v.send l (request_of v c auth method path body) ≡ ok r)
      × (answer r ≡ ok a)
      × (l' ≡ request_of v c auth method path body ∷ l)

  answered-ok :
      (reply : Result Bytes HttpResponse) (a : A)
      → answered answer reply ≡ ok a
      → (r : HttpResponse) × (reply ≡ ok r) × (answer r ≡ ok a)
  answered-ok (err e) a h = cc
  answered-ok (ok r) a h = (r, refl, h)

  sent-ok :
      (refused body : Option Bytes) (a : A) (l l' : Log)
      → sent v c auth method path answer refused body l ≡ (ok a, l')
      → Responded body a l l'
  unfolding sent
  sent-ok (some e) body a l l' h = absurd (let x = ap (λ d. d.0) h in cc)
  sent-ok none body a l l' h =
      let (r, replied, good) =
        answered-ok (v.send l (request_of v c auth method path body)) a (ap (λ d. d.0) h) in
      (r, replied, good, sym (ap (λ d. d.1) h))

  do_json-ok :
      (body : Option (Result Bytes Bytes)) (a : A) (l l' : Log)
      → do_json v c auth method path answer body l ≡ (ok a, l')
      → Responded (body_of body) a l l'
  unfolding do_json with_body
  do_json-ok none a l l' h = sent-ok (v.refused method _) none a l l' h
  do_json-ok (some (err e)) a l l' h = absurd (let x = ap (λ d. d.0) h in cc)
  do_json-ok (some (ok body)) a l l' h = sent-ok (v.refused method _) (some body) a l l' h

module _ {A : Type 0} (failure : HttpError → Failed) where
  failing-log : (d : Did A) → (failing failure d).1 ≡ d.1
  failing-log (err e, l) = refl
  failing-log (ok a, l) = refl

  failing-ok : (d : Did A) (a : A) (l : Log) → failing failure d ≡ (ok a, l) → d ≡ (ok a, l)
  failing-ok (err e, l) a l' h = absurd (let x = ap (λ d. d.0) h in cc)
  failing-ok (ok b, l) a l' h =
      let x = ap (λ d. d.0) h in let same : b ≡ a = cc in let logs : l ≡ l' = ap (λ d. d.1) h in cc

-- The request of a call, which does not change from one attempt to the next.
abbrev pub the_request :
    Server → SdkConfig → Bytes → Bytes → Option (Result Bytes Bytes) → Auth → HttpRequest
the_request v c method path body auth = request_of v c auth method path (body_of body)

module _ {A : Type 0} (b : Backoff) (v : Server) (c : SdkConfig) (method path : Bytes)
    (body : Option (Result Bytes Bytes)) where
  plain-once :
      (auth : Auth) (decode : Body → Result Bytes A) (l : Log)
      → SendsAtMost 1
          (the_request v c method path body auth)
          l
          (plain_attempt b v c auth method path body decode l).1
  unfolding plain_attempt
  plain-once auth decode l =
      subst (SendsAtMost 1 (the_request v c method path body auth) l)
        (sym
          (failing-log plain_failure (do_json v c auth method path (plain_answer decode) body l)))
        (do_json-Once v c auth method path (plain_answer decode) body l)

  strict-once :
      (decode : Bytes → Result Bytes A) (l : Log)
      → SendsAtMost 1
          (the_request v c method path body signed)
          l
          (strict_attempt b v c method path body decode l).1
  unfolding strict_attempt
  strict-once decode l = elim (Bool-cases (v.is_done l)) [
    | inl e ↦ simp e (0, omega arith, refl)
    | inr e ↦ simp e (
        subst (SendsAtMost 1 (the_request v c method path body signed) l)
          (sym (
            failing-log (strict_failure v)
              (do_json v c signed method path (strict_answer v decode) body l)))
          (do_json-Once v c signed method path (strict_answer v decode) body l))
  ]

  strict-ok :
      (decode : Bytes → Result Bytes A) (a : A) (l l' : Log)
      → strict_attempt b v c method path body decode l ≡ (ok a, l')
      → Responded v c signed method path (strict_answer v decode) (body_of body) a l l'
  unfolding strict_attempt
  strict-ok decode a l l' h = elim (Bool-cases (v.is_done l)) [
    | inl e ↦ absurd (let x = ap (λ d. d.0) h in ground arith)
    | inr e ↦ do_json-ok v c signed method path (strict_answer v decode) body a l l' (
        failing-ok (strict_failure v)
          (do_json v c signed method path (strict_answer v decode) body l) a l' (ground arith))
  ]

  -- A call that may be repeated sends the same request at most once more than the configured retries, and
  -- nothing else.
  pub do_json_retry-SendsAtMost :
      (auth : Auth) (decode : Body → Result Bytes A) (l : Log)
      → SendsAtMost
          (suc (max_retries c))
          (the_request v c method path body auth)
          l
          (do_json_retry b v c auth method path body decode l).1
  unfolding do_json_retry
  do_json_retry-SendsAtMost auth decode l =
      let op = plain_attempt b v c auth method path body decode in
      Runs-SendsAtMost op (the_request v c method path body auth) (plain-once auth decode)
        (b.retry_runs (max_retries c) op l)

  -- A value that it returns was decoded from the response to the last request.
  pub do_json_retry-Responded :
      (auth : Auth) (decode : Body → Result Bytes A) (l : Log) (a : A)
      → (do_json_retry b v c auth method path body decode l).0 ≡ ok a
      → (before : Log) × Responded v c auth method path
          (plain_answer decode)
          (body_of body)
          a
          before
          (do_json_retry b v c auth method path body decode l).1
  unfolding do_json_retry plain_attempt
  do_json_retry-Responded auth decode l a e =
      let op = plain_attempt b v c auth method path body decode in
      let (before, last) =
        Runs-last op (the_request v c method path body auth) (plain-once auth decode) a
          (b.retry_runs (max_retries c) op l) e in
      (
        before,
        do_json-ok v c auth method path (plain_answer decode) body a before _ (
            failing-ok plain_failure
              (do_json v c auth method path (plain_answer decode) body before) a _ last),
      )

  -- The same of a call whose answer is decoded strictly.
  pub do_json_strict_retry-SendsAtMost :
      (decode : Bytes → Result Bytes A) (l : Log)
      → SendsAtMost
          (suc (max_retries c))
          (the_request v c method path body signed)
          l
          (do_json_strict_retry b v c method path body decode l).1
  unfolding do_json_strict_retry
  do_json_strict_retry-SendsAtMost decode l =
      let op = strict_attempt b v c method path body decode in
      Runs-SendsAtMost op (the_request v c method path body signed) (strict-once decode)
        (b.retry_runs (max_retries c) op l)

  pub do_json_strict_retry-Responded :
      (decode : Bytes → Result Bytes A) (l : Log) (a : A)
      → (do_json_strict_retry b v c method path body decode l).0 ≡ ok a
      → (before : Log) × Responded v c signed method path
          (strict_answer v decode)
          (body_of body)
          a
          before
          (do_json_strict_retry b v c method path body decode l).1
  unfolding do_json_strict_retry
  do_json_strict_retry-Responded decode l a e =
      let op = strict_attempt b v c method path body decode in
      let (before, last) =
        Runs-last op (the_request v c method path body signed) (strict-once decode) a
          (b.retry_runs (max_retries c) op l) e in
      (before, strict-ok decode a before _ last)

final_answer :
    {A : Type 0} (decode : Body → Result Bytes A) (r : HttpResponse)
    → leb 400 r.status ≡ true
    → is_retryable r.status ≡ false
    → (l : Log)
    → failing plain_failure (answered (plain_answer decode) (ok r), l)
      ≡ (err (permanent (api_error r.status r.body.content)), l)
unfolding plain_answer plain_failure
final_answer decode r h k l = simp (h, k) refl

-- A body that can be encoded, if there is one.
abbrev pub encodable : Option Bytes → Option (Result Bytes Bytes)
encodable none = none
encodable (some body) = some (ok body)

do_json-sent :
    {A : Type 0} (v : Server) (c : SdkConfig) (auth : Auth) (method path : Bytes)
    (answer : HttpResponse → Result HttpError A) (body : Option Bytes) (l : Log)
    → do_json v c auth method path answer (encodable body) l
      ≡ sent v c auth method path answer (v.refused method (endpoint c ++ path)) body l
unfolding do_json with_body
do_json-sent v c auth method path answer none l = refl
do_json-sent v c auth method path answer (some body) l = refl

-- An answer from 400 on that does not ask for another attempt (429, or 500 and above) is final: a call without
-- a body or with one that can be encoded, whose URL is not refused, sends its one request and returns that
-- answer as an error.
pub do_json_retry-final :
    {A : Type 0} (b : Backoff) (v : Server) (c : SdkConfig) (method path : Bytes) (auth : Auth)
    (body : Option Bytes) (decode : Body → Result Bytes A) (l : Log) (r : HttpResponse)
    → v.refused method (endpoint c ++ path) ≡ none
    → v.send l (request_of v c auth method path body) ≡ ok r
    → leb 400 r.status ≡ true
    → is_retryable r.status ≡ false
    → do_json_retry b v c auth method path (encodable body) decode l
      ≡ (err (api_error r.status r.body.content), request_of v c auth method path body ∷ l)
unfolding do_json_retry plain_attempt sent
do_json_retry-final b v c method path auth body decode l r open_url replied high kept =
    let request = request_of v c auth method path body in
    let op = plain_attempt b v c auth method path (encodable body) decode in
    let first : op l ≡ (err (permanent (api_error r.status r.body.content)), request ∷ l) =
      ap (failing plain_failure) (do_json-sent v c auth method path (plain_answer decode) body l)
      ∙ ap (λ o. failing plain_failure (sent v c auth method path (plain_answer decode) o body l))
          open_url
      ∙ ap (λ x. failing plain_failure (answered (plain_answer decode) x, request ∷ l)) replied
      ∙ final_answer decode r high kept (request ∷ l) in
    Runs-permanent op (the_request v c method path (encodable body) auth)
      (plain-once b v c method path (encodable body) auth decode)
      (api_error r.status r.body.content) (b.retry_runs (max_retries c) op l) first
