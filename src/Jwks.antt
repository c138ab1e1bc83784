-- ===== src/Jwks.antt =====
-- jwt/jwks.go: the provider of the server's signing keys, its cache, and the forced refresh with its
-- cooldown. The keys are those of the package go-jose: any type with a key ID. Times are nanoseconds
-- since Go's zero time. `KeyByID` is cut at its critical sections, so that calls can interleave.
pub mod Steps
pub mod Cooldown
mod Tests
use vertex_sdk_go.Prelude.{
  ℕ, ◌>>=◌, leb, ◌++◌, ◌-◌, ◌*◌, ◌^◌, Bool, true, false, List, [], ◌∷◌, Option, none, some, Result,
  ok, err, ltb, if◌then◌else◌,
}
use vertex_sdk_go.Prelude.Int.{ℤ, positive_or}
use vertex_sdk_go.Prelude.Strings.{Bytes, bytes, str_eq}

pub record JwksOptions : Type 0 where
  pub url : Bytes
  pub refresh : ℤ
  pub rotation_cooldown : ℤ

pub record JwksProvider (K : Type 0) : Type 0 where
  pub jwks_url : Bytes
  pub refresh : ℕ
  pub set : Option (List K)
  pub last_fetch : ℕ
  pub last_forced_refresh : ℕ
  pub cooldown : ℕ

-- What `fetch` may meet: a request that cannot be made, one that is not answered, or a response with
-- its status code, its status line, and its body or the error of reading it.
pub data Exchange : Type 0 where
  not_sent : Bytes → Exchange
  not_answered : Bytes → Exchange
  replied : ℕ → Bytes → Result Bytes Bytes → Exchange

pub data JwksError : Type 0 where
  empty_url : JwksError
  cooldown_active : Bytes → JwksError
  unknown_kid : Bytes → JwksError
  fetch_failed : Bytes → JwksError

abbrev pub second : ℕ
second = 1_000_000_000

pub new_jwks_provider : {K : Type 0} → JwksOptions → Result JwksError (JwksProvider K)
new_jwks_provider opts =
    if str_eq opts.url []
    then err empty_url
    else ok (record {
      jwks_url = opts.url;
      refresh = positive_or (3_600 * second) opts.refresh;
      set = none;
      last_fetch = 0;
      last_forced_refresh = 0;
      cooldown = positive_or (10 * second) opts.rotation_cooldown;
    })

-- `time.Since`, which saturates at the largest duration
unfoldable pub since : ℕ → ℕ → ℕ
since now t = if ltb (2 ^ 63 - 1) (now - t) then 2 ^ 63 - 1 else now - t

-- One call of `KeyByID`: before its first lookup, before the cooldown's test, before the answer to
-- its fetch is stored, before its second lookup, and at its end.
pub data Call (K : Type 0) : Type 0 where
  looking : Bytes → Call K
  missed : Bytes → Call K
  fetching : Bytes → Call K
  looking_again : Bytes → Call K
  returned : Result JwksError K → Call K

-- The times at which one call runs its four parts.
pub record Clock : Type 0 where
  pub first_lookup : ℕ
  pub cooldown_test : ℕ
  pub stored : ℕ
  pub second_lookup : ℕ

module _ {K : Type 0} (key_id : K → Bytes) where
  -- the loop of `lookup`
  unfoldable pub find_key : Bytes → List K → Option K
  find_key kid [] = none
  find_key kid (k ∷ ks) = if str_eq (key_id k) kid then some k else find_key kid ks

  unfoldable pub needs_refresh : ℕ → JwksProvider K → Bool
  unfolding since
  needs_refresh now p = ltb p.refresh (since now p.last_fetch)

  unfoldable pub lookup : ℕ → JwksProvider K → Bytes → Option K
  lookup now p kid = elim p.set [
    | none ↦ none
    | some keys ↦ if needs_refresh now p then none else find_key kid keys
  ]

  -- The reply to the request for the key set, as `fetch` reads it; `unmarshal` is `json.Unmarshal`.
  pub fetch_answer : (Bytes → Result Bytes (List K)) → Exchange → Result Bytes (List K)
  fetch_answer unmarshal (not_sent e) = err e
  fetch_answer unmarshal (not_answered e) = err e
  fetch_answer unmarshal (replied code status body) =
      if leb 400 code
      then err (bytes "iamjwt: jwks fetch failed: " ++ status)
      else body >>= unmarshal

  -- The end of `fetch`, given what `fetch_answer` makes of the reply.
  pub store : ℕ → Result Bytes (List K) → JwksProvider K → JwksProvider K
  store now (err e) p = p
  store now (ok keys) p = record p { set = some keys; last_fetch = now }

  -- `Preload`; `none` is a nil error
  pub preload : ℕ → Result Bytes (List K) → JwksProvider K → Option JwksError × JwksProvider K
  preload now (err e) p = (some (fetch_failed e), store now (err e) p)
  preload now (ok keys) p = (none, store now (ok keys) p)

  -- What the second lookup comes to.
  look_again : ℕ → JwksProvider K → Bytes → Call K
  look_again now p kid = elim (lookup now p kid) [
    | some k ↦ returned (ok k)
    | none ↦ returned (err (unknown_kid kid))
  ]

  -- The part of `KeyByID` up to the next critical section. `answer` is what the call's own request
  -- for the key set comes to.
  unfoldable pub step :
      ℕ → Result Bytes (List K) → Call K → JwksProvider K → Call K × JwksProvider K
  unfolding store look_again
  step now answer (looking kid) p =
      (elim (lookup now p kid) [ some k ↦ returned (ok k) | none ↦ missed kid ], p)
  step now answer (missed kid) p =
      if ltb (since now p.last_forced_refresh) p.cooldown
      then (returned (err (cooldown_active kid)), p)
      else (fetching kid, record p { last_forced_refresh = now })
  step now (err e) (fetching kid) p = (returned (err (fetch_failed e)), store now (err e) p)
  step now (ok keys) (fetching kid) p = (looking_again kid, store now (ok keys) p)
  step now answer (looking_again kid) p = (look_again now p kid, p)
  step now answer (returned r) p = (returned r, p)

  -- `KeyByID`, where no other call comes between its parts
  unfoldable pub key_by_id :
      Clock → Result Bytes (List K) → Bytes → JwksProvider K → Call K × JwksProvider K
  unfolding step
  key_by_id t answer kid p =
      let (c₁, p₁) = step t.first_lookup answer (looking kid) p in
      let (c₂, p₂) = step t.cooldown_test answer c₁ p₁ in
      let (c₃, p₃) = step t.stored answer c₂ p₂ in step t.second_lookup answer c₃ p₃
