-- ===== src/Portal/Token/Reuse.antt =====
-- The life of a machine token in the cache.
use vertex_sdk_go.Prelude.{
  ℕ, ◌≡◌, ◌≢◌, refl, ap, ◌∙◌, inl, inr, true, ◌∷◌, ◌++◌, Option, none, some, Result, ok, err, ltb,
  Bool-cases, arith,
}
use vertex_sdk_go.Prelude.Strings.{Bytes, bytes, str_eq, str_eq_iff}
use vertex_sdk_go.Portal.{
  Client, PortalError, validate_scope, Wire, MachineToken, State, Instants, Done,
}
use vertex_sdk_go.Portal.Token.{
  put, fresh, token_request, token_from_response, granted, request_token, token_or_request,
  token_checked, get_machine_token,
}

-- The token that an operation returns is in the cache behind it.
abbrev IsKept : Bytes → Done MachineToken → Type 0
IsKept scope (r, s) = (k : MachineToken) → r ≡ ok k → s.tokens scope ≡ some k

-- What it does not return it leaves in the cache.
abbrev IsLeft : Bytes → State → Done MachineToken → Type 0
IsLeft scope s (r, s') = (other : Bytes) → other ≢ scope → s'.tokens other ≡ s.tokens other

put-same :
    (scope : Bytes) (k : MachineToken) (tokens : Bytes → Option MachineToken)
    → put scope k tokens scope ≡ some k
unfolding put
put-same scope k tokens = let e = (str_eq_iff scope scope).1 refl in ground arith

put-other :
    (scope other : Bytes) (k : MachineToken) (tokens : Bytes → Option MachineToken)
    → other ≢ scope
    → put scope k tokens other ≡ tokens other
unfolding put
put-other scope other k tokens n = elim (Bool-cases (str_eq other scope)) [
  | inl e ↦ absurd (n ((str_eq_iff other scope).0 e))
  | inr e ↦ ground arith
]

fresh-some :
    (now : ℕ) (o : Option MachineToken) (k : MachineToken) → fresh now o ≡ some k → o ≡ some k
unfolding fresh
fresh-some now none k h = cc
fresh-some now (some a) k h = ground arith

module _ (w : Wire) (c : Client) where
  granted-IsKept :
      (scope : Bytes) (r : Result PortalError MachineToken) (s : State)
      → IsKept scope (granted w c scope r s)
  unfolding granted
  granted-IsKept scope (err e) s k h = cc
  granted-IsKept scope (ok a) s k h =
      let same : a ≡ k = cc in put-same scope a s.tokens ∙ ap (λ x. some x) same

  granted-IsLeft :
      (scope : Bytes) (r : Result PortalError MachineToken) (s : State)
      → IsLeft scope s (granted w c scope r s)
  unfolding granted
  granted-IsLeft scope (err e) s other n = refl
  granted-IsLeft scope (ok a) s other n = put-other scope other a s.tokens n

  request-IsKept :
      (refused : Option Bytes) (now : ℕ) (scope : Bytes) (s : State)
      → IsKept scope (request_token w c refused now scope s)
  unfolding request_token
  request-IsKept (some e) now scope s k h = cc
  request-IsKept none now scope s k h =
      granted-IsKept scope
        (token_from_response w c now scope (w.send s.sent (token_request w c scope)))
        (record s { sent = token_request w c scope ∷ s.sent }) k h

  request-IsLeft :
      (refused : Option Bytes) (now : ℕ) (scope : Bytes) (s : State)
      → IsLeft scope s (request_token w c refused now scope s)
  unfolding request_token
  request-IsLeft (some e) now scope s other n = refl
  request-IsLeft none now scope s other n =
      granted-IsLeft scope
        (token_from_response w c now scope (w.send s.sent (token_request w c scope)))
        (record s { sent = token_request w c scope ∷ s.sent }) other n

  abbrev url_refused : Option Bytes
  url_refused = w.refused (bytes "POST") (c.issuer ++ bytes "/oauth2/token")

  or_request-IsKept :
      (cached : Option MachineToken) (now : ℕ) (scope : Bytes) (s : State)
      → ((k : MachineToken) → cached ≡ some k → s.tokens scope ≡ some k)
      → IsKept scope (token_or_request w c cached now scope s)
  unfolding token_or_request
  or_request-IsKept (some a) now scope s held k h = held k (cc)
  or_request-IsKept none now scope s held k h = request-IsKept url_refused now scope s k h

  or_request-IsLeft :
      (cached : Option MachineToken) (now : ℕ) (scope : Bytes) (s : State)
      → IsLeft scope s (token_or_request w c cached now scope s)
  unfolding token_or_request
  or_request-IsLeft (some a) now scope s other n = refl
  or_request-IsLeft none now scope s other n = request-IsLeft url_refused now scope s other n

  checked-IsKept :
      (v : Result PortalError (Unit {0})) (t : Instants) (scope : Bytes) (s : State)
      → IsKept scope (token_checked w c v t scope s)
  unfolding token_checked
  checked-IsKept (err e) t scope s k h = cc
  checked-IsKept (ok u) t scope s k h =
      or_request-IsKept (fresh t.token_test (s.tokens scope)) t.token_expiry scope s
        (λ a e. fresh-some t.token_test (s.tokens scope) a e) k h

  checked-IsLeft :
      (v : Result PortalError (Unit {0})) (t : Instants) (scope : Bytes) (s : State)
      → IsLeft scope s (token_checked w c v t scope s)
  unfolding token_checked
  checked-IsLeft (err e) t scope s other n = refl
  checked-IsLeft (ok u) t scope s other n =
      or_request-IsLeft (fresh t.token_test (s.tokens scope)) t.token_expiry scope s other n

  checked-cached :
      (v : Result PortalError (Unit {0})) (t : Instants) (scope : Bytes) (s : State)
      (k : MachineToken)
      → v ≡ ok tt
      → fresh t.token_test (s.tokens scope) ≡ some k
      → token_checked w c v t scope s ≡ (ok k, s)
  unfolding token_checked token_or_request
  checked-cached (err e) t scope s k v h = cc
  checked-cached (ok u) t scope s k v h = ap (λ o. token_or_request w c o t.token_expiry scope s) h

  checked-valid :
      (v : Result PortalError (Unit {0})) (t : Instants) (scope : Bytes) (s : State)
      (k : MachineToken)
      → (token_checked w c v t scope s).0 ≡ ok k
      → v ≡ ok tt
  unfolding token_checked
  checked-valid (err e) t scope s k h = cc
  checked-valid (ok u) t scope s k h = refl

  -- A machine token that was obtained is used again, with no request, until it expires, also if a token
  -- for another scope is asked for in between.
  pub get_machine_token-reused :
      (t between later : Instants) (scope other : Bytes) (s : State) (k : MachineToken)
      → (get_machine_token w c t scope s).0 ≡ ok k
      → scope ≢ other
      → ltb later.token_test k.expires_at ≡ true
      → let s' = (get_machine_token w c between other (get_machine_token w c t scope s).1).1 in
        get_machine_token w c later scope s' ≡ (ok k, s')
  unfolding get_machine_token fresh
  get_machine_token-reused t between later scope other s k h n good =
      let s₁ = (get_machine_token w c t scope s).1 in
      let s' = (get_machine_token w c between other s₁).1 in
      let held : s'.tokens scope ≡ some k =
        checked-IsLeft (validate_scope other) between other s₁ scope n
        ∙ checked-IsKept (validate_scope scope) t scope s k h in
      checked-cached (validate_scope scope) later scope s' k
        (checked-valid (validate_scope scope) t scope s k h) (ground arith)
