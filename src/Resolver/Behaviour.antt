-- ===== src/Resolver/Behaviour.antt =====
-- What `Resolve` answers, and how it keeps the cache.
use mathlib.Core.List.{Permᴰ}
use vertex_sdk_go.Prelude.{
  ℕ, ◌++◌, ◌≡◌, ◌≢◌, Bool, true, refl, sym, ap, ◌∙◌, inl, inr, List, [], ◌∷◌, Option, none, some,
  Result, ok, err, arith, Option-cases, length, ◌==◌, false,
}
use vertex_sdk_go.Prelude.Strings.{Bytes, bytes, str_lt}
use vertex_sdk_go.Cache.{Cache}
use vertex_sdk_go.Resolver.{
  Error, ResolveClient, cache_key, HttpResolver, Resolved, fetched, shared, settle, resolve,
  invalidate, clear,
}
use vertex_sdk_go.Resolver.CacheKey.{IsKeyed, cache_key_iff, cache_key_perm, cache_key_collision}

-- The server reads the roles as a set: their order does not matter to it.
abbrev pub IgnoresOrder : ResolveClient → Type 0
IgnoresOrder client = (c : Bytes) (rs ss : List Bytes) → Permᴰ rs ss → client c rs ≡ client c ss

-- The answer to a caller by the server's: an error is passed on, or, where the resolver fails open, is no
-- permissions.
unfoldable pub by_policy : Bool → Result Error (List Bytes) → Result Error (List Bytes)
by_policy fail_open (ok perms) = ok perms
by_policy true (err e) = ok []
by_policy false (err e) = err e

settle-by_policy :
    (fail_open : Bool) (answer : Result Error (List Bytes))
    → settle fail_open answer ≡ by_policy fail_open answer
unfolding settle by_policy
settle-by_policy true (ok perms) = refl
settle-by_policy false (ok perms) = refl
settle-by_policy true (err e) = refl
settle-by_policy false (err e) = refl

nonzero : (xs : List Bytes) → xs ≢ [] → (length xs == 0) ≡ false
nonzero [] h = absurd (h refl)
nonzero (x ∷ xs) h = ground arith

module _ (c : Cache (List Bytes)) (client : ResolveClient) where
  -- Whatever the cache holds for a client and roles is what the server answers for them.
  pub record IsFaithful (r : HttpResolver c.State) : Type 0 where
    pub at :
        (now : ℕ) (client_id : Bytes) (roles perms : List Bytes)
        → IsKeyed client_id roles
        → c.get now (cache_key client_id roles) r.cache ≡ some perms
        → client client_id roles ≡ ok perms

  -- A call in flight is one of the same server, for a client and roles with the key.
  pub record FlightIsFaithful (flight : Bytes → Option (Result Error (List Bytes))) : Type 0 where
    pub at :
        (client_id : Bytes) (roles : List Bytes) (result : Result Error (List Bytes))
        → IsKeyed client_id roles
        → flight (cache_key client_id roles) ≡ some result
        → client client_id roles ≡ result

module _ (c : Cache (List Bytes)) (client : ResolveClient)
    (ignores_order : IgnoresOrder client) where
  -- Storing the server's answer keeps the cache faithful.
  store-IsFaithful :
      (r : HttpResolver c.State) (now : ℕ) (client_id : Bytes) (roles perms : List Bytes)
      → IsKeyed client_id roles
      → client client_id roles ≡ ok perms
      → IsFaithful c client r
      → IsFaithful c client
          (record r { cache = c.set_with_ttl now r.ttl (cache_key client_id roles) perms r.cache })
  store-IsFaithful r now client_id roles perms k e h = record {
    at = λ later d ss w w' got.
        elim (c.get_set later now r.ttl (cache_key client_id roles) (cache_key d ss) perms w r.cache
          got) [
            | inl (same, this) ↦
                let (who, order) = (cache_key_iff d client_id ss roles w' k).0 same in
                ap (λ x. client x ss) who
                ∙ ignores_order client_id ss roles order
                ∙ e
                ∙ ap ok (sym this)
            | inr old ↦ h.at later d ss w w' old
          ];
  }

  fetched_lem :
      (result : Result Error (List Bytes)) (now : ℕ) (r : HttpResolver c.State) (client_id : Bytes)
      (roles : List Bytes)
      → client client_id roles ≡ result
      → IsKeyed client_id roles
      → IsFaithful c client r
      → let s = fetched c result now r (cache_key client_id roles) client_id roles in
        (s.result ≡ result) × IsFaithful c client s.resolver
  unfolding fetched
  fetched_lem (ok perms) now r client_id roles e k h =
      (refl, store-IsFaithful r now client_id roles perms k e h)
  fetched_lem (err er) now r client_id roles e k h = (refl, h)

  shared_lem :
      (flight : Option (Result Error (List Bytes))) (result : Result Error (List Bytes))
      (r : HttpResolver c.State) (led : Resolved c.State)
      → ((other : Result Error (List Bytes)) → flight ≡ some other → result ≡ other)
      → IsFaithful c client r
      → (led.result ≡ result) × IsFaithful c client led.resolver
      → ((shared c flight r led).result ≡ result)
        × IsFaithful c client (shared c flight r led).resolver
  unfolding shared
  shared_lem none result r led agree h l = l
  shared_lem (some other) result r led agree h l = (sym (agree other refl), h)

  -- `Resolve` answers with what the server says, under the failure policy, whether the answer comes
  -- from the cache, from a call in flight or from a request of its own, and the cache stays
  -- faithful. It supposes that the server ignores the order of roles, that the cache and the call
  -- in flight are faithful to it, and that the key says what it was made from.
  pub resolve_lem :
      (flight : Bytes → Option (Result Error (List Bytes))) (now : ℕ) (r : HttpResolver c.State)
      (client_id : Bytes) (roles : List Bytes)
      → FlightIsFaithful c client flight
      → IsFaithful c client r
      → IsKeyed client_id roles
      → ((resolve c client flight now r client_id roles).result
          ≡ by_policy r.fail_open (client client_id roles))
        × IsFaithful c client (resolve c client flight now r client_id roles).resolver
  unfolding resolve
  resolve_lem flight now r client_id [] hf h k = absurd (k.some_role refl)
  resolve_lem flight now r client_id (x ∷ xs) hf h k =
      let key = cache_key client_id (x ∷ xs) in
      elim (Option-cases (c.get now key r.cache)) [
        | inl e ↦
            rw (nonzero (x ∷ xs) (λ p. cc), e)
              let (same, kept) =
                  shared_lem (flight key) (client client_id (x ∷ xs)) r _
                    (λ other f. hf.at client_id (x ∷ xs) other k f) h
                    (fetched_lem (client client_id (x ∷ xs)) now r client_id (x ∷ xs) refl k h) in
                (
                  ap (settle r.fail_open) same
                      ∙ settle-by_policy r.fail_open (client client_id (x ∷ xs)),
                  kept,
                )
        | inr (v, e) ↦
            rw (nonzero (x ∷ xs) (λ p. cc), e, h.at now client_id (x ∷ xs) v k e)
              (unfold by_policy in refl, h)
      ]

module _ (c : Cache (List Bytes)) (client : ResolveClient) where
  miss_requests :
      (flight : Bytes → Option (Result Error (List Bytes))) (now : ℕ) (r : HttpResolver c.State)
      (client_id : Bytes) (roles : List Bytes)
      → roles ≢ []
      → flight (cache_key client_id roles) ≡ none
      → c.get now (cache_key client_id roles) r.cache ≡ none
      → (resolve c client flight now r client_id roles).requests ≡ (client_id, roles) ∷ []
  unfolding resolve
  miss_requests flight now r client_id roles n f e =
      rw (nonzero roles n, e, f) (fetched_requests (client client_id roles))
    where
      fetched_requests :
          (result : Result Error (List Bytes))
          → (fetched c result now r (cache_key client_id roles) client_id roles).requests
            ≡ (client_id, roles) ∷ []
      fetched_requests (ok perms) = refl
      fetched_requests (err er) = refl

  -- After `Invalidate`, and no other call for the key since, `Resolve` asks the server again for the
  -- client and the roles, in whatever order they are given.
  pub resolve-invalidate :
      (flight : Bytes → Option (Result Error (List Bytes))) (now : ℕ) (r : HttpResolver c.State)
      (client_id : Bytes) (roles given : List Bytes)
      → roles ≢ []
      → Permᴰ roles given
      → flight (cache_key client_id roles) ≡ none
      → (resolve c client flight now (invalidate c r client_id given) client_id roles).requests
        ≡ (client_id, roles) ∷ []
  unfolding invalidate
  resolve-invalidate flight now r client_id roles given n p f =
      miss_requests flight now _ client_id roles n f
        (rw (cache_key_perm client_id p) (c.get_del now (cache_key client_id given) r.cache))

  -- After `Clear`, and no call in flight, `Resolve` asks the server for every client and roles.
  pub resolve-clear :
      (flight : Bytes → Option (Result Error (List Bytes))) (now : ℕ) (r : HttpResolver c.State)
      (client_id : Bytes) (roles : List Bytes)
      → roles ≢ []
      → flight (cache_key client_id roles) ≡ none
      → (resolve c client flight now (clear c r) client_id roles).requests ≡ (client_id, roles) ∷ []
  unfolding clear
  resolve-clear flight now r client_id roles n f =
      miss_requests flight now _ client_id roles n f
        (c.get_clear now (cache_key client_id roles) r.cache)

  -- Where the cache holds the permissions of two roles, a caller with the one role that is named by
  -- the two with a comma between them is given these permissions, and the server is not asked.
  pub resolve_collision :
      (flight : Bytes → Option (Result Error (List Bytes))) (now : ℕ) (r : HttpResolver c.State)
      (client_id a b : Bytes) (perms : List Bytes)
      → str_lt b a ≡ false
      → c.get now (cache_key client_id (a ∷ b ∷ [])) r.cache ≡ some perms
      → resolve c client flight now r client_id ((a ++ (bytes "," ++ b)) ∷ [])
        ≡ record { result = ok perms; resolver = r; requests = [] }
  unfolding resolve
  resolve_collision flight now r client_id a b perms h e =
      rw (cache_key_collision client_id a b h, e)
