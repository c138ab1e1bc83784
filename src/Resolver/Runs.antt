-- ===== src/Resolver/Runs.antt =====
-- Any sequence of calls of `Resolve`, `Invalidate` and `Clear` on one resolver, against a resolver
-- that has no cache.
use vertex_sdk_go.Prelude.{
  ℕ, ◌≡◌, ◌≢◌, refl, Bool, List, [], ◌∷◌, Option, none, Result, ok, All, arith,
}
use vertex_sdk_go.Prelude.Strings.{Bytes}
use vertex_sdk_go.Cache.{Cache}
use vertex_sdk_go.Resolver.{
  Error, ResolveClient, cache_key, HttpResolver, fetched, shared, resolve, invalidate, clear,
}
use vertex_sdk_go.Resolver.CacheKey.{IsKeyed}
use vertex_sdk_go.Resolver.Behaviour.{
  IgnoresOrder, IsFaithful, FlightIsFaithful, by_policy, resolve_lem,
}

-- A call of a method of `HttpResolver`, with what it finds: the calls in flight and the time.
pub data Operation : Type 0 where
  resolving : (Bytes → Option (Result Error (List Bytes))) → ℕ → Bytes → List Bytes → Operation
  invalidating : Bytes → List Bytes → Operation
  clearing : Operation

-- The server's answer under the failure policy, and no permissions for no roles.
unfoldable pub asked : ResolveClient → Bool → Bytes → List Bytes → Result Error (List Bytes)
asked client fail_open client_id [] = ok []
asked client fail_open client_id (r ∷ rs) = by_policy fail_open (client client_id (r ∷ rs))

-- What the calls of `Resolve` answer where there is no cache.
unfoldable pub uncached : ResolveClient → Bool → List Operation → List (Result Error (List Bytes))
uncached client fail_open [] = []
uncached client fail_open (resolving flight now client_id roles ∷ os) =
    asked client fail_open client_id roles ∷ uncached client fail_open os
uncached client fail_open (invalidating client_id roles ∷ os) = uncached client fail_open os
uncached client fail_open (clearing ∷ os) = uncached client fail_open os

module _ (c : Cache (List Bytes)) (client : ResolveClient) where
  -- What the calls of `Resolve` answer, each on the resolver that the calls before it leave.
  pub answers : HttpResolver c.State → List Operation → List (Result Error (List Bytes))
  answers r [] = []
  answers r (resolving flight now client_id roles ∷ os) =
      let s = resolve c client flight now r client_id roles in s.result ∷ answers s.resolver os
  answers r (invalidating client_id roles ∷ os) = answers (invalidate c r client_id roles) os
  answers r (clearing ∷ os) = answers (clear c r) os

  -- A call of `Resolve` is for no role or has a key that says what it was made from, and what it
  -- finds in flight is of the same server.
  unfoldable pub IsPlain : Operation → Type 0
  IsPlain (resolving flight now client_id roles) =
      FlightIsFaithful c client flight × (roles ≢ [] → IsKeyed client_id roles)
  IsPlain (invalidating client_id roles) = Unit
  IsPlain clearing = Unit

  resolve-fail_open :
      (flight : Bytes → Option (Result Error (List Bytes))) (now : ℕ) (r : HttpResolver c.State)
      (client_id : Bytes) (roles : List Bytes)
      → (resolve c client flight now r client_id roles).resolver.fail_open ≡ r.fail_open
  unfolding resolve shared fetched
  resolve-fail_open flight now r client_id roles = ground arith

  invalidate-IsFaithful :
      (r : HttpResolver c.State) (client_id : Bytes) (roles : List Bytes)
      → IsFaithful c client r
      → IsFaithful c client (invalidate c r client_id roles)
  unfolding invalidate
  invalidate-IsFaithful r client_id roles h = record {
    at = λ now d ss w k got.
        h.at now d ss w k
          (c.get_del_other now (cache_key client_id roles) (cache_key d ss) w r.cache got);
  }

  clear-IsFaithful : (r : HttpResolver c.State) → IsFaithful c client (clear c r)
  unfolding clear
  clear-IsFaithful r = record {
    at = λ now d ss w k got. let none_left = c.get_clear now (cache_key d ss) r.cache in cc;
  }

module _ (c : Cache (List Bytes)) (client : ResolveClient)
    (ignores_order : IgnoresOrder client) where
  resolve-uncached :
      (flight : Bytes → Option (Result Error (List Bytes))) (now : ℕ) (r : HttpResolver c.State)
      (client_id : Bytes) (roles : List Bytes)
      → IsPlain c client (resolving flight now client_id roles)
      → IsFaithful c client r
      → ((resolve c client flight now r client_id roles).result
          ≡ asked client r.fail_open client_id roles)
        × IsFaithful c client (resolve c client flight now r client_id roles).resolver
  unfolding IsPlain asked
  resolve-uncached flight now r client_id [] (hf, k) h =
      (unfold resolve in refl, unfold resolve in h)
  resolve-uncached flight now r client_id (x ∷ xs) (hf, k) h =
      resolve_lem c client ignores_order flight now r client_id (x ∷ xs) hf h (k (λ e. cc))

  run-uncached :
      (os : List Operation) (r : HttpResolver c.State)
      → IsFaithful c client r
      → All (IsPlain c client) os
      → answers c client r os ≡ uncached client r.fail_open os
  unfolding answers uncached invalidate clear
  run-uncached [] r h ps = refl
  run-uncached (resolving flight now client_id roles ∷ os) r h (p, ps) =
      let (same, kept) = resolve-uncached flight now r client_id roles p h in
      rw (same, run-uncached os _ kept ps, resolve-fail_open c client flight now r client_id roles)
        refl
  run-uncached (invalidating client_id roles ∷ os) r h (p, ps) =
      run-uncached os _ (invalidate-IsFaithful c client r client_id roles h) ps
  run-uncached (clearing ∷ os) r h (p, ps) = run-uncached os _ (clear-IsFaithful c client r) ps

  -- From an empty cache, any sequence of calls of `Resolve`, `Invalidate` and `Clear` answers as if
  -- there were no cache: each `Resolve` gives no permissions for no roles, and otherwise what the
  -- server says, under the failure policy. It supposes that the server answers the same at all
  -- times and ignores the order of roles, that a call in flight is one of the same server, and that
  -- the key of every `Resolve` with roles says what it was made from.
  pub answers-uncached :
      (os : List Operation) (r : HttpResolver c.State)
      → ((now : ℕ) (key : Bytes) → c.get now key r.cache ≡ none)
      → All (IsPlain c client) os
      → answers c client r os ≡ uncached client r.fail_open os
  answers-uncached os r empty =
      run-uncached os r
        (record { at = λ now d ss w k got. let gone = empty now (cache_key d ss) in cc })
