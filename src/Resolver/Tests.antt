-- ===== src/Resolver/Tests.antt =====
-- The resolver at concrete inputs, with a cache that forgets nothing, and the theorems applied.
use mathlib.Core.List.{Permᴰ}
use vertex_sdk_go.Prelude.{
  ◌≡◌, refl, ◌↔◌, false, List, [], ◌∷◌, Option, none, some, Result, ok, All, arith,
}
use vertex_sdk_go.Prelude.Sort.{sort, insert}
use vertex_sdk_go.Prelude.Strings.{Bytes, bytes, str_eq, str_lt, sort_strings}
use vertex_sdk_go.Cache.Samples.{Table, table_cache}
use vertex_sdk_go.Resolver.{
  Error, ResolveClient, cache_key, write_roles, write_rest, HttpResolver, settle, resolve,
}
use vertex_sdk_go.Resolver.CacheKey.{IsKeyed, cache_key_iff}
use vertex_sdk_go.Resolver.Runs.{
  Operation, resolving, invalidating, clearing, asked, answers, uncached, IsPlain, answers-uncached,
}
use vertex_sdk_go.Resolver.Behaviour.{
  IgnoresOrder, IsFaithful, FlightIsFaithful, by_policy, resolve_lem, resolve_collision,
}

-- A server that gives every caller the same permission.
abbrev server : ResolveClient
server client_id roles = ok (bytes "posts:read" ∷ [])

abbrev idle : Bytes → Option (Result Error (List Bytes))
idle key = none

abbrev fresh : HttpResolver (Table (List Bytes))
fresh = record { cache = λ k. none; ttl = 1_000; fail_open = false; cache_max = 10 }

abbrev roles : List Bytes
roles = bytes "b" ∷ bytes "a" ∷ []

keyed : IsKeyed (bytes "app") roles
keyed = record { some_role = λ e. cc; client_plain = omega arith; roles_plain = omega arith }

-- The roles are sorted in the key.
key_test : cache_key (bytes "app") roles ≡ bytes "app|a,b"
unfolding cache_key write_roles write_rest sort_strings sort insert str_lt
key_test = refl

-- A second call is answered from the cache.
second_call :
    (resolve
      (table_cache (List Bytes))
      server
      idle
      0
      (resolve (table_cache (List Bytes)) server idle 0 fresh (bytes "app") roles).resolver
      (bytes "app")
      roles).requests
    ≡ []
unfolding resolve settle cache_key write_roles write_rest sort_strings sort insert str_lt str_eq
second_call = refl

cache_key_iff_example :
    (cache_key (bytes "app") roles ≡ cache_key (bytes "app") roles)
    ↔ ((bytes "app" ≡ bytes "app") × Permᴰ roles roles)
cache_key_iff_example = cache_key_iff (bytes "app") (bytes "app") roles roles keyed keyed

b_not_below_a : str_lt (bytes "b") (bytes "a") ≡ false
unfolding str_lt
b_not_below_a = refl

server-IgnoresOrder : IgnoresOrder server
server-IgnoresOrder c rs ss p = refl

fresh-IsFaithful : IsFaithful (table_cache (List Bytes)) server fresh
fresh-IsFaithful = record { at = λ now c rs perms k h. cc }

idle-IsFaithful : FlightIsFaithful (table_cache (List Bytes)) server idle
idle-IsFaithful = record { at = λ c rs result k h. cc }

resolve_lem_example :
    ((resolve (table_cache (List Bytes)) server idle 5 fresh (bytes "app") roles).result
      ≡ by_policy false (ok (bytes "posts:read" ∷ [])))
    × IsFaithful
        (table_cache (List Bytes))
        server
        (resolve (table_cache (List Bytes)) server idle 5 fresh (bytes "app") roles).resolver
resolve_lem_example =
    resolve_lem (table_cache (List Bytes)) server server-IgnoresOrder idle 5 fresh (bytes "app")
      roles idle-IsFaithful fresh-IsFaithful keyed

-- The cache after a call for the roles "a" and "b".
abbrev warm : HttpResolver (Table (List Bytes))
warm = record fresh { cache = λ k. some (bytes "posts:read" ∷ []) }

resolve_collision_example :
    resolve (table_cache (List Bytes)) server idle 5 warm (bytes "app") (bytes "a,b" ∷ [])
    ≡ record { result = ok (bytes "posts:read" ∷ []); resolver = warm; requests = [] }
resolve_collision_example =
    resolve_collision (table_cache (List Bytes)) server idle 5 warm (bytes "app") (bytes "a")
      (bytes "b") (bytes "posts:read" ∷ []) b_not_below_a refl

-- A call of `Resolve`, the same from the cache, one for no role, and one after the cache was cleared.
abbrev calls : List Operation
calls =
    resolving idle 0 (bytes "app") roles
    ∷ resolving idle 1 (bytes "app") roles
    ∷ invalidating (bytes "app") roles
    ∷ resolving idle 2 (bytes "app") []
    ∷ clearing
    ∷ resolving idle 3 (bytes "app") roles
    ∷ []

uncached_test :
    uncached server false calls
    ≡ ok (bytes "posts:read" ∷ [])
      ∷ ok (bytes "posts:read" ∷ [])
      ∷ ok []
      ∷ ok (bytes "posts:read" ∷ [])
      ∷ []
unfolding uncached asked by_policy
uncached_test = refl

calls-IsPlain : All (IsPlain (table_cache (List Bytes)) server) calls
unfolding IsPlain
calls-IsPlain =
    let asks : IsPlain (table_cache (List Bytes)) server (resolving idle 0 (bytes "app") roles) =
      (idle-IsFaithful, λ n. keyed) in
    let asks_none : IsPlain (table_cache (List Bytes)) server (resolving idle 2 (bytes "app") []) =
      (idle-IsFaithful, λ n. absurd (n refl)) in
    (asks, (asks, (tt, (asks_none, (tt, (asks, tt))))))

answers-uncached_example :
    answers (table_cache (List Bytes)) server fresh calls ≡ uncached server false calls
answers-uncached_example =
    answers-uncached (table_cache (List Bytes)) server server-IgnoresOrder calls fresh
      (λ now key. refl) calls-IsPlain
