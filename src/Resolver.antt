-- ===== src/Resolver.antt =====
-- authz/resolver.go and authz/http_resolver.go: role names to permissions, through a cache and one
-- shared request for each key. The proofs are in the modules below.
pub mod CacheKey
pub mod Behaviour
pub mod Runs
mod Tests
use vertex_sdk_go.Prelude.{
  ℕ, ◌*◌, Bool, true, false, List, [], ◌∷◌, ◌++◌, Option, none, some, Result, ok, err, length, ◌==◌,
  if◌then◌else◌,
}
use vertex_sdk_go.Prelude.Int.{ℤ, positive_or}
use vertex_sdk_go.Prelude.Strings.{Bytes, bytes, sort_strings}
use vertex_sdk_go.Cache.{Cache}

-- An error is its message.
abbrev pub Error : Type 0
Error = Bytes

-- `ResolveClient.ResolvePermissions`, the answer of the IAM server at the time of the call. A
-- `Resolver`, such as a `ResolverFunc`, has the same type.
abbrev pub ResolveClient : Type 0
ResolveClient = Bytes → List Bytes → Result Error (List Bytes)

-- The rest of the loop of `cacheKey`: from the second role on, a comma stands before the role.
write_rest : List Bytes → Bytes
write_rest [] = []
write_rest (r ∷ rs) = bytes "," ++ (r ++ write_rest rs)

write_roles : List Bytes → Bytes
write_roles [] = []
write_roles (r ∷ rs) = r ++ write_rest rs

pub cache_key : Bytes → List Bytes → Bytes
cache_key client_id roles = client_id ++ (bytes "|" ++ write_roles (sort_strings roles))

pub record HttpResolverOptions : Type 0 where
  pub ttl : ℤ
  pub max_entries : ℤ
  pub fail_open : Bool

-- `HttpResolver`; `S` is the state of the cache. The client is an argument of `resolve`.
pub record HttpResolver (S : Type 0) : Type 0 where
  pub cache : S
  pub ttl : ℕ
  pub fail_open : Bool
  pub cache_max : ℕ

-- The configuration that ristretto is given.
pub record CacheConfig : Type 0 where
  pub num_counters : ℕ
  pub max_cost : ℕ
  pub buffer_items : ℕ

-- What `Resolve` gives back, the resolver after it, and the requests that it sent itself.
pub record Resolved (S : Type 0) : Type 0 where
  pub result : Result Error (List Bytes)
  pub resolver : HttpResolver S
  pub requests : List (Bytes × List Bytes)

abbrev five_minutes : ℕ
five_minutes = 300_000_000_000

-- An error of the request, under the failure policy.
pub settle : Bool → Result Error (List Bytes) → Result Error (List Bytes)
settle fail_open (ok perms) = ok perms
settle fail_open (err e) = if fail_open then ok [] else err e

module _ (c : Cache (List Bytes)) where
  -- `NewHttpResolver`; `client` says whether a client was given, `new_cache` is ristretto's.
  pub new_http_resolver :
      (CacheConfig → Result Error c.State)
      → Bool
      → HttpResolverOptions
      → Result Error (HttpResolver c.State)
  new_http_resolver new_cache false opts = err (bytes "authz: nil resolve client")
  new_http_resolver new_cache true opts =
      let ttl = positive_or five_minutes opts.ttl in
      let max = positive_or 10_000 opts.max_entries in
      elim (new_cache (record { num_counters = max * 10; max_cost = max; buffer_items = 64 })) [
        | err e ↦ err e
        | ok cache ↦
            ok (record { cache = cache; ttl = ttl; fail_open = opts.fail_open; cache_max = max })
      ]

  -- What the function that `Resolve` hands to `singleflight.Group.Do` makes of the server's answer.
  fetched :
      Result Error (List Bytes)
      → ℕ
      → HttpResolver c.State
      → Bytes
      → Bytes
      → List Bytes
      → Resolved c.State
  fetched (err e) now r key client_id roles = record {
    result = err e;
    resolver = r;
    requests = (client_id, roles) ∷ [];
  }
  fetched (ok perms) now r key client_id roles = record {
    result = ok perms;
    resolver = record r { cache = c.set_with_ttl now r.ttl key perms r.cache };
    requests = (client_id, roles) ∷ [];
  }

  -- `singleflight.Group.Do`: a call that is in flight for the key shares its result.
  shared :
      Option (Result Error (List Bytes))
      → HttpResolver c.State
      → Resolved c.State
      → Resolved c.State
  shared none r led = led
  shared (some result) r led = record { result = result; resolver = r; requests = [] }

  -- `Resolve`; `flight` is the result of the call that is in flight for a key, if there is one.
  pub resolve :
      ResolveClient
      → (Bytes → Option (Result Error (List Bytes)))
      → ℕ
      → HttpResolver c.State
      → Bytes
      → List Bytes
      → Resolved c.State
  unfolding fetched shared
  resolve client flight now r client_id roles =
      if length roles == 0
      then record { result = ok []; resolver = r; requests = [] }
      else let key = cache_key client_id roles in
        elim (c.get now key r.cache) [
          | some v ↦ record { result = ok v; resolver = r; requests = [] }
          | none ↦
              let s =
                shared (flight key) r
                  (fetched (client client_id roles) now r key client_id roles) in
              record s { result = settle r.fail_open s.result }
        ]

  pub invalidate : HttpResolver c.State → Bytes → List Bytes → HttpResolver c.State
  invalidate r client_id roles = record r { cache = c.del (cache_key client_id roles) r.cache }

  pub clear : HttpResolver c.State → HttpResolver c.State
  clear r = record r { cache = c.clear r.cache }
