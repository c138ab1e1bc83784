-- ===== src/Cache.antt =====
-- The cache of github.com/dgraph-io/ristretto as the SDK relies on it. It is not part of the
-- repository, so it is an interface: a cache may forget an entry at any time, by its limit or by
-- the entry's lifetime, but it never answers with a value that was not stored under the key since
-- the key was last deleted.
pub mod Samples
use vertex_sdk_go.Prelude.{ℕ, ◌≡◌, ◌⊎◌, Option, none, some}
use vertex_sdk_go.Prelude.Strings.{Bytes}

-- Times and lifetimes are in nanoseconds.
pub record Cache (V : Type 0) : Type 1 where
  pub State : Type 0
  pub get : ℕ → Bytes → State → Option V
  pub set_with_ttl : ℕ → ℕ → Bytes → V → State → State
  pub del : Bytes → State → State
  pub clear : State → State
  pub get_set :
      (now at ttl : ℕ) (k j : Bytes) (v w : V) (s : State)
      → get now j (set_with_ttl at ttl k v s) ≡ some w
      → ((j ≡ k) × (w ≡ v)) ⊎ (get now j s ≡ some w)
  pub get_del : (now : ℕ) (k : Bytes) (s : State) → get now k (del k s) ≡ none
  pub get_del_other :
      (now : ℕ) (k j : Bytes) (w : V) (s : State)
      → get now j (del k s) ≡ some w
      → get now j s ≡ some w
  pub get_clear : (now : ℕ) (k : Bytes) (s : State) → get now k (clear s) ≡ none
