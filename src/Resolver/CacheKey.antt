-- ===== src/Resolver/CacheKey.antt =====
-- `cacheKey`: which client and role lists share an entry of the cache.
use mathlib.Core.List.{Permᴰ}
use mathlib.Core.List.Permᴰ
use vertex_sdk_go.Prelude.{
  ℕ, ◌≡◌, ◌≢◌, refl, ap, ◌∙◌, ◌↔◌, List, [], ◌∷◌, ◌++◌, arith, length, All, false, append-nil,
  append_cancel,
}
use vertex_sdk_go.Prelude.Sort.{All-perm}
use vertex_sdk_go.Prelude.Strings.{
  Bytes, bytes, str_lt, sort_strings, sort_strings-perm, sort_strings-eq_of_perm,
}
use vertex_sdk_go.Resolver.{cache_key, write_roles, write_rest}

-- The text does not hold the byte.
abbrev pub Plain : ℕ → Bytes → Type 0
Plain c = All (λ b. b ≢ c)

-- The text is empty or begins with the byte.
abbrev Stops : ℕ → Bytes → Type 0
Stops c [] = Unit
Stops c (b ∷ s) = b ≡ c

-- Two texts with the same separator are split by it in one way.
Plain-split :
    (c : ℕ) (a b x y : Bytes)
    → Plain c a
    → Plain c b
    → Stops c x
    → Stops c y
    → a ++ x ≡ b ++ y
    → (a ≡ b) × (x ≡ y)
Plain-split c [] [] x y ha hb hx hy e = (refl, e)
Plain-split c [] (d ∷ b) [] y ha hb hx hy e = cc
Plain-split c [] (d ∷ b) (z ∷ x) y ha hb hx hy e = ground arith
Plain-split c (d ∷ a) [] x [] ha hb hx hy e = cc
Plain-split c (d ∷ a) [] x (z ∷ y) ha hb hx hy e = ground arith
Plain-split c (d ∷ a) (d' ∷ b) x y (p, ha) (q, hb) hx hy e =
    let (f, g) = Plain-split c a b x y ha hb hx hy (cc) in (cc, g)

write_rest-Stops : (rs : List Bytes) → Stops b',' (write_rest rs)
unfolding write_rest
write_rest-Stops [] = tt
write_rest-Stops (r ∷ rs) = refl

write_rest-injective :
    (xs ys : List Bytes)
    → All (Plain b',') xs
    → All (Plain b',') ys
    → write_rest xs ≡ write_rest ys
    → xs ≡ ys
unfolding write_rest
write_rest-injective [] [] hx hy e = refl
write_rest-injective [] (y ∷ ys) hx hy e = cc
write_rest-injective (x ∷ xs) [] hx hy e = cc
write_rest-injective (x ∷ xs) (y ∷ ys) (p, hx) (q, hy) e =
    let (f, g) =
      Plain-split b',' x y _ _ p q (write_rest-Stops xs) (write_rest-Stops ys)
        (append_cancel (bytes ",") e) in
    cc (f, write_rest-injective xs ys hx hy g)

write_roles-injective :
    (xs ys : List Bytes)
    → xs ≢ []
    → ys ≢ []
    → All (Plain b',') xs
    → All (Plain b',') ys
    → write_roles xs ≡ write_roles ys
    → xs ≡ ys
unfolding write_roles
write_roles-injective [] ys nx ny hx hy e = absurd (nx refl)
write_roles-injective (x ∷ xs) [] nx ny hx hy e = absurd (ny refl)
write_roles-injective (x ∷ xs) (y ∷ ys) nx ny (p, hx) (q, hy) e =
    let (f, g) = Plain-split b',' x y _ _ p q (write_rest-Stops xs) (write_rest-Stops ys) e in
    cc (f, write_rest-injective xs ys hx hy g)

perm-nil : {xs ys : List Bytes} → Permᴰ xs ys → length xs ≡ length ys
perm-nil Permᴰ.nil = refl
perm-nil (Permᴰ.cons e p) = omega (arith, perm-nil p)
perm-nil (Permᴰ.swap e f) = refl
perm-nil (Permᴰ.trans p q) = perm-nil p ∙ perm-nil q

-- A client ID and roles for which the key says what it was made from.
pub record IsKeyed (client_id : Bytes) (roles : List Bytes) : Type 0 where
  pub some_role : roles ≢ []
  pub client_plain : Plain b'|' client_id
  pub roles_plain : All (Plain b',') roles

sorted-nonempty : (xs : List Bytes) → xs ≢ [] → sort_strings xs ≢ []
sorted-nonempty [] h e = h refl
sorted-nonempty (x ∷ xs) h e = ground (arith, perm-nil (sort_strings-perm (x ∷ xs)), ap length e)

cache_key_parts :
    (c d : Bytes) (rs ss : List Bytes)
    → IsKeyed c rs
    → IsKeyed d ss
    → cache_key c rs ≡ cache_key d ss
    → (c ≡ d) × (sort_strings rs ≡ sort_strings ss)
unfolding cache_key
cache_key_parts c d rs ss h k e =
    let (f, g) = Plain-split b'|' c d _ _ h.client_plain k.client_plain refl refl e in
    (
      f,
      write_roles-injective _ _ (sorted-nonempty rs h.some_role) (sorted-nonempty ss k.some_role)
          (All-perm _ (Permᴰ.symm (sort_strings-perm rs)) h.roles_plain)
          (All-perm _ (Permᴰ.symm (sort_strings-perm ss)) k.roles_plain)
          (append_cancel (bytes "|") g),
    )

-- The order of the roles does not show in the key.
pub cache_key_perm :
    (c : Bytes) {rs ss : List Bytes} → Permᴰ rs ss → cache_key c rs ≡ cache_key c ss
unfolding cache_key
cache_key_perm c p = rw (sort_strings-eq_of_perm p)

-- For client IDs without '|' and roles without ',', at least one on each side, two requests have
-- the same cache key exactly if the client is the same and the roles are the same in some order.
pub cache_key_iff :
    (c d : Bytes) (rs ss : List Bytes)
    → IsKeyed c rs
    → IsKeyed d ss
    → (cache_key c rs ≡ cache_key d ss) ↔ ((c ≡ d) × Permᴰ rs ss)
cache_key_iff c d rs ss h k = (
  λ e.
      let (f, g) = cache_key_parts c d rs ss h k e in
      (f, Permᴰ.trans (Permᴰ.symm (sort_strings-perm rs)) (rw g (sort_strings-perm ss))),
  λ (e, p). rw e (cache_key_perm d p),
)

-- A role whose name holds a comma has the key of the two roles that the comma separates.
pub cache_key_collision :
    (c a b : Bytes)
    → str_lt b a ≡ false
    → cache_key c ((a ++ (bytes "," ++ b)) ∷ []) ≡ cache_key c (a ∷ b ∷ [])
unfolding cache_key write_roles write_rest sort_strings
cache_key_collision c a b h = simp (h, append-nil)
