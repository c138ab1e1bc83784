-- ===== src/Prelude/Strings.antt =====
-- Go strings: sequences of bytes, each a number below 256, with the functions of the packages
-- `strings` and `sort` that the SDK calls.
use Prim.Native.Nat.{ℕ, suc, ◌+◌}
use Prim.Native.Char.{code}
use Prim.Native.String.{String}
use mathlib.Core.Path.{◌≡◌, refl}
use mathlib.Core.Logic.{◌↔◌, inl, inr}
use mathlib.Core.Bool.{Bool, true, false, ◌&&◌, ◌||◌}
use mathlib.Core.Option.{Option, none, some}
use mathlib.Core.List.{List, [], ◌∷◌, Permᴰ}
use native.Mathlib.Omega.{arith}
use vertex_sdk_go.Prelude.Tests.{Bool-cases, ◌==◌, ltb, leb, if◌then◌else◌}
use vertex_sdk_go.Prelude.Lists.{length, all, All}
use vertex_sdk_go.Prelude.Sort.{IsOrder, IsChain, Comparable, sort, sort-perm, sort-eq_of_perm}

abbrev pub Bytes : Type 0
Bytes = List ℕ

-- The bytes of an ASCII literal.
abbrev pub bytes : String → Bytes
bytes String.[] = []
bytes (String.◌∷◌ c s) = code c ∷ bytes s

-- `a == b`
unfoldable pub str_eq : Bytes → Bytes → Bool
str_eq [] [] = true
str_eq [] (_ ∷ _) = false
str_eq (_ ∷ _) [] = false
str_eq (a ∷ s) (b ∷ t) = a == b && str_eq s t

-- `a < b`, by bytes
unfoldable pub str_lt : Bytes → Bytes → Bool
str_lt [] [] = false
str_lt [] (_ ∷ _) = true
str_lt (_ ∷ _) [] = false
str_lt (a ∷ s) (b ∷ t) = ltb a b || a == b && str_lt s t

-- `strings.Count` for a separator of one byte
unfoldable pub count_byte : ℕ → Bytes → ℕ
count_byte c [] = 0
count_byte c (b ∷ s) = (if b == c then 1 else 0) + count_byte c s

abbrev next_index : Option ℕ → Option ℕ
next_index none = none
next_index (some i) = some (suc i)

-- `strings.Index` for a separator of one byte; `none` stands for -1
unfoldable pub index_byte : ℕ → Bytes → Option ℕ
index_byte c [] = none
index_byte c (b ∷ s) = if b == c then some 0 else next_index (index_byte c s)

-- A regular expression `^[class]{lo,hi}$` whose class holds ASCII characters alone.
unfoldable pub class_match : (ℕ → Bool) → ℕ → ℕ → Bytes → Bool
class_match class lo hi s = leb lo (length s) && leb (length s) hi && all class s

pub str_eq_iff : (s t : Bytes) → (str_eq s t ≡ true) ↔ (s ≡ t)
unfolding str_eq
str_eq_iff [] [] = (λ _. refl, λ _. refl)
str_eq_iff [] (b ∷ t) = (λ h. cc, λ h. cc)
str_eq_iff (a ∷ s) [] = (λ h. cc, λ h. cc)
str_eq_iff (a ∷ s) (b ∷ t) = ground (arith, str_eq_iff s t)

pub str_lt_irrefl : (s : Bytes) → str_lt s s ≡ false
unfolding str_lt
str_lt_irrefl [] = refl
str_lt_irrefl (a ∷ s) = ground (arith, str_lt_irrefl s)

pub str_lt_trans : (s t u : Bytes) → str_lt s t ≡ true → str_lt t u ≡ true → str_lt s u ≡ true
unfolding str_lt
str_lt_trans [] [] u h k = cc
str_lt_trans [] (b ∷ t) [] h k = cc
str_lt_trans [] (b ∷ t) (c ∷ u) h k = refl
str_lt_trans (a ∷ s) [] u h k = cc
str_lt_trans (a ∷ s) (b ∷ t) [] h k = cc
str_lt_trans (a ∷ s) (b ∷ t) (c ∷ u) h k = ground (arith, str_lt_trans s t u)

-- Of two texts that are not in order, the other order holds or they are equal.
pub str_lt_total : (s t : Bytes) → str_lt s t ≡ false → str_lt t s ≡ false → s ≡ t
unfolding str_lt
str_lt_total [] [] h k = refl
str_lt_total [] (b ∷ t) h k = cc
str_lt_total (a ∷ s) [] h k = cc
str_lt_total (a ∷ s) (b ∷ t) h k = ground (arith, str_lt_total s t)

str_lt_asym : (s t : Bytes) → str_lt s t ≡ true → str_lt t s ≡ false
unfolding str_lt
str_lt_asym [] [] h = cc
str_lt_asym [] (b ∷ t) h = refl
str_lt_asym (a ∷ s) [] h = cc
str_lt_asym (a ∷ s) (b ∷ t) h = ground (arith, str_lt_asym s t)

str_lt-nil : (s : Bytes) → str_lt s [] ≡ false
unfolding str_lt
str_lt-nil [] = refl
str_lt-nil (a ∷ s) = refl

str_lt_neg_trans : (s t u : Bytes) → str_lt s t ≡ false → str_lt t u ≡ false → str_lt s u ≡ false
unfolding str_lt
str_lt_neg_trans s t [] h k = str_lt-nil s
str_lt_neg_trans [] [] (c ∷ u) h k = k
str_lt_neg_trans (a ∷ s) [] (c ∷ u) h k = cc
str_lt_neg_trans [] (b ∷ t) (c ∷ u) h k = cc
str_lt_neg_trans (a ∷ s) (b ∷ t) (c ∷ u) h k = ground (arith, str_lt_neg_trans s t u)

pub str_lt-IsOrder : IsOrder str_lt
str_lt-IsOrder = record {
  asym = str_lt_asym;
  transitive = str_lt_trans;
  neg_transitive = str_lt_neg_trans;
}

pub str_lt-Comparable : (s t : Bytes) → Comparable str_lt s t
str_lt-Comparable s t = elim (Bool-cases (str_lt s t)) [
  | inl h ↦ inl h
  | inr h ↦ elim (Bool-cases (str_lt t s)) [
    | inl k ↦ inr (inl k)
    | inr k ↦ inr (inr (str_lt_total s t h k))
  ]
]

str_lt-Comparable-All : (s : Bytes) (ts : List Bytes) → All (Comparable str_lt s) ts
str_lt-Comparable-All s [] = tt
str_lt-Comparable-All s (t ∷ ts) = (str_lt-Comparable s t, str_lt-Comparable-All s ts)

str_lt-IsChain : (ts : List Bytes) → IsChain str_lt ts
str_lt-IsChain [] = tt
str_lt-IsChain (t ∷ ts) = (str_lt-Comparable-All t ts, str_lt-IsChain ts)

-- `sort.Strings`
unfoldable pub sort_strings : List Bytes → List Bytes
unfolding sort
sort_strings = sort str_lt

pub sort_strings-perm : (xs : List Bytes) → Permᴰ (sort_strings xs) xs
unfolding sort_strings
sort_strings-perm xs = sort-perm str_lt xs

pub sort_strings-eq_of_perm : {xs ys : List Bytes} → Permᴰ xs ys → sort_strings xs ≡ sort_strings ys
unfolding sort_strings
sort_strings-eq_of_perm {xs} p = sort-eq_of_perm str_lt str_lt-IsOrder p (str_lt-IsChain xs)
