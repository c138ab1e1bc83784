-- ===== src/Prelude/Sort.antt =====
-- Sorting by a Boolean order, as `sort.Strings` and `sort.Slice` do it. Insertion gives the sorted
-- list; the packages' own algorithm gives the same one wherever equal elements are the same.
use mathlib.Core.Path.{◌≡◌, refl, sym, ◌∙◌, subst, subst₂}
use mathlib.Core.Logic.{◌⊎◌, inl, inr}
use mathlib.Core.Bool.{Bool, true, false}
use mathlib.Core.List.{List, [], ◌∷◌, Permᴰ}
use mathlib.Core.List.Permᴰ
use native.Mathlib.Omega.{arith}
use vertex_sdk_go.Prelude.Tests.{if◌then◌else◌, Bool-cases}
use vertex_sdk_go.Prelude.Lists.{All}

module _ {ℓ} {A : Type ℓ} (lt : A → A → Bool) where
  unfoldable pub insert : A → List A → List A
  insert x [] = x ∷ []
  insert x (y ∷ ys) = if lt y x then y ∷ insert x ys else x ∷ y ∷ ys

  unfoldable pub sort : List A → List A
  unfolding insert
  sort [] = []
  sort (x ∷ xs) = insert x (sort xs)

  insert-perm : (x : A) (xs : List A) → Permᴰ (insert x xs) (x ∷ xs)
  unfolding insert
  insert-perm x [] = Permᴰ.refl _
  insert-perm x (y ∷ ys) = elim (Bool-cases (lt y x)) [
    | inl e ↦ rw e (Permᴰ.trans (Permᴰ.cons refl (insert-perm x ys)) (Permᴰ.swap refl refl))
    | inr e ↦ rw e (Permᴰ.refl _)
  ]

  pub sort-perm : (xs : List A) → Permᴰ (sort xs) xs
  unfolding sort
  sort-perm [] = Permᴰ.nil
  sort-perm (x ∷ xs) = Permᴰ.trans (insert-perm x (sort xs)) (Permᴰ.cons refl (sort-perm xs))

-- A strict weak order.
pub record IsOrder {ℓ} {A : Type ℓ} (lt : A → A → Bool) : Type ℓ where
  pub asym : (x y : A) → lt x y ≡ true → lt y x ≡ false
  pub transitive : (x y z : A) → lt x y ≡ true → lt y z ≡ true → lt x z ≡ true
  pub neg_transitive : (x y z : A) → lt x y ≡ false → lt y z ≡ false → lt x z ≡ false

-- The relation holds between each element and every later one.
abbrev pub AllPairs {ℓ κ} : {A : Type ℓ} → (A → A → Type κ) → List A → Type κ
AllPairs R [] = Unit
AllPairs R (x ∷ xs) = All (R x) xs × AllPairs R xs

-- No element is below one that stands before it.
abbrev pub IsSorted {ℓ} : {A : Type ℓ} → (A → A → Bool) → List A → Type 0
IsSorted lt = AllPairs (λ x y. lt y x ≡ false)

-- The order tells the two apart, or they are the same.
abbrev pub Comparable {ℓ} : {A : Type ℓ} → (A → A → Bool) → A → A → Type ℓ
Comparable lt x y = (lt x y ≡ true) ⊎ (lt y x ≡ true) ⊎ (x ≡ y)

-- Each two elements at different places are comparable.
abbrev pub IsChain {ℓ} : {A : Type ℓ} → (A → A → Bool) → List A → Type ℓ
IsChain lt = AllPairs (Comparable lt)

pub All-map {ℓ κ μ} :
    {A : Type ℓ} (P : A → Type κ) (Q : A → Type μ) (xs : List A)
    → ((x : A) → P x → Q x)
    → All P xs
    → All Q xs
All-map P Q [] f h = tt
All-map P Q (x ∷ xs) f (p, h) = (f x p, All-map P Q xs f h)

module _ {ℓ κ} {A : Type ℓ} (P : A → Type κ) where
  pub All-perm : {xs ys : List A} → Permᴰ xs ys → All P xs → All P ys
  All-perm Permᴰ.nil h = tt
  All-perm (Permᴰ.cons e p) (a, h) = (subst P e a, All-perm p h)
  All-perm (Permᴰ.swap e f) (a, (b, h)) = (subst P f b, (subst P e a, h))
  All-perm (Permᴰ.trans p q) h = All-perm q (All-perm p h)

module _ {ℓ κ μ} {A : Type ℓ} (R : A → A → Type κ) (S : A → A → Type μ) where
  pub AllPairs-map : (xs : List A) → ((x y : A) → R x y → S x y) → AllPairs R xs → AllPairs S xs
  AllPairs-map [] f h = tt
  AllPairs-map (x ∷ xs) f (h, hs) = (All-map (R x) (S x) xs (f x) h, AllPairs-map xs f hs)

module _ {ℓ κ} {A : Type ℓ} (R : A → A → Type κ) (symmetric : (x y : A) → R x y → R y x) where
  pub AllPairs-perm : {xs ys : List A} → Permᴰ xs ys → AllPairs R xs → AllPairs R ys
  AllPairs-perm Permᴰ.nil h = tt
  AllPairs-perm (Permᴰ.cons e p) (a, h) = rw (← e) (All-perm _ p a, AllPairs-perm p h)
  AllPairs-perm (Permᴰ.swap {l = l} e f) ((c, a), (b, h)) =
      subst₂ (λ u v. AllPairs R (u ∷ v ∷ l)) f e ((symmetric _ _ c, b), (a, h))
  AllPairs-perm (Permᴰ.trans p q) h = AllPairs-perm q (AllPairs-perm p h)

Comparable-symm {ℓ} :
    {A : Type ℓ} (lt : A → A → Bool) (x y : A) → Comparable lt x y → Comparable lt y x
Comparable-symm lt x y (inl h) = inr (inl h)
Comparable-symm lt x y (inr (inl h)) = inl h
Comparable-symm lt x y (inr (inr e)) = inr (inr (sym e))

module _ {ℓ} {A : Type ℓ} (lt : A → A → Bool) (o : IsOrder lt) where
  insert-IsSorted : (x : A) (xs : List A) → IsSorted lt xs → IsSorted lt (insert lt x xs)
  unfolding insert
  insert-IsSorted x [] h = (tt, tt)
  insert-IsSorted x (y ∷ ys) (below, h) = elim (Bool-cases (lt y x)) [
    | inl e ↦ rw e (
      All-perm _ (Permᴰ.symm (insert-perm lt x ys)) (o.asym y x e, below),
      insert-IsSorted x ys h,
    )
    | inr e ↦ rw e ((e, All-map _ _ ys (λ z n. o.neg_transitive z y x n e) below), (below, h))
  ]

  pub sort-IsSorted : (xs : List A) → IsSorted lt (sort lt xs)
  unfolding sort
  sort-IsSorted [] = tt
  sort-IsSorted (x ∷ xs) = insert-IsSorted x (sort lt xs) (sort-IsSorted xs)

  insert_comm_lt :
      (x y : A) (l : List A)
      → (lt x y ≡ true) ⊎ (lt y x ≡ true)
      → insert lt x (insert lt y l) ≡ insert lt y (insert lt x l)
  unfolding insert
  insert_comm_lt x y [] h = ground (arith, o.asym x y, o.asym y x)
  insert_comm_lt x y (z ∷ l) h = ground (
    arith,
    o.asym x y,
    o.asym y x,
    o.transitive z x y,
    o.transitive z y x,
    insert_comm_lt x y l h,
  )

  insert_comm :
      (x y : A) (l : List A)
      → Comparable lt x y
      → insert lt x (insert lt y l) ≡ insert lt y (insert lt x l)
  insert_comm x y l (inl h) = insert_comm_lt x y l (inl h)
  insert_comm x y l (inr (inl h)) = insert_comm_lt x y l (inr h)
  insert_comm x y l (inr (inr e)) = rw e

  -- Where equal places in the order mean equal elements, the sorted list forgets the given order.
  pub sort-eq_of_perm : {xs ys : List A} → Permᴰ xs ys → IsChain lt xs → sort lt xs ≡ sort lt ys
  unfolding sort
  sort-eq_of_perm Permᴰ.nil h = refl
  sort-eq_of_perm (Permᴰ.cons e p) (a, h) = cc (e, sort-eq_of_perm p h)
  sort-eq_of_perm (Permᴰ.swap {a = a} {b = b} {l = l} e f) ((c, _), _) =
      rw (← e, ← f) (insert_comm a b (sort lt l) c)
  sort-eq_of_perm (Permᴰ.trans p q) h =
      sort-eq_of_perm p h ∙ sort-eq_of_perm q (AllPairs-perm _ (Comparable-symm lt) p h)
