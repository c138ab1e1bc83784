-- ===== src/Prelude/Results.antt =====
-- Go's `(value, error)` results: a value, or the error alone.
use mathlib.Core.Path.{◌≡◌, refl}
use mathlib.Core.Logic.{◌⊎◌, inl, inr}
use mathlib.Core.Bool.{Bool, true, false}
use mathlib.Core.Option.{Option, none, some}

-- The error comes first, as in the types of the steps below.
pub data Result {ε ℓ} (E : Type ε) (A : Type ℓ) : Type (ε ⊔ ℓ) where
  err : E → Result E A
  ok : A → Result E A

-- `if err != nil { return err }` behind a call
infixl 5 ◌>>=◌
abbrev pub ◌>>=◌ {ε ℓ κ} :
    {E : Type ε} {A : Type ℓ} {B : Type κ} → Result E A → (A → Result E B) → Result E B
err failure >>= next = err failure
ok value >>= next = next value

-- the same for a call that returns an error alone
infixl 5 ◌>>◌
abbrev pub ◌>>◌ {ε κ} : {E : Type ε} {B : Type κ} → Result E (Unit {0}) → Result E B → Result E B
first >> next = first >>= (λ done. next)

-- `if test { return failure }`
abbrev pub reject {ε} : {E : Type ε} → Bool → E → Result E (Unit {0})
reject true failure = err failure
reject false failure = ok tt

-- `if !found { return failure }` behind `value, found := ...`
abbrev pub or_error {ε ℓ} : {E : Type ε} {A : Type ℓ} → Option A → E → Result E A
or_error none failure = err failure
or_error (some value) failure = ok value

pub reject-ok {ε} :
    {E : Type ε} (test : Bool) (failure : E) → reject test failure ≡ ok tt → test ≡ false
reject-ok true failure h = cc
reject-ok false failure h = refl

pub or_error-ok {ε ℓ} :
    {E : Type ε} {A : Type ℓ} (o : Option A) (failure : E) (a : A)
    → or_error o failure ≡ ok a
    → o ≡ some a
or_error-ok none failure a h = cc
or_error-ok (some b) failure a h = cc

-- A chain ends well only if its first call did, and what follows it.
pub >>=-eq-ok {ε ℓ κ} :
    {E : Type ε} {A : Type ℓ} {B : Type κ} (call : Result E A) (next : A → Result E B) {end : B}
    → (call >>= next) ≡ ok end
    → (value : A) × (call ≡ ok value) × (next value ≡ ok end)
>>=-eq-ok (err failure) next ends = cc
>>=-eq-ok (ok value) next ends = (value, refl, ends)

pub Result-cases {ℓ κ} :
    {E : Type ℓ} {A : Type κ} (m : Result E A) → ((a : A) × (m ≡ ok a)) ⊎ ((e : E) × (m ≡ err e))
Result-cases (ok a) = inl (a, refl)
Result-cases (err e) = inr (e, refl)
