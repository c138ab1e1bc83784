-- ===== src/Json/Duplicates.antt =====
-- Which texts `rejectDuplicateJSONMembers` lets pass.
use vertex_sdk_go.Prelude.{
  ℕ, zero, suc, ◌+◌, ◌*◌, ◌≤◌, ◌≡◌, ◌≢◌, ◌↔◌, ◌∙◌, refl, sym, ap, inl, inr, Bool, true, false, List,
  [], ◌∷◌, ok, err, ◌>>=◌, >>=-eq-ok, length, All, Bool-cases, arith, if◌then◌else◌,
}
use vertex_sdk_go.Prelude.Sort.{AllPairs}
use vertex_sdk_go.Prelude.Strings.{Bytes, str_eq_iff}
use vertex_sdk_go.Json.{
  Token, open_object, open_array, close, other, text, Stream, duplicate_member, is_seen, walk,
  members, elements, at_end, reject_duplicates,
}

-- A JSON value; `atom` is a number, a truth value or null.
mutual
  pub data Json : Type 0 where
    atom : Json
    str : Bytes → Json
    arr : Items → Json
    obj : Fields → Json

  pub data Items : Type 0 where
    nil : Items
    cons : Json → Items → Items

  pub data Fields : Type 0 where
    end : Fields
    field : Bytes → Json → Fields → Fields

-- The tokens of a value, before others.
mutual
  pub print : Json → List Token → List Token
  print atom rest = other ∷ rest
  print (str s) rest = text s ∷ rest
  print (arr xs) rest = open_array ∷ print_items xs rest
  print (obj fs) rest = open_object ∷ print_fields fs rest

  print_items : Items → List Token → List Token
  print_items nil rest = close ∷ rest
  print_items (cons x xs) rest = print x (print_items xs rest)

  print_fields : Fields → List Token → List Token
  print_fields end rest = close ∷ rest
  print_fields (field k v fs) rest = text k ∷ print v (print_fields fs rest)

pub keys : Fields → List Bytes
keys end = []
keys (field k v fs) = k ∷ keys fs

-- No object of the value, at any depth, has two members of one name.
mutual
  pub IsDistinct : Json → Type 0
  IsDistinct atom = Unit
  IsDistinct (str s) = Unit
  IsDistinct (arr xs) = AreDistinct xs
  IsDistinct (obj fs) = AllPairs (λ a b. a ≢ b) (keys fs) × HaveDistinct fs

  AreDistinct : Items → Type 0
  AreDistinct nil = Unit
  AreDistinct (cons x xs) = IsDistinct x × AreDistinct xs

  HaveDistinct : Fields → Type 0
  HaveDistinct end = Unit
  HaveDistinct (field k v fs) = IsDistinct v × HaveDistinct fs

abbrev pub New : Bytes → List Bytes → Type 0
New s = All (λ t. s ≢ t)

pub seen_iff : (s : Bytes) (ts : List Bytes) → (is_seen s ts ≡ false) ↔ New s ts
unfolding is_seen
seen_iff s [] = (λ h. tt, λ h. refl)
seen_iff s (t ∷ ts) = ground (arith, str_eq_iff s t, seen_iff s ts)

-- What the loops find.
abbrev Value : List Token → List Token → Type 0
Value ts us = (v : Json) × IsDistinct v × (ts ≡ print v us)

abbrev Elements : List Token → List Token → Type 0
Elements ts us = (xs : Items) × AreDistinct xs × (ts ≡ print_items xs us)

abbrev Members : List Bytes → List Token → List Token → Type 0
Members seen ts us =
    (fs : Fields) × AllPairs (λ a b. a ≢ b) (keys fs)
    × All (λ k. New k seen) (keys fs)
    × HaveDistinct fs
    × (ts ≡ print_fields fs us)

pub older :
    (key : Bytes) (seen ks : List Bytes)
    → All (λ k. New k (key ∷ seen)) ks
    → All (λ k. New k seen) ks
older key seen [] h = tt
older key seen (k ∷ ks) h = (h.0.1, older key seen ks h.1)

pub newer :
    (key : Bytes) (seen ks : List Bytes) → All (λ k. New k (key ∷ seen)) ks → All (λ k. key ≢ k) ks
newer key seen [] h = tt
newer key seen (k ∷ ks) h = (λ e. h.0.0 (sym e), newer key seen ks h.1)

-- An element and those after it, from what the two loops find.
join :
    (n : ℕ) (ts : List Token)
    → ((vs : List Token) → walk n ts ≡ ok vs → Value ts vs)
    → ((vs us : List Token) → elements n vs ≡ ok us → Elements vs us)
    → (us : List Token) → (walk n ts >>= λ vs. elements n vs) ≡ ok us
    → Elements ts us
unfolding print IsDistinct
join n ts f g us h =
    let (vs, p, q) = >>=-eq-ok (walk n ts) (λ vs. elements n vs) h in
    let (x, d, a) = f vs p in
    let (xs, ds, b) = g vs us q in (cons x xs, (d, ds), a ∙ ap (print x) b)

mutual
  unfolding walk print IsDistinct keys

  walk_value : (n : ℕ) (ts us : List Token) → walk n ts ≡ ok us → Value ts us
  walk_value zero ts us h = cc
  walk_value (suc n) [] us h = cc
  walk_value (suc n) (open_object ∷ ts) us h =
      let (fs, d, new, ds, e) = members_value n [] ts us h in
      (obj fs, (d, ds), ap (λ x. open_object ∷ x) e)
  walk_value (suc n) (open_array ∷ ts) us h =
      let (xs, d, e) = elements_value n ts us h in (arr xs, d, ap (λ x. open_array ∷ x) e)
  walk_value (suc n) (close ∷ ts) us h = cc
  walk_value (suc n) (other ∷ ts) us h = (atom, tt, cc)
  walk_value (suc n) (text s ∷ ts) us h = (str s, tt, cc)

  members_value :
      (n : ℕ) (seen : List Bytes) (ts us : List Token)
      → members n seen ts ≡ ok us
      → Members seen ts us
  members_value zero seen ts us h = cc
  members_value (suc n) seen [] us h = cc
  members_value (suc n) seen (close ∷ ts) us h = (end, tt, tt, tt, cc)
  members_value (suc n) seen (text key ∷ ts) us h = elim (Bool-cases (is_seen key seen)) [
    | inl e ↦ absurd (ground arith)
    | inr e ↦
        let rest : (walk n ts >>= λ vs. members n (key ∷ seen) vs) ≡ ok us = ground arith in
        let (vs, p, q) = >>=-eq-ok (walk n ts) (λ vs. members n (key ∷ seen) vs) rest in
        let (v, d, a) = walk_value n ts vs p in
        let (fs, ds, new, each, b) = members_value n (key ∷ seen) vs us q in
        (
          field key v fs,
          (newer key seen (keys fs) new, ds),
          ((seen_iff key seen).0 e, older key seen (keys fs) new),
          (d, each),
          ap (λ x. text key ∷ x) (a ∙ ap (print v) b),
        )
  ]
  members_value (suc n) seen (open_object ∷ ts) us h = cc
  members_value (suc n) seen (open_array ∷ ts) us h = cc
  members_value (suc n) seen (other ∷ ts) us h = cc

  elements_value : (n : ℕ) (ts us : List Token) → elements n ts ≡ ok us → Elements ts us
  elements_value zero ts us h = cc
  elements_value (suc n) [] us h = cc
  elements_value (suc n) (close ∷ ts) us h = (nil, tt, cc)
  elements_value (suc n) (open_object ∷ ts) us h =
      join n (open_object ∷ ts) (walk_value n (open_object ∷ ts)) (elements_value n) us h
  elements_value (suc n) (open_array ∷ ts) us h =
      join n (open_array ∷ ts) (walk_value n (open_array ∷ ts)) (elements_value n) us h
  elements_value (suc n) (other ∷ ts) us h =
      join n (other ∷ ts) (walk_value n (other ∷ ts)) (elements_value n) us h
  elements_value (suc n) (text s ∷ ts) us h =
      join n (text s ∷ ts) (walk_value n (text s ∷ ts)) (elements_value n) us h

-- The fuel that a value takes.
mutual
  cost : Json → ℕ
  cost atom = 1
  cost (str s) = 1
  cost (arr xs) = suc (cost_items xs)
  cost (obj fs) = suc (cost_fields fs)

  cost_items : Items → ℕ
  cost_items nil = 1
  cost_items (cons x xs) = suc (cost x + cost_items xs)

  cost_fields : Fields → ℕ
  cost_fields end = 1
  cost_fields (field k v fs) = suc (cost v + cost_fields fs)

mutual
  unfolding print cost

  cost-print :
      (v : Json) (rest : List Token) → cost v + 1 + 2 * length rest ≤ 2 * length (print v rest)
  cost-print atom rest = omega arith
  cost-print (str s) rest = omega arith
  cost-print (arr xs) rest = let h = cost-items xs rest in omega arith
  cost-print (obj fs) rest = let h = cost-fields fs rest in omega arith

  cost-items :
      (xs : Items) (rest : List Token)
      → cost_items xs + 2 * length rest ≤ 2 * length (print_items xs rest)
  cost-items nil rest = omega arith
  cost-items (cons x xs) rest =
      let h = cost-print x (print_items xs rest) in let k = cost-items xs rest in omega arith

  cost-fields :
      (fs : Fields) (rest : List Token)
      → cost_fields fs + 2 * length rest ≤ 2 * length (print_fields fs rest)
  cost-fields end rest = omega arith
  cost-fields (field k v fs) rest =
      let h = cost-print v (print_fields fs rest) in let k = cost-fields fs rest in omega arith

elements-print :
    (n : ℕ) (x : Json) (ts : List Token)
    → elements (suc n) (print x ts) ≡ (walk n (print x ts) >>= λ us. elements n us)
unfolding walk print
elements-print n atom ts = refl
elements-print n (str s) ts = refl
elements-print n (arr xs) ts = refl
elements-print n (obj fs) ts = refl

still-New :
    (key : Bytes) (seen ks : List Bytes)
    → All (λ k. key ≢ k) ks
    → All (λ k. New k seen) ks
    → All (λ k. New k (key ∷ seen)) ks
still-New key seen [] h n = tt
still-New key seen (k ∷ ks) h n = ((λ e. h.0 (sym e), n.0), still-New key seen ks h.1 n.1)

All-New : (ks : List Bytes) → All (λ k. New k []) ks
All-New [] = tt
All-New (k ∷ ks) = (tt, All-New ks)

mutual
  unfolding walk print IsDistinct keys cost

  walk-print :
      (v : Json) (n : ℕ) (rest : List Token)
      → cost v ≤ n
      → IsDistinct v
      → walk n (print v rest) ≡ ok rest
  walk-print atom zero rest h d = absurd (omega arith)
  walk-print atom (suc n) rest h d = refl
  walk-print (str s) zero rest h d = absurd (omega arith)
  walk-print (str s) (suc n) rest h d = refl
  walk-print (arr xs) zero rest h d = absurd (omega arith)
  walk-print (arr xs) (suc n) rest h d = elements-items xs n rest (omega arith) d
  walk-print (obj fs) zero rest h d = absurd (omega arith)
  walk-print (obj fs) (suc n) rest h d =
      members-fields fs n [] rest (omega arith) d.0 (All-New (keys fs)) d.1

  elements-items :
      (xs : Items) (n : ℕ) (rest : List Token)
      → cost_items xs ≤ n
      → AreDistinct xs
      → elements n (print_items xs rest) ≡ ok rest
  elements-items nil zero rest h d = absurd (omega arith)
  elements-items nil (suc n) rest h d = refl
  elements-items (cons x xs) zero rest h d = absurd (omega arith)
  elements-items (cons x xs) (suc n) rest h d =
      elements-print n x (print_items xs rest)
      ∙ ap (λ r. r >>= elements n) (walk-print x n (print_items xs rest) (omega arith) d.0)
      ∙ elements-items xs n rest (omega arith) d.1

  members-fields :
      (fs : Fields) (n : ℕ) (seen : List Bytes) (rest : List Token)
      → cost_fields fs ≤ n
      → AllPairs (λ a b. a ≢ b) (keys fs)
      → All (λ k. New k seen) (keys fs)
      → HaveDistinct fs
      → members n seen (print_fields fs rest) ≡ ok rest
  members-fields end zero seen rest h d new each = absurd (omega arith)
  members-fields end (suc n) seen rest h d new each = refl
  members-fields (field k v fs) zero seen rest h d new each = absurd (omega arith)
  members-fields (field k v fs) (suc n) seen rest h d new each =
      let unseen : is_seen k seen ≡ false = (seen_iff k seen).1 new.0 in
      let value = walk-print v n (print_fields fs rest) (omega arith) each.0 in
      let others =
        members-fields fs n (k ∷ seen) rest (omega arith) d.1 (still-New k seen (keys fs) d.0 new.1)
          each.1 in
      let both = ap (λ r. r >>= λ us. members n (k ∷ seen) us) value ∙ others in
      ap
        (λ b.
          if b
          then err (duplicate_member k)
          else (walk n (print v (print_fields fs rest)) >>= λ us. members n (k ∷ seen) us))
        unseen
      ∙ both

ended_iff : (b : Bool) (ts : List Token) → (at_end b ts ≡ ok tt) ↔ ((ts ≡ []) × (b ≡ true))
unfolding at_end
ended_iff true [] = (λ h. (refl, refl), λ h. refl)
ended_iff false [] = (λ h. absurd cc, λ h. absurd cc)
ended_iff b (t ∷ ts) = (λ h. absurd cc, λ h. absurd cc)

-- A text passes exactly if its tokens are those of one JSON value none of whose objects, at any depth,
-- has two members of one name, and the text ends there. In particular the fuel suffices for any such
-- value.
pub reject_duplicates_iff :
    (s : Stream)
    → (reject_duplicates s ≡ ok tt)
      ↔ ((v : Json) × IsDistinct v × (s.tokens ≡ print v []) × (s.ended ≡ true))
unfolding reject_duplicates
reject_duplicates_iff s = (
  λ h.
      let (us, p, q) = >>=-eq-ok (walk (2 * length s.tokens + 1) s.tokens) (at_end s.ended) h in
      let (v, d, e) = walk_value (2 * length s.tokens + 1) s.tokens us p in
      let (a, b) = (ended_iff s.ended us).0 q in (v, d, e ∙ ap (print v) a, b),
  λ (v, d, e, b).
      ap (λ ts. walk (2 * length ts + 1) ts >>= at_end s.ended) e
      ∙ ap (λ r. r >>= at_end s.ended)
          (walk-print v (2 * length (print v []) + 1) [] (let h = cost-print v [] in omega arith) d)
      ∙ (ended_iff s.ended []).1 (refl, b),
)
