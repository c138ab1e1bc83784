-- ===== src/Authorization/Pages.antt =====
-- Which pages of the portal pass, and that no product in 64 bits changes the answer.
use mathlib.Core.Path.{subst}
use vertex_sdk_go.Prelude.{
  ==_iff, &&_iff, ℕ, ◌+◌, ◌-◌, ◌*◌, ◌/◌, ◌%◌, ◌^◌, ◌≤◌, ◌<◌, ◌≡◌, ◌↔◌, ◌⊎◌, inl, inr, refl, sym,
  Bool, true, false, not, ok, reject, arith, ◌==◌, Bool-cases,
}
use vertex_sdk_go.Prelude.Int.{ℤ, pos, negsuc}
use vertex_sdk_go.Authorization.{
  PageMetadata, invalid_response, in_size, expected_pages, remaining, is_expected, content_fits,
  page_fits, page_of_size, validate_page,
}
use native.Mathlib.Nat.{mul-le-mul_right}

-- One more of a size.
below : (x y size : ℕ) → x < y → x * size + size ≤ y * size
below x y size h = let k = mul-le-mul_right size h in omega arith

-- As many pages as the elements take, and not more.
abbrev IsPageCount : ℕ → ℕ → ℕ → Type 0
IsPageCount size total pages = (total ≤ pages * size) × (pages * size < total + size)

expected-IsPageCount :
    (size total : ℕ) → 1 ≤ size → IsPageCount size total (expected_pages total size)
unfolding expected_pages
expected-IsPageCount size total h = elim (Bool-cases (total % size == 0)) [
  | inl e ↦
      let exact = (==_iff (total % size) 0).0 e in
      let d : total / size * size ≡ total = omega arith in simp e (omega arith, omega arith)
  | inr e ↦
      let d : (total / size + 1) * size ≡ total / size * size + size = omega arith in
      let r : 0 < total % size = ground arith in simp e (omega arith, omega arith)
]

same_count :
    (size total x y : ℕ) → 1 ≤ size → IsPageCount size total x → IsPageCount size total y → x ≡ y
same_count size total x y h a b = ground (arith, below x y size, below y x size)

-- The elements that the page has: none of none, or those from its first one on, up to its size.
abbrev IsContent : ℕ → ℕ → ℕ → ℕ → Type 0
IsContent count size number total =
    ((total ≡ 0) × (number ≡ 0) × (count ≡ 0))
    ⊎ ((number * size < total)
        × (((count ≡ size) × (number * size + size ≤ total))
            ⊎ ((number * size + count ≡ total) × (count ≤ size))))

remaining-exact :
    (total number size : ℕ)
    → number * size < total
    → total < 2 ^ 63
    → remaining total number size ≡ total - number * size
unfolding remaining
remaining-exact total number size h k = omega arith

not_past :
    (pages number size total : ℕ)
    → total ≤ pages * size
    → number * size < total
    → pages ≤ number
    → ⊥
not_past pages number size total h k e = let m = mul-le-mul_right size e in omega arith

IsContent-iff :
    (count size number total pages : ℕ)
    → 1 ≤ size
    → total < 2 ^ 63
    → IsPageCount size total pages
    → (content_fits count size number total pages ≡ true) ↔ IsContent count size number total
unfolding content_fits is_expected
IsContent-iff count size number total pages h k p = (
  λ e. elim (Bool-cases (total == 0)) [
    | inl z ↦ inl (ground arith)
    | inr z ↦
        let some_page : number < pages = ground arith in
        let before = below number pages size some_page in
        let inside : number * size < total = omega arith in
        let rest = remaining-exact total number size inside k in inr (inside, ground arith)
  ],
  λ c. elim c [
    | inl (none_at_all, first, empty) ↦ ground arith
    | inr (inside, rest) ↦
        let some_page : number < pages = ground (arith, not_past pages number size total p.0) in
        let left = remaining-exact total number size inside k in ground arith
  ],
)

-- A page is as it should be: a size between 1 and 100, as many pages as its elements take, and the elements
-- that it has from its first one on.
abbrev pub IsPage : ℕ → PageMetadata → Type 0
IsPage count p =
    (size : ℕ) × (number : ℕ) × (total : ℕ) × (pages : ℕ) × (p ≡ record {
      size = pos size;
      number = pos number;
      total_elements = pos total;
      total_pages = pos pages;
    })
    × (1 ≤ size)
    × (size ≤ 100)
    × IsPageCount size total pages
    × IsContent count size number total

fits_iff :
    (count size number total pages : ℕ)
    → 1 ≤ size
    → total < 2 ^ 63
    → (page_fits count size (pos number) (pos total) (pos pages) ≡ true)
      ↔ (IsPageCount size total pages × IsContent count size number total)
unfolding page_fits
fits_iff count size number total pages h k = (
  λ e.
      let (x, y) =
        (&&_iff (pages == expected_pages total size) (content_fits count size number total pages)).0
          e in
      let p : IsPageCount size total pages =
        subst (IsPageCount size total) (sym ((==_iff pages (expected_pages total size)).0 x))
          (expected-IsPageCount size total h) in
      (p, (IsContent-iff count size number total pages h k p).0 y),
  λ (p, c).
      let x =
        same_count size total pages (expected_pages total size) h p
          (expected-IsPageCount size total h) in
      (&&_iff (pages == expected_pages total size) (content_fits count size number total pages)).1 (
        (==_iff pages (expected_pages total size)).1 x,
        (IsContent-iff count size number total pages h k p).1 c,
      ),
)

in_size_iff : (size : ℕ) → (in_size (pos size) ≡ true) ↔ ((1 ≤ size) × (size ≤ 100))
unfolding in_size
in_size_iff size = ground arith

-- The total of a page is an int64.
abbrev pub IsInt64 : ℤ → Type 0
IsInt64 (pos n) = n < 2 ^ 63
IsInt64 (negsuc n) = n < 2 ^ 63

abbrev metadata : ℤ → ℤ → ℤ → ℤ → PageMetadata
metadata size number total pages = record {
  size = size;
  number = number;
  total_elements = total;
  total_pages = pages;
}

IsPage-of_test :
    (count : ℕ) (size number total pages : ℤ)
    → IsInt64 total
    → page_of_size count size (metadata size number total pages) ≡ true
    → IsPage count (metadata size number total pages)
unfolding page_of_size page_fits
IsPage-of_test count (negsuc size) number total pages k h = cc
IsPage-of_test count (pos size) (negsuc number) total pages k h = absurd (ground arith)
IsPage-of_test count (pos size) (pos number) (negsuc total) pages k h = absurd (ground arith)
IsPage-of_test count (pos size) (pos number) (pos total) (negsuc pages) k h = absurd (ground arith)
IsPage-of_test count (pos size) (pos number) (pos total) (pos pages) k h =
    let (x, y) =
      (&&_iff (in_size (pos size)) (page_fits count size (pos number) (pos total) (pos pages))).0
        h in
    let (low, high) = (in_size_iff size).0 x in
    let (p, c) = (fits_iff count size number total pages low k).0 y in
    (size, number, total, pages, refl, low, high, p, c)

IsPage-page_of :
    (count size number total pages : ℕ)
    → total < 2 ^ 63
    → 1 ≤ size
    → size ≤ 100
    → IsPageCount size total pages
    → IsContent count size number total
    → page_of_size count (pos size) (metadata (pos size) (pos number) (pos total) (pos pages))
      ≡ true
unfolding page_of_size
IsPage-page_of count size number total pages k low high p c =
    (&&_iff (in_size (pos size)) (page_fits count size (pos number) (pos total) (pos pages))).1
      ((in_size_iff size).1 (low, high), (fits_iff count size number total pages low k).1 (p, c))

reject_iff : (test : Bool) → (reject (not test) invalid_response ≡ ok tt) ↔ (test ≡ true)
reject_iff true = (λ h. refl, λ h. refl)
reject_iff false = (λ h. absurd (cc), λ h. absurd (cc))

-- A page's metadata passes for a number of items exactly if the size is between 1 and 100, there are as many
-- pages as the elements take, and the items are as many as that page holds: none on page 0 of none, a full
-- size, or what is left on the last one. The wrap-around of number times size in 64 bits never changes this.
pub validate_page_iff :
    (count : ℕ) (p : PageMetadata)
    → IsInt64 p.total_elements
    → (validate_page count p ≡ ok tt) ↔ IsPage count p
unfolding validate_page
validate_page_iff count p k = (
  λ h.
      IsPage-of_test count p.size p.number p.total_elements p.total_pages k
        ((reject_iff (page_of_size count p.size p)).0 h),
  λ (size, number, total, pages, e, low, high, x, c).
      let bound : total < 2 ^ 63 = subst (λ q. IsInt64 q.total_elements) e k in
      (reject_iff (page_of_size count p.size p)).1 (
        subst (λ q. page_of_size count q.size q ≡ true) (sym e)
          (IsPage-page_of count size number total pages bound low high x c)),
)
