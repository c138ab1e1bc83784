-- ===== src/Authorization.antt =====
-- authorization_management_client.go: roles, permissions and their assignments through the portal's API.
-- Here is what its operations share: pages, identifiers, paths, headers and ETags. The operations are in
-- Authorization.Roles, .Permissions, .Bindings and .Assignments. Where a function returns a value
-- together with an error, the result is the error.
pub mod Pages
pub mod Items
pub mod Roles
pub mod Permissions
pub mod Bindings
pub mod Assignments
pub mod Returned
pub mod Valid
pub mod Answers
pub mod Refusals
pub mod Lists
mod Tests
use vertex_sdk_go.Prelude.{
  ℕ, zero, suc, ◌+◌, ◌-◌, ◌*◌, ◌/◌, ◌%◌, ◌^◌, Bool, true, false, not, ◌&&◌, ◌||◌, List, [], ◌∷◌,
  ◌++◌, length, Option, none, some, Result, ok, err, ◌>>=◌, ◌>>◌, reject, or_error, ltb, leb, ◌==◌,
  if◌then◌else◌,
}
use vertex_sdk_go.Prelude.Int.{ℤ, pos, negsuc}
use vertex_sdk_go.Prelude.Strings.{Bytes, bytes, str_eq}
use vertex_sdk_go.Prelude.Formats.{decimal, path_escape}
use vertex_sdk_go.Prelude.Shapes.{is_uuid, is_strong_etag}
use vertex_sdk_go.Portal.{PortalError, portal_error, header_get, State, Done}
use vertex_sdk_go.Portal.Request.{Extra, ResponseHeaders, Answer, Decoder}

-- `invalidAuthorizationResponse`
abbrev pub invalid_response : PortalError
invalid_response = portal_error 0 (bytes "invalid_authorization_response") [] []

-- `AuthorizationPageOptions`
pub record PageOptions : Type 0 where
  pub page : Option ℤ
  pub size : Option ℤ

-- `AuthorizationPageMetadata`
pub record PageMetadata : Type 0 where
  pub size : ℤ
  pub number : ℤ
  pub total_elements : ℤ
  pub total_pages : ℤ

-- `authorizationPageWire`
pub record PageWire : Type 0 where
  pub size : Option ℤ
  pub number : Option ℤ
  pub total_elements : Option ℤ
  pub total_pages : Option ℤ

-- A page of items as it is decoded; both members are missing from the zero value.
pub record PageOf (W : Type 0) : Type 0 where
  pub content : Option (List W)
  pub page : Option PageWire

-- `value` of `authorizationPageWire`
unfoldable pub page_value : Option PageWire → Result PortalError PageMetadata
page_value none = err invalid_response
page_value (some v) = do
  size ← or_error v.size invalid_response
  number ← or_error v.number invalid_response
  total_elements ← or_error v.total_elements invalid_response
  total_pages ← or_error v.total_pages invalid_response
  ok (record {
    size = size;
    number = number;
    total_elements = total_elements;
    total_pages = total_pages;
  })

abbrev pub or_else : ℤ → Option ℤ → ℤ
or_else default none = default
or_else default (some n) = n

-- `strconv.Itoa`
unfoldable pub itoa : ℤ → Bytes
itoa (pos n) = decimal n
itoa (negsuc n) = b'-' ∷ decimal (suc n)

-- `authorizationPageQuery`
unfoldable pub page_query : PageOptions → Bytes
unfolding itoa
page_query o =
    bytes "?page="
    ++ (itoa (or_else (pos 0) o.page) ++ (bytes "&size=" ++ itoa (or_else (pos 20) o.size)))

in_size : ℤ → Bool
in_size (pos n) = leb 1 n && leb n 100
in_size (negsuc n) = false

not_negative : ℤ → Bool
not_negative (pos n) = true
not_negative (negsuc n) = false

-- `validateAuthorizationPageOptions`
unfoldable pub validate_page_options : PageOptions → Result PortalError (Unit {0})
unfolding in_size not_negative
validate_page_options o =
    reject (not (not_negative (or_else (pos 0) o.page)) || not (in_size (or_else (pos 20) o.size)))
      invalid_response

-- `authorizationID`
unfoldable pub authorization_id : Bytes → Bytes → Result PortalError Bytes
authorization_id id resource =
    if not (is_uuid id)
    then err (portal_error 0 (bytes "invalid_" ++ (resource ++ bytes "_id")) [] [])
    else ok (path_escape id)

-- `authorizationPath`
unfoldable pub authorization_path : Bytes → Bytes → Bytes → Result PortalError Bytes
unfolding authorization_id
authorization_path collection resource id = do
  segment ← authorization_id id resource
  ok (bytes "/open/v1/" ++ (collection ++ (bytes "/" ++ segment)))

-- `userRolePath`
unfoldable pub user_role_path : Bytes → Result PortalError Bytes
unfolding authorization_id
user_role_path user_id = do
  segment ← authorization_id user_id (bytes "user")
  ok (bytes "/open/v1/users/" ++ (segment ++ bytes "/roles"))

-- `authorizationIdempotencyHeader`; `none` for options that are nil
unfoldable pub idempotency_header : Option Bytes → Extra
idempotency_header none = []
idempotency_header (some key) =
    if str_eq key [] then [] else (bytes "Idempotency-Key", key ∷ []) ∷ []

-- `authorizationIfMatchHeader`
abbrev pub if_match_header : Bytes → Extra
if_match_header etag = (bytes "If-Match", etag ∷ []) ∷ []

-- `strongETag`
unfoldable pub strong_etag : ResponseHeaders → Result PortalError Bytes
strong_etag headers =
    let etag = header_get (headers (bytes "Etag")) in
    if not (is_strong_etag etag) then err invalid_response else ok etag

-- `validateIfMatch`
unfoldable pub validate_if_match : Bytes → Result PortalError (Unit {0})
validate_if_match value = reject (not (is_strong_etag value)) invalid_response

-- The number of pages; both numbers are positive or zero here, and the divisor is positive.
unfoldable pub expected_pages : ℕ → ℕ → ℕ
expected_pages total size = if total % size == 0 then total / size else total / size + 1

-- `int64(p.Number)*int64(p.Size)` taken from the total, in 64 bits: the bits of the result
unfoldable pub remaining : ℕ → ℕ → ℕ → ℕ
remaining total number size = (total + 2 ^ 64 - (number * size) % 2 ^ 64) % 2 ^ 64

-- `count != expectedContent` fails; what remains is negative from 2^63 on, and no count is.
unfoldable pub is_expected : ℕ → ℕ → ℕ → ℕ → Bool
unfolding remaining
is_expected count total number size =
    if total == 0
    then count == 0
    else ltb (remaining total number size) (2 ^ 63)
      && count
        == (if ltb size (remaining total number size) then size else remaining total number size)

content_fits : ℕ → ℕ → ℕ → ℕ → ℕ → Bool
unfolding is_expected
content_fits count size number total pages =
    leb count size
    && leb count total
    && not (total == 0 && not (number == 0))
    && not (ltb 0 total && leb pages number)
    && is_expected count total number size

-- The tests behind that of the size. A negative number or total fails its own test, and a negative number
-- of pages is not the expected one.
page_fits : ℕ → ℕ → ℤ → ℤ → ℤ → Bool
unfolding expected_pages content_fits
page_fits count size (pos number) (pos total) (pos pages) =
    pages == expected_pages total size && content_fits count size number total pages
page_fits count size number total pages = false

page_of_size : ℕ → ℤ → PageMetadata → Bool
unfolding page_fits in_size
page_of_size count (pos size) p =
    in_size (pos size) && page_fits count size p.number p.total_elements p.total_pages
page_of_size count (negsuc size) p = false

-- `validateAuthorizationPage` for a nil error, which is how it is called
unfoldable pub validate_page : ℕ → PageMetadata → Result PortalError (Unit {0})
unfolding page_of_size
validate_page count p = reject (not (page_of_size count p.size p)) invalid_response

-- The variable that `json.Decode` fills: the zero value where nothing is decoded.
abbrev pub received : {W : Type 0} → W → Answer W → W × ResponseHeaders
received zero_value (none, headers) = (zero_value, headers)
received zero_value (some v, headers) = (v, headers)

-- A loop that collects `item.value()`, up to the first error
abbrev pub each_value :
    {W V : Type 0} → (W → Result PortalError V) → List W → Result PortalError (List V)
each_value value [] = ok []
each_value value (x ∷ xs) = do v ← value x; vs ← each_value value xs; ok (v ∷ vs)

-- A loop that checks each item, up to the first error
abbrev pub each_checked :
    {V : Type 0} → (V → Result PortalError (Unit {0})) → List V → Result PortalError (Unit {0})
each_checked check [] = ok tt
each_checked check (x ∷ xs) = check x >> each_checked check xs

-- `if err != nil { return nil, err }` behind the checks of the arguments
abbrev pub checked_then : {P A : Type 0} → Result PortalError P → State → (P → Done A) → Done A
checked_then (err e) s go = (err e, s)
checked_then (ok p) s go = go p

-- What is made of the answer.
abbrev pub with_result : {A B : Type 0} → (A → Result PortalError B) → Done A → Done B
with_result f (r, s) = (r >>= f, s)

-- An `out` that is nil
abbrev pub no_output : Option (Decoder (Unit {0}))
no_output = none
