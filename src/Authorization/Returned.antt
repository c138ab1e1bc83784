-- ===== src/Authorization/Returned.antt =====
-- The steps that the operations share: what each has tested where it succeeds, and what it leaves where it
-- fails.
use vertex_sdk_go.Prelude.{
  ◌≡◌, ◌≢◌, refl, sym, ap, ◌∙◌, inl, inr, true, not, List, [], ◌∷◌, ◌++◌, All, Result, ok, err,
  >>=-eq-ok, reject, Bool-cases, arith,
}
use vertex_sdk_go.Prelude.Strings.{Bytes, bytes, str_eq, str_eq_iff}
use vertex_sdk_go.Prelude.Formats.{path_escape}
use vertex_sdk_go.Prelude.Shapes.{is_uuid, is_strong_etag, path_escape-uuid}
use vertex_sdk_go.Portal.{PortalError, header_get, State, Done}
use vertex_sdk_go.Portal.Request.{ResponseHeaders}
use vertex_sdk_go.Authorization.{
  invalid_response, authorization_id, authorization_path, user_role_path, strong_etag,
  validate_if_match, each_checked, checked_then, with_result,
}

module _ {A : Type 0} where
  pub checked_then-ok :
      {P : Type 0} (r : Result PortalError P) (s : State) (go : P → Done A) (a : A) (s' : State)
      → checked_then r s go ≡ (ok a, s')
      → (p : P) × (r ≡ ok p) × (go p ≡ (ok a, s'))
  checked_then-ok (err e) s go a s' h = absurd (let x = ap (λ d. d.0) h in cc)
  checked_then-ok (ok p) s go a s' h = (p, refl, h)

  pub with_result-ok :
      {B : Type 0} (f : B → Result PortalError A) (d : Done B) (a : A) (s' : State)
      → with_result f d ≡ (ok a, s')
      → (b : B) × (d ≡ (ok b, s')) × (f b ≡ ok a)
  with_result-ok f (err e, s) a s' h = absurd (let x = ap (λ d. d.0) h in cc)
  with_result-ok f (ok b, s) a s' h = (b, ap (λ x. (ok b, x)) (ap (λ d. d.1) h), ap (λ d. d.0) h)

  -- An operation failed, and sent nothing.
  abbrev pub Refused : State → Done A → Type 0
  Refused s d = (e : PortalError) × (d ≡ (err e, s))

  pub checked_then-Refused :
      {P : Type 0} (r : Result PortalError P) (s : State) (go : P → Done A)
      → ((p : P) → r ≢ ok p)
      → Refused s (checked_then r s go)
  checked_then-Refused (err e) s go n = (e, refl)
  checked_then-Refused (ok p) s go n = absurd (n p refl)

pub authorization_id-ok :
    (id resource segment : Bytes)
    → authorization_id id resource ≡ ok segment
    → (is_uuid id ≡ true) × (segment ≡ id)
unfolding authorization_id
authorization_id-ok id resource segment h = elim (Bool-cases (is_uuid id)) [
  | inl e ↦
      let same : path_escape id ≡ segment = ground arith in (e, sym same ∙ path_escape-uuid id e)
  | inr e ↦ absurd (ground arith)
]

pub authorization_path-ok :
    (collection resource id path : Bytes)
    → authorization_path collection resource id ≡ ok path
    → (is_uuid id ≡ true) × (path ≡ bytes "/open/v1/" ++ (collection ++ (bytes "/" ++ id)))
unfolding authorization_path
authorization_path-ok collection resource id path h =
    let (segment, h₁, h₂) = >>=-eq-ok (authorization_id id resource) _ h in
    let (e, same) = authorization_id-ok id resource segment h₁ in (e, cc)

pub user_role_path-ok :
    (user_id path : Bytes)
    → user_role_path user_id ≡ ok path
    → (is_uuid user_id ≡ true) × (path ≡ bytes "/open/v1/users/" ++ (user_id ++ bytes "/roles"))
unfolding user_role_path
user_role_path-ok user_id path h =
    let (segment, h₁, h₂) = >>=-eq-ok (authorization_id user_id (bytes "user")) _ h in
    let (e, same) = authorization_id-ok user_id (bytes "user") segment h₁ in (e, cc)

pub strong_etag-ok :
    (headers : ResponseHeaders) (etag : Bytes)
    → strong_etag headers ≡ ok etag
    → is_strong_etag etag ≡ true
unfolding strong_etag
strong_etag-ok headers etag h =
    elim (Bool-cases (is_strong_etag (header_get (headers (bytes "Etag"))))) [
      | inl e ↦ let same : header_get (headers (bytes "Etag")) ≡ etag = ground arith in cc
      | inr e ↦ absurd (ground arith)
    ]

pub validate_if_match-ok :
    (value : Bytes) (u : Unit {0}) → validate_if_match value ≡ ok u → is_strong_etag value ≡ true
unfolding validate_if_match
validate_if_match-ok value u h = elim (Bool-cases (is_strong_etag value)) [
  | inl e ↦ e
  | inr e ↦ absurd (ground arith)
]

-- Two texts that a test found equal.
pub same_text :
    (a b : Bytes) (u : Unit {0}) → reject (not (str_eq a b)) invalid_response ≡ ok u → a ≡ b
same_text a b u h = elim (Bool-cases (str_eq a b)) [
  | inl e ↦ (str_eq_iff a b).0 e
  | inr e ↦ absurd (ground arith)
]

pub each_checked-All :
    {V : Type 0} (check : V → Result PortalError (Unit {0})) (xs : List V) (u : Unit {0})
    → each_checked check xs ≡ ok u
    → All (λ x. check x ≡ ok tt) xs
each_checked-All check [] u h = tt
each_checked-All check (x ∷ xs) u h =
    let (v, h₁, h₂) = >>=-eq-ok (check x) _ h in (h₁, each_checked-All check xs u h₂)
