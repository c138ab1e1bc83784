-- ===== src/Authorization/Lists.antt =====
-- What a page of a user's roles holds.
use mathlib.Core.Path.{subst}
use vertex_sdk_go.Prelude.{
  ◌≡◌, Bool, List, [], ◌∷◌, ◌++◌, length, All, none, some, ok, ◌>>◌, >>=-eq-ok, or_error,
}
use vertex_sdk_go.Prelude.Strings.{Bytes, bytes}
use vertex_sdk_go.Portal.{Client, Wire, State, Instants}
use vertex_sdk_go.Portal.Request.{Answer, request_with_scope}
use vertex_sdk_go.Portal.Request.Behaviour.{Succeeds, request_with_headers-Succeeds}
use vertex_sdk_go.Authorization.{
  PageOptions, PageOf, invalid_response, page_value, page_query, validate_page_options,
  user_role_path, validate_page, received, each_value, each_checked,
}
use vertex_sdk_go.Authorization.Items.{
  UserRoleAssignment, UserRoleAssignmentWire, Page, assignment_value, validate_assignment_for_user,
  Codec,
}
use vertex_sdk_go.Authorization.Roles.{zero_page}
use vertex_sdk_go.Authorization.Assignments.{assignment_page, list_user_roles}
use vertex_sdk_go.Authorization.Pages.{IsPage, IsInt64, validate_page_iff}
use vertex_sdk_go.Authorization.Returned.{
  checked_then-ok, with_result-ok, user_role_path-ok, each_checked-All,
}
use vertex_sdk_go.Authorization.Valid.{IsAssignment, validate_assignment_for_user-IsAssignment}

module _ (parses_time : Bytes → Bool) (user_id : Bytes) where
  -- An assignment of the user.
  abbrev pub IsOf : UserRoleAssignment → Type 0
  IsOf v = IsAssignment parses_time v × (v.user_id ≡ user_id)

  All-IsOf :
      (vs : List UserRoleAssignment)
      → All (λ v. validate_assignment_for_user parses_time user_id v ≡ ok tt) vs
      → All IsOf vs
  All-IsOf [] h = tt
  All-IsOf (v ∷ vs) h =
      (validate_assignment_for_user-IsAssignment parses_time user_id v h.0, All-IsOf vs h.1)

module _ (w : Wire) (c : Client) (k : Codec) where
  -- A page whose metadata fits its content, all of it valid.
  abbrev IsChecked : Bytes → Page UserRoleAssignment → Type 0
  IsChecked user_id r =
      (validate_page (length r.content) r.page ≡ ok tt) × All (IsOf k.parses_time user_id) r.content

  page-IsChecked :
      (user_id : Bytes) (a : Answer (PageOf UserRoleAssignmentWire)) (r : Page UserRoleAssignment)
      → assignment_page w c k user_id a ≡ ok r
      → IsChecked user_id r
  unfolding assignment_page
  page-IsChecked user_id a r h =
      let raw = (received zero_page a).0 in
      let (items, h₁, h₂) = >>=-eq-ok (or_error raw.content invalid_response) _ h in
      let (page, h₃, h₄) = >>=-eq-ok (page_value raw.page) _ h₂ in
      let (content, h₅, h₆) = >>=-eq-ok (each_value assignment_value items) _ h₄ in
      let (u, h₇, h₈) = >>=-eq-ok (validate_page (length content) page) _ h₆ in
      let (v, h₉, h₁₀) =
        >>=-eq-ok (each_checked (validate_assignment_for_user k.parses_time user_id) content) _
          h₈ in
      let first : Page UserRoleAssignment = record { content = content; page = page } in
      let same : first ≡ r = cc in
      subst (IsChecked user_id) same (
        h₇,
        All-IsOf k.parses_time user_id content
            (each_checked-All (validate_assignment_for_user k.parses_time user_id) content v h₉),
      )

  -- A page that ListUserRoles returns holds as many assignments as its metadata say for that page, each a
  -- valid one of the user asked for, and the last request was a GET of the user's roles with the token for
  -- user_roles:read. The total that encoding/json decodes is an int64.
  pub list_user_roles-IsAnswer :
      (t : Instants) (user_id : Bytes) (o : PageOptions) (s s' : State)
      (r : Page UserRoleAssignment)
      → IsInt64 r.page.total_elements
      → list_user_roles w c k t user_id o s ≡ (ok r, s')
      → IsPage (length r.content) r.page
        × All (IsOf k.parses_time user_id) r.content
        × Succeeds w c [] t
            (bytes "GET")
            ((bytes "/open/v1/users/" ++ (user_id ++ bytes "/roles")) ++ page_query o)
            (bytes "user_roles:read")
            none
            s
            s'
  unfolding list_user_roles request_with_scope
  list_user_roles-IsAnswer t user_id o s s' r int h =
      let (path, h₁, h₂) =
        checked_then-ok (validate_page_options o >> user_role_path user_id) s _ r s' h in
      let (u, h₃, h₄) = >>=-eq-ok (validate_page_options o) _ h₁ in
      let (e, at) = user_role_path-ok user_id path h₄ in
      let (a, h₅, h₆) = with_result-ok (assignment_page w c k user_id) _ r s' h₂ in
      let (fits, all) = page-IsChecked user_id a r h₆ in
      (
        (validate_page_iff (length r.content) r.page int).0 fits,
        all,
        subst
            (λ p.
              Succeeds w c [] t (bytes "GET") (p ++ page_query o) (bytes "user_roles:read") none s
                s')
            at
            (request_with_headers-Succeeds w c (some k.decode_assignments) [] a.0 a.1 s' t
              (bytes "GET") (path ++ page_query o) (bytes "user_roles:read") none s h₅),
      )
