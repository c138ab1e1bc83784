-- ===== src/Authorization/Refusals.antt =====
-- The changes that are refused before anything is sent.
use vertex_sdk_go.Prelude.{
  ◌≡◌, refl, ◌⊎◌, inl, inr, true, false, List, [], ◌∷◌, all, ok, ◌>>=◌, ◌>>◌, >>=-eq-ok,
}
use vertex_sdk_go.Prelude.Strings.{Bytes, bytes}
use vertex_sdk_go.Prelude.Shapes.{is_uuid, is_strong_etag}
use vertex_sdk_go.Portal.{Client, Wire, State, Instants}
use vertex_sdk_go.Authorization.{
  authorization_id, authorization_path, user_role_path, validate_if_match,
}
use vertex_sdk_go.Authorization.Items.{
  UpdateRoleRequest, UpdatePermissionRequest, UpdateUserRoleRequest, Codec,
}
use vertex_sdk_go.Authorization.Roles.{update_role, delete_role}
use vertex_sdk_go.Authorization.Permissions.{update_permission, delete_permission}
use vertex_sdk_go.Authorization.Bindings.{check_permission_ids, replace_role_permissions}
use vertex_sdk_go.Authorization.Assignments.{assignment_path, update_user_role, delete_user_role}
use vertex_sdk_go.Authorization.Returned.{
  Refused, checked_then-Refused, authorization_id-ok, authorization_path-ok, user_role_path-ok,
  validate_if_match-ok,
}

-- A call of an operation that changes or deletes something with an ETag: the ID of what is changed (of the user
-- and of the assignment, for an assignment), the request, and the value of If-Match, which is last.
pub data Change : Type 0 where
  updating_role : Bytes → UpdateRoleRequest → Bytes → Change
  deleting_role : Bytes → Bytes → Change
  updating_permission : Bytes → UpdatePermissionRequest → Bytes → Change
  deleting_permission : Bytes → Bytes → Change
  replacing_permissions : Bytes → List Bytes → Bytes → Change
  updating_assignment : Bytes → Bytes → UpdateUserRoleRequest → Bytes → Change
  deleting_assignment : Bytes → Bytes → Bytes → Change

-- The If-Match of a call, and every ID that it names.
abbrev pub if_match_of : Change → Bytes
if_match_of (updating_role id request if_match) = if_match
if_match_of (deleting_role id if_match) = if_match
if_match_of (updating_permission id request if_match) = if_match
if_match_of (deleting_permission id if_match) = if_match
if_match_of (replacing_permissions id ids if_match) = if_match
if_match_of (updating_assignment user_id id request if_match) = if_match
if_match_of (deleting_assignment user_id id if_match) = if_match

abbrev pub ids_of : Change → List Bytes
ids_of (updating_role id request if_match) = id ∷ []
ids_of (deleting_role id if_match) = id ∷ []
ids_of (updating_permission id request if_match) = id ∷ []
ids_of (deleting_permission id if_match) = id ∷ []
ids_of (replacing_permissions id ids if_match) = id ∷ ids
ids_of (updating_assignment user_id id request if_match) = user_id ∷ id ∷ []
ids_of (deleting_assignment user_id id if_match) = user_id ∷ id ∷ []

-- The ETag is not a strong one, or not all the IDs are UUIDs.
abbrev pub Bad : Bytes → List Bytes → Type 0
Bad if_match ids = (is_strong_etag if_match ≡ false) ⊎ (all is_uuid ids ≡ false)

abbrev pub IsMalformed : Change → Type 0
IsMalformed x = Bad (if_match_of x) (ids_of x)

-- The call fails, and leaves the log and the cache as they are.
abbrev pub IsRefused : Wire → Client → Codec → Instants → State → Change → Type 0
IsRefused w c k t s (updating_role id request if_match) =
    Refused s (update_role w c k t id request if_match s)
IsRefused w c k t s (deleting_role id if_match) = Refused s (delete_role w c k t id if_match s)
IsRefused w c k t s (updating_permission id request if_match) =
    Refused s (update_permission w c k t id request if_match s)
IsRefused w c k t s (deleting_permission id if_match) =
    Refused s (delete_permission w c k t id if_match s)
IsRefused w c k t s (replacing_permissions id ids if_match) =
    Refused s (replace_role_permissions w c k t id ids if_match s)
IsRefused w c k t s (updating_assignment user_id id request if_match) =
    Refused s (update_user_role w c k t user_id id request if_match s)
IsRefused w c k t s (deleting_assignment user_id id if_match) =
    Refused s (delete_user_role w c k t user_id id if_match s)

-- They are all well formed.
abbrev Good : Bytes → List Bytes → Type 0
Good if_match ids = (is_strong_etag if_match ≡ true) × (all is_uuid ids ≡ true)

not-Bad : (if_match : Bytes) (ids : List Bytes) → Bad if_match ids → Good if_match ids → ⊥
not-Bad if_match ids (inl e) (strong, uuids) = cc
not-Bad if_match ids (inr e) (strong, uuids) = cc

path-Good :
    (if_match collection resource id path : Bytes)
    → (validate_if_match if_match >> authorization_path collection resource id) ≡ ok path
    → Good if_match (id ∷ [])
path-Good if_match collection resource id path h =
    let (u, h₁, h₂) = >>=-eq-ok (validate_if_match if_match) _ h in
    let (uuid, at) = authorization_path-ok collection resource id path h₂ in
    (validate_if_match-ok if_match u h₁, rw uuid refl)

check_permission_ids-ok :
    (ids : List Bytes) (u : Unit {0}) → check_permission_ids ids ≡ ok u → all is_uuid ids ≡ true
unfolding check_permission_ids
check_permission_ids-ok [] u h = refl
check_permission_ids-ok (id ∷ ids) u h =
    let (segment, h₁, h₂) = >>=-eq-ok (authorization_id id (bytes "permission")) _ h in
    let (uuid, at) = authorization_id-ok id (bytes "permission") segment h₁ in
    rw (uuid, check_permission_ids-ok ids u h₂) refl

set-Good :
    (if_match role_id : Bytes) (ids : List Bytes) (path : Bytes)
    → (do
      validate_if_match if_match
      p ← authorization_path (bytes "roles") (bytes "role") role_id
      check_permission_ids ids
      ok p)
      ≡ ok path
    → Good if_match (role_id ∷ ids)
set-Good if_match role_id ids path h =
    let (u, h₁, h₂) = >>=-eq-ok (validate_if_match if_match) _ h in
    let (p, h₃, h₄) = >>=-eq-ok (authorization_path (bytes "roles") (bytes "role") role_id) _ h₂ in
    let (v, h₅, h₆) = >>=-eq-ok (check_permission_ids ids) _ h₄ in
    let (uuid, at) = authorization_path-ok (bytes "roles") (bytes "role") role_id p h₃ in
    (validate_if_match-ok if_match u h₁, rw (uuid, check_permission_ids-ok ids v h₅) refl)

assignment-Good :
    (if_match user_id assignment_id path : Bytes)
    → (validate_if_match if_match >> assignment_path user_id assignment_id) ≡ ok path
    → Good if_match (user_id ∷ assignment_id ∷ [])
unfolding assignment_path
assignment-Good if_match user_id assignment_id path h =
    let (u, h₁, h₂) = >>=-eq-ok (validate_if_match if_match) _ h in
    let (p, h₃, h₄) = >>=-eq-ok (user_role_path user_id) _ h₂ in
    let (segment, h₅, h₆) = >>=-eq-ok (authorization_id assignment_id (bytes "assignment")) _ h₄ in
    let (uuid, at) = user_role_path-ok user_id p h₃ in
    let (other, same) = authorization_id-ok assignment_id (bytes "assignment") segment h₅ in
    (validate_if_match-ok if_match u h₁, rw (uuid, other) refl)

-- Every operation that changes or deletes something that has an ETag fails without sending anything, not even
-- for a token, if the If-Match is not a strong ETag or one of the IDs is not a UUID: of the role or
-- permission, of the user or assignment, or among the permissions that a role is to have.
pub change-Refused :
    (w : Wire) (c : Client) (k : Codec) (t : Instants) (s : State) (x : Change)
    → IsMalformed x
    → IsRefused w c k t s x
unfolding update_role delete_role update_permission delete_permission replace_role_permissions
    update_user_role delete_user_role
change-Refused w c k t s (updating_role id request if_match) m =
    checked_then-Refused _ s _ (λ p h.
      not-Bad if_match (id ∷ []) m (path-Good if_match (bytes "roles") (bytes "role") id p h))
change-Refused w c k t s (deleting_role id if_match) m =
    checked_then-Refused _ s _ (λ p h.
      not-Bad if_match (id ∷ []) m (path-Good if_match (bytes "roles") (bytes "role") id p h))
change-Refused w c k t s (updating_permission id request if_match) m =
    checked_then-Refused _ s _ (λ p h.
      not-Bad if_match (id ∷ []) m
        (path-Good if_match (bytes "permissions") (bytes "permission") id p h))
change-Refused w c k t s (deleting_permission id if_match) m = checked_then-Refused _ s _ (λ p h.
    not-Bad if_match (id ∷ []) m
      (path-Good if_match (bytes "permissions") (bytes "permission") id p h))
change-Refused w c k t s (replacing_permissions id ids if_match) m =
    checked_then-Refused _ s _ (λ p h. not-Bad if_match (id ∷ ids) m (set-Good if_match id ids p h))
change-Refused w c k t s (updating_assignment user_id id request if_match) m =
    checked_then-Refused _ s _
      (λ p h. not-Bad if_match (user_id ∷ id ∷ []) m (assignment-Good if_match user_id id p h))
change-Refused w c k t s (deleting_assignment user_id id if_match) m =
    checked_then-Refused _ s _
      (λ p h. not-Bad if_match (user_id ∷ id ∷ []) m (assignment-Good if_match user_id id p h))
