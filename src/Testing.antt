-- ===== src/Testing.antt =====
-- iamtest/mock_resolver.go and iamtest/context.go: a resolver and a user for tests.
use vertex_sdk_go.Prelude.{Bool, true, false, List, [], ◌∷◌, ◌++◌, none, some, if◌then◌else◌}
use vertex_sdk_go.Prelude.Strings.{Bytes, str_eq, sort_strings}
use vertex_sdk_go.AuthContext.{User, Context, with_user}

-- the map from roles to permissions
pub record MockResolver : Type 0 where
  pub roles_to_perms : Bytes → List Bytes

pub new_mock_resolver : MockResolver
new_mock_resolver = record { roles_to_perms = λ role. [] }

-- `Given`
pub given : MockResolver → Bytes → List Bytes → MockResolver
given m role perms = record {
  roles_to_perms = λ r. if str_eq r role then perms else m.roles_to_perms r;
}

seen : Bytes → List Bytes → Bool
seen p [] = false
seen p (q ∷ qs) = if str_eq p q then true else seen p qs

-- The loop over one role's permissions, from those found so far; they are in the order of `append`.
collect : List Bytes → List Bytes → List Bytes
unfolding seen
collect out [] = out
collect out (p ∷ ps) = collect (if seen p out then out else out ++ (p ∷ [])) ps

-- the loop over the roles
collect_roles : MockResolver → List Bytes → List Bytes → List Bytes
unfolding collect
collect_roles m out [] = out
collect_roles m out (r ∷ rs) = collect_roles m (collect out (m.roles_to_perms r)) rs

-- `Resolve`, which has no error
pub mock_resolve : MockResolver → List Bytes → List Bytes
unfolding collect_roles
mock_resolve m roles = sort_strings (collect_roles m [] roles)

abbrev pub UserOption : Type 0
UserOption = User → User

pub with_subject : Bytes → UserOption
with_subject sub u = record u { subject = sub }

pub with_email : Bytes → UserOption
with_email email u = record u { email = email }

pub with_app_id : Bytes → UserOption
with_app_id id u = record u { app_id = id }

pub with_roles : List Bytes → UserOption
with_roles roles u = record u { roles = roles }

pub with_permissions : List Bytes → UserOption
with_permissions perms u = record u { permissions = perms }

pub with_org : Bytes → Bytes → UserOption
with_org org_id org_role u = record u { org_id = org_id; org_role = org_role }

pub with_acr : Bytes → UserOption
with_acr acr u = record u { acr = acr }

pub with_impersonator : Bytes → UserOption
with_impersonator actor u = record u { actor = some (record { subject = actor }) }

abbrev empty_user : User
empty_user = record {
  subject = [];
  app_id = [];
  email = [];
  org_id = [];
  org_role = [];
  workspace_id = [];
  session_id = [];
  roles = [];
  permissions = [];
  amr = [];
  acr = [];
  actor = none;
  claims = [];
}

apply_all : List UserOption → User → User
apply_all [] u = u
apply_all (o ∷ os) u = apply_all os (o u)

-- `NewContext`
pub new_context : Context → List UserOption → Context
unfolding apply_all
new_context ctx opts = with_user (some (apply_all opts empty_user)) ctx
