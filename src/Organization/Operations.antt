-- ===== src/Organization/Operations.antt =====
-- organization_management_client.go: the operations on organizations. A value that no answer fills is the
-- zero value.
use vertex_sdk_go.Prelude.{[], ◌++◌, Option, none, some, Result, ok}
use vertex_sdk_go.Prelude.Int.{pos}
use vertex_sdk_go.Prelude.Strings.{Bytes, bytes}
use vertex_sdk_go.Portal.{PortalError, Client, Wire, Instants, State, Done, header_get}
use vertex_sdk_go.Portal.Request.{Answer, request_with_headers, request_with_scope}
use vertex_sdk_go.Authorization.{received, checked_then, with_result, no_output}
use vertex_sdk_go.Organization.{
  Organization, CreateOrganizationRequest, UpdateOrganizationRequest, ListOptions, Page, Codec,
  organization_path, organization_query, idempotency, if_match,
}

abbrev pub zero_organization : Organization
zero_organization = record {
  id = [];
  name = [];
  slug = [];
  version = pos 0;
  created_at = [];
  updated_at = [];
  etag = [];
}

abbrev pub zero_page : {V : Type 0} → Page V
zero_page = record {
  content = [];
  page = record { size = pos 0; number = pos 0; total_elements = pos 0; total_pages = pos 0 };
}

-- `&response`
abbrev pub filled : {V : Type 0} → V → Answer V → Result PortalError V
filled zero_value a = ok (received zero_value a).0

-- `response.ETag = headers.Get("ETag")`
unfoldable pub with_etag : Answer Organization → Result PortalError Organization
with_etag a =
    let (v, headers) = received zero_organization a in
    ok (record v { etag = header_get (headers (bytes "Etag")) })

module _ (w : Wire) (c : Client) (k : Codec) where
  -- `ListOrganizations`
  unfoldable pub list_organizations : Instants → ListOptions → State → Done (Page Organization)
  list_organizations t o s = with_result (filled zero_page) (
      request_with_scope w c (some k.decode_organizations) t (bytes "GET")
        (bytes "/open/v1/organizations" ++ organization_query o) (bytes "organizations:read") none
        s)

  -- `CreateOrganization`
  unfoldable pub create_organization :
      Instants → CreateOrganizationRequest → Option Bytes → State → Done Organization
  create_organization t request options s = with_result with_etag (
      request_with_headers w c (some k.decode_organization) (idempotency options) t (bytes "POST")
        (bytes "/open/v1/organizations") (bytes "organizations:write")
        (some (k.marshal_create request)) s)

  -- `GetOrganization`
  unfoldable pub get_organization : Instants → Bytes → State → Done Organization
  get_organization t id s = checked_then (organization_path id) s (λ path. with_result with_etag (
      request_with_headers w c (some k.decode_organization) [] t (bytes "GET") path
        (bytes "organizations:read") none s))

  -- `UpdateOrganization`
  unfoldable pub update_organization :
      Instants → Bytes → UpdateOrganizationRequest → Option Bytes → State → Done Organization
  update_organization t id request options s = checked_then (organization_path id) s (λ path.
      with_result with_etag (
        request_with_headers w c (some k.decode_organization) (if_match options) t (bytes "PATCH")
          path (bytes "organizations:write") (some (k.marshal_update request)) s))

  -- `DeleteOrganization`
  unfoldable pub delete_organization : Instants → Bytes → Option Bytes → State → Done (Unit {0})
  delete_organization t id options s = checked_then (organization_path id) s (λ path.
      with_result (λ a. ok tt)
        (request_with_headers w c no_output (if_match options) t (bytes "DELETE") path
          (bytes "organizations:write") none s))
