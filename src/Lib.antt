-- ===== src/Lib.antt =====
-- Verification of the Go SDK of the Vertex IAM service: the parts that decide who may do what, and
-- the client that declares a service's permissions.
--
-- The program. An HTTP request passes `middleware.Auth` (middleware/auth.go), which takes the token
-- out of the Authorization header (middleware/bearer.go), has it verified (jwt/verifier.go) with the
-- issuer's keys (jwt/jwks.go), asks the resolver (authz/http_resolver.go) for the permissions of the
-- token's roles, and puts a user into the request's context (authz/context.go). Guards in front of
-- the handlers (middleware/require_perm.go, and gin/middleware.go and echo/middleware.go for two
-- frameworks) then test the user's permissions with the matching rules of authz/permission.go. Apart
-- from this, permission_manifest.go prepares a service's permission declarations, sends them to the
-- server under a budget of requests, and checks what the server says it did. Two clients reach the
-- management operations: client.go, for a user's own account and for the resolver, and
-- portal_open_api_client.go, over which authorization_management_client.go and
-- organization_management_client.go manage roles, permissions, organizations and members.
--
-- The files, by part; each directory of the same name has the proofs and the tests of its file:
--   Prelude      Go's strings as lists of bytes, their order, UTF-8, sorting, results with an error
--   Config       config.go: `SDKConfig` is `SdkConfig`, `Validate` is `validate`
--   Permission   authz/permission.go: `ParsePermission`, `Matches`, `HasPermission` and the like
--   Cache        the interface of the caches of permissions and profiles, which is a library
--   Resolver     authz/http_resolver.go: `cacheKey`, `Resolve`, `Invalidate`, `Clear`
--   AuthContext  authz/context.go: `User`, `WithUser`, `FromContext`, `MustPermission`
--   Jwks         jwt/jwks.go: `KeyByID` in the parts between which concurrent calls interleave, and
--                `key_by_id`, its run without another call
--   Verifier     jwt/verifier.go and jwt/claims.go: `Verify` over an interface of the JOSE library
--   Middleware   middleware/*.go: `Auth`, `BearerToken` and the guards, as functions from a request's
--                context to the answer
--   Adapters     gin/middleware.go and echo/middleware.go: their guards, which are the same in both
--   CurrentUser  current_user.go: `GetCurrentUser`, `ParseCurrentUser`, and `normalizeBearer` of
--                client.go
--   Generator    cmd/iam-codegen/generator/generate.go: `ConstName`, and `Render` up to its template
--   Json         permission_manifest.go: `decodeStrictJSON` and `rejectDuplicateJSONMembers`, over the
--                tokens of encoding/json
--   Portal       portal_open_api_client.go: construction, the scopes and what is sent; below it Token
--                (`GetMachineToken`, `ClearTokenCache`) and Request (`RequestJSON` and
--                `requestJSONWithScopeAndHeaders`)
--   Authorization  authorization_management_client.go: pages, identifiers, ETags; below it Items (what
--                is decoded and its checks) and the operations in Roles, Permissions, Bindings,
--                Assignments
--   Organization organization_management_client.go: data, paths, queries and headers; below it the
--                operations, in Operations and Members
--   Http         client.go: requests, their signatures and their repetition (`doJSON...Retry`); below it
--                Permissions (`ResolvePermissions`, `ListPermissions`) and Account (the operations of a
--                user's own account, `JWKS`)
--   Sdk          sdk.go: `GetMe` (`get_me`) and `UpdateAccountProfile` (`update_me`) with the cache of
--                profiles, `discoverJWKS`, `MustUser`
--   Testing      iamtest/mock_resolver.go and iamtest/context.go: the resolver and user for tests
--   Manifest     permission_manifest.go, in the modules Text (rules of a declaration), Canonical (the
--                text that is digested), the file itself (`PreparePermissionManifest`), Transport
--                (`execute`), Response (`validateManifestResult`), Client (construction), and below
--                it Sending (`machineToken`, `send`) and Commands (`UpsertPermissionManifest`,
--                `RunPermissionManifestStartup`)
--
-- Conventions. A Go string is its list of bytes. A result with an error is `Result`; a nil pointer is
-- `none`; errors are constructors where the code makes them, and keep the text that comes from
-- outside. State is passed on: an operation returns the resolver, the provider or the client after
-- it. Times are numbers of nanoseconds, and each reading of the clock is an argument. Signed numbers
-- are `ℤ`; those that a test has made non-negative are natural numbers. A token's lifetime is computed
-- in 64 bits with wrap-around.
--
-- Fuel. The retry loop of `execute` recurses on the number of rounds that its condition still admits,
-- `max_retries + 1` at first, so it ends by itself. `decode_rune` and `pieces` take the length of the
-- text, and every step takes at least one byte. The walk over the tokens of a JSON text has two rounds
-- for a token and one more, which any value with distinct members stays within. A number is written
-- with 20 digits at most, and an `int` has 19. Every other loop recurses on its list.
--
-- Parameters, for code that is not in this repository: the cache with laws that its documentation
-- states, the group of shared calls, the JOSE library, the answers of the servers, the end of a
-- context, SHA-256, base64, the test for Unicode normal form C, the tokens of a JSON text and its
-- decoding into a struct, the repetition of an attempt by the library backoff, the parsing of a
-- time, and the float64 arithmetic on a token's lifetime.
--
-- Not modelled: the REST clients of account_security*.go and registration_grant*.go; the construction
-- of the SDK and its methods that only hand on, in sdk.go; the chi aliases; the rest of cmd/iam-codegen; and the mock server.
pub mod Prelude
pub mod Config
pub mod Permission
pub mod Cache
pub mod Resolver
pub mod Sdk
pub mod AuthContext
pub mod Jwks
pub mod Verifier
pub mod Middleware
pub mod Adapters
pub mod Generator
pub mod Testing
pub mod Json
pub mod Portal
pub mod Authorization
pub mod Organization
pub mod Http
pub mod Manifest
pub mod CurrentUser
