-- ===== src/Lib.antt =====
-- The Keycloak configuration operator (keycloak-config-sync.operators.infra): a Kubernetes
-- operator in Go that brings realms, flows, clients and users of Keycloak in line with custom
-- resources.
--
-- Parts. A controller reads an object, gets a client of Keycloak, and runs a chain of handlers, each
-- of which compares what Keycloak lists with the spec and sends what is missing. A handler
-- writes to the status of the object in memory; the controller saves it, and keeps a finalizer on
-- the object until what it made in Keycloak is gone. Flushes delete from Keycloak what a realm no
-- longer lists, by the IDs on record in the status. References to secrets are resolved first.
--
-- Files and code:
-- - Base: errors as values (Err), results, actions on a state (Act), histories (Extends), maps
--   (Dict) and signed integers (Int); Base/Runs: what every run of an action does.
-- - Secretref: pkg/secretref/secretref.go; Secretref/Source: pkg/secretref/sourceref.go and the
--   types of api/common/ref.go.
-- - ObjectMeta: pkg/objectmeta/deletion.go.
-- - Keycloakv2: the tests of pkg/client/keycloakv2/error.go (IsNotFound as is_not_found, and so on) and
--   GetResourceIDFromResponse of pkg/client/keycloakv2/http.go as resource_id;
--   Keycloakv2/Responses: parseKeycloakError and checkResponseError.
-- - Slices: RemoveSliceIndex and RemoveDuplicates of
--   internal/controller/helper/controller_helper.go, a slice with the array behind it.
-- - Flush: internal/controller/keycloakrealm/chain/group/flush.go and identityprovider/flush.go;
--   Flush/Roles: role/flush.go.
-- - AuthFlow: api/v1alpha1/keycloakauthflow_types.go, the requests (Call) and the answers (Api);
--   AuthFlow/CreateOrUpdate, AuthFlow/Sync and AuthFlow/Remove: the three handlers of
--   internal/controller/keycloakauthflow/chain, each `Serve` as serve; AuthFlow/Client: the requests of
--   pkg/client/keycloakv2/auth_flows.go that the handlers use; AuthFlow/Cluster: the
--   Kubernetes side, with SetRealmOwnerRef, GetRealmNameFromRef, GetKeycloakRealmFromRef,
--   RemoveFinalizersOnRealmNotFound and IsUnauthorizedError of the helper; AuthFlow/Controller:
--   keycloakauthflow_controller.go and chain/chain.go.
-- - Deletion: TryToDelete and TryRemoveFinalizer of the helper.
-- - Directory: the requests (Call) and the answers (Api) for groups, roles, clients, users and identity
--   providers, and the session that the handlers of one chain share (GroupContext, RoleContext,
--   UserContext); Directory/Roles: the comparison of listed and claimed roles, which four
--   handlers make; Directory/Chain: `run` of a chain, with the renewal of the client;
--   Directory/Client: the requests of groups.go, roles.go, users.go, clients.go and
--   identity_providers.go of pkg/client/keycloakv2 that the handlers use.
-- - Groups: internal/controller/keycloakrealm/chain/group/create_or_update_group.go and
--   sync_sub_groups.go; Groups/Roles: sync_realm_roles.go and sync_client_roles.go; Groups/Chain:
--   chain.go; Groups/Sorting: SortRealmGroupByParent and SortRealmGroupByParentFirstChild of the
--   helper.
-- - RealmRoles: internal/controller/keycloakrealm/chain/role/create_or_update_role.go, make_default.go and
--   remove_role.go; RealmRoles/Composites: sync_composites.go; RealmRoles/Chain: chain.go.
-- - Users: internal/controller/keycloakuser/chain/create_or_update_user.go and remove_user.go;
--   Users/Roles, Users/Memberships and Users/Links: sync_user_roles.go, sync_user_groups.go and
--   sync_user_identity_providers.go; Users/Password: set_user_password.go; Users/Chain:
--   cleanup_resource.go and chain.go.
-- - Terminator: internal/controller/keycloakrealm/terminator.go.
-- - Failures: internal/controller/helper/controller_helper_failure_counter.go.
-- - Tokens: internal/controller/helper/controller_helper_auth.go.
-- - Clients: what the handlers of a client ask of the legacy client, an interface of
--   pkg/client/keycloak/keycloak_client.go (Call, Api), and
--   internal/controller/keycloakclient/chain/client/conditions.go; Clients/RealmRoles: put_realm_role.go
--   there; Clients/Authorization: process_scope.go, process_resources.go, process_policy.go and
--   process_permissions.go, with the loops that they have in common as sync_items, delete_parts and
--   serve_items, what is sent in Clients/Authorization/Conversions (api/v1alpha1/client_authorization.go)
--   and each `Serve` in Clients/Authorization/Handlers; the other files there are lemmas.
-- - Tests: the theorems at concrete inputs.
--
-- Choices. What Keycloak and Kubernetes answer is a parameter: a function of the requests so far,
-- so the theorems hold for every behaviour of them, also for one that changes between two
-- requests. A history of requests is a list, newest first. A Go error is how it was made, with the
-- format and its arguments, so that errors.Is and errors.As look inside; its text is
-- a parameter where the code reads it. A nil pointer that is followed is an error of its own,
-- nil_dereference, which no code wraps or retries, as a panic would not be. A Go map is an
-- association list in the order in which it is visited, which no theorem fixes, or is visited in an
-- order that the environment chooses (key_order). Go's int is an integer without bound, and its
-- conversion to int32 keeps the low 32 bits; failure counts and durations keep 64. A representation
-- of Keycloak has the fields that are read or written, and the others as they came (rest). An
-- accepted update leaves the object in memory as it was sent. Logs are left out.
--
-- Fuel. Nearly every loop ends with the list that it visits, so no fuel is needed; the loop of a flush
-- reads its array at as many indices as the slice had at the start. The sorts of groups are on
-- fuel, and one more than the levels of the groups is enough. A deletion of the Terminator
-- starts again after each renewed client, which nothing in the code bounds; its result says whether the
-- fuel was enough.
--
-- Parameters for code outside the repository: net/url (Urls), encoding/json and the texts of
-- net/http (Bodies), the generated HTTP client (Transport), strings (in Cluster and Texts), and sort.Slice, of
-- which serve-Adds assumes that it returns the same entries in the order of the priorities. The client
-- that the helper makes for a reference to a configuration is a parameter of the controller and
-- of the chains; in Tokens it comes from a login, which is a parameter there.
--
-- Not modelled: the other controllers (realms, clients, users, components, scope mappings), the
-- chains of realms and of identity providers, the other handlers of clients, the other wrappers of
-- the generated HTTP client, the legacy adapter, the realm builder, webhooks, generated code and
-- start-up.
pub mod Base
pub mod Secretref
pub mod ObjectMeta
pub mod Keycloakv2
pub mod Slices
pub mod Flush
pub mod AuthFlow
pub mod Deletion
pub mod Directory
pub mod Groups
pub mod Users
pub mod RealmRoles
pub mod Terminator
pub mod Failures
pub mod Tokens
pub mod Clients
pub mod Tests
