-- ===== src/Directory/Client.antt =====
-- pkg/client/keycloakv2/groups.go, roles.go, users.go, clients.go and identity_providers.go: the
-- requests of the chains as the client sends them, over the generated HTTP client. What it makes is
-- the answers (Api) of the chains.
pub mod Finding
use keycloak_config_sync_ope.Base.{
  Bool, true, false, Option, none, some, List, [], ◌∷◌, String, if◌then◌else◌, ◌==◌, Err, sentinel,
  Result, ok, err,
}
use keycloak_config_sync_ope.Base.{not_found}
use keycloak_config_sync_ope.Base.Dict.{Dict}
use keycloak_config_sync_ope.Keycloakv2.Responses.{Bodies}
use keycloak_config_sync_ope.AuthFlow.CreateOrUpdate.{points_to}
use keycloak_config_sync_ope.AuthFlow.Client.{Reply, Answer, receive, map_ok, listed, done}
use keycloak_config_sync_ope.Directory.{
  RoleRep, GroupRep, ClientRep, ClientMappings, FederatedIdentity, UserRep, Credential, Holder,
  group_realm, group_client, user_realm, user_client, role_composites, Source, in_realm, in_client,
  Call, Api,
}

-- The generated client, from the calls so far.
pub record Transport : Type 0 where
  pub on_list_roles : List Call → Holder → Answer (List RoleRep)
  pub on_add_roles : List Call → Holder → List RoleRep → Answer (Unit {0})
  pub on_remove_roles : List Call → Holder → List RoleRep → Answer (Unit {0})
  pub on_get_role : List Call → Source → String → Answer RoleRep
  pub on_search_groups : List Call → String → String → Answer (List GroupRep)
  pub on_search_child_groups : List Call → String → String → String → Answer (List GroupRep)
  pub on_search_users : List Call → String → String → Answer (List UserRep)
  pub on_create_group : List Call → String → GroupRep → Answer (Unit {0})
  pub on_update_group : List Call → String → String → GroupRep → Answer (Unit {0})
  pub on_delete_group : List Call → String → String → Answer (Unit {0})
  pub on_child_groups : List Call → String → String → Answer (List GroupRep)
  pub on_create_child_group : List Call → String → String → GroupRep → Answer (Unit {0})
  pub on_list_mappings : List Call → String → String → Answer (Option (Dict ClientMappings))
  pub on_get_group_by_path : List Call → String → String → Answer GroupRep
  pub on_create_role : List Call → String → RoleRep → Answer (Unit {0})
  pub on_update_role : List Call → String → String → RoleRep → Answer (Unit {0})
  pub on_delete_role : List Call → String → String → Answer (Unit {0})
  pub on_get_clients : List Call → String → String → Answer (List ClientRep)
  pub on_create_user : List Call → String → UserRep → Answer (Unit {0})
  pub on_update_user : List Call → String → String → UserRep → Answer (Unit {0})
  pub on_delete_user : List Call → String → String → Answer (Unit {0})
  pub on_set_password : List Call → String → String → Credential → Answer (Unit {0})
  pub on_user_groups : List Call → String → String → Answer (List GroupRep)
  pub on_join_group : List Call → String → String → String → Answer (Unit {0})
  pub on_leave_group : List Call → String → String → String → Answer (Unit {0})
  pub on_federated_identities : List Call → String → String → Answer (List FederatedIdentity)
  pub on_link_identity :
      List Call → String → String → String → FederatedIdentity → Answer (Unit {0})
  pub on_unlink_identity : List Call → String → String → String → Answer (Unit {0})
  pub on_get_identity_provider : List Call → String → String → Answer (Unit {0})
  pub on_delete_identity_provider : List Call → String → String → Answer (Unit {0})

-- `findGroupInList`
unfoldable pub find_group_in_list : List GroupRep → String → Option GroupRep
find_group_in_list [] name = none
find_group_in_list (g ∷ gs) name =
    if points_to g.name name then some g else find_group_in_list gs name

-- A value that was looked for: `ErrNotFound` if there is none.
abbrev pub or_not_found : {A : Type 0} → Option A → Result (Option A)
or_not_found none = err (sentinel not_found)
or_not_found (some a) = ok (some a)

abbrev pub first_of : {A : Type 0} → List A → Option A
first_of [] = none
first_of (a ∷ rest) = some a

abbrev pub then_result : {A B : Type 0} → Result A → (A → Result B) → Result B
then_result (ok a) f = f a
then_result (err e) f = err e

module _ (bodies : Bodies) (transport : Transport) where
  unfoldable pub client_create_group : List Call → String → GroupRep → Result (Option String)
  unfolding receive
  client_create_group h realm group =
      map_ok (λ reply. reply.location) (receive bodies (transport.on_create_group h realm group))

  unfoldable pub client_update_group : List Call → String → String → GroupRep → Result (Unit {0})
  unfolding receive
  client_update_group h realm id group =
      map_ok done (receive bodies (transport.on_update_group h realm id group))

  unfoldable pub client_delete_group : List Call → String → String → Result (Unit {0})
  unfolding receive
  client_delete_group h realm id =
      map_ok done (receive bodies (transport.on_delete_group h realm id))

  unfoldable pub client_get_child_groups : List Call → String → String → Result (List GroupRep)
  unfolding receive
  client_get_child_groups h realm id =
      map_ok (λ reply. listed reply.json) (receive bodies (transport.on_child_groups h realm id))

  unfoldable pub client_create_child_group :
      List Call → String → String → GroupRep → Result (Option String)
  unfolding receive
  client_create_child_group h realm parent group =
      map_ok (λ reply. reply.location)
        (receive bodies (transport.on_create_child_group h realm parent group))

  unfoldable pub client_get_role_mappings :
      List Call → String → String → Result (Option (Option (Dict ClientMappings)))
  unfolding receive
  client_get_role_mappings h realm id =
      map_ok (λ reply. reply.json) (receive bodies (transport.on_list_mappings h realm id))

  unfoldable pub client_get_group_by_path : List Call → String → String → Result (Option GroupRep)
  unfolding receive
  client_get_group_by_path h realm path =
      map_ok (λ reply. reply.json) (receive bodies (transport.on_get_group_by_path h realm path))

  unfoldable pub client_create_realm_role : List Call → String → RoleRep → Result (Unit {0})
  unfolding receive
  client_create_realm_role h realm role =
      map_ok done (receive bodies (transport.on_create_role h realm role))

  unfoldable pub client_update_realm_role :
      List Call → String → String → RoleRep → Result (Unit {0})
  unfolding receive
  client_update_realm_role h realm name role =
      map_ok done (receive bodies (transport.on_update_role h realm name role))

  unfoldable pub client_delete_realm_role : List Call → String → String → Result (Unit {0})
  unfolding receive
  client_delete_realm_role h realm name =
      map_ok done (receive bodies (transport.on_delete_role h realm name))

  unfoldable pub client_get_clients : List Call → String → String → Result (List ClientRep)
  unfolding receive
  client_get_clients h realm client_id =
      map_ok (λ reply. listed reply.json)
        (receive bodies (transport.on_get_clients h realm client_id))

  unfoldable pub client_create_user : List Call → String → UserRep → Result (Option String)
  unfolding receive
  client_create_user h realm user =
      map_ok (λ reply. reply.location) (receive bodies (transport.on_create_user h realm user))

  unfoldable pub client_update_user : List Call → String → String → UserRep → Result (Unit {0})
  unfolding receive
  client_update_user h realm id user =
      map_ok done (receive bodies (transport.on_update_user h realm id user))

  unfoldable pub client_delete_user : List Call → String → String → Result (Unit {0})
  unfolding receive
  client_delete_user h realm id = map_ok done (receive bodies (transport.on_delete_user h realm id))

  unfoldable pub client_set_user_password :
      List Call → String → String → Credential → Result (Unit {0})
  unfolding receive
  client_set_user_password h realm id credential =
      map_ok done (receive bodies (transport.on_set_password h realm id credential))

  unfoldable pub client_get_user_groups : List Call → String → String → Result (List GroupRep)
  unfolding receive
  client_get_user_groups h realm id =
      map_ok (λ reply. listed reply.json) (receive bodies (transport.on_user_groups h realm id))

  unfoldable pub client_add_user_to_group : List Call → String → String → String → Result (Unit {0})
  unfolding receive
  client_add_user_to_group h realm id group =
      map_ok done (receive bodies (transport.on_join_group h realm id group))

  unfoldable pub client_remove_user_from_group :
      List Call → String → String → String → Result (Unit {0})
  unfolding receive
  client_remove_user_from_group h realm id group =
      map_ok done (receive bodies (transport.on_leave_group h realm id group))

  unfoldable pub client_get_user_federated_identities :
      List Call → String → String → Result (List FederatedIdentity)
  unfolding receive
  client_get_user_federated_identities h realm id =
      map_ok (λ reply. listed reply.json)
        (receive bodies (transport.on_federated_identities h realm id))

  unfoldable pub client_create_user_federated_identity :
      List Call → String → String → String → FederatedIdentity → Result (Unit {0})
  unfolding receive
  client_create_user_federated_identity h realm id alias identity =
      map_ok done (receive bodies (transport.on_link_identity h realm id alias identity))

  unfoldable pub client_delete_user_federated_identity :
      List Call → String → String → String → Result (Unit {0})
  unfolding receive
  client_delete_user_federated_identity h realm id alias =
      map_ok done (receive bodies (transport.on_unlink_identity h realm id alias))

  unfoldable pub client_get_identity_provider : List Call → String → String → Result (Unit {0})
  unfolding receive
  client_get_identity_provider h realm alias =
      map_ok done (receive bodies (transport.on_get_identity_provider h realm alias))

  unfoldable pub client_delete_identity_provider : List Call → String → String → Result (Unit {0})
  unfolding receive
  client_delete_identity_provider h realm alias =
      map_ok done (receive bodies (transport.on_delete_identity_provider h realm alias))

  unfoldable pub client_get_realm_role_mappings :
      List Call → String → String → Result (List RoleRep)
  unfolding receive
  client_get_realm_role_mappings h realm id =
      map_ok (λ reply. listed reply.json)
        (receive bodies (transport.on_list_roles h (group_realm realm id)))

  unfoldable pub client_get_client_role_mappings :
      List Call → String → String → String → Result (List RoleRep)
  unfolding receive
  client_get_client_role_mappings h realm id uuid =
      map_ok (λ reply. listed reply.json)
        (receive bodies (transport.on_list_roles h (group_client realm id uuid)))

  unfoldable pub client_get_user_realm_role_mappings :
      List Call → String → String → Result (List RoleRep)
  unfolding receive
  client_get_user_realm_role_mappings h realm id =
      map_ok (λ reply. listed reply.json)
        (receive bodies (transport.on_list_roles h (user_realm realm id)))

  unfoldable pub client_get_user_client_role_mappings :
      List Call → String → String → String → Result (List RoleRep)
  unfolding receive
  client_get_user_client_role_mappings h realm id uuid =
      map_ok (λ reply. listed reply.json)
        (receive bodies (transport.on_list_roles h (user_client realm id uuid)))

  unfoldable pub client_get_realm_role_composites :
      List Call → String → String → Result (List RoleRep)
  unfolding receive
  client_get_realm_role_composites h realm name =
      map_ok (λ reply. listed reply.json)
        (receive bodies (transport.on_list_roles h (role_composites realm name)))

  unfoldable pub client_add_realm_role_mappings :
      List Call → String → String → List RoleRep → Result (Unit {0})
  unfolding receive
  client_add_realm_role_mappings h realm id roles =
      map_ok done (receive bodies (transport.on_add_roles h (group_realm realm id) roles))

  unfoldable pub client_add_client_role_mappings :
      List Call → String → String → String → List RoleRep → Result (Unit {0})
  unfolding receive
  client_add_client_role_mappings h realm id uuid roles =
      map_ok done (receive bodies (transport.on_add_roles h (group_client realm id uuid) roles))

  unfoldable pub client_add_user_realm_roles :
      List Call → String → String → List RoleRep → Result (Unit {0})
  unfolding receive
  client_add_user_realm_roles h realm id roles =
      map_ok done (receive bodies (transport.on_add_roles h (user_realm realm id) roles))

  unfoldable pub client_add_user_client_roles :
      List Call → String → String → String → List RoleRep → Result (Unit {0})
  unfolding receive
  client_add_user_client_roles h realm id uuid roles =
      map_ok done (receive bodies (transport.on_add_roles h (user_client realm id uuid) roles))

  unfoldable pub client_add_realm_role_composites :
      List Call → String → String → List RoleRep → Result (Unit {0})
  unfolding receive
  client_add_realm_role_composites h realm name roles =
      map_ok done (receive bodies (transport.on_add_roles h (role_composites realm name) roles))

  unfoldable pub client_delete_realm_role_mappings :
      List Call → String → String → List RoleRep → Result (Unit {0})
  unfolding receive
  client_delete_realm_role_mappings h realm id roles =
      map_ok done (receive bodies (transport.on_remove_roles h (group_realm realm id) roles))

  unfoldable pub client_delete_client_role_mappings :
      List Call → String → String → String → List RoleRep → Result (Unit {0})
  unfolding receive
  client_delete_client_role_mappings h realm id uuid roles =
      map_ok done (receive bodies (transport.on_remove_roles h (group_client realm id uuid) roles))

  unfoldable pub client_delete_user_realm_roles :
      List Call → String → String → List RoleRep → Result (Unit {0})
  unfolding receive
  client_delete_user_realm_roles h realm id roles =
      map_ok done (receive bodies (transport.on_remove_roles h (user_realm realm id) roles))

  unfoldable pub client_delete_user_client_roles :
      List Call → String → String → String → List RoleRep → Result (Unit {0})
  unfolding receive
  client_delete_user_client_roles h realm id uuid roles =
      map_ok done (receive bodies (transport.on_remove_roles h (user_client realm id uuid) roles))

  unfoldable pub client_delete_realm_role_composites :
      List Call → String → String → List RoleRep → Result (Unit {0})
  unfolding receive
  client_delete_realm_role_composites h realm name roles =
      map_ok done (receive bodies (transport.on_remove_roles h (role_composites realm name) roles))

  unfoldable pub client_get_realm_role : List Call → String → String → Result (Option RoleRep)
  unfolding receive
  client_get_realm_role h realm name =
      map_ok (λ reply. reply.json) (receive bodies (transport.on_get_role h (in_realm realm) name))

  unfoldable pub client_get_client_role :
      List Call → String → String → String → Result (Option RoleRep)
  unfolding receive
  client_get_client_role h realm uuid name =
      map_ok (λ reply. reply.json)
        (receive bodies (transport.on_get_role h (in_client realm uuid) name))

  unfoldable pub client_find_group_by_name : List Call → String → String → Result (Option GroupRep)
  unfolding receive find_group_in_list
  client_find_group_by_name h realm name =
      then_result (receive bodies (transport.on_search_groups h realm name))
        (λ reply. or_not_found (find_group_in_list (listed reply.json) name))

  unfoldable pub client_find_child_group_by_name :
      List Call → String → String → String → Result (Option GroupRep)
  unfolding receive find_group_in_list
  client_find_child_group_by_name h realm parent name =
      then_result (receive bodies (transport.on_search_child_groups h realm parent name))
        (λ reply. or_not_found (find_group_in_list (listed reply.json) name))

  unfoldable pub client_find_user_by_username :
      List Call → String → String → Result (Option UserRep)
  unfolding receive
  client_find_user_by_username h realm username =
      then_result (receive bodies (transport.on_search_users h realm username))
        (λ reply. or_not_found (first_of (listed reply.json)))

  -- The answers of Keycloak through this client; those about realms are as in `rest`.
  unfoldable pub api_of : Api → Api
  unfolding client_create_group client_update_group client_delete_group client_get_child_groups
      client_create_child_group client_get_role_mappings client_get_group_by_path
      client_create_realm_role client_update_realm_role client_delete_realm_role client_get_clients
      client_create_user client_update_user client_delete_user client_set_user_password
      client_get_user_groups client_add_user_to_group client_remove_user_from_group
      client_get_user_federated_identities client_create_user_federated_identity
      client_delete_user_federated_identity client_get_identity_provider
      client_delete_identity_provider client_get_realm_role_mappings client_get_client_role_mappings
      client_get_user_realm_role_mappings client_get_user_client_role_mappings
      client_get_realm_role_composites client_add_realm_role_mappings
      client_add_client_role_mappings client_add_user_realm_roles client_add_user_client_roles
      client_add_realm_role_composites client_delete_realm_role_mappings
      client_delete_client_role_mappings client_delete_user_realm_roles
      client_delete_user_client_roles client_delete_realm_role_composites client_get_realm_role
      client_get_client_role client_find_group_by_name client_find_child_group_by_name
      client_find_user_by_username
  api_of rest = record rest {
    on_list_roles = λ h holder. elim holder [
      | group_realm realm id ↦ client_get_realm_role_mappings h realm id
      | group_client realm id uuid ↦ client_get_client_role_mappings h realm id uuid
      | user_realm realm id ↦ client_get_user_realm_role_mappings h realm id
      | user_client realm id uuid ↦ client_get_user_client_role_mappings h realm id uuid
      | role_composites realm name ↦ client_get_realm_role_composites h realm name
    ];
    on_add_roles = λ h holder roles. elim holder [
      | group_realm realm id ↦ client_add_realm_role_mappings h realm id roles
      | group_client realm id uuid ↦ client_add_client_role_mappings h realm id uuid roles
      | user_realm realm id ↦ client_add_user_realm_roles h realm id roles
      | user_client realm id uuid ↦ client_add_user_client_roles h realm id uuid roles
      | role_composites realm name ↦ client_add_realm_role_composites h realm name roles
    ];
    on_remove_roles = λ h holder roles. elim holder [
      | group_realm realm id ↦ client_delete_realm_role_mappings h realm id roles
      | group_client realm id uuid ↦ client_delete_client_role_mappings h realm id uuid roles
      | user_realm realm id ↦ client_delete_user_realm_roles h realm id roles
      | user_client realm id uuid ↦ client_delete_user_client_roles h realm id uuid roles
      | role_composites realm name ↦ client_delete_realm_role_composites h realm name roles
    ];
    on_get_role = λ h source name. elim source [
      | in_realm realm ↦ client_get_realm_role h realm name
      | in_client realm uuid ↦ client_get_client_role h realm uuid name
    ];
    on_find_group = client_find_group_by_name;
    on_find_child_group = client_find_child_group_by_name;
    on_find_user = client_find_user_by_username;
    on_create_group = client_create_group;
    on_update_group = client_update_group;
    on_delete_group = client_delete_group;
    on_child_groups = client_get_child_groups;
    on_create_child_group = client_create_child_group;
    on_list_mappings = client_get_role_mappings;
    on_get_group_by_path = client_get_group_by_path;
    on_create_role = client_create_realm_role;
    on_update_role = client_update_realm_role;
    on_delete_role = client_delete_realm_role;
    on_get_clients = client_get_clients;
    on_create_user = client_create_user;
    on_update_user = client_update_user;
    on_delete_user = client_delete_user;
    on_set_password = client_set_user_password;
    on_user_groups = client_get_user_groups;
    on_join_group = client_add_user_to_group;
    on_leave_group = client_remove_user_from_group;
    on_federated_identities = client_get_user_federated_identities;
    on_link_identity = client_create_user_federated_identity;
    on_unlink_identity = client_delete_user_federated_identity;
    on_get_identity_provider = client_get_identity_provider;
    on_delete_identity_provider = client_delete_identity_provider;
  }
