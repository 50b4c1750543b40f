-- ===== src/Clients/Authorization/Conversions.antt =====
-- What the handlers of an authorization send for the resources, policies and permissions of
-- api/v1alpha1/client_authorization.go: names are replaced by the IDs that Keycloak lists.
pub mod Spec
use keycloak_config_sync_ope.Base.{
  Bool, Option, none, some, List, [], ◌∷◌, map, String, if◌then◌else◌, ◌==◌, errorf, Act, pure,
  fail, ◌>>=◌, wrap,
}
use keycloak_config_sync_ope.Base.Dict
use keycloak_config_sync_ope.Base.Dict.{Dict}
use keycloak_config_sync_ope.Clients.{
  Entity, scope, resource, policy, Listing, parts_of, clients_of, groups_of, realm_roles_of,
  users_of, ResourceRep, PolicyBody, policy_ids, client_ids, group_ids, role_ids, times, user_ids,
  PolicyRep, PermissionRep, Api, ClientState, branch,
}
use keycloak_config_sync_ope.Clients.Authorization.{do_list}
pub use keycloak_config_sync_ope.Clients.Authorization.Conversions.Spec.{
  Resource, Policy, Permission, Authorization,
}

-- A name that is looked up, and its ID: the formats of the two errors.
unfoldable pub with_id : String → String → Dict Entity → String → Act ClientState (String × Entity)
with_id absent nameless m name =
    branch (Dict.lookup name m) (fail (errorf absent (name ∷ [])))
      (λ entity. branch entity.id (fail (errorf nameless (name ∷ []))) (λ id. pure (id, entity)))

-- The loop over the names.
unfoldable pub resolve :
    String → String → Dict Entity → List String → Act ClientState (List (String × Entity))
unfolding with_id
resolve absent nameless m [] = pure []
resolve absent nameless m (name ∷ names) =
    with_id absent nameless m name
    >>= (λ found. resolve absent nameless m names >>= (λ others. pure (found ∷ others)))

-- The same for names with a flag.
unfoldable pub resolve_flagged :
    String → String → Dict Entity → List (String × Bool) → Act ClientState (List (String × Bool))
unfolding with_id
resolve_flagged absent nameless m [] = pure []
resolve_flagged absent nameless m ((name, flag) ∷ names) =
    with_id absent nameless m name >>= (λ found.
      resolve_flagged absent nameless m names >>= (λ others. pure ((found.0, flag) ∷ others)))

abbrev pub ids_of : List (String × Entity) → List String
ids_of found = map (λ e. e.0) found

-- The settings of a policy that must be given.
abbrev pub given : {A : Type 0} → String → Option A → Act ClientState A
given missing settings = branch settings (fail (errorf missing [])) pure

module _ (api : Api) (realm client : String) where
  abbrev pub listed_scopes : Act ClientState (Dict Entity)
  listed_scopes =
      wrap "failed to get scopes: %w" []
        (do_list api (parts_of (record { kind = scope; realm = realm; client = client })))

  -- `mapScopes` of the resources
  unfoldable pub map_resource_scopes : List String → Act ClientState (List Entity)
  unfolding resolve
  map_resource_scopes [] = pure []
  map_resource_scopes (name ∷ names) = do
    existing ← listed_scopes
    found ← resolve "scope %s does not exist" "scope %s does not have ID" existing (name ∷ names)
    pure (map (λ e. e.1) found)

  -- `getBaseResourceRepresentation`, with the scopes that are set later. The copy of the attributes
  -- is made and dropped there.
  unfoldable pub base_resource : Resource → List Entity → ResourceRep
  base_resource r scopes = record {
    name = r.name;
    display_name = r.display_name;
    resource_type = r.resource_type;
    icon_uri = r.icon_uri;
    owner_managed_access = r.owner_managed_access;
    uris = r.uris;
    attributes = none;
    scopes = scopes;
  }

  -- `toResourceRepresentation`
  unfoldable pub to_resource_representation : Resource → Act ClientState ResourceRep
  unfolding map_resource_scopes base_resource
  to_resource_representation r = do
    scopes ← wrap "failed to map scopes: %w" [] (map_resource_scopes r.scopes)
    pure (base_resource r scopes)

  unfoldable pub to_aggregate_policy : Policy → Act ClientState PolicyBody
  unfolding resolve
  to_aggregate_policy p = do
    names ← given "aggregatedPolicy spec is not specified" p.aggregated_policy
    existing ←
        wrap "failed to get policies: %w" []
          (do_list api (parts_of (record { kind = policy; realm = realm; client = client })))
    found ← resolve "policy %s does not exist" "policy %s does not have ID" existing names
    pure (policy_ids (ids_of found))

  unfoldable pub to_client_policy : Policy → Act ClientState PolicyBody
  unfolding resolve
  to_client_policy p = do
    names ← given "clientPolicy spec is not specified" p.client_policy
    existing ← wrap "failed to get clients: %w" [] (do_list api (clients_of realm))
    found ← resolve "client %s does not exist" "client %s does not have ID" existing names
    pure (client_ids (ids_of found))

  unfoldable pub to_group_policy : Policy → Act ClientState PolicyBody
  unfolding resolve_flagged
  to_group_policy p = do
    groups ← given "group spec is not specified" p.group_policy
    existing ← wrap "failed to get groups: %w" [] (do_list api (groups_of realm))
    found ← resolve_flagged "group %s does not exist" "group %s does not have ID" existing groups.0
    pure (group_ids found groups.1)

  unfoldable pub to_role_policy : Policy → Act ClientState PolicyBody
  unfolding resolve_flagged
  to_role_policy p = do
    roles ← given "role spec is not specified" p.role_policy
    existing ← wrap "failed to get realm roles: %w" [] (do_list api (realm_roles_of realm))
    found ← resolve_flagged "role %s does not exist" "role %s does not have ID" existing roles
    pure (role_ids found)

  unfoldable pub to_time_policy : Policy → Act ClientState PolicyBody
  to_time_policy p =
      given "time spec is not specified" p.time_policy >>= (λ fields. pure (times fields))

  unfoldable pub to_user_policy : Policy → Act ClientState PolicyBody
  unfolding resolve
  to_user_policy p = do
    names ← given "user spec is not specified" p.user_policy
    existing ← wrap "failed to get users: %w" [] (do_list api (users_of realm names))
    found ← resolve "user %s does not exist" "user %s does not have ID" existing names
    pure (user_ids (ids_of found))

  -- The switch over the types.
  unfoldable pub policy_body : Policy → Act ClientState PolicyBody
  unfolding to_aggregate_policy to_client_policy to_group_policy to_role_policy to_time_policy
      to_user_policy
  policy_body p =
      if p.policy_type == "aggregate"
      then to_aggregate_policy p
      else if p.policy_type == "client"
      then to_client_policy p
      else if p.policy_type == "group"
      then to_group_policy p
      else if p.policy_type == "role"
      then to_role_policy p
      else if p.policy_type == "time"
      then to_time_policy p
      else if p.policy_type == "user"
      then to_user_policy p
      else fail (errorf "unsupported policy type %s" (p.policy_type ∷ []))

  -- `toPolicyRepresentation`, with `getBasePolicyRepresentation`
  unfoldable pub to_policy_representation : Policy → Act ClientState PolicyRep
  unfolding policy_body
  to_policy_representation p = policy_body p >>= (λ body. pure (record {
    name = p.name;
    policy_type = p.policy_type;
    description = p.description;
    decision_strategy = p.decision_strategy;
    logic = p.logic;
    body = body;
  }))

  -- `mapResources`, `mapPolicies` and `mapScopes` of the permissions
  unfoldable pub map_names :
      Listing → String → String → String → List String → Act ClientState (List String)
  unfolding resolve
  map_names listing list_failed absent nameless [] = pure []
  map_names listing list_failed absent nameless (name ∷ names) = do
    existing ← wrap list_failed [] (do_list api listing)
    found ← resolve absent nameless existing (name ∷ names)
    pure (ids_of found)

  unfoldable pub map_scopes : Permission → Act ClientState (Option (List String))
  unfolding map_names
  map_scopes p =
      if p.permission_type == "scope"
      then (wrap "failed to map scopes: %w" [] (
            map_names (parts_of (record { kind = scope; realm = realm; client = client }))
              "failed to get scopes: %w" "scope %s does not exist" "scope %s does not have ID"
              p.scopes)
          >>= (λ ids. pure (some ids)))
      else pure none

  -- `toPermissionRepresentation`, with `getBasePermissionRepresentation`
  unfoldable pub to_permission_representation : Permission → Act ClientState PermissionRep
  unfolding map_names map_scopes
  to_permission_representation p = do
    resources ← wrap "failed to map resources: %w" [] (
        map_names (parts_of (record { kind = resource; realm = realm; client = client }))
          "failed to get resources: %w" "resource %s does not exist" "resource %s does not have ID"
          p.resources)
    policies ← wrap "failed to map policies: %w" [] (
        map_names (parts_of (record { kind = policy; realm = realm; client = client }))
          "failed to get polices: %w" "policy %s does not exist" "policy %s does not have ID"
          p.policies)
    scopes ← map_scopes p
    pure (record {
      name = p.name;
      permission_type = p.permission_type;
      description = p.description;
      decision_strategy = p.decision_strategy;
      logic = p.logic;
      resources = resources;
      policies = policies;
      scopes = scopes;
    })
