-- ===== src/Clients/Authorization/Handlers.antt =====
-- `Serve` of process_scope.go, process_resources.go, process_policy.go and process_permissions.go.
use keycloak_config_sync_ope.Base.{
  Bool, false, Option, none, some, [], String, ◌==◌, Act, pure, ◌>>=◌,
}
use keycloak_config_sync_ope.Clients.{
  Entity, Kind, scope, resource, policy, permission, Place, Rep, scope_rep, resource_rep,
  policy_rep, permission_rep, create, update, Api, ClientState, ask, branch, Reporter, reported,
}
use keycloak_config_sync_ope.Directory.{annotate}
use keycloak_config_sync_ope.Clients.Authorization.{Part, serve_items}
use keycloak_config_sync_ope.Clients.Authorization.Conversions.{
  Resource, Policy, Permission, Authorization, to_resource_representation, to_policy_representation,
  to_permission_representation,
}

-- The fields of `DataClient` that the four handlers read.
pub record AuthorizedClient : Type 0 where
  pub client_id : String
  pub reconciliation_strategy : String
  pub authorization : Option Authorization

abbrev pub is_add_only : AuthorizedClient → Bool
is_add_only client = client.reconciliation_strategy == "addOnly"

abbrev pub with_authorization :
    AuthorizedClient → (Authorization → Act ClientState (Unit {0})) → Act ClientState (Unit {0})
with_authorization client serve = branch client.authorization (pure tt) serve

abbrev pub at : String → Kind → String → Place
at realm kind client = record { kind = kind; realm = realm; client = client }

module _ (api : Api) (reporter : Reporter) (realm : String) where
  abbrev pub failing :
      {A : Type 0} → String → String → String → Act ClientState A → Act ClientState A
  failing condition prefix f m = reported reporter condition prefix (annotate f []) m

  -- A part is sent as a change of the part that is listed under its name, or as a new one.
  unfoldable pub send_part :
      String → String → String → String → Rep → Place → Option Entity → Act ClientState (Unit {0})
  send_part condition prefix update_failed create_failed rep place none =
      failing condition prefix create_failed
        (ask (create place rep) (λ h. api.on_create h place rep))
  send_part condition prefix update_failed create_failed rep place (some entity) =
      failing condition prefix update_failed
        (ask (update place entity.id rep) (λ h. api.on_update h place entity.id rep))

  -- A part of the spec that is converted, and then sent.
  unfoldable pub put_part :
      {R : Type 0}
      → String
      → String
      → String
      → String
      → String
      → (R → Rep)
      → Act ClientState R
      → Place
      → Option Entity
      → Act ClientState (Unit {0})
  unfolding send_part
  put_part condition prefix convert_failed update_failed create_failed rep convert place found =
      failing condition prefix convert_failed convert
      >>= (λ r. send_part condition prefix update_failed create_failed (rep r) place found)

  -- A scope is only made.
  unfoldable pub put_scope : Place → String → Option Entity → Act ClientState (Unit {0})
  put_scope place name (some entity) = pure tt
  put_scope place name none =
      failing "AuthorizationScopesSynced" "Failed to sync authorization scopes: "
        "failed to create scope: %w"
        (ask (create place (scope_rep name)) (λ h. api.on_create h place (scope_rep name)))

  unfoldable pub scope_part : Part String
  unfolding put_scope
  scope_part = record {
    place = at realm scope;
    condition = "AuthorizationScopesSynced";
    synced = "Authorization scopes synchronized";
    prefix = "Failed to sync authorization scopes: ";
    list_failed = "failed to get scopes: %w";
    delete_failed = "failed to delete scope: %w";
    name_of = λ name. name;
    process = put_scope;
    is_default = λ name. false;
  }

  unfoldable pub resource_part : Part Resource
  unfolding put_part to_resource_representation
  resource_part = record {
    place = at realm resource;
    condition = "AuthorizationResourcesSynced";
    synced = "Authorization resources synchronized";
    prefix = "Failed to sync authorization resources: ";
    list_failed = "failed to get resources: %w";
    delete_failed = "failed to delete resource: %w";
    name_of = λ r. r.name;
    process = λ place r found.
        put_part "AuthorizationResourcesSynced" "Failed to sync authorization resources: "
          "failed to convert resource: %w" "failed to update resource: %w"
          "failed to create resource: %w" resource_rep
          (to_resource_representation api realm place.client r) place found;
    is_default = λ name. name == "Default Resource";
  }

  unfoldable pub policy_part : Part Policy
  unfolding put_part to_policy_representation
  policy_part = record {
    place = at realm policy;
    condition = "AuthorizationPoliciesSynced";
    synced = "Authorization policies synchronized";
    prefix = "Failed to sync authorization policies: ";
    list_failed = "failed to get policies: %w";
    delete_failed = "failed to delete policy: %w";
    name_of = λ p. p.name;
    process = λ place p found.
        put_part "AuthorizationPoliciesSynced" "Failed to sync authorization policies: "
          "failed to convert policy: %w" "failed to update policy: %w" "failed to create policy: %w"
          policy_rep (to_policy_representation api realm place.client p) place found;
    is_default = λ name. name == "Default Policy";
  }

  unfoldable pub permission_part : Part Permission
  unfolding put_part to_permission_representation
  permission_part = record {
    place = at realm permission;
    condition = "AuthorizationPermissionsSynced";
    synced = "Authorization permissions synchronized";
    prefix = "Failed to sync authorization permissions: ";
    list_failed = "failed to get permissions: %w";
    delete_failed = "failed to delete permission: %w";
    name_of = λ p. p.name;
    process = λ place p found.
        put_part "AuthorizationPermissionsSynced" "Failed to sync authorization permissions: "
          "failed to convert permission: %w" "failed to update permission: %w"
          "failed to create permission: %w" permission_rep
          (to_permission_representation api realm place.client p) place found;
    is_default = λ name. name == "Default Permission";
  }

  unfoldable pub process_scope : AuthorizedClient → Act ClientState (Unit {0})
  unfolding serve_items scope_part
  process_scope client = with_authorization client (λ a.
      serve_items api scope_part reporter realm client.client_id (is_add_only client) a.scopes)

  unfoldable pub process_resources : AuthorizedClient → Act ClientState (Unit {0})
  unfolding serve_items resource_part
  process_resources client = with_authorization client (λ a.
      serve_items api resource_part reporter realm client.client_id (is_add_only client)
        a.resources)

  unfoldable pub process_policy : AuthorizedClient → Act ClientState (Unit {0})
  unfolding serve_items policy_part
  process_policy client = with_authorization client (λ a.
      serve_items api policy_part reporter realm client.client_id (is_add_only client) a.policies)

  unfoldable pub process_permissions : AuthorizedClient → Act ClientState (Unit {0})
  unfolding serve_items permission_part
  process_permissions client = with_authorization client (λ a.
      serve_items api permission_part reporter realm client.client_id (is_add_only client)
        a.permissions)
