-- ===== src/Users/Roles.antt =====
-- sync_user_roles.go of the chain of the users.
use keycloak_config_sync_ope.Base.{
  Bool, Option, none, List, [], ◌∷◌, String, if◌then◌else◌, errorf, Act, pure, fail, ◌>>=◌, ◌>>◌,
  wrap, select,
}
use keycloak_config_sync_ope.Directory.{
  RoleRep, ClientRep, user_realm, user_client, in_realm, in_client, Api, Session, on_option, deref,
  context, do_list_roles, do_get_role, do_get_clients,
}
use keycloak_config_sync_ope.Directory.Roles.{by_name, is_extra, apply_diff}
use keycloak_config_sync_ope.Groups.{UserClientRole}
use keycloak_config_sync_ope.Users.{KeycloakUserSpec, is_reconciliation_strategy_add_only}

-- The roles to take away: none of them if roles are only added, and otherwise those that are listed
-- with a name that is not desired.
unfoldable pub extra_roles : Bool → List RoleRep → List String → List RoleRep
extra_roles add_only current desired =
    if add_only then [] else select (λ r. is_extra desired r.name) current

-- `len(clients) == 0 || clients[0].Id == nil`
abbrev pub first_client_id : List ClientRep → Option String
first_client_id [] = none
first_client_id (c ∷ cs) = c.id

module _ (api : Api) (realm : String) where
  unfoldable pub fetch_realm_role : String → Act Session RoleRep
  fetch_realm_role name =
      wrap "unable to get realm role %q: %w" (name ∷ []) (do_get_role api (in_realm realm) name)
      >>= deref

  unfoldable pub fetch_client_role : String → String → String → Act Session RoleRep
  fetch_client_role client_id uuid name =
      wrap "unable to get client role %q for client %q: %w" (name ∷ client_id ∷ [])
        (do_get_role api (in_client realm uuid) name)
      >>= deref

  module _ (user_id : String) where
    unfoldable pub sync_realm_roles : List String → Bool → Act Session (Unit {0})
    unfolding by_name fetch_realm_role apply_diff extra_roles
    sync_realm_roles desired add_only = do
      current ←
          wrap "unable to get user realm role mappings: %w" []
            (do_list_roles api (user_realm realm user_id))
      apply_diff api fetch_realm_role (user_realm realm user_id)
          "unable to add realm roles to user: %w" "unable to delete realm roles from user: %w" []
          (by_name current) desired (extra_roles add_only current desired)

    -- The roles of one client, whose ID is known.
    unfoldable pub sync_one_client : String → List String → Bool → String → Act Session (Unit {0})
    unfolding by_name fetch_client_role apply_diff extra_roles
    sync_one_client client_id desired add_only uuid = do
      current ←
          wrap "unable to get client role mappings for client %q: %w" (client_id ∷ [])
            (do_list_roles api (user_client realm user_id uuid))
      apply_diff api (fetch_client_role client_id uuid) (user_client realm user_id uuid)
          "unable to add client roles to user for client %q: %w"
          "unable to delete client roles from user for client %q: %w" (client_id ∷ [])
          (by_name current) desired (extra_roles add_only current desired)

    unfoldable pub sync_client_roles : List UserClientRole → Bool → Act Session (Unit {0})
    unfolding sync_one_client
    sync_client_roles [] add_only = pure tt
    sync_client_roles (c ∷ cs) add_only = do
      clients ←
          wrap "unable to get client %q: %w" (c.client_id ∷ [])
            (do_get_clients api realm c.client_id)
      on_option (first_client_id clients) (fail (errorf "client %q not found" (c.client_id ∷ [])))
          (sync_one_client c.client_id c.roles add_only)
      sync_client_roles cs add_only

  -- `SyncUserRoles`
  unfoldable pub sync_user_roles : KeycloakUserSpec → Act Session (Unit {0})
  unfolding sync_realm_roles sync_client_roles is_reconciliation_strategy_add_only
  sync_user_roles spec s =
      (context "unable to sync user realm roles: %w" []
            (sync_realm_roles s.id spec.roles (is_reconciliation_strategy_add_only spec))
          >> context "unable to sync user client roles: %w" []
              (sync_client_roles s.id spec.client_roles (is_reconciliation_strategy_add_only spec)))
        s
