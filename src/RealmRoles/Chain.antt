-- ===== src/RealmRoles/Chain.antt =====
-- internal/controller/keycloakrealm/chain/role/chain.go: the roles of a realm, one after the other,
-- and the flush. The handlers serve all roles, and keep the clients that they are given.
use keycloak_config_sync_ope.Base.{List, [], ◌∷◌, String, Result, Act, pure, ◌>>=◌, ◌>>◌}
use keycloak_config_sync_ope.Base.Dict
use keycloak_config_sync_ope.Base.Dict.{Dict}
use keycloak_config_sync_ope.Flush.Roles.{RoleApi, RoleState, flush_roles}
use keycloak_config_sync_ope.Flush.Strategy.{RealmSpec}
use keycloak_config_sync_ope.Directory.{Call, new_client, Api, Session, ask, set_id}
use keycloak_config_sync_ope.Directory.Chain.{serve_one}
use keycloak_config_sync_ope.AuthFlow.Cluster.{Cluster}
use keycloak_config_sync_ope.Groups.Chain.{get_id}
use keycloak_config_sync_ope.RealmRoles.{Role, create_or_update_role, make_default}
use keycloak_config_sync_ope.RealmRoles.Composites.{sync_composites}

-- The clients of the three handlers that `MakeChain` uses.
pub record Clients : Type 0 where
  pub for_role : Api
  pub for_composites : Api
  pub for_default : Api

module _ (cluster : Cluster) (refresh : List Call → Result Api) (realm : String) where
  unfoldable pub run_role : Role → Clients → Act Session Clients
  unfolding serve_one create_or_update_role sync_composites make_default
  run_role role clients = do
    first ←
        serve_one cluster (ask new_client refresh) (λ api. create_or_update_role api realm role)
          clients.for_role
    second ←
        serve_one cluster (ask new_client refresh) (λ api. sync_composites api realm role)
          clients.for_composites
    third ←
        serve_one cluster (ask new_client refresh) (λ api. make_default api realm role)
          clients.for_default
    pure (record { for_role = first; for_composites = second; for_default = third })

  -- The loop over the roles: the IDs by name.
  unfoldable pub run_roles : List Role → Clients → Dict String → Act Session (Dict String)
  unfolding run_role
  run_roles [] clients ids = pure ids
  run_roles (role ∷ roles) clients ids = do
    set_id ""
    kept ← run_role role clients
    id ← get_id
    run_roles roles kept (Dict.insert role.name id ids)

-- The session of the chain and what the flush sees.
pub record RoleChainState : Type 0 where
  pub session : Session
  pub flush : RoleState

abbrev pub in_session : {A : Type 0} → Act Session A → Act RoleChainState A
in_session m s = ((m s.session).0, record s { session = (m s.session).1 })

abbrev pub in_flush : {A : Type 0} → Act RoleState A → Act RoleChainState A
in_flush m s = ((m s.flush).0, record s { flush = (m s.flush).1 })

-- `Serve`
unfoldable pub serve_roles :
    Cluster
    → (List Call → Result Api)
    → Api
    → RoleApi
    → RealmSpec
    → List Role
    → Act RoleChainState (Unit {0})
unfolding run_roles flush_roles
serve_roles cluster refresh api flush_api spec roles =
    in_session (
      run_roles cluster refresh spec.realm_name roles
        (record { for_role = api; for_composites = api; for_default = api }) [])
    >>= (λ ids. in_flush (flush_roles flush_api spec ids))
