-- ===== src/Users/Chain.antt =====
-- internal/controller/keycloakuser/chain: the chain of a user, and cleanup_resource.go.
use keycloak_config_sync_ope.Base.{
  List, [], ◌∷◌, String, if◌then◌else◌, Result, ok, err, k8s_is_not_found, Act, pure, ◌>>◌, wrap,
}
use keycloak_config_sync_ope.Directory.{Call, new_client, Api, ask, set_id}
use keycloak_config_sync_ope.Directory.Chain.{Handler, run_handlers}
use keycloak_config_sync_ope.AuthFlow.Cluster as Manager
use keycloak_config_sync_ope.Users.{create_or_update_user}
use keycloak_config_sync_ope.Users.Roles.{sync_user_roles}
use keycloak_config_sync_ope.Users.Memberships.{sync_user_groups}
use keycloak_config_sync_ope.Users.Links.{sync_user_identity_providers}
use keycloak_config_sync_ope.Users.Password.{
  KeycloakUser, delete_object, Cluster, UserState, in_session, set_user_password,
}

-- `client.IgnoreNotFound`
abbrev pub ignore_not_found : Result (Unit {0}) → Result (Unit {0})
ignore_not_found (ok a) = ok a
ignore_not_found (err e) = if k8s_is_not_found e then ok tt else err e

abbrev pub remove_object : Cluster → Act UserState (Unit {0})
remove_object cluster s = (
  ignore_not_found (cluster.on_delete_object s.events),
  record s { events = delete_object ∷ s.events },
)

-- `CleanupResource`
unfoldable pub cleanup_resource : Cluster → KeycloakUser → Act UserState (Unit {0})
cleanup_resource cluster user =
    if user.spec.keep_resource
    then pure tt
    else wrap "unable to delete instance of keycloak realm user: %w" [] (remove_object cluster)

-- The handlers that `MakeChain` uses.
unfoldable pub user_handlers : Cluster → KeycloakUser → String → List (Handler UserState)
unfolding create_or_update_user set_user_password sync_user_roles sync_user_groups
    sync_user_identity_providers cleanup_resource
user_handlers cluster user realm =
    (λ api. in_session (create_or_update_user api realm user.spec))
    ∷ (λ api. set_user_password cluster user api realm)
    ∷ (λ api. in_session (sync_user_roles api realm user.spec))
    ∷ (λ api. in_session (sync_user_groups api realm user.spec))
    ∷ (λ api. in_session (sync_user_identity_providers api realm user.spec))
    ∷ (λ api. cleanup_resource cluster user)
    ∷ []

-- `Serve`, with a context that is empty at first.
unfoldable pub serve_user :
    Manager.Cluster → Cluster → (List Call → Result Api) → KeycloakUser → String → Handler UserState
unfolding user_handlers run_handlers
serve_user manager cluster refresh user realm api =
    in_session (set_id "")
    >> run_handlers manager (in_session (ask new_client refresh)) (user_handlers cluster user realm)
        api
