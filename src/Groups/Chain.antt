-- ===== src/Groups/Chain.antt =====
-- internal/controller/keycloakrealm/chain/group/chain.go: the groups of a realm, one after the
-- other, and the flush.
use keycloak_config_sync_ope.Base.{
  ℕ, Option, none, some, List, [], ◌∷◌, ◌++◌, map, String, Result, ok, Act, pure, ◌>>=◌, ◌>>◌, wrap,
}
use keycloak_config_sync_ope.Flush
use keycloak_config_sync_ope.Flush.{flush_groups}
use keycloak_config_sync_ope.Flush.Strategy.{RealmSpec}
use keycloak_config_sync_ope.Directory.{
  Call, new_client, Api, Session, ask, set_id, on_option, deref, do_find_group,
}
use keycloak_config_sync_ope.Directory.Chain.{Handler, run_handlers}
use keycloak_config_sync_ope.AuthFlow.Cluster.{Cluster}
use keycloak_config_sync_ope.Groups.{Group, create_or_update, sync_sub_groups}
use keycloak_config_sync_ope.Groups.Roles.{sync_realm_roles, sync_client_roles}
use keycloak_config_sync_ope.Groups.Sorting.{sort_realm_group_by_parent}

-- The handlers that `MakeChain` uses; the later ones work on the group with the ID of the context.
unfoldable pub handlers : String → String → Group → List (Handler Session)
unfolding create_or_update sync_realm_roles sync_client_roles sync_sub_groups
handlers realm parent_group_id group =
    (λ api. create_or_update api realm parent_group_id group)
    ∷ (λ api s. sync_realm_roles api realm s.id group.realm_roles s)
    ∷ (λ api s. sync_client_roles api realm s.id group.client_roles s)
    ∷ (λ api s. sync_sub_groups api realm s.id group.sub_groups s)
    ∷ []

unfoldable pub get_parent_group_id : Api → String → Group → Act Session String
get_parent_group_id api realm group = on_option group.parent_group (pure "") (λ parent. do
  answer ←
      wrap "unable to search for group %q: %w" (group.name ∷ [])
        (do_find_group api realm group.name)
  existing ← deref answer
  deref existing.id)

-- `make([]string, n)`
unfoldable pub make_strings : List Group → List String
make_strings groups = map (λ g. "") groups

-- The session of a chain and what the flush sees.
pub record ChainState : Type 0 where
  pub session : Session
  pub flush : Flush.State

abbrev pub in_session : {A : Type 0} → Act Session A → Act ChainState A
in_session m s = ((m s.session).0, record s { session = (m s.session).1 })

abbrev pub in_flush : {A : Type 0} → Act Flush.State A → Act ChainState A
in_flush m s = ((m s.flush).0, record s { flush = (m s.flush).1 })

-- `groupCtx.GroupID`
abbrev pub get_id : Act Session String
get_id s = (ok s.id, s)

module _ (cluster : Cluster) (refresh : List Call → Result Api) (api : Api) (realm : String) where
  -- One round of the loop: the ID of the group.
  unfoldable pub serve_group : Group → Act Session String
  unfolding handlers get_parent_group_id run_handlers
  serve_group group = do
    parent_group_id ← get_parent_group_id api realm group
    set_id ""
    run_handlers cluster (ask new_client refresh) (handlers realm parent_group_id group) api
    get_id

  unfoldable pub serve_groups : List Group → Act Session (List String)
  unfolding serve_group
  serve_groups [] = pure []
  serve_groups (group ∷ groups) = do
    id ← serve_group group
    ids ← serve_groups groups
    pure (id ∷ ids)

  -- `Serve`, for groups that are sorted.
  unfoldable pub serve_sorted :
      Flush.Api → RealmSpec → List Group → List Group → Act ChainState (Unit {0})
  unfolding serve_groups make_strings flush_groups
  serve_sorted flush_api spec groups sorted =
      in_session (serve_groups sorted)
      >>= (λ ids. in_flush (flush_groups flush_api spec (make_strings groups ++ ids)))

-- `Serve`: none if the sort runs out of fuel.
unfoldable pub serve :
    Cluster
    → (List Call → Result Api)
    → Api
    → Flush.Api
    → RealmSpec
    → ℕ
    → List Group
    → ChainState
    → Option (Result (Unit {0}) × ChainState)
unfolding sort_realm_group_by_parent serve_sorted
serve cluster refresh api flush_api spec fuel groups s =
    elim (sort_realm_group_by_parent fuel groups) [
      | none ↦ none
      | some sorted ↦
          some (serve_sorted cluster refresh api spec.realm_name flush_api spec groups sorted s)
    ]
