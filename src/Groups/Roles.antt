-- ===== src/Groups/Roles.antt =====
-- sync_realm_roles.go and sync_client_roles.go of the chain of the groups.
use keycloak_config_sync_ope.Base.{
  Option, none, some, List, [], ◌∷◌, String, if◌then◌else◌, ◌==◌, or_empty, errorf, Act, pure, fail,
  ◌>>=◌, ◌>>◌, wrap,
}
use keycloak_config_sync_ope.Base.Dict
use keycloak_config_sync_ope.Base.Dict.{Dict}
use keycloak_config_sync_ope.Directory.{
  RoleRep, ClientRep, ClientMappings, group_realm, group_client, in_realm, in_client, list_mappings,
  Api, Session, ask, on_option, unless_empty, if_nil, do_list_roles, do_get_role, do_remove_roles,
  do_get_clients,
}
use keycloak_config_sync_ope.Directory.Roles.{by_name, is_some, keys, unclaimed, apply_diff}
use keycloak_config_sync_ope.Groups.{UserClientRole}

-- The roles on record that are not claimed, in the order in which the map is visited.
abbrev pub to_remove : Api → List RoleRep → List String → List RoleRep
to_remove api current claimed =
    unclaimed claimed (by_name current) (api.key_order (keys (by_name current)))

module _ (api : Api) (realm : String) where
  -- `GetRealmRole` and the checks of its answer
  unfoldable pub fetch_realm_role : String → Act Session RoleRep
  fetch_realm_role name =
      wrap "unable to get realm role %q: %w" (name ∷ []) (do_get_role api (in_realm realm) name)
      >>= if_nil (fail (errorf "realm role %q not found in realm %q" (name ∷ realm ∷ [])))

  -- `GetClientRole` and the checks of its answer
  unfoldable pub fetch_client_role : String → String → String → Act Session RoleRep
  fetch_client_role client_id uuid name =
      wrap "unable to get client role %q: %w" (name ∷ [])
        (do_get_role api (in_client realm uuid) name)
      >>= if_nil (
          fail (
            errorf "client role %q not found for client %q in realm %q"
              (name ∷ client_id ∷ realm ∷ [])))

  unfoldable pub first_uuid : String → List ClientRep → Option String
  first_uuid client_id [] = none
  first_uuid client_id (c ∷ cs) =
      let later = first_uuid client_id cs in
      elim c.client_id [
        | none ↦ later
        | some found ↦
            if found == client_id then elim c.id [ none ↦ later | some id ↦ some id ] else later
      ]

  unfoldable pub resolve_client_uuid : String → Act Session String
  unfolding first_uuid
  resolve_client_uuid client_id = do
    clients ← wrap "unable to get clients: %w" [] (do_get_clients api realm client_id)
    on_option (first_uuid client_id clients)
        (fail (errorf "client %q not found in realm %q" (client_id ∷ realm ∷ []))) pure

  abbrev pub or_no_roles : Option (List RoleRep) → List RoleRep
  or_no_roles none = []
  or_no_roles (some rs) = rs

  -- The UUID of a client and the roles of it that the group has.
  unfoldable pub client_state : Dict ClientMappings → String → Act Session (String × List RoleRep)
  unfolding resolve_client_uuid
  client_state mappings client_id =
      on_option (Dict.lookup client_id mappings)
        (resolve_client_uuid client_id >>= (λ uuid. pure (uuid, [])))
        (λ m. pure (or_empty m.id, or_no_roles m.mappings))

  module _ (group_id : String) where
    -- `SyncRealmRoles`
    unfoldable pub sync_realm_roles : List String → Act Session (Unit {0})
    unfolding by_name unclaimed fetch_realm_role apply_diff
    sync_realm_roles claimed = do
      current ←
          wrap "unable to get realm role mappings for group %s: %w" (group_id ∷ [])
            (do_list_roles api (group_realm realm group_id))
      apply_diff api fetch_realm_role (group_realm realm group_id)
          "unable to add realm role mappings: %w" "unable to delete realm role mappings: %w" []
          (by_name current) claimed (to_remove api current claimed)

    unfoldable pub sync_one_client_roles :
        Dict ClientMappings → String → List String → Act Session (Unit {0})
    unfolding client_state by_name unclaimed fetch_client_role apply_diff
    sync_one_client_roles mappings client_id claimed = client_state mappings client_id >>= (λ state.
        apply_diff api (fetch_client_role client_id state.0) (group_client realm group_id state.0)
          "unable to add client role mappings: %w" "unable to delete client role mappings: %w" []
          (by_name state.1) claimed (to_remove api state.1 claimed))

    -- The loop over the claimed clients.
    unfoldable pub sync_claimed :
        Dict ClientMappings → Dict (List String) → List String → Act Session (Unit {0})
    unfolding sync_one_client_roles
    sync_claimed mappings claimed [] = pure tt
    sync_claimed mappings claimed (client_id ∷ clients) =
        let rest = sync_claimed mappings claimed clients in
        on_option (Dict.lookup client_id claimed) rest (λ names.
          wrap "unable to sync client roles for client %q: %w" (client_id ∷ [])
            (sync_one_client_roles mappings client_id names)
          >> rest)

    -- The request for a client that the spec does not name.
    unfoldable pub remove_unclaimed : String → ClientMappings → Act Session (Unit {0})
    remove_unclaimed client_id m =
        unless_empty
          (λ rs. on_option m.id (pure tt) (λ uuid.
            wrap "unable to remove unclaimed client roles for %q: %w" (client_id ∷ [])
              (do_remove_roles api (group_client realm group_id uuid) rs)))
          (or_no_roles m.mappings)

    -- The loop over the clients on record.
    unfoldable pub remove_all_unclaimed :
        Dict ClientMappings → Dict (List String) → List String → Act Session (Unit {0})
    unfolding remove_unclaimed
    remove_all_unclaimed mappings claimed [] = pure tt
    remove_all_unclaimed mappings claimed (client_id ∷ clients) =
        let rest = remove_all_unclaimed mappings claimed clients in
        if is_some (Dict.lookup client_id claimed)
        then rest
        else on_option (Dict.lookup client_id mappings) rest
            (λ m. remove_unclaimed client_id m >> rest)

    unfoldable pub claimed_roles : List UserClientRole → Dict (List String) → Dict (List String)
    claimed_roles [] m = m
    claimed_roles (c ∷ cs) m = claimed_roles cs (Dict.insert c.client_id c.roles m)

    -- `roleMappings != nil && roleMappings.ClientMappings != nil`
    abbrev pub client_mappings : Option (Option (Dict ClientMappings)) → Dict ClientMappings
    client_mappings (some (some m)) = m
    client_mappings _ = []

    -- `SyncClientRoles`
    unfoldable pub sync_client_roles : List UserClientRole → Act Session (Unit {0})
    unfolding claimed_roles sync_claimed remove_all_unclaimed
    sync_client_roles client_roles = do
      answer ←
          wrap "unable to get role mappings for group %s: %w" (group_id ∷ [])
            (ask (list_mappings realm group_id) (λ h. api.on_list_mappings h realm group_id))
      sync_claimed (client_mappings answer) (claimed_roles client_roles [])
          (api.key_order (keys (claimed_roles client_roles [])))
      remove_all_unclaimed (client_mappings answer) (claimed_roles client_roles [])
          (api.key_order (keys (client_mappings answer)))
