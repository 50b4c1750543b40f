-- ===== src/Groups/Requests.antt =====
-- The requests of the handlers of the groups are all for the realm.
use keycloak_config_sync_ope.Base.{List, [], ◌∷◌, String}
use keycloak_config_sync_ope.Base.Dict.{Dict}
use keycloak_config_sync_ope.Directory.{GroupRep, ClientMappings, Api}
use keycloak_config_sync_ope.Directory.Requests.{IsFor, Makes, makes, apply_diff-Makes}
use keycloak_config_sync_ope.Groups.{
  Group, UserClientRole, create_or_update, add_sub_groups, detach_sub_groups, search_group,
  make_group, change_group, sync_sub_groups,
}
use keycloak_config_sync_ope.Groups.Roles.{
  fetch_realm_role, fetch_client_role, resolve_client_uuid, client_state, sync_realm_roles,
  sync_one_client_roles, sync_client_roles, sync_claimed, remove_unclaimed, remove_all_unclaimed,
}

module _ (api : Api) (realm : String) where
  fetch_realm_role-Makes : (name : String) → Makes (IsFor realm) (fetch_realm_role api realm name)
  unfolding fetch_realm_role
  fetch_realm_role-Makes name = search makes depth 12

  pub sync_realm_roles-Makes :
      (group_id : String) (claimed : List String)
      → Makes (IsFor realm) (sync_realm_roles api realm group_id claimed)
  unfolding sync_realm_roles
  sync_realm_roles-Makes group_id claimed =
      search (makes, apply_diff-Makes, fetch_realm_role-Makes) depth 12

  fetch_client_role-Makes :
      (client_id uuid name : String)
      → Makes (IsFor realm) (fetch_client_role api realm client_id uuid name)
  unfolding fetch_client_role
  fetch_client_role-Makes client_id uuid name = search makes depth 12

  client_state-Makes :
      (mappings : Dict ClientMappings) (client_id : String)
      → Makes (IsFor realm) (client_state api realm mappings client_id)
  unfolding client_state resolve_client_uuid
  client_state-Makes mappings client_id = search makes depth 12

  sync_one-Makes :
      (group_id : String) (mappings : Dict ClientMappings) (client_id : String)
      (claimed : List String)
      → Makes (IsFor realm) (sync_one_client_roles api realm group_id mappings client_id claimed)
  unfolding sync_one_client_roles
  sync_one-Makes group_id mappings client_id claimed =
      search (makes, apply_diff-Makes, fetch_client_role-Makes, client_state-Makes) depth 12

  sync_claimed-Makes :
      (group_id : String) (mappings : Dict ClientMappings) (claimed : Dict (List String))
      (clients : List String)
      → Makes (IsFor realm) (sync_claimed api realm group_id mappings claimed clients)
  unfolding sync_claimed
  sync_claimed-Makes group_id mappings claimed [] = search makes
  sync_claimed-Makes group_id mappings claimed (c ∷ cs) =
      let rest = sync_claimed-Makes group_id mappings claimed cs in
      search (makes, rest, sync_one-Makes) depth 12

  remove_unclaimed-Makes :
      (group_id client_id : String) (m : ClientMappings)
      → Makes (IsFor realm) (remove_unclaimed api realm group_id client_id m)
  unfolding remove_unclaimed
  remove_unclaimed-Makes group_id client_id m = search makes depth 12

  remove_all-Makes :
      (group_id : String) (mappings : Dict ClientMappings) (claimed : Dict (List String))
      (clients : List String)
      → Makes (IsFor realm) (remove_all_unclaimed api realm group_id mappings claimed clients)
  unfolding remove_all_unclaimed
  remove_all-Makes group_id mappings claimed [] = search makes
  remove_all-Makes group_id mappings claimed (c ∷ cs) =
      let rest = remove_all-Makes group_id mappings claimed cs in
      search (makes, rest, remove_unclaimed-Makes) depth 12

  pub sync_client_roles-Makes :
      (group_id : String) (client_roles : List UserClientRole)
      → Makes (IsFor realm) (sync_client_roles api realm group_id client_roles)
  unfolding sync_client_roles
  sync_client_roles-Makes group_id client_roles =
      search (makes, sync_claimed-Makes, remove_all-Makes) depth 12

  pub create_or_update-Makes :
      (parent : String) (group : Group)
      → Makes (IsFor realm) (create_or_update api realm parent group)
  unfolding create_or_update search_group make_group change_group
  create_or_update-Makes parent group = search makes depth 14

  add_sub_groups-Makes :
      (group_id : String) (current : Dict GroupRep) (names : List String)
      → Makes (IsFor realm) (add_sub_groups api realm group_id current names)
  unfolding add_sub_groups
  add_sub_groups-Makes group_id current [] = search makes
  add_sub_groups-Makes group_id current (n ∷ ns) =
      let rest = add_sub_groups-Makes group_id current ns in search (makes, rest) depth 12

  detach_sub_groups-Makes :
      (group_id : String) (claimed : List String) (current : Dict GroupRep) (names : List String)
      → Makes (IsFor realm) (detach_sub_groups api realm group_id claimed current names)
  unfolding detach_sub_groups
  detach_sub_groups-Makes group_id claimed current [] = search makes
  detach_sub_groups-Makes group_id claimed current (n ∷ ns) =
      let rest = detach_sub_groups-Makes group_id claimed current ns in
      search (makes, rest) depth 12

  pub sync_sub_groups-Makes :
      (group_id : String) (names : List String)
      → Makes (IsFor realm) (sync_sub_groups api realm group_id names)
  unfolding sync_sub_groups
  sync_sub_groups-Makes group_id [] = search makes
  sync_sub_groups-Makes group_id (n ∷ ns) =
      search (makes, add_sub_groups-Makes, detach_sub_groups-Makes) depth 12
