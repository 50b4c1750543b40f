-- ===== src/RealmRoles/Composites.antt =====
-- sync_composites.go of the chain of the roles.
use keycloak_config_sync_ope.Base.{
  true, false, ◌<>◌, Option, none, some, List, [], ◌∷◌, ◌++◌, String, if◌then◌else◌, ◌==◌, errorf,
  Act, pure, fail, ◌>>=◌, ◌>>◌, wrap,
}
use keycloak_config_sync_ope.Base.Dict
use keycloak_config_sync_ope.Base.Dict.{Dict}
use keycloak_config_sync_ope.Directory.{
  RoleRep, role_composites, in_realm, in_client, Api, Session, on_option, unless_empty, deref,
  do_list_roles, do_get_role, do_add_roles, do_remove_roles, do_get_clients,
}
use keycloak_config_sync_ope.Directory.Roles.{is_some, cons_some, keys}
use keycloak_config_sync_ope.Users.Roles.{first_client_id}
use keycloak_config_sync_ope.RealmRoles.{Role}

-- `fmt.Sprintf("%s-%s", container, name)`
abbrev pub client_key : String → String → String
client_key container name = container <> "-" <> name

-- `cr.ClientRole != nil && *cr.ClientRole && cr.ContainerId != nil`, with the container
abbrev pub client_container : RoleRep → Option String
client_container r = elim r.client_role [
  | some true ↦ r.container_id
  | some false ↦ none
  | none ↦ none
]

-- The key of a role that is listed, whose name is followed.
unfoldable pub composite_key : RoleRep → String → String
composite_key r name = elim (client_container r) [ none ↦ name | some c ↦ client_key c name ]

-- The map of the roles that are listed.
unfoldable pub stale_map : List RoleRep → Dict RoleRep → Act Session (Dict RoleRep)
unfolding composite_key
stale_map [] m = pure m
stale_map (r ∷ rs) m =
    deref r.name >>= (λ name. stale_map rs (Dict.insert (composite_key r name) r m))

-- `delete(m, key)`
unfoldable pub erase : {V : Type 0} → String → Dict V → Dict V
erase key [] = []
erase key ((k, v) ∷ m) = let rest = erase key m in if k == key then rest else (k, v) ∷ rest

-- The roles that are stale so far, and those to add, in order.
pub record Progress : Type 0 where
  pub stale : Dict RoleRep
  pub to_add : List RoleRep

abbrev pub with_role : Progress → RoleRep → Progress
with_role p r = record p { to_add = p.to_add ++ r ∷ [] }

abbrev pub without_key : String → Progress → Progress
without_key key p = record p { stale = erase key p.stale }

-- The values of a map, in the order in which it is visited.
unfoldable pub values_in : Dict RoleRep → List String → List RoleRep
values_in m [] = []
values_in m (k ∷ ks) = cons_some (Dict.lookup k m) (values_in m ks)

module _ (api : Api) (realm : String) where
  unfoldable pub match_realm_roles : List String → Progress → Act Session Progress
  unfolding erase
  match_realm_roles [] p = pure p
  match_realm_roles (name ∷ names) p =
      let known = match_realm_roles names (without_key name p) in
      if is_some (Dict.lookup name p.stale)
      then known
      else wrap "failed to get realm role %s: %w" (name ∷ [])
          (do_get_role api (in_realm realm) name)
        >>= (λ answer. deref answer >>= (λ r. match_realm_roles names (with_role p r)))

  unfoldable pub match_client_roles : String → List String → Progress → Act Session Progress
  unfolding erase
  match_client_roles uuid [] p = pure p
  match_client_roles uuid (name ∷ names) p =
      let known = match_client_roles uuid names (without_key (client_key uuid name) p) in
      if is_some (Dict.lookup (client_key uuid name) p.stale)
      then known
      else wrap "failed to get client role %s: %w" (name ∷ [])
          (do_get_role api (in_client realm uuid) name)
        >>= (λ answer. deref answer >>= (λ r. match_client_roles uuid names (with_role p r)))

  -- The loop over the clients of the map.
  unfoldable pub match_clients : Dict (List String) → List String → Progress → Act Session Progress
  unfolding match_client_roles
  match_clients claimed [] p = pure p
  match_clients claimed (client ∷ clients) p =
      on_option (Dict.lookup client claimed) (match_clients claimed clients p) (λ names.
        wrap "failed to get client %s: %w" (client ∷ []) (do_get_clients api realm client)
        >>= (λ found.
            on_option (first_client_id found) (fail (errorf "client %s not found" (client ∷ [])))
              (λ uuid. match_client_roles uuid names p >>= match_clients claimed clients)))

  module _ (role : Role) where
    unfoldable pub apply_progress : Progress → Act Session (Unit {0})
    unfolding values_in
    apply_progress p = do
      unless_empty
          (λ rs.
            wrap "failed to add composite roles: %w" []
              (do_add_roles api (role_composites realm role.name) rs))
          p.to_add
      unless_empty
          (λ rs.
            wrap "failed to delete stale composite roles: %w" []
              (do_remove_roles api (role_composites realm role.name) rs))
          (values_in p.stale (api.key_order (keys p.stale)))

    -- `SyncComposites`
    unfoldable pub sync_composites : Act Session (Unit {0})
    unfolding stale_map match_realm_roles match_clients apply_progress
    sync_composites =
        if role.composite
        then (do
          current ←
              wrap "failed to get current composites: %w" []
                (do_list_roles api (role_composites realm role.name))
          stale ← stale_map current []
          matched ← match_realm_roles role.composites (record { stale = stale; to_add = [] })
          all_matched ←
              match_clients role.composites_client_roles
                (api.key_order (keys role.composites_client_roles)) matched
          apply_progress all_matched)
        else pure tt
