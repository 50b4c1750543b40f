-- ===== src/Clients/Authorization/Attributes.antt =====
-- process_resources.go: the attributes of a resource (getBaseResourceRepresentation).
use keycloak_config_sync_ope.Base.{
  ◌≡◌, refl, ap, Bool, some, List, [], ◌∷◌, map, String, ◌>>=◌, ◌>>◌,
}
use keycloak_config_sync_ope.Base.Dict
use keycloak_config_sync_ope.Base.Dict.{Dict}
use keycloak_config_sync_ope.Clients.{
  Entity, Place, Api, ClientState, Reporter, get_client_id, ask, parts_of,
}
use keycloak_config_sync_ope.Clients.Authorization.{
  remaining, do_list, sync_items, prune, guarded, serve_items,
}
use keycloak_config_sync_ope.Clients.Authorization.Conversions.{
  Resource, Authorization, base_resource, to_resource_representation,
}
use keycloak_config_sync_ope.Clients.Authorization.Handlers.{
  AuthorizedClient, is_add_only, resource_part, process_resources,
}

module _ (f : Resource → Dict (List String)) where
  -- The resources with other attributes.
  abbrev pub with_attributes : Resource → Resource
  with_attributes r = record r { attributes = f r }

  abbrev pub with_all_attributes : Authorization → Authorization
  with_all_attributes a = record a { resources = map with_attributes a.resources }

  module _ (api : Api) (reporter : Reporter) (realm : String) where
    sync_items-with_attributes :
        (place : Place) (resources : List Resource) (m : Dict Entity)
        → sync_items api (resource_part api reporter realm) place (map with_attributes resources) m
          ≡ sync_items api (resource_part api reporter realm) place resources m
    unfolding sync_items resource_part to_resource_representation base_resource
    sync_items-with_attributes place [] m = refl
    sync_items-with_attributes place (r ∷ rs) m =
        let part = resource_part api reporter realm in
        ap (λ rest. part.process place r (Dict.lookup r.name m) >> rest)
          (sync_items-with_attributes place rs (remaining r.name m))

    serve_items-with_attributes :
        (client_id : String) (add_only : Bool) (resources : List Resource)
        → serve_items api
            (resource_part api reporter realm)
            reporter
            realm
            client_id
            add_only
            (map with_attributes resources)
          ≡ serve_items api
              (resource_part api reporter realm)
              reporter
              realm
              client_id
              add_only
              resources
    unfolding serve_items
    serve_items-with_attributes client_id add_only resources =
        let part = resource_part api reporter realm in
        λ i.
          guarded api part reporter "failed to get client id: %w"
            (ask (get_client_id client_id realm) (λ h. api.on_client_id h client_id realm))
          >>= (λ client.
              guarded api part reporter part.list_failed
                (do_list api (parts_of (part.place client)))
              >>= (λ m.
                  sync_items-with_attributes (part.place client) resources m i
                  >>= (λ left. prune api part reporter client add_only left)))

    -- Which attributes the resources of a client have makes no difference: the requests, the
    -- conditions and the result are the same.
    pub process_resources_any_attributes :
        (client : AuthorizedClient) (a : Authorization) (s : ClientState)
        → client.authorization ≡ some a
        → process_resources api reporter realm
            (record client { authorization = some (with_all_attributes a) })
            s
          ≡ process_resources api reporter realm client s
    unfolding process_resources
    process_resources_any_attributes client a s auth = rw (auth) (
        ap (λ run. run s)
          (serve_items-with_attributes client.client_id (is_add_only client) a.resources))
