-- ===== src/Clients/Authorization/Reconciled.antt =====
-- The four handlers of an authorization against what a client asks for.
use keycloak_config_sync_ope.Base.{
  ◌≡◌, refl, ap, ◌∙◌, Bool, false, ◌&&◌, ◌||◌, some, List, [], ◌∷◌, map, String, ◌==◌, contains, ok,
  Act,
}
use keycloak_config_sync_ope.Base.Dict
use keycloak_config_sync_ope.Base.Dict.{Dict}
use keycloak_config_sync_ope.Directory.Roles.{is_some}
use keycloak_config_sync_ope.Clients.{
  Entity, Kind, scope, resource, policy, permission, parts_of, get_client_id, Api, ClientState,
  Reporter,
}
use keycloak_config_sync_ope.Clients.Authorization.Records.{is_on_record}
use keycloak_config_sync_ope.Clients.Authorization.Refinement.{IsIdOf, serve_items-is_on_record}
use keycloak_config_sync_ope.Clients.Authorization.Conversions.{Authorization}
use keycloak_config_sync_ope.Clients.Authorization.Handlers.{
  AuthorizedClient, at, is_add_only, scope_part, resource_part, policy_part, permission_part,
  process_scope, process_resources, process_policy, process_permissions,
}
use keycloak_config_sync_ope.Clients.Authorization.Served.{
  put_scope-IsPut, put_resource-IsPut, put_policy-IsPut, put_permission-IsPut,
}

module _ (api : Api) (reporter : Reporter) (realm : String) where
  abbrev pub handler : Kind → AuthorizedClient → Act ClientState (Unit {0})
  handler scope = process_scope api reporter realm
  handler resource = process_resources api reporter realm
  handler policy = process_policy api reporter realm
  handler permission = process_permissions api reporter realm

-- The names of the parts that a client lists, and the part that Keycloak makes itself.
abbrev pub names_in : Kind → Authorization → List String
names_in scope a = a.scopes
names_in resource a = map (λ r. r.name) a.resources
names_in policy a = map (λ p. p.name) a.policies
names_in permission a = map (λ p. p.name) a.permissions

abbrev pub is_default_in : Kind → String → Bool
is_default_in scope name = false
is_default_in resource name = name == "Default Resource"
is_default_in policy name = name == "Default Policy"
is_default_in permission name = name == "Default Permission"

map_id : (names : List String) → map (λ name. name) names ≡ names
map_id [] = refl
map_id (n ∷ ns) = ap (λ rest. n ∷ rest) (map_id ns)

module _ (api : Api) (reporter : Reporter) (realm : String)
    (visits : (ks : List String) (k : String) → contains k (api.key_order ks) ≡ contains k ks) where
  -- Where a map is visited at all its keys, the listing tells what the requests so far have made of
  -- the parts, and the ID is that of the part under the name and of no other: after a successful
  -- run the part is on record exactly if the client lists it, or it was there and is kept, because
  -- parts are only added or because it is the one that Keycloak makes itself.
  pub handler-is_on_record :
      (kind : Kind) (name id : String) (start : Bool) (client : AuthorizedClient)
      (a : Authorization) (uuid : String) (s : ClientState) (existing : Dict Entity)
      → client.authorization ≡ some a
      → IsIdOf name id existing
      → api.on_client_id s.calls client.client_id realm ≡ ok uuid
      → api.on_list (get_client_id client.client_id realm ∷ s.calls) (parts_of (at realm kind uuid))
        ≡ ok existing
      → is_on_record (at realm kind uuid) name id start s.calls
        ≡ is_some (Dict.lookup name existing)
      → (handler api reporter realm kind client s).0 ≡ ok tt
      → is_on_record
          (at realm kind uuid)
          name
          id
          start
          (handler api reporter realm kind client s).1.calls
        ≡ (contains name (names_in kind a)
            || is_some (Dict.lookup name existing)
              && (is_add_only client || is_default_in kind name))
  unfolding process_scope process_resources process_policy process_permissions scope_part
      resource_part policy_part permission_part
  handler-is_on_record scope name id start client a uuid s existing auth owns got listed told h =
      let put = put_scope-IsPut api reporter realm name id start (at realm scope uuid) in
      rw (auth) (
        serve_items-is_on_record api (scope_part api reporter realm) reporter visits realm
          client.client_id uuid name id start (is_add_only client) a.scopes s existing put owns got
          listed told (rw (auth) at h)
        ∙ rw (map_id a.scopes) refl)
  handler-is_on_record resource name id start client a uuid s existing auth owns got listed told h =
      let put = put_resource-IsPut api reporter realm name id start (at realm resource uuid) in
      rw (auth) (
        serve_items-is_on_record api (resource_part api reporter realm) reporter visits realm
          client.client_id uuid name id start (is_add_only client) a.resources s existing put owns
          got listed told (rw (auth) at h))
  handler-is_on_record policy name id start client a uuid s existing auth owns got listed told h =
      let put = put_policy-IsPut api reporter realm name id start (at realm policy uuid) in
      rw (auth) (
        serve_items-is_on_record api (policy_part api reporter realm) reporter visits realm
          client.client_id uuid name id start (is_add_only client) a.policies s existing put owns
          got listed told (rw (auth) at h))
  handler-is_on_record permission name id start client a uuid s existing auth owns got listed told
        h =
      let put = put_permission-IsPut api reporter realm name id start (at realm permission uuid) in
      rw (auth) (
        serve_items-is_on_record api (permission_part api reporter realm) reporter visits realm
          client.client_id uuid name id start (is_add_only client) a.permissions s existing put owns
          got listed told (rw (auth) at h))
