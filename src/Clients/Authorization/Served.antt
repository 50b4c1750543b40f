-- ===== src/Clients/Authorization/Served.antt =====
-- The handlers of an authorization put what they do for an item on record.
use keycloak_config_sync_ope.Base.{
  ◌≡◌, refl, sym, ap, ◌∙◌, Bool, not, ◌&&◌, ◌||◌, Option, none, some, List, [], ◌∷◌, arith, String,
  ◌==◌, ok, ok-injective, Act, wrap,
}
use keycloak_config_sync_ope.Base.Runs.{parts->>=}
use keycloak_config_sync_ope.Base.Dict.{Dict}
use keycloak_config_sync_ope.Directory.{annotate}
use keycloak_config_sync_ope.Directory.Roles.{is_some}
use keycloak_config_sync_ope.Clients.{
  Entity, Kind, resource, policy, Place, Listing, parts_of, Rep, Api, ClientState, Reporter,
  resource_rep, policy_rep, permission_rep,
}
use keycloak_config_sync_ope.Clients.Authorization.Records.{
  same_place_refl, rep_name, is_on_record, Keeps, keeps, calls-report, ok-report,
}
use keycloak_config_sync_ope.Clients.Authorization.Refinement.{IsPut}
use keycloak_config_sync_ope.Clients.Authorization.Conversions.{
  Resource, Policy, Permission, base_resource, resolve, resolve_flagged, with_id,
  map_resource_scopes, to_resource_representation, to_policy_representation,
  to_permission_representation, policy_body, to_aggregate_policy, to_client_policy, to_group_policy,
  to_role_policy, to_time_policy, to_user_policy, map_names, map_scopes,
}
use keycloak_config_sync_ope.Clients.Authorization.Handlers.{
  put_part, send_part, put_scope, failing, scope_part, resource_part, policy_part, permission_part,
}

module _ (place : Place) (name id : String) (start : Bool) where
  with_id-Keeps :
      (absent nameless : String) (m : Dict Entity) (n : String)
      → Keeps place name id start (with_id absent nameless m n)
  unfolding with_id
  with_id-Keeps absent nameless m n = search keeps depth 8

  resolve-Keeps :
      (absent nameless : String) (m : Dict Entity) (names : List String)
      → Keeps place name id start (resolve absent nameless m names)
  unfolding resolve
  resolve-Keeps absent nameless m [] = search keeps
  resolve-Keeps absent nameless m (n ∷ ns) =
      let one = with_id-Keeps absent nameless m n in
      let rest = resolve-Keeps absent nameless m ns in search (keeps, one, rest) depth 8

  resolve_flagged-Keeps :
      (absent nameless : String) (m : Dict Entity) (names : List (String × Bool))
      → Keeps place name id start (resolve_flagged absent nameless m names)
  unfolding resolve_flagged
  resolve_flagged-Keeps absent nameless m [] = search keeps
  resolve_flagged-Keeps absent nameless m ((n, flag) ∷ ns) =
      let one = with_id-Keeps absent nameless m n in
      let rest = resolve_flagged-Keeps absent nameless m ns in search (keeps, one, rest) depth 8

  module _ (api : Api) (realm client : String) where
    map_resource_scopes-Keeps :
        (names : List String)
        → Keeps place name id start (map_resource_scopes api realm client names)
    unfolding map_resource_scopes
    map_resource_scopes-Keeps [] = search keeps
    map_resource_scopes-Keeps (n ∷ ns) = search (keeps, resolve-Keeps) depth 12

    to_resource_representation-Keeps :
        (r : Resource) → Keeps place name id start (to_resource_representation api realm client r)
    unfolding to_resource_representation
    to_resource_representation-Keeps r =
        let scopes = map_resource_scopes-Keeps r.scopes in search (keeps, scopes) depth 8

    policy_body-Keeps : (p : Policy) → Keeps place name id start (policy_body api realm client p)
    unfolding policy_body to_aggregate_policy to_client_policy to_group_policy to_role_policy
        to_time_policy to_user_policy
    policy_body-Keeps p = search (keeps, resolve-Keeps, resolve_flagged-Keeps) depth 20

    to_policy_representation-Keeps :
        (p : Policy) → Keeps place name id start (to_policy_representation api realm client p)
    unfolding to_policy_representation
    to_policy_representation-Keeps p =
        let body = policy_body-Keeps p in search (keeps, body) depth 8

    map_names-Keeps :
        (listing : Listing) (f absent nameless : String) (names : List String)
        → Keeps place name id start (map_names api realm client listing f absent nameless names)
    unfolding map_names
    map_names-Keeps listing f absent nameless [] = search keeps
    map_names-Keeps listing f absent nameless (n ∷ ns) = search (keeps, resolve-Keeps) depth 12

    to_permission_representation-Keeps :
        (p : Permission)
        → Keeps place name id start (to_permission_representation api realm client p)
    unfolding to_permission_representation map_scopes
    to_permission_representation-Keeps p = search (keeps, map_names-Keeps) depth 16

  -- What is sent for a part that is converted.
  module _ (api : Api) (reporter : Reporter) (realm condition prefix g h n : String) {R : Type 0}
      (rep : R → Rep) where
    sent :
        (r : R) (found : Option Entity) (s : ClientState)
        → rep_name (rep r) ≡ n
        → is_on_record place name id start
            (send_part api reporter realm condition prefix g h (rep r) place found s).1.calls
          ≡ (n == name && not (is_some found) || is_on_record place name id start s.calls)
    unfolding is_on_record send_part
    sent r none s named =
        let here = same_place_refl place in
        ap (is_on_record place name id start)
          (calls-report reporter condition prefix (annotate h []) _ _)
        ∙ rw (here) (rw (named) (ground arith))
    sent r (some entity) s named =
        ap (is_on_record place name id start)
          (calls-report reporter condition prefix (annotate g []) _ _)
        ∙ ground arith

  put_part-IsPut :
      {R : Type 0} (api : Api) (reporter : Reporter) (realm condition prefix f g h : String)
      (rep : R → Rep) (convert : Act ClientState R) (n : String)
      → Keeps place name id start convert
      → ((s : ClientState) (r : R) → (convert s).0 ≡ ok r → rep_name (rep r) ≡ n)
      → (found : Option Entity) (s : ClientState)
      → (put_part api reporter realm condition prefix f g h rep convert place found s).0 ≡ ok tt
      → is_on_record place name id start
          (put_part api reporter realm condition prefix f g h rep convert place found s).1.calls
        ≡ (n == name && not (is_some found) || is_on_record place name id start s.calls)
  unfolding put_part is_on_record Keeps
  put_part-IsPut api reporter realm condition prefix f g h rep convert n keep named found s done =
      let converting = failing api reporter realm condition prefix f convert in
      let (r, converted, others, run) =
        parts->>= converting
          (λ r. send_part api reporter realm condition prefix g h (rep r) place found) s done in
      let is_rep = named s r (
        ok-report reporter condition prefix (annotate f []) (convert s).0 (convert s).1
          converted) in
      let before =
        ap (is_on_record place name id start)
          (calls-report reporter condition prefix (annotate f []) (convert s).0 (convert s).1)
        ∙ keep s in
      ap (λ t. is_on_record place name id start t.calls) run
      ∙ sent api reporter realm condition prefix g h n rep r found (converting s).1 is_rep
      ∙ rw (before) refl

module _ (api : Api) (reporter : Reporter) (realm name id : String) (start : Bool)
    (place : Place) where
  pub put_scope-IsPut : IsPut api (scope_part api reporter realm) place name id start
  unfolding scope_part put_scope is_on_record
  put_scope-IsPut n none s h =
      let here = same_place_refl place in
      ap (is_on_record place name id start) (
        calls-report reporter "AuthorizationScopesSynced" "Failed to sync authorization scopes: "
          (annotate "failed to create scope: %w" []) _ _)
      ∙ rw (here) (ground arith)
  put_scope-IsPut n (some entity) s h = ground arith

  pub put_resource-IsPut : IsPut api (resource_part api reporter realm) place name id start
  unfolding resource_part to_resource_representation base_resource
  put_resource-IsPut r found s h =
      put_part-IsPut place name id start api reporter realm _ _ _ _ _ resource_rep
        (to_resource_representation api realm place.client r) r.name
        (to_resource_representation-Keeps place name id start api realm place.client r)
        (λ t rep made.
          let (_, _, done, _) =
            parts->>=
              (wrap "failed to map scopes: %w" []
                (map_resource_scopes api realm place.client r.scopes))
              _ t made in
          sym (ap (λ x. x.name) (ok-injective done)))
        found s h

  pub put_policy-IsPut : IsPut api (policy_part api reporter realm) place name id start
  unfolding policy_part to_policy_representation
  put_policy-IsPut p found s h =
      put_part-IsPut place name id start api reporter realm _ _ _ _ _ policy_rep
        (to_policy_representation api realm place.client p) p.name
        (to_policy_representation-Keeps place name id start api realm place.client p)
        (λ t rep made.
          let (_, _, done, _) = parts->>= (policy_body api realm place.client p) _ t made in
          sym (ap (λ x. x.name) (ok-injective done)))
        found s h

  pub put_permission-IsPut : IsPut api (permission_part api reporter realm) place name id start
  unfolding permission_part to_permission_representation
  put_permission-IsPut p found s h =
      put_part-IsPut place name id start api reporter realm _ _ _ _ _ permission_rep
        (to_permission_representation api realm place.client p) p.name
        (to_permission_representation-Keeps place name id start api realm place.client p)
        (λ t rep made.
          let listing = λ (kind : Kind).
            parts_of (record { kind = kind; realm = realm; client = place.client }) in
          let resources = wrap "failed to map resources: %w" [] (
            map_names api realm place.client (listing resource) "failed to get resources: %w"
              "resource %s does not exist" "resource %s does not have ID" p.resources) in
          let policies = wrap "failed to map policies: %w" [] (
            map_names api realm place.client (listing policy) "failed to get polices: %w"
              "policy %s does not exist" "policy %s does not have ID" p.policies) in
          let (_, _, more, _) = parts->>= resources _ t made in
          let (_, _, others, _) = parts->>= policies _ (resources t).1 more in
          let (_, _, done, _) =
            parts->>= (map_scopes api realm place.client p) _ (policies (resources t).1).1 others in
          sym (ap (λ x. x.name) (ok-injective done)))
        found s h
