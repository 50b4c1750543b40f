-- ===== src/Clients/Authorization/Accepted.antt =====
-- process_scope.go against a Keycloak that accepts the requests.
use keycloak_config_sync_ope.Base.{
  ◌≡◌, refl, sym, ◌∙◌, inl, inr, Bool, true, false, Option, none, some, List, [], ◌∷◌, String, ◌==◌,
  Bool-cases, Option-cases, ok,
}
use keycloak_config_sync_ope.Base.Dict
use keycloak_config_sync_ope.Base.Dict.{Dict}
use keycloak_config_sync_ope.Directory.Roles.{is_some, keys}
use keycloak_config_sync_ope.Clients.{
  Entity, scope, Place, Rep, parts_of, list, get_client_id, Call, delete, Api, ClientState,
  Reporter, condition_type, report,
}
use keycloak_config_sync_ope.Clients.Conditions.{set_condition-succeeds, success}
use keycloak_config_sync_ope.Clients.Authorization.{
  Part, remaining, sync_items, delete_parts, prune, serve_items,
}
use keycloak_config_sync_ope.Clients.Authorization.Refinement.Maps.{lookup-remaining}
use keycloak_config_sync_ope.Clients.Authorization.Conversions.{Authorization}
use keycloak_config_sync_ope.Clients.Authorization.Handlers.{
  AuthorizedClient, at, is_add_only, put_scope, scope_part, process_scope,
}
use keycloak_config_sync_ope.Clients.Authorization.Reported.Steps.{serve_items-success}

-- Every part that is listed has an ID.
abbrev pub HaveIds : Dict Entity → Type 0
HaveIds m = (k : String) (e : Entity) → Dict.lookup k m ≡ some e → is_some e.id ≡ true

remaining-HaveIds : (m : Dict Entity) (name : String) → HaveIds m → HaveIds (remaining name m)
remaining-HaveIds m name ids k e found =
    let here = sym (lookup-remaining m name k) ∙ found in
    elim (Bool-cases (name == k)) [
      | inl same ↦ cc (rw (same) at here)
      | inr differs ↦ ids k e (rw (differs) at here)
    ]

module _ {I : Type 0} (api : Api) (part : Part I)
    (deletes : (h : List Call) (place : Place) (id : String)
      → api.on_delete h place id ≡ ok tt) where
  delete_parts_succeeds :
      (place : Place) (m : Dict Entity) (ks : List String) (s : ClientState)
      → HaveIds m
      → (delete_parts api part place m ks s).0 ≡ ok tt
  unfolding delete_parts
  delete_parts_succeeds place m [] s ids = refl
  delete_parts_succeeds place m (k ∷ ks) s ids = elim (Bool-cases (part.is_default k)) [
    | inl default ↦ rw (default) (delete_parts_succeeds place m ks s ids)
    | inr other ↦ elim (Option-cases (Dict.lookup k m)) [
      | inl absent ↦ rw (other) (rw (absent) (delete_parts_succeeds place m ks s ids))
      | inr (entity, listed) ↦ elim (Option-cases entity.id) [
        | inl nil ↦ cc (rw (nil) at (ids k entity listed))
        | inr (i, has) ↦
            let s' : ClientState = record s { calls = delete place i ∷ s.calls } in
            rw (other) (
              rw (listed)
                (rw (has) (rw (deletes s.calls place i) (delete_parts_succeeds place m ks s' ids))))
      ]
    ]
  ]

  prune_succeeds :
      (reporter : Reporter) (client : String) (add_only : Bool) (left : Dict Entity)
      (s : ClientState)
      → HaveIds left
      → (prune api part reporter client add_only left s).0 ≡ ok tt
  unfolding prune report
  prune_succeeds reporter client true left s ids = set_condition-succeeds _ _ s
  prune_succeeds reporter client false left s ids =
      let ks = api.key_order (keys left) in
      rw (delete_parts_succeeds (part.place client) left ks s ids) (set_condition-succeeds _ _ _)

  module _
      (each : (place : Place) (item : I) (found : Option Entity) (s : ClientState)
        → (part.process place item found s).0 ≡ ok tt) where
    sync_items_succeeds :
        (place : Place) (items : List I) (m : Dict Entity) (s : ClientState)
        → HaveIds m
        → (left : Dict Entity) × ((sync_items api part place items m s).0 ≡ ok left) × HaveIds left
    unfolding sync_items
    sync_items_succeeds place [] m s ids = (m, refl, ids)
    sync_items_succeeds place (item ∷ items) m s ids =
        let name = part.name_of item in
        let put = part.process place item (Dict.lookup name m) in
        let (left, done, have) =
          sync_items_succeeds place items (remaining name m) (put s).1
            (remaining-HaveIds m name ids) in
        (left, rw (each place item (Dict.lookup name m) s) done, have)

    serve_items_succeeds :
        (reporter : Reporter) (realm client_id client : String) (add_only : Bool) (items : List I)
        (s : ClientState) (existing : Dict Entity)
        → HaveIds existing
        → api.on_client_id s.calls client_id realm ≡ ok client
        → api.on_list (get_client_id client_id realm ∷ s.calls) (parts_of (part.place client))
          ≡ ok existing
        → (serve_items api part reporter realm client_id add_only items s).0 ≡ ok tt
    unfolding serve_items report
    serve_items_succeeds reporter realm client_id client add_only items s existing ids got listed =
        let place = part.place client in
        let s1 : ClientState = record s {
          calls = list (parts_of place) ∷ get_client_id client_id realm ∷ s.calls;
        } in
        let (left, synced, have) = sync_items_succeeds place items existing s1 ids in
        rw (got) (rw (listed) (rw (synced) (prune_succeeds reporter client add_only left _ have)))

module _ (api : Api) (reporter : Reporter) (realm : String)
    (creates : (h : List Call) (place : Place) (rep : Rep) → api.on_create h place rep ≡ ok tt)
    (deletes : (h : List Call) (place : Place) (id : String)
      → api.on_delete h place id ≡ ok tt) where
  put_scope_succeeds :
      (place : Place) (name : String) (found : Option Entity) (s : ClientState)
      → (put_scope api reporter realm place name found s).0 ≡ ok tt
  unfolding put_scope report
  put_scope_succeeds place name none s = rw (creates s.calls place _) refl
  put_scope_succeeds place name (some entity) s = refl

  -- Where Keycloak knows the client, lists its scopes with an ID each, and accepts every creation
  -- and every deletion, the handler of the scopes succeeds and its condition is true.
  pub process_scope_succeeds :
      (client : AuthorizedClient) (a : Authorization) (uuid : String) (s : ClientState)
      (existing : Dict Entity)
      → client.authorization ≡ some a
      → HaveIds existing
      → api.on_client_id s.calls client.client_id realm ≡ ok uuid
      → api.on_list
          (get_client_id client.client_id realm ∷ s.calls)
          (parts_of (at realm scope uuid))
        ≡ ok existing
      → ((process_scope api reporter realm client s).0 ≡ ok tt)
        × (Dict.lookup
              (condition_type reporter "AuthorizationScopesSynced")
              (process_scope api reporter realm client s).1.conditions
            ≡ some
                (success reporter "AuthorizationScopesSynced" "Authorization scopes synchronized"))
  unfolding process_scope scope_part
  process_scope_succeeds client a uuid s existing auth ids got listed =
      let part = scope_part api reporter realm in
      let done =
        serve_items_succeeds api part deletes put_scope_succeeds reporter realm client.client_id
          uuid (is_add_only client) a.scopes s existing ids got listed in
      rw (auth) (
        done,
        serve_items-success api reporter part realm client.client_id (is_add_only client) a.scopes s
            done,
      )
