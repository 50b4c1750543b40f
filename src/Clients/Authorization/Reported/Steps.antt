-- ===== src/Clients/Authorization/Reported/Steps.antt =====
-- What the steps of a handler of an authorization report.
use keycloak_config_sync_ope.Base.{
  ◌≡◌, sym, ◌∙◌, Bool, true, false, Option, none, some, List, [], ◌∷◌, String, ok, Act,
}
use keycloak_config_sync_ope.Base.Runs.{parts->>=}
use keycloak_config_sync_ope.Base.Dict
use keycloak_config_sync_ope.Base.Dict.{Dict}
use keycloak_config_sync_ope.Directory.{annotate}
use keycloak_config_sync_ope.Directory.Roles.{keys}
use keycloak_config_sync_ope.Clients.{
  Entity, Place, parts_of, get_client_id, Rep, Api, ClientState, Reporter, condition_type, ask,
  set_success,
}
use keycloak_config_sync_ope.Clients.Conditions.{
  Reports, pure-Reports, >>=-Reports, reported-Reports, lookup-set_condition,
  set_condition-succeeds, success,
}
use keycloak_config_sync_ope.Clients.Authorization.{
  Part, remaining, do_list, sync_items, delete_parts, prune, guarded, checked, serve_items,
}
use keycloak_config_sync_ope.Clients.Authorization.Handlers.{put_part, send_part}

module _ (api : Api) (reporter : Reporter) where
  send_part-Reports :
      (realm kind prefix g h : String) (rep : Rep) (place : Place) (found : Option Entity)
      → Reports reporter kind prefix (send_part api reporter realm kind prefix g h rep place found)
  unfolding send_part
  send_part-Reports realm kind prefix g h rep place none =
      reported-Reports reporter kind prefix (annotate h []) _
  send_part-Reports realm kind prefix g h rep place (some entity) =
      reported-Reports reporter kind prefix (annotate g []) _

  pub put_part-Reports :
      (realm kind prefix f g h : String) {R : Type 0} (rep : R → Rep) (convert : Act ClientState R)
      (place : Place) (found : Option Entity)
      → Reports reporter kind prefix
          (put_part api reporter realm kind prefix f g h rep convert place found)
  unfolding put_part
  put_part-Reports realm kind prefix f g h rep convert place found =
      >>=-Reports reporter kind prefix _ _
        (reported-Reports reporter kind prefix (annotate f []) convert)
        (λ r. send_part-Reports realm kind prefix g h (rep r) place found)

  module _ {I : Type 0} (part : Part I) where
    prune-success :
        (client : String) (add_only : Bool) (left : Dict Entity) (s : ClientState)
        → (prune api part reporter client add_only left s).0 ≡ ok tt
        → Dict.lookup
            (condition_type reporter part.condition)
            (prune api part reporter client add_only left s).1.conditions
          ≡ some (success reporter part.condition part.synced)
    unfolding prune
    prune-success client true left s h = lookup-set_condition _ _ s
    prune-success client false left s h =
        let deleting =
          checked api part reporter
            (delete_parts api part (part.place client) left (api.key_order (keys left))) in
        let ending =
          λ (x : Unit {0}). set_success reporter part.condition part.condition part.synced in
        let (_, _, _, run) = parts->>= deleting ending s h in
        rw (run) (lookup-set_condition _ _ (deleting s).1)

    set_success-Reports :
        Reports reporter part.condition part.prefix
          (set_success reporter part.condition part.condition part.synced)
    unfolding Reports
    set_success-Reports s e h calm = cc (sym h ∙ set_condition-succeeds _ _ s)

    prune-Reports :
        (client : String) (add_only : Bool) (left : Dict Entity)
        → Reports reporter part.condition part.prefix (prune api part reporter client add_only left)
    unfolding prune
    prune-Reports client true left = set_success-Reports
    prune-Reports client false left =
        >>=-Reports reporter part.condition part.prefix _ _
          (reported-Reports reporter part.condition part.prefix (λ e. e) _)
          (λ _. set_success-Reports)

    module _
        (each : (place : Place) (item : I) (found : Option Entity)
          → Reports reporter part.condition part.prefix (part.process place item found)) where
      sync_items-Reports :
          (place : Place) (items : List I) (m : Dict Entity)
          → Reports reporter part.condition part.prefix (sync_items api part place items m)
      unfolding sync_items
      sync_items-Reports place [] m = pure-Reports reporter part.condition part.prefix m
      sync_items-Reports place (item ∷ items) m =
          >>=-Reports reporter part.condition part.prefix _ _
            (each place item (Dict.lookup (part.name_of item) m))
            (λ _. sync_items-Reports place items (remaining (part.name_of item) m))

      pub serve_items-Reports :
          (realm client_id : String) (add_only : Bool) (items : List I)
          → Reports reporter part.condition part.prefix
              (serve_items api part reporter realm client_id add_only items)
      unfolding serve_items
      serve_items-Reports realm client_id add_only items =
          let kind = part.condition in
          >>=-Reports reporter kind part.prefix _ _
            (reported-Reports reporter kind part.prefix (annotate "failed to get client id: %w" [])
              _)
            (λ client.
              >>=-Reports reporter kind part.prefix _ _
                (reported-Reports reporter kind part.prefix (annotate part.list_failed []) _)
                (λ existing.
                  >>=-Reports reporter kind part.prefix _ _
                    (sync_items-Reports (part.place client) items existing)
                    (λ left. prune-Reports client add_only left)))

    pub serve_items-success :
        (realm client_id : String) (add_only : Bool) (items : List I) (s : ClientState)
        → (serve_items api part reporter realm client_id add_only items s).0 ≡ ok tt
        → Dict.lookup
            (condition_type reporter part.condition)
            (serve_items api part reporter realm client_id add_only items s).1.conditions
          ≡ some (success reporter part.condition part.synced)
    unfolding serve_items
    serve_items-success realm client_id add_only items s h =
        let (client, _, listing, run) =
          parts->>=
            (guarded api part reporter "failed to get client id: %w"
              (ask (get_client_id client_id realm) (λ h. api.on_client_id h client_id realm)))
            _ s h in
        let (existing, _, syncing, run') =
          parts->>=
            (guarded api part reporter part.list_failed
              (do_list api (parts_of (part.place client))))
            _ _ listing in
        let (left, _, ending, run'') =
          parts->>= (sync_items api part (part.place client) items existing) _ _ syncing in
        rw (run) (rw (run') (rw (run'') (prune-success client add_only left _ ending)))
