-- ===== src/Clients/Authorization.antt =====
-- process_scope.go, process_resources.go, process_policy.go and process_permissions.go of the chain
-- of the clients: the loop over the parts that a client lists, and the deletion of the others, as
-- the four handlers have it in common.
pub mod Conversions
pub mod Handlers
pub mod Records
pub mod Refinement
pub mod Served
pub mod Reconciled
pub mod Reported
pub mod Attributes
pub mod Accepted
use keycloak_config_sync_ope.Base.{
  Bool, true, false, Option, none, some, List, [], ◌∷◌, String, ◌<>◌, if◌then◌else◌, ◌==◌, Err,
  errorf, wrapf, Result, ok, err, Act, pure, fail, ◌>>=◌, ◌>>◌, wrap,
}
use keycloak_config_sync_ope.Base.Dict
use keycloak_config_sync_ope.Base.Dict.{Dict}
use keycloak_config_sync_ope.Flush.{is_err_not_found}
use keycloak_config_sync_ope.Directory.{annotate}
use keycloak_config_sync_ope.Directory.Roles.{is_some, keys}
use keycloak_config_sync_ope.RealmRoles.Composites.{erase}
use keycloak_config_sync_ope.Clients.{
  Entity, Place, Listing, parts_of, Call, get_client_id, list, delete, Api, Condition, ClientState,
  ask, branch, deref, Reporter, set_success, reported,
}

-- What differs between the handlers, for items `I`: the words of the messages, what is done for an
-- item, given what is listed under its name, and the names that are never deleted.
pub record Part (I : Type 0) : Type 0 where
  pub place : String → Place
  -- the type of the condition and the reason of a success, the message of a success and the
  -- beginning of the message of a failure
  pub condition : String
  pub synced : String
  pub prefix : String
  pub list_failed : String
  pub delete_failed : String
  pub name_of : I → String
  pub process : Place → I → Option Entity → Act ClientState (Unit {0})
  pub is_default : String → Bool

abbrev pub do_list : Api → Listing → Act ClientState (Dict Entity)
do_list api listing = ask (list listing) (λ h. api.on_list h listing)

-- The map after an item: its entry is deleted where it was found.
abbrev pub remaining : String → Dict Entity → Dict Entity
remaining name m = if is_some (Dict.lookup name m) then erase name m else m

-- An error of a deletion; that Keycloak does not know the part is none.
abbrev pub skip_missing : Result (Unit {0}) → Result (Unit {0})
skip_missing (ok a) = ok a
skip_missing (err e) = if is_err_not_found e then ok tt else err e

abbrev pub forgive : Act ClientState (Unit {0}) → Act ClientState (Unit {0})
forgive m s = (skip_missing (m s).0, (m s).1)

module _ {I : Type 0} (api : Api) (part : Part I) where
  -- The loop over the items, with what is left of the map.
  unfoldable pub sync_items : Place → List I → Dict Entity → Act ClientState (Dict Entity)
  unfolding erase
  sync_items place [] m = pure m
  sync_items place (item ∷ items) m =
      part.process place item (Dict.lookup (part.name_of item) m)
      >> sync_items place items (remaining (part.name_of item) m)

  -- The loop of the deletions, over the keys of the map.
  unfoldable pub delete_parts : Place → Dict Entity → List String → Act ClientState (Unit {0})
  unfolding is_err_not_found
  delete_parts place m [] = pure tt
  delete_parts place m (name ∷ names) =
      let rest = delete_parts place m names in
      if part.is_default name
      then rest
      else branch (Dict.lookup name m) rest (λ entity. deref entity.id >>= (λ id.
        wrap part.delete_failed [] (forgive (ask (delete place id) (λ h. api.on_delete h place id)))
        >> rest))

  module _ (reporter : Reporter) where
    abbrev pub guarded : {A : Type 0} → String → Act ClientState A → Act ClientState A
    guarded f m = reported reporter part.condition part.prefix (annotate f []) m

    -- An error that is returned as it is
    abbrev pub checked : {A : Type 0} → Act ClientState A → Act ClientState A
    checked m = reported reporter part.condition part.prefix (λ e. e) m

    -- What follows the loop over the items.
    unfoldable pub prune : String → Bool → Dict Entity → Act ClientState (Unit {0})
    unfolding delete_parts
    prune client add_only left = do
      if add_only
          then pure tt
          else checked (delete_parts (part.place client) left (api.key_order (keys left)))
      set_success reporter part.condition part.condition part.synced

    -- `Serve`, for a client with an authorization.
    unfoldable pub serve_items : String → String → Bool → List I → Act ClientState (Unit {0})
    unfolding sync_items prune
    serve_items realm client_id add_only items = do
      client ←
          guarded "failed to get client id: %w"
            (ask (get_client_id client_id realm) (λ h. api.on_client_id h client_id realm))
      existing ← guarded part.list_failed (do_list api (parts_of (part.place client)))
      left ← sync_items (part.place client) items existing
      prune client add_only left
