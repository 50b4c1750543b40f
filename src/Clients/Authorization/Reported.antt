-- ===== src/Clients/Authorization/Reported.antt =====
-- The condition that a handler of an authorization leaves in the status of a client.
pub mod Steps
use keycloak_config_sync_ope.Base.{
  ◌≡◌, sym, ◌∙◌, ◌⊎◌, inl, inr, Bool, true, false, Option, none, some, List, [], ◌∷◌, String, ◌<>◌,
  Bool-cases, Err, Result, ok, err, Result-cases, Act,
}
use keycloak_config_sync_ope.Base.Runs.{parts->>=}
use keycloak_config_sync_ope.Base.Dict
use keycloak_config_sync_ope.Base.Dict.{Dict}
use keycloak_config_sync_ope.Directory.{annotate}
use keycloak_config_sync_ope.Directory.Chain.{is_panic}
use keycloak_config_sync_ope.Directory.Roles.{keys}
use keycloak_config_sync_ope.Clients.{
  Entity, Kind, scope, resource, policy, permission, Place, parts_of, get_client_id, Rep, Api,
  ClientState, Condition, Reporter, condition_type, ask, set_success,
}
use keycloak_config_sync_ope.Clients.Conditions.{
  Reports, pure-Reports, >>=-Reports, reported-Reports, lookup-set_condition,
  set_condition-succeeds, failure, success,
}
use keycloak_config_sync_ope.Clients.Authorization.{
  Part, remaining, do_list, sync_items, delete_parts, prune, guarded, checked, serve_items,
}
use keycloak_config_sync_ope.Clients.Authorization.Conversions.{Authorization}
use keycloak_config_sync_ope.Clients.Authorization.Handlers.{
  AuthorizedClient, is_add_only, put_scope, put_part, send_part, scope_part, resource_part,
  policy_part, permission_part, process_scope, process_resources, process_policy,
  process_permissions,
}
use keycloak_config_sync_ope.Clients.Authorization.Reconciled.{handler}
use keycloak_config_sync_ope.Clients.Authorization.Reported.Steps.{
  put_part-Reports, serve_items-Reports, serve_items-success,
}

-- What is told of a result by the condition of this type.
module _ (reporter : Reporter) (condition synced prefix : String) where
  abbrev pub IsTold : Result (Unit {0}) → Dict Condition → Type 0
  IsTold (ok a) conditions =
      Dict.lookup (condition_type reporter condition) conditions
      ≡ some (success reporter condition synced)
  IsTold (err e) conditions =
      (is_panic e ≡ true)
      ⊎ ((x : Err) × (Dict.lookup (condition_type reporter condition) conditions
            ≡ some (failure reporter prefix x)))

  result-IsTold :
      (m : Act ClientState (Unit {0})) (s : ClientState)
      → ((m s).0 ≡ ok tt
          → Dict.lookup (condition_type reporter condition) (m s).1.conditions
            ≡ some (success reporter condition synced))
      → Reports reporter condition prefix m
      → IsTold (m s).0 (m s).1.conditions
  unfolding Reports
  result-IsTold m s succeeds fails = elim (Result-cases (m s).0) [
    | inl (a, e) ↦ rw (e) (succeeds e)
    | inr (x, e) ↦ elim (Bool-cases (is_panic x)) [
      | inl panic ↦ rw (e) (inl panic)
      | inr calm ↦ rw (e) (inr (fails s x e calm))
    ]
  ]

-- The condition of a handler, and what it calls its parts in the messages.
abbrev pub condition_of : Kind → String
condition_of scope = "AuthorizationScopesSynced"
condition_of resource = "AuthorizationResourcesSynced"
condition_of policy = "AuthorizationPoliciesSynced"
condition_of permission = "AuthorizationPermissionsSynced"

abbrev pub words_of : Kind → String
words_of scope = "scopes"
words_of resource = "resources"
words_of policy = "policies"
words_of permission = "permissions"

module _ (api : Api) (reporter : Reporter) (realm : String) where
  told :
      {I : Type 0} (part : Part I) (client_id : String) (add_only : Bool) (items : List I)
      (s : ClientState)
      → ((place : Place) (item : I) (found : Option Entity)
          → Reports reporter part.condition part.prefix (part.process place item found))
      → IsTold reporter part.condition part.synced part.prefix
          (serve_items api part reporter realm client_id add_only items s).0
          (serve_items api part reporter realm client_id add_only items s).1.conditions
  told part client_id add_only items s each =
      result-IsTold reporter part.condition part.synced part.prefix
        (serve_items api part reporter realm client_id add_only items) s
        (serve_items-success api reporter part realm client_id add_only items s)
        (serve_items-Reports api reporter part each realm client_id add_only items)

  put_scope-Reports :
      (place : Place) (name : String) (found : Option Entity)
      → Reports reporter "AuthorizationScopesSynced" "Failed to sync authorization scopes: "
          (put_scope api reporter realm place name found)
  unfolding put_scope
  put_scope-Reports place name none = reported-Reports reporter _ _ (annotate _ []) _
  put_scope-Reports place name (some entity) = pure-Reports reporter _ _ tt

  -- For a client with an authorization, whatever is answered: after a success of a handler its
  -- condition is true, with the reason and the message of a success; after an error that is no
  -- panic it is false, and its message ends with the text of an error.
  pub handler-IsTold :
      (kind : Kind) (client : AuthorizedClient) (a : Authorization) (s : ClientState)
      → client.authorization ≡ some a
      → IsTold reporter
          (condition_of kind)
          ("Authorization " <> words_of kind <> " synchronized")
          ("Failed to sync authorization " <> words_of kind <> ": ")
          (handler api reporter realm kind client s).0
          (handler api reporter realm kind client s).1.conditions
  unfolding process_scope process_resources process_policy process_permissions scope_part
      resource_part policy_part permission_part
  handler-IsTold scope client a s auth = rw (auth) (
      told (scope_part api reporter realm) client.client_id (is_add_only client) a.scopes s
        put_scope-Reports)
  handler-IsTold resource client a s auth = rw (auth) (
      told (resource_part api reporter realm) client.client_id (is_add_only client) a.resources s
        (λ place item found. put_part-Reports api reporter realm _ _ _ _ _ _ _ place found))
  handler-IsTold policy client a s auth = rw (auth) (
      told (policy_part api reporter realm) client.client_id (is_add_only client) a.policies s
        (λ place item found. put_part-Reports api reporter realm _ _ _ _ _ _ _ place found))
  handler-IsTold permission client a s auth = rw (auth) (
      told (permission_part api reporter realm) client.client_id (is_add_only client) a.permissions
        s (λ place item found. put_part-Reports api reporter realm _ _ _ _ _ _ _ place found))
