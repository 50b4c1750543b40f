-- ===== src/AuthFlow/Controller.antt =====
-- internal/controller/keycloakauthflow/keycloakauthflow_controller.go and chain/chain.go: one
-- reconciliation of a KeycloakAuthFlow.
pub mod Updates
pub mod Initialize
pub mod Finalizers
pub mod Status
use keycloak_config_sync_ope.Base.{
  ℕ, zero, suc, ◌+◌, ◌-◌, ◌≤◌, ◌<◌, ◌<>◌, ◌≡◌, refl, sym, ap, ◌∙◌, subst, ◌≢◌, ◌↔◌, ◌⊎◌, inl, inr,
  Bool, true, false, not, ◌&&◌, ◌||◌, Option, none, some, List, [], ◌∷◌, ◌++◌, map, arith, String,
  ltb, leb, nat_eq, if◌then◌else◌, Bool-cases, Option-cases, ◌==◌, String_discrete, ==_refl,
  eq_of_==, contains, or_empty, length, get_elem?, select, All, All-append, All-get_elem?, All-map,
  Err, errorf, wrapf, sentinel, Result, ok, err, is_ok, Extends, same, more, Extends-trans,
  Extends-after, Result-cases, Act, pure, fail, ◌>>=◌, ◌>>◌, wrap,
}
use keycloak_config_sync_ope.AuthFlow.{
  RealmRef, AuthenticatorConfig, AuthenticationExecution, KeycloakAuthFlowSpec,
  KeycloakAuthFlowStatus, ExecutionInfo, AuthFlowRepresentation, FlowInfo, ChildFlow, NewExecution,
  Call, get_auth_flows, create_auth_flow, update_auth_flow, delete_auth_flow, get_flow_executions,
  add_child_flow, add_execution, update_execution, delete_execution, create_execution_config,
  get_realm, update_realm_browser_flow, list_auth_flows, Api, World, request, set_id, get_id,
  do_get_auth_flows, do_get_flow_executions, do_update_execution, do_delete_execution,
}
use keycloak_config_sync_ope.Keycloakv2.{resource_id, is_not_found}
use keycloak_config_sync_ope.Base.Int.{ℤ, pos, negsuc, eq_ℤ, int32}
use keycloak_config_sync_ope.Base.Dict
use keycloak_config_sync_ope.Base.Dict.{Dict}
use keycloak_config_sync_ope.Base.{
  errors_is, keycloak_is_not_available, keycloak_realm_not_found, gocloak,
}
use keycloak_config_sync_ope.Base.{k8s_is_not_found}
use keycloak_config_sync_ope.AuthFlow.CreateOrUpdate
use keycloak_config_sync_ope.AuthFlow.Sync
use keycloak_config_sync_ope.AuthFlow.Remove
use keycloak_config_sync_ope.AuthFlow.Cluster.{
  Cluster, Event, Manager, Object, create_client, create_keycloak_client, emit, finalizer_name,
  get_object, get_realm_name_from_ref, get_realm_object, has_gocloak_401, is_unauthorized_error,
  legacy_finalizer_name, remove_finalizer, remove_finalizers_on_realm_not_found, run,
  set_controller_reference, set_realm_owner_ref, update, update_object, update_status, without,
}

module _ (cluster : Cluster) where
  -- What the chain does with the result of a handler.
  unfoldable pub retry : (Api → Act World (Unit {0})) → Result (Unit {0}) → Act Manager (Unit {0})
  unfolding is_unauthorized_error
  retry h (ok a) = pure a
  retry h (err e) =
      if is_unauthorized_error cluster e
      then create_keycloak_client cluster
        >>= (λ client. wrap "failed to serve handler: %w" [] (run (h client)))
      else fail (wrapf "failed to serve handler: %w" [] e)

  -- `Chain.Serve`: a new client serves only the handler that asked for it.
  unfoldable pub serve_chain : Api → List (Api → Act World (Unit {0})) → Act Manager (Unit {0})
  unfolding retry
  serve_chain client [] m = (ok tt, m)
  serve_chain client (h ∷ handlers) m =
      (retry h (h client m.world).0 >> serve_chain client handlers) (run (h client) m).1

-- `reconcile.Result`, its `RequeueAfter` in seconds
pub record Outcome : Type 0 where
  pub requeue_after : ℕ

abbrev pub is_same_status : KeycloakAuthFlowStatus → KeycloakAuthFlowStatus → Bool
is_same_status a b =
    a.error == b.error && a.phase == b.phase && eq_ℤ a.failure_count b.failure_count && a.id == b.id

abbrev pub set_phase : String → String → Act World (Unit {0})
set_phase error phase w =
    (ok tt, record w { status = record (w.status) { error = error; phase = phase } })

module _ (cluster : Cluster) where
  -- `updateKeycloakAuthFlowStatus`
  unfoldable pub update_flow_status : KeycloakAuthFlowStatus → Act Manager (Unit {0})
  update_flow_status old m =
      if is_same_status m.world.status old
      then (ok tt, m)
      else wrap "failed to update KeycloakAuthFlow status: %w" []
          (emit (update_status m.world.status)
            (λ events. cluster.on_update_status events m.world.status))
          m

  -- What follows the chain.
  unfoldable pub conclude : KeycloakAuthFlowStatus → Result (Unit {0}) → Act Manager Outcome
  unfolding update_flow_status
  conclude old (ok _) =
      run (set_phase "" "Completed")
      >> (update_flow_status old >> pure (record { requeue_after = 600 }))
  conclude old (err e) =
      let failure = wrapf "auth flow chain processing failed: %w" [] e in
      run (set_phase (cluster.error_text failure) "Failed")
      >> (wrap "failed to update KeycloakAuthFlow status (%s): %w" (cluster.error_text failure ∷ [])
            (update_flow_status old)
          >> fail failure)

  -- `controllerutil.AddFinalizer` and the update after it
  unfoldable pub ensure_finalizer : Act Manager (Unit {0})
  ensure_finalizer m =
      if contains finalizer_name m.finalizers
      then (ok tt, m)
      else wrap "failed to add finalizer to KeycloakAuthFlow: %w" [] (update cluster)
          (record m { finalizers = m.finalizers ++ (finalizer_name ∷ []) })

module _ (cluster : Cluster) (object : Object) where
  -- What the deletion and the reconciliation need, or none where there is nothing to do.
  unfoldable pub on_client : Result Api → Act Manager (Option (Api × String))
  unfolding get_realm_name_from_ref remove_finalizers_on_realm_not_found
  on_client (ok client) =
      wrap "unable to get realm name from ref: %w" [] (get_realm_name_from_ref cluster object)
      >>= (λ realm. pure (some (client, realm)))
  on_client (err e) =
      if errors_is keycloak_realm_not_found e && object.deleting
      then remove_finalizers_on_realm_not_found cluster >>= (λ stop. pure none)
      else fail (wrapf "failed to create Keycloak client: %w" [] e)

  -- `initializeReconciliation`, once the object is read
  unfoldable pub initialize : Act Manager (Option (Api × String))
  unfolding set_realm_owner_ref on_client
  initialize =
      wrap "unable to set realm owner ref: %w" [] (set_realm_owner_ref cluster object)
      >> (λ m. on_client (cluster.on_create_client m.events) (create_keycloak_client cluster m).1)

module _ (cluster : Cluster)
    (sort_slice : List AuthenticationExecution → List AuthenticationExecution)
    (object : Object) where
  -- `MakeChain`
  abbrev pub chain : String → List (Api → Act World (Unit {0}))
  chain realm =
      (λ api. CreateOrUpdate.serve api realm object.spec)
      ∷ (λ api. Sync.serve api realm object.spec sort_slice)
      ∷ []

  -- `handleReconciliation` with its finalizer in place
  unfoldable pub reconcile_chain : Api → String → Act Manager Outcome
  unfolding serve_chain conclude CreateOrUpdate.serve Sync.serve
  reconcile_chain client realm m =
      let (result, m') = serve_chain cluster client (chain realm) m in
      conclude cluster m.world.status result m'

  unfoldable pub handle_reconciliation : Api → String → Act Manager Outcome
  unfolding ensure_finalizer reconcile_chain
  handle_reconciliation client realm = ensure_finalizer cluster >> reconcile_chain client realm

  -- What follows the removal.
  unfoldable pub conclude_removal : String → Result (Unit {0}) → Act Manager Outcome
  unfolding handle_reconciliation is_unauthorized_error without
  conclude_removal realm (ok _) = remove_finalizer finalizer_name >>= (λ removed.
      remove_finalizer legacy_finalizer_name >>= (λ also_removed.
        wrap "failed to update KeycloakAuthFlow after finalizer removal: %w" [] (update cluster)
        >> pure (record { requeue_after = 0 })))
  conclude_removal realm (err e) =
      if is_unauthorized_error cluster e
      then wrap "handleDeletion failed to refreshToke auth flow: %w" []
          (create_keycloak_client cluster)
        >>= (λ client. handle_reconciliation client realm)
      else fail (wrapf "failed to remove auth flow: %w" [] e)

  unfoldable pub handle_deletion : Api → String → Act Manager Outcome
  unfolding conclude_removal Remove.serve
  handle_deletion client realm m =
      if contains finalizer_name m.finalizers || contains legacy_finalizer_name m.finalizers
      then (let (result, w) = Remove.serve client object.annotations realm object.spec m.world in
          conclude_removal realm result (record m { world = w }))
      else (ok (record { requeue_after = 0 }), m)

  -- What follows the initialization: `Reconcile`.
  unfoldable pub proceed : Result (Option (Api × String)) → Act Manager Outcome
  unfolding handle_deletion handle_reconciliation
  proceed (err e) =
      if errors_is keycloak_is_not_available e then pure (record { requeue_after = 60 }) else fail e
  proceed (ok none) = pure (record { requeue_after = 0 })
  proceed (ok (some (client, realm))) =
      if object.deleting then handle_deletion client realm else handle_reconciliation client realm

  unfoldable pub reconcile_object : Act Manager Outcome
  unfolding initialize proceed
  reconcile_object m = proceed (initialize cluster object m).0 (initialize cluster object m).1

-- The object as it was read, before anything is done with it.
abbrev pub manage : Object → List Call → List Event → Manager
manage object calls events = record {
  finalizers = object.finalizers;
  world = record { status = object.status; calls = calls };
  events = get_object ∷ events;
}

-- What is returned for an error of the initialization.
abbrev pub init_error : Err → Result Outcome
init_error e =
    if errors_is keycloak_is_not_available e then ok (record { requeue_after = 60 }) else err e

module _ (cluster : Cluster)
    (sort_slice : List AuthenticationExecution → List AuthenticationExecution) where
  -- `Reconcile`, after the calls to Keycloak and the events so far.
  unfoldable pub reconcile : List Call → List Event → Result Outcome × List Event
  unfolding reconcile_object
  reconcile calls events = elim (cluster.on_get_object events) [
    | err e ↦
        if k8s_is_not_found e
        then (ok (record { requeue_after = 0 }), get_object ∷ events)
        else (init_error (wrapf "failed to get KeycloakAuthFlow: %w" [] e), get_object ∷ events)
    | ok object ↦
        let done = reconcile_object cluster sort_slice object (manage object calls events) in
        (done.0, done.1.events)
  ]
