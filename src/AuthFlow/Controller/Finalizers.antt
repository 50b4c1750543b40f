-- ===== src/AuthFlow/Controller/Finalizers.antt =====
-- When the controller takes its finalizer from an object.
use keycloak_config_sync_ope.Base.{
  ◌≡◌, refl, sym, ap, subst, inl, inr, true, ◌||◌, Option, none, some, List, [], arith, String,
  Bool-cases, contains, Result, ok, err, Extends, same, more, Act, wrap,
}
use keycloak_config_sync_ope.AuthFlow.{AuthenticationExecution, Api}
use keycloak_config_sync_ope.AuthFlow.Remove
use keycloak_config_sync_ope.AuthFlow.{Call}
use keycloak_config_sync_ope.Base.{Extends-after}
use keycloak_config_sync_ope.AuthFlow.Cluster.{
  get_object, Event, Object, create_client, Cluster, Manager, finalizer_name, legacy_finalizer_name,
  create_keycloak_client, is_unauthorized_error,
}
use keycloak_config_sync_ope.AuthFlow.Controller.{
  manage, reconcile, serve_chain, initialize, chain, reconcile_chain, ensure_finalizer,
  handle_reconciliation, conclude_removal, handle_deletion, proceed, reconcile_object,
}
use keycloak_config_sync_ope.AuthFlow.Controller.Updates.{
  >>=-Extends, if-Extends, Keeps, IsRemoved, Justified, conclude_lem, ensure_finalizer-Justified,
  serve_chain-Justified, IsJustified,
}
use keycloak_config_sync_ope.AuthFlow.Controller.Initialize.{
  Untouched, IsGiven, Prepared, initialize-Justified, initialize-Prepared,
}

module _ (cluster : Cluster) (object : Object) (start : Manager) where
  module _ (sort_slice : List AuthenticationExecution → List AuthenticationExecution) where
    handle_reconciliation-Justified :
        (client : Api) (realm : String) (m : Manager)
        → (Keeps cluster object start) m.finalizers
        → (Justified cluster object start) m.events
        → (Justified cluster object start)
            (handle_reconciliation cluster sort_slice object client realm m).1.events
    unfolding handle_reconciliation reconcile_chain
    handle_reconciliation-Justified client realm m keeps h =
        let before = ensure_finalizer-Justified cluster object start m keeps h in
        >>=-Extends (IsJustified cluster object start) start.events (ensure_finalizer cluster)
          (λ _. reconcile_chain cluster sort_slice object client realm) m before
          (λ _ _.
            let m' = (ensure_finalizer cluster m).1 in
            let ran = serve_chain cluster client (chain cluster sort_slice object realm) m' in
            conclude_lem cluster object start m'.world.status ran.0 ran.1 (
              serve_chain-Justified cluster object start client
                (chain cluster sort_slice object realm) m' before))

    conclude_removal-Justified :
        (client : Api) (realm : String) (r : Result (Unit {0}))
        → object.deleting ≡ true
        → (IsGiven cluster object start) client realm
        → (Remove.serve client object.annotations realm object.spec start.world).0 ≡ r
        → (m : Manager) → (Keeps cluster object start) m.finalizers
        → (Justified cluster object start) m.events
        → (Justified cluster object start)
            (conclude_removal cluster sort_slice object realm r m).1.events
    unfolding conclude_removal
    conclude_removal-Justified client realm (ok tt) deleting prepared removed m keeps h =
        let (events, m', answer, named) = prepared in
        let why : (IsRemoved cluster object start) =
          (events, client, realm, m', answer, named, removed) in
        grind (arith, more, same)
    conclude_removal-Justified client realm (err e) deleting prepared removed m keeps h =
        elim (Bool-cases (is_unauthorized_error cluster e)) [
          | inl expired ↦
              let again : Act Manager Api =
                wrap "handleDeletion failed to refreshToke auth flow: %w" []
                  (create_keycloak_client cluster) in
              rw (expired) (
                >>=-Extends (IsJustified cluster object start) start.events again
                  (λ client. handle_reconciliation cluster sort_slice object client realm) m
                  (more create_client tt h)
                  (λ client _.
                    handle_reconciliation-Justified client realm (again m).1 keeps
                      (more create_client tt h)))
          | inr failed ↦ rw (failed) h
        ]

    handle_deletion-Justified :
        (client : Api) (realm : String)
        → object.deleting ≡ true
        → (IsGiven cluster object start) client realm
        → (m : Manager) → (Untouched cluster object start) m
        → (Justified cluster object start) m.events
        → (Justified cluster object start)
            (handle_deletion cluster sort_slice object client realm m).1.events
    unfolding handle_deletion
    handle_deletion-Justified client realm deleting given m (same_finalizers, same_world) h =
        let present =
          contains finalizer_name m.finalizers || contains legacy_finalizer_name m.finalizers in
        let removal = Remove.serve client object.annotations realm object.spec in
        elim (Bool-cases present) [
          | inl here ↦ rw (here) (
              conclude_removal-Justified client realm (removal m.world).0 deleting given
                (ap (λ w. (removal w).0) (sym same_world))
                (record m { world = (removal m.world).1 })
                (λ f known. subst (λ fs. contains f fs ≡ true) (sym same_finalizers) known) h)
          | inr gone ↦ rw (gone) h
        ]

    proceed-Justified :
        (r : Result (Option (Api × String))) (m : Manager)
        → (Justified cluster object start) m.events
        → ((client : Api) (realm : String)
            → r ≡ ok (some (client, realm))
            → (Prepared cluster object start) client realm m)
        → (Justified cluster object start) (proceed cluster sort_slice object r m).1.events
    unfolding proceed
    proceed-Justified (err e) m h prepared = grind (arith, more, same)
    proceed-Justified (ok none) m h prepared = h
    proceed-Justified (ok (some (client, realm))) m h prepared =
        let ((same_finalizers, same_world), given) = prepared client realm refl in
        let keeps : (Keeps cluster object start) m.finalizers =
          λ f known. subst (λ fs. contains f fs ≡ true) (sym same_finalizers) known in
        if-Extends (IsJustified cluster object start) start.events object.deleting
          (handle_deletion cluster sort_slice object client realm)
          (handle_reconciliation cluster sort_slice object client realm) m
          (λ deleting.
            handle_deletion-Justified client realm deleting given m (same_finalizers, same_world) h)
          (λ living. handle_reconciliation-Justified client realm m keeps h)

    reconcile_object-IsJustified :
        Extends
          (IsJustified cluster object start)
          start.events
          (reconcile_object cluster sort_slice object start).1.events
    unfolding reconcile_object
    reconcile_object-IsJustified =
        proceed-Justified (initialize cluster object start).0 (initialize cluster object start).1
          (initialize-Justified cluster object start) (initialize-Prepared cluster object start)

-- Once the object is read, for every other answer of Kubernetes and of Keycloak, each update of the
-- object that one reconciliation sends keeps all the finalizers that it had, or the object is being
-- deleted and either the handler that removes the flow succeeds on a client and for a realm name
-- that the controller got, or a client could not be made because the realm was not found.
pub reconcile-IsJustified :
    (cluster : Cluster) (sort_slice : List AuthenticationExecution → List AuthenticationExecution)
    (calls : List Call) (events : List Event) {object : Object}
    → cluster.on_get_object events ≡ ok object
    → Extends
        (IsJustified cluster object (manage object calls events))
        events
        (reconcile cluster sort_slice calls events).1
unfolding reconcile
reconcile-IsJustified cluster sort_slice calls events {object} read =
    rw (read, reconcile)
      (Extends-after get_object tt
        (reconcile_object-IsJustified cluster object (manage object calls events) sort_slice))
