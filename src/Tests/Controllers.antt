-- ===== src/Tests/Controllers.antt =====
-- One reconciliation of a KeycloakAuthFlow that is being deleted, and one that is not.
use keycloak_config_sync_ope.Base.{refl, true, false, [], ◌∷◌, ok, Extends}
use keycloak_config_sync_ope.AuthFlow.Cluster.{Object, Cluster, Manager, finalizer_name}
use keycloak_config_sync_ope.AuthFlow.Controller.{
  serve_chain, chain, reconcile_chain, reconcile, manage,
}
use keycloak_config_sync_ope.AuthFlow.Controller.Updates.{IsJustified}
use keycloak_config_sync_ope.AuthFlow.Controller.Finalizers.{reconcile-IsJustified}
use keycloak_config_sync_ope.AuthFlow.Controller.Status.{IsReported, reconcile_chain-IsReported}
use keycloak_config_sync_ope.Tests.Data.{spec, keycloak, world, sort}
use keycloak_config_sync_ope.Base.{some, none, String_discrete}
use keycloak_config_sync_ope.Deletion.{Answers, Tracked, try_to_delete, drop_finalizer}
use keycloak_config_sync_ope.Deletion.Order.{IsSettled, try_to_delete-IsSettled}
use keycloak_config_sync_ope.Keycloakv2.Responses.{Bodies}

abbrev object : Object
object = record {
  name = "login";
  annotations = [];
  finalizers = finalizer_name ∷ [];
  deleting = true;
  has_controller = false;
  spec = spec;
  status = world.status;
}

abbrev cluster : Cluster
cluster = record {
  enable_owner_ref = false;
  on_get_object = λ events. ok object;
  on_get_realm_object = λ events name. ok "staff";
  on_set_controller_reference = λ events. ok tt;
  on_update = λ events finalizers. ok tt;
  on_update_status = λ events status. ok tt;
  on_create_client = λ events. ok keycloak;
  error_text = λ e. "";
  to_lower = λ s. s;
  contains_text = λ s t. false;
}

abbrev manager : Manager
manager = record { finalizers = finalizer_name ∷ []; world = world; events = [] }

reconcile-IsJustified_example :
    Extends (IsJustified cluster object (manage object [] [])) [] (reconcile cluster sort [] []).1
reconcile-IsJustified_example = reconcile-IsJustified cluster sort [] [] {object = object} refl

reconcile_chain-IsReported_example :
    IsReported cluster world.status
      (serve_chain cluster keycloak (chain cluster sort object "staff") manager).0
      (serve_chain cluster keycloak (chain cluster sort object "staff") manager).1
      (reconcile_chain cluster sort object keycloak "staff" manager).0
      (reconcile_chain cluster sort object keycloak "staff" manager).1
reconcile_chain-IsReported_example =
    reconcile_chain-IsReported cluster sort object keycloak "staff" manager

abbrev answers : Answers
answers = record { on_delete = λ steps. ok tt; on_save = λ steps finalizers. ok tt }

abbrev tracked : Tracked
tracked = record { finalizers = "keycloak" ∷ []; steps = [] }

try_to_delete-IsSettled_example :
    IsSettled answers true "keycloak" tracked true (try_to_delete answers true "keycloak" tracked).1
unfolding try_to_delete drop_finalizer String_discrete
try_to_delete-IsSettled_example =
    try_to_delete-IsSettled answers true "keycloak" tracked {b = true} refl

abbrev bodies : Bodies
bodies = record {
  error_message = λ body. none;
  simple_error = λ body. some "not found";
  size = λ body. 20;
  status_text = λ code. "Not Found";
}
