-- ===== src/AuthFlow/Cluster.antt =====
-- The Kubernetes side of a reconciliation: the object, the answers, and what
-- internal/controller/helper/controller_helper.go does with references and finalizers.
pub mod Realms
use keycloak_config_sync_ope.Base.{
  Bool, true, false, not, ◌||◌, List, [], ◌∷◌, String, nat_eq, if◌then◌else◌, ◌==◌, contains, Err,
  errorf, wrapf, Result, ok, Act, pure, fail, ◌>>=◌, ◌>>◌, wrap,
}
use keycloak_config_sync_ope.Base.{Option, none, some}
use keycloak_config_sync_ope.AuthFlow.{KeycloakAuthFlowSpec, KeycloakAuthFlowStatus, Api, World}
use keycloak_config_sync_ope.Base.Dict.{Dict}
use keycloak_config_sync_ope.Base.{gocloak}

-- `FinalizerName` of api/common
abbrev pub finalizer_name : String
finalizer_name = "config.idp.edenlab.io/finalizer"

abbrev pub legacy_finalizer_name : String
legacy_finalizer_name = "keycloak.authflow.operator.finalizer.name"

-- What the controller reads of the metadata of an object, with its spec.
pub record Object : Type 0 where
  pub name : String
  pub annotations : Dict String
  pub finalizers : List String
  pub deleting : Bool
  pub has_controller : Bool
  pub spec : KeycloakAuthFlowSpec
  pub status : KeycloakAuthFlowStatus

-- The requests to Kubernetes, and the making of a client of Keycloak. An update sends the
-- finalizers of the object in memory.
pub data Event : Type 0 where
  get_object : Event
  get_realm_object : String → Event
  set_controller_reference : Event
  update_object : List String → Event
  update_status : KeycloakAuthFlowStatus → Event
  create_client : Event

-- What Kubernetes answers, from the events so far; a realm object is its `spec.realmName`. The
-- client of Keycloak comes from `CreateKeycloakClientV2FromConfigRef`. `error_text` is `Error()`,
-- `to_lower` and `contains_text` are of the package strings.
pub record Cluster : Type 0 where
  pub enable_owner_ref : Bool
  pub on_get_object : List Event → Result Object
  pub on_get_realm_object : List Event → String → Result String
  pub on_set_controller_reference : List Event → Result (Unit {0})
  pub on_update : List Event → List String → Result (Unit {0})
  pub on_update_status : List Event → KeycloakAuthFlowStatus → Result (Unit {0})
  pub on_create_client : List Event → Result Api
  pub error_text : Err → String
  pub to_lower : String → String
  pub contains_text : String → String → Bool

-- The object in memory, what the handlers did, and the events so far, newest first.
pub record Manager : Type 0 where
  pub finalizers : List String
  pub world : World
  pub events : List Event

abbrev pub emit : {A : Type 0} → Event → (List Event → Result A) → Act Manager A
emit e answer m = (answer m.events, record m { events = e ∷ m.events })

-- A handler works on the status in memory.
abbrev pub run : {A : Type 0} → Act World A → Act Manager A
run h m = ((h m.world).0, record m { world = (h m.world).1 })

-- `controllerutil.RemoveFinalizer`, which takes every occurrence away
unfoldable pub without : String → List String → List String
without f [] = []
without f (x ∷ xs) = let rest = without f xs in if x == f then rest else x ∷ rest

abbrev pub remove_finalizer : String → Act Manager Bool
remove_finalizer f m =
    (ok (contains f m.finalizers), record m { finalizers = without f m.finalizers })

-- `errors.As(err, &apiErr)` for `*gocloak.APIError`, and its code is 401
abbrev pub has_gocloak_401 : Err → Bool
has_gocloak_401 (gocloak code text) = nat_eq code 401
has_gocloak_401 (wrapf f args e) = has_gocloak_401 e
has_gocloak_401 _ = false

module _ (cluster : Cluster) where
  unfoldable pub is_unauthorized_error : Err → Bool
  is_unauthorized_error e =
      let text = cluster.to_lower (cluster.error_text e) in
      has_gocloak_401 e
      || cluster.contains_text text "401"
      || cluster.contains_text text "unauthorized"
      || cluster.contains_text text "invalid_token"
      || cluster.contains_text text "token expired"

  -- `client.Update`: the object keeps the finalizers that were sent.
  abbrev pub update : Act Manager (Unit {0})
  update m = emit (update_object m.finalizers) (λ events. cluster.on_update events m.finalizers) m

  abbrev pub create_keycloak_client : Act Manager Api
  create_keycloak_client = emit create_client cluster.on_create_client

  module _ (object : Object) where
    -- `SetRealmOwnerRef`
    unfoldable pub set_realm_owner_ref : Act Manager (Unit {0})
    set_realm_owner_ref =
        if not cluster.enable_owner_ref || object.has_controller
        then pure tt
        else if object.spec.realm_ref.kind == "KeycloakRealm"
        then (wrap "failed to get KeycloakRealm: %w" [] (
              emit (get_realm_object object.spec.realm_ref.name)
                (λ events. cluster.on_get_realm_object events object.spec.realm_ref.name))
            >>= (λ realm_name.
                wrap "failed to set controller reference for %s: %w" (object.name ∷ [])
                  (emit set_controller_reference cluster.on_set_controller_reference)
                >> wrap "failed to update realm owner reference %s: %w"
                    (object.spec.realm_ref.name ∷ []) update))
        else fail (errorf "unknown realm kind: %s" (object.spec.realm_ref.kind ∷ []))

    -- `GetRealmNameFromRef`
    unfoldable pub get_realm_name_from_ref : Act Manager String
    get_realm_name_from_ref =
        if not cluster.enable_owner_ref
        then pure object.spec.realm_ref.name
        else if object.spec.realm_ref.kind == "KeycloakRealm"
        then wrap "failed to get KeycloakRealm: %w" [] (
            emit (get_realm_object object.spec.realm_ref.name)
              (λ events. cluster.on_get_realm_object events object.spec.realm_ref.name))
        else fail (errorf "unknown realm kind: %s" (object.spec.realm_ref.kind ∷ []))

-- `RemoveFinalizersOnRealmNotFound`, for the two finalizers of the controller
unfoldable pub remove_finalizers_on_realm_not_found : Cluster → Act Manager Bool
unfolding without
remove_finalizers_on_realm_not_found cluster = remove_finalizer finalizer_name >>= (λ removed.
    remove_finalizer legacy_finalizer_name >>= (λ also_removed.
      if also_removed || removed
      then wrap "failed to remove finalizers: %w" [] (update cluster) >> pure true
      else pure true))

module _ (cluster : Cluster) (object : Object) where
  -- `GetKeycloakRealmFromRef`, with Keycloak's answers to a read of a realm
  unfoldable pub get_keycloak_realm_from_ref : {R : Type 0} → (String → Result R) → Act Manager R
  get_keycloak_realm_from_ref get_realm =
      if not cluster.enable_owner_ref
      then wrap "failed to get realm: [%s] %w" (object.spec.realm_ref.name ∷ [])
          (λ m. (get_realm object.spec.realm_ref.name, m))
      else if object.spec.realm_ref.kind == "KeycloakRealm"
      then (wrap "failed to get KeycloakRealm: %w" [] (
            emit (get_realm_object object.spec.realm_ref.name)
              (λ events. cluster.on_get_realm_object events object.spec.realm_ref.name))
          >>= (λ name. wrap "failed to get realm: %w" [] (λ m. (get_realm name, m))))
      else fail (errorf "unknown realm kind: %s" (object.spec.realm_ref.kind ∷ []))

-- `SetError`, with the text of the error, or none for nil
unfoldable pub set_error : Option String → KeycloakAuthFlowStatus → KeycloakAuthFlowStatus
set_error none status = record status { error = "" }
set_error (some text) status =
    let first : KeycloakAuthFlowStatus = record status { error = text } in
    record first { error = "" }
