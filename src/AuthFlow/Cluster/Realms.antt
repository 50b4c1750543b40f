-- ===== src/AuthFlow/Cluster/Realms.antt =====
-- The realm of an object: by name, and as Keycloak has it.
use keycloak_config_sync_ope.Base.{
  ◌≡◌, refl, inl, inr, Option, none, some, arith, String, Bool-cases, Result, ok, Result-cases,
}
use keycloak_config_sync_ope.AuthFlow.{KeycloakAuthFlowStatus}
use keycloak_config_sync_ope.AuthFlow.Cluster.{
  Object, Cluster, Manager, get_realm_name_from_ref, get_keycloak_realm_from_ref, set_error,
}

-- The realm that Keycloak gives for the reference of an object is the one of the name that the
-- reference resolves to, after the same requests to Kubernetes, whatever they answer.
pub get_keycloak_realm_from_ref-agrees :
    (cluster : Cluster) (object : Object) {R : Type 0} (get_realm : String → Result R) (m : Manager)
    {r : R}
    → (get_keycloak_realm_from_ref cluster object get_realm m).0 ≡ ok r
    → (name : String) × ((get_realm_name_from_ref cluster object m).0 ≡ ok name)
      × (get_realm name ≡ ok r)
      × ((get_keycloak_realm_from_ref cluster object get_realm m).1
          ≡ (get_realm_name_from_ref cluster object m).1)
unfolding get_keycloak_realm_from_ref get_realm_name_from_ref
get_keycloak_realm_from_ref-agrees cluster object get_realm m {r} h =
    let ref = object.spec.realm_ref in
    elim (Bool-cases cluster.enable_owner_ref) [
      | inr off ↦ (ref.name, ground arith, ground arith, ground arith)
      | inl on ↦ elim (Result-cases (cluster.on_get_realm_object m.events ref.name)) [
        | inl (name, e) ↦ (name, ground arith, ground arith, ground arith)
        | inr (x, e) ↦ ground arith
      ]
    ]

-- Setting an error leaves the status as setting none does: the error is not recorded.
pub set_error_forgets :
    (text : Option String) (status : KeycloakAuthFlowStatus)
    → set_error text status ≡ set_error none status
unfolding set_error
set_error_forgets none status = refl
set_error_forgets (some text) status = refl
