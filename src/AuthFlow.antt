-- ===== src/AuthFlow.antt =====
-- api/v1alpha1/keycloakauthflow_types.go, and the calls by which the handlers of a
-- KeycloakAuthFlow act on Keycloak and on Kubernetes.
pub mod CreateOrUpdate
pub mod Traces
pub mod Sync
pub mod Remove
pub mod Client
pub mod Cluster
pub mod Controller
use keycloak_config_sync_ope.Base.Int.{ℤ}
use keycloak_config_sync_ope.Base.{
  ℕ, zero, suc, ◌+◌, ◌-◌, ◌≤◌, ◌<◌, ◌<>◌, ◌≡◌, refl, sym, ap, ◌∙◌, subst, ◌≢◌, ◌↔◌, ◌⊎◌, inl, inr,
  Bool, true, false, not, ◌&&◌, ◌||◌, Option, none, some, List, [], ◌∷◌, ◌++◌, map, arith, String,
  ltb, leb, nat_eq, if◌then◌else◌, Bool-cases, Option-cases, ◌==◌, String_discrete, ==_refl,
  eq_of_==, contains, or_empty, length, get_elem?, select, All, All-append, All-get_elem?, All-map,
  Err, errorf, wrapf, sentinel, Result, ok, err, is_ok, Extends, same, more, Extends-trans,
  Extends-after, Result-cases, Act, pure, fail, ◌>>=◌, ◌>>◌, wrap,
}
use keycloak_config_sync_ope.Base.Dict.{Dict}
use keycloak_config_sync_ope.Keycloakv2.{Urls}

pub record RealmRef : Type 0 where
  pub kind : String
  pub name : String

pub record ConfigRef : Type 0 where
  pub url : String
  pub secret : String

pub record AuthenticatorConfig : Type 0 where
  pub alias : String
  pub config : Dict String

pub record AuthenticationExecution : Type 0 where
  pub authenticator : String
  pub authenticator_config : Option AuthenticatorConfig
  pub authenticator_flow : Bool
  pub priority : ℤ
  pub requirement : String
  pub alias : String
  pub flow_v1 : Bool

pub record KeycloakAuthFlowSpec : Type 0 where
  pub realm_ref : RealmRef
  pub config_ref : ConfigRef
  pub alias : String
  pub description : String
  pub provider_id : String
  pub top_level : Bool
  pub built_in : Bool
  pub authentication_executions : List AuthenticationExecution
  pub parent_name : String
  pub child_type : String
  pub child_requirement : String
  pub reconciliation_strategy : String

pub record KeycloakAuthFlowStatus : Type 0 where
  pub error : String
  pub phase : String
  pub failure_count : ℤ
  pub id : String

-- The fields of `AuthenticationExecutionInfoRepresentation` that the handlers read or write; the
-- others are handed back as they came, in `rest`.
pub record ExecutionInfo : Type 0 where
  pub authentication_flow : Option Bool
  pub display_name : Option String
  pub flow_id : Option String
  pub id : Option String
  pub level : Option ℤ
  pub priority : Option ℤ
  pub requirement : Option String
  pub rest : List String

-- `AuthFlowRepresentation` as the handlers fill it.
pub record AuthFlowRepresentation : Type 0 where
  pub alias : String
  pub description : String
  pub provider_id : String
  pub built_in : Bool
  pub top_level : Bool

-- A flow as Keycloak lists it.
pub record FlowInfo : Type 0 where
  pub alias : Option String
  pub id : Option String

-- The body of the request for a child flow.
pub record ChildFlow : Type 0 where
  pub alias : String
  pub description : String
  pub provider : String
  pub type_name : String

-- `AuthenticationExecutionRepresentation` as the handlers fill it.
pub record NewExecution : Type 0 where
  pub authenticator : String
  pub parent_flow : String
  pub requirement : String

-- The requests of the handlers, the realm first.
pub data Call : Type 0 where
  get_auth_flows : String → Call
  create_auth_flow : String → AuthFlowRepresentation → Call
  update_auth_flow : String → String → AuthFlowRepresentation → Call
  delete_auth_flow : String → String → Call
  get_flow_executions : String → String → Call
  add_child_flow : String → String → ChildFlow → Call
  add_execution : String → NewExecution → Call
  update_execution : String → String → ExecutionInfo → Call
  delete_execution : String → String → Call
  create_execution_config : String → String → AuthenticatorConfig → Call
  get_realm : String → Call
  update_realm_browser_flow : String → String → Call
  list_auth_flows : Call

-- What Keycloak and Kubernetes answer, from the calls so far. A response to a creation is its
-- Location header. Of a realm the handlers use the browser flow, and of the listed
-- KeycloakAuthFlow objects the spec.
pub record Api : Type 0 where
  pub on_get_auth_flows : List Call → String → Result (List FlowInfo)
  pub on_create_auth_flow : List Call → String → AuthFlowRepresentation → Result (Option String)
  pub on_update_auth_flow : List Call → String → String → AuthFlowRepresentation → Result (Unit {0})
  pub on_delete_auth_flow : List Call → String → String → Result (Unit {0})
  pub on_get_flow_executions : List Call → String → String → Result (List ExecutionInfo)
  pub on_add_child_flow : List Call → String → String → ChildFlow → Result (Unit {0})
  pub on_add_execution : List Call → String → NewExecution → Result (Option String)
  pub on_update_execution : List Call → String → String → ExecutionInfo → Result (Unit {0})
  pub on_delete_execution : List Call → String → String → Result (Unit {0})
  pub on_create_execution_config :
      List Call → String → String → AuthenticatorConfig → Result (Unit {0})
  -- the browser flow of the realm; that the client hands back a nil realm without an error, which the
  -- code would panic on, is left out
  pub on_get_realm : List Call → String → Result (Option String)
  pub on_update_realm : List Call → String → String → Result (Unit {0})
  pub on_list_auth_flows : List Call → Result (List KeycloakAuthFlowSpec)
  pub urls : Urls

-- The status of the object in memory, and the calls so far, newest first.
pub record World : Type 0 where
  pub status : KeycloakAuthFlowStatus
  pub calls : List Call

-- A request, with its answer.
abbrev pub request : {A : Type 0} → Call → (List Call → Result A) → Act World A
request c answer w = (answer w.calls, record w { calls = c ∷ w.calls })

-- `flow.Status.ID = id`
abbrev pub set_id : String → Act World (Unit {0})
set_id id w = (ok tt, record w { status = record (w.status) { id = id } })

abbrev pub get_id : Act World String
get_id w = (ok w.status.id, w)

module _ (api : Api) where
  abbrev pub do_get_auth_flows : String → Act World (List FlowInfo)
  do_get_auth_flows realm = request (get_auth_flows realm) (λ h. api.on_get_auth_flows h realm)

  abbrev pub do_get_flow_executions : String → String → Act World (List ExecutionInfo)
  do_get_flow_executions realm alias =
      request (get_flow_executions realm alias) (λ h. api.on_get_flow_executions h realm alias)

  abbrev pub do_update_execution : String → String → ExecutionInfo → Act World (Unit {0})
  do_update_execution realm alias e =
      request (update_execution realm alias e) (λ h. api.on_update_execution h realm alias e)

  abbrev pub do_delete_execution : String → String → Act World (Unit {0})
  do_delete_execution realm id =
      request (delete_execution realm id) (λ h. api.on_delete_execution h realm id)
