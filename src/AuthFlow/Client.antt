-- ===== src/AuthFlow/Client.antt =====
-- pkg/client/keycloakv2/auth_flows.go: the requests of the handlers as the client sends them, over
-- the generated HTTP client. What it makes is the part of the answers (Api) that is about flows.
pub mod Received
use keycloak_config_sync_ope.Base.{
  ℕ, ◌≤◌, ◌<◌, ◌≡◌, ◌⊎◌, Option, none, some, List, [], String, nat_eq, sentinel, Result, ok, err,
}
use keycloak_config_sync_ope.AuthFlow.{
  AuthenticatorConfig, ExecutionInfo, AuthFlowRepresentation, FlowInfo, ChildFlow, NewExecution,
  Call, Api,
}
use keycloak_config_sync_ope.Keycloakv2.{is_not_found}
use keycloak_config_sync_ope.Base.{nil_response}
use keycloak_config_sync_ope.Keycloakv2.Responses.{Bodies, check_response_error}

-- A response of the generated client: the status code, or none for a nil HTTP response, the body, the
-- Location header, and the value that was read from the body.
pub record Reply (J : Type 0) : Type 0 where
  pub status : Option ℕ
  pub body : String
  pub location : Option String
  pub json : Option J

-- An answer of the generated client: an error of the transport, nil, or a response.
abbrev pub Answer : Type 0 → Type 0
Answer J = Result (Option (Reply J))

-- The generated client, from the calls so far.
pub record Transport : Type 0 where
  pub on_flows : List Call → String → Answer (List FlowInfo)
  pub on_create : List Call → String → AuthFlowRepresentation → Answer (Unit {0})
  pub on_update : List Call → String → String → AuthFlowRepresentation → Answer (Unit {0})
  pub on_delete : List Call → String → String → Answer (Unit {0})
  pub on_executions : List Call → String → String → Answer (List ExecutionInfo)
  pub on_update_execution : List Call → String → String → ExecutionInfo → Answer (Unit {0})
  pub on_add_execution : List Call → String → NewExecution → Answer (Unit {0})
  pub on_add_child : List Call → String → String → ChildFlow → Answer (Unit {0})
  pub on_delete_execution : List Call → String → String → Answer (Unit {0})
  pub on_create_config : List Call → String → String → AuthenticatorConfig → Answer (Unit {0})

abbrev checked : {J : Type 0} → Reply J → Result (Unit {0}) → Result (Reply J)
checked reply (ok _) = ok reply
checked reply (err e) = err e

-- What every request does with its answer.
unfoldable pub receive : {J : Type 0} → Bodies → Answer J → Result (Reply J)
unfolding check_response_error
receive bodies (err e) = err e
receive bodies (ok none) = err (sentinel nil_response)
receive bodies (ok (some reply)) =
    checked reply (check_response_error bodies reply.status reply.body)

abbrev pub map_ok : {A B : Type 0} → (A → B) → Result A → Result B
map_ok f (ok a) = ok (f a)
map_ok f (err e) = err e

-- `*res.JSON200`, nil if there is none
abbrev pub listed : {A : Type 0} → Option (List A) → List A
listed none = []
listed (some xs) = xs

abbrev pub done : Reply (Unit {0}) → Unit {0}
done reply = tt

module _ (bodies : Bodies) (transport : Transport) where
  unfoldable pub client_get_auth_flows : List Call → String → Result (List FlowInfo)
  unfolding receive
  client_get_auth_flows h realm =
      map_ok (λ reply. listed reply.json) (receive bodies (transport.on_flows h realm))

  unfoldable pub client_create_auth_flow :
      List Call → String → AuthFlowRepresentation → Result (Option String)
  unfolding receive
  client_create_auth_flow h realm rep =
      map_ok (λ reply. reply.location) (receive bodies (transport.on_create h realm rep))

  unfoldable pub client_update_auth_flow :
      List Call → String → String → AuthFlowRepresentation → Result (Unit {0})
  unfolding receive
  client_update_auth_flow h realm id rep =
      map_ok done (receive bodies (transport.on_update h realm id rep))

  unfoldable pub client_delete_auth_flow : List Call → String → String → Result (Unit {0})
  unfolding receive
  client_delete_auth_flow h realm id = map_ok done (receive bodies (transport.on_delete h realm id))

  unfoldable pub client_get_flow_executions :
      List Call → String → String → Result (List ExecutionInfo)
  unfolding receive
  client_get_flow_executions h realm alias =
      map_ok (λ reply. listed reply.json) (receive bodies (transport.on_executions h realm alias))

  unfoldable pub client_update_flow_execution :
      List Call → String → String → ExecutionInfo → Result (Unit {0})
  unfolding receive
  client_update_flow_execution h realm alias e =
      map_ok done (receive bodies (transport.on_update_execution h realm alias e))

  unfoldable pub client_add_execution_to_flow :
      List Call → String → NewExecution → Result (Option String)
  unfolding receive
  client_add_execution_to_flow h realm e =
      map_ok (λ reply. reply.location) (receive bodies (transport.on_add_execution h realm e))

  unfoldable pub client_add_child_flow_to_flow :
      List Call → String → String → ChildFlow → Result (Unit {0})
  unfolding receive
  client_add_child_flow_to_flow h realm alias child =
      map_ok done (receive bodies (transport.on_add_child h realm alias child))

  unfoldable pub client_delete_execution : List Call → String → String → Result (Unit {0})
  unfolding receive
  client_delete_execution h realm id =
      map_ok done (receive bodies (transport.on_delete_execution h realm id))

  unfoldable pub client_create_execution_config :
      List Call → String → String → AuthenticatorConfig → Result (Unit {0})
  unfolding receive
  client_create_execution_config h realm id config =
      map_ok done (receive bodies (transport.on_create_config h realm id config))

  -- The answers of Keycloak through this client; those about realms and objects are as in `rest`.
  unfoldable pub api_of : Api → Api
  unfolding client_get_auth_flows client_create_auth_flow client_update_auth_flow
      client_delete_auth_flow client_get_flow_executions client_update_flow_execution
      client_add_execution_to_flow client_add_child_flow_to_flow client_delete_execution
      client_create_execution_config
  api_of rest = record {
    on_get_auth_flows = client_get_auth_flows;
    on_create_auth_flow = client_create_auth_flow;
    on_update_auth_flow = client_update_auth_flow;
    on_delete_auth_flow = client_delete_auth_flow;
    on_get_flow_executions = client_get_flow_executions;
    on_add_child_flow = client_add_child_flow_to_flow;
    on_add_execution = client_add_execution_to_flow;
    on_update_execution = client_update_flow_execution;
    on_delete_execution = client_delete_execution;
    on_create_execution_config = client_create_execution_config;
    on_get_realm = rest.on_get_realm;
    on_update_realm = rest.on_update_realm;
    on_list_auth_flows = rest.on_list_auth_flows;
    urls = rest.urls;
  }
