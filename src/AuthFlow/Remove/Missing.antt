-- ===== src/AuthFlow/Remove/Missing.antt =====
-- A deletion through the HTTP client: which status codes count as done.
use keycloak_config_sync_ope.Base.{
  ℕ, ◌≤◌, ◌<◌, ◌≡◌, refl, sym, subst, ◌↔◌, ◌⊎◌, inl, inr, some, List, ◌∷◌, arith, String, ok,
  Result-cases,
}
use keycloak_config_sync_ope.AuthFlow.{KeycloakAuthFlowSpec, Call, delete_auth_flow, Api, World}
use keycloak_config_sync_ope.Keycloakv2.{is_not_found}
use keycloak_config_sync_ope.Base.Dict.{Dict}
use keycloak_config_sync_ope.Keycloakv2.Responses.{Bodies, check_response_error}
use keycloak_config_sync_ope.AuthFlow.Client.{
  Reply, Transport, receive, client_delete_auth_flow, api_of,
}
use keycloak_config_sync_ope.AuthFlow.Remove.{skip_missing, delete_flow_of}

skip_missing-Accepts :
    (bodies : Bodies) (code : ℕ) (body message : String) (w : World)
    → ((skip_missing message (check_response_error bodies (some code) body) w).0 ≡ ok tt)
      ↔ (((200 ≤ code) × (code < 300)) ⊎ (code ≡ 404))
unfolding check_response_error is_not_found skip_missing
skip_missing-Accepts bodies code body message w = ground arith

-- The answer of the client is that of the check of the response.
client_delete_auth_flow-check :
    (bodies : Bodies) (transport : Transport) (h : List Call) (realm id : String)
    {reply : Reply (Unit {0})} {code : ℕ}
    → transport.on_delete h realm id ≡ ok (some reply)
    → reply.status ≡ some code
    → client_delete_auth_flow bodies transport h realm id
      ≡ check_response_error bodies (some code) reply.body
unfolding client_delete_auth_flow receive
client_delete_auth_flow-check bodies transport h realm id {reply} {code} answer status =
    elim (Result-cases (check_response_error bodies (some code) reply.body)) [
      | inl (a, e) ↦ rw (answer) (rw (status) (rw (e) refl))
      | inr (x, e) ↦ rw (answer) (rw (status) (rw (e) refl))
    ]

-- If the HTTP client gives a response with a status code to the deletion of a flow, the step
-- succeeds exactly if the code is from 200 to 299 or is 404.
pub delete_flow_of-Accepts :
    (bodies : Bodies) (transport : Transport) (rest : Api) (annotations : Dict String)
    (realm : String) (spec : KeycloakAuthFlowSpec) (id : String) (w : World)
    {reply : Reply (Unit {0})} {code : ℕ}
    → transport.on_delete w.calls realm id ≡ ok (some reply)
    → reply.status ≡ some code
    → ((delete_flow_of (api_of bodies transport rest) annotations realm spec id w).0 ≡ ok tt)
      ↔ (((200 ≤ code) × (code < 300)) ⊎ (code ≡ 404))
unfolding delete_flow_of api_of
delete_flow_of-Accepts bodies transport rest annotations realm spec id w {reply} {code} answer
      status =
    let w' : World = record w { calls = delete_auth_flow realm id ∷ w.calls } in
    let message : String = "failed to delete auth flow: %w" in
    let checked = client_delete_auth_flow-check bodies transport w.calls realm id answer status in
    subst
      (λ r.
        ((skip_missing message r w').0 ≡ ok tt) ↔ (((200 ≤ code) × (code < 300)) ⊎ (code ≡ 404)))
      (sym checked) (skip_missing-Accepts bodies code reply.body message w')
