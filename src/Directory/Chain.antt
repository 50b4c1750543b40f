-- ===== src/Directory/Chain.antt =====
-- What the chains do with each of their handlers: a handler that Keycloak refuses as unauthorized
-- is served once more, with a new client.
use keycloak_config_sync_ope.Base.{
  Bool, true, false, List, [], ◌∷◌, if◌then◌else◌, Err, sentinel, Result, ok, err, Act, pure, fail,
  ◌>>=◌,
}
use keycloak_config_sync_ope.Base.{nil_dereference}
use keycloak_config_sync_ope.Directory.{Api, annotate, context}
use keycloak_config_sync_ope.AuthFlow.Cluster.{Cluster, is_unauthorized_error}

abbrev pub is_panic : Err → Bool
is_panic (sentinel nil_dereference) = true
is_panic _ = false

-- A handler on a state, with a client of Keycloak.
abbrev pub Handler : Type 0 → Type 0
Handler S = Api → Act S (Unit {0})

-- `renew` is `CreateKeycloakClientV2FromConfigRef` for the object of the chain.
module _ {S : Type 0} (cluster : Cluster) (renew : Act S Api) where
  -- The second attempt, and the client that the handler has from then on.
  unfoldable pub retry : Handler S → Act S Api
  retry handler = renew >>= (λ renewed.
      context "failed to serve handler: %w" [] (handler renewed) >>= (λ _. pure renewed))

  -- What follows the first attempt.
  unfoldable pub settle : Handler S → Api → Result (Unit {0}) → Act S Api
  unfolding retry is_unauthorized_error
  settle handler api (ok _) = pure api
  settle handler api (err e) =
      if is_panic e
      then fail e
      else if is_unauthorized_error cluster e
      then retry handler
      else fail (annotate "failed to serve handler: %w" [] e)

  unfoldable pub serve_one : Handler S → Api → Act S Api
  unfolding settle
  serve_one handler api s = settle handler api (handler api s).0 (handler api s).1

  -- The loop over the handlers, each of which starts with the client of the chain.
  unfoldable pub run_handlers : List (Handler S) → Handler S
  unfolding serve_one
  run_handlers [] api = pure tt
  run_handlers (handler ∷ handlers) api = serve_one handler api >>= (λ _. run_handlers handlers api)
