-- ===== src/Tokens.antt =====
-- internal/controller/helper/controller_helper_auth.go: how a client of Keycloak is made for a
-- reference to a configuration, and the tokens that are kept in secrets.
pub mod Logins
use keycloak_config_sync_ope.Base.{
  Bool, true, false, not, ◌||◌, Option, none, some, List, [], ◌∷◌, String, ◌<>◌, if◌then◌else◌, Err,
  errors_is, k8s_is_not_found, Result, ok, err, Act, pure, fail, ◌>>=◌, ◌>>◌, wrap, or_empty,
}
use keycloak_config_sync_ope.Base.{token_expired}
use keycloak_config_sync_ope.Base.Dict
use keycloak_config_sync_ope.Base.Dict.{Dict}
use keycloak_config_sync_ope.AuthFlow.{ConfigRef}

pub record KeycloakAuthData : Type 0 where
  pub url : String
  pub secret_name : String
  pub secret_namespace : String
  pub admin_type : String
  pub keycloak_cr_name : String
  pub ca_cert : String
  pub insecure_skip_verify : Bool

-- The requests: a secret is named by its namespace and its name.
pub data Event : Type 0 where
  get_secret : String → String → Event
  update_secret : String → String → Dict String → Event
  create_secret : String → String → Dict String → Event
  delete_secret : String → String → Event
  -- the adapter is made with a user name and a password, or from a token
  log_in : String → String → Event
  use_token : String → Event
  -- the client of version 2 is made
  new_client : String → String → Event

-- What is answered, from the events so far: `A` are the adapters, `C` the clients of version 2.
pub record Answers (A C : Type 0) : Type 0 where
  pub on_get : List Event → String → String → Result (Dict String)
  pub on_update : List Event → String → String → Dict String → Result (Unit {0})
  pub on_create : List Event → String → String → Dict String → Result (Unit {0})
  pub on_delete : List Event → String → String → Result (Unit {0})
  pub on_log_in : List Event → KeycloakAuthData → String → String → Result A
  pub on_use_token : List Event → KeycloakAuthData → String → Result A
  pub on_new_client : List Event → KeycloakAuthData → String → String → Result C
  pub export_token : A → Result String

-- `MakeKeycloakAuthDataFromKeycloakConfig`, which does not fail
unfoldable pub make_keycloak_auth_data : String → ConfigRef → KeycloakAuthData
make_keycloak_auth_data ns cfg = record {
  url = cfg.url;
  secret_name = cfg.secret;
  secret_namespace = ns;
  admin_type = "";
  keycloak_cr_name = "";
  ca_cert = "";
  insecure_skip_verify = false;
}

-- `tokenSecretName`
unfoldable pub token_secret_name : String → String
token_secret_name name = "kc-token-" <> name

-- `IsErrTokenExpired` of the adapter package
abbrev pub is_err_token_expired : Err → Bool
is_err_token_expired e = errors_is token_expired e

abbrev pub ask : {A : Type 0} → Event → (List Event → Result A) → Act (List Event) A
ask e answer events = (answer events, e ∷ events)

module _ {A C : Type 0} (answers : Answers A C) where
  abbrev pub read_secret : String → String → Act (List Event) (Dict String)
  read_secret ns name = ask (get_secret ns name) (λ h. answers.on_get h ns name)

  -- `getCredentialsFromSecret`: a key that is missing reads as empty.
  unfoldable pub get_credentials : KeycloakAuthData → Act (List Event) (String × String)
  get_credentials auth = do
    secret ← wrap "secret not found: %w" [] (read_secret auth.secret_namespace auth.secret_name)
    pure (or_empty (Dict.lookup "username" secret), or_empty (Dict.lookup "password" secret))

  -- What a read of the secret of the token is followed by.
  unfoldable pub save_found :
      String → String → String → Result (Dict String) → Act (List Event) (Unit {0})
  save_found ns name token (ok secret) = wrap "unable to update token secret: %w" [] (
      ask (update_secret ns name (("token", token) ∷ []))
        (λ h. answers.on_update h ns name (("token", token) ∷ [])))
  save_found ns name token (err e) =
      if k8s_is_not_found e
      then wrap "unable to create token secret: %w" [] (
          ask (create_secret ns name (("token", token) ∷ []))
            (λ h. answers.on_create h ns name (("token", token) ∷ [])))
      else wrap "error during token secret retrieval: %w" [] (fail e)

  -- `saveKeycloakClientTokenSecret`
  unfoldable pub save_token_secret : String → String → String → Act (List Event) (Unit {0})
  unfolding save_found
  save_token_secret name ns token s =
      let found = read_secret ns name s in save_found ns name token found.0 found.1

  -- `createKeycloakClientFromLoginPassword`, with `CreateKeycloakClient`
  unfoldable pub create_from_login_password : KeycloakAuthData → Act (List Event) A
  unfolding get_credentials save_token_secret token_secret_name
  create_from_login_password auth = do
    credentials ← wrap "unable to get credentials: %w" [] (get_credentials auth)
    adapter ← wrap "unable to init authData client adapter: %w" [] (
        wrap "unable to init kc client adapter: %w" [] (
          ask (log_in credentials.0 credentials.1)
            (λ h. answers.on_log_in h auth credentials.0 credentials.1)))
    token ←
        wrap "unable to export authData client token: %w" []
          (λ s. (answers.export_token adapter, s))
    wrap "unable to save authData token to secret: %w" []
        (save_token_secret (token_secret_name auth.secret_name) auth.secret_namespace token)
    pure adapter

  -- `createKeycloakClientFromTokenSecret`
  unfoldable pub create_from_token_secret : KeycloakAuthData → Act (List Event) A
  unfolding token_secret_name
  create_from_token_secret auth = do
    secret ←
        wrap "unable to get token secret: %w" []
          (read_secret auth.secret_namespace (token_secret_name auth.keycloak_cr_name))
    wrap "unable to make authData client from token: %w" [] (
        ask (use_token (or_empty (Dict.lookup "token" secret)))
          (λ h. answers.on_use_token h auth (or_empty (Dict.lookup "token" secret))))

  -- What follows the attempt with a token.
  unfoldable pub or_log_in : KeycloakAuthData → Result A → Act (List Event) A
  unfolding create_from_login_password errors_is k8s_is_not_found
  or_log_in auth (ok adapter) = pure adapter
  or_log_in auth (err e) =
      if not (k8s_is_not_found e || is_err_token_expired e)
      then wrap "unable to create kc client from token secret: %w" [] (fail e)
      else wrap "unable to create kc client from login password: %w" []
          (create_from_login_password auth)

  -- `CreateKeycloakClientFomAuthData`
  unfoldable pub create_keycloak_client_from_auth_data : KeycloakAuthData → Act (List Event) A
  unfolding create_from_token_secret or_log_in
  create_keycloak_client_from_auth_data auth s =
      let attempt = create_from_token_secret auth s in or_log_in auth attempt.0 attempt.1

  -- `CreateKeycloakClientFromConfigRef`, in the namespace that is watched
  unfoldable pub create_keycloak_client_from_config_ref : String → ConfigRef → Act (List Event) A
  unfolding create_keycloak_client_from_auth_data make_keycloak_auth_data
  create_keycloak_client_from_config_ref ns cfg =
      create_keycloak_client_from_auth_data (make_keycloak_auth_data ns cfg)

  -- `CreateKeycloakClientV2FromConfigRef`
  unfoldable pub create_keycloak_client_v2_from_config_ref : String → ConfigRef → Act (List Event) C
  unfolding get_credentials make_keycloak_auth_data
  create_keycloak_client_v2_from_config_ref ns cfg = do
    let auth = make_keycloak_auth_data ns cfg
    credentials ← wrap "unable to get credentials: %w" [] (get_credentials auth)
    wrap "unable to create keycloak v2 client: %w" [] (
        ask (new_client credentials.0 credentials.1)
          (λ h. answers.on_new_client h auth credentials.0 credentials.1))

  -- `InvalidateKeycloakClientTokenSecret`
  unfoldable pub invalidate_token_secret : String → String → Act (List Event) (Unit {0})
  unfolding token_secret_name
  invalidate_token_secret ns name = do
    secret ←
        wrap "unable to get client token secret: %w" [] (read_secret ns (token_secret_name name))
    wrap "unable to delete client token secret: %w" [] (
        ask (delete_secret ns (token_secret_name name))
          (λ h. answers.on_delete h ns (token_secret_name name)))
