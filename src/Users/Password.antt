-- ===== src/Users/Password.antt =====
-- set_user_password.go of the chain of the users.
use keycloak_config_sync_ope.Base.{
  Bool, true, false, not, ◌||◌, Option, none, some, List, [], ◌∷◌, String, if◌then◌else◌, ◌==◌, Err,
  wrapf, sentinel, Result, ok, err, errors_is, k8s_is_not_found, Act, pure, ◌>>=◌, ◌>>◌, wrap,
}
use keycloak_config_sync_ope.Base.{secret_key_not_found}
use keycloak_config_sync_ope.Base.Int.{ℤ}
use keycloak_config_sync_ope.Base.Dict
use keycloak_config_sync_ope.Base.Dict.{Dict}
use keycloak_config_sync_ope.Directory.{Credential, set_password, Api, Session, ask}
use keycloak_config_sync_ope.Users.{PasswordSecret, KeycloakUserSpec}

pub record Secret : Type 0 where
  pub data_of : Dict String
  pub resource_version : String

-- A text of `fmt.Sprintf`: the format and its arguments.
pub record Message : Type 0 where
  pub format : String
  pub args : List String

-- The condition of type PasswordSynced.
pub record Condition : Type 0 where
  pub status : Bool
  pub reason : String
  pub message : Message
  pub observed_generation : ℤ

-- The parts of the status that are about the password.
pub record PasswordStatus : Type 0 where
  pub condition : Option Condition
  pub last_synced_password_secret_version : String

pub record KeycloakUser : Type 0 where
  pub namespace : String
  pub generation : ℤ
  pub spec : KeycloakUserSpec

-- The requests to Kubernetes, with what is answered to them.
pub data Event : Type 0 where
  get_secret : String → String → Event
  delete_object : Event

pub record Cluster : Type 0 where
  pub on_get_secret : List Event → String → String → Result Secret
  pub on_delete_object : List Event → Result (Unit {0})
  -- `Error()`
  pub error_text : Err → String

-- The session with Keycloak, the status of the object in memory and the requests to Kubernetes.
pub record UserState : Type 0 where
  pub session : Session
  pub status : PasswordStatus
  pub events : List Event

abbrev pub in_session : {A : Type 0} → Act Session A → Act UserState A
in_session m s = ((m s.session).0, record s { session = (m s.session).1 })

pub record PasswordResult : Type 0 where
  pub value : String
  pub temporary : Bool
  pub secret_version : String
  pub from_secret : Bool

unfoldable pub get_password_reason : PasswordResult → String
get_password_reason r =
    if not r.from_secret
    then "PasswordSetFromSpec"
    else if r.temporary
    then "TemporaryPasswordSet"
    else "PasswordSetFromSecret"

-- The name and the key of a secret that may be nil
abbrev pub secret_name : Option PasswordSecret → String
secret_name none = ""
secret_name (some secret) = secret.name

abbrev pub secret_key : Option PasswordSecret → String
secret_key none = ""
secret_key (some secret) = secret.key

unfoldable pub get_password_message : PasswordResult → Option PasswordSecret → Message
get_password_message r secret =
    if not r.from_secret
    then record { format = "Password set from spec.password field (deprecated)"; args = [] }
    else if r.temporary
    then record {
      format = "Temporary password set from secret %s (will not reset)";
      args = secret_name secret ∷ [];
    }
    else record { format = "Password synced from secret %s"; args = secret_name secret ∷ [] }

-- `meta.IsStatusConditionTrue`
abbrev pub is_synced : Option Condition → Bool
is_synced none = false
is_synced (some c) = c.status

unfoldable pub should_skip_password_sync : PasswordStatus → PasswordResult → Bool
should_skip_password_sync status r =
    if not r.from_secret
    then false
    else if r.temporary
    then is_synced status.condition
    else status.last_synced_password_secret_version == r.secret_version

-- `passwordSecret != nil && passwordSecret.Name != "" && passwordSecret.Key != ""`
abbrev pub usable_secret : Option PasswordSecret → Option PasswordSecret
usable_secret none = none
usable_secret (some secret) = if secret.name == "" || secret.key == "" then none else some secret

-- `PasswordSecret == nil && Password == ""`
abbrev pub has_no_password : KeycloakUserSpec → Bool
has_no_password spec = elim spec.password_secret [
  | none ↦ spec.password == ""
  | some secret ↦ false
]

-- The value of the key in a secret that was read.
abbrev pub read_value : PasswordSecret → Secret → Option String → Result PasswordResult
read_value wanted secret none = err (
    wrapf "key %s not found in secret %s: %w" (wanted.key ∷ wanted.name ∷ [])
      (sentinel secret_key_not_found))
read_value wanted secret (some value) = ok (record {
  value = value;
  temporary = wanted.temporary;
  secret_version = secret.resource_version;
  from_secret = true;
})

unfoldable pub read_password : PasswordSecret → Secret → Result PasswordResult
read_password wanted secret = read_value wanted secret (Dict.lookup wanted.key secret.data_of)

abbrev pub from_spec : KeycloakUserSpec → PasswordResult
from_spec spec = record {
  value = spec.password;
  temporary = false;
  secret_version = "";
  from_secret = false;
}

module _ (cluster : Cluster) (user : KeycloakUser) where
  unfoldable pub classify_password_error : Err → String × Message
  classify_password_error e =
      let secret = user.spec.password_secret in
      if k8s_is_not_found e
      then (
        "SecretNotFound",
        record {
          format = "Password secret %q not found in namespace %q";
          args = secret_name secret ∷ user.namespace ∷ [];
        },
      )
      else if errors_is secret_key_not_found e
      then (
        "SecretKeyMissing",
        record {
          format = "Key %q not found in secret %q";
          args = secret_key secret ∷ secret_name secret ∷ [];
        },
      )
      else (
        "KeycloakAPIError",
        record {
          format = "Failed to set password in Keycloak: %s";
          args = cluster.error_text e ∷ [];
        },
      )

  abbrev pub set_condition : Bool → String → Message → Act UserState (Unit {0})
  set_condition synced reason message s = (
    ok tt,
    record s {
      status = record (s.status) {
        condition = some (record {
          status = synced;
          reason = reason;
          message = message;
          observed_generation = user.generation;
        });
      };
    },
  )

  unfoldable pub set_password_error_condition : Err → Act UserState (Unit {0})
  unfolding classify_password_error
  set_password_error_condition e =
      set_condition false (classify_password_error e).0 (classify_password_error e).1

  -- The version that is recorded is empty for a password of the spec.
  abbrev pub set_version : PasswordResult → Act UserState (Unit {0})
  set_version r s = (
    ok tt,
    record s {
      status = record (s.status) {
        last_synced_password_secret_version = if r.from_secret then r.secret_version else "";
      };
    },
  )

  unfoldable pub update_password_condition : PasswordResult → Act UserState (Unit {0})
  unfolding get_password_reason get_password_message
  update_password_condition r =
      set_condition true (get_password_reason r) (get_password_message r user.spec.password_secret)
      >> set_version r

  abbrev pub read_secret : String → Act UserState Secret
  read_secret name s = (
    cluster.on_get_secret s.events user.namespace name,
    record s { events = get_secret user.namespace name ∷ s.events },
  )

  -- A read of the password of a secret that is named.
  unfoldable pub get_secret_password : PasswordSecret → Act UserState PasswordResult
  unfolding read_password
  get_secret_password wanted = do
    secret ←
        wrap "failed to get secret %s with user password: %w" (wanted.name ∷ [])
          (read_secret wanted.name)
    (λ s. (read_password wanted secret, s))

  unfoldable pub password_from : Option PasswordSecret → Act UserState PasswordResult
  unfolding get_secret_password
  password_from none = pure (from_spec user.spec)
  password_from (some wanted) = get_secret_password wanted

  unfoldable pub get_password : Act UserState PasswordResult
  unfolding password_from
  get_password = password_from (usable_secret user.spec.password_secret)

  unfoldable pub report : {A : Type 0} → Result A → Act UserState A
  unfolding set_password_error_condition
  report (ok a) s = (ok a, s)
  report (err e) s = (err e, (set_password_error_condition e s).1)

  -- A step whose error is recorded in the condition before it is returned.
  unfoldable pub or_report : {A : Type 0} → Act UserState A → Act UserState A
  unfolding report
  or_report m s = report (m s).0 (m s).1

  module _ (api : Api) (realm : String) where
    abbrev pub credential : PasswordResult → Credential
    credential r = record { value = r.value; temporary = r.temporary }

    unfoldable pub send_password : PasswordResult → Act UserState (Unit {0})
    send_password r s =
        wrap "unable to set user password: %w" []
          (in_session (
            ask (set_password realm s.session.id (credential r))
              (λ h. api.on_set_password h realm s.session.id (credential r))))
          s

    unfoldable pub sync_password : PasswordResult → Act UserState (Unit {0})
    unfolding should_skip_password_sync or_report send_password update_password_condition
    sync_password r s =
        (if should_skip_password_sync s.status r
            then pure tt
            else (or_report (send_password r) >> update_password_condition r))
          s

    -- `SetUserPassword`
    unfoldable pub set_user_password : Act UserState (Unit {0})
    unfolding or_report get_password sync_password
    set_user_password =
        if has_no_password user.spec then pure tt else (or_report get_password >>= sync_password)
