-- ===== src/Base/Errors.antt =====
-- Go errors as values: how each was made, so that `errors.Is` and `errors.As` can look inside.
-- Formatted text stays a format with its arguments.
use Prim.Native.Nat.{ℕ}
use Prim.Native.String.{String}
use mathlib.Core.Bool.{Bool, true, false}
use mathlib.Core.List.{List}

-- The package-level error values of the source that `errors.Is` compares with.
pub data Sentinel : Type 0 where
  not_found : Sentinel
  keycloak_is_not_available : Sentinel
  keycloak_realm_not_found : Sentinel
  nil_response : Sentinel
  -- `errSecretKeyNotFound` of the user chain
  secret_key_not_found : Sentinel
  -- `TokenExpiredError` of the adapter package
  token_expired : Sentinel
  -- a panic: a nil pointer was followed
  nil_dereference : Sentinel

pub data Err : Type 0 where
  -- `errors.New`, and `fmt.Errorf` without `%w`
  errorf : String → List String → Err
  -- `fmt.Errorf` whose last argument is `%w`
  wrapf : String → List String → Err → Err
  sentinel : Sentinel → Err
  -- `*keycloakv2.ApiError`: status code and message
  api : ℕ → String → Err
  -- `*gocloak.APIError`: status code and message
  gocloak : ℕ → String → Err
  -- `NotFoundError` of the adapter package
  adapter_not_found : String → Err
  -- an error of the Kubernetes client: true if its reason is NotFound
  k8s : Bool → String → Err

pub data Result (A : Type 0) : Type 0 where
  ok : A → Result A
  err : Err → Result A

abbrev pub is_ok : {A : Type 0} → Result A → Bool
is_ok (ok a) = true
is_ok (err e) = false

-- `errors.Is(err, ErrNotFound)`, and likewise for the other values that are looked for
unfoldable pub errors_is : Sentinel → Err → Bool
errors_is not_found (sentinel not_found) = true
errors_is keycloak_is_not_available (sentinel keycloak_is_not_available) = true
errors_is keycloak_realm_not_found (sentinel keycloak_realm_not_found) = true
errors_is secret_key_not_found (sentinel secret_key_not_found) = true
errors_is token_expired (sentinel token_expired) = true
errors_is s (wrapf f args e) = errors_is s e
errors_is s _ = false

-- `apierrors.IsNotFound`
unfoldable pub k8s_is_not_found : Err → Bool
k8s_is_not_found (k8s b text) = b
k8s_is_not_found (wrapf f args e) = k8s_is_not_found e
k8s_is_not_found _ = false
