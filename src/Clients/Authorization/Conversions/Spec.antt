-- ===== src/Clients/Authorization/Conversions/Spec.antt =====
-- api/v1alpha1/client_authorization.go, as far as the handlers read it.
use keycloak_config_sync_ope.Base.{Bool, Option, List, String}
use keycloak_config_sync_ope.Base.Dict.{Dict}

pub record Resource : Type 0 where
  pub name : String
  pub display_name : String
  pub resource_type : String
  pub icon_uri : String
  pub owner_managed_access : Bool
  pub uris : List String
  pub attributes : Dict (List String)
  pub scopes : List String

-- The data of a policy are pointers; `time_policy` has the ten fields in the order of the source.
pub record Policy : Type 0 where
  pub policy_type : String
  pub name : String
  pub description : String
  pub decision_strategy : String
  pub logic : String
  pub aggregated_policy : Option (List String)
  pub client_policy : Option (List String)
  -- each name with `ExtendChildren`, and `GroupsClaim`
  pub group_policy : Option (List (String × Bool) × String)
  -- each name with `Required`
  pub role_policy : Option (List (String × Bool))
  pub time_policy : Option (List String)
  pub user_policy : Option (List String)

pub record Permission : Type 0 where
  pub name : String
  pub permission_type : String
  pub decision_strategy : String
  pub description : String
  pub logic : String
  pub policies : List String
  pub resources : List String
  pub scopes : List String

-- `Authorization` of keycloakclient_types.go
pub record Authorization : Type 0 where
  pub scopes : List String
  pub policies : List Policy
  pub permissions : List Permission
  pub resources : List Resource
