-- ===== src/Users.antt =====
-- api/v1alpha1/keycloakuser_types.go, and create_or_update_user.go and remove_user.go of
-- internal/controller/keycloakuser/chain.
pub mod Attributes
pub mod Roles
pub mod RoleRefinement
pub mod Memberships
pub mod MembershipRefinement
pub mod GroupsFound
pub mod Links
pub mod Password
pub mod PasswordRepeat
pub mod Chain
use keycloak_config_sync_ope.Base.{
  Bool, true, false, not, ◌&&◌, Option, none, some, List, [], ◌∷◌, ◌++◌, String, if◌then◌else◌,
  ◌==◌, contains, errorf, wrapf, Err, Result, ok, err, Act, pure, fail, ◌>>=◌, ◌>>◌, wrap,
}
use keycloak_config_sync_ope.Base.Dict
use keycloak_config_sync_ope.Base.Dict.{Dict}
use keycloak_config_sync_ope.Keycloakv2.{is_not_found, resource_id}
use keycloak_config_sync_ope.ObjectMeta.{preserve_resources_on_deletion}
use keycloak_config_sync_ope.Directory.{
  UserRep, Call, find_user, create_user, update_user, delete_user, Api, Session, ask, set_id,
  on_option, recover, deref,
}
use keycloak_config_sync_ope.Directory.Roles.{is_some}
use keycloak_config_sync_ope.Groups.{UserClientRole}

pub record PasswordSecret : Type 0 where
  pub name : String
  pub key : String
  pub temporary : Bool

-- The fields of `KeycloakUserSpec` that the chain reads.
pub record KeycloakUserSpec : Type 0 where
  pub username : String
  pub email : String
  pub first_name : String
  pub last_name : String
  pub enabled : Bool
  pub email_verified : Bool
  pub required_user_actions : List String
  pub roles : List String
  pub client_roles : List UserClientRole
  pub groups : List String
  pub attributes_v2 : Dict (List String)
  pub reconciliation_strategy : String
  pub password : String
  pub keep_resource : Bool
  pub password_secret : Option PasswordSecret
  pub identity_providers : Option (List String)

-- `GetReconciliationStrategy`
unfoldable pub get_reconciliation_strategy : KeycloakUserSpec → String
get_reconciliation_strategy spec =
    if spec.reconciliation_strategy == "" then "full" else spec.reconciliation_strategy

-- `IsReconciliationStrategyAddOnly`
unfoldable pub is_reconciliation_strategy_add_only : KeycloakUserSpec → Bool
unfolding get_reconciliation_strategy
is_reconciliation_strategy_add_only spec = get_reconciliation_strategy spec == "addOnly"

-- The loop that appends the values that are not there.
unfoldable pub append_new : List String → List String → List String
append_new current [] = current
append_new current (v ∷ vs) =
    if contains v current then append_new current vs else append_new (current ++ v ∷ []) vs

abbrev pub or_no_values : Option (List String) → List String
or_no_values none = []
or_no_values (some vs) = vs

-- The loop over the desired attributes.
unfoldable pub merge_attributes :
    Bool → Dict (List String) → Dict (List String) → Dict (List String)
unfolding append_new
merge_attributes add_only attrs [] = attrs
merge_attributes add_only attrs ((key, values) ∷ desired) =
    merge_attributes add_only
      (Dict.insert key
        (if add_only then append_new (or_no_values (Dict.lookup key attrs)) values else values)
        attrs)
      desired

-- The loop that deletes the attributes that are not desired.
unfoldable pub keep_desired : Dict (List String) → Dict (List String) → Dict (List String)
keep_desired desired [] = []
keep_desired desired ((key, values) ∷ attrs) =
    let rest = keep_desired desired attrs in
    if is_some (Dict.lookup key desired) then (key, values) ∷ rest else rest

abbrev pub or_empty_map : Option (Dict (List String)) → Dict (List String)
or_empty_map none = []
or_empty_map (some m) = m

unfoldable pub make_user_attributes :
    Option (Dict (List String)) → Dict (List String) → Bool → Dict (List String)
unfolding merge_attributes keep_desired
make_user_attributes existing desired add_only =
    let merged = merge_attributes add_only (or_empty_map existing) desired in
    if add_only then merged else keep_desired desired merged

abbrev pub update_password_action : String
update_password_action = "UPDATE_PASSWORD"

unfoldable pub preserve_update_password_action : Option (List String) → List String → List String
preserve_update_password_action none desired = desired
preserve_update_password_action (some current) desired =
    if contains update_password_action current && not (contains update_password_action desired)
    then desired ++ update_password_action ∷ []
    else desired

-- `if len(userSpec.AttributesV2) > 0 { ... }`
abbrev pub attributes_of :
    Option (Dict (List String)) → Dict (List String) → Bool → Option (Dict (List String))
attributes_of existing [] add_only = existing
attributes_of existing (entry ∷ desired) add_only =
    some (make_user_attributes existing (entry ∷ desired) add_only)

unfoldable pub new_user : KeycloakUserSpec → UserRep
unfolding make_user_attributes is_reconciliation_strategy_add_only
new_user spec = record {
  id = none;
  username = some spec.username;
  enabled = some spec.enabled;
  email_verified = some spec.email_verified;
  first_name = some spec.first_name;
  last_name = some spec.last_name;
  required_actions = some spec.required_user_actions;
  email = some spec.email;
  attributes = attributes_of none spec.attributes_v2 (is_reconciliation_strategy_add_only spec);
  rest = [];
}

-- The user of Keycloak with the fields of the spec.
unfoldable pub updated_user : KeycloakUserSpec → UserRep → UserRep
unfolding make_user_attributes is_reconciliation_strategy_add_only preserve_update_password_action
updated_user spec existing = record existing {
  username = some spec.username;
  enabled = some spec.enabled;
  email_verified = some spec.email_verified;
  first_name = some spec.first_name;
  last_name = some spec.last_name;
  required_actions =
      some (preserve_update_password_action existing.required_actions spec.required_user_actions);
  email = some spec.email;
  attributes =
      attributes_of existing.attributes spec.attributes_v2
        (is_reconciliation_strategy_add_only spec);
}

-- A search: none where Keycloak does not know the user.
abbrev pub found_user : Result (Option UserRep) → Result (Option (Option UserRep))
found_user (ok answer) = ok (some answer)
found_user (err e) = if is_not_found e then ok none else err e

-- A deletion of what Keycloak does not know is no error.
abbrev pub skip_unknown : Result (Unit {0}) → Result (Unit {0})
skip_unknown (ok a) = ok a
skip_unknown (err e) = if is_not_found e then ok tt else err e

module _ (api : Api) (realm : String) (spec : KeycloakUserSpec) where
  abbrev pub do_find_user : Act Session (Option UserRep)
  do_find_user = ask (find_user realm spec.username) (λ h. api.on_find_user h realm spec.username)

  unfoldable pub make_user : Act Session (Unit {0})
  unfolding new_user resource_id
  make_user = do
    location ←
        wrap "unable to create user: %w" [] (
          ask (create_user realm (new_user spec)) (λ h. api.on_create_user h realm (new_user spec)))
    if resource_id api.urls location == ""
        then fail (errorf "unable to get user ID from response" [])
        else set_id (resource_id api.urls location)

  unfoldable pub change_user : Option UserRep → Act Session (Unit {0})
  unfolding updated_user
  change_user answer = do
    existing ← deref answer
    id ← deref existing.id
    wrap "unable to update user: %w" [] (
        ask (update_user realm id (updated_user spec existing))
          (λ h. api.on_update_user h realm id (updated_user spec existing)))
    set_id id

  -- `CreateOrUpdateUser`
  unfoldable pub create_or_update_user : Act Session (Unit {0})
  unfolding make_user change_user
  create_or_update_user = do
    answer ← wrap "unable to find user by username: %w" [] (recover found_user do_find_user)
    on_option answer make_user change_user

  unfoldable pub delete_found : Option UserRep → Act Session (Unit {0})
  delete_found answer = do
    user ← deref answer
    id ← deref user.id
    wrap "failed to delete user %s: %w" (spec.username ∷ [])
        (recover skip_unknown (ask (delete_user realm id) (λ h. api.on_delete_user h realm id)))

  -- `ServeRequest` of `RemoveUser`, for a user with these annotations
  unfoldable pub remove_user : Dict String → Act Session (Unit {0})
  unfolding delete_found preserve_resources_on_deletion
  remove_user annotations = if preserve_resources_on_deletion annotations then pure tt else do
    answer ←
        wrap "failed to find user %s: %w" (spec.username ∷ []) (recover found_user do_find_user)
    on_option answer (pure tt) delete_found
