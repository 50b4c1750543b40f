-- ===== src/RealmRoles.antt =====
-- internal/controller/keycloakrealm/chain/role: the handlers that bring a role of a realm into
-- Keycloak, for the roles as `Role` of api/v1alpha1/keycloakrealm_types.go lists them.
pub mod Composites
pub mod Chain
use keycloak_config_sync_ope.Base.{
  Bool, true, false, ◌<>◌, Option, none, some, List, [], ◌∷◌, String, if◌then◌else◌, Err, Result,
  ok, err, Act, pure, ◌>>=◌, ◌>>◌, wrap,
}
use keycloak_config_sync_ope.Base.Dict.{Dict}
use keycloak_config_sync_ope.Keycloakv2.{is_not_found}
use keycloak_config_sync_ope.Directory.{
  RoleRep, role_composites, Source, in_realm, Call, create_role, update_role, delete_role, Api,
  Session, ask, set_id, on_option, recover, deref, do_get_role, do_add_roles,
}
use keycloak_config_sync_ope.Users.{skip_unknown}

-- `composites` and `composites_client_roles` hold the names of the composites.
pub record Role : Type 0 where
  pub name : String
  pub description : String
  pub attributes : Dict (List String)
  pub composite : Bool
  pub composites : List String
  pub composites_client_roles : Dict (List String)
  pub is_default : Bool

abbrev pub new_role : Role → RoleRep
new_role role = record {
  id = none;
  name = some role.name;
  description = some role.description;
  composite = some role.composite;
  attributes = some role.attributes;
  client_role = none;
  container_id = none;
  rest = [];
}

abbrev pub updated_role : Role → RoleRep → RoleRep
updated_role role existing = record existing {
  description = some role.description;
  composite = some role.composite;
  attributes = some role.attributes;
}

-- The role that is found: nil for an error that says that Keycloak does not know it.
abbrev pub nil_if_unknown : Result (Option RoleRep) → Result (Option RoleRep)
nil_if_unknown (ok answer) = ok answer
nil_if_unknown (err e) = if is_not_found e then ok none else err e

-- `if existingRole.Id != nil { roleCtx.RoleID = *existingRole.Id }`
abbrev pub record_role_id : RoleRep → Act Session (Unit {0})
record_role_id r = on_option r.id (pure tt) set_id

module _ (api : Api) (realm : String) (role : Role) where
  abbrev pub get_this_role : Act Session (Option RoleRep)
  get_this_role = do_get_role api (in_realm realm) role.name

  unfoldable pub make_role : Act Session RoleRep
  make_role = do
    wrap "failed to create realm role: %w" []
        (ask (create_role realm (new_role role)) (λ h. api.on_create_role h realm (new_role role)))
    answer ← wrap "failed to get created realm role: %w" [] get_this_role
    deref answer

  unfoldable pub change_role : RoleRep → Act Session RoleRep
  change_role existing = do
    wrap "failed to update realm role: %w" [] (
        ask (update_role realm role.name (updated_role role existing))
          (λ h. api.on_update_role h realm role.name (updated_role role existing)))
    pure (updated_role role existing)

  -- `CreateOrUpdateRole`
  unfoldable pub create_or_update_role : Act Session (Unit {0})
  unfolding make_role change_role
  create_or_update_role = do
    answer ← wrap "failed to get realm role: %w" [] (recover nil_if_unknown get_this_role)
    existing ← on_option answer make_role change_role
    record_role_id existing

  -- The role that is added to the default roles.
  abbrev pub named_role : String → RoleRep
  named_role id = record {
    id = some id;
    name = some role.name;
    description = none;
    composite = none;
    attributes = none;
    client_role = none;
    container_id = none;
    rest = [];
  }

  -- `MakeDefault`
  unfoldable pub make_default : Act Session (Unit {0})
  make_default s =
      (if role.is_default
          then wrap "failed to add role to default-roles: %w" [] (
              do_add_roles api (role_composites realm ("default-roles-" <> realm))
                (named_role s.id ∷ []))
          else pure tt)
        s

  -- `ServeRequest` of `RemoveRole`
  unfoldable pub remove_role : Act Session (Unit {0})
  remove_role = wrap "failed to delete realm role %s: %w" (role.name ∷ []) (
      recover skip_unknown
        (ask (delete_role realm role.name) (λ h. api.on_delete_role h realm role.name)))
