-- ===== src/Users/Links.antt =====
-- sync_user_identity_providers.go of the chain of the users.
use keycloak_config_sync_ope.Base.{
  not, none, some, List, [], ◌∷◌, String, if◌then◌else◌, contains, errorf, wrapf, Result, ok, err,
  Act, pure, ◌>>=◌, ◌>>◌, wrap,
}
use keycloak_config_sync_ope.Base.Dict
use keycloak_config_sync_ope.Base.Dict.{Dict}
use keycloak_config_sync_ope.Keycloakv2.{is_not_found}
use keycloak_config_sync_ope.Directory.{
  FederatedIdentity, get_identity_provider, federated_identities, link_identity, unlink_identity,
  Api, Session, ask, on_option, recover,
}
use keycloak_config_sync_ope.Directory.Roles.{is_some, keys}
use keycloak_config_sync_ope.Users.{KeycloakUserSpec}

-- The set of the aliases.
unfoldable pub by_alias : List FederatedIdentity → Dict (Unit {0}) → Dict (Unit {0})
by_alias [] m = m
by_alias (i ∷ is) m = elim i.identity_provider [
  | none ↦ by_alias is m
  | some alias ↦ by_alias is (Dict.insert alias tt m)
]

-- An identity provider that cannot be found.
unfoldable pub refuse_provider : String → Result (Unit {0}) → Result (Unit {0})
refuse_provider alias (ok a) = ok a
refuse_provider alias (err e) =
    if is_not_found e
    then err (errorf "identity provider %q does not exist" (alias ∷ []))
    else err (wrapf "unable to check if identity provider %q exists: %w" (alias ∷ []) e)

module _ (api : Api) (realm user_id : String) where
  unfoldable pub link_providers : String → Dict (Unit {0}) → List String → Act Session (Unit {0})
  unfolding refuse_provider
  link_providers username current [] = pure tt
  link_providers username current (alias ∷ aliases) =
      let rest = link_providers username current aliases in
      let identity : FederatedIdentity = record {
        identity_provider = some alias;
        user_id = some user_id;
        user_name = some username;
      } in
      if is_some (Dict.lookup alias current)
      then rest
      else recover (refuse_provider alias) (
          ask (get_identity_provider realm alias) (λ h. api.on_get_identity_provider h realm alias))
        >> wrap "unable to add user to identity provider %q: %w" (alias ∷ []) (
            ask (link_identity realm user_id alias identity)
              (λ h. api.on_link_identity h realm user_id alias identity))
        >> rest

  -- The loop over the keys of the set.
  unfoldable pub unlink_providers : List String → List String → Act Session (Unit {0})
  unlink_providers desired [] = pure tt
  unlink_providers desired (alias ∷ aliases) =
      let rest = unlink_providers desired aliases in
      if not (contains alias desired)
      then wrap "unable to remove user from identity provider %q: %w" (alias ∷ []) (
          ask (unlink_identity realm user_id alias)
            (λ h. api.on_unlink_identity h realm user_id alias))
        >> rest
      else rest

  unfoldable pub sync_providers : String → List String → Act Session (Unit {0})
  unfolding by_alias link_providers unlink_providers
  sync_providers username providers = do
    existing ← wrap "unable to get user federated identities: %w" [] (
        ask (federated_identities realm user_id) (λ h. api.on_federated_identities h realm user_id))
    link_providers username (by_alias existing []) providers
    unlink_providers providers (api.key_order (keys (by_alias existing [])))

-- `SyncUserIdentityProviders`
unfoldable pub sync_user_identity_providers :
    Api → String → KeycloakUserSpec → Act Session (Unit {0})
unfolding sync_providers
sync_user_identity_providers api realm spec s =
    on_option spec.identity_providers (pure tt) (sync_providers api realm s.id spec.username) s
