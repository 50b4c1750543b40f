-- ===== src/Terminator.antt =====
-- internal/controller/keycloakrealm/terminator.go: what is deleted from Keycloak when a realm object
-- is deleted. A step that is refused as unauthorized makes a new client and starts again from its
-- first item, as often as it is refused, so it has fuel.
pub mod Stuck
use keycloak_config_sync_ope.Base.{
  ℕ, zero, suc, Bool, true, false, ◌&&◌, Option, none, some, List, [], ◌∷◌, String, if◌then◌else◌,
  ◌==◌, Err, wrapf, Result, ok, err, Act, pure, fail, ◌>>=◌, ◌>>◌, wrap,
}
use keycloak_config_sync_ope.Keycloakv2.{is_not_found}
use keycloak_config_sync_ope.Flush.{is_err_not_found}
use keycloak_config_sync_ope.AuthFlow.Cluster.{Cluster, is_unauthorized_error}
use keycloak_config_sync_ope.Directory.{
  GroupRep, Call, new_client, find_group, delete_group, delete_identity_provider, delete_realm, Api,
  Session, ask, on_option, recover, deref, context, do_find_group,
}
use keycloak_config_sync_ope.Directory.Chain.{is_panic}
use keycloak_config_sync_ope.Groups.{Group, found}
use keycloak_config_sync_ope.Groups.Sorting.{sort_realm_group_by_parent_first_child}
use keycloak_config_sync_ope.Users.{skip_unknown}
use keycloak_config_sync_ope.RealmRoles.{Role, remove_role}

-- The parts of `KeycloakRealmSpec` that are read; `default_role` is the name of the default role.
pub record RealmSpec : Type 0 where
  pub realm_name : String
  pub identity_providers : List String
  pub roles : List Role
  pub groups : List Group
  pub default_role : Option String

-- The client in use, and the session.
pub record State : Type 0 where
  pub client : Api
  pub session : Session

-- A request with the client in use.
abbrev pub with_client : {A : Type 0} → (Api → Act Session A) → Act State A
with_client m s = ((m s.client s.session).0, record s { session = (m s.client s.session).1 })

-- A deletion of a realm that Keycloak does not know is no error.
abbrev pub recover_state : Act State (Unit {0}) → Act State (Unit {0})
recover_state m s = (skip_unknown (m s).0, (m s).1)

abbrev pub set_client : Api → Act State (Unit {0})
set_client api s = (ok tt, record s { client = api })

-- Whether a loop over the items ends, or the step is to start again.
abbrev pub Outcome : Type 0
Outcome = Bool

-- A step that starts again as long as it is told to; none if the fuel runs out.
unfoldable pub repeat : ℕ → Act State Outcome → State → Option (Result (Unit {0}) × State)
repeat zero step s = none
repeat (suc fuel) step s = elim (step s).0 [
  | ok true ↦ repeat fuel step (step s).1
  | ok false ↦ some (ok tt, (step s).1)
  | err e ↦ some (err e, (step s).1)
]

-- What follows a step that may run out of fuel, where it succeeds.
unfoldable pub next :
    Option (Result (Unit {0}) × State)
    → (State → Option (Result (Unit {0}) × State))
    → Option (Result (Unit {0}) × State)
next none k = none
next (some (ok _, s)) k = k s
next (some (err e, s)) k = some (err e, s)

module _ (cluster : Cluster) (refresh : List Call → Result Api) (spec : RealmSpec) where
  -- `refreshToken`, and the client that is used from then on
  unfoldable pub refresh_token : Act State (Unit {0})
  refresh_token = with_client (λ _. ask new_client refresh) >>= set_client

  -- What a deletion of an identity provider is followed by.
  unfoldable pub settle_provider :
      String → Act State Outcome → Result (Unit {0}) → Act State Outcome
  unfolding refresh_token is_err_not_found is_unauthorized_error
  settle_provider alias rest (ok _) = rest
  settle_provider alias rest (err e) =
      if is_unauthorized_error cluster e
      then refresh_token >> pure true
      else if is_err_not_found e
      then pure false
      else fail (wrapf "unable to delete realm idp %q: %w" (alias ∷ []) e)

  -- The loop of `DeleteIdentityProvider`.
  unfoldable pub delete_providers : List String → Act State Outcome
  unfolding settle_provider
  delete_providers [] s = pure false s
  delete_providers (alias ∷ aliases) s =
      let asked =
        with_client
          (λ api.
            ask (delete_identity_provider spec.realm_name alias)
              (λ h. api.on_delete_identity_provider h spec.realm_name alias))
          s in
      settle_provider alias (delete_providers aliases) asked.0 asked.1

  -- `t.realmSpec.DefaultRole != nil && t.realmSpec.DefaultRole.Name == role.Name`
  abbrev pub is_default_role : Role → Bool
  is_default_role role = elim spec.default_role [ none ↦ false | some name ↦ name == role.name ]

  -- An error of the removal of a role: true if the step ends.
  unfoldable pub settle_removal : String → Result (Unit {0}) → Act Session Bool
  settle_removal name (ok _) = pure false
  settle_removal name (err e) =
      if is_not_found e
      then pure true
      else fail (wrapf "[%s] failed to delete keycloak realm role: %w" (name ∷ []) e)

  -- The removal of a role with a client, once more with a new one if it is refused; the client that
  -- the removals of the other roles use, and whether the step ends.
  unfoldable pub remove_one : Role → Api → Result (Unit {0}) → Act Session (Api × Bool)
  unfolding settle_removal remove_role is_unauthorized_error
  remove_one role api (ok _) = pure (api, false)
  remove_one role api (err e) =
      if is_unauthorized_error cluster e
      then ask new_client refresh >>= (λ renewed s.
        let removed = remove_role renewed spec.realm_name role s in
        (settle_removal role.name removed.0 >>= (λ ended. pure (renewed, ended))) removed.1)
      else settle_removal role.name (err e) >>= (λ ended. pure (api, ended))

  -- `DeleteRole`, with the client of `NewRemoveRole`
  unfoldable pub delete_roles : List Role → Api → Act Session (Unit {0})
  unfolding remove_one remove_role
  delete_roles [] api s = pure tt s
  delete_roles (role ∷ roles) api s =
      let rest = delete_roles roles in
      let removed = remove_role api spec.realm_name role s in
      if is_default_role role
      then rest api s
      else (remove_one role api removed.0 >>= (λ done. if done.1 then pure tt else rest done.0))
          removed.1

  -- `deleteGroupItem`
  unfoldable pub delete_group_item : String → Api → Act Session (Unit {0})
  delete_group_item name api = do
    answer ←
        wrap "unable to search for group %q: %w" (name ∷ [])
          (recover found (do_find_group api spec.realm_name name))
    on_option answer (pure tt) (λ group. deref group >>= (λ existing. deref existing.id >>= (λ id.
        wrap "unable to delete group: %q: %w" (name ∷ []) (
          recover skip_unknown (
            ask (delete_group spec.realm_name id)
              (λ h. api.on_delete_group h spec.realm_name id))))))

  unfoldable pub settle_group : Act State Outcome → Result (Unit {0}) → Act State Outcome
  unfolding refresh_token is_unauthorized_error
  settle_group rest (ok _) = rest
  settle_group rest (err e) =
      if is_panic e
      then fail e
      else if is_unauthorized_error cluster e
      then refresh_token >> pure true
      else fail e

  -- The loop of `DeleteGroup`.
  unfoldable pub delete_groups : List Group → Act State Outcome
  unfolding settle_group delete_group_item
  delete_groups [] s = pure false s
  delete_groups (group ∷ groups) s =
      let asked = with_client (delete_group_item group.name) s in
      settle_group (delete_groups groups) asked.0 asked.1

  unfoldable pub delete_keycloak_realm : Act State (Unit {0})
  delete_keycloak_realm = wrap "failed to delete keycloak realm: %w" [] (
      recover_state (
        with_client
          (λ api. ask (delete_realm spec.realm_name) (λ h. api.on_delete_realm h spec.realm_name))))

  -- `DeleteResource`, with fuel for the sort and for each step that may start again
  unfoldable pub delete_resource : ℕ → Bool → State → Option (Result (Unit {0}) × State)
  unfolding next repeat delete_providers delete_roles delete_groups delete_keycloak_realm
      sort_realm_group_by_parent_first_child
  delete_resource fuel preserve s =
      if preserve
      then some (ok tt, s)
      else next (repeat fuel (delete_providers spec.identity_providers) s) (λ s1.
        next (some (with_client (delete_roles spec.roles) s1)) (λ s2.
          elim (sort_realm_group_by_parent_first_child fuel spec.groups) [
            | none ↦ none
            | some groups ↦
                next (repeat fuel (delete_groups groups) s2) (λ s3. some (delete_keycloak_realm s3))
          ]))
