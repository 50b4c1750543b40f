-- ===== src/Clients/RealmRoles.antt =====
-- put_realm_role.go: the realm roles that a client brings with it.
use keycloak_config_sync_ope.Base.{
  ◌≡◌, Bool, true, Option, List, [], ◌∷◌, ◌++◌, String, if◌then◌else◌, ok, Act, pure, ◌>>=◌, ◌>>◌,
  wrap,
}
use keycloak_config_sync_ope.Base.Dict
use keycloak_config_sync_ope.Directory.{annotate}
use keycloak_config_sync_ope.Clients.{
  Call, exist_realm_role, create_included_realm_role, Api, ClientState, ask, branch, Reporter,
  set_success, reported,
}

-- `RealmRole` of keycloakclient_types.go
pub record RealmRole : Type 0 where
  pub name : String
  pub composite : String

module _ (api : Api) (realm : String) where
  abbrev pub do_exist : RealmRole → Act ClientState Bool
  do_exist r =
      wrap "error during ExistRealmRole: %w" []
        (ask (exist_realm_role realm r.name) (λ h. api.on_exist_realm_role h realm r.name))

  abbrev pub do_create : RealmRole → Act ClientState (Unit {0})
  do_create r = wrap "error during CreateRealmRole: %w" [] (
      ask (create_included_realm_role realm r.name r.composite)
        (λ h. api.on_create_included_realm_role h realm r.name r.composite))

  -- The loop of `putRealmRoles`, which returns at the first role that exists.
  unfoldable pub put_realm_roles : List RealmRole → Act ClientState (Unit {0})
  put_realm_roles [] = pure tt
  put_realm_roles (r ∷ rs) =
      let rest = put_realm_roles rs in
      do_exist r >>= (λ exist. if exist then pure tt else (do_create r >> rest))

  -- `Serve` of `PutRealmRole`, with `putRealmRoles`
  unfoldable pub put_realm_role : Reporter → Option (List RealmRole) → Act ClientState (Unit {0})
  unfolding put_realm_roles
  put_realm_role reporter roles = do
    reported reporter "RealmRolesSynced" "Failed to sync realm roles: "
        (annotate "unable to put realm roles: %w" []) (branch roles (pure tt) put_realm_roles)
    set_success reporter "RealmRolesSynced" "RealmRolesSynced" "Realm roles synchronized"

  -- The requests for roles that are made, after these.
  abbrev pub requests : List RealmRole → List Call → List Call
  requests [] calls = calls
  requests (r ∷ rs) calls =
      requests rs (
        create_included_realm_role realm r.name r.composite ∷ exist_realm_role realm r.name ∷ calls)

  -- Where the loop stops: after all roles, or at one that Keycloak says it has.
  abbrev pub StopsAt : List RealmRole → List Call → List Call → Type 0
  StopsAt [] before after = after ≡ before
  StopsAt (r ∷ rs) before after =
      (after ≡ exist_realm_role realm r.name ∷ before)
      × (api.on_exist_realm_role before realm r.name ≡ ok true)

  abbrev pub IsPrefixMade : List RealmRole → List Call → List Call → Type 0
  IsPrefixMade roles before after =
      (made left : List RealmRole) × (roles ≡ made ++ left)
      × StopsAt left (requests made before) after
