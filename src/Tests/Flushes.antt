-- ===== src/Tests/Flushes.antt =====
-- Flushes against a Keycloak that accepts every deletion, and against one that knows nothing.
use keycloak_config_sync_ope.Base.{◌≡◌, refl, true, String_discrete, [], ◌∷◌, String, ok, Extends}
use mathlib.Core.List.{foldl}
use keycloak_config_sync_ope.Base.Dict
use keycloak_config_sync_ope.Base.Dict.{Dict}
use keycloak_config_sync_ope.ObjectMeta.{preserve_resources_on_deletion}
use keycloak_config_sync_ope.Flush.{Api, State, scan_of, flush_groups, flush_identity_providers}
use keycloak_config_sync_ope.Flush.Strategy.{RealmSpec, has_reconciliation_strategy_full}
use keycloak_config_sync_ope.Flush.Safety.{
  IsAllowed, flush_groups-Extends, flush_identity_providers-Extends,
}
use keycloak_config_sync_ope.Flush.Skipping.{Missed, scan_of_neighbours}
use keycloak_config_sync_ope.Flush.Roles.{
  RoleApi, RoleState, delete_realm_role, update_role_status, flush_roles, lookup-flush_roles,
  calls-flush_roles, names_not_in,
}

abbrev lenient : Api
lenient = record { on_delete = λ calls realm id. ok tt; on_update = λ calls ids. ok tt }

abbrev realm : RealmSpec
realm = record { annotations = []; realm_name = "staff"; reconciliation_strategy = "full" }

abbrev on_record : State
on_record = record { ids = "a" ∷ "b" ∷ "c" ∷ []; calls = [] }

realm-full : has_reconciliation_strategy_full realm ≡ true
unfolding has_reconciliation_strategy_full String_discrete preserve_resources_on_deletion
    Dict.lookup
realm-full = refl

flush_groups-Extends_example :
    Extends
      (IsAllowed "staff" ("a" ∷ "b" ∷ "c" ∷ []) ("a" ∷ []))
      []
      (flush_groups lenient realm ("a" ∷ []) on_record).1.calls
flush_groups-Extends_example = flush_groups-Extends lenient realm ("a" ∷ []) on_record

flush_identity_providers-Extends_example :
    Extends
      (IsAllowed "staff" ("a" ∷ "b" ∷ "c" ∷ []) ("a" ∷ []))
      []
      (flush_identity_providers lenient realm ("a" ∷ []) on_record).1.calls
flush_identity_providers-Extends_example =
    flush_identity_providers-Extends lenient realm ("a" ∷ []) on_record

scan_of_neighbours_example : Missed "c" (scan_of ("a" ∷ []) ("a" ∷ "b" ∷ "c" ∷ "d" ∷ []))
unfolding String_discrete
scan_of_neighbours_example =
    scan_of_neighbours ("a" ∷ []) "b" "c" "d" [] refl refl ("a" ∷ []) (refl, tt) refl

abbrev role_api : RoleApi
role_api = record { on_delete = λ calls realm name. ok tt; on_update = λ calls ids. ok tt }

abbrev roles : RoleState
roles = record { role_ids = ("admin", "1") ∷ ("guest", "2") ∷ []; calls = [] }

abbrev current_roles : Dict String
current_roles = ("admin", "3") ∷ ("auditor", "4") ∷ []

lookup-flush_roles_example :
    Dict.lookup "guest" (flush_roles role_api realm current_roles roles).1.role_ids
    ≡ Dict.lookup "guest" current_roles
unfolding String_discrete Dict.lookup flush_roles
lookup-flush_roles_example =
    lookup-flush_roles role_api realm current_roles roles realm-full (refl, (refl, tt)) refl "guest"

calls-flush_roles_example :
    ((flush_roles role_api realm current_roles roles).0 ≡ ok tt)
    × ((flush_roles role_api realm current_roles roles).1.calls
        ≡ update_role_status (flush_roles role_api realm current_roles roles).1.role_ids
          ∷ foldl
              (λ calls name. delete_realm_role "staff" name ∷ calls)
              []
              (names_not_in ("admin" ∷ "auditor" ∷ []) ("admin" ∷ "guest" ∷ [])))
calls-flush_roles_example =
    calls-flush_roles role_api realm current_roles roles realm-full (λ calls name e h. cc)
      (λ calls ids. refl)
