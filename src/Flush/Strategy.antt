-- ===== src/Flush/Strategy.antt =====
-- When a flush runs at all: the reconciliation strategy of the realm and its annotations.
use keycloak_config_sync_ope.Base.{Bool, not, ◌&&◌, ◌||◌, String, ◌==◌}
use keycloak_config_sync_ope.Base.Dict.{Dict}
use keycloak_config_sync_ope.ObjectMeta.{preserve_resources_on_deletion}

-- The parts of a `KeycloakRealm` that a flush reads.
pub record RealmSpec : Type 0 where
  pub annotations : Dict String
  pub realm_name : String
  pub reconciliation_strategy : String

unfoldable pub has_reconciliation_strategy_full : RealmSpec → Bool
unfolding preserve_resources_on_deletion
has_reconciliation_strategy_full r =
    not (preserve_resources_on_deletion r.annotations)
    && (r.reconciliation_strategy == "full" || r.reconciliation_strategy == "")
