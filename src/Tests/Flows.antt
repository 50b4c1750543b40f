-- ===== src/Tests/Flows.antt =====
-- The handlers of a KeycloakAuthFlow, against a Keycloak that accepts everything.
use keycloak_config_sync_ope.Base.{
  ok, arith, ◌≡◌, refl, ◌≢◌, String_discrete, List, [], ◌∷◌, ok, Extends,
}
use keycloak_config_sync_ope.Base.Dict
use keycloak_config_sync_ope.Keycloakv2.{resource_id, trim_slashes, last_part}
use keycloak_config_sync_ope.Secretref.{split}
use keycloak_config_sync_ope.AuthFlow.{
  ExecutionInfo, AuthenticationExecution, Call, get_flow_executions,
}
use keycloak_config_sync_ope.AuthFlow.CreateOrUpdate
use keycloak_config_sync_ope.AuthFlow.CreateOrUpdate.TopLevel.{IsEnsuring}
use keycloak_config_sync_ope.AuthFlow.CreateOrUpdate.Children.{serve-IsEnsuring}
use keycloak_config_sync_ope.AuthFlow.Remove
use keycloak_config_sync_ope.AuthFlow.Remove.Guards.{IsRemoval, serve-IsRemoval}
use keycloak_config_sync_ope.AuthFlow.Sync
use keycloak_config_sync_ope.AuthFlow.Sync.{
  execs_to_add, adjust_all, child_flow_specs, clear_non_flow_executions, adjustment, spec_entry,
  adjust, add_executions, delete_executions,
}
use keycloak_config_sync_ope.AuthFlow.Sync.Clearing.{
  Deletes, cleared_ids, deletions, clear_non_flow_executions-Deletes,
}
use keycloak_config_sync_ope.AuthFlow.Sync.Adding.{IsOrdered, Adds}
use keycloak_config_sync_ope.AuthFlow.Sync.Serving.{IsAdjusting, serve-Adds}
use keycloak_config_sync_ope.Tests.Data.{
  cookie, forms, spec, listed, keycloak, world, sort, sort-IsSort,
}
use mathlib.Core.List.{Perm}
use keycloak_config_sync_ope.AuthFlow.Remove.{delete_flow_of}

abbrev known : Dict.Dict AuthenticationExecution
known = ("forms", forms) ∷ []

serve-IsEnsuring_example :
    Extends
      (IsEnsuring keycloak "staff" spec world)
      []
      (CreateOrUpdate.serve keycloak "staff" spec world).1.calls
serve-IsEnsuring_example = serve-IsEnsuring keycloak "staff" spec world

serve-IsRemoval_example :
    Extends
      (IsRemoval keycloak [] "staff" spec world)
      []
      (Remove.serve keycloak [] "staff" spec world).1.calls
serve-IsRemoval_example = serve-IsRemoval keycloak [] "staff" spec world

clear_non_flow_executions-Deletes_example :
    Deletes keycloak "staff"
      (cleared_ids listed)
      (record world { calls = get_flow_executions "staff" "login" ∷ [] })
      (clear_non_flow_executions keycloak "staff" "login" world)
clear_non_flow_executions-Deletes_example =
    clear_non_flow_executions-Deletes keycloak "staff" "login" world {execs = listed} refl

spec-executions : execs_to_add spec ≢ []
spec-executions e = ground arith

serve-Adds_example :
    (execs : List ExecutionInfo) × (added : List AuthenticationExecution) × (later : List Call)
    × (ok listed ≡ ok execs)
    × (world.status.id ≢ "")
    × Perm added (cookie ∷ [])
    × IsOrdered added
    × Adds keycloak "staff" "f1" added
        (deletions "staff" (cleared_ids execs) (get_flow_executions "staff" "login" ∷ []))
        later
    × Extends
        (IsAdjusting "staff" "login")
        later
        (Sync.serve keycloak "staff" spec sort world).1.calls
unfolding Sync.serve sort Sync.add_executions String_discrete resource_id trim_slashes last_part
    split Sync.adjust_all Sync.child_flow_specs Dict.insert Dict.lookup adjust
serve-Adds_example = serve-Adds keycloak "staff" spec sort sort-IsSort world spec-executions refl
