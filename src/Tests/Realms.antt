-- ===== src/Tests/Realms.antt =====
-- The groups of a realm and its deletion, against a Keycloak that lists one role.
use keycloak_config_sync_ope.Base.{
  ℕ, suc, ◌+◌, ◌-◌, ◌*◌, ◌≤◌, ◌<◌, ◌≡◌, refl, true, false, some, none, List, [], ◌∷◌, arith, String,
  String_discrete, contains, length, All, api, wrapf, ok, err, Extends, if◌then◌else◌, ltb,
}
use keycloak_config_sync_ope.Base.Int.{pos, negsuc}
use keycloak_config_sync_ope.Base.Dict
use keycloak_config_sync_ope.Flush
use keycloak_config_sync_ope.Flush.Strategy.{RealmSpec}
use keycloak_config_sync_ope.AuthFlow.Cluster.{is_unauthorized_error}
use keycloak_config_sync_ope.Directory.{group_realm, list_roles, delete_identity_provider}
use keycloak_config_sync_ope.Directory.Roles.{
  insert_all, by_name, fetch_missing, unclaimed, apply_diff,
}
use keycloak_config_sync_ope.Directory.Roles.Refinement.{is_held}
use keycloak_config_sync_ope.Directory.Renewals.{IsServed, renewals}
use keycloak_config_sync_ope.Groups.{Group}
use keycloak_config_sync_ope.Groups.Roles.{fetch_realm_role, sync_realm_roles}
use keycloak_config_sync_ope.Groups.RoleRefinement.{sync_realm_roles-is_held}
use keycloak_config_sync_ope.Groups.Settled.{sync_realm_roles_settled}
use keycloak_config_sync_ope.Groups.Sorting.{visit_each, visit, sort_realm_group_by_parent}
use keycloak_config_sync_ope.Groups.Sorting.Termination.{sort_realm_group_by_parent_ends}
use keycloak_config_sync_ope.Groups.Sorting.Order.{parents_first}
use keycloak_config_sync_ope.Groups.Sorting.Sorted.{
  IsListed, sort_realm_group_by_parent-parents_first,
}
use mathlib.Core.List.{Memᴰ}
use keycloak_config_sync_ope.Groups.Chain.{ChainState, serve_groups, serve_sorted}
use keycloak_config_sync_ope.Groups.Served.{SavesBlank, serve_groups-Extends, serve_sorted_blank}
use keycloak_config_sync_ope.Terminator
use keycloak_config_sync_ope.Terminator.{delete_resource}
use keycloak_config_sync_ope.Terminator.Stuck.{delete_resource_stuck}
use keycloak_config_sync_ope.Failures.{StatusValue, set_failure_count, rounds}
use keycloak_config_sync_ope.Failures.{wait_of_rounds}
use keycloak_config_sync_ope.Tests.RealmData.{
  role, keycloak, session, named, visits, staff, team, manager,
}

sync_realm_roles-is_held_example :
    is_held
      (group_realm "main" "g1")
      "editor"
      false
      (sync_realm_roles keycloak "main" "g1" ("editor" ∷ []) session).1.calls
    ≡ contains "editor" ("editor" ∷ [])
unfolding sync_realm_roles fetch_realm_role insert_all by_name fetch_missing unclaimed apply_diff
    Dict.lookup Dict.insert String_discrete
sync_realm_roles-is_held_example =
    sync_realm_roles-is_held keycloak named visits "editor" false "main" "g1" ("editor" ∷ [])
      session (role "viewer" ∷ []) refl refl refl

sync_realm_roles_settled_example :
    sync_realm_roles keycloak "main" "g1" ("viewer" ∷ []) session
    ≡ (ok tt, record session { calls = list_roles (group_realm "main" "g1") ∷ [] })
sync_realm_roles_settled_example =
    sync_realm_roles_settled keycloak visits "main" "g1" ("viewer" ∷ []) session
      (role "viewer" ∷ []) refl (λ n. refl)

-- A root is at level 0, the other group at level 1.
abbrev level : String → ℕ
level name = if contains name ("team" ∷ []) then 1 else 0

sort_realm_group_by_parent_ends_example :
    (r : List Group) × ((fuel : ℕ)
      → 1 < fuel
      → sort_realm_group_by_parent fuel (team ∷ staff ∷ []) ≡ some r)
unfolding String_discrete
sort_realm_group_by_parent_ends_example =
    sort_realm_group_by_parent_ends level 1 (team ∷ staff ∷ [])
      ((omega arith, omega arith), ((omega arith, tt), tt))

sort_realm_group_by_parent-parents_first_example :
    (parents_first [] (staff ∷ team ∷ []) ≡ true)
    × All (λ g. Memᴰ g (team ∷ staff ∷ [])) (staff ∷ team ∷ [])
    × All (λ g. IsListed (staff ∷ team ∷ []) g.parent_group g) (team ∷ staff ∷ [])
unfolding sort_realm_group_by_parent visit_each visit String_discrete
sort_realm_group_by_parent-parents_first_example =
    sort_realm_group_by_parent-parents_first 2 (team ∷ staff ∷ []) (staff ∷ team ∷ []) refl

serve_groups-Extends_example :
    Extends
      (IsServed "main")
      []
      (serve_groups manager (λ h. ok keycloak) keycloak "main" (staff ∷ []) session).1.calls
    × (renewals
          (serve_groups manager (λ h. ok keycloak) keycloak "main" (staff ∷ []) session).1.calls
        ≤ 4 * length (staff ∷ []) + renewals [])
serve_groups-Extends_example =
    serve_groups-Extends manager (λ h. ok keycloak) keycloak "main" (staff ∷ []) session

abbrev flush_api : Flush.Api
flush_api = record { on_delete = λ h realm id. ok tt; on_update = λ h ids. ok tt }

abbrev realm_spec : RealmSpec
realm_spec = record { annotations = []; realm_name = "main"; reconciliation_strategy = "full" }

abbrev chain_state : ChainState
chain_state = record { session = session; flush = record { ids = []; calls = [] } }

serve_sorted_blank_example :
    Extends SavesBlank []
      (serve_sorted manager
        (λ h. ok keycloak)
        keycloak
        "main"
        flush_api
        realm_spec
        (staff ∷ [])
        (staff ∷ [])
        chain_state).1.flush.calls
serve_sorted_blank_example =
    serve_sorted_blank manager (λ h. ok keycloak) keycloak "main" flush_api realm_spec staff []
      (staff ∷ []) chain_state

abbrev deleted : Terminator.RealmSpec
deleted = record {
  realm_name = "main";
  identity_providers = "google" ∷ [];
  roles = [];
  groups = [];
  default_role = none;
}

delete_resource_stuck_example :
    delete_resource manager
      (λ h. ok keycloak)
      deleted
      1
      false
      (record { client = keycloak; session = session })
    ≡ some (
      err (wrapf "unable to delete realm idp %q: %w" ("google" ∷ []) (api 404 "not found")),
      record {
        client = keycloak;
        session = record session { calls = delete_identity_provider "main" "google" ∷ [] };
      },
    )
unfolding is_unauthorized_error
delete_resource_stuck_example =
    delete_resource_stuck manager (λ h. ok keycloak) deleted "google" "not found" [] 0
      (record { client = keycloak; session = session }) refl refl refl

abbrev failed : StatusValue
failed = record { phase = "Failed"; error = "no realm"; failure_count = pos 0 }

wait_of_rounds_example : (set_failure_count (rounds 2 failed)).0 ≡ (
    if ltb 2 922337203
    then pos (10000000000 * suc 2)
    else negsuc (18446744073709551615 - 10000000000 * suc 2))
wait_of_rounds_example = wait_of_rounds 2 failed refl (omega arith)
