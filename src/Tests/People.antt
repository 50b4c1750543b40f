-- ===== src/Tests/People.antt =====
-- The users of a realm, against a Keycloak that lists one role and one group.
use keycloak_config_sync_ope.Base.{
  ◌≡◌, refl, ◌||◌, true, false, some, none, List, [], ◌∷◌, String, String_discrete, contains, ok,
  err, k8s,
}
use keycloak_config_sync_ope.Base.Int.{pos}
use keycloak_config_sync_ope.Base.Dict
use keycloak_config_sync_ope.Directory.{user_realm, user_groups, set_password}
use keycloak_config_sync_ope.Directory.Roles.{insert_all, by_name, fetch_missing, apply_diff}
use keycloak_config_sync_ope.Directory.Roles.Refinement.{is_held}
use keycloak_config_sync_ope.Users.{
  PasswordSecret, or_no_values, or_empty_map, make_user_attributes,
}
use keycloak_config_sync_ope.Users.Attributes.{make_user_attributes_lem}
use keycloak_config_sync_ope.Users.Roles.{fetch_realm_role, sync_realm_roles, extra_roles}
use keycloak_config_sync_ope.Users.RoleRefinement.{wanted, sync_user_realm_roles-is_held}
use keycloak_config_sync_ope.Users.Memberships.{
  starts_with_slash, by_id, resolve_group, resolve_groups, join_groups, leave_groups,
  sync_memberships, sync_groups_of,
}
use keycloak_config_sync_ope.Users.GroupsFound.{AreFound}
use keycloak_config_sync_ope.Users.MembershipRefinement.{is_member, sync_groups_of-is_member}
use keycloak_config_sync_ope.Users.Password.{
  Secret, KeycloakUser, Cluster, UserState, get_password, password_from, get_secret_password,
  read_password, report, or_report, should_skip_password_sync, send_password,
  update_password_condition, sync_password, set_user_password,
}
use keycloak_config_sync_ope.Users.PasswordRepeat.{set_user_password_twice, set_user_password_again}
use keycloak_config_sync_ope.Tests.RealmData.{role, group_rep, keycloak, session, named, visits}

sync_user_realm_roles-is_held_example :
    is_held
      (user_realm "main" "u1")
      "viewer"
      true
      (sync_realm_roles keycloak "main" "u1" ("editor" ∷ []) true session).1.calls
    ≡ wanted true (contains "viewer" ("viewer" ∷ [])) (contains "viewer" ("editor" ∷ []))
unfolding sync_realm_roles fetch_realm_role insert_all by_name fetch_missing apply_diff extra_roles
    Dict.lookup Dict.insert String_discrete
sync_user_realm_roles-is_held_example =
    sync_user_realm_roles-is_held keycloak named "viewer" true "main" "u1" ("editor" ∷ []) true
      session (role "viewer" ∷ []) refl refl refl

sync_groups_of-is_member_example :
    (ids : List String) × AreFound keycloak "main" (user_groups "main" "u1" ∷ []) ("/new" ∷ []) ids
    × (is_member "main" "u1" "/new" false
          (sync_groups_of keycloak "main" "u1" false ("/new" ∷ []) session).1.calls
        ≡ wanted false (contains "/new" ("old" ∷ [])) (contains "/new" ids))
unfolding sync_groups_of sync_memberships resolve_groups resolve_group join_groups leave_groups
    by_id starts_with_slash Dict.lookup Dict.insert String_discrete
sync_groups_of-is_member_example =
    sync_groups_of-is_member keycloak "main" "u1" "/new" false visits false ("/new" ∷ []) session
      (group_rep "old" ∷ []) refl refl refl

make_user_attributes_lem_example :
    (Dict.lookup "team" (make_user_attributes none (("team", "a" ∷ []) ∷ []) false)
      ≡ Dict.lookup "team" (("team", "a" ∷ []) ∷ []))
    × (contains "a" (
          or_no_values
            (Dict.lookup "team" (make_user_attributes none (("team", "a" ∷ []) ∷ []) true)))
        ≡ (contains "a" (or_no_values (Dict.lookup "team" (or_empty_map none)))
            || contains "a" (or_no_values (Dict.lookup "team" (("team", "a" ∷ []) ∷ [])))))
unfolding Dict.lookup
make_user_attributes_lem_example =
    make_user_attributes_lem none (("team", "a" ∷ []) ∷ []) "team" "a" (refl, tt)

-- A temporary password of a secret.
abbrev initial : PasswordSecret
initial = record { name = "initial"; key = "password"; temporary = true }

abbrev secret : Secret
secret = record { data_of = ("password", "s3cret") ∷ []; resource_version = "7" }

abbrev person : KeycloakUser
person = record {
  namespace = "idp";
  generation = pos 1;
  spec = record {
    username = "ann";
    email = "";
    first_name = "";
    last_name = "";
    enabled = true;
    email_verified = false;
    required_user_actions = [];
    roles = [];
    client_roles = [];
    groups = [];
    attributes_v2 = [];
    reconciliation_strategy = "";
    password = "";
    keep_resource = true;
    password_secret = some initial;
    identity_providers = none;
  };
}

-- The secret can be read, or only the second time.
abbrev readable : Cluster
readable = record {
  on_get_secret = λ events namespace name. ok secret;
  on_delete_object = λ events. ok tt;
  error_text = λ e. "";
}

abbrev readable_later : Cluster
readable_later = record readable {
  on_get_secret = λ events namespace name. elim events [
    | [] ↦ err (k8s true "no secret")
    | e ∷ before ↦ ok secret
  ];
}

abbrev state : UserState
state = record {
  session = session;
  status = record { condition = none; last_synced_password_secret_version = "" };
  events = [];
}

set_user_password_twice_example :
    ((set_user_password readable person keycloak "main"
        (set_user_password readable person keycloak "main" state).1).0
      ≡ ok tt)
    × ((set_user_password readable person keycloak "main"
          (set_user_password readable person keycloak "main" state).1).1.session
        ≡ (set_user_password readable person keycloak "main" state).1.session)
unfolding set_user_password get_password password_from get_secret_password read_password report
    or_report should_skip_password_sync send_password update_password_condition sync_password
    Dict.lookup String_discrete
set_user_password_twice_example =
    set_user_password_twice readable person keycloak "main" initial refl state secret "s3cret" refl
      refl refl refl

set_user_password_again_example :
    (set_user_password readable_later person keycloak "main"
      (set_user_password readable_later person keycloak "main" state).1).1.session.calls
    ≡ set_password "main" "g1" (record { value = "s3cret"; temporary = true }) ∷ []
unfolding set_user_password get_password password_from get_secret_password read_password report
    or_report Dict.lookup String_discrete
set_user_password_again_example =
    set_user_password_again readable_later person keycloak "main" initial refl state
      (k8s true "no secret") secret "s3cret" refl refl refl refl
