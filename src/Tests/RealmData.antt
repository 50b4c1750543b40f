-- ===== src/Tests/RealmData.antt =====
-- A Keycloak that accepts everything and lists one role and one group, and two groups of a realm.
use keycloak_config_sync_ope.Base.{
  ◌≡◌, refl, sym, ap, false, some, none, List, [], ◌∷◌, String, Err, api, ok, err, ok-injective,
  contains,
}
use mathlib.Core.Option.{some-injective}
use keycloak_config_sync_ope.AuthFlow.Cluster.{Cluster}
use keycloak_config_sync_ope.Directory.{RoleRep, GroupRep, Source, Call, Api, Session}
use keycloak_config_sync_ope.Groups.{Group}
use keycloak_config_sync_ope.Tests.Data as Flows

abbrev pub role : String → RoleRep
role name = record {
  id = some name;
  name = some name;
  description = none;
  composite = none;
  attributes = none;
  client_role = none;
  container_id = none;
  rest = [];
}

abbrev pub group_rep : String → GroupRep
group_rep id = record {
  id = some id;
  name = some id;
  description = none;
  path = none;
  attributes = none;
  rest = [];
}

abbrev pub unknown : Err
unknown = api 404 "not found"

abbrev pub keycloak : Api
keycloak = record {
  on_list_roles = λ h holder. ok (role "viewer" ∷ []);
  on_list_mappings = λ h realm id. ok none;
  on_get_role = λ h source name. ok (some (role name));
  on_add_roles = λ h holder roles. ok tt;
  on_remove_roles = λ h holder roles. ok tt;
  on_create_role = λ h realm r. ok tt;
  on_update_role = λ h realm name r. ok tt;
  on_delete_role = λ h realm name. ok tt;
  on_get_clients = λ h realm id. ok [];
  on_find_group = λ h realm name. err unknown;
  on_find_child_group = λ h realm parent name. err unknown;
  on_get_group_by_path = λ h realm path. ok (some (group_rep path));
  on_child_groups = λ h realm id. ok [];
  on_create_group = λ h realm g. ok none;
  on_create_child_group = λ h realm parent g. ok none;
  on_update_group = λ h realm id g. ok tt;
  on_user_groups = λ h realm user. ok (group_rep "old" ∷ []);
  on_join_group = λ h realm user id. ok tt;
  on_leave_group = λ h realm user id. ok tt;
  on_get_identity_provider = λ h realm alias. ok tt;
  on_federated_identities = λ h realm user. ok [];
  on_link_identity = λ h realm user alias identity. ok tt;
  on_unlink_identity = λ h realm user alias. ok tt;
  on_find_user = λ h realm name. err unknown;
  on_create_user = λ h realm user. ok none;
  on_update_user = λ h realm id user. ok tt;
  on_delete_user = λ h realm id. ok tt;
  on_set_password = λ h realm id c. ok tt;
  on_delete_group = λ h realm id. ok tt;
  on_delete_identity_provider = λ h realm alias. err unknown;
  on_delete_realm = λ h realm. ok tt;
  key_order = λ ks. ks;
  urls = Flows.keycloak.urls;
}

abbrev pub session : Session
session = record { id = "g1"; calls = [] }

pub named :
    (h : List Call) (source : Source) (asked : String) (r : RoleRep)
    → keycloak.on_get_role h source asked ≡ ok (some r)
    → r.name ≡ some asked
named h source asked r same =
    sym (ap (λ x. x.name) (some-injective (role asked) r (ok-injective same)))

pub visits : (ks : List String) (k : String) → contains k (keycloak.key_order ks) ≡ contains k ks
visits ks k = refl

abbrev pub staff : Group
staff = record {
  name = "staff";
  description = "";
  path = "";
  attributes = [];
  realm_roles = "viewer" ∷ [];
  sub_groups = [];
  parent_group = none;
  client_roles = [];
}

abbrev pub team : Group
team = record staff { name = "team"; parent_group = some "staff" }

abbrev pub manager : Cluster
manager = record {
  enable_owner_ref = false;
  on_get_object = λ events. err unknown;
  on_get_realm_object = λ events name. ok "main";
  on_set_controller_reference = λ events. ok tt;
  on_update = λ events finalizers. ok tt;
  on_update_status = λ events status. ok tt;
  on_create_client = λ events. ok Flows.keycloak;
  error_text = λ e. "";
  to_lower = λ s. s;
  contains_text = λ s t. false;
}
