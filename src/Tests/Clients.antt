-- ===== src/Tests/Clients.antt =====
-- A client with two scopes and a resource, against a Keycloak that lists three parts of each kind
-- and accepts everything.
use keycloak_config_sync_ope.Base.{
  ◌≡◌, ◌⊎◌, ◌<>◌, Bool-cases, refl, sym, ap, ◌∙◌, eq_of_==, inl, inr, true, false, some, List, [],
  ◌∷◌, String, String_discrete, contains, ok, ◌==◌, ◌||◌, ◌&&◌,
}
use keycloak_config_sync_ope.Base.Int.{pos}
use keycloak_config_sync_ope.Base.Dict
use keycloak_config_sync_ope.Base.Dict.{Dict}
use keycloak_config_sync_ope.Directory.Roles.{is_some}
use keycloak_config_sync_ope.RealmRoles.Composites.{erase}
use keycloak_config_sync_ope.Clients.{
  Entity, scope, policy, Api, ClientState, Reporter, set_condition, report, condition_type,
  remove_special_char, is_same_condition,
}
use keycloak_config_sync_ope.Clients.Conditions.{success}
use keycloak_config_sync_ope.Clients.RealmRoles.{RealmRole}
use keycloak_config_sync_ope.Clients.Authorization.{sync_items, delete_parts, prune, serve_items}
use keycloak_config_sync_ope.Clients.Authorization.Records.{is_on_record}
use keycloak_config_sync_ope.Clients.Authorization.Refinement.{IsIdOf}
use keycloak_config_sync_ope.Clients.Authorization.Refinement.Maps.{==_sym}
use keycloak_config_sync_ope.Clients.Authorization.Conversions.{Resource, Authorization}
use keycloak_config_sync_ope.Clients.Authorization.Handlers.{
  AuthorizedClient, at, is_add_only, scope_part, put_scope, process_scope, process_resources,
}
use keycloak_config_sync_ope.Clients.Authorization.Reconciled.{
  handler, names_in, is_default_in, handler-is_on_record,
}
use keycloak_config_sync_ope.Clients.Authorization.Reported.{
  IsTold, condition_of, words_of, handler-IsTold,
}
use keycloak_config_sync_ope.Clients.Authorization.Attributes.{
  with_all_attributes, process_resources_any_attributes,
}
use keycloak_config_sync_ope.Clients.Authorization.Accepted.{HaveIds, process_scope_succeeds}

abbrev entity : String → Entity
entity id = record { id = some id; rest = [] }

abbrev listed : Dict Entity
listed = ("old", entity "i1") ∷ ("read", entity "i2") ∷ []

abbrev keycloak : Api
keycloak = record {
  on_client_id = λ h client realm. ok "uuid";
  on_list = λ h listing. ok listed;
  on_create = λ h place rep. ok tt;
  on_update = λ h place id rep. ok tt;
  on_delete = λ h place id. ok tt;
  on_exist_realm_role = λ h realm name. ok (name == "old");
  on_create_included_realm_role = λ h realm name composite. ok tt;
  key_order = λ ks. ks;
}

abbrev reporter : Reporter
reporter = record {
  texts = record {
    error_text = λ e. "error";
    trim = λ s cutset. s;
    replace_all = λ s old new. s;
    to_lower = λ s. s;
  };
  name = "app";
  generation = pos 1;
}

abbrev files : Resource
files = record {
  name = "files";
  display_name = "Files";
  resource_type = "test";
  icon_uri = "";
  owner_managed_access = false;
  uris = "/files" ∷ [];
  attributes = ("team", "a" ∷ []) ∷ [];
  scopes = "read" ∷ [];
}

abbrev authorization : Authorization
authorization = record {
  scopes = "read" ∷ "write" ∷ [];
  policies = [];
  permissions = [];
  resources = files ∷ [];
}

abbrev client : AuthorizedClient
client = record {
  client_id = "app";
  reconciliation_strategy = "full";
  authorization = some authorization;
}

abbrev start : ClientState
start = record { calls = []; conditions = []; updates = [] }

owner :
    (k : String) (e : Entity)
    → Dict.lookup k listed ≡ some e
    → ("old" == k ≡ true) × (e ≡ entity "i1") ⊎ ("old" == k ≡ false) × (e ≡ entity "i2")
unfolding Dict.lookup
owner k e found = elim (Bool-cases ("old" == k)) [
  | inl same ↦ inl (same, cc (rw (same) at found))
  | inr differs ↦ elim (Bool-cases ("read" == k)) [
    | inl read ↦ inr (differs, cc (rw (read) at (rw (differs) at found)))
    | inr neither ↦ cc (rw (neither) at (rw (differs) at found))
  ]
]

have_ids : HaveIds listed
have_ids k e found = elim (owner k e found) [
  | inl (_, same) ↦ rw (same) refl
  | inr (_, same) ↦ rw (same) refl
]

owns : IsIdOf "old" "i1" listed
unfolding String_discrete
owns k e i found has = elim (owner k e found) [
  | inl (old, same) ↦
      let id : "i1" ≡ i = cc (sym (ap (λ x. x.id) same) ∙ has) in
      rw⁻¹ (id) (rw⁻¹ (eq_of_== "old" k old) refl)
  | inr (other, same) ↦
      let id : "i2" ≡ i = cc (sym (ap (λ x. x.id) same) ∙ has) in
      rw⁻¹ (id) (rw (==_sym k "old") (rw (other) refl))
]

handler-is_on_record_example :
    is_on_record
      (at "main" scope "uuid")
      "old"
      "i1"
      true
      (handler keycloak reporter "main" scope client start).1.calls
    ≡ (contains "old" (names_in scope authorization)
        || is_some (Dict.lookup "old" listed) && (is_add_only client || is_default_in scope "old"))
unfolding Dict.lookup is_on_record process_scope scope_part put_scope serve_items sync_items prune
    delete_parts erase String_discrete report set_condition is_same_condition remove_special_char
handler-is_on_record_example =
    handler-is_on_record keycloak reporter "main" (λ ks k. refl) scope "old" "i1" true client
      authorization "uuid" start listed refl owns refl refl refl refl

handler-IsTold_example :
    IsTold reporter
      (condition_of policy)
      ("Authorization " <> words_of policy <> " synchronized")
      ("Failed to sync authorization " <> words_of policy <> ": ")
      (handler keycloak reporter "main" policy client start).0
      (handler keycloak reporter "main" policy client start).1.conditions
handler-IsTold_example =
    handler-IsTold keycloak reporter "main" policy client authorization start refl

process_scope_succeeds_example :
    ((process_scope keycloak reporter "main" client start).0 ≡ ok tt)
    × (Dict.lookup
          (condition_type reporter "AuthorizationScopesSynced")
          (process_scope keycloak reporter "main" client start).1.conditions
        ≡ some (success reporter "AuthorizationScopesSynced" "Authorization scopes synchronized"))
process_scope_succeeds_example =
    process_scope_succeeds keycloak reporter "main" (λ h place rep. refl) (λ h place id. refl)
      client authorization "uuid" start listed refl have_ids refl refl

process_resources_any_attributes_example :
    process_resources keycloak reporter "main"
      (record client { authorization = some (with_all_attributes (λ r. []) authorization) })
      start
    ≡ process_resources keycloak reporter "main" client start
process_resources_any_attributes_example =
    process_resources_any_attributes (λ r. []) keycloak reporter "main" client authorization start
      refl

abbrev roles : List RealmRole
roles =
    record { name = "new"; composite = "all" }
    ∷ record { name = "old"; composite = "all" }
    ∷ record { name = "last"; composite = "all" }
    ∷ []
