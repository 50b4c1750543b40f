-- ===== src/Tests/Secrets.antt =====
-- References to secrets, in a namespace with one secret.
use keycloak_config_sync_ope.AuthFlow.{ConfigRef}
use keycloak_config_sync_ope.Tokens.{
  Answers, get_secret, make_keycloak_auth_data, token_secret_name,
  create_keycloak_client_from_config_ref,
}
use keycloak_config_sync_ope.Tokens.Logins.{
  IsLoggedIn, create_keycloak_client_from_config_ref-IsLoggedIn,
}
use keycloak_config_sync_ope.Base.{
  if◌then◌else◌, arith, subst, ◌≡◌, refl, true, false, ◌==◌, String_discrete, some, List, [], ◌∷◌,
  String, k8s, ok, err,
}
use keycloak_config_sync_ope.Base.Dict
use keycloak_config_sync_ope.Base.Dict.{Dict}
use keycloak_config_sync_ope.Secretref.{
  Secrets, has_secret_ref, get_secret_from_ref, generate_secret_ref, read_key,
  map_config_secrets_refs, map_component_config_secrets_refs,
}
use keycloak_config_sync_ope.Secretref.References.{
  occurrences, begins_with_brace, get_secret_from_ref-generate_secret_ref,
}
use keycloak_config_sync_ope.Secretref.Mapping.{
  Mapped, EntriesMapped, map_config_secrets_refs-Mapped,
  map_component_config_secrets_refs-EntriesMapped,
}
use keycloak_config_sync_ope.Secretref.Repeat.{ArePlain, map_config_secrets_refs_twice}

abbrev data_of : Dict String
data_of = ("password", "hunter2") ∷ []

-- The secret `smtp`, and no other.
abbrev secrets : Secrets
secrets ns name = if name == "smtp" then ok data_of else err (k8s true "not found")

abbrev config : Dict String
config = ("host", "mail") ∷ ("password", "$smtp:password") ∷ ("key", "$other:password") ∷ []

abbrev component : Dict (List String)
component = ("bind", "admin" ∷ "$smtp:password" ∷ []) ∷ []

get_secret_from_ref-generate_secret_ref_example :
    get_secret_from_ref secrets (generate_secret_ref "smtp" "password") "infra"
    ≡ read_key secrets "infra" "smtp" "password"
unfolding occurrences begins_with_brace
get_secret_from_ref-generate_secret_ref_example =
    get_secret_from_ref-generate_secret_ref secrets "infra" "smtp" "password" refl refl refl

map_config_secrets_refs-Mapped_example :
    Mapped secrets "infra" config
      (map_config_secrets_refs secrets "infra" config).0
      (map_config_secrets_refs secrets "infra" config).1
map_config_secrets_refs-Mapped_example = map_config_secrets_refs-Mapped secrets "infra" config

map_component_config_secrets_refs-EntriesMapped_example :
    EntriesMapped secrets "infra" component
      (map_component_config_secrets_refs secrets "infra" component).0
      (map_component_config_secrets_refs secrets "infra" component).1
map_component_config_secrets_refs-EntriesMapped_example =
    map_component_config_secrets_refs-EntriesMapped secrets "infra" component

lookup-data_of : (key value : String) → Dict.lookup key data_of ≡ some value → "hunter2" ≡ value
unfolding Dict.lookup
lookup-data_of key value h = ground arith

secrets-only :
    (name : String) (entries : Dict String) → secrets "infra" name ≡ ok entries → entries ≡ data_of
secrets-only name entries h = ground arith

hunter2-plain : has_secret_ref "hunter2" ≡ false
unfolding has_secret_ref
hunter2-plain = refl

secrets-ArePlain : ArePlain secrets "infra"
secrets-ArePlain name key value entries h k =
    let known = subst (λ m. Dict.lookup key m ≡ some value) (secrets-only name entries h) k in
    subst (λ v. has_secret_ref v ≡ false) (lookup-data_of key value known) hunter2-plain

abbrev resolvable : Dict String
resolvable = ("host", "mail") ∷ ("password", "$smtp:password") ∷ []

map_config_secrets_refs_twice_example :
    map_config_secrets_refs secrets "infra" (map_config_secrets_refs secrets "infra" resolvable).1
    ≡ (ok tt, (map_config_secrets_refs secrets "infra" resolvable).1)
unfolding map_config_secrets_refs String_discrete Dict.lookup
map_config_secrets_refs_twice_example =
    map_config_secrets_refs_twice secrets "infra" secrets-ArePlain resolvable refl

-- A cluster with the credentials and with a token that was saved under their name.
abbrev saved_tokens : Answers String String
saved_tokens = record {
  on_get = λ h ns name.
      if name == "admin"
      then ok (("username", "root") ∷ ("password", "secret") ∷ [])
      else if name == "kc-token-admin"
      then ok (("token", "old") ∷ [])
      else err (k8s true "no secret");
  on_update = λ h ns name entries. ok tt;
  on_create = λ h ns name entries. ok tt;
  on_delete = λ h ns name. ok tt;
  on_log_in = λ h auth user password. ok "adapter";
  on_use_token = λ h auth token. ok "adapter";
  on_new_client = λ h auth user password. ok "client";
  export_token = λ adapter. ok "new";
}

abbrev admin : ConfigRef
admin = record { url = "https://keycloak"; secret = "admin" }

create_keycloak_client_from_config_ref-IsLoggedIn_example :
    IsLoggedIn saved_tokens
      (make_keycloak_auth_data "infra" admin)
      "adapter"
      (get_secret "infra" (token_secret_name "") ∷ [])
      (create_keycloak_client_from_config_ref saved_tokens "infra" admin []).1
unfolding create_keycloak_client_from_config_ref String_discrete
create_keycloak_client_from_config_ref-IsLoggedIn_example =
    create_keycloak_client_from_config_ref-IsLoggedIn saved_tokens "infra" admin [] "no secret"
      "adapter" refl refl
