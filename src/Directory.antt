-- ===== src/Directory.antt =====
-- What the chains of a realm's groups, of its roles and of the users read of Keycloak, and the
-- requests of pkg/client/keycloakv2 by which they act on it.
pub mod Roles
pub mod Chain
pub mod Requests
pub mod Renewals
pub mod Client
use keycloak_config_sync_ope.Base.{
  Bool, true, false, ◌&&◌, Option, none, some, List, [], ◌∷◌, String, if◌then◌else◌, ◌==◌, contains,
  Err, wrapf, sentinel, Result, ok, err, Act, pure, fail, ◌>>=◌,
}
use keycloak_config_sync_ope.Base.{nil_dereference}
use keycloak_config_sync_ope.Base.Dict.{Dict}
use keycloak_config_sync_ope.Keycloakv2.{Urls}

-- The fields of `RoleRepresentation` that are read or written; the others are handed back as they
-- came, in `rest`.
pub record RoleRep : Type 0 where
  pub id : Option String
  pub name : Option String
  pub description : Option String
  pub composite : Option Bool
  pub attributes : Option (Dict (List String))
  pub client_role : Option Bool
  pub container_id : Option String
  pub rest : List String

-- Likewise for `GroupRepresentation`.
pub record GroupRep : Type 0 where
  pub id : Option String
  pub name : Option String
  pub description : Option String
  pub path : Option String
  pub attributes : Option (Dict (List String))
  pub rest : List String

-- `ClientRepresentation` as far as it is read
pub record ClientRep : Type 0 where
  pub id : Option String
  pub client_id : Option String

pub record ClientMappings : Type 0 where
  pub id : Option String
  pub mappings : Option (List RoleRep)

-- `FederatedIdentityRepresentation`
pub record FederatedIdentity : Type 0 where
  pub identity_provider : Option String
  pub user_id : Option String
  pub user_name : Option String

-- Likewise for `UserRepresentation`.
pub record UserRep : Type 0 where
  pub id : Option String
  pub username : Option String
  pub enabled : Option Bool
  pub email_verified : Option Bool
  pub first_name : Option String
  pub last_name : Option String
  pub required_actions : Option (List String)
  pub email : Option String
  pub attributes : Option (Dict (List String))
  pub rest : List String

-- `CredentialRepresentation` as it is sent: the type is always "password".
pub record Credential : Type 0 where
  pub value : String
  pub temporary : Bool

-- Who holds roles: the realm first, the ID of a client last.
pub data Holder : Type 0 where
  group_realm : String → String → Holder
  group_client : String → String → String → Holder
  user_realm : String → String → Holder
  user_client : String → String → String → Holder
  role_composites : String → String → Holder

-- Where a role is defined: in a realm, or in a client of it.
pub data Source : Type 0 where
  in_realm : String → Source
  in_client : String → String → Source

-- The requests, the realm first.
pub data Call : Type 0 where
  list_roles : Holder → Call
  list_mappings : String → String → Call
  get_role : Source → String → Call
  add_roles : Holder → List RoleRep → Call
  remove_roles : Holder → List RoleRep → Call
  create_role : String → RoleRep → Call
  update_role : String → String → RoleRep → Call
  delete_role : String → String → Call
  get_clients : String → String → Call
  find_group : String → String → Call
  find_child_group : String → String → String → Call
  get_group_by_path : String → String → Call
  child_groups : String → String → Call
  create_group : String → GroupRep → Call
  create_child_group : String → String → GroupRep → Call
  update_group : String → String → GroupRep → Call
  user_groups : String → String → Call
  join_group : String → String → String → Call
  leave_group : String → String → String → Call
  get_identity_provider : String → String → Call
  federated_identities : String → String → Call
  link_identity : String → String → String → FederatedIdentity → Call
  unlink_identity : String → String → String → Call
  find_user : String → String → Call
  create_user : String → UserRep → Call
  update_user : String → String → UserRep → Call
  delete_user : String → String → Call
  set_password : String → String → Credential → Call
  delete_group : String → String → Call
  delete_identity_provider : String → String → Call
  delete_realm : String → Call
  -- a client for Keycloak is made again
  new_client : Call

-- What is answered, from the calls so far: a pointer to a value may be nil. `key_order` is the
-- order in which `range` visits the keys of a map.
pub record Api : Type 0 where
  pub on_list_roles : List Call → Holder → Result (List RoleRep)
  pub on_list_mappings :
      List Call → String → String → Result (Option (Option (Dict ClientMappings)))
  pub on_get_role : List Call → Source → String → Result (Option RoleRep)
  pub on_add_roles : List Call → Holder → List RoleRep → Result (Unit {0})
  pub on_remove_roles : List Call → Holder → List RoleRep → Result (Unit {0})
  pub on_create_role : List Call → String → RoleRep → Result (Unit {0})
  pub on_update_role : List Call → String → String → RoleRep → Result (Unit {0})
  pub on_delete_role : List Call → String → String → Result (Unit {0})
  pub on_get_clients : List Call → String → String → Result (List ClientRep)
  pub on_find_group : List Call → String → String → Result (Option GroupRep)
  pub on_find_child_group : List Call → String → String → String → Result (Option GroupRep)
  pub on_get_group_by_path : List Call → String → String → Result (Option GroupRep)
  pub on_child_groups : List Call → String → String → Result (List GroupRep)
  pub on_create_group : List Call → String → GroupRep → Result (Option String)
  pub on_create_child_group : List Call → String → String → GroupRep → Result (Option String)
  pub on_update_group : List Call → String → String → GroupRep → Result (Unit {0})
  pub on_user_groups : List Call → String → String → Result (List GroupRep)
  pub on_join_group : List Call → String → String → String → Result (Unit {0})
  pub on_leave_group : List Call → String → String → String → Result (Unit {0})
  pub on_get_identity_provider : List Call → String → String → Result (Unit {0})
  pub on_federated_identities : List Call → String → String → Result (List FederatedIdentity)
  pub on_link_identity :
      List Call → String → String → String → FederatedIdentity → Result (Unit {0})
  pub on_unlink_identity : List Call → String → String → String → Result (Unit {0})
  pub on_find_user : List Call → String → String → Result (Option UserRep)
  pub on_create_user : List Call → String → UserRep → Result (Option String)
  pub on_update_user : List Call → String → String → UserRep → Result (Unit {0})
  pub on_delete_user : List Call → String → String → Result (Unit {0})
  pub on_set_password : List Call → String → String → Credential → Result (Unit {0})
  pub on_delete_group : List Call → String → String → Result (Unit {0})
  pub on_delete_identity_provider : List Call → String → String → Result (Unit {0})
  pub on_delete_realm : List Call → String → Result (Unit {0})
  pub key_order : List String → List String
  pub urls : Urls

-- The ID that the handlers of a chain hand on (`GroupContext`, `RoleContext`, `UserContext`), and
-- the calls so far, newest first.
pub record Session : Type 0 where
  pub id : String
  pub calls : List Call

-- A request, with its answer.
abbrev pub ask : {A : Type 0} → Call → (List Call → Result A) → Act Session A
ask c answer s = (answer s.calls, record s { calls = c ∷ s.calls })

abbrev pub set_id : String → Act Session (Unit {0})
set_id id s = (ok tt, record s { id = id })

-- A pointer that is followed, and what is done instead if it is nil.
abbrev pub if_nil : {A : Type 0} → Act Session A → Option A → Act Session A
if_nil missing none = missing
if_nil missing (some a) = pure a

-- `*p`, which panics on nil
abbrev pub deref : {A : Type 0} → Option A → Act Session A
deref p = if_nil (fail (sentinel nil_dereference)) p

-- `fmt.Errorf(format, args..., err)` around an error; a panic is no error.
abbrev pub annotate : String → List String → Err → Err
annotate f args (sentinel nil_dereference) = sentinel nil_dereference
annotate f args e = wrapf f args e

abbrev pub annotate_result : {A : Type 0} → String → List String → Result A → Result A
annotate_result f args (ok a) = ok a
annotate_result f args (err e) = err (annotate f args e)

-- `if err != nil { return fmt.Errorf(format, args..., err) }` around code that may panic
abbrev pub context : {S A : Type 0} → String → List String → Act S A → Act S A
context f args m s = (annotate_result f args (m s).0, (m s).1)

-- Code that branches on whether there is a value.
abbrev pub on_option :
    {A B : Type 0} → Option A → Act Session B → (A → Act Session B) → Act Session B
on_option none m f = m
on_option (some a) m f = f a

-- What code makes of the result of a request.
abbrev pub recover : {A B : Type 0} → (Result A → Result B) → Act Session A → Act Session B
recover f m s = (f (m s).0, (m s).1)

-- `if len(xs) > 0 { ... }`
abbrev pub unless_empty :
    {A : Type 0} → (List A → Act Session (Unit {0})) → List A → Act Session (Unit {0})
unless_empty f [] = pure tt
unless_empty f (x ∷ xs) = f (x ∷ xs)

module _ (api : Api) where
  abbrev pub do_list_roles : Holder → Act Session (List RoleRep)
  do_list_roles holder = ask (list_roles holder) (λ h. api.on_list_roles h holder)

  abbrev pub do_get_role : Source → String → Act Session (Option RoleRep)
  do_get_role source name = ask (get_role source name) (λ h. api.on_get_role h source name)

  abbrev pub do_add_roles : Holder → List RoleRep → Act Session (Unit {0})
  do_add_roles holder roles = ask (add_roles holder roles) (λ h. api.on_add_roles h holder roles)

  abbrev pub do_remove_roles : Holder → List RoleRep → Act Session (Unit {0})
  do_remove_roles holder roles =
      ask (remove_roles holder roles) (λ h. api.on_remove_roles h holder roles)

  abbrev pub do_get_clients : String → String → Act Session (List ClientRep)
  do_get_clients realm client_id =
      ask (get_clients realm client_id) (λ h. api.on_get_clients h realm client_id)

  abbrev pub do_find_group : String → String → Act Session (Option GroupRep)
  do_find_group realm name = ask (find_group realm name) (λ h. api.on_find_group h realm name)
