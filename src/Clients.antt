-- ===== src/Clients.antt =====
-- internal/controller/keycloakclient/chain/client: what the handlers of a client ask of Keycloak
-- through the legacy client (Api), and the conditions that they report (conditions.go).
pub mod Authorization
pub mod Conditions
pub mod RealmRoles
use keycloak_config_sync_ope.Base.{
  Bool, true, false, not, ◌&&◌, Option, none, some, List, [], ◌∷◌, String, ◌<>◌, if◌then◌else◌,
  ◌==◌, Err, sentinel, Result, ok, err, Act, pure, fail, ◌>>=◌,
}
use keycloak_config_sync_ope.Base.{nil_dereference}
use keycloak_config_sync_ope.Base.Int.{ℤ, eq_ℤ}
use keycloak_config_sync_ope.Base.Dict
use keycloak_config_sync_ope.Base.Dict.{Dict}
use keycloak_config_sync_ope.Directory.{annotate}
use keycloak_config_sync_ope.Directory.Chain.{is_panic}

-- What Keycloak lists under a name. Only the ID is read; the other fields are handed back as they
-- came, in `rest`.
pub record Entity : Type 0 where
  pub id : Option String
  pub rest : List String

-- The parts of an authorization that a handler brings in line.
pub data Kind : Type 0 where
  scope : Kind
  resource : Kind
  policy : Kind
  permission : Kind

-- The parts of one kind of a client: the realm and the ID of the client.
pub record Place : Type 0 where
  pub kind : Kind
  pub realm : String
  pub client : String

-- What is listed by name.
pub data Listing : Type 0 where
  parts_of : Place → Listing
  clients_of : String → Listing
  groups_of : String → Listing
  realm_roles_of : String → Listing
  users_of : String → List String → Listing

-- `ResourceRepresentation`, as far as it is written
pub record ResourceRep : Type 0 where
  pub name : String
  pub display_name : String
  pub resource_type : String
  pub icon_uri : String
  pub owner_managed_access : Bool
  pub uris : List String
  pub attributes : Option (Dict (List String))
  pub scopes : List Entity

-- The settings of a policy that are sent, with IDs in place of names.
pub data PolicyBody : Type 0 where
  policy_ids : List String → PolicyBody
  client_ids : List String → PolicyBody
  -- each ID with `ExtendChildren`, and `GroupsClaim`
  group_ids : List (String × Bool) → String → PolicyBody
  -- each ID with `Required`
  role_ids : List (String × Bool) → PolicyBody
  -- the fields of `TimePolicyRepresentation`, in the order of the source
  times : List String → PolicyBody
  user_ids : List String → PolicyBody

pub record PolicyRep : Type 0 where
  pub name : String
  pub policy_type : String
  pub description : String
  pub decision_strategy : String
  pub logic : String
  pub body : PolicyBody

pub record PermissionRep : Type 0 where
  pub name : String
  pub permission_type : String
  pub description : String
  pub decision_strategy : String
  pub logic : String
  pub resources : List String
  pub policies : List String
  -- nil unless the permission is for scopes
  pub scopes : Option (List String)

-- What is sent to make or to change a part.
pub data Rep : Type 0 where
  scope_rep : String → Rep
  resource_rep : ResourceRep → Rep
  policy_rep : PolicyRep → Rep
  permission_rep : PermissionRep → Rep

pub data Call : Type 0 where
  get_client_id : String → String → Call
  list : Listing → Call
  create : Place → Rep → Call
  -- with the ID of the part, which may be nil
  update : Place → Option String → Rep → Call
  delete : Place → String → Call
  exist_realm_role : String → String → Call
  -- with the name of the composite role
  create_included_realm_role : String → String → String → Call

-- What is answered, from the calls so far. `key_order` is the order in which `range` visits the
-- keys of a map.
pub record Api : Type 0 where
  pub on_client_id : List Call → String → String → Result String
  pub on_list : List Call → Listing → Result (Dict Entity)
  pub on_create : List Call → Place → Rep → Result (Unit {0})
  pub on_update : List Call → Place → Option String → Rep → Result (Unit {0})
  pub on_delete : List Call → Place → String → Result (Unit {0})
  pub on_exist_realm_role : List Call → String → String → Result Bool
  pub on_create_included_realm_role : List Call → String → String → String → Result (Unit {0})
  pub key_order : List String → List String

-- `Error()`, and functions of the package strings
pub record Texts : Type 0 where
  pub error_text : Err → String
  pub trim : String → String → String
  pub replace_all : String → String → String → String
  pub to_lower : String → String

-- A condition of the status; the time of its last transition is left out.
pub record Condition : Type 0 where
  pub status : Bool
  pub reason : String
  pub message : String
  pub observed_generation : ℤ

-- The calls so far, the conditions by their types, and the statuses that were sent to Kubernetes,
-- newest first; an error of such an update is only logged.
pub record ClientState : Type 0 where
  pub calls : List Call
  pub conditions : Dict Condition
  pub updates : List (Dict Condition)

abbrev pub ask : {A : Type 0} → Call → (List Call → Result A) → Act ClientState A
ask c answer s = (answer s.calls, record s { calls = c ∷ s.calls })

-- `*p`, which panics on nil
abbrev pub deref : {A : Type 0} → Option A → Act ClientState A
deref none = fail (sentinel nil_dereference)
deref (some a) = pure a

-- Code that branches on whether there is a value.
abbrev pub branch :
    {A B : Type 0} → Option A → Act ClientState B → (A → Act ClientState B) → Act ClientState B
branch none m f = m
branch (some a) m f = f a

-- `RemoveSpecialChar`
unfoldable pub remove_special_char : Texts → String → String
remove_special_char texts s =
    texts.to_lower (texts.replace_all (texts.replace_all (texts.trim s "!@#{$}") "_" "-") " " "-")

-- The test of `meta.SetStatusCondition` for a change
unfoldable pub is_same_condition : Condition → Option Condition → Bool
is_same_condition new none = false
is_same_condition new (some old) =
    (if old.status then new.status else not new.status)
    && old.reason == new.reason
    && old.message == new.message
    && eq_ℤ old.observed_generation new.observed_generation

-- `SetCondition`, for a type with the name of the client
unfoldable pub set_condition : String → Condition → Act ClientState (Unit {0})
unfolding is_same_condition
set_condition condition_type new s =
    let stored = Dict.insert condition_type new s.conditions in
    if is_same_condition new (Dict.lookup condition_type s.conditions)
    then (ok tt, s)
    else (ok tt, record s { conditions = stored; updates = stored ∷ s.updates })

-- What the handlers read of a client and of the object that lists it.
pub record Reporter : Type 0 where
  pub texts : Texts
  pub name : String
  pub generation : ℤ

abbrev pub condition_type : Reporter → String → String
condition_type r kind = remove_special_char r.texts r.name <> "." <> kind

abbrev pub set_success : Reporter → String → String → String → Act ClientState (Unit {0})
set_success r kind reason message = set_condition (condition_type r kind) (record {
  status = true;
  reason = reason;
  message = message;
  observed_generation = r.generation;
})

-- `setFailureCondition` with the text of an error after a prefix
abbrev pub set_failure : Reporter → String → String → Err → Act ClientState (Unit {0})
set_failure r kind prefix e = set_condition (condition_type r kind) (record {
  status = false;
  reason = "KeycloakAPIError";
  message = prefix <> r.texts.error_text e;
  observed_generation = r.generation;
})

-- `if err != nil { h.setFailureCondition(...); return f(err) }` after a result; a panic is passed on.
unfoldable pub report :
    {A : Type 0} → Reporter → String → String → (Err → Err) → Result A → Act ClientState A
unfolding set_condition
report r kind prefix f (ok a) s = (ok a, s)
report r kind prefix f (err e) s =
    if is_panic e then (err e, s) else (err (f e), (set_failure r kind prefix e s).1)

abbrev pub reported :
    {A : Type 0} → Reporter → String → String → (Err → Err) → Act ClientState A → Act ClientState A
reported r kind prefix f m s = report r kind prefix f (m s).0 (m s).1
