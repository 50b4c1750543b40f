-- ===== src/Flush/Roles.antt =====
-- internal/controller/keycloakrealm/chain/role/flush.go: the same for realm roles, which are on
-- record in a map from their names to their IDs.
use keycloak_config_sync_ope.Base.{
  ◌≡◌, refl, map, Bool-cases, contains, select, inl, inr, Bool, true, false, not, none, some, List,
  [], ◌∷◌, arith, String, if◌then◌else◌, Err, wrapf, Result, ok, err, Result-cases, Act, ◌>>◌, wrap,
}
use mathlib.Core.List.{foldl}
use keycloak_config_sync_ope.Base.Dict
use keycloak_config_sync_ope.Base.Dict.{Dict}
use keycloak_config_sync_ope.Keycloakv2.{is_not_found}
use keycloak_config_sync_ope.Flush.Strategy.{RealmSpec, has_reconciliation_strategy_full}

pub data RoleCall : Type 0 where
  delete_realm_role : String → String → RoleCall
  update_role_status : Dict String → RoleCall

pub record RoleApi : Type 0 where
  pub on_delete : List RoleCall → String → String → Result (Unit {0})
  pub on_update : List RoleCall → Dict String → Result (Unit {0})

-- The map in the status of the realm in memory, and the calls so far.
pub record RoleState : Type 0 where
  pub role_ids : Dict String
  pub calls : List RoleCall

-- `_, ok := m[name]`
has_name : String → Dict String → Bool
has_name name m = elim (Dict.lookup name m) [ none ↦ false | some _ ↦ true ]

-- The names that the first loop deletes from the map, in the order in which it visits them.
pub stale_names : Dict String → Dict String → List String
unfolding has_name
stale_names current [] = []
stale_names current ((name, id) ∷ storage) =
    let rest = stale_names current storage in if has_name name current then rest else name ∷ rest

-- What the first loop leaves.
kept_roles : Dict String → Dict String → Dict String
unfolding has_name
kept_roles current [] = []
kept_roles current ((name, id) ∷ storage) =
    let rest = kept_roles current storage in
    if has_name name current then (name, id) ∷ rest else rest

pub delete_roles : RoleApi → String → List String → Act RoleState (Unit {0})
delete_roles api realm [] s = (ok tt, s)
delete_roles api realm (name ∷ names) s =
    let s' : RoleState = record s { calls = delete_realm_role realm name ∷ s.calls } in
    elim (api.on_delete s.calls realm name) [
      | ok _ ↦ delete_roles api realm names s'
      | err e ↦ if is_not_found e then delete_roles api realm names s' else (
        err (wrapf "flush failed to delete realm [%s] role %s: %w" (realm ∷ name ∷ []) e),
        s',
      )
    ]

-- `for name, id := range rIDs { storageIDs[name] = id }`
insert_roles : Dict String → Dict String → Dict String
insert_roles [] storage = storage
insert_roles ((name, id) ∷ current) storage = insert_roles current (Dict.insert name id storage)

save_roles : RoleApi → Dict String → Act RoleState (Unit {0})
unfolding insert_roles
save_roles api current s =
    wrap "unable to update status of role: %w" []
      (λ t. (
        api.on_update t.calls t.role_ids,
        record t { calls = update_role_status t.role_ids ∷ t.calls },
      ))
      (record s { role_ids = insert_roles current s.role_ids })

-- `Flush` of realm roles. The first loop deletes from the map of the status itself.
unfoldable pub flush_roles : RoleApi → RealmSpec → Dict String → Act RoleState (Unit {0})
unfolding has_reconciliation_strategy_full stale_names kept_roles delete_roles save_roles
flush_roles api spec current s =
    if not (has_reconciliation_strategy_full spec)
    then (ok tt, s)
    else (do
      delete_roles api spec.realm_name (stale_names current s.role_ids)
      save_roles api current)
        (record s { role_ids = kept_roles current s.role_ids })

-- No key stands twice.
abbrev pub UniqueKeys : Dict String → Type 0
UniqueKeys [] = Unit
UniqueKeys ((k, v) ∷ m) = (Dict.lookup k m ≡ none) × UniqueKeys m

lookup-insert_roles :
    (k : String) (current storage : Dict String)
    → UniqueKeys current
    → Dict.lookup k (insert_roles current storage)
      ≡ elim (Dict.lookup k current) [ none ↦ Dict.lookup k storage | some id ↦ some id ]
unfolding insert_roles Dict.lookup
lookup-insert_roles k [] storage u = refl
lookup-insert_roles k ((name, id) ∷ current) storage u = ground (
  arith,
  lookup-insert_roles k current (Dict.insert name id storage) u.1,
  Dict.lookup-insert storage name k id,
  u,
)

lookup-kept_roles :
    (k : String) (current storage : Dict String)
    → Dict.lookup k current ≡ none
    → Dict.lookup k (kept_roles current storage) ≡ none
unfolding kept_roles Dict.lookup
lookup-kept_roles k current [] h = refl
lookup-kept_roles k current ((name, id) ∷ storage) h =
    ground (arith, lookup-kept_roles k current storage h)

role_ids-delete_roles :
    (api : RoleApi) (realm : String) (names : List String) (s : RoleState)
    → (delete_roles api realm names s).1.role_ids ≡ s.role_ids
unfolding delete_roles
role_ids-delete_roles api realm [] s = refl
role_ids-delete_roles api realm (name ∷ names) s = ground (
  arith,
  role_ids-delete_roles api realm names
      (record s { calls = delete_realm_role realm name ∷ s.calls }),
)

-- After the deletions, whatever was on record, the map has the current roles.
lookup-save_roles :
    (api : RoleApi) (realm : String) (names : List String) (current : Dict String) (s : RoleState)
    (k : String)
    → UniqueKeys current
    → (Dict.lookup k current ≡ none → Dict.lookup k s.role_ids ≡ none)
    → ((delete_roles api realm names >> save_roles api current) s).0 ≡ ok tt
    → Dict.lookup k ((delete_roles api realm names >> save_roles api current) s).1.role_ids
      ≡ Dict.lookup k current
unfolding save_roles
lookup-save_roles api realm names current s k u none_left h =
    elim (Result-cases (delete_roles api realm names s).0) [
      | inr (x, e) ↦ cc (rw e at h)
      | inl (a, e) ↦ rw e (
          rw (role_ids-delete_roles api realm names s, lookup-insert_roles k current s.role_ids u)
            (ground arith))
    ]

-- A flush of roles that runs and reports success leaves on record exactly the current roles, with
-- their current IDs, whatever was on record before.
pub lookup-flush_roles :
    (api : RoleApi) (spec : RealmSpec) (current : Dict String) (s : RoleState)
    → has_reconciliation_strategy_full spec ≡ true
    → UniqueKeys current
    → (flush_roles api spec current s).0 ≡ ok tt
    → (k : String)
    → Dict.lookup k (flush_roles api spec current s).1.role_ids ≡ Dict.lookup k current
unfolding flush_roles
lookup-flush_roles api spec current s full u h k =
    let start : RoleState = record s { role_ids = kept_roles current s.role_ids } in
    rw full (
      lookup-save_roles api spec.realm_name (stale_names current s.role_ids) current start k u
        (lookup-kept_roles k current s.role_ids) (rw full at h))

calls-delete_roles :
    (api : RoleApi) (realm : String) (names : List String) (s : RoleState)
    → ((calls : List RoleCall) (name : String) (e : Err)
        → api.on_delete calls realm name ≡ err e
        → is_not_found e ≡ true)
    → ((delete_roles api realm names s).0 ≡ ok tt)
      × ((delete_roles api realm names s).1.calls
          ≡ foldl (λ calls name. delete_realm_role realm name ∷ calls) s.calls names)
unfolding delete_roles
calls-delete_roles api realm [] s lenient = (refl, refl)
calls-delete_roles api realm (name ∷ names) s lenient =
    let s' : RoleState = record s { calls = delete_realm_role realm name ∷ s.calls } in
    let rest = calls-delete_roles api realm names s' lenient in
    elim (Result-cases (api.on_delete s.calls realm name)) [
      | inl (a, e) ↦ rw (e, delete_roles) rest
      | inr (x, e) ↦ rw (e, delete_roles) (rw (lenient s.calls name x e) rest)
    ]

-- The names of one list that are not in the other.
abbrev pub names_not_in : List String → List String → List String
names_not_in others names = select (λ name. not (contains name others)) names

has_name-contains :
    (name : String) (m : Dict String) → has_name name m ≡ contains name (map (λ e. e.0) m)
unfolding has_name Dict.lookup
has_name-contains name [] = refl
has_name-contains name ((k, v) ∷ m) = ground (arith, has_name-contains name m)

stale_names_lem :
    (current storage : Dict String)
    → stale_names current storage ≡ names_not_in (map (λ e. e.0) current) (map (λ e. e.0) storage)
unfolding stale_names
stale_names_lem current [] = refl
stale_names_lem current ((name, id) ∷ storage) =
    let rest = stale_names_lem current storage in
    let here = has_name-contains name current in
    elim (Bool-cases (contains name (map (λ e. e.0) current))) [
      | inl known ↦ rw (here) (rw (known) rest)
      | inr unknown ↦ rw (here) (rw (unknown) (rw (rest) refl))
    ]

-- If the deletions fail at most because Keycloak does not know a role, and the status is accepted,
-- a flush of roles succeeds, asks for the deletion of every role on record that is not current, in
-- the order of the record, and then saves the status; it makes no other call.
pub calls-flush_roles :
    (api : RoleApi) (spec : RealmSpec) (current : Dict String) (s : RoleState)
    → has_reconciliation_strategy_full spec ≡ true
    → ((calls : List RoleCall) (name : String) (e : Err)
        → api.on_delete calls spec.realm_name name ≡ err e
        → is_not_found e ≡ true)
    → ((calls : List RoleCall) (ids : Dict String) → api.on_update calls ids ≡ ok tt)
    → ((flush_roles api spec current s).0 ≡ ok tt)
      × ((flush_roles api spec current s).1.calls
          ≡ update_role_status (flush_roles api spec current s).1.role_ids
            ∷ foldl
                (λ calls name. delete_realm_role spec.realm_name name ∷ calls)
                s.calls
                (names_not_in (map (λ e. e.0) current) (map (λ e. e.0) s.role_ids)))
unfolding flush_roles
calls-flush_roles api spec current s full lenient saved =
    let start : RoleState = record s { role_ids = kept_roles current s.role_ids } in
    let run =
      calls-delete_roles api spec.realm_name (stale_names current s.role_ids) start lenient in
    let names = stale_names_lem current s.role_ids in
    rw full (rw run.0 (rw run.1 (rw saved (refl, rw (names) refl))))
