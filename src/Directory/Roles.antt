-- ===== src/Directory/Roles.antt =====
-- What the handlers that give roles to a group or to a user have in common: the roles on record by
-- their names, the roles that are missing, and the two requests that follow.
pub mod Naming
pub mod Refinement
use keycloak_config_sync_ope.Base.{
  Bool, true, false, not, ◌&&◌, Option, none, some, List, [], ◌∷◌, String, if◌then◌else◌, ◌==◌,
  contains, map, Act, pure, ◌>>=◌, ◌>>◌, wrap, select,
}
use keycloak_config_sync_ope.Base.Dict
use keycloak_config_sync_ope.Base.Dict.{Dict}
use keycloak_config_sync_ope.Directory.{
  RoleRep, Holder, Api, Session, do_add_roles, do_remove_roles, unless_empty,
}

-- `if r.Name != nil { current[*r.Name] = r }`
abbrev pub insert_named : Option String → RoleRep → Dict RoleRep → Dict RoleRep
insert_named none r m = m
insert_named (some name) r m = Dict.insert name r m

unfoldable pub insert_all : List RoleRep → Dict RoleRep → Dict RoleRep
insert_all [] m = m
insert_all (r ∷ rs) m = insert_all rs (insert_named r.name r m)

-- The map of the roles by their names.
unfoldable pub by_name : List RoleRep → Dict RoleRep
unfolding insert_all
by_name rs = insert_all rs []

-- `_, exists := m[key]`
abbrev pub is_some : {A : Type 0} → Option A → Bool
is_some none = false
is_some (some a) = true

-- The roles that are claimed and not on record, each as Keycloak has it.
unfoldable pub fetch_missing :
    (String → Act Session RoleRep) → Dict RoleRep → List String → Act Session (List RoleRep)
fetch_missing fetch current [] = pure []
fetch_missing fetch current (name ∷ names) =
    let rest = fetch_missing fetch current names in
    if is_some (Dict.lookup name current)
    then rest
    else fetch name >>= (λ role. rest >>= (λ roles. pure (role ∷ roles)))

abbrev pub cons_some : {A : Type 0} → Option A → List A → List A
cons_some none xs = xs
cons_some (some x) xs = x ∷ xs

abbrev pub keys : {V : Type 0} → Dict V → List String
keys m = map (λ e. e.0) m

-- The values of the keys that are not claimed, in the order of the keys.
unfoldable pub unclaimed : {V : Type 0} → List String → Dict V → List String → List V
unclaimed claimed m [] = []
unclaimed claimed m (key ∷ ks) =
    let rest = unclaimed claimed m ks in
    if contains key claimed then rest else cons_some (Dict.lookup key m) rest

-- `r.Name != nil && !slices.Contains(desired, *r.Name)`
abbrev pub is_extra : List String → Option String → Bool
is_extra desired none = false
is_extra desired (some name) = not (contains name desired)

-- The requests for what is missing and for what is stale.
unfoldable pub apply_diff :
    Api
    → (String → Act Session RoleRep)
    → Holder
    → String
    → String
    → List String
    → Dict RoleRep
    → List String
    → List RoleRep
    → Act Session (Unit {0})
unfolding fetch_missing
apply_diff api fetch holder add_message remove_message args current claimed stale = do
  missing ← fetch_missing fetch current claimed
  unless_empty (λ rs. wrap add_message args (do_add_roles api holder rs)) missing
  unless_empty (λ rs. wrap remove_message args (do_remove_roles api holder rs)) stale
