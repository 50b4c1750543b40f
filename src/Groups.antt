-- ===== src/Groups.antt =====
-- internal/controller/keycloakrealm/chain/group: the handlers that bring a group of a realm into
-- Keycloak, for the groups as `Group` of api/v1alpha1/keycloakrealm_types.go lists them.
pub mod Sorting
pub mod Chain
pub mod Requests
pub mod Served
pub mod Roles
pub mod RoleRefinement
pub mod Settled
use keycloak_config_sync_ope.Base.{
  Bool, true, false, Option, none, some, List, [], ◌∷◌, String, if◌then◌else◌, ◌==◌, contains,
  errorf, wrapf, Result, ok, err, Act, pure, fail, ◌>>=◌, ◌>>◌, wrap,
}
use keycloak_config_sync_ope.Base.Dict
use keycloak_config_sync_ope.Base.Dict.{Dict}
use keycloak_config_sync_ope.Keycloakv2.{is_not_found, resource_id}
use keycloak_config_sync_ope.Directory.{
  GroupRep, Call, create_group, create_child_group, update_group, find_child_group, child_groups,
  Api, Session, ask, set_id, on_option, recover, deref, context, do_find_group,
}
use keycloak_config_sync_ope.Directory.Roles.{is_some, keys, unclaimed}

pub record UserClientRole : Type 0 where
  pub client_id : String
  pub roles : List String

-- `parent_group` is the name in the reference to the parent.
pub record Group : Type 0 where
  pub name : String
  pub description : String
  pub path : String
  pub attributes : Dict (List String)
  pub realm_roles : List String
  pub sub_groups : List String
  pub parent_group : Option String
  pub client_roles : List UserClientRole

-- The body of a request that makes a group.
abbrev pub new_group : Group → GroupRep
new_group group = record {
  id = none;
  name = some group.name;
  description = some group.description;
  path = some group.path;
  attributes = some group.attributes;
  rest = [];
}

-- The group of Keycloak with the description, path and attributes of the spec.
abbrev pub updated_group : Group → GroupRep → GroupRep
updated_group group existing = record existing {
  description = some group.description;
  path = some group.path;
  attributes = some group.attributes;
}

-- A search: none where Keycloak does not know the group; a group that is found may be a nil
-- pointer, which the handlers follow.
abbrev pub found : Result (Option GroupRep) → Result (Option (Option GroupRep))
found (ok answer) = ok (some answer)
found (err e) = if is_not_found e then ok none else err e

module _ (api : Api) (realm : String) where
  abbrev pub do_create_group : GroupRep → Act Session (Option String)
  do_create_group rep = ask (create_group realm rep) (λ h. api.on_create_group h realm rep)

  abbrev pub do_create_child_group : String → GroupRep → Act Session (Option String)
  do_create_child_group parent rep =
      ask (create_child_group realm parent rep) (λ h. api.on_create_child_group h realm parent rep)

  module _ (parent_group_id : String) (group : Group) where
    unfoldable pub search_group : Act Session (Option GroupRep)
    search_group =
        if parent_group_id == ""
        then do_find_group api realm group.name
        else ask (find_child_group realm parent_group_id group.name)
            (λ h. api.on_find_child_group h realm parent_group_id group.name)

    unfoldable pub make_group : Act Session (Unit {0})
    unfolding resource_id
    make_group = do
      location ← wrap "unable to create group %q: %w" (group.name ∷ []) (
          if parent_group_id == ""
          then do_create_group (new_group group)
          else do_create_child_group parent_group_id (new_group group))
      set_id (resource_id api.urls location)

    unfoldable pub change_group : Option GroupRep → Act Session (Unit {0})
    change_group answer = do
      existing ← deref answer
      id ← deref existing.id
      set_id id
      wrap "unable to update group %q: %w" (group.name ∷ []) (
          ask (update_group realm id (updated_group group existing))
            (λ h. api.on_update_group h realm id (updated_group group existing)))

    -- `CreateOrUpdateGroup`
    unfoldable pub create_or_update : Act Session (Unit {0})
    unfolding search_group make_group change_group
    create_or_update = do
      answer ←
          wrap "unable to search for group %q: %w" (group.name ∷ []) (recover found search_group)
      on_option answer make_group change_group

  -- The entries of a list of groups, by name.
  group_map : List GroupRep → Dict GroupRep → Dict GroupRep
  group_map [] m = m
  group_map (g ∷ gs) m = elim g.name [
    | none ↦ group_map gs m
    | some name ↦ group_map gs (Dict.insert name g m)
  ]

  -- A claimed sub group that cannot be found.
  refuse_sub_group : String → Result (Option GroupRep) → Result (Option GroupRep)
  refuse_sub_group name (ok answer) = ok answer
  refuse_sub_group name (err e) =
      if is_not_found e
      then err (errorf "subgroup %q not found in realm %q" (name ∷ realm ∷ []))
      else err (wrapf "unable to find subgroup %q: %w" (name ∷ []) e)

  module _ (group_id : String) where
    unfoldable pub add_sub_groups : Dict GroupRep → List String → Act Session (Unit {0})
    unfolding refuse_sub_group
    add_sub_groups current [] = pure tt
    add_sub_groups current (name ∷ names) =
        let rest = add_sub_groups current names in
        if is_some (Dict.lookup name current) then rest else do
          answer ← recover (refuse_sub_group name) (do_find_group api realm name)
          sub_group ← deref answer
          location ←
              wrap "unable to add subgroup %q: %w" (name ∷ [])
                (do_create_child_group group_id sub_group)
          rest

    -- The loop over the keys of the map.
    unfoldable pub detach_sub_groups :
        List String → Dict GroupRep → List String → Act Session (Unit {0})
    detach_sub_groups claimed current [] = pure tt
    detach_sub_groups claimed current (name ∷ names) =
        let rest = detach_sub_groups claimed current names in
        if contains name claimed
        then rest
        else on_option (Dict.lookup name current) rest (λ child.
          wrap "unable to detach subgroup %q: %w" (name ∷ []) (do_create_group child)
          >>= (λ location. rest))

    -- `SyncSubGroups`
    unfoldable pub sync_sub_groups : List String → Act Session (Unit {0})
    unfolding group_map add_sub_groups detach_sub_groups
    sync_sub_groups [] = pure tt
    sync_sub_groups (name ∷ names) = do
      children ←
          wrap "unable to get child groups: %w" []
            (ask (child_groups realm group_id) (λ h. api.on_child_groups h realm group_id))
      add_sub_groups (group_map children []) (name ∷ names)
      detach_sub_groups (name ∷ names) (group_map children [])
          (api.key_order (keys (group_map children [])))
