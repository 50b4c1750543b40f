-- ===== src/Users/Memberships.antt =====
-- sync_user_groups.go of the chain of the users.
use Prim.Native.Char.{code}
use keycloak_config_sync_ope.Base.{
  nat_eq, Bool, false, Option, none, some, List, [], ◌∷◌, map, String, if◌then◌else◌, ◌==◌,
  contains, errorf, wrapf, Result, ok, err, Act, pure, fail, ◌>>=◌, ◌>>◌, wrap,
}
use keycloak_config_sync_ope.Base.Dict
use keycloak_config_sync_ope.Base.Dict.{Dict}
use keycloak_config_sync_ope.Keycloakv2.{is_not_found}
use keycloak_config_sync_ope.Directory.{
  GroupRep, get_group_by_path, user_groups, join_group, leave_group, Api, Session, ask, on_option,
  recover, deref, do_find_group,
}
use keycloak_config_sync_ope.Directory.Roles.{is_some, keys}
use keycloak_config_sync_ope.Users.{KeycloakUserSpec, is_reconciliation_strategy_add_only}

pub record ResolvedGroup : Type 0 where
  pub id : String
  pub name : String
  pub path : String

-- `strings.HasPrefix(g, "/")`
unfoldable pub starts_with_slash : String → Bool
starts_with_slash String.[] = false
starts_with_slash (String.◌∷◌ c s) = nat_eq (code c) b'/'

-- `label`
unfoldable pub label : ResolvedGroup → String
label g = if g.path == "" then g.name else g.path

-- A group that cannot be found by its name.
unfoldable pub refuse_group : String → Result (Option GroupRep) → Result (Option GroupRep)
refuse_group name (ok answer) = ok answer
refuse_group name (err e) =
    if is_not_found e
    then err (errorf "group not found by name %q" (name ∷ []))
    else err (wrapf "unable to find group by name %q: %w" (name ∷ []) e)

-- `grp == nil || grp.Id == nil`
abbrev pub group_id : Option GroupRep → Option String
group_id none = none
group_id (some g) = g.id

-- The map of the groups by their IDs.
unfoldable pub by_id : List GroupRep → Dict GroupRep → Dict GroupRep
by_id [] m = m
by_id (g ∷ gs) m = elim g.id [ none ↦ by_id gs m | some id ↦ by_id gs (Dict.insert id g m) ]

-- The text for a group that is left.
abbrev pub group_label : String → GroupRep → String
group_label id g = elim g.name [ none ↦ id | some name ↦ name ]

-- `len(user.Spec.Groups) == 0 && user.IsReconciliationStrategyAddOnly()`
abbrev pub has_nothing_to_add : Bool → List String → Bool
has_nothing_to_add add_only [] = add_only
has_nothing_to_add add_only (g ∷ gs) = false

module _ (api : Api) (realm : String) where
  unfoldable pub resolve_group : String → Act Session ResolvedGroup
  unfolding refuse_group starts_with_slash
  resolve_group g =
      if starts_with_slash g
      then (wrap "unable to get group by path %q: %w" (g ∷ [])
            (ask (get_group_by_path realm g) (λ h. api.on_get_group_by_path h realm g))
          >>= (λ answer.
              on_option (group_id answer) (fail (errorf "group not found by path %q" (g ∷ [])))
                (λ id. pure (record { id = id; name = ""; path = g }))))
      else (recover (refuse_group g) (do_find_group api realm g) >>= (λ answer.
          deref answer
          >>= (λ group. deref group.id >>= (λ id. pure (record { id = id; name = g; path = "" })))))

  unfoldable pub resolve_groups : List String → Act Session (List ResolvedGroup)
  unfolding resolve_group
  resolve_groups [] = pure []
  resolve_groups (g ∷ gs) = do
    resolved ← resolve_group g
    rest ← resolve_groups gs
    pure (resolved ∷ rest)

  module _ (user_id : String) where
    unfoldable pub join_groups : Dict GroupRep → List ResolvedGroup → Act Session (Unit {0})
    unfolding label
    join_groups current [] = pure tt
    join_groups current (g ∷ gs) =
        let rest = join_groups current gs in
        if is_some (Dict.lookup g.id current)
        then rest
        else wrap "unable to add user to group %q (id %s): %w" (label g ∷ g.id ∷ [])
            (ask (join_group realm user_id g.id) (λ h. api.on_join_group h realm user_id g.id))
          >> rest

    -- The loop over the keys of the map.
    unfoldable pub leave_groups : List String → Dict GroupRep → List String → Act Session (Unit {0})
    leave_groups desired current [] = pure tt
    leave_groups desired current (id ∷ ids) =
        let rest = leave_groups desired current ids in
        if contains id desired
        then rest
        else on_option (Dict.lookup id current) rest (λ g.
          wrap "unable to remove user from group %q (id %s): %w" (group_label id g ∷ id ∷ [])
            (ask (leave_group realm user_id id) (λ h. api.on_leave_group h realm user_id id))
          >> rest)

    -- What follows the listing of the groups.
    unfoldable pub sync_memberships : Bool → List String → List GroupRep → Act Session (Unit {0})
    unfolding resolve_groups join_groups leave_groups by_id
    sync_memberships add_only groups current = do
      desired ← resolve_groups groups
      join_groups (by_id current []) desired
      if add_only
          then pure tt
          else leave_groups (map (λ g. g.id) desired) (by_id current [])
              (api.key_order (keys (by_id current [])))

    unfoldable pub sync_groups_of : Bool → List String → Act Session (Unit {0})
    unfolding sync_memberships
    sync_groups_of add_only groups = if has_nothing_to_add add_only groups then pure tt else do
      current ←
          wrap "unable to get user groups: %w" []
            (ask (user_groups realm user_id) (λ h. api.on_user_groups h realm user_id))
      sync_memberships add_only groups current

  -- `SyncUserGroups`
  unfoldable pub sync_user_groups : KeycloakUserSpec → Act Session (Unit {0})
  unfolding sync_groups_of is_reconciliation_strategy_add_only
  sync_user_groups spec s =
      sync_groups_of s.id (is_reconciliation_strategy_add_only spec) spec.groups s
