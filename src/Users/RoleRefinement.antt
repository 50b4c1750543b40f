-- ===== src/Users/RoleRefinement.antt =====
-- The roles of a user after the handler that gives roles to it.
use keycloak_config_sync_ope.Base.{
  ◌≡◌, refl, ◌∙◌, inl, inr, Bool, true, false, not, ◌&&◌, ◌||◌, some, List, [], ◌∷◌, arith, String,
  Bool-cases, Option-cases, contains, ok, sentinel, Act,
}
use keycloak_config_sync_ope.Base.{nil_dereference}
use keycloak_config_sync_ope.Directory.{
  RoleRep, Holder, user_realm, Source, in_realm, Call, list_roles, Api, Session,
}
use keycloak_config_sync_ope.Directory.Roles.{by_name, is_extra, apply_diff}
use keycloak_config_sync_ope.Directory.Roles.Naming.{role_names, by_name-names}
use keycloak_config_sync_ope.Directory.Roles.Refinement.{is_held, IsFetch, apply_diff-is_held}
use keycloak_config_sync_ope.Groups.RoleRefinement.{checked_role-IsFetch}
use keycloak_config_sync_ope.Users.Roles.{extra_roles, fetch_realm_role, sync_realm_roles}

-- What a run leaves: the roles of the spec, and without removals those that there were.
abbrev pub wanted : Bool → Bool → Bool → Bool
wanted add_only had claimed = claimed || add_only && had

extra_roles-names :
    (add_only : Bool) (name : String) (current : List RoleRep) (desired : List String)
    → contains name (role_names (extra_roles add_only current desired))
      ≡ (not add_only && contains name (role_names current) && not (contains name desired))
unfolding extra_roles
extra_roles-names true name current desired = refl
extra_roles-names false name [] desired = refl
extra_roles-names false name (r ∷ rs) desired =
    let rest = extra_roles-names false name rs desired in
    elim (Option-cases r.name) [
      | inl nil ↦ rw (nil) rest
      | inr (n, named) ↦
          let extra : is_extra desired r.name ≡ not (contains n desired) = rw (named) refl in
          elim (Bool-cases (contains n desired)) [
            | inl known ↦ rw (extra) (rw (known) (rw (named) (grind arith)))
            | inr unknown ↦ rw (extra) (rw (unknown) (rw (named) (grind arith)))
          ]
    ]

module _ (api : Api)
    (named : (h : List Call) (source : Source) (asked : String) (r : RoleRep)
      → api.on_get_role h source asked ≡ ok (some r)
      → r.name ≡ some asked)
    (name : String) (start : Bool) where
  diff-is_held :
      (holder : Holder) (fetch : String → Act Session RoleRep) (f g : String) (args : List String)
      (current : List RoleRep) (desired : List String) (add_only : Bool) (s : Session)
      → IsFetch api holder name start fetch
      → is_held holder name start s.calls ≡ contains name (role_names current)
      → (apply_diff api fetch holder f g args
          (by_name current)
          desired
          (extra_roles add_only current desired)
          s).0
        ≡ ok tt
      → is_held holder name start
          (apply_diff api fetch holder f g args
            (by_name current)
            desired
            (extra_roles add_only current desired)
            s).1.calls
        ≡ wanted add_only (contains name (role_names current)) (contains name desired)
  diff-is_held holder fetch f g args current desired add_only s fetches told h =
      apply_diff-is_held api holder name start fetch f g args (by_name current) desired
        (extra_roles add_only current desired) s fetches h
      ∙ rw (extra_roles-names add_only name current desired)
          (rw (by_name-names name current) (rw (told) (ground arith)))

  -- Where a role that is fetched has the name that was asked for, and the listing of the roles tells
  -- what the requests so far have made of them, a successful run leaves the user with the realm
  -- roles of the spec and, if roles are only added, with those that the user had.
  pub sync_user_realm_roles-is_held :
      (realm user_id : String) (desired : List String) (add_only : Bool) (s : Session)
      (current : List RoleRep)
      → api.on_list_roles s.calls (user_realm realm user_id) ≡ ok current
      → is_held (user_realm realm user_id) name start s.calls ≡ contains name (role_names current)
      → (sync_realm_roles api realm user_id desired add_only s).0 ≡ ok tt
      → is_held
          (user_realm realm user_id)
          name
          start
          (sync_realm_roles api realm user_id desired add_only s).1.calls
        ≡ wanted add_only (contains name (role_names current)) (contains name desired)
  unfolding sync_realm_roles fetch_realm_role
  sync_user_realm_roles-is_held realm user_id desired add_only s current listed told h =
      let holder = user_realm realm user_id in
      let fetches =
        checked_role-IsFetch api named name start holder (in_realm realm)
          "unable to get realm role %q: %w" (λ asked. asked ∷ [])
          (λ asked. sentinel nil_dereference) in
      rw (listed) (
        diff-is_held holder (fetch_realm_role api realm) "unable to add realm roles to user: %w"
          "unable to delete realm roles from user: %w" [] current desired add_only
          (record s { calls = list_roles holder ∷ s.calls }) fetches told (rw (listed) at h))
