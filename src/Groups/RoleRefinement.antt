-- ===== src/Groups/RoleRefinement.antt =====
-- The roles of a group after the handlers that give roles to it.
use keycloak_config_sync_ope.Base.{
  ◌≡◌, refl, ap, ◌∙◌, inl, inr, Bool, not, ◌&&◌, some, List, [], ◌∷◌, arith, String, Option-cases,
  contains, Err, errorf, ok, Result-cases, ok-injective, Act, fail, ◌>>=◌, wrap,
}
use keycloak_config_sync_ope.Base.Dict.{Dict}
use keycloak_config_sync_ope.Directory.{
  RoleRep, ClientMappings, Holder, group_realm, group_client, Source, in_realm, in_client, Call,
  list_roles, Api, Session, if_nil, do_get_role,
}
use keycloak_config_sync_ope.Directory.Roles.{by_name, keys, apply_diff}
use keycloak_config_sync_ope.Directory.Roles.Naming.{
  role_names, contains-keys, by_name-names, by_name-IsKeyed, unclaimed-names,
}
use keycloak_config_sync_ope.Directory.Roles.Refinement.{is_held, IsFetch, apply_diff-is_held}
use keycloak_config_sync_ope.Groups.Roles.{
  client_state, fetch_realm_role, fetch_client_role, to_remove, sync_realm_roles,
  sync_one_client_roles,
}

module _ (api : Api)
    (named : (h : List Call) (source : Source) (asked : String) (r : RoleRep)
      → api.on_get_role h source asked ≡ ok (some r)
      → r.name ≡ some asked)
    (name : String) (start : Bool) where
  pub checked_role-IsFetch :
      (holder : Holder) (source : Source) (f : String) (args : String → List String)
      (missing : String → Err)
      → IsFetch api holder name start (λ asked.
        wrap f (args asked) (do_get_role api source asked) >>= if_nil (fail (missing asked)))
  checked_role-IsFetch holder source f args missing asked s =
      elim (Result-cases (api.on_get_role s.calls source asked)) [
        | inr (e, refused) ↦ rw (refused) (refl, λ r same. cc)
        | inl (answer, accepted) ↦ elim (Option-cases answer) [
          | inl nil ↦ rw (accepted) (rw (nil) (refl, λ r same. cc))
          | inr (r, some_r) ↦ rw (accepted) (
              rw (some_r) (
                refl,
                λ r' same.
                    rw⁻¹ (ok-injective same)
                      (named s.calls source asked r (accepted ∙ ap ok some_r)),
              ))
        ]
      ]

module _ (api : Api)
    (named : (h : List Call) (source : Source) (asked : String) (r : RoleRep)
      → api.on_get_role h source asked ≡ ok (some r)
      → r.name ≡ some asked)
    (visits : (ks : List String) (k : String) → contains k (api.key_order ks) ≡ contains k ks)
    (name : String) (start : Bool) where
  to_remove-names :
      (current : List RoleRep) (claimed : List String)
      → contains name (role_names (to_remove api current claimed))
        ≡ (contains name (role_names current) && not (contains name claimed))
  to_remove-names current claimed =
      unclaimed-names name claimed (by_name current) (api.key_order (keys (by_name current)))
        (by_name-IsKeyed current)
      ∙ rw (visits (keys (by_name current)) name)
          (rw (contains-keys name (by_name current)) (rw (by_name-names name current) ground arith))

  diff-is_held :
      (holder : Holder) (fetch : String → Act Session RoleRep) (f g : String) (args : List String)
      (current : List RoleRep) (claimed : List String) (s : Session)
      → IsFetch api holder name start fetch
      → is_held holder name start s.calls ≡ contains name (role_names current)
      → (apply_diff api fetch holder f g args
          (by_name current)
          claimed
          (to_remove api current claimed)
          s).0
        ≡ ok tt
      → is_held holder name start
          (apply_diff api fetch holder f g args
            (by_name current)
            claimed
            (to_remove api current claimed)
            s).1.calls
        ≡ contains name claimed
  diff-is_held holder fetch f g args current claimed s fetches told h =
      apply_diff-is_held api holder name start fetch f g args (by_name current) claimed
        (to_remove api current claimed) s fetches h
      ∙ rw (to_remove-names current claimed)
          (rw (by_name-names name current) (rw (told) (ground arith)))

  -- Where a role that is fetched has the name that was asked for, a map is visited at all its keys,
  -- and the listing of the roles tells what the requests so far have made of them, a successful run
  -- leaves the group with exactly the realm roles of the spec.
  pub sync_realm_roles-is_held :
      (realm group_id : String) (claimed : List String) (s : Session) (current : List RoleRep)
      → api.on_list_roles s.calls (group_realm realm group_id) ≡ ok current
      → is_held (group_realm realm group_id) name start s.calls ≡ contains name (role_names current)
      → (sync_realm_roles api realm group_id claimed s).0 ≡ ok tt
      → is_held
          (group_realm realm group_id)
          name
          start
          (sync_realm_roles api realm group_id claimed s).1.calls
        ≡ contains name claimed
  unfolding sync_realm_roles fetch_realm_role
  sync_realm_roles-is_held realm group_id claimed s current listed told h =
      let holder = group_realm realm group_id in
      let fetches =
        checked_role-IsFetch api named name start holder (in_realm realm)
          "unable to get realm role %q: %w" (λ asked. asked ∷ [])
          (λ asked. errorf "realm role %q not found in realm %q" (asked ∷ realm ∷ [])) in
      rw (listed) (
        diff-is_held holder (fetch_realm_role api realm) "unable to add realm role mappings: %w"
          "unable to delete realm role mappings: %w" [] current claimed
          (record s { calls = list_roles holder ∷ s.calls }) fetches told (rw (listed) at h))

  -- Likewise for the roles of one client, whose state is read first.
  pub sync_one_client_roles-is_held :
      (realm group_id : String) (mappings : Dict ClientMappings) (client_id uuid : String)
      (current : List RoleRep) (claimed : List String) (s : Session)
      → (client_state api realm mappings client_id s).0 ≡ ok (uuid, current)
      → is_held
          (group_client realm group_id uuid)
          name
          start
          (client_state api realm mappings client_id s).1.calls
        ≡ contains name (role_names current)
      → (sync_one_client_roles api realm group_id mappings client_id claimed s).0 ≡ ok tt
      → is_held
          (group_client realm group_id uuid)
          name
          start
          (sync_one_client_roles api realm group_id mappings client_id claimed s).1.calls
        ≡ contains name claimed
  unfolding sync_one_client_roles fetch_client_role
  sync_one_client_roles-is_held realm group_id mappings client_id uuid current claimed s known told
        h =
      let holder = group_client realm group_id uuid in
      let fetches =
        checked_role-IsFetch api named name start holder (in_client realm uuid)
          "unable to get client role %q: %w" (λ asked. asked ∷ [])
          (λ asked.
            errorf "client role %q not found for client %q in realm %q"
              (asked ∷ client_id ∷ realm ∷ [])) in
      rw (known) (
        diff-is_held holder (fetch_client_role api realm client_id uuid)
          "unable to add client role mappings: %w" "unable to delete client role mappings: %w" []
          current claimed (client_state api realm mappings client_id s).1 fetches told
          (rw (known) at h))
