-- ===== src/Groups/Settled.antt =====
-- A group that has the roles of the spec already.
use keycloak_config_sync_ope.Base.{
  ◌≡◌, refl, ◌∙◌, sym, true, List, [], ◌∷◌, arith, String, ==_refl, contains, ok, Act,
}
use keycloak_config_sync_ope.Base.Dict
use keycloak_config_sync_ope.Base.Dict.{Dict}
use keycloak_config_sync_ope.Directory.{RoleRep, group_realm, list_roles, Api, Session}
use keycloak_config_sync_ope.Directory.Roles.{
  by_name, is_some, keys, unclaimed, fetch_missing, apply_diff,
}
use keycloak_config_sync_ope.Directory.Roles.Naming.{role_names, contains-keys, by_name-names}
use keycloak_config_sync_ope.Groups.Roles.{fetch_realm_role, sync_realm_roles}

fetch_missing_known :
    (fetch : String → Act Session RoleRep) (current : Dict RoleRep) (claimed : List String)
    (s : Session)
    → ((n : String) → contains n claimed ≡ true → is_some (Dict.lookup n current) ≡ true)
    → fetch_missing fetch current claimed s ≡ (ok [], s)
unfolding fetch_missing
fetch_missing_known fetch current [] s known = refl
fetch_missing_known fetch current (n ∷ ns) s known =
    rw (known n (let self = ==_refl n in ground arith))
      (fetch_missing_known fetch current ns s (λ m listed. known m (ground arith)))

unclaimed_none :
    {V : Type 0} (claimed : List String) (m : Dict V) (ks : List String)
    → ((k : String) → contains k ks ≡ true → contains k claimed ≡ true)
    → unclaimed claimed m ks ≡ []
unfolding unclaimed
unclaimed_none claimed m [] listed = refl
unclaimed_none claimed m (k ∷ ks) listed =
    rw (listed k (let self = ==_refl k in ground arith))
      (unclaimed_none claimed m ks (λ j in_ks. listed j (ground arith)))

-- Where a map is visited at all its keys and the names that are listed are those of the spec, a run
-- succeeds and makes no call but the listing.
pub sync_realm_roles_settled :
    (api : Api)
    (visits : (ks : List String) (k : String) → contains k (api.key_order ks) ≡ contains k ks)
    (realm group_id : String) (claimed : List String) (s : Session) (current : List RoleRep)
    → api.on_list_roles s.calls (group_realm realm group_id) ≡ ok current
    → ((n : String) → contains n (role_names current) ≡ contains n claimed)
    → sync_realm_roles api realm group_id claimed s
      ≡ (ok tt, record s { calls = list_roles (group_realm realm group_id) ∷ s.calls })
unfolding sync_realm_roles apply_diff
sync_realm_roles_settled api visits realm group_id claimed s current listed agree =
    let s' : Session = record s { calls = list_roles (group_realm realm group_id) ∷ s.calls } in
    let known =
      fetch_missing_known (fetch_realm_role api realm) (by_name current) claimed s'
        (λ n asked. by_name-names n current ∙ agree n ∙ asked) in
    let kept =
      unclaimed_none claimed (by_name current) (api.key_order (keys (by_name current)))
        (λ k visited.
          sym (agree k)
          ∙ sym (by_name-names k current)
          ∙ sym (contains-keys k (by_name current))
          ∙ sym (visits (keys (by_name current)) k)
          ∙ visited) in
    rw (listed) (rw (known) (rw (kept) refl))
