-- ===== src/Groups/Served.antt =====
-- What the chain of the groups does, for every answer of Keycloak.
use keycloak_config_sync_ope.Base.{
  suc, ◌+◌, ◌*◌, ◌≤◌, ◌≡◌, inl, inr, true, List, [], ◌∷◌, ◌++◌, arith, String, ==_refl, contains,
  listed_in, length, All, Result, Extends, same, Extends-map, Result-cases, pure, ◌>>=◌, ◌>>◌,
}
use keycloak_config_sync_ope.Flush
use keycloak_config_sync_ope.Flush.{flush_groups, delete_item, update_status}
use keycloak_config_sync_ope.Flush.Strategy.{RealmSpec}
use keycloak_config_sync_ope.Flush.Safety.{IsAllowed, flush_groups-Extends}
use keycloak_config_sync_ope.Directory.{Call, new_client, Api, Session, ask, set_id}
use keycloak_config_sync_ope.Directory.Requests.{IsFor, Makes, makes}
use keycloak_config_sync_ope.Directory.Renewals.{
  IsServed, renewals, IsBounded, Makes-IsBounded, >>=-IsBounded, run_handlers-IsBounded,
}
use keycloak_config_sync_ope.Directory.Chain.{run_handlers}
use keycloak_config_sync_ope.AuthFlow.Cluster.{Cluster}
use keycloak_config_sync_ope.Groups.{Group}
use keycloak_config_sync_ope.Groups.Requests.{
  create_or_update-Makes, sync_realm_roles-Makes, sync_client_roles-Makes, sync_sub_groups-Makes,
}
use keycloak_config_sync_ope.Groups.Chain.{
  handlers, get_parent_group_id, make_strings, get_id, ChainState, serve_group, serve_groups,
  serve_sorted,
}

handlers-Makes :
    (realm parent : String) (group : Group)
    → All (λ handler. (a : Api) → Makes (IsFor realm) (handler a)) (handlers realm parent group)
unfolding handlers Makes
handlers-Makes realm parent group = (
  λ a. create_or_update-Makes a realm parent group,
  (
    λ a s. sync_realm_roles-Makes a realm s.id group.realm_roles s,
    (
      λ a s. sync_client_roles-Makes a realm s.id group.client_roles s,
      (λ a s. sync_sub_groups-Makes a realm s.id group.sub_groups s, tt),
    ),
  ),
)

get_parent_group_id-Makes :
    (api : Api) (realm : String) (group : Group)
    → Makes (IsFor realm) (get_parent_group_id api realm group)
unfolding get_parent_group_id
get_parent_group_id-Makes api realm group = search makes depth 12

get_id-Makes : (realm : String) → Makes (IsFor realm) get_id
unfolding Makes
get_id-Makes realm s = same

-- The call of a flush that saves the status saves an empty ID.
abbrev pub SavesBlank : Flush.Call → Type 0
SavesBlank (update_status ids) = contains "" ids ≡ true
SavesBlank (delete_item r id) = Unit

saves_blank :
    (realm : String) (ids current : List String) (c : Flush.Call)
    → contains "" current ≡ true
    → IsAllowed realm ids current c
    → SavesBlank c
saves_blank realm ids current (update_status new) blank h = listed_in "" current new h.1 blank
saves_blank realm ids current (delete_item r id) blank h = tt

module _ (cluster : Cluster) (refresh : List Call → Result Api) (api : Api) (realm : String) where
  serve_group-IsBounded :
      (group : Group) → IsBounded realm 4 (serve_group cluster refresh api realm group)
  unfolding serve_group
  serve_group-IsBounded group =
      >>=-IsBounded realm 0 4 4 (get_parent_group_id api realm group)
        (λ parent.
          set_id ""
          >> run_handlers cluster (ask new_client refresh) (handlers realm parent group) api
          >> get_id)
        (omega arith)
        (Makes-IsBounded realm (get_parent_group_id api realm group)
          (get_parent_group_id-Makes api realm group))
        (λ parent.
          >>=-IsBounded realm 4 0 4
            (set_id ""
              >> run_handlers cluster (ask new_client refresh) (handlers realm parent group) api)
            (λ _. get_id) (omega arith)
            (>>=-IsBounded realm 0 4 4 (set_id "")
              (λ _. run_handlers cluster (ask new_client refresh) (handlers realm parent group) api)
              (omega arith) (Makes-IsBounded realm (set_id "") (search makes))
              (λ _.
                run_handlers-IsBounded realm cluster refresh (handlers realm parent group) api
                  (handlers-Makes realm parent group)))
            (λ _. Makes-IsBounded realm get_id (get_id-Makes realm)))

  all_groups-IsBounded :
      (groups : List Group)
      → IsBounded realm (4 * length groups) (serve_groups cluster refresh api realm groups)
  unfolding serve_groups IsBounded
  all_groups-IsBounded [] s = (same, omega arith)
  all_groups-IsBounded (g ∷ gs) s =
      >>=-IsBounded realm 4 (4 * length gs) (4 * suc (length gs))
        (serve_group cluster refresh api realm g)
        (λ id. serve_groups cluster refresh api realm gs >>= (λ ids. pure (id ∷ ids))) (omega arith)
        (serve_group-IsBounded g)
        (λ id.
          >>=-IsBounded realm (4 * length gs) 0 (4 * length gs)
            (serve_groups cluster refresh api realm gs) (λ ids. pure (id ∷ ids)) (omega arith)
            (all_groups-IsBounded gs)
            (λ ids. Makes-IsBounded realm (pure (id ∷ ids)) (search makes)))
        s

  -- Whatever is answered, the requests for the groups are all for the realm of the spec, and a new
  -- client is made at most four times for each group.
  pub serve_groups-Extends :
      (groups : List Group) (s : Session)
      → Extends (IsServed realm) s.calls (serve_groups cluster refresh api realm groups s).1.calls
        × (renewals (serve_groups cluster refresh api realm groups s).1.calls
            ≤ 4 * length groups + renewals s.calls)
  unfolding IsBounded
  serve_groups-Extends groups s = all_groups-IsBounded groups s

  -- For a realm that lists a group, whatever is answered, each status that the chain saves has an
  -- empty ID.
  pub serve_sorted_blank :
      (flush_api : Flush.Api) (spec : RealmSpec) (group : Group) (groups sorted : List Group)
      (s : ChainState)
      → Extends SavesBlank s.flush.calls
          (serve_sorted cluster refresh api realm flush_api spec
            (group ∷ groups)
            sorted
            s).1.flush.calls
  unfolding serve_sorted make_strings
  serve_sorted_blank flush_api spec group groups sorted s =
      elim (Result-cases (serve_groups cluster refresh api realm sorted s.session).0) [
        | inr (e, failed) ↦ rw (failed) same
        | inl (ids, served) ↦ rw (served) (
            Extends-map
              (λ c.
                saves_blank spec.realm_name s.flush.ids ("" ∷ make_strings groups ++ ids) c
                  (let self = ==_refl "" in ground arith))
              (flush_groups-Extends flush_api spec ("" ∷ make_strings groups ++ ids) s.flush))
      ]
