-- ===== src/Users/MembershipRefinement.antt =====
-- The groups of a user after the handler that brings it into groups.
use keycloak_config_sync_ope.Base.{
  ◌≡◌, refl, false, ap, ◌∙◌, inl, inr, Bool, true, not, ◌&&◌, ◌||◌, List, [], ◌∷◌, map, arith,
  String, if◌then◌else◌, Bool-cases, Option-cases, ◌==◌, ==_refl, contains, ok, Extends, same, more,
  Result-cases, Act, pure,
}
use keycloak_config_sync_ope.Base.Runs.{parts->>=}
use keycloak_config_sync_ope.Base.Dict
use keycloak_config_sync_ope.Base.Dict.{Dict}
use keycloak_config_sync_ope.Directory.{
  GroupRep, Call, join_group, leave_group, user_groups, Api, Session,
}
use keycloak_config_sync_ope.Directory.Roles.{is_some, cons_some, keys}
use keycloak_config_sync_ope.Directory.Roles.Naming.{contains-keys}
use keycloak_config_sync_ope.Directory.Requests.{Makes, makes}
use keycloak_config_sync_ope.Users.RoleRefinement.{wanted}
use keycloak_config_sync_ope.Users.Memberships.{
  resolve_group, sync_groups_of, ResolvedGroup, by_id, resolve_groups, join_groups, leave_groups,
  sync_memberships,
}
use keycloak_config_sync_ope.Users.GroupsFound.{AreFound, resolve_groups-AreFound}

-- What one accepted request makes of the membership in the group with an ID.
abbrev pub after_request : String → String → String → Call → Bool → Bool
after_request realm user id (join_group r u g) member =
    if r == realm && u == user && g == id then true else member
after_request realm user id (leave_group r u g) member =
    if r == realm && u == user && g == id then false else member
after_request realm user id _ member = member

-- Whether the user is in the group after the calls, if it was at the start.
abbrev pub is_member : String → String → String → Bool → List Call → Bool
is_member realm user id start [] = start
is_member realm user id start (c ∷ calls) =
    after_request realm user id c (is_member realm user id start calls)

abbrev pub group_ids : List GroupRep → List String
group_ids [] = []
group_ids (g ∷ gs) = cons_some g.id (group_ids gs)

by_id-ids :
    (id : String) (gs : List GroupRep) (m : Dict GroupRep)
    → is_some (Dict.lookup id (by_id gs m))
      ≡ (is_some (Dict.lookup id m) || contains id (group_ids gs))
unfolding by_id
by_id-ids id [] m = ground arith
by_id-ids id (g ∷ gs) m = elim (Option-cases g.id) [
  | inl nil ↦ rw (nil) (by_id-ids id gs m)
  | inr (n, known) ↦
      let rest = by_id-ids id gs (Dict.insert n g m) in
      let stored = Dict.lookup-insert m n id g in rw (known) (grind arith)
]

module _ (api : Api) (realm user id : String) (start : Bool) where
  join_groups-is_member :
      (current : Dict GroupRep) (desired : List ResolvedGroup) (s : Session)
      → (join_groups api realm user current desired s).0 ≡ ok tt
      → is_member realm user id start (join_groups api realm user current desired s).1.calls ≡ (
          is_member realm user id start s.calls
          || contains id (map (λ g. g.id) desired) && not (is_some (Dict.lookup id current)))
  unfolding join_groups
  join_groups-is_member current [] s h = ground arith
  join_groups-is_member current (g ∷ gs) s h =
      let s' : Session = record s { calls = join_group realm user g.id ∷ s.calls } in
      let here = ==_refl realm in
      let self = ==_refl user in
      elim (Bool-cases (is_some (Dict.lookup g.id current))) [
        | inl known ↦
            let rest = join_groups-is_member current gs s (rw (known) at h) in
            rw (known) (grind arith)
        | inr unknown ↦ elim (Result-cases (api.on_join_group s.calls realm user g.id)) [
          | inr (e, refused) ↦ cc (rw (refused) at (rw (unknown) at h))
          | inl (a, accepted) ↦
              let now : is_member realm user id start s'.calls
                  ≡ (g.id == id || is_member realm user id start s.calls) =
                rw (here) (rw (self) (ground arith)) in
              let joined : (is_member realm user id start s'.calls
                    || contains id (map (λ g. g.id) gs) && not (is_some (Dict.lookup id current)))
                  ≡ (is_member realm user id start s.calls
                      || contains id (map (λ g. g.id) (g ∷ gs))
                        && not (is_some (Dict.lookup id current))) =
                rw (now) (grind arith) in
              let rest =
                join_groups-is_member current gs s' (rw (accepted) at (rw (unknown) at h)) in
              rw (unknown) (rw (accepted) (rest ∙ joined))
        ]
      ]

  leave_groups-is_member :
      (desired : List String) (current : Dict GroupRep) (ids : List String) (s : Session)
      → (leave_groups api realm user desired current ids s).0 ≡ ok tt
      → is_member realm user id start (leave_groups api realm user desired current ids s).1.calls
        ≡ (is_member realm user id start s.calls
            && not
                (contains id ids && is_some (Dict.lookup id current) && not (contains id desired)))
  unfolding leave_groups
  leave_groups-is_member desired current [] s h = ground arith
  leave_groups-is_member desired current (g ∷ gs) s h =
      let s' : Session = record s { calls = leave_group realm user g ∷ s.calls } in
      let here = ==_refl realm in
      let self = ==_refl user in
      elim (Bool-cases (contains g desired)) [
        | inl known ↦
            let rest = leave_groups-is_member desired current gs s (rw (known) at h) in
            rw (known) (grind arith)
        | inr unknown ↦ elim (Option-cases (Dict.lookup g current)) [
          | inl gone ↦
              let rest =
                leave_groups-is_member desired current gs s (rw (gone) at (rw (unknown) at h)) in
              rw (unknown) (rw (gone) (grind arith))
          | inr (rep, listed) ↦ elim (Result-cases (api.on_leave_group s.calls realm user g)) [
            | inr (e, refused) ↦ cc (rw (refused) at (rw (listed) at (rw (unknown) at h)))
            | inl (a, accepted) ↦
                let now : is_member realm user id start s'.calls
                    ≡ (not (g == id) && is_member realm user id start s.calls) =
                  rw (here) (rw (self) (ground arith)) in
                let left : (is_member realm user id start s'.calls
                      && not (
                          contains id gs
                          && is_some (Dict.lookup id current)
                          && not (contains id desired)))
                    ≡ (is_member realm user id start s.calls
                        && not (
                            contains id (g ∷ gs)
                            && is_some (Dict.lookup id current)
                            && not (contains id desired))) =
                  rw (now) (grind arith) in
                let rest =
                  leave_groups-is_member desired current gs s'
                    (rw (accepted) at (rw (listed) at (rw (unknown) at h))) in
                rw (unknown) (rw (listed) (rw (accepted) (rest ∙ left)))
          ]
        ]
      ]

  -- A request that leaves the membership as it is.
  IsRead : Call → Type 0
  IsRead c = (member : Bool) → after_request realm user id c member ≡ member

  Extends-is_member :
      {a b : List Call}
      → Extends IsRead a b
      → is_member realm user id start b ≡ is_member realm user id start a
  unfolding IsRead
  Extends-is_member same = refl
  Extends-is_member {a = a} (more {later} c p k) =
      p (is_member realm user id start later) ∙ Extends-is_member k

  resolve_group-Makes : (g : String) → Makes IsRead (resolve_group api realm g)
  unfolding resolve_group IsRead
  resolve_group-Makes g = search makes depth 14

  resolve_groups-Makes : (gs : List String) → Makes IsRead (resolve_groups api realm gs)
  unfolding resolve_groups
  resolve_groups-Makes [] = search makes
  resolve_groups-Makes (g ∷ gs) =
      let rest = resolve_groups-Makes gs in search (makes, rest, resolve_group-Makes) depth 12

  remove_others-is_member :
      (add_only : Bool) (desired : List String) (current : Dict GroupRep) (ids : List String)
      (s : Session)
      → ((if add_only then pure tt else leave_groups api realm user desired current ids) s).0
        ≡ ok tt
      → is_member realm user id start
          ((if add_only then pure tt else leave_groups api realm user desired current ids)
            s).1.calls
        ≡ (is_member realm user id start s.calls
            && not (
                not add_only
                && contains id ids
                && is_some (Dict.lookup id current)
                && not (contains id desired)))
  remove_others-is_member true desired current ids s h = ground arith
  remove_others-is_member false desired current ids s h =
      leave_groups-is_member desired current ids s h

  sync_memberships-is_member :
      (visits : (ks : List String) (k : String) → contains k (api.key_order ks) ≡ contains k ks)
      (add_only : Bool) (groups : List String) (current : List GroupRep)
      (desired : List ResolvedGroup) (s : Session)
      → is_member realm user id start s.calls ≡ contains id (group_ids current)
      → (resolve_groups api realm groups s).0 ≡ ok desired
      → (sync_memberships api realm user add_only groups current s).0 ≡ ok tt
      → is_member realm user id start
          (sync_memberships api realm user add_only groups current s).1.calls
        ≡ wanted add_only (contains id (group_ids current)) (contains id (map (λ g. g.id) desired))
  unfolding sync_memberships Makes Dict.lookup
  sync_memberships-is_member visits add_only groups current desired s told resolved h =
      let m = by_id current [] in
      let s1 = (resolve_groups api realm groups s).1 in
      let ids = map (λ g. g.id) desired in
      let removing : Act Session (Unit {0}) =
        if add_only then pure tt else leave_groups api realm user ids m (api.key_order (keys m)) in
      let kept = Extends-is_member (resolve_groups-Makes groups s) in
      let (done, joined, others, run) =
        parts->>= (join_groups api realm user m desired) (λ _. removing) s1 (rw (resolved) at h) in
      let joins = join_groups-is_member m desired s1 joined in
      let known : is_some (Dict.lookup id m) ≡ contains id (group_ids current) =
        by_id-ids id current [] in
      let seen = visits (keys m) id ∙ contains-keys id m in
      let removes =
        remove_others-is_member add_only ids m (api.key_order (keys m))
          (join_groups api realm user m desired s1).1 others in
      rw (resolved) (
        ap (λ x. is_member realm user id start x.calls) run
        ∙ removes
        ∙ rw (joins) (rw (kept) (rw (told) (rw (seen) (rw (known) (ground arith))))))

  memberships-resolved :
      (add_only : Bool) (groups : List String) (current : List GroupRep) (s : Session)
      → (sync_memberships api realm user add_only groups current s).0 ≡ ok tt
      → (desired : List ResolvedGroup) × ((resolve_groups api realm groups s).0 ≡ ok desired)
  unfolding sync_memberships
  memberships-resolved add_only groups current s h =
      elim (Result-cases (resolve_groups api realm groups s).0) [
        | inl (desired, e) ↦ (desired, e)
        | inr (x, e) ↦ cc (rw (e) at h)
      ]

  found_members :
      (visits : (ks : List String) (k : String) → contains k (api.key_order ks) ≡ contains k ks)
      (add_only : Bool) (groups : List String) (current : List GroupRep) (s : Session)
      → is_member realm user id start s.calls ≡ contains id (group_ids current)
      → (sync_memberships api realm user add_only groups current s).0 ≡ ok tt
      → (ids : List String) × AreFound api realm s.calls groups ids
        × (is_member realm user id start
              (sync_memberships api realm user add_only groups current s).1.calls
            ≡ wanted add_only (contains id (group_ids current)) (contains id ids))
  found_members visits add_only groups current s told h =
      let (desired, resolved) = memberships-resolved add_only groups current s h in
      (
        map (λ g. g.id) desired,
        resolve_groups-AreFound api realm groups s desired resolved,
        sync_memberships-is_member visits add_only groups current desired s told resolved h,
      )

  -- Where a map is visited at all its keys, and the listing of the groups tells what the requests so
  -- far have made of them: in a successful run Keycloak answers for each group of the spec, in
  -- order, with the ID of a group, by its path if it begins with a slash and by its name if not; the
  -- run leaves the user in the groups of these IDs, in no other with the strategy full, and, if
  -- groups are only added, in those that the user was in.
  pub sync_groups_of-is_member :
      (visits : (ks : List String) (k : String) → contains k (api.key_order ks) ≡ contains k ks)
      (add_only : Bool) (groups : List String) (s : Session) (current : List GroupRep)
      → api.on_user_groups s.calls realm user ≡ ok current
      → is_member realm user id start s.calls ≡ contains id (group_ids current)
      → (sync_groups_of api realm user add_only groups s).0 ≡ ok tt
      → (ids : List String) × AreFound api realm (user_groups realm user ∷ s.calls) groups ids
        × (is_member realm user id start (sync_groups_of api realm user add_only groups s).1.calls
            ≡ wanted add_only (contains id (group_ids current)) (contains id ids))
  unfolding sync_groups_of
  sync_groups_of-is_member visits true [] s current listed told h = ([], tt, told ∙ ground arith)
  sync_groups_of-is_member visits false [] s current listed told h = rw (listed) (
      found_members visits false [] current (record s { calls = user_groups realm user ∷ s.calls })
        told (rw (listed) at h))
  sync_groups_of-is_member visits add_only (g ∷ gs) s current listed told h = rw (listed) (
      found_members visits add_only (g ∷ gs) current
        (record s { calls = user_groups realm user ∷ s.calls }) told (rw (listed) at h))
