-- ===== src/Users/GroupsFound.antt =====
-- The groups that Keycloak answers with where a user is brought into the groups of the spec.
use Prim.Native.Char.{code}
use keycloak_config_sync_ope.Base.{
  ◌≡◌, refl, subst, nat_eq, false, some, ◌>>=◌, ap, ◌∙◌, inl, inr, Bool, List, [], ◌∷◌, map, String,
  if◌then◌else◌, Bool-cases, Option-cases, ok, Result-cases, ok-injective, pure,
}
use keycloak_config_sync_ope.Base.Runs.{parts->>=}
use keycloak_config_sync_ope.Keycloakv2.{is_not_found}
use keycloak_config_sync_ope.Directory.{GroupRep, Call, get_group_by_path, find_group, Api, Session}
use keycloak_config_sync_ope.Users.Memberships.{
  resolve_group, refuse_group, starts_with_slash, ResolvedGroup, resolve_groups,
}

-- A group that is asked for by its path.
abbrev pub is_path : String → Bool
is_path String.[] = false
is_path (String.◌∷◌ c s) = nat_eq (code c) b'/'

is_path_lem : (g : String) → starts_with_slash g ≡ is_path g
unfolding starts_with_slash
is_path_lem String.[] = refl
is_path_lem (String.◌∷◌ c s) = refl

-- The request for a group of the spec.
abbrev pub asked : String → String → Call
asked realm g = if is_path g then get_group_by_path realm g else find_group realm g

-- Keycloak answers the request for a group, after these requests, with a group that has the ID.
abbrev pub IsFound : Api → String → List Call → String → String → Type 0
IsFound api realm calls g id =
    (rep : GroupRep) × ((if is_path g
        then api.on_get_group_by_path calls realm g
        else api.on_find_group calls realm g)
      ≡ ok (some rep))
    × (rep.id ≡ some id)

-- The IDs of the groups, one for each, in order.
abbrev pub AreFound : Api → String → List Call → List String → List String → Type 0
AreFound api realm calls [] [] = Unit
AreFound api realm calls (g ∷ gs) (id ∷ ids) =
    IsFound api realm calls g id × AreFound api realm (asked realm g ∷ calls) gs ids
AreFound api realm calls _ _ = ⊥

module _ (api : Api) (realm : String) where
  resolve_group-IsFound :
      (g : String) (s : Session) (d : ResolvedGroup)
      → (resolve_group api realm g s).0 ≡ ok d
      → IsFound api realm s.calls g d.id
        × ((resolve_group api realm g s).1.calls ≡ asked realm g ∷ s.calls)
  unfolding resolve_group refuse_group
  resolve_group-IsFound g s d h = elim (Bool-cases (is_path g)) [
    | inl path ↦
        let slash = is_path_lem g ∙ path in
        let h1 = rw (slash) at h in
        elim (Result-cases (api.on_get_group_by_path s.calls realm g)) [
          | inr (x, refused) ↦ cc (rw (refused) at h1)
          | inl (answer, answered) ↦
              let h2 = rw (answered) at h1 in
              elim (Option-cases answer) [
                | inl nil ↦ cc (rw (nil) at h2)
                | inr (rep, given) ↦
                    let h3 = rw (given) at h2 in
                    elim (Option-cases rep.id) [
                      | inl nil ↦ cc (rw (nil) at h3)
                      | inr (i, known) ↦
                          let same = ap (λ x. x.id) (ok-injective (rw (known) at h3)) in
                          rw (path) (
                            (rep, answered ∙ ap ok given, known ∙ ap some same),
                            rw (answered) (rw (given) (rw (known) refl)),
                          )
                    ]
              ]
        ]
    | inr name ↦
        let no_slash = is_path_lem g ∙ name in
        let h1 = rw (no_slash) at h in
        elim (Result-cases (api.on_find_group s.calls realm g)) [
          | inr (x, refused) ↦ elim (Bool-cases (is_not_found x)) [
            | inl unknown ↦ cc (rw (unknown) at (rw (refused) at h1))
            | inr other ↦ cc (rw (other) at (rw (refused) at h1))
          ]
          | inl (answer, answered) ↦
              let h2 = rw (answered) at h1 in
              elim (Option-cases answer) [
                | inl nil ↦ cc (rw (nil) at h2)
                | inr (rep, given) ↦
                    let h3 = rw (given) at h2 in
                    elim (Option-cases rep.id) [
                      | inl nil ↦ cc (rw (nil) at h3)
                      | inr (i, known) ↦
                          let same = ap (λ x. x.id) (ok-injective (rw (known) at h3)) in
                          rw (name) (
                            (rep, answered ∙ ap ok given, known ∙ ap some same),
                            rw (answered) (rw (given) (rw (known) refl)),
                          )
                    ]
              ]
        ]
  ]

  pub resolve_groups-AreFound :
      (groups : List String) (s : Session) (desired : List ResolvedGroup)
      → (resolve_groups api realm groups s).0 ≡ ok desired
      → AreFound api realm s.calls groups (map (λ g. g.id) desired)
  unfolding resolve_groups
  resolve_groups-AreFound [] s desired h =
      let nothing : [] ≡ desired = ok-injective h in
      subst (λ ds. AreFound api realm s.calls [] (map (λ g. g.id) ds)) nothing tt
  resolve_groups-AreFound (g ∷ gs) s desired h =
      let (d, found, others, _) =
        parts->>= (resolve_group api realm g)
          (λ d. resolve_groups api realm gs >>= (λ rest. pure (d ∷ rest))) s h in
      let (here, calls) = resolve_group-IsFound g s d found in
      let (rest, resolved, done, _) =
        parts->>= (resolve_groups api realm gs) (λ rest. pure (d ∷ rest))
          (resolve_group api realm g s).1 others in
      let whole : d ∷ rest ≡ desired = ok-injective done in
      subst (λ ds. AreFound api realm s.calls (g ∷ gs) (map (λ x. x.id) ds)) whole
        (
          here,
          subst (λ c. AreFound api realm c gs (map (λ x. x.id) rest)) calls
              (resolve_groups-AreFound gs (resolve_group api realm g s).1 rest resolved),
        )
