-- ===== src/Directory/Roles/Refinement.antt =====
-- The abstract view of the roles of a group or of a user: the names that are held, as the requests
-- so far leave them.
use keycloak_config_sync_ope.Base.{
  ◌≡◌, refl, ap, ◌∙◌, inl, inr, Bool, true, false, not, ◌&&◌, ◌||◌, some, List, [], ◌∷◌, arith,
  String, if◌then◌else◌, Bool-cases, ◌==◌, ==_refl, contains, ok, ok-injective, Act, pure, ◌>>=◌,
  wrap,
}
use keycloak_config_sync_ope.Base.Runs.{parts->>=}
use keycloak_config_sync_ope.Base.Dict
use keycloak_config_sync_ope.Base.Dict.{Dict}
use keycloak_config_sync_ope.Directory.{
  RoleRep, Holder, group_realm, group_client, user_realm, user_client, role_composites, Call,
  add_roles, remove_roles, Api, Session, unless_empty, do_add_roles, do_remove_roles,
}
use keycloak_config_sync_ope.Directory.Roles.{is_some, fetch_missing, apply_diff}
use keycloak_config_sync_ope.Directory.Roles.Naming.{role_names}

abbrev pub same_holder : Holder → Holder → Bool
same_holder (group_realm r g) (group_realm r' g') = r == r' && g == g'
same_holder (group_client r g c) (group_client r' g' c') = r == r' && g == g' && c == c'
same_holder (user_realm r u) (user_realm r' u') = r == r' && u == u'
same_holder (user_client r u c) (user_client r' u' c') = r == r' && u == u' && c == c'
same_holder (role_composites r n) (role_composites r' n') = r == r' && n == n'
same_holder _ _ = false

same_holder_refl : (holder : Holder) → same_holder holder holder ≡ true
same_holder_refl (group_realm r g) = ground (arith, ==_refl r, ==_refl g)
same_holder_refl (group_client r g c) = ground (arith, ==_refl r, ==_refl g, ==_refl c)
same_holder_refl (user_realm r u) = ground (arith, ==_refl r, ==_refl u)
same_holder_refl (user_client r u c) = ground (arith, ==_refl r, ==_refl u, ==_refl c)
same_holder_refl (role_composites r n) = ground (arith, ==_refl r, ==_refl n)

-- What one accepted request makes of it.
abbrev pub after_call : Holder → String → Call → Bool → Bool
after_call holder name (add_roles other roles) held =
    if same_holder holder other then contains name (role_names roles) || held else held
after_call holder name (remove_roles other roles) held =
    if same_holder holder other then not (contains name (role_names roles)) && held else held
after_call holder name _ held = held

-- Whether the holder has a role of that name after the calls, if it did at the start.
abbrev pub is_held : Holder → String → Bool → List Call → Bool
is_held holder name start [] = start
is_held holder name start (c ∷ calls) = after_call holder name c (is_held holder name start calls)

module _ (api : Api) (holder : Holder) (name : String) (start : Bool) where
  -- An answer to a read has the name that was asked for, and a read changes nothing.
  abbrev pub IsFetch : (String → Act Session RoleRep) → Type 0
  IsFetch fetch =
      (asked : String) (s : Session)
      → (is_held holder name start (fetch asked s).1.calls ≡ is_held holder name start s.calls)
        × ((r : RoleRep) → (fetch asked s).0 ≡ ok r → r.name ≡ some asked)

  -- The roles that are fetched are those that are claimed and not on record.
  fetch_missing-names :
      (fetch : String → Act Session RoleRep) (current : Dict RoleRep) (claimed : List String)
      (s : Session) (rs : List RoleRep)
      → IsFetch fetch
      → (fetch_missing fetch current claimed s).0 ≡ ok rs
      → (contains name (role_names rs)
          ≡ (contains name claimed && not (is_some (Dict.lookup name current))))
        × (is_held holder name start (fetch_missing fetch current claimed s).1.calls
            ≡ is_held holder name start s.calls)
  unfolding fetch_missing
  fetch_missing-names fetch current [] s rs fetches h =
      (let none_left : [] ≡ rs = ok-injective h in rw⁻¹ (none_left) (refl, refl))
  fetch_missing-names fetch current (n ∷ ns) s rs fetches h =
      elim (Bool-cases (is_some (Dict.lookup n current))) [
        | inl known ↦
            let (names, kept) =
              fetch_missing-names fetch current ns s rs fetches (rw (known) at h) in
            rw (known) (grind arith, kept)
        | inr unknown ↦
            let more = fetch_missing fetch current ns in
            let (role, fetched, others, run) =
              parts->>= (fetch n) (λ role. more >>= (λ roles. pure (role ∷ roles))) s
                (rw (unknown) at h) in
            let (roles, got, all, last) =
              parts->>= more (λ roles. pure (role ∷ roles)) (fetch n s).1 others in
            let (names, kept) =
              fetch_missing-names fetch current ns (fetch n s).1 roles fetches got in
            let (still, named) = fetches n s in
            let has_name = named role fetched in
            let whole : role ∷ roles ≡ rs = ok-injective all in
            rw (unknown) (
              rw⁻¹ (whole) (rw (has_name) (grind arith)),
              ap (λ x. is_held holder name start x.calls) (run ∙ last) ∙ kept ∙ still,
            )
      ]

  add-is_held :
      (f : String) (args : List String) (rs : List RoleRep) (s : Session)
      → is_held holder name start
          (unless_empty (λ added. wrap f args (do_add_roles api holder added)) rs s).1.calls
        ≡ (contains name (role_names rs) || is_held holder name start s.calls)
  add-is_held f args [] s = refl
  add-is_held f args (r ∷ rs) s = rw (same_holder_refl holder) refl

  remove-is_held :
      (f : String) (args : List String) (rs : List RoleRep) (s : Session)
      → is_held holder name start
          (unless_empty (λ removed. wrap f args (do_remove_roles api holder removed)) rs s).1.calls
        ≡ (not (contains name (role_names rs)) && is_held holder name start s.calls)
  remove-is_held f args [] s = refl
  remove-is_held f args (r ∷ rs) s = rw (same_holder_refl holder) refl

  -- When the requests succeed, what is held is what was held and not stale, or claimed.
  pub apply_diff-is_held :
      (fetch : String → Act Session RoleRep) (f g : String) (args : List String)
      (current : Dict RoleRep) (claimed : List String) (stale : List RoleRep) (s : Session)
      → IsFetch fetch
      → (apply_diff api fetch holder f g args current claimed stale s).0 ≡ ok tt
      → is_held holder name start
          (apply_diff api fetch holder f g args current claimed stale s).1.calls
        ≡ (not (contains name (role_names stale))
            && ((contains name claimed && not (is_some (Dict.lookup name current)))
                || is_held holder name start s.calls))
  unfolding apply_diff
  apply_diff-is_held fetch f g args current claimed stale s fetches h =
      let adding : List RoleRep → Act Session (Unit {0}) =
        unless_empty (λ rs. wrap f args (do_add_roles api holder rs)) in
      let removing : Act Session (Unit {0}) =
        unless_empty (λ rs. wrap g args (do_remove_roles api holder rs)) stale in
      let missing = fetch_missing fetch current claimed in
      let (rs, fetched, others, run) =
        parts->>= missing (λ rs. adding rs >>= (λ _. removing)) s h in
      let (done, added, removed, last) =
        parts->>= (adding rs) (λ _. removing) (missing s).1 others in
      let (names, kept) = fetch_missing-names fetch current claimed s rs fetches fetched in
      let adds = add-is_held f args rs (missing s).1 in
      let removes = remove-is_held g args stale (adding rs (missing s).1).1 in
      ap (λ x. is_held holder name start x.calls) (run ∙ last)
      ∙ removes
      ∙ rw (adds) (rw (names) (rw (kept) refl))
