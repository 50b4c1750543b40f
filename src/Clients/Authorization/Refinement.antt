-- ===== src/Clients/Authorization/Refinement.antt =====
-- What a successful handler of an authorization leaves on record.
pub mod Maps
use keycloak_config_sync_ope.Base.{
  ◌≡◌, refl, sym, ap, ◌∙◌, inl, inr, Bool, true, false, not, ◌&&◌, ◌||◌, Option, none, some, List,
  [], ◌∷◌, map, arith, String, if◌then◌else◌, Bool-cases, Option-cases, ◌==◌, eq_of_==, contains,
  ok, ok-injective, Result-cases,
}
use keycloak_config_sync_ope.Base.Runs.{parts->>=}
use keycloak_config_sync_ope.Base.Dict
use keycloak_config_sync_ope.Base.Dict.{Dict}
use keycloak_config_sync_ope.Directory.Roles.{is_some, keys}
use keycloak_config_sync_ope.Directory.Roles.Naming.{contains-keys}
use keycloak_config_sync_ope.RealmRoles.Composites.{erase}
use keycloak_config_sync_ope.Clients.{
  Entity, Place, Api, ClientState, Reporter, get_client_id, list, parts_of, delete, report,
  set_success,
}
use keycloak_config_sync_ope.Clients.Authorization.{
  Part, remaining, skip_missing, sync_items, delete_parts, serve_items, prune, checked,
}
use keycloak_config_sync_ope.Clients.Authorization.Records.{
  same_place_refl, is_on_record, calls-report, ok-report, calls-set_condition,
}
use keycloak_config_sync_ope.Clients.Authorization.Refinement.Maps.{
  ==_sym, found_before, head_counted, head_put, head_skipped, if_either, is_left, is_some-remaining,
  lookup-remaining, recorded,
}

-- The ID is that of the part that is listed under the name, and of no other.
abbrev pub IsIdOf : String → String → Dict Entity → Type 0
IsIdOf name id m =
    (k : String) (e : Entity) (i : String)
    → Dict.lookup k m ≡ some e
    → e.id ≡ some i
    → (i == id) ≡ (k == name)

module _ {I : Type 0} (api : Api) (part : Part I) (place : Place) (name id : String)
    (start : Bool) where
  -- What the step for one item does to the record where it succeeds.
  abbrev pub IsPut : Type 0
  IsPut =
      (item : I) (found : Option Entity) (s : ClientState)
      → (part.process place item found s).0 ≡ ok tt
      → is_on_record place name id start (part.process place item found s).1.calls ≡ (
          part.name_of item == name && not (is_some found)
          || is_on_record place name id start s.calls)

  sync_items-is_on_record :
      (items : List I) (m left : Dict Entity) (s : ClientState)
      → IsPut
      → (is_some (Dict.lookup name m) ≡ true → is_on_record place name id start s.calls ≡ true)
      → (sync_items api part place items m s).0 ≡ ok left
      → (is_on_record place name id start (sync_items api part place items m s).1.calls
          ≡ (contains name (map part.name_of items) || is_on_record place name id start s.calls))
        × ((k : String)
            → Dict.lookup k left
              ≡ (if contains k (map part.name_of items) then none else Dict.lookup k m))
  unfolding sync_items
  sync_items-is_on_record [] m left s puts told h =
      let all_left : m ≡ left = ok-injective h in (refl, λ k. rw (all_left) refl)
  sync_items-is_on_record (item ∷ items) m left s puts told h =
      let n = part.name_of item in
      let found = Dict.lookup n m in
      let put = part.process place item found in
      let (done, accepted, others, run) =
        parts->>= put (λ _. sync_items api part place items (remaining n m)) s h in
      let now = puts item found s accepted in
      let (rest, lefts) =
        sync_items-is_on_record items (remaining n m) left (put s).1 puts
          (λ still. rw (now) (let seen = told (is_some-remaining m n name still) in ground arith))
          others in
      (
        ap (λ t. is_on_record place name id start t.calls) run
            ∙ rest
            ∙ rw (now) (head_put m n name (contains name (map part.name_of items)) _ told),
        λ k.
            lefts k
            ∙ rw (lookup-remaining m n k) (
                rw (==_sym n k)
                  (if_either (k == n) (contains k (map part.name_of items)) (Dict.lookup k m))),
      )

  -- Whether a key of the map is deleted.
  abbrev pub is_deleted : Dict Entity → String → Bool
  is_deleted m k = is_some (Dict.lookup k m) && not (part.is_default k)

  delete_parts-is_on_record :
      (m : Dict Entity) (ks : List String) (s : ClientState)
      → IsIdOf name id m
      → (delete_parts api part place m ks s).0 ≡ ok tt
      → is_on_record place name id start (delete_parts api part place m ks s).1.calls
        ≡ (is_on_record place name id start s.calls && not (contains name ks && is_deleted m name))
  unfolding delete_parts is_on_record
  delete_parts-is_on_record m [] s owns h = ground arith
  delete_parts-is_on_record m (k ∷ ks) s owns h = elim (Bool-cases (part.is_default k)) [
    | inl default ↦
        let rest = delete_parts-is_on_record m ks s owns (rw (default) at h) in
        let skipped =
          head_skipped (is_deleted m) name k (contains name ks) (rw (default) (ground arith)) in
        rw (default) (rest ∙ rw (skipped) refl)
    | inr other ↦ elim (Option-cases (Dict.lookup k m)) [
      | inl absent ↦
          let rest = delete_parts-is_on_record m ks s owns (rw (absent) at (rw (other) at h)) in
          let skipped = head_skipped (is_deleted m) name k (contains name ks) (rw (absent) refl) in
          rw (other) (rw (absent) (rest ∙ rw (skipped) refl))
      | inr (entity, listed) ↦ elim (Option-cases entity.id) [
        | inl nil ↦ cc (rw (nil) at (rw (listed) at (rw (other) at h)))
        | inr (i, has) ↦
            let s' : ClientState = record s { calls = delete place i ∷ s.calls } in
            elim (Result-cases (skip_missing (api.on_delete s.calls place i))) [
              | inr (e, refused) ↦
                  cc (rw (refused) at (rw (has) at (rw (listed) at (rw (other) at h))))
              | inl (a, accepted) ↦
                  let here = same_place_refl place in
                  let now : is_on_record place name id start s'.calls
                      ≡ (not (k == name) && is_on_record place name id start s.calls) =
                    rw (here) (rw (owns k entity i listed has) refl) in
                  let rest =
                    delete_parts-is_on_record m ks s' owns
                      (rw (accepted) at (rw (has) at (rw (listed) at (rw (other) at h)))) in
                  let counted =
                    head_counted (is_deleted m) name k (contains name ks)
                      (is_on_record place name id start s.calls) (rw (listed) (rw (other) refl)) in
                  rw (other) (rw (listed) (rw (has) (rw (accepted) (rest ∙ rw (now) counted))))
            ]
      ]
    ]
  ]

module _ {I : Type 0} (api : Api) (part : Part I) (reporter : Reporter)
    (visits : (ks : List String) (k : String) → contains k (api.key_order ks) ≡ contains k ks)
    (realm client_id client name id : String) (start : Bool) where
  -- What follows the loop over the items.
  pruned :
      (add_only : Bool) (m left : Dict Entity) (names : List String) (s : ClientState)
      → IsIdOf name id m
      → ((k : String) → Dict.lookup k left ≡ (if contains k names then none else Dict.lookup k m))
      → (prune api part reporter client add_only left s).0 ≡ ok tt
      → is_on_record
          (part.place client)
          name
          id
          start
          (prune api part reporter client add_only left s).1.calls
        ≡ (is_on_record (part.place client) name id start s.calls
            && not (
                not add_only
                && not (contains name names)
                && is_some (Dict.lookup name m)
                && not (part.is_default name)))
  unfolding prune
  pruned true m left names s owns lefts h =
      ap (is_on_record (part.place client) name id start) (calls-set_condition _ _ s) ∙ ground arith
  pruned false m left names s owns lefts h =
      let place = part.place client in
      let deleting = delete_parts api part place left (api.key_order (keys left)) in
      let (done, accepted, others, run) =
        parts->>= (checked api part reporter deleting)
          (λ _. set_success reporter part.condition part.condition part.synced) s h in
      let here =
        ok-report reporter part.condition part.prefix (λ e. e) (deleting s).0 (deleting s).1
          accepted in
      let deleted =
        delete_parts-is_on_record api part place name id start left (api.key_order (keys left)) s
          (λ k e i found. owns k e i (found_before m left names lefts k e found)) here in
      ap (λ x. is_on_record place name id start x.calls) run
      ∙ ap (is_on_record place name id start) (
          calls-set_condition _ _ (checked api part reporter deleting s).1
          ∙ calls-report reporter part.condition part.prefix (λ e. e) (deleting s).0 (deleting s).1)
      ∙ deleted
      ∙ rw (visits (keys left) name, contains-keys name left)
          (rw (lefts name)
            (is_left (contains name names) (Dict.lookup name m) (not (part.is_default name)) _))

  pub serve_items-is_on_record :
      (add_only : Bool) (items : List I) (s : ClientState) (existing : Dict Entity)
      → IsPut api part (part.place client) name id start
      → IsIdOf name id existing
      → api.on_client_id s.calls client_id realm ≡ ok client
      → api.on_list (get_client_id client_id realm ∷ s.calls) (parts_of (part.place client))
        ≡ ok existing
      → is_on_record (part.place client) name id start s.calls ≡ is_some (Dict.lookup name existing)
      → (serve_items api part reporter realm client_id add_only items s).0 ≡ ok tt
      → is_on_record
          (part.place client)
          name
          id
          start
          (serve_items api part reporter realm client_id add_only items s).1.calls
        ≡ (contains name (map part.name_of items)
            || is_some (Dict.lookup name existing) && (add_only || part.is_default name))
  unfolding serve_items is_on_record report
  serve_items-is_on_record add_only items s existing puts owns got listed told h =
      let place = part.place client in
      let s1 : ClientState = record s {
        calls = list (parts_of place) ∷ get_client_id client_id realm ∷ s.calls;
      } in
      let syncing = sync_items api part place items existing in
      let ending = prune api part reporter client add_only in
      let (left, synced, others, run) =
        parts->>= syncing ending s1 (rw (listed) at (rw (got) at h)) in
      let (done, lefts) =
        sync_items-is_on_record api part place name id start items existing left s1 puts
          (λ x. told ∙ x) synced in
      rw (got) (
        rw (listed) (
          ap (λ x. is_on_record place name id start x.calls) run
          ∙ pruned add_only existing left (map part.name_of items) (syncing s1).1 owns lefts others
          ∙ rw (done) (
              rw (told) (
                recorded (contains name (map part.name_of items))
                  (is_some (Dict.lookup name existing)) add_only (part.is_default name)))))
