-- ===== src/AuthFlow/Controller/Initialize.antt =====
-- The initialization of a reconciliation: what it sends and what it hands over.
use keycloak_config_sync_ope.Base.{
  ◌≡◌, refl, ap, ◌∙◌, inl, inr, true, ◌&&◌, some, List, [], arith, String, Bool-cases, Result, ok,
  err, same, more, Result-cases, pure, wrap,
}
use keycloak_config_sync_ope.AuthFlow.{Api}
use keycloak_config_sync_ope.Base.{are_listed_of, errors_is, keycloak_realm_not_found}
use keycloak_config_sync_ope.AuthFlow.Cluster.{
  Object, Event, create_client, Cluster, Manager, create_keycloak_client, set_realm_owner_ref,
  get_realm_name_from_ref, remove_finalizers_on_realm_not_found,
}
use keycloak_config_sync_ope.AuthFlow.Controller.{on_client, initialize}
use keycloak_config_sync_ope.AuthFlow.Controller.Updates.{
  >>=-Extends, IsRealmGone, Justified, IsJustified,
}

parts_of_ok :
    {A B : Type 0} (a a' : A) (b b' : B)
    → (let p : A × B = (a, b) in let q : A × B = (a', b') in ok (some p) ≡ ok (some q))
    → (a ≡ a') × (b ≡ b')
parts_of_ok a a' b b' h = (cc, cc)

module _ (cluster : Cluster) (object : Object) (start : Manager) where
  -- Neither the finalizers nor what the handlers see has changed.
  abbrev pub Untouched : Manager → Type 0
  Untouched m = (m.finalizers ≡ start.finalizers) × (m.world ≡ start.world)

  set_realm_owner_ref-Justified :
      (Justified cluster object start) (set_realm_owner_ref cluster object start).1.events
  unfolding set_realm_owner_ref
  set_realm_owner_ref-Justified =
      let keeps = are_listed_of start.finalizers start.finalizers (λ f h. h) in
      grind (arith, more, same)

  set_realm_owner_ref-Untouched : Untouched (set_realm_owner_ref cluster object start).1
  unfolding set_realm_owner_ref
  set_realm_owner_ref-Untouched = (ground arith, ground arith)

  get_realm_name_from_ref-Untouched :
      (m : Manager) → Untouched m → Untouched (get_realm_name_from_ref cluster object m).1
  unfolding get_realm_name_from_ref
  get_realm_name_from_ref-Untouched m (f, w) = (ground arith, ground arith)

  get_realm_name_from_ref-Justified :
      (m : Manager)
      → (Justified cluster object start) m.events
      → (Justified cluster object start) (get_realm_name_from_ref cluster object m).1.events
  unfolding get_realm_name_from_ref
  get_realm_name_from_ref-Justified m h = grind (arith, more, same)

  on_client-Justified :
      (events : List Event) (r : Result Api)
      → cluster.on_create_client events ≡ r
      → (m : Manager) → (Justified cluster object start) m.events
      → (Justified cluster object start) (on_client cluster object r m).1.events
  unfolding on_client remove_finalizers_on_realm_not_found
  on_client-Justified events (ok client) answer m h =
      >>=-Extends (IsJustified cluster object start) start.events
        (wrap "unable to get realm name from ref: %w" [] (get_realm_name_from_ref cluster object))
        (λ realm. pure (some (client, realm))) m (get_realm_name_from_ref-Justified m h)
        (λ _ _. get_realm_name_from_ref-Justified m h)
  on_client-Justified events (err e) answer m h =
      elim (Bool-cases (errors_is keycloak_realm_not_found e && object.deleting)) [
        | inl gone ↦
            let why : (IsRealmGone cluster object start) = (events, e, answer, ground arith) in
            let deleting : object.deleting ≡ true = ground arith in
            rw (gone) (grind (arith, more, same))
        | inr other ↦ rw (other) h
      ]

  -- What the deletion and the reconciliation start from.
  abbrev pub IsGiven : Api → String → Type 0
  IsGiven client realm =
      (events : List Event) × (m : Manager) × (cluster.on_create_client events ≡ ok client)
      × ((get_realm_name_from_ref cluster object m).0 ≡ ok realm)

  abbrev pub Prepared : Api → String → Manager → Type 0
  Prepared client realm m = Untouched m × IsGiven client realm

  pub initialize-Justified :
      (Justified cluster object start) (initialize cluster object start).1.events
  unfolding initialize
  initialize-Justified =
      let owned =
        wrap "unable to set realm owner ref: %w" [] (set_realm_owner_ref cluster object) in
      let next = λ (m : Manager).
        on_client cluster object (cluster.on_create_client m.events)
          (create_keycloak_client cluster m).1 in
      >>=-Extends (IsJustified cluster object start) start.events owned (λ _. next) start
        set_realm_owner_ref-Justified
        (λ _ _.
          let m = (owned start).1 in
          on_client-Justified m.events (cluster.on_create_client m.events) refl
            (create_keycloak_client cluster m).1
            (more create_client tt set_realm_owner_ref-Justified))

  on_client-Prepared :
      (events : List Event) (r : Result Api)
      → cluster.on_create_client events ≡ r
      → (m : Manager) → Untouched m
      → (client : Api) (realm : String)
      → (on_client cluster object r m).0 ≡ ok (some (client, realm))
      → Prepared client realm (on_client cluster object r m).1
  unfolding on_client remove_finalizers_on_realm_not_found
  on_client-Prepared events (ok client) answer m u client' realm h =
      let named = get_realm_name_from_ref cluster object in
      elim (Result-cases (named m).0) [
        | inl (r, e) ↦
            let (same_client, same_realm) = parts_of_ok client client' r realm (rw e at h) in
            rw e (
              get_realm_name_from_ref-Untouched m u,
              (events, m, answer ∙ ap ok same_client, e ∙ ap ok same_realm),
            )
        | inr (x, e) ↦ cc (rw e at h)
      ]
  on_client-Prepared events (err e) answer m u client realm h = ground arith

  pub initialize-Prepared :
      (client : Api) (realm : String)
      → (initialize cluster object start).0 ≡ ok (some (client, realm))
      → Prepared client realm (initialize cluster object start).1
  unfolding initialize
  initialize-Prepared client realm h =
      let owned =
        wrap "unable to set realm owner ref: %w" [] (set_realm_owner_ref cluster object) in
      let m = (owned start).1 in
      elim (Result-cases (set_realm_owner_ref cluster object start).0) [
        | inl (a, e) ↦ rw e (
            on_client-Prepared m.events (cluster.on_create_client m.events) refl
              (create_keycloak_client cluster m).1 set_realm_owner_ref-Untouched client realm
              (rw e at h))
        | inr (x, e) ↦ cc (rw e at h)
      ]
