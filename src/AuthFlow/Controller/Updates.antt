-- ===== src/AuthFlow/Controller/Updates.antt =====
-- The updates that keep the finalizers of an object, or may take them, and the steps that send no
-- other.
use keycloak_config_sync_ope.Base.{
  ◌≡◌, refl, ◌⊎◌, inl, inr, Bool, true, false, List, [], ◌∷◌, ◌++◌, arith, String, if◌then◌else◌,
  Bool-cases, ◌==◌, contains, Err, Result, ok, err, Extends, same, more, Result-cases, Act, ◌>>=◌,
  wrap,
}
use keycloak_config_sync_ope.AuthFlow.{KeycloakAuthFlowStatus, Api, World}
use keycloak_config_sync_ope.Base.{are_listed, are_listed_of, errors_is, keycloak_realm_not_found}
use keycloak_config_sync_ope.AuthFlow.Remove
use keycloak_config_sync_ope.AuthFlow.Cluster.{
  Object, Event, update_object, create_client, Cluster, Manager, run, finalizer_name,
  create_keycloak_client, get_realm_name_from_ref, is_unauthorized_error,
}
use keycloak_config_sync_ope.AuthFlow.Controller.{
  retry, serve_chain, update_flow_status, conclude, ensure_finalizer,
}

module _ (P : Event → Type 0) (start : List Event) where
  pub >>=-Extends :
      {A B : Type 0} (m : Act Manager A) (f : A → Act Manager B) (s : Manager)
      → Extends P start (m s).1.events
      → ((a : A) → (m s).0 ≡ ok a → Extends P start (f a (m s).1).1.events)
      → Extends P start ((m >>= f) s).1.events
  >>=-Extends m f s h k = elim (Result-cases (m s).0) [
    | inl (a, e) ↦ rw e (k a e)
    | inr (x, e) ↦ rw e h
  ]

  pub if-Extends :
      {A : Type 0} (b : Bool) (m n : Act Manager A) (s : Manager)
      → (b ≡ true → Extends P start (m s).1.events)
      → (b ≡ false → Extends P start (n s).1.events)
      → Extends P start ((if b then m else n) s).1.events
  if-Extends true m n s h k = h refl
  if-Extends false m n s h k = k refl

contains-++ :
    (x : String) (xs ys : List String) → contains x xs ≡ true → contains x (xs ++ ys) ≡ true
contains-++ x [] ys h = cc
contains-++ x (y ∷ xs) ys h = elim (Bool-cases (x == y)) [
  | inl here ↦ ground arith
  | inr there ↦ let rest = contains-++ x xs ys (ground arith) in ground arith
]

module _ (cluster : Cluster) (object : Object) (start : Manager) where
  -- The finalizers of the start are all among them.
  abbrev pub Keeps : List String → Type 0
  Keeps fs = (f : String) → contains f start.finalizers ≡ true → contains f fs ≡ true

  -- The handler that removes the flow has succeeded, on a client and for a realm name that the
  -- controller got.
  abbrev pub IsRemoved : Type 0
  IsRemoved =
      (events : List Event) × (client : Api) × (realm : String) × (m : Manager)
      × (cluster.on_create_client events ≡ ok client)
      × ((get_realm_name_from_ref cluster object m).0 ≡ ok realm)
      × ((Remove.serve client object.annotations realm object.spec start.world).0 ≡ ok tt)

  -- No client could be made because Keycloak has no such realm.
  abbrev pub IsRealmGone : Type 0
  IsRealmGone =
      (events : List Event) × (e : Err) × (cluster.on_create_client events ≡ err e)
      × (errors_is keycloak_realm_not_found e ≡ true)

  abbrev pub IsJustified : Event → Type 0
  IsJustified (update_object fs) =
      (are_listed start.finalizers fs ≡ true)
      ⊎ ((object.deleting ≡ true) × (IsRemoved ⊎ IsRealmGone))
  IsJustified _ = Unit

  abbrev pub Justified : List Event → Type 0
  Justified = Extends IsJustified start.events

  pub retry-Justified :
      (x : Api → Act World (Unit {0})) (r : Result (Unit {0})) (m : Manager)
      → Justified m.events
      → Justified (retry cluster x r m).1.events
  unfolding retry
  retry-Justified x (ok a) m h = h
  retry-Justified x (err e) m h = elim (Bool-cases (is_unauthorized_error cluster e)) [
    | inl yes_it_is ↦ rw (yes_it_is) (
        >>=-Extends IsJustified start.events (create_keycloak_client cluster)
          (λ client. wrap "failed to serve handler: %w" [] (run (x client))) m
          (more create_client tt h) (λ client _. more create_client tt h))
    | inr not_so ↦ rw (not_so) h
  ]

  pub conclude_lem :
      (old : KeycloakAuthFlowStatus) (r : Result (Unit {0})) (m : Manager)
      → Justified m.events
      → Justified (conclude cluster old r m).1.events
  unfolding conclude update_flow_status
  conclude_lem old (ok a) m h = grind (arith, more, same)
  conclude_lem old (err e) m h = grind (arith, more, same)

  pub ensure_finalizer-Justified :
      (m : Manager)
      → Keeps m.finalizers
      → Justified m.events
      → Justified (ensure_finalizer cluster m).1.events
  unfolding ensure_finalizer
  ensure_finalizer-Justified m keeps h = elim (Bool-cases (contains finalizer_name m.finalizers)) [
    | inl present ↦ rw (present) h
    | inr absent ↦ rw (absent) (
        more (update_object (m.finalizers ++ (finalizer_name ∷ [])))
          (inl (
            are_listed_of start.finalizers (m.finalizers ++ (finalizer_name ∷ []))
              (λ f mine. contains-++ f m.finalizers (finalizer_name ∷ []) (keeps f mine))))
          h)
  ]

  pub serve_chain-Justified :
      (client : Api) (handlers : List (Api → Act World (Unit {0}))) (m : Manager)
      → Justified m.events
      → Justified (serve_chain cluster client handlers m).1.events
  unfolding serve_chain
  serve_chain-Justified client [] m h = h
  serve_chain-Justified client (x ∷ handlers) m h =
      let first = (x client m.world).0 in
      >>=-Extends IsJustified start.events (retry cluster x first)
        (λ _. serve_chain cluster client handlers) (run (x client) m).1
        (retry-Justified x first (run (x client) m).1 h)
        (λ _ _.
          serve_chain-Justified client handlers (retry cluster x first (run (x client) m).1).1
            (retry-Justified x first (run (x client) m).1 h))
