-- ===== src/Directory/Renewals.antt =====
-- How often a chain makes its client again.
use keycloak_config_sync_ope.Base.{
  ℕ, suc, ◌+◌, ◌≤◌, ◌≡◌, refl, ◌⊎◌, inl, inr, Option, none, some, List, [], ◌∷◌, arith, String,
  Bool-cases, length, All, Result, Extends, same, more, Extends-trans, Result-cases, Act, pure,
  ◌>>=◌,
}
use keycloak_config_sync_ope.Directory.{Call, new_client, Api, Session, ask, context}
use keycloak_config_sync_ope.Directory.Requests.{IsFor, Makes, makes, realm_of}
use keycloak_config_sync_ope.Directory.Chain.{
  Handler, is_panic, retry, settle, serve_one, run_handlers,
}
use keycloak_config_sync_ope.AuthFlow.Cluster.{Cluster, is_unauthorized_error}

-- A request for the realm, or a client that is made again.
abbrev pub IsServed : String → Call → Type 0
IsServed realm c = (realm_of c ≡ some realm) ⊎ (c ≡ new_client)

abbrev add_renewal : Option String → ℕ → ℕ
add_renewal none n = suc n
add_renewal (some realm) n = n

-- The clients that were made again.
abbrev pub renewals : List Call → ℕ
renewals [] = 0
renewals (c ∷ calls) = add_renewal (realm_of c) (renewals calls)

Extends-renewals :
    (realm : String) {a b : List Call}
    → Extends (IsFor realm) a b
    → Extends (IsServed realm) a b × (renewals b ≡ renewals a)
Extends-renewals realm same = (same, refl)
Extends-renewals realm (more c p k) =
    let (served, counted) = Extends-renewals realm k in (more c (inl p) served, rw (p) counted)

-- A step that makes requests for the realm and at most `n` clients.
unfoldable pub IsBounded : {A : Type 0} → String → ℕ → Act Session A → Type 0
IsBounded realm n m =
    (s : Session)
    → Extends (IsServed realm) s.calls (m s).1.calls
      × (renewals (m s).1.calls ≤ n + renewals s.calls)

module _ (realm : String) where
  pub Makes-IsBounded :
      {A : Type 0} (m : Act Session A) → Makes (IsFor realm) m → IsBounded realm 0 m
  unfolding IsBounded Makes
  Makes-IsBounded m h s =
      let (served, counted) = Extends-renewals realm (h s) in (served, omega (arith, counted))

  pub >>=-IsBounded :
      {A B : Type 0} (n k total : ℕ) (m : Act Session A) (f : A → Act Session B)
      → n + k ≤ total
      → IsBounded realm n m
      → ((a : A) → IsBounded realm k (f a))
      → IsBounded realm total (m >>= f)
  unfolding IsBounded
  >>=-IsBounded n k total m f fits h g s = elim (Result-cases (m s).0) [
    | inl (a, e) ↦
        let (served, counted) = h s in
        let (then_served, then_counted) = g a (m s).1 in
        rw e (Extends-trans served then_served, omega arith)
    | inr (x, e) ↦ let (served, counted) = h s in rw e (served, omega arith)
  ]

  module _ (cluster : Cluster) (refresh : List Call → Result Api) where
    retry-IsBounded :
        (handler : Handler Session)
        → ((api : Api) → Makes (IsFor realm) (handler api))
        → IsBounded realm 1 (retry cluster (ask new_client refresh) handler)
    unfolding retry IsBounded
    retry-IsBounded handler h =
        >>=-IsBounded 1 0 1 (ask new_client refresh)
          (λ renewed.
            context "failed to serve handler: %w" [] (handler renewed) >>= (λ _. pure renewed))
          (omega arith) (λ s. (more new_client (inr refl) same, omega arith))
          (λ renewed.
            Makes-IsBounded
              (context "failed to serve handler: %w" [] (handler renewed) >>= (λ _. pure renewed))
              (search (makes, h)))

    serve_one-IsBounded :
        (handler : Handler Session) (api : Api)
        → ((a : Api) → Makes (IsFor realm) (handler a))
        → IsBounded realm 1 (serve_one cluster (ask new_client refresh) handler api)
    unfolding serve_one settle IsBounded
    serve_one-IsBounded handler api h s =
        let (served, counted) = Makes-IsBounded (handler api) (h api) s in
        elim (Result-cases (handler api s).0) [
          | inl (a, e) ↦ rw (e) (served, omega arith)
          | inr (x, e) ↦ elim (Bool-cases (is_panic x)) [
            | inl panic ↦ rw (e) (rw (panic) (served, omega arith))
            | inr failed ↦ elim (Bool-cases (is_unauthorized_error cluster x)) [
              | inl refused ↦
                  let (again, recounted) = retry-IsBounded handler h (handler api s).1 in
                  rw (e) (rw (failed) (rw (refused) (Extends-trans served again, omega arith)))
              | inr other ↦ rw (e) (rw (failed) (rw (other) (served, omega arith)))
            ]
          ]
        ]

    pub run_handlers-IsBounded :
        (handlers : List (Handler Session)) (api : Api)
        → All (λ handler. (a : Api) → Makes (IsFor realm) (handler a)) handlers
        → IsBounded realm
            (length handlers)
            (run_handlers cluster (ask new_client refresh) handlers api)
    unfolding run_handlers IsBounded
    run_handlers-IsBounded [] api h s = (same, omega arith)
    run_handlers-IsBounded (x ∷ xs) api h s =
        >>=-IsBounded 1 (length xs) (suc (length xs))
          (serve_one cluster (ask new_client refresh) x api)
          (λ _. run_handlers cluster (ask new_client refresh) xs api) (omega arith)
          (serve_one-IsBounded x api h.0) (λ renewed. run_handlers-IsBounded xs api h.1) s
