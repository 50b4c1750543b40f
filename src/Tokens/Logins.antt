-- ===== src/Tokens/Logins.antt =====
-- What the tokens that are kept in secrets spare.
use keycloak_config_sync_ope.Base.{
  true, ◌≡◌, refl, sym, ap, subst, ◌∙◌, none, some, ◌⊎◌, inl, inr, String, List, [], ◌∷◌,
  Bool-cases, Result, ok, err, Result-cases, k8s, k8s_is_not_found, ok-injective,
}
use keycloak_config_sync_ope.Base.Runs.{run-wrap}
use keycloak_config_sync_ope.Base.Dict
use keycloak_config_sync_ope.Base.Dict.{Dict}
use keycloak_config_sync_ope.AuthFlow.{ConfigRef}
use keycloak_config_sync_ope.Tokens.{
  KeycloakAuthData, Event, get_secret, update_secret, create_secret, log_in, Answers, ask,
  make_keycloak_auth_data, token_secret_name, get_credentials, save_found, save_token_secret,
  create_from_login_password, create_from_token_secret, or_log_in,
  create_keycloak_client_from_auth_data, create_keycloak_client_from_config_ref,
}

-- The request that saves a token under a name is accepted, after these events.
abbrev pub Saves :
    {A C : Type 0} → Answers A C → List Event → String → String → String → Event → Type 0
Saves answers before ns name token e =
    ((e ≡ update_secret ns name (("token", token) ∷ []))
      × (answers.on_update before ns name (("token", token) ∷ []) ≡ ok tt))
    ⊎ ((e ≡ create_secret ns name (("token", token) ∷ []))
        × (answers.on_create before ns name (("token", token) ∷ []) ≡ ok tt))

-- What a secret holds under a key; nothing reads as empty.
abbrev pub value_at : String → Dict String → String
value_at key secret = elim (Dict.lookup key secret) [ none ↦ "" | some value ↦ value ]

-- The requests of a login with the credentials of a secret, whose token is saved, and their answers.
abbrev pub IsLoggedIn :
    {A C : Type 0} → Answers A C → KeycloakAuthData → A → List Event → List Event → Type 0
IsLoggedIn answers auth adapter s s' =
    let ns = auth.secret_namespace in
    let name = token_secret_name auth.secret_name in
    (secret : Dict String) × (token : String) × (saved : Event) × (let user =
        value_at "username" secret in
      let password = value_at "password" secret in
      let read = get_secret ns auth.secret_name ∷ s in
      let asked = get_secret ns name ∷ log_in user password ∷ read in
      (answers.on_get s ns auth.secret_name ≡ ok secret)
      × (answers.on_log_in read auth user password ≡ ok adapter)
      × (answers.export_token adapter ≡ ok token)
      × Saves answers asked ns name token saved
      × (s' ≡ saved ∷ asked))

module _ {A C : Type 0} (answers : Answers A C) where
  save_found-Saves :
      (ns name token : String) (r : Result (Dict String)) (s : List Event)
      → (save_found answers ns name token r s).0 ≡ ok tt
      → (saved : Event) × Saves answers s ns name token saved
        × ((save_found answers ns name token r s).1 ≡ saved ∷ s)
  unfolding save_found
  save_found-Saves ns name token (ok secret) s h =
      let sent =
        ask (update_secret ns name (("token", token) ∷ []))
          (λ h. answers.on_update h ns name (("token", token) ∷ [])) in
      (
        update_secret ns name (("token", token) ∷ []),
        inl (refl, run-wrap "unable to update token secret: %w" [] sent s h),
        refl,
      )
  save_found-Saves ns name token (err e) s h = elim (Bool-cases (k8s_is_not_found e)) [
    | inl unknown ↦
        let sent =
          ask (create_secret ns name (("token", token) ∷ []))
            (λ h. answers.on_create h ns name (("token", token) ∷ [])) in
        let accepted = run-wrap "unable to create token secret: %w" [] sent s (rw (unknown) at h) in
        (create_secret ns name (("token", token) ∷ []), inr (refl, accepted), rw (unknown) refl)
    | inr other ↦ cc (rw (other) at h)
  ]

  save_token_secret-Saves :
      (name ns token : String) (s : List Event)
      → (save_token_secret answers name ns token s).0 ≡ ok tt
      → (saved : Event) × Saves answers (get_secret ns name ∷ s) ns name token saved
        × ((save_token_secret answers name ns token s).1 ≡ saved ∷ get_secret ns name ∷ s)
  unfolding save_token_secret
  save_token_secret-Saves name ns token s h =
      save_found-Saves ns name token (answers.on_get s ns name) (get_secret ns name ∷ s) h

  -- Credentials that are read are the values of a secret that Kubernetes has.
  get_credentials-values :
      (auth : KeycloakAuthData) (s : List Event) (c : String × String)
      → (get_credentials answers auth s).0 ≡ ok c
      → (secret : Dict String) × (answers.on_get s auth.secret_namespace auth.secret_name
          ≡ ok secret)
        × (c ≡ (value_at "username" secret, value_at "password" secret))
        × ((get_credentials answers auth s).1
            ≡ get_secret auth.secret_namespace auth.secret_name ∷ s)
  unfolding get_credentials
  get_credentials-values auth s c h =
      elim (Result-cases (answers.on_get s auth.secret_namespace auth.secret_name)) [
        | inl (secret, e) ↦ (secret, e, sym (ok-injective (rw (e) at h)), rw (e) refl)
        | inr (x, e) ↦ cc (rw (e) at h)
      ]

  create_from_login_password-IsLoggedIn :
      (auth : KeycloakAuthData) (s : List Event) (adapter : A)
      → (create_from_login_password answers auth s).0 ≡ ok adapter
      → IsLoggedIn answers auth adapter s (create_from_login_password answers auth s).1
  unfolding create_from_login_password
  create_from_login_password-IsLoggedIn auth s adapter h =
      elim (Result-cases (get_credentials answers auth s).0) [
        | inr (x, e) ↦ cc (rw (e) at h)
        | inl (c, e) ↦
            let (secret, found, values, read) = get_credentials-values auth s c e in
            let s1 = get_secret auth.secret_namespace auth.secret_name ∷ s in
            let s2 = log_in c.0 c.1 ∷ s1 in
            let h1 = rw (e, read) at h in
            elim (Result-cases (answers.on_log_in s1 auth c.0 c.1)) [
              | inr (x, refused) ↦ cc (rw (refused) at h1)
              | inl (made, accepted) ↦
                  let h2 = rw (accepted) at h1 in
                  elim (Result-cases (answers.export_token made)) [
                    | inr (x, e') ↦ cc (rw (e') at h2)
                    | inl (token, exported) ↦
                        let h3 = rw (exported) at h2 in
                        let name = token_secret_name auth.secret_name in
                        elim (Result-cases
                          (save_token_secret answers name auth.secret_namespace token s2).0) [
                            | inr (x, failed) ↦ cc (rw (failed) at h3)
                            | inl (u, done) ↦
                                let (saved, saves, events) =
                                  save_token_secret-Saves name auth.secret_namespace token s2
                                    done in
                                let same : made ≡ adapter = ok-injective (rw (done) at h3) in
                                let ns = auth.secret_namespace in
                                let logged_in =
                                  subst (λ x. answers.on_log_in s1 auth x.0 x.1 ≡ ok adapter) values
                                    (accepted ∙ ap ok same) in
                                let with_values =
                                  subst
                                    (λ x.
                                      Saves answers (get_secret ns name ∷ log_in x.0 x.1 ∷ s1) ns
                                        name token saved)
                                    values saves in
                                rw (e, read)
                                  (rw (accepted) (
                                    rw (exported) (
                                      secret,
                                      token,
                                      saved,
                                      (
                                        found,
                                        logged_in,
                                        rw⁻¹ (same) exported,
                                        with_values,
                                        rw (done) (events ∙ rw (values) refl),
                                      ),
                                    )))
                          ]
                  ]
            ]
      ]

  -- Where Kubernetes has no secret that is named by the prefix of the tokens alone, a client that
  -- is made for a reference is the answer to a login with the user name and the password that its
  -- secret holds, whatever tokens were saved; its token is then saved under the name of that
  -- secret, which Kubernetes accepts.
  pub create_keycloak_client_from_config_ref-IsLoggedIn :
      (ns : String) (cfg : ConfigRef) (s : List Event) (text : String) (adapter : A)
      → answers.on_get s ns (token_secret_name "") ≡ err (k8s true text)
      → (create_keycloak_client_from_config_ref answers ns cfg s).0 ≡ ok adapter
      → IsLoggedIn answers
          (make_keycloak_auth_data ns cfg)
          adapter
          (get_secret ns (token_secret_name "") ∷ s)
          (create_keycloak_client_from_config_ref answers ns cfg s).1
  unfolding create_keycloak_client_from_config_ref create_keycloak_client_from_auth_data
      create_from_token_secret make_keycloak_auth_data or_log_in k8s_is_not_found
  create_keycloak_client_from_config_ref-IsLoggedIn ns cfg s text adapter unknown h =
      let auth = make_keycloak_auth_data ns cfg in
      let s1 = get_secret ns (token_secret_name "") ∷ s in
      let known = rw (unknown) at h in
      rw (unknown) (
        create_from_login_password-IsLoggedIn auth s1 adapter
          (run-wrap _ [] (create_from_login_password answers auth) s1 known))
