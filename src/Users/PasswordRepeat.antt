-- ===== src/Users/PasswordRepeat.antt =====
-- A password that comes from a secret, over several runs.
use keycloak_config_sync_ope.Base.{
  ◌≡◌, refl, ap, sym, ◌∙◌, inl, inr, true, false, some, ◌∷◌, String, Bool-cases, Option-cases,
  ==_refl, Err, ok, err, Result-cases, Act,
}
use keycloak_config_sync_ope.Base.Dict
use keycloak_config_sync_ope.Directory.{set_password, Api}
use keycloak_config_sync_ope.Users.{PasswordSecret}
use keycloak_config_sync_ope.Users.Password.{
  Secret, KeycloakUser, get_secret, Cluster, UserState, PasswordResult, is_synced, usable_secret,
  has_no_password, read_password, get_secret_password, password_from, get_password, report,
  or_report, send_password, should_skip_password_sync, update_password_condition, sync_password,
  set_user_password, set_password_error_condition, credential,
}

-- What is made of a secret in which the key has a value.
abbrev pub loaded : PasswordSecret → Secret → String → PasswordResult
loaded wanted secret value = record {
  value = value;
  temporary = wanted.temporary;
  secret_version = secret.resource_version;
  from_secret = true;
}

module _ (cluster : Cluster) (user : KeycloakUser) (api : Api) (realm : String)
    (wanted : PasswordSecret) (usable : usable_secret user.spec.password_secret ≡ some wanted) where
  abbrev run : Act UserState (Unit {0})
  run = set_user_password cluster user api realm

  abbrev after_read : UserState → UserState
  after_read s = record s { events = get_secret user.namespace wanted.name ∷ s.events }

  has_password : has_no_password user.spec ≡ false
  has_password = elim (Option-cases user.spec.password_secret) [
    | inl nil ↦ cc (rw (nil) at usable)
    | inr (secret, given) ↦ rw (given) refl
  ]

  -- A run that reads a value goes on with it.
  run-loaded :
      (s : UserState) (secret : Secret) (value : String)
      → cluster.on_get_secret s.events user.namespace wanted.name ≡ ok secret
      → Dict.lookup wanted.key secret.data_of ≡ some value
      → run s ≡ sync_password cluster user api realm (loaded wanted secret value) (after_read s)
  unfolding set_user_password get_password password_from get_secret_password read_password or_report
      report
  run-loaded s secret value read known = rw (has_password) (
      rw (usable, or_report, get_password, report, password_from, get_secret_password)
        (rw (read) (rw (known) refl)))

  -- A run that cannot read the secret leaves the condition that the password is not synced.
  run_unread :
      (s : UserState) (e : Err)
      → cluster.on_get_secret s.events user.namespace wanted.name ≡ err e
      → (is_synced (run s).1.status.condition ≡ false) × ((run s).1.session ≡ s.session)
  unfolding set_user_password get_password get_secret_password password_from or_report report
      set_password_error_condition
  run_unread s e unread = rw (has_password) (
      rw (usable, or_report, get_password, report, password_from, get_secret_password)
        (rw (unread) (refl, refl)))

  recorded :
      (r : PasswordResult) (s : UserState)
      → r.from_secret ≡ true
      → should_skip_password_sync (update_password_condition cluster user r s).1.status r ≡ true
  unfolding update_password_condition should_skip_password_sync
  recorded r s secret = elim (Bool-cases r.temporary) [
    | inl once ↦ rw (secret) (rw (once) refl)
    | inr always ↦ rw (secret) (rw (always) (==_refl r.secret_version))
  ]

  sent :
      (r : PasswordResult) (s : UserState)
      → should_skip_password_sync s.status r ≡ false
      → (sync_password cluster user api realm r s).0 ≡ ok tt
      → sync_password cluster user api realm r s
        ≡ update_password_condition cluster user r (send_password cluster user api realm r s).1
  unfolding sync_password or_report report send_password
  sent r s due h =
      elim (Result-cases (
        api.on_set_password s.session.calls realm s.session.id
          (credential cluster user api realm r))) [
            | inl (a, accepted) ↦ rw (due) (rw (accepted, send_password, report) refl)
            | inr (e, refused) ↦ cc (rw (refused, send_password, report) at (rw (due) at h))
          ]

  -- What a successful step records keeps the next one from sending the password again.
  settled :
      (r : PasswordResult) (s : UserState)
      → r.from_secret ≡ true
      → (sync_password cluster user api realm r s).0 ≡ ok tt
      → should_skip_password_sync (sync_password cluster user api realm r s).1.status r ≡ true
  unfolding sync_password
  settled r s secret h = elim (Bool-cases (should_skip_password_sync s.status r)) [
    | inl skip ↦ rw (skip) skip
    | inr due ↦ rw (sent r s due h) (recorded r (send_password cluster user api realm r s).1 secret)
  ]

  skipped :
      (r : PasswordResult) (s : UserState)
      → should_skip_password_sync s.status r ≡ true
      → sync_password cluster user api realm r s ≡ (ok tt, s)
  unfolding sync_password
  skipped r s skip = rw (skip) refl

  -- For a password of a secret: after a successful run, another run that reads the same secret
  -- succeeds and asks nothing of Keycloak.
  pub set_user_password_twice :
      (s : UserState) (secret : Secret) (value : String)
      → Dict.lookup wanted.key secret.data_of ≡ some value
      → cluster.on_get_secret s.events user.namespace wanted.name ≡ ok secret
      → (run s).0 ≡ ok tt
      → cluster.on_get_secret (run s).1.events user.namespace wanted.name ≡ ok secret
      → ((run (run s).1).0 ≡ ok tt) × ((run (run s).1).1.session ≡ (run s).1.session)
  set_user_password_twice s secret value known read h reread =
      let r = loaded wanted secret value in
      let first = run-loaded s secret value read known in
      let skip = settled r (after_read s) refl (sym (ap (λ x. x.0) first) ∙ h) in
      let again =
        run-loaded (run s).1 secret value reread known
        ∙ skipped r (after_read (run s).1) (rw (first) skip) in
      rw (again) (refl, refl)

  sends :
      (r : PasswordResult) (s : UserState)
      → should_skip_password_sync s.status r ≡ false
      → (sync_password cluster user api realm r s).1.session.calls
        ≡ set_password realm s.session.id (credential cluster user api realm r) ∷ s.session.calls
  unfolding sync_password or_report report send_password set_password_error_condition
      update_password_condition
  sends r s due =
      elim (Result-cases (
        api.on_set_password s.session.calls realm s.session.id
          (credential cluster user api realm r))) [
            | inl (a, accepted) ↦ rw (due) (rw (accepted, send_password, report) refl)
            | inr (e, refused) ↦ rw (due) (rw (refused, send_password, report) refl)
          ]

  -- A temporary password of a secret is sent, whatever the condition was, if one run cannot read the
  -- secret and the next one can.
  pub set_user_password_again :
      (s : UserState) (e : Err) (secret : Secret) (value : String)
      → wanted.temporary ≡ true
      → Dict.lookup wanted.key secret.data_of ≡ some value
      → cluster.on_get_secret s.events user.namespace wanted.name ≡ err e
      → cluster.on_get_secret (run s).1.events user.namespace wanted.name ≡ ok secret
      → (run (run s).1).1.session.calls
        ≡ set_password realm s.session.id (record { value = value; temporary = true })
          ∷ s.session.calls
  unfolding should_skip_password_sync
  set_user_password_again s e secret value once known unread read =
      let r = loaded wanted secret value in
      let (unsynced, kept) = run_unread s e unread in
      ap (λ x. x.1.session.calls) (run-loaded (run s).1 secret value read known)
      ∙ sends r (after_read (run s).1) (rw (once) unsynced)
      ∙ ap (λ x. set_password realm x.id (credential cluster user api realm r) ∷ x.calls) kept
      ∙ ap
          (λ b.
            set_password realm s.session.id (record { value = value; temporary = b })
            ∷ s.session.calls)
          once
