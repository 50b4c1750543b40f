-- ===== src/Terminator/Stuck.antt =====
-- A deletion of a realm that does not get to the realm.
use keycloak_config_sync_ope.Base.{
  ℕ, suc, ◌≡◌, refl, ap, ◌∙◌, false, some, List, [], ◌∷◌, String, Err, api, wrapf, Result, err, Act,
}
use keycloak_config_sync_ope.Flush.{is_err_not_found}
use keycloak_config_sync_ope.AuthFlow.Cluster.{Cluster, is_unauthorized_error}
use keycloak_config_sync_ope.Directory.{Call, delete_identity_provider, Api}
use keycloak_config_sync_ope.Terminator.{
  RealmSpec, State, Outcome, repeat, next, delete_providers, settle_provider, delete_resource,
}

-- A step that fails ends.
repeat_fails :
    (fuel : ℕ) (step : Act State Outcome) (s after_step : State) (e : Err)
    → step s ≡ (err e, after_step)
    → repeat (suc fuel) step s ≡ some (err e, after_step)
unfolding repeat
repeat_fails fuel step s after_step e h = rw (h, repeat) (ap (λ x. some (err e, x.1)) h)

module _ (cluster : Cluster) (refresh : List Call → Result Api) (spec : RealmSpec) where
  delete_providers_stuck :
      (alias message : String) (aliases : List String) (s : State)
      → s.client.on_delete_identity_provider s.session.calls spec.realm_name alias
        ≡ err (api 404 message)
      → is_unauthorized_error cluster (api 404 message) ≡ false
      → delete_providers cluster refresh spec (alias ∷ aliases) s ≡ (
        err (wrapf "unable to delete realm idp %q: %w" (alias ∷ []) (api 404 message)),
        record s {
          session = record (s.session) {
            calls = delete_identity_provider spec.realm_name alias ∷ s.session.calls;
          };
        },
      )
  unfolding delete_providers settle_provider is_err_not_found
  delete_providers_stuck alias message aliases s unknown other =
      rw (unknown, delete_providers, settle_provider) (rw (other) refl)

-- Where Keycloak answers the deletion of the first identity provider with status code 404, which is
-- not taken for an unauthorized call, the deletion of the resources of a realm that is not to be
-- preserved fails after that one request, at any fuel but zero.
pub delete_resource_stuck :
    (cluster : Cluster) (refresh : List Call → Result Api) (spec : RealmSpec)
    (alias message : String) (aliases : List String) (fuel : ℕ) (s : State)
    → spec.identity_providers ≡ alias ∷ aliases
    → s.client.on_delete_identity_provider s.session.calls spec.realm_name alias
      ≡ err (api 404 message)
    → is_unauthorized_error cluster (api 404 message) ≡ false
    → delete_resource cluster refresh spec (suc fuel) false s
      ≡ some (
        err (wrapf "unable to delete realm idp %q: %w" (alias ∷ []) (api 404 message)),
        record s {
          session = record (s.session) {
            calls = delete_identity_provider spec.realm_name alias ∷ s.session.calls;
          };
        },
      )
unfolding delete_resource next
delete_resource_stuck cluster refresh spec alias message aliases fuel s listed unknown other =
    let s' : State = record s {
      session = record (s.session) {
        calls = delete_identity_provider spec.realm_name alias ∷ s.session.calls;
      };
    } in
    let failed =
      ap (λ items. delete_providers cluster refresh spec items s) listed
      ∙ delete_providers_stuck cluster refresh spec alias message aliases s unknown other in
    rw
      (repeat_fails fuel (delete_providers cluster refresh spec spec.identity_providers) s s'
        (wrapf "unable to delete realm idp %q: %w" (alias ∷ []) (api 404 message)) failed)
      refl
