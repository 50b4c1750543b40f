-- ===== src/AuthFlow/Remove/BrowserFlow.antt =====
-- The browser flow of the realm before its flow is deleted.
use keycloak_config_sync_ope.Base.{
  ◌≡◌, ◌≢◌, ◌⊎◌, Bool, true, false, ◌||◌, Option, List, [], ◌∷◌, String, ok,
}
use keycloak_config_sync_ope.AuthFlow.{
  KeycloakAuthFlowSpec, FlowInfo, get_auth_flows, get_realm, update_realm_browser_flow, Api, World,
}
use keycloak_config_sync_ope.Base.Dict.{Dict}
use keycloak_config_sync_ope.AuthFlow.CreateOrUpdate.{points_to}

-- Keycloak has listed a flow of that alias.
abbrev pub is_listed : String → List FlowInfo → Bool
is_listed alias [] = false
is_listed alias (flow ∷ flows) = points_to flow.alias alias || is_listed alias flows

-- Where the browser flow of a realm was not the flow at hand, nothing is changed. Otherwise it is
-- another flow, which Keycloak has listed, and Keycloak has accepted it.
abbrev pub IsUnset : Api → String → KeycloakAuthFlowSpec → World → World → Type 0
IsUnset api realm spec w w' =
    ((browser_flow : Option String) × (api.on_get_realm w.calls realm ≡ ok browser_flow)
      × (points_to browser_flow spec.alias ≡ false)
      × (w' ≡ record w { calls = get_realm realm ∷ w.calls }))
    ⊎ ((flows : List FlowInfo) × (alias : String) × (api.on_get_auth_flows
            (get_realm realm ∷ w.calls) realm
          ≡ ok flows)
        × (is_listed alias flows ≡ true)
        × (alias ≢ spec.alias)
        × (api.on_update_realm (get_auth_flows realm ∷ get_realm realm ∷ w.calls) realm alias
            ≡ ok tt)
        × (w' ≡ record w {
          calls =
              update_realm_browser_flow realm alias
              ∷ get_auth_flows realm
              ∷ get_realm realm
              ∷ w.calls;
        }))
