-- ===== src/AuthFlow/Remove.antt =====
-- internal/controller/keycloakauthflow/chain/remove_auth_flow.go: the deletion of a flow.
pub mod Guards
pub mod BrowserFlow
pub mod Missing
use keycloak_config_sync_ope.Base.{
  ℕ, zero, suc, ◌+◌, ◌-◌, ◌≤◌, ◌<◌, ◌<>◌, ◌≡◌, refl, sym, ap, ◌∙◌, subst, ◌≢◌, ◌↔◌, ◌⊎◌, inl, inr,
  Bool, true, false, not, ◌&&◌, ◌||◌, Option, none, some, List, [], ◌∷◌, ◌++◌, map, arith, String,
  ltb, leb, nat_eq, if◌then◌else◌, Bool-cases, Option-cases, ◌==◌, String_discrete, ==_refl,
  eq_of_==, contains, or_empty, length, get_elem?, select, All, All-append, All-get_elem?, All-map,
  Err, errorf, wrapf, sentinel, Result, ok, err, is_ok, Extends, same, more, Extends-trans,
  Extends-after, Result-cases, Act, pure, fail, ◌>>=◌, ◌>>◌, wrap,
}
use keycloak_config_sync_ope.AuthFlow.{
  RealmRef, AuthenticatorConfig, AuthenticationExecution, KeycloakAuthFlowSpec,
  KeycloakAuthFlowStatus, ExecutionInfo, AuthFlowRepresentation, FlowInfo, ChildFlow, NewExecution,
  Call, get_auth_flows, create_auth_flow, update_auth_flow, delete_auth_flow, get_flow_executions,
  add_child_flow, add_execution, update_execution, delete_execution, create_execution_config,
  get_realm, update_realm_browser_flow, list_auth_flows, Api, World, request, set_id, get_id,
  do_get_auth_flows, do_get_flow_executions, do_update_execution, do_delete_execution,
}
use keycloak_config_sync_ope.Keycloakv2.{resource_id, is_not_found}
use keycloak_config_sync_ope.Base.Int.{ℤ, pos, negsuc, eq_ℤ, int32}
use keycloak_config_sync_ope.Base.Dict
use keycloak_config_sync_ope.Base.Dict.{Dict}
use keycloak_config_sync_ope.ObjectMeta.{preserve_resources_on_deletion}
use keycloak_config_sync_ope.AuthFlow.CreateOrUpdate.{points_to}

-- The test of the loop of `checkNoChildFlows`: an object of the same realm whose parent is the flow.
abbrev pub is_child_of : KeycloakAuthFlowSpec → KeycloakAuthFlowSpec → Bool
is_child_of spec item =
    item.realm_ref.name == spec.realm_ref.name
    && item.realm_ref.kind == spec.realm_ref.kind
    && item.parent_name == spec.alias

unfoldable pub first_child :
    KeycloakAuthFlowSpec → List KeycloakAuthFlowSpec → Option KeycloakAuthFlowSpec
first_child spec [] = none
first_child spec (item ∷ items) =
    if is_child_of spec item then some item else first_child spec items

-- The alias of the first flow that is not the one to replace; the empty text if there is none.
unfoldable pub replacement : String → List FlowInfo → String
replacement flow_alias [] = ""
replacement flow_alias (flow ∷ flows) = elim flow.alias [
  | none ↦ replacement flow_alias flows
  | some a ↦ if not (a == flow_alias) then a else replacement flow_alias flows
]

-- The end of the loop of `checkNoChildFlows`.
report_child : KeycloakAuthFlowSpec → Option KeycloakAuthFlowSpec → Act World (Unit {0})
report_child spec none = pure tt
report_child spec (some item) =
    fail (errorf "cannot delete flow %q: child flow %q still exists" (spec.alias ∷ item.alias ∷ []))

-- A deletion whose failure is ignored if Keycloak does not know what is deleted.
skip_missing : String → Result (Unit {0}) → Act World (Unit {0})
skip_missing message (ok _) w = (ok tt, w)
skip_missing message (err e) w =
    if is_not_found e then (ok tt, w) else (err (wrapf message [] e), w)

module _ (api : Api) (annotations : Dict String) (realm : String)
    (spec : KeycloakAuthFlowSpec) where
  unfoldable pub check_no_child_flows : Act World (Unit {0})
  unfolding first_child report_child
  check_no_child_flows = do
    items ←
        wrap "failed to list KeycloakAuthFlow resources: %w" []
          (request list_auth_flows (λ h. api.on_list_auth_flows h))
    report_child spec (first_child spec items)

  delete_execution_of : String → Act World (Unit {0})
  unfolding skip_missing
  delete_execution_of id w =
      let answer = do_delete_execution api realm id w in
      skip_missing "failed to delete child flow execution: %w" answer.0 answer.1

  delete_child : Option String → Act World (Unit {0})
  unfolding delete_execution_of
  delete_child none = fail (errorf "child flow execution %q has no ID" (spec.alias ∷ []))
  delete_child (some id) = delete_execution_of id

  -- The loop over the executions of the parent.
  delete_first_child : List ExecutionInfo → Act World (Unit {0})
  unfolding delete_child
  delete_first_child [] = pure tt
  delete_first_child (e ∷ execs) =
      let rest = delete_first_child execs in
      if not (points_to e.display_name spec.alias) then rest else delete_child e.id

  -- What follows the list of the executions of the parent.
  delete_listed_child : Result (List ExecutionInfo) → Act World (Unit {0})
  unfolding delete_first_child
  delete_listed_child (ok execs) w = delete_first_child execs w
  delete_listed_child (err e) w =
      if is_not_found e
      then (ok tt, w)
      else (err (wrapf "failed to get parent flow executions: %w" [] e), w)

  unfoldable pub delete_child_flow : Act World (Unit {0})
  unfolding delete_listed_child
  delete_child_flow w =
      let listed = do_get_flow_executions api realm spec.parent_name w in
      delete_listed_child listed.0 listed.1

  -- What follows the choice of another flow.
  replace_browser_flow : String → Act World (Unit {0})
  replace_browser_flow alias =
      if alias == ""
      then fail (errorf "no replacement flow found for browser flow %q" (spec.alias ∷ []))
      else wrap "failed to update realm browser flow: %w" []
          (request (update_realm_browser_flow realm alias) (λ h. api.on_update_realm h realm alias))

  -- What follows the test of the browser flow.
  unset_used_flow : Bool → Act World (Unit {0})
  unfolding replacement replace_browser_flow
  unset_used_flow false = pure tt
  unset_used_flow true = do
    flows ← wrap "failed to get auth flows: %w" [] (do_get_auth_flows api realm)
    replace_browser_flow (replacement spec.alias flows)

  unfoldable pub unset_browser_flow : Act World (Unit {0})
  unfolding unset_used_flow
  unset_browser_flow = do
    browser_flow ←
        wrap "failed to get realm: %w" []
          (request (get_realm realm) (λ h. api.on_get_realm h realm))
    unset_used_flow (points_to browser_flow spec.alias)

  pub delete_flow_of : String → Act World (Unit {0})
  unfolding skip_missing
  delete_flow_of id w =
      let answer =
        request (delete_auth_flow realm id) (λ h. api.on_delete_auth_flow h realm id) w in
      skip_missing "failed to delete auth flow: %w" answer.0 answer.1

  delete_flow : String → Act World (Unit {0})
  unfolding unset_browser_flow delete_flow_of
  delete_flow flow_id = if flow_id == "" then pure tt else (do
    wrap "failed to unset browser flow: %w" [] unset_browser_flow
    delete_flow_of flow_id)

  unfoldable pub delete_top_level_flow : Act World (Unit {0})
  unfolding delete_flow
  delete_top_level_flow = do flow_id ← get_id; delete_flow flow_id

  unfoldable pub serve : Act World (Unit {0})
  unfolding preserve_resources_on_deletion check_no_child_flows delete_child_flow
      delete_top_level_flow
  serve = if preserve_resources_on_deletion annotations then pure tt else (do
    check_no_child_flows
    if not (spec.parent_name == "") then delete_child_flow else delete_top_level_flow)
