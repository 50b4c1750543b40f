-- ===== src/AuthFlow/CreateOrUpdate.antt =====
-- internal/controller/keycloakauthflow/chain/create_or_update_auth_flow.go: the first handler of
-- the chain, which makes the flow exist.
pub mod Children
pub mod TopLevel
use keycloak_config_sync_ope.Base.{
  ℕ, zero, suc, ◌+◌, ◌-◌, ◌≤◌, ◌<◌, ◌<>◌, ◌≡◌, refl, sym, ap, ◌∙◌, subst, ◌≢◌, ◌↔◌, ◌⊎◌, inl, inr,
  Bool, true, false, not, ◌&&◌, ◌||◌, Option, none, some, List, [], ◌∷◌, ◌++◌, map, arith, String,
  ltb, leb, nat_eq, if◌then◌else◌, Bool-cases, Option-cases, ◌==◌, String_discrete, ==_refl,
  eq_of_==, contains, or_empty, length, get_elem?, select, All, All-append, All-get_elem?, All-map,
  Err, errorf, wrapf, sentinel, Result, ok, err, is_ok, Extends, same, more, Extends-trans,
  Extends-after, Result-cases, Act, pure, fail, ◌>>=◌, ◌>>◌, wrap,
}
use keycloak_config_sync_ope.AuthFlow.{
  RealmRef, AuthenticatorConfig, AuthenticationExecution, KeycloakAuthFlowSpec,
  KeycloakAuthFlowStatus, ExecutionInfo, AuthFlowRepresentation, FlowInfo, ChildFlow, NewExecution,
  Call, get_auth_flows, create_auth_flow, update_auth_flow, delete_auth_flow, get_flow_executions,
  add_child_flow, add_execution, update_execution, delete_execution, create_execution_config,
  get_realm, update_realm_browser_flow, list_auth_flows, Api, World, request, set_id, get_id,
  do_get_auth_flows, do_get_flow_executions, do_update_execution, do_delete_execution,
}
use keycloak_config_sync_ope.Keycloakv2.{resource_id, is_not_found}
use keycloak_config_sync_ope.Base.Int.{ℤ, pos, negsuc, eq_ℤ, int32}
use keycloak_config_sync_ope.Base.Dict
use keycloak_config_sync_ope.Base.Dict.{Dict}

unfoldable pub auth_flow_rep_from_spec : KeycloakAuthFlowSpec → AuthFlowRepresentation
auth_flow_rep_from_spec spec = record {
  alias = spec.alias;
  description = spec.description;
  provider_id = spec.provider_id;
  built_in = spec.built_in;
  top_level = spec.top_level;
}

-- `p != nil && *p == s`
abbrev pub points_to : Option String → String → Bool
points_to none s = false
points_to (some t) s = t == s

unfoldable pub find_exec_by_display_name : List ExecutionInfo → String → Option ExecutionInfo
find_exec_by_display_name [] name = none
find_exec_by_display_name (e ∷ execs) name =
    if points_to e.display_name name then some e else find_exec_by_display_name execs name

-- `p != nil && *p`
abbrev pub is_set : Option Bool → Bool
is_set none = false
is_set (some b) = b

-- `p != nil && *p == 0`
abbrev pub is_zero : Option ℤ → Bool
is_zero none = false
is_zero (some n) = eq_ℤ n (pos 0)

-- A child flow of its own among the executions of a flow.
abbrev pub is_child_flow : ExecutionInfo → Bool
is_child_flow e = is_set e.authentication_flow && is_zero e.level

-- The child flows that the spec lists.
unfoldable pub expected_child_flows : List AuthenticationExecution → ℕ
expected_child_flows [] = 0
expected_child_flows (e ∷ execs) =
    let n = expected_child_flows execs in if e.authenticator_flow then suc n else n

unfoldable pub created_child_flows : List ExecutionInfo → ℕ
created_child_flows [] = 0
created_child_flows (e ∷ execs) =
    let n = created_child_flows execs in if is_child_flow e then suc n else n

abbrev pub child_flow_from_spec : KeycloakAuthFlowSpec → ChildFlow
child_flow_from_spec spec = record {
  alias = spec.alias;
  description = spec.description;
  provider = spec.provider_id;
  type_name = spec.child_type;
}

module _ (api : Api) (realm : String) (spec : KeycloakAuthFlowSpec) where
  unfoldable pub validate_child_flows : Act World (Unit {0})
  unfolding expected_child_flows created_child_flows
  validate_child_flows =
      if nat_eq (expected_child_flows spec.authentication_executions) 0 then pure tt else do
        execs ←
            wrap "failed to get flow executions for validation: %w" []
              (do_get_flow_executions api realm spec.alias)
        if ltb (created_child_flows execs) (expected_child_flows spec.authentication_executions)
            then fail (errorf "not all child flows have been created yet" [])
            else pure tt

  -- What follows once the loop has found the flow.
  update_found : Option String → Act World (Unit {0})
  unfolding validate_child_flows auth_flow_rep_from_spec
  update_found none = fail (errorf "auth flow %q has no ID" (spec.alias ∷ []))
  update_found (some id) = do
    set_id id
    wrap "failed to update auth flow: %w" [] (
        request (update_auth_flow realm id (auth_flow_rep_from_spec spec))
          (λ h. api.on_update_auth_flow h realm id (auth_flow_rep_from_spec spec)))
    validate_child_flows

  create_top_level : Act World (Unit {0})
  unfolding validate_child_flows auth_flow_rep_from_spec resource_id
  create_top_level = do
    location ← wrap "failed to create auth flow: %w" [] (
        request (create_auth_flow realm (auth_flow_rep_from_spec spec))
          (λ h. api.on_create_auth_flow h realm (auth_flow_rep_from_spec spec)))
    set_id (resource_id api.urls location)
    if resource_id api.urls location == ""
        then fail
            (errorf "auth flow Location header missing or empty for alias %q" (spec.alias ∷ []))
        else validate_child_flows

  -- The loop over the flows that Keycloak lists.
  find_and_update : List FlowInfo → Act World (Unit {0})
  unfolding update_found create_top_level
  find_and_update [] = create_top_level
  find_and_update (flow ∷ flows) =
      let rest = find_and_update flows in
      if points_to flow.alias spec.alias then update_found flow.id else rest

  unfoldable pub serve_top_level_flow : Act World (Unit {0})
  unfolding find_and_update
  serve_top_level_flow = do
    flows ← wrap "failed to get auth flows: %w" [] (do_get_auth_flows api realm)
    find_and_update flows

  -- The entry of the child flow in its parent, after it was made where it was missing.
  ensure_child : Option ExecutionInfo → Act World (Option ExecutionInfo)
  unfolding find_exec_by_display_name
  ensure_child (some e) = pure (some e)
  ensure_child none = do
    wrap "failed to create child auth flow: %w" [] (
        request (add_child_flow realm spec.parent_name (child_flow_from_spec spec))
          (λ h. api.on_add_child_flow h realm spec.parent_name (child_flow_from_spec spec)))
    execs ←
        wrap "failed to get parent flow executions after child creation: %w" []
          (do_get_flow_executions api realm spec.parent_name)
    pure (find_exec_by_display_name execs spec.alias)

  -- `if existing != nil && existing.FlowId != nil { flow.Status.ID = *existing.FlowId }`
  record_flow_id : Option ExecutionInfo → Act World (Unit {0})
  record_flow_id none = pure tt
  record_flow_id (some e) = elim e.flow_id [ none ↦ pure tt | some id ↦ set_id id ]

  update_requirement : Option ExecutionInfo → Act World (Unit {0})
  update_requirement none = pure tt
  update_requirement (some e) =
      if spec.child_requirement == "" || or_empty e.requirement == spec.child_requirement
      then pure tt
      else wrap "failed to update child flow requirement: %w" [] (
          do_update_execution api realm spec.parent_name
            (record e { requirement = some spec.child_requirement }))

  unfoldable pub serve_child_flow : Act World (Unit {0})
  unfolding ensure_child record_flow_id update_requirement validate_child_flows
      find_exec_by_display_name
  serve_child_flow = do
    execs ←
        wrap "failed to get parent flow executions: %w" []
          (do_get_flow_executions api realm spec.parent_name)
    existing ← ensure_child (find_exec_by_display_name execs spec.alias)
    record_flow_id existing
    update_requirement existing
    validate_child_flows

  unfoldable pub serve : Act World (Unit {0})
  unfolding serve_child_flow serve_top_level_flow
  serve = if not (spec.parent_name == "") then serve_child_flow else serve_top_level_flow
