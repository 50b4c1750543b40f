-- ===== src/AuthFlow/Sync.antt =====
-- internal/controller/keycloakauthflow/chain/sync_auth_flow_executions.go: the second handler of the
-- chain, which gives the flow its executions. `sort_slice` is the sort of `sort.Slice`, which may
-- leave entries of one priority in any order.
pub mod Clearing
pub mod Adding
pub mod Adjusting
pub mod Serving
use keycloak_config_sync_ope.Base.{
  ℕ, zero, suc, ◌+◌, ◌-◌, ◌≤◌, ◌<◌, ◌<>◌, ◌≡◌, refl, sym, ap, ◌∙◌, subst, ◌≢◌, ◌↔◌, ◌⊎◌, inl, inr,
  Bool, true, false, not, ◌&&◌, ◌||◌, Option, none, some, List, [], ◌∷◌, ◌++◌, map, arith, String,
  ltb, leb, nat_eq, if◌then◌else◌, Bool-cases, Option-cases, ◌==◌, String_discrete, ==_refl,
  eq_of_==, contains, or_empty, length, get_elem?, select, All, All-append, All-get_elem?, All-map,
  Err, errorf, wrapf, sentinel, Result, ok, err, is_ok, Extends, same, more, Extends-trans,
  Extends-after, Result-cases, Act, pure, fail, ◌>>=◌, ◌>>◌, wrap,
}
use keycloak_config_sync_ope.AuthFlow.{
  RealmRef, AuthenticatorConfig, AuthenticationExecution, KeycloakAuthFlowSpec,
  KeycloakAuthFlowStatus, ExecutionInfo, AuthFlowRepresentation, FlowInfo, ChildFlow, NewExecution,
  Call, get_auth_flows, create_auth_flow, update_auth_flow, delete_auth_flow, get_flow_executions,
  add_child_flow, add_execution, update_execution, delete_execution, create_execution_config,
  get_realm, update_realm_browser_flow, list_auth_flows, Api, World, request, set_id, get_id,
  do_get_auth_flows, do_get_flow_executions, do_update_execution, do_delete_execution,
}
use keycloak_config_sync_ope.Keycloakv2.{resource_id, is_not_found}
use keycloak_config_sync_ope.Base.Int.{ℤ, pos, negsuc, eq_ℤ, int32}
use keycloak_config_sync_ope.Base.Dict
use keycloak_config_sync_ope.Base.Dict.{Dict}
use keycloak_config_sync_ope.AuthFlow.CreateOrUpdate.{is_set, is_zero}

-- The test of the loop of `clearNonFlowExecutions`.
abbrev pub is_cleared : ExecutionInfo → Bool
is_cleared e = not (is_set e.authentication_flow) && is_zero e.level && not (or_empty e.id == "")

-- The map of `adjustChildFlowsPriority` from aliases to flow-type entries of the spec.
unfoldable pub child_flow_specs :
    List AuthenticationExecution → Dict AuthenticationExecution → Dict AuthenticationExecution
child_flow_specs [] m = m
child_flow_specs (e ∷ execs) m =
    child_flow_specs execs (if e.authenticator_flow then Dict.insert e.alias e m else m)

-- `specEntry.Requirement != "" && (e.Requirement == nil || *e.Requirement != specEntry.Requirement)`
abbrev pub wants_requirement : String → Option String → Bool
wants_requirement wanted none = not (wanted == "")
wants_requirement wanted (some r) = not (wanted == "") && not (r == wanted)

-- `e.Priority == nil || *e.Priority != expectedPriority`
abbrev pub wants_priority : ℤ → Option ℤ → Bool
wants_priority expected none = true
wants_priority expected (some p) = not (eq_ℤ p expected)

-- The entry with the requirement and the priority of the spec, and whether one of them is new.
unfoldable pub adjust : AuthenticationExecution → ExecutionInfo → ExecutionInfo × Bool
unfolding int32
adjust entry e =
    let new_requirement = wants_requirement entry.requirement e.requirement in
    let new_priority = wants_priority (int32 entry.priority) e.priority in
    (
      record e {
        requirement = if new_requirement then some entry.requirement else e.requirement;
        priority = if new_priority then some (int32 entry.priority) else e.priority;
      },
      new_requirement || new_priority,
    )

-- The entry of the spec for an execution: it is a child flow of its own, with a known alias.
unfoldable pub spec_entry :
    Dict AuthenticationExecution → ExecutionInfo → Option AuthenticationExecution
spec_entry specs e =
    if not (is_set e.authentication_flow) || not (is_zero e.level)
    then none
    else elim e.display_name [ none ↦ none | some name ↦ Dict.lookup name specs ]

-- What the loop of `adjustChildFlowsPriority` sends for an execution, if anything.
unfoldable pub adjustment : Dict AuthenticationExecution → ExecutionInfo → Option ExecutionInfo
unfolding spec_entry adjust
adjustment specs e = elim (spec_entry specs e) [
  | none ↦ none
  | some entry ↦ if (adjust entry e).1 then some (adjust entry e).0 else none
]

-- The executions of the spec that are no flows of their own.
abbrev pub execs_to_add : KeycloakAuthFlowSpec → List AuthenticationExecution
execs_to_add spec = select (λ e. not e.authenticator_flow) spec.authentication_executions

module _ (api : Api) (realm : String) where
  unfoldable pub delete_executions : List ExecutionInfo → Act World (Unit {0})
  delete_executions [] = pure tt
  delete_executions (e ∷ execs) =
      let rest = delete_executions execs in
      if is_cleared e
      then (do
        wrap "failed to delete execution %q: %w" (or_empty e.id ∷ [])
            (do_delete_execution api realm (or_empty e.id))
        rest)
      else rest

  unfoldable pub clear_non_flow_executions : String → Act World (Unit {0})
  unfolding delete_executions
  clear_non_flow_executions alias = do
    execs ← wrap "failed to get flow executions: %w" [] (do_get_flow_executions api realm alias)
    delete_executions execs

  unfoldable pub add_execution_to_flow : String → String → String → Act World String
  unfolding resource_id
  add_execution_to_flow flow_id authenticator requirement =
      let e : NewExecution = record {
        authenticator = authenticator;
        parent_flow = flow_id;
        requirement = requirement;
      } in
      do
        location ←
            wrap "failed to post execution: %w" []
              (request (add_execution realm e) (λ h. api.on_add_execution h realm e))
        if resource_id api.urls location == ""
            then fail (
                errorf "execution Location header missing or empty for authenticator %q"
                  (authenticator ∷ []))
            else pure (resource_id api.urls location)

  create_config : String → AuthenticatorConfig → Act World (Unit {0})
  create_config exec_id config = wrap "failed to create execution config: %w" [] (
      request (create_execution_config realm exec_id config)
        (λ h. api.on_create_execution_config h realm exec_id config))

  configure : String → String → Option AuthenticatorConfig → Act World (Unit {0})
  unfolding create_config
  configure authenticator exec_id none = pure tt
  configure authenticator exec_id (some config) =
      wrap "failed to create config for execution %q: %w" (authenticator ∷ [])
        (create_config exec_id config)

  unfoldable pub add_executions : String → List AuthenticationExecution → Act World (Unit {0})
  unfolding add_execution_to_flow configure
  add_executions flow_id [] = pure tt
  add_executions flow_id (e ∷ execs) = do
    exec_id ←
        wrap "failed to add execution %q: %w" (e.authenticator ∷ [])
          (add_execution_to_flow flow_id e.authenticator e.requirement)
    configure e.authenticator exec_id e.authenticator_config
    add_executions flow_id execs

  unfoldable pub adjust_all :
      Dict AuthenticationExecution → String → List ExecutionInfo → Act World (Unit {0})
  unfolding adjustment
  adjust_all specs alias [] = pure tt
  adjust_all specs alias (e ∷ execs) =
      let rest = adjust_all specs alias execs in
      elim (adjustment specs e) [
        | none ↦ rest
        | some e' ↦ (do
          wrap "failed to update priority for child flow %q: %w" (or_empty e.display_name ∷ [])
              (do_update_execution api realm alias e')
          rest)
      ]

  adjust_known : String → Dict AuthenticationExecution → Act World (Unit {0})
  unfolding adjust_all
  adjust_known alias [] = pure tt
  adjust_known alias (s ∷ specs) = do
    execs ←
        wrap "failed to get flow executions for priority adjustment: %w" []
          (do_get_flow_executions api realm alias)
    adjust_all (s ∷ specs) alias execs

  module _ (spec : KeycloakAuthFlowSpec) where
    unfoldable pub adjust_child_flows_priority : Act World (Unit {0})
    unfolding adjust_known child_flow_specs
    adjust_child_flows_priority =
        adjust_known spec.alias (child_flow_specs spec.authentication_executions [])

    module _ (sort_slice : List AuthenticationExecution → List AuthenticationExecution) where
      -- What `Serve` does with the executions that are to be added.
      sync_executions : List AuthenticationExecution → Act World (Unit {0})
      unfolding adjust_child_flows_priority add_executions
      sync_executions [] = adjust_child_flows_priority
      sync_executions (e ∷ execs) = do
        flow_id ← get_id
        if flow_id == ""
            then fail (
                errorf "flow ID is empty for alias %q; ensure CreateOrUpdateAuthFlow ran first"
                  (spec.alias ∷ []))
            else (do add_executions flow_id (sort_slice (e ∷ execs)); adjust_child_flows_priority)

      unfoldable pub serve : Act World (Unit {0})
      unfolding clear_non_flow_executions sync_executions
      serve = do
        wrap "failed to clear flow executions: %w" [] (clear_non_flow_executions spec.alias)
        sync_executions (execs_to_add spec)
