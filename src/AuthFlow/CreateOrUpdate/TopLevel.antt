-- ===== src/AuthFlow/CreateOrUpdate/TopLevel.antt =====
-- The calls that the first handler may make, and that it makes no other for a top-level flow.
use keycloak_config_sync_ope.Base.{
  ◌≡◌, refl, sym, ◌≢◌, ◌⊎◌, Bool, true, false, ◌||◌, Option, none, some, List, [], ◌∷◌, arith,
  String, if◌then◌else◌, ◌==◌, errorf, ok, Extends, same, more, Act, fail, ◌>>◌, wrap,
}
use keycloak_config_sync_ope.AuthFlow.{
  KeycloakAuthFlowSpec, ExecutionInfo, FlowInfo, Call, get_auth_flows, create_auth_flow,
  update_auth_flow, get_flow_executions, add_child_flow, update_execution, Api, World, request,
  set_id, do_get_auth_flows,
}
use keycloak_config_sync_ope.Keycloakv2.{resource_id}
use keycloak_config_sync_ope.AuthFlow.Traces.{
  Allows, wrap-eq-ok, >>=-Extends, if-Allows, if-Extends,
}
use keycloak_config_sync_ope.AuthFlow.CreateOrUpdate.{
  auth_flow_rep_from_spec, child_flow_from_spec, points_to, find_exec_by_display_name,
  validate_child_flows, update_found, create_top_level, find_and_update, serve_top_level_flow,
}

-- Keycloak has listed a flow of that alias.
abbrev pub is_listed : String → List FlowInfo → Bool
is_listed alias [] = false
is_listed alias (flow ∷ flows) = points_to flow.alias alias || is_listed alias flows

module _ (api : Api) (realm : String) (spec : KeycloakAuthFlowSpec) (start : World) where
  -- What a call may be, by its kind.
  abbrev pub IsEnsuring : Call → Type 0
  IsEnsuring (get_auth_flows r) = (r ≡ realm) × (spec.parent_name ≡ "")
  IsEnsuring (get_flow_executions r alias) =
      (r ≡ realm) × ((alias ≡ spec.alias) ⊎ (alias ≡ spec.parent_name))
  IsEnsuring (create_auth_flow r rep) =
      (r ≡ realm)
      × (spec.parent_name ≡ "")
      × (rep ≡ auth_flow_rep_from_spec spec)
      × ((flows : List FlowInfo) × (api.on_get_auth_flows start.calls realm ≡ ok flows)
          × (is_listed spec.alias flows ≡ false))
  IsEnsuring (update_auth_flow r id rep) =
      (r ≡ realm)
      × (spec.parent_name ≡ "")
      × (rep ≡ auth_flow_rep_from_spec spec)
      × ((flows : List FlowInfo) × (api.on_get_auth_flows start.calls realm ≡ ok flows)
          × (is_listed spec.alias flows ≡ true))
  IsEnsuring (add_child_flow r parent child) =
      (r ≡ realm)
      × (parent ≡ spec.parent_name)
      × (parent ≢ "")
      × (child ≡ child_flow_from_spec spec)
      × ((execs : List ExecutionInfo) × (api.on_get_flow_executions start.calls realm parent
            ≡ ok execs)
          × (find_exec_by_display_name execs spec.alias ≡ none))
  IsEnsuring (update_execution r parent e) =
      (r ≡ realm)
      × (parent ≡ spec.parent_name)
      × (parent ≢ "")
      × (points_to e.display_name spec.alias ≡ true)
      × (e.requirement ≡ some spec.child_requirement)
      × (spec.child_requirement ≢ "")
  IsEnsuring _ = ⊥

  pub validate_child_flows-Allows : Allows IsEnsuring (validate_child_flows api realm spec)
  unfolding validate_child_flows
  validate_child_flows-Allows w = grind (arith, more, same)

  module _ (top : spec.parent_name ≡ "") (flows : List FlowInfo)
      (listed : api.on_get_auth_flows start.calls realm ≡ ok flows) where
    update_found-Allows :
        is_listed spec.alias flows ≡ true
        → (id : Option String) → Allows IsEnsuring (update_found api realm spec id)
    unfolding update_found
    update_found-Allows known none w = same
    update_found-Allows known (some id) w =
        let rep = auth_flow_rep_from_spec spec in
        let send : Act World (Unit {0}) =
          wrap "failed to update auth flow: %w" [] (
            request (update_auth_flow realm id rep)
              (λ h. api.on_update_auth_flow h realm id rep)) in
        let w' : World = record w { status = record (w.status) { id = id } } in
        >>=-Extends IsEnsuring send (λ _. validate_child_flows api realm spec) w'
          (more (update_auth_flow realm id rep) (refl, top, refl, (flows, listed, known)) same)
          (λ _ _. validate_child_flows-Allows (send w').1)

    create_top_level-Allows :
        is_listed spec.alias flows ≡ false → Allows IsEnsuring (create_top_level api realm spec)
    unfolding create_top_level
    create_top_level-Allows unknown w =
        let rep = auth_flow_rep_from_spec spec in
        let send : Act World (Option String) =
          wrap "failed to create auth flow: %w" []
            (request (create_auth_flow realm rep) (λ h. api.on_create_auth_flow h realm rep)) in
        let missing : Act World (Unit {0}) =
          fail
            (errorf "auth flow Location header missing or empty for alias %q" (spec.alias ∷ [])) in
        let check =
          λ (id : String). if id == "" then missing else validate_child_flows api realm spec in
        >>=-Extends IsEnsuring send
          (λ location.
            set_id (resource_id api.urls location) >> check (resource_id api.urls location))
          w (more (create_auth_flow realm rep) (refl, top, refl, (flows, listed, unknown)) same)
          (λ location _.
            if-Allows IsEnsuring (resource_id api.urls location == "") missing
              (validate_child_flows api realm spec) (λ _ w. same) (λ _. validate_child_flows-Allows)
              (set_id (resource_id api.urls location) (send w).1).1)

    find_and_update-Allows :
        (left : List FlowInfo)
        → is_listed spec.alias left ≡ is_listed spec.alias flows
        → Allows IsEnsuring (find_and_update api realm spec left)
    unfolding find_and_update
    find_and_update-Allows [] same_test w = create_top_level-Allows (sym same_test) w
    find_and_update-Allows (flow ∷ left) same_test w =
        if-Extends IsEnsuring (points_to flow.alias spec.alias)
          (update_found api realm spec flow.id) (find_and_update api realm spec left) w
          (λ found. update_found-Allows (ground arith) flow.id w)
          (λ other. find_and_update-Allows left (ground arith) w)

  pub serve_top_level_flow-Allows :
      spec.parent_name ≡ ""
      → Extends IsEnsuring start.calls (serve_top_level_flow api realm spec start).1.calls
  unfolding serve_top_level_flow
  serve_top_level_flow-Allows top =
      let list : Act World (List FlowInfo) =
        wrap "failed to get auth flows: %w" [] (do_get_auth_flows api realm) in
      >>=-Extends IsEnsuring list (find_and_update api realm spec) start
        (more (get_auth_flows realm) (refl, top) same)
        (λ flows listed.
          find_and_update-Allows top flows
            (wrap-eq-ok "failed to get auth flows: %w" [] (do_get_auth_flows api realm) start
              listed)
            flows refl (list start).1)
