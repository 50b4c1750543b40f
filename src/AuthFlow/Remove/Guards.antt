-- ===== src/AuthFlow/Remove/Guards.antt =====
-- What a deletion of a flow may do, for every answer of Keycloak and of Kubernetes.
use keycloak_config_sync_ope.Base.{
  ◌≡◌, refl, ◌≢◌, ◌⊎◌, inl, inr, Bool, true, false, not, Option, none, some, List, [], ◌∷◌, arith,
  String, if◌then◌else◌, Bool-cases, Option-cases, ◌==◌, All, Result, ok, err, Extends, same, more,
  Extends-after, Result-cases, Act, pure, ◌>>◌, wrap,
}
use keycloak_config_sync_ope.AuthFlow.{
  KeycloakAuthFlowSpec, ExecutionInfo, FlowInfo, Call, get_auth_flows, delete_auth_flow,
  get_flow_executions, delete_execution, get_realm, update_realm_browser_flow, list_auth_flows, Api,
  World, request, do_get_auth_flows,
}
use keycloak_config_sync_ope.Base.Dict.{Dict}
use keycloak_config_sync_ope.ObjectMeta.{preserve_resources_on_deletion}
use keycloak_config_sync_ope.AuthFlow.CreateOrUpdate.{points_to}
use keycloak_config_sync_ope.AuthFlow.Traces.{
  Allows, pure-Allows, >>=-Allows, if-Allows, if-Extends, >>-Extends,
}
use keycloak_config_sync_ope.AuthFlow.Remove.{
  is_child_of, first_child, replacement, check_no_child_flows, delete_flow_of, replace_browser_flow,
  unset_used_flow, delete_listed_child, delete_child, delete_first_child, delete_child_flow,
  unset_browser_flow, delete_flow, delete_top_level_flow, serve,
}

first_child-none :
    (spec : KeycloakAuthFlowSpec) (items : List KeycloakAuthFlowSpec)
    → first_child spec items ≡ none
    → All (λ item. is_child_of spec item ≡ false) items
unfolding first_child
first_child-none spec [] h = tt
first_child-none spec (item ∷ items) h = elim (Bool-cases (is_child_of spec item)) [
  | inl child ↦ cc (rw child at h)
  | inr other ↦ (other, first_child-none spec items (rw other at h))
]

replacement-ne :
    (alias : String) (flows : List FlowInfo)
    → (replacement alias flows ≡ "") ⊎ (replacement alias flows ≢ alias)
unfolding replacement
replacement-ne alias [] = inl refl
replacement-ne alias (flow ∷ flows) = ground (arith, replacement-ne alias flows)

module _ (api : Api) (annotations : Dict String) (realm : String) (spec : KeycloakAuthFlowSpec)
    (start : World) where
  -- Kubernetes has listed the objects, and none of them is a child of the flow.
  abbrev pub HasNoChild : Type 0
  HasNoChild =
      (items : List KeycloakAuthFlowSpec) × (api.on_list_auth_flows start.calls ≡ ok items)
      × All (λ item. is_child_of spec item ≡ false) items

  -- What a call may be, by its kind.
  abbrev pub IsSafe : Call → Type 0
  IsSafe list_auth_flows = Unit
  IsSafe (get_flow_executions r alias) = (r ≡ realm) × (alias ≡ spec.parent_name)
  IsSafe (get_realm r) = r ≡ realm
  IsSafe (get_auth_flows r) = r ≡ realm
  IsSafe (delete_execution r id) = (r ≡ realm) × (spec.parent_name ≢ "") × HasNoChild
  IsSafe (update_realm_browser_flow r alias) =
      (r ≡ realm) × (spec.parent_name ≡ "") × (alias ≢ spec.alias) × HasNoChild
  IsSafe (delete_auth_flow r id) =
      (r ≡ realm) × (id ≡ start.status.id) × (id ≢ "") × (spec.parent_name ≡ "") × HasNoChild
  IsSafe _ = ⊥

  abbrev pub IsRemoval : Call → Type 0
  IsRemoval c = (preserve_resources_on_deletion annotations ≡ false) × IsSafe c

  module _ (kept : preserve_resources_on_deletion annotations ≡ false) where
    check_no_child_flows-Allows : Allows IsRemoval (check_no_child_flows api annotations realm spec)
    unfolding check_no_child_flows
    check_no_child_flows-Allows w = grind (arith, more, same)

    -- A check that succeeds has made one call and has found no child.
    check_no_child_flows_ok :
        (check_no_child_flows api annotations realm spec start).0 ≡ ok tt
        → HasNoChild
          × ((check_no_child_flows api annotations realm spec start).1
              ≡ record start { calls = list_auth_flows ∷ start.calls })
    unfolding check_no_child_flows
    check_no_child_flows_ok h = elim (Result-cases (api.on_list_auth_flows start.calls)) [
      | inr (x, e) ↦ cc (rw e at h)
      | inl (items, e) ↦ elim (Option-cases (first_child spec items)) [
        | inl empty ↦ ((items, e, first_child-none spec items empty), rw e (rw empty refl))
        | inr (item, child) ↦ cc (rw child at (rw e at h))
      ]
    ]

    module _ (alone : HasNoChild) where
      delete_child-Allows :
          spec.parent_name ≢ ""
          → (id : Option String) → Allows IsRemoval (delete_child api annotations realm spec id)
      unfolding delete_child
      delete_child-Allows parent none w = same
      delete_child-Allows parent (some id) w = grind (arith, more, same)

      delete_first_child-Allows :
          spec.parent_name ≢ ""
          → (execs : List ExecutionInfo)
          → Allows IsRemoval (delete_first_child api annotations realm spec execs)
      unfolding delete_first_child
      delete_first_child-Allows parent [] w = same
      delete_first_child-Allows parent (e ∷ execs) w =
          if-Allows IsRemoval (not (points_to e.display_name spec.alias))
            (delete_first_child api annotations realm spec execs)
            (delete_child api annotations realm spec e.id)
            (λ _. delete_first_child-Allows parent execs) (λ _. delete_child-Allows parent e.id) w

      delete_listed_child-Allows :
          spec.parent_name ≢ ""
          → (listed : Result (List ExecutionInfo))
          → Allows IsRemoval (delete_listed_child api annotations realm spec listed)
      unfolding delete_listed_child
      delete_listed_child-Allows parent (ok execs) w = delete_first_child-Allows parent execs w
      delete_listed_child-Allows parent (err e) w = grind (arith, same)

      delete_child_flow-Allows :
          spec.parent_name ≢ "" → Allows IsRemoval (delete_child_flow api annotations realm spec)
      unfolding delete_child_flow
      delete_child_flow-Allows parent w =
          Extends-after (get_flow_executions realm spec.parent_name) (kept, (refl, refl))
            (delete_listed_child-Allows parent
              (api.on_get_flow_executions w.calls realm spec.parent_name)
              (record w { calls = get_flow_executions realm spec.parent_name ∷ w.calls }))

      module _ (parent : spec.parent_name ≡ "") where
        replace_browser_flow-Allows :
            (alias : String)
            → (alias ≡ "") ⊎ (alias ≢ spec.alias)
            → Allows IsRemoval (replace_browser_flow api annotations realm spec alias)
        unfolding replace_browser_flow
        replace_browser_flow-Allows alias other w = grind (arith, more, same)

        unset_used_flow-Allows :
            (used : Bool) → Allows IsRemoval (unset_used_flow api annotations realm spec used)
        unfolding unset_used_flow
        unset_used_flow-Allows false w = same
        unset_used_flow-Allows true w =
            >>=-Allows IsRemoval {B = Unit {0}}
              (wrap "failed to get auth flows: %w" [] (do_get_auth_flows api realm))
              (λ flows.
                replace_browser_flow api annotations realm spec (replacement spec.alias flows))
              (λ w. more (get_auth_flows realm) (kept, refl) same)
              (λ flows.
                replace_browser_flow-Allows (replacement spec.alias flows)
                  (replacement-ne spec.alias flows))
              w

        unset_browser_flow-Allows : Allows IsRemoval (unset_browser_flow api annotations realm spec)
        unfolding unset_browser_flow
        unset_browser_flow-Allows =
            >>=-Allows IsRemoval {B = Unit {0}}
              (wrap "failed to get realm: %w" []
                (request (get_realm realm) (λ h. api.on_get_realm h realm)))
              (λ used. unset_used_flow api annotations realm spec (points_to used spec.alias))
              (λ w. more (get_realm realm) (kept, refl) same)
              (λ used. unset_used_flow-Allows (points_to used spec.alias))

        delete_flow_of-Allows :
            (id : String)
            → id ≡ start.status.id
            → id ≢ ""
            → Allows IsRemoval (delete_flow_of api annotations realm spec id)
        unfolding delete_flow_of
        delete_flow_of-Allows id same_id some_id w = grind (arith, more, same)

        delete_flow-Allows :
            (id : String)
            → id ≡ start.status.id
            → Allows IsRemoval (delete_flow api annotations realm spec id)
        unfolding delete_flow
        delete_flow-Allows id same_id =
            if-Allows IsRemoval (id == "") (pure tt)
              (wrap "failed to unset browser flow: %w" []
                  (unset_browser_flow api annotations realm spec)
                >> delete_flow_of api annotations realm spec id)
              (λ _. pure-Allows IsRemoval tt)
              (λ some_id.
                >>=-Allows IsRemoval {B = Unit {0}}
                  (wrap "failed to unset browser flow: %w" []
                    (unset_browser_flow api annotations realm spec))
                  (λ _. delete_flow_of api annotations realm spec id) unset_browser_flow-Allows
                  (λ _. delete_flow_of-Allows id same_id (ground arith)))

    -- What follows the check, from the state in which it leaves the handler.
    after_check-Allows :
        HasNoChild
        → Extends IsRemoval
            (list_auth_flows ∷ start.calls)
            ((if not (spec.parent_name == "")
                then delete_child_flow api annotations realm spec
                else delete_top_level_flow api annotations realm spec)
              (record start { calls = list_auth_flows ∷ start.calls })).1.calls
    unfolding delete_top_level_flow
    after_check-Allows alone =
        let w : World = record start { calls = list_auth_flows ∷ start.calls } in
        if-Extends IsRemoval (not (spec.parent_name == ""))
          (delete_child_flow api annotations realm spec)
          (delete_top_level_flow api annotations realm spec) w
          (λ child. delete_child_flow-Allows alone (ground arith) w)
          (λ top. delete_flow-Allows alone (ground arith) start.status.id refl w)

-- Whatever Keycloak and Kubernetes answer, every call of a deletion of a flow is one of these: it
-- lists the flow objects, or reads the realm, its flows or the executions of the parent, and then the
-- object is not one to be preserved. Or it deletes an execution of a parent, or it sets the
-- browser flow of the realm to another flow, or it deletes the flow whose ID is in the status and
-- not empty, and then besides Kubernetes has listed the flow objects and none was a child of the
-- flow; the first is made only for a flow with a parent, and the others for one without.
pub serve-IsRemoval :
    (api : Api) (annotations : Dict String) (realm : String) (spec : KeycloakAuthFlowSpec)
    (w : World)
    → Extends
        (IsRemoval api annotations realm spec w)
        w.calls
        (serve api annotations realm spec w).1.calls
unfolding serve
serve-IsRemoval api annotations realm spec w =
    let P = IsRemoval api annotations realm spec w in
    let check = check_no_child_flows api annotations realm spec in
    let rest : Act World (Unit {0}) =
      if not (spec.parent_name == "")
      then delete_child_flow api annotations realm spec
      else delete_top_level_flow api annotations realm spec in
    if-Extends P (preserve_resources_on_deletion annotations) (pure tt) (check >> rest) w
      (λ _. same)
      λ kept.
        >>-Extends P check rest w (check_no_child_flows-Allows api annotations realm spec w kept w)
          λ e.
            let (alone, left) = check_no_child_flows_ok api annotations realm spec w kept e in
            rw left (
              Extends-after list_auth_flows (kept, tt)
                (after_check-Allows api annotations realm spec w kept alone))
