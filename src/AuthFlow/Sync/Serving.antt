-- ===== src/AuthFlow/Sync/Serving.antt =====
-- A whole run of the second handler.
use keycloak_config_sync_ope.Base.{
  ◌≡◌, refl, sym, ◌∙◌, ◌≢◌, inl, inr, some, List, [], ◌∷◌, arith, String, Bool-cases, ◌==◌, All, ok,
  Extends, same, more, Result-cases, wrap,
}
use keycloak_config_sync_ope.AuthFlow.{
  AuthenticationExecution, KeycloakAuthFlowSpec, ExecutionInfo, Call, get_flow_executions,
  update_execution, Api, World, do_get_flow_executions,
}
use keycloak_config_sync_ope.Base.Dict.{Dict}
use mathlib.Core.List.{Perm}
use keycloak_config_sync_ope.AuthFlow.Traces.{Allows, >>=-Allows}
use keycloak_config_sync_ope.AuthFlow.Sync.{
  execs_to_add, add_executions, adjust_child_flows_priority, adjust_known, adjust_all, adjustment,
  child_flow_specs, clear_non_flow_executions, sync_executions, serve,
}
use keycloak_config_sync_ope.AuthFlow.Sync.Clearing.{
  cleared_ids, deletions, clear_non_flow_executions-Deletes,
}
use keycloak_config_sync_ope.AuthFlow.Sync.Adding.{IsOrdered, IsSort, Adds, add_executions-Adds}
use keycloak_config_sync_ope.AuthFlow.Sync.Adjusting.{adjust_all-Allows}

-- A call that reads the executions of the flow, or updates one of them.
abbrev pub IsAdjusting : String → String → Call → Type 0
IsAdjusting realm alias (get_flow_executions r a) = (r ≡ realm) × (a ≡ alias)
IsAdjusting realm alias (update_execution r a e) = (r ≡ realm) × (a ≡ alias)
IsAdjusting realm alias _ = ⊥

module _ (api : Api) (realm : String) where
  adjustment-IsAdjusting :
      (alias : String) (specs : Dict AuthenticationExecution) (execs : List ExecutionInfo)
      → All
          (λ e.
            (e' : ExecutionInfo)
            → adjustment specs e ≡ some e'
            → IsAdjusting realm alias (update_execution realm alias e'))
          execs
  adjustment-IsAdjusting alias specs [] = tt
  adjustment-IsAdjusting alias specs (e ∷ execs) =
      (λ e' sent. (refl, refl), adjustment-IsAdjusting alias specs execs)

  adjust_known-Allows :
      (alias : String) (specs : Dict AuthenticationExecution)
      → Allows (IsAdjusting realm alias) (adjust_known api realm alias specs)
  unfolding adjust_known
  adjust_known-Allows alias [] w = same
  adjust_known-Allows alias (s ∷ specs) w =
      >>=-Allows (IsAdjusting realm alias) {B = Unit {0}}
        (wrap "failed to get flow executions for priority adjustment: %w" []
          (do_get_flow_executions api realm alias))
        (λ execs. adjust_all api realm (s ∷ specs) alias execs)
        (λ w. more (get_flow_executions realm alias) (refl, refl) same)
        (λ execs.
          adjust_all-Allows api realm alias (s ∷ specs) (IsAdjusting realm alias) execs
            (adjustment-IsAdjusting alias (s ∷ specs) execs))
        w

  clear_ok :
      (alias : String) (w : World)
      → (clear_non_flow_executions api realm alias w).0 ≡ ok tt
      → (execs : List ExecutionInfo) × (api.on_get_flow_executions w.calls realm alias ≡ ok execs)
        × ((clear_non_flow_executions api realm alias w).1 ≡ record w {
          calls = deletions realm (cleared_ids execs) (get_flow_executions realm alias ∷ w.calls);
        })
  unfolding clear_non_flow_executions
  clear_ok alias w h = elim (Result-cases (api.on_get_flow_executions w.calls realm alias)) [
    | inr (x, refused) ↦ cc (rw refused at h)
    | inl (execs, listed) ↦ elim (clear_non_flow_executions-Deletes api realm alias w listed) [
      | inl (done, left) ↦ (execs, listed, left)
      | inr (done, id, rest, e, parts, refused, result, left) ↦ cc (sym h ∙ result)
    ]
  ]

  module _ (spec : KeycloakAuthFlowSpec)
      (sort_slice : List AuthenticationExecution → List AuthenticationExecution) where
    sync_executions_ok :
        (execs : List AuthenticationExecution) (w : World)
        → execs ≢ []
        → (sync_executions api realm spec sort_slice execs w).0 ≡ ok tt
        → (w.status.id ≢ "")
          × ((add_executions api realm w.status.id (sort_slice execs) w).0 ≡ ok tt)
          × (sync_executions api realm spec sort_slice execs w
              ≡ adjust_child_flows_priority api realm spec
                  (add_executions api realm w.status.id (sort_slice execs) w).1)
    unfolding sync_executions
    sync_executions_ok [] w some_execs h = absurd (some_execs refl)
    sync_executions_ok (e ∷ execs) w some_execs h = elim (Bool-cases (w.status.id == "")) [
      | inl empty ↦ cc (rw empty at h)
      | inr named ↦
          elim (Result-cases (add_executions api realm w.status.id (sort_slice (e ∷ execs)) w).0) [
            | inr (x, refused) ↦ cc (rw refused at (rw named at h))
            | inl (a, added) ↦ (ground arith, added, rw named (rw added refl))
          ]
    ]

    -- If the second handler succeeds for a flow with executions of its own in the spec, it has made
    -- these calls and no others, in this order: it has listed the executions of the flow and deleted
    -- all that are to be cleared; it has added to the flow whose ID is in the status the executions
    -- of the spec that are no flows, each once, in the order of their priorities, with what the
    -- spec says of each; and it has then only read or updated executions of the flow.
    pub serve-Adds :
        IsSort sort_slice
        → (w : World) → execs_to_add spec ≢ []
        → (serve api realm spec sort_slice w).0 ≡ ok tt
        → (listed : List ExecutionInfo) × (added : List AuthenticationExecution) × (later : List
            Call)
          × (api.on_get_flow_executions w.calls realm spec.alias ≡ ok listed)
          × (w.status.id ≢ "")
          × Perm added (execs_to_add spec)
          × IsOrdered added
          × Adds api realm w.status.id added
              (deletions realm
                (cleared_ids listed)
                (get_flow_executions realm spec.alias ∷ w.calls))
              later
          × Extends (IsAdjusting realm spec.alias) later (serve api realm spec sort_slice w).1.calls
    unfolding serve adjust_child_flows_priority
    serve-Adds sorts w some_execs h =
        elim (Result-cases (clear_non_flow_executions api realm spec.alias w).0) [
          | inr (x, refused) ↦ cc (rw refused at h)
          | inl (a, cleared) ↦
              let (listed, answer, left) = clear_ok spec.alias w cleared in
              let w' : World = record w {
                calls =
                    deletions realm (cleared_ids listed)
                      (get_flow_executions realm spec.alias ∷ w.calls);
              } in
              let (named, added, rest) =
                sync_executions_ok (execs_to_add spec) w' some_execs
                  (rw left at (rw cleared at h)) in
              let done = add_executions api realm w.status.id (sort_slice (execs_to_add spec)) w' in
              let (permuted, ordered) = sorts (execs_to_add spec) in
              rw cleared (
                rw left (
                  rw rest (
                    listed,
                    sort_slice (execs_to_add spec),
                    done.1.calls,
                    answer,
                    named,
                    permuted,
                    ordered,
                    (add_executions-Adds api realm w.status.id (sort_slice (execs_to_add spec)) w'
                        added).0,
                    adjust_known-Allows spec.alias
                        (child_flow_specs spec.authentication_executions []) done.1,
                  )))
        ]
