-- ===== src/AuthFlow/Sync/Adjusting.antt =====
-- The requirement and the priority of the child flows.
use keycloak_config_sync_ope.Base.{
  ◌≡◌, ◌⊎◌, inl, inr, true, Option, none, some, List, [], ◌∷◌, map, String, if◌then◌else◌,
  Option-cases, ◌==◌, or_empty, All, same, more, Extends-after, wrap,
}
use keycloak_config_sync_ope.AuthFlow.{
  AuthenticationExecution, ExecutionInfo, Call, update_execution, Api, do_update_execution,
}
use keycloak_config_sync_ope.Base.Int.{int32}
use keycloak_config_sync_ope.Base.Dict.{Dict}
use keycloak_config_sync_ope.AuthFlow.CreateOrUpdate.{is_child_flow}
use keycloak_config_sync_ope.AuthFlow.Traces.{Allows, >>-Extends}
use keycloak_config_sync_ope.AuthFlow.Sync.{spec_entry, adjustment, adjust_all}

abbrev pub replaced_by : ExecutionInfo → Option ExecutionInfo → ExecutionInfo
replaced_by e none = e
replaced_by e (some e') = e'

-- An execution as Keycloak has it after the loop.
abbrev pub after_adjustment : Dict AuthenticationExecution → ExecutionInfo → ExecutionInfo
after_adjustment specs e = replaced_by e (adjustment specs e)

-- The executions of a flow as Keycloak has them once it has accepted what the loop sends.
abbrev pub adjusted : Dict AuthenticationExecution → List ExecutionInfo → List ExecutionInfo
adjusted specs execs = map (after_adjustment specs) execs

-- What an adjustment may send: an execution that Keycloak has listed, that is a flow of its own and
-- whose alias the spec knows, with the requirement of the spec, unless that is empty, and its priority
-- at 32 bits, and with all else as it was.
abbrev pub IsAdjustment :
    Dict AuthenticationExecution → List ExecutionInfo → String → String → Call → Type 0
IsAdjustment specs [] realm alias c = ⊥
IsAdjustment specs (e ∷ execs) realm alias c =
    ((entry : AuthenticationExecution) × (is_child_flow e ≡ true)
      × (spec_entry specs e ≡ some entry)
      × (c
          ≡ update_execution realm alias (record e {
            requirement = if entry.requirement == "" then e.requirement else some entry.requirement;
            priority = some (int32 entry.priority);
          })))
    ⊎ IsAdjustment specs execs realm alias c

module _ (api : Api) (realm alias : String) (specs : Dict AuthenticationExecution) where
  pub adjust_all-Allows :
      (P : Call → Type 0) (execs : List ExecutionInfo)
      → All
          (λ e.
            (e' : ExecutionInfo)
            → adjustment specs e ≡ some e'
            → P (update_execution realm alias e'))
          execs
      → Allows P (adjust_all api realm specs alias execs)
  unfolding adjust_all
  adjust_all-Allows P [] h w = same
  adjust_all-Allows P (e ∷ execs) h w = elim (Option-cases (adjustment specs e)) [
    | inl idle ↦ rw (idle, adjust_all) (adjust_all-Allows P execs h.1 w)
    | inr (e', sent) ↦
        let first =
          wrap "failed to update priority for child flow %q: %w" (or_empty e.display_name ∷ [])
            (do_update_execution api realm alias e') in
        rw (sent, adjust_all)
          (>>-Extends P first (adjust_all api realm specs alias execs) w
            (more (update_execution realm alias e') (h.0 e' sent) same)
            (λ _.
              Extends-after (update_execution realm alias e') (h.0 e' sent)
                (adjust_all-Allows P execs h.1 (first w).1)))
  ]
