-- ===== src/AuthFlow/Sync/Adding.antt =====
-- The executions that are added, in the order of their priorities.
use keycloak_config_sync_ope.Base.{
  ◌≡◌, refl, sym, ap, ◌∙◌, ◌≢◌, inl, inr, Option, none, some, List, [], ◌∷◌, arith, String,
  Bool-cases, ◌==◌, All, ok, Result-cases,
}
use keycloak_config_sync_ope.AuthFlow.{
  AuthenticatorConfig, AuthenticationExecution, NewExecution, Call, add_execution,
  create_execution_config, Api, World,
}
use keycloak_config_sync_ope.Keycloakv2.{resource_id}
use mathlib.Core.List.{Perm}
use keycloak_config_sync_ope.Base.Int.{◌≤ℤ◌}
use keycloak_config_sync_ope.AuthFlow.Sync.{add_execution_to_flow, configure, add_executions}

-- `sort.Slice` by `Less(i, j) = priority(i) < priority(j)`: the result is in the order of the
-- priorities and holds the same entries.
abbrev pub IsOrdered : List AuthenticationExecution → Type 0
IsOrdered [] = Unit
IsOrdered (e ∷ execs) = All (λ f. e.priority ≤ℤ f.priority) execs × IsOrdered execs

abbrev pub IsSort : (List AuthenticationExecution → List AuthenticationExecution) → Type 0
IsSort sort_slice =
    (execs : List AuthenticationExecution)
    → Perm (sort_slice execs) execs × IsOrdered (sort_slice execs)

-- The configuration of a new execution, if its entry has one.
abbrev pub configured : String → String → Option AuthenticatorConfig → List Call → List Call
configured realm id none calls = calls
configured realm id (some config) calls = create_execution_config realm id config ∷ calls

abbrev pub IsConfigured : Api → String → String → Option AuthenticatorConfig → List Call → Type 0
IsConfigured api realm id none calls = Unit
IsConfigured api realm id (some config) calls =
    api.on_create_execution_config calls realm id config ≡ ok tt

abbrev pub new_execution : String → AuthenticationExecution → NewExecution
new_execution flow_id e = record {
  authenticator = e.authenticator;
  parent_flow = flow_id;
  requirement = e.requirement;
}

-- Entry by entry, from an earlier history to a later one: Keycloak has accepted an execution of
-- the flow with the authenticator and the requirement of the entry, has named its ID, and has
-- accepted the configuration of the entry for that ID; no other call is made.
abbrev pub Adds :
    Api → String → String → List AuthenticationExecution → List Call → List Call → Type 0
Adds api realm flow_id [] earlier later = later ≡ earlier
Adds api realm flow_id (e ∷ execs) earlier later =
    (location : Option String) × (api.on_add_execution earlier realm (new_execution flow_id e)
      ≡ ok location)
    × (resource_id api.urls location ≢ "")
    × IsConfigured api realm (resource_id api.urls location) e.authenticator_config
        (add_execution realm (new_execution flow_id e) ∷ earlier)
    × Adds api realm flow_id execs
        (configured realm (resource_id api.urls location) e.authenticator_config
          (add_execution realm (new_execution flow_id e) ∷ earlier))
        later

module _ (api : Api) (realm : String) where
  configure_ok :
      (authenticator id : String) (config : Option AuthenticatorConfig) (w : World)
      → (configure api realm authenticator id config w).0 ≡ ok tt
      → IsConfigured api realm id config w.calls
        × ((configure api realm authenticator id config w).1
            ≡ record w { calls = configured realm id config w.calls })
  unfolding configure
  configure_ok authenticator id none w h = (tt, refl)
  configure_ok authenticator id (some config) w h = (ground arith, refl)

  add_execution_to_flow_ok :
      (flow_id : String) (e : AuthenticationExecution) (w : World) {id : String}
      → (add_execution_to_flow api realm flow_id e.authenticator e.requirement w).0 ≡ ok id
      → (location : Option String) × (api.on_add_execution w.calls realm (new_execution flow_id e)
          ≡ ok location)
        × (resource_id api.urls location ≢ "")
        × (id ≡ resource_id api.urls location)
        × ((add_execution_to_flow api realm flow_id e.authenticator e.requirement w).1
            ≡ record w { calls = add_execution realm (new_execution flow_id e) ∷ w.calls })
  unfolding add_execution_to_flow
  add_execution_to_flow_ok flow_id e w {id} h =
      elim (Result-cases (api.on_add_execution w.calls realm (new_execution flow_id e))) [
        | inr (x, refused) ↦ cc (rw refused at h)
        | inl (location, accepted) ↦ elim (Bool-cases (resource_id api.urls location == "")) [
          | inl empty ↦ cc (rw empty at (rw accepted at h))
          | inr named ↦ (
            location,
            accepted,
            ground arith,
            cc (rw named at (rw accepted at h)),
            rw accepted (rw named refl),
          )
        ]
      ]

  -- The steps for one entry, that succeed.
  add_executions_cons :
      (flow_id : String) (e : AuthenticationExecution) (execs : List AuthenticationExecution)
      (w : World)
      → (add_executions api realm flow_id (e ∷ execs) w).0 ≡ ok tt
      → (id : String) × ((add_execution_to_flow api realm flow_id e.authenticator e.requirement w).0
          ≡ ok id)
        × (let w₁ = (add_execution_to_flow api realm flow_id e.authenticator e.requirement w).1 in
            let w₂ = (configure api realm e.authenticator id e.authenticator_config w₁).1 in
            ((configure api realm e.authenticator id e.authenticator_config w₁).0 ≡ ok tt)
            × (add_executions api realm flow_id (e ∷ execs) w
                ≡ add_executions api realm flow_id execs w₂))
  unfolding add_executions
  add_executions_cons flow_id e execs w h =
      elim (Result-cases
        (add_execution_to_flow api realm flow_id e.authenticator e.requirement w).0) [
          | inr (x, refused) ↦ cc (rw refused at h)
          | inl (id, added) ↦
              let w₁ =
                (add_execution_to_flow api realm flow_id e.authenticator e.requirement w).1 in
              elim (Result-cases
                (configure api realm e.authenticator id e.authenticator_config w₁).0) [
                  | inr (x, refused) ↦ cc (rw refused at (rw added at h))
                  | inl (a, done) ↦ (id, added, (done, rw added (rw done refl)))
                ]
        ]

  -- The same with what each step has asked and been answered.
  add_executions_step :
      (flow_id : String) (e : AuthenticationExecution) (execs : List AuthenticationExecution)
      (w : World)
      → (add_executions api realm flow_id (e ∷ execs) w).0 ≡ ok tt
      → (location : Option String) × (api.on_add_execution w.calls realm (new_execution flow_id e)
          ≡ ok location)
        × (resource_id api.urls location ≢ "")
        × IsConfigured api realm
            (resource_id api.urls location)
            e.authenticator_config
            (add_execution realm (new_execution flow_id e) ∷ w.calls)
        × (add_executions api realm flow_id (e ∷ execs) w
            ≡ add_executions api realm flow_id execs (record w {
              calls =
                  configured realm
                    (resource_id api.urls location)
                    e.authenticator_config
                    (add_execution realm (new_execution flow_id e) ∷ w.calls);
            }))
  add_executions_step flow_id e execs w h =
      let (id, added, (done, rest)) = add_executions_cons flow_id e execs w h in
      let (location, accepted, named, same_id, left) = add_execution_to_flow_ok flow_id e w added in
      let w₁ : World = record w {
        calls = add_execution realm (new_execution flow_id e) ∷ w.calls;
      } in
      let (config, left') =
        configure_ok e.authenticator (resource_id api.urls location) e.authenticator_config w₁
          (rw same_id at (rw left at done)) in
      (location, accepted, named, config, rw left' at (rw same_id at (rw left at rest)))

  pub add_executions-Adds :
      (flow_id : String) (execs : List AuthenticationExecution) (w : World)
      → (add_executions api realm flow_id execs w).0 ≡ ok tt
      → Adds api realm flow_id execs w.calls (add_executions api realm flow_id execs w).1.calls
        × ((add_executions api realm flow_id execs w).1.status ≡ w.status)
  unfolding add_executions
  add_executions-Adds flow_id [] w h = (refl, refl)
  add_executions-Adds flow_id (e ∷ execs) w h =
      let (location, accepted, named, config, rest) = add_executions_step flow_id e execs w h in
      let w' : World = record w {
        calls =
            configured realm (resource_id api.urls location) e.authenticator_config
              (add_execution realm (new_execution flow_id e) ∷ w.calls);
      } in
      let (more_added, status) =
        add_executions-Adds flow_id execs w' (sym (ap (λ r. r.0) rest) ∙ h) in
      rw rest ((location, accepted, named, config, more_added), status)
