-- ===== src/AuthFlow/Controller/Status.antt =====
-- The status that a reconciliation leaves.
use keycloak_config_sync_ope.Base.{
  ◌≡◌, refl, ap, ◌⊎◌, inl, inr, true, false, List, [], ◌∷◌, arith, String, Bool-cases, wrapf,
  Result, ok, err, is_ok, Result-cases,
}
use keycloak_config_sync_ope.AuthFlow.{AuthenticationExecution, KeycloakAuthFlowStatus, Api}
use keycloak_config_sync_ope.Base.Int.{eq_of_eq_ℤ}
use keycloak_config_sync_ope.AuthFlow.Cluster.{Object, Event, update_status, Cluster, Manager, run}
use keycloak_config_sync_ope.AuthFlow.Controller.{
  serve_chain, update_flow_status, chain, conclude, reconcile_chain, is_same_status, set_phase,
  Outcome,
}

is_same_status-eq : (a b : KeycloakAuthFlowStatus) → is_same_status a b ≡ true → a ≡ b
is_same_status-eq a b h =
    let error : a.error ≡ b.error = ground arith in
    let phase : a.phase ≡ b.phase = ground arith in
    let count : a.failure_count ≡ b.failure_count =
      eq_of_eq_ℤ a.failure_count b.failure_count (ground arith) in
    let id : a.id ≡ b.id = ground arith in cc

-- The status in memory is the one that was saved before, or the last event sends it.
abbrev pub IsSent : KeycloakAuthFlowStatus → List Event → Manager → Type 0
IsSent old before m =
    ((m.world.status ≡ old) × (m.events ≡ before))
    ⊎ (m.events ≡ update_status m.world.status ∷ before)

abbrev pub phase_of : Result (Unit {0}) → String
phase_of (ok _) = "Completed"
phase_of (err e) = "Failed"

module _ (cluster : Cluster) where
  update_flow_status-IsSent :
      (old : KeycloakAuthFlowStatus) (m : Manager)
      → IsSent old m.events (update_flow_status cluster old m).1
  unfolding update_flow_status
  update_flow_status-IsSent old m = elim (Bool-cases (is_same_status m.world.status old)) [
    | inl same_one ↦ rw (same_one) (inl (is_same_status-eq m.world.status old same_one, refl))
    | inr changed ↦ rw (changed) (inr refl)
  ]

  update_flow_status-world :
      (old : KeycloakAuthFlowStatus) (m : Manager)
      → (update_flow_status cluster old m).1.world ≡ m.world
  unfolding update_flow_status
  update_flow_status-world old m = ground arith

  -- What is reported of a chain with result `r`, from `m` to the outcome `o` and `m'`.
  abbrev pub IsReported :
      KeycloakAuthFlowStatus → Result (Unit {0}) → Manager → Result Outcome → Manager → Type 0
  IsReported old r m o m' =
      (m'.world.status.phase ≡ phase_of r)
      × (m'.world.status.id ≡ m.world.status.id)
      × IsSent old m.events m'
      × ((r ≡ ok tt) ⊎ (is_ok o ≡ false))

  conclude-IsReported :
      (old : KeycloakAuthFlowStatus) (r : Result (Unit {0})) (m : Manager)
      → IsReported old r m (conclude cluster old r m).0 (conclude cluster old r m).1
  unfolding conclude
  conclude-IsReported old (ok tt) m =
      let s : Manager = (run (set_phase "" "Completed") m).1 in
      let kept = update_flow_status-world old s in
      elim (Result-cases (update_flow_status cluster old s).0) [
        | inl (a, e) ↦ rw e (
          ap (λ w. w.status.phase) kept,
          ap (λ w. w.status.id) kept,
          update_flow_status-IsSent old s,
          inl refl,
        )
        | inr (x, e) ↦ rw e (
          ap (λ w. w.status.phase) kept,
          ap (λ w. w.status.id) kept,
          update_flow_status-IsSent old s,
          inl refl,
        )
      ]
  conclude-IsReported old (err e) m =
      let failure = wrapf "auth flow chain processing failed: %w" [] e in
      let s : Manager = (run (set_phase (cluster.error_text failure) "Failed") m).1 in
      let kept = update_flow_status-world old s in
      elim (Result-cases (update_flow_status cluster old s).0) [
        | inl (a, e) ↦ rw e (
          ap (λ w. w.status.phase) kept,
          ap (λ w. w.status.id) kept,
          update_flow_status-IsSent old s,
          inr refl,
        )
        | inr (x, e) ↦ rw e (
          ap (λ w. w.status.phase) kept,
          ap (λ w. w.status.id) kept,
          update_flow_status-IsSent old s,
          inr refl,
        )
      ]

  -- After the chain has run, whatever was answered: the phase in the status says whether the chain
  -- succeeded, the flow's ID is the one that the chain recorded, that status is the one before the
  -- chain or the last event sends it, and the reconciliation succeeds only if the chain did.
  pub reconcile_chain-IsReported :
      (sort_slice : List AuthenticationExecution → List AuthenticationExecution) (object : Object)
      (client : Api) (realm : String) (m : Manager)
      → (let ran = serve_chain cluster client (chain cluster sort_slice object realm) m in
          let done = reconcile_chain cluster sort_slice object client realm m in
          IsReported m.world.status ran.0 ran.1 done.0 done.1)
  unfolding reconcile_chain
  reconcile_chain-IsReported sort_slice object client realm m =
      let ran = serve_chain cluster client (chain cluster sort_slice object realm) m in
      conclude-IsReported m.world.status ran.0 ran.1
