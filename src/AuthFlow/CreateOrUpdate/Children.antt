-- ===== src/AuthFlow/CreateOrUpdate/Children.antt =====
-- The first handler makes no other calls for a child flow, nor as a whole.
use keycloak_config_sync_ope.Base.{
  ◌≡◌, refl, sym, ap, ◌∙◌, subst, ◌≢◌, inl, inr, true, not, Option, none, some, List, [], ◌∷◌,
  arith, String, Bool-cases, Option-cases, ◌==◌, ok, Extends, same, more, Act, pure, ◌>>=◌, ◌>>◌,
  wrap,
}
use keycloak_config_sync_ope.AuthFlow.{
  KeycloakAuthFlowSpec, ExecutionInfo, get_flow_executions, add_child_flow, Api, World, request,
  do_get_flow_executions,
}
use mathlib.Core.Option.{some-injective}
use keycloak_config_sync_ope.AuthFlow.Traces.{
  Allows, wrap-eq-ok, >>=-eq-ok, >>=-Allows, >>=-Extends, if-Extends,
}
use keycloak_config_sync_ope.AuthFlow.CreateOrUpdate.{
  child_flow_from_spec, points_to, find_exec_by_display_name, validate_child_flows,
  serve_top_level_flow, ensure_child, record_flow_id, update_requirement, serve_child_flow, serve,
}
use keycloak_config_sync_ope.AuthFlow.CreateOrUpdate.TopLevel.{
  IsEnsuring, validate_child_flows-Allows, serve_top_level_flow-Allows,
}

find_exec_by_display_name-points_to :
    (execs : List ExecutionInfo) (name : String) {e : ExecutionInfo}
    → find_exec_by_display_name execs name ≡ some e
    → points_to e.display_name name ≡ true
unfolding find_exec_by_display_name
find_exec_by_display_name-points_to [] name h = cc
find_exec_by_display_name-points_to (x ∷ execs) name {e} h =
    elim (Bool-cases (points_to x.display_name name)) [
      | inl found ↦
          subst (λ y. points_to y.display_name name ≡ true) (some-injective x e (rw found at h))
            found
      | inr other ↦ find_exec_by_display_name-points_to execs name (rw other at h)
    ]

ok-some : {A : Type 0} {a b : A} → ok a ≡ ok b → a ≡ b
ok-some h = cc

module _ (api : Api) (realm : String) (spec : KeycloakAuthFlowSpec) (start : World) where
  module _ (child : spec.parent_name ≢ "") where
    ensure_child-Allows :
        (execs : List ExecutionInfo)
        → api.on_get_flow_executions start.calls realm spec.parent_name ≡ ok execs
        → (found : Option ExecutionInfo) → find_exec_by_display_name execs spec.alias ≡ found
        → Allows (IsEnsuring api realm spec start) (ensure_child api realm spec found)
    unfolding ensure_child
    ensure_child-Allows execs listed (some e) same_find w = same
    ensure_child-Allows execs listed none same_find w = grind (arith, more, same)

    -- Whatever entry it returns has the alias of the flow.
    ensure_child-points_to :
        (found : Option ExecutionInfo) (w : World) {e : ExecutionInfo}
        → ((e : ExecutionInfo) → found ≡ some e → points_to e.display_name spec.alias ≡ true)
        → (ensure_child api realm spec found w).0 ≡ ok (some e)
        → points_to e.display_name spec.alias ≡ true
    unfolding ensure_child
    ensure_child-points_to (some e) w {e = e'} known h = known e' (ground arith)
    ensure_child-points_to none w {e} known h =
        let send : Act World (Unit {0}) = wrap "failed to create child auth flow: %w" [] (
          request (add_child_flow realm spec.parent_name (child_flow_from_spec spec))
            (λ h. api.on_add_child_flow h realm spec.parent_name (child_flow_from_spec spec))) in
        let list : Act World (List ExecutionInfo) =
          wrap "failed to get parent flow executions after child creation: %w" []
            (do_get_flow_executions api realm spec.parent_name) in
        let find = λ (execs : List ExecutionInfo).
          pure {S = World} (find_exec_by_display_name execs spec.alias) in
        let (u, sent, first) = >>=-eq-ok send (λ _. list >>= find) w h in
        let (execs, listed, second) =
          >>=-eq-ok list find (send w).1 (sym (ap (λ p. p.0) first) ∙ h) in
        find_exec_by_display_name-points_to execs spec.alias {e = e}
          (ok-some (sym (ap (λ p. p.0) second) ∙ sym (ap (λ p. p.0) first) ∙ h))

    update_requirement-Allows :
        (existing : Option ExecutionInfo)
        → ((e : ExecutionInfo) → existing ≡ some e → points_to e.display_name spec.alias ≡ true)
        → Allows (IsEnsuring api realm spec start) (update_requirement api realm spec existing)
    unfolding update_requirement
    update_requirement-Allows none known w = same
    update_requirement-Allows (some e) known w = grind (arith, more, same)

    record_flow_id-Allows :
        (existing : Option ExecutionInfo)
        → Allows (IsEnsuring api realm spec start) (record_flow_id api realm spec existing)
    unfolding record_flow_id
    record_flow_id-Allows none w = same
    record_flow_id-Allows (some e) w = elim (Option-cases e.flow_id) [
      | inl missing ↦ rw (missing) same
      | inr (id, found) ↦ rw (found) same
    ]

    finish-Allows :
        (existing : Option ExecutionInfo)
        → ((e : ExecutionInfo) → existing ≡ some e → points_to e.display_name spec.alias ≡ true)
        → Allows (IsEnsuring api realm spec start) (
            record_flow_id api realm spec existing
            >> (update_requirement api realm spec existing >> validate_child_flows api realm spec))
    finish-Allows existing known =
        let update = update_requirement api realm spec existing in
        let validate = validate_child_flows api realm spec in
        >>=-Allows (IsEnsuring api realm spec start) (record_flow_id api realm spec existing)
          (λ _. update >> validate) (record_flow_id-Allows existing)
          (λ _.
            >>=-Allows (IsEnsuring api realm spec start) update (λ _. validate)
              (update_requirement-Allows existing known)
              (λ _. validate_child_flows-Allows api realm spec start))

    serve_child_flow-Allows :
        Extends
          (IsEnsuring api realm spec start)
          start.calls
          (serve_child_flow api realm spec start).1.calls
    unfolding serve_child_flow
    serve_child_flow-Allows =
        let list : Act World (List ExecutionInfo) =
          wrap "failed to get parent flow executions: %w" []
            (do_get_flow_executions api realm spec.parent_name) in
        let rest = λ (existing : Option ExecutionInfo).
          record_flow_id api realm spec existing
          >> (update_requirement api realm spec existing >> validate_child_flows api realm spec) in
        let ensure = λ (execs : List ExecutionInfo).
          ensure_child api realm spec (find_exec_by_display_name execs spec.alias) in
        >>=-Extends (IsEnsuring api realm spec start) list (λ execs. ensure execs >>= rest) start
          (more (get_flow_executions realm spec.parent_name) (refl, inr refl) same)
          (λ execs listed.
            >>=-Extends (IsEnsuring api realm spec start) (ensure execs) rest (list start).1
              (ensure_child-Allows execs
                (wrap-eq-ok "failed to get parent flow executions: %w" []
                  (do_get_flow_executions api realm spec.parent_name) start listed)
                (find_exec_by_display_name execs spec.alias) refl (list start).1)
              (λ existing ensured.
                finish-Allows existing
                  (λ e same_entry.
                    ensure_child-points_to (find_exec_by_display_name execs spec.alias)
                      (list start).1 {e = e}
                      (λ found. find_exec_by_display_name-points_to execs spec.alias {e = found})
                      (ensured ∙ ap ok same_entry))
                  (ensure execs (list start).1).1))

  -- For every answer of Keycloak and of the world before it, the handler calls only on its realm;
  -- creates the top-level flow that the spec describes only where Keycloak's list has no flow of
  -- its alias, and updates one only where the list has it; works on the parent only where the
  -- spec names one; adds the child flow that the spec describes only where no execution of the
  -- parent has its alias as display name; and updates only an execution with that display name,
  -- to the requirement of the spec, which is then not empty. It deletes nothing.
  pub serve-IsEnsuring :
      Extends (IsEnsuring api realm spec start) start.calls (serve api realm spec start).1.calls
  unfolding serve
  serve-IsEnsuring =
      if-Extends (IsEnsuring api realm spec start) (not (spec.parent_name == ""))
        (serve_child_flow api realm spec) (serve_top_level_flow api realm spec) start
        (λ child. serve_child_flow-Allows (ground arith))
        (λ top. serve_top_level_flow-Allows api realm spec start (ground arith))
