-- ===== src/AuthFlow/Sync/Clearing.antt =====
-- The executions that are deleted before the new ones are added.
use keycloak_config_sync_ope.Base.{
  ◌≡◌, refl, sym, ap, ◌∙◌, subst, zero, Bool, true, false, not, ◌&&◌, Option, none, some, arith,
  if◌then◌else◌, ◌==◌, ◌⊎◌, inl, inr, List, [], ◌∷◌, ◌++◌, map, String, Bool-cases, or_empty,
  select, Err, wrapf, Result, ok, err, Result-cases,
}
use keycloak_config_sync_ope.AuthFlow.{
  ExecutionInfo, Call, get_flow_executions, delete_execution, Api, World,
}
use keycloak_config_sync_ope.Base.Int.{ℤ, pos}
use keycloak_config_sync_ope.AuthFlow.CreateOrUpdate.{is_set, is_zero}
use mathlib.Core.List.{foldl}
use keycloak_config_sync_ope.AuthFlow.Sync.{
  is_cleared, delete_executions, clear_non_flow_executions,
}

-- The ID of an execution before others, if the execution is no flow, stands directly in the flow
-- and has an ID: a nil flag is false, a nil level is not zero and an empty ID is none.
abbrev pub own_id : Option Bool → Option ℤ → Option String → List String → List String
own_id (some true) level id ids = ids
own_id none (some (pos zero)) (some id) ids = if id == "" then ids else id ∷ ids
own_id (some false) (some (pos zero)) (some id) ids = if id == "" then ids else id ∷ ids
own_id _ _ _ ids = ids

-- The IDs of these executions, in the order in which Keycloak lists them.
abbrev pub cleared_ids : List ExecutionInfo → List String
cleared_ids [] = []
cleared_ids (e ∷ execs) = own_id e.authentication_flow e.level e.id (cleared_ids execs)

-- The history after the deletion of IDs, in order.
abbrev pub deletions : String → List String → List Call → List Call
deletions realm ids calls = foldl (λ calls id. delete_execution realm id ∷ calls) calls ids

-- The same by the test of the loop.
abbrev selected_ids : List ExecutionInfo → List String
selected_ids execs = map (λ e. or_empty e.id) (select is_cleared execs)

own_id_lem :
    (flow : Option Bool) (level : Option ℤ) (id : Option String) (ids : List String)
    → own_id flow level id ids ≡ (
        if not (is_set flow) && is_zero level && not (or_empty id == "")
        then or_empty id ∷ ids
        else ids)
own_id_lem flow level id ids = ground arith

cleared_ids_lem : (execs : List ExecutionInfo) → cleared_ids execs ≡ selected_ids execs
cleared_ids_lem [] = refl
cleared_ids_lem (e ∷ execs) =
    let rest = cleared_ids_lem execs in
    own_id_lem e.authentication_flow e.level e.id (cleared_ids execs)
    ∙ (elim (Bool-cases (is_cleared e)) [
      | inl cleared ↦ rw (cleared) (rw (rest) refl)
      | inr kept ↦ rw (kept) rest
    ])

module _ (api : Api) (realm : String) where
  -- What a run of deletions does: all of them succeed, or those up to the first that is refused.
  abbrev pub Deletes : List String → World → Result (Unit {0}) × World → Type 0
  Deletes ids w r =
      ((r.0 ≡ ok tt) × (r.1 ≡ record w { calls = deletions realm ids w.calls }))
      ⊎ ((done : List String) × (id : String) × (left : List String) × (e : Err) × (ids
            ≡ done ++ id ∷ left)
          × (api.on_delete_execution (deletions realm done w.calls) realm id ≡ err e)
          × (r.0 ≡ err (wrapf "failed to delete execution %q: %w" (id ∷ []) e))
          × (r.1 ≡ record w { calls = delete_execution realm id ∷ deletions realm done w.calls }))

  delete_executions-Deletes :
      (execs : List ExecutionInfo) (w : World)
      → Deletes (selected_ids execs) w (delete_executions api realm execs w)
  unfolding delete_executions
  delete_executions-Deletes [] w = inl (refl, refl)
  delete_executions-Deletes (e ∷ execs) w = elim (Bool-cases (is_cleared e)) [
    | inr kept ↦ rw kept (delete_executions-Deletes execs w)
    | inl cleared ↦
        let id = or_empty e.id in
        let w' : World = record w { calls = delete_execution realm id ∷ w.calls } in
        rw cleared (elim (Result-cases (api.on_delete_execution w.calls realm id)) [
          | inr (x, e') ↦ inr ([], id, selected_ids execs, x, refl, e', rw e' refl, rw e' refl)
          | inl (a, e') ↦ elim (delete_executions-Deletes execs w') [
            | inl all ↦ rw e' (inl all)
            | inr (done, id', left, x, parts, refused, result, world) ↦
                rw e'
                  (inr (id ∷ done, id', left, x, ap (λ t. id ∷ t) parts, refused, result, world))
          ]
        ])
  ]

  -- If Keycloak lists the executions of a flow, the executions that are cleared are those that are
  -- no flows, stand directly in the flow and have an ID: they are deleted in the order of the list,
  -- all of them, or up to the first that Keycloak refuses, whose error is reported.
  pub clear_non_flow_executions-Deletes :
      (alias : String) (w : World) {execs : List ExecutionInfo}
      → api.on_get_flow_executions w.calls realm alias ≡ ok execs
      → Deletes
          (cleared_ids execs)
          (record w { calls = get_flow_executions realm alias ∷ w.calls })
          (clear_non_flow_executions api realm alias w)
  unfolding clear_non_flow_executions
  clear_non_flow_executions-Deletes alias w {execs} listed =
      let w' : World = record w { calls = get_flow_executions realm alias ∷ w.calls } in
      rw listed (
        subst (λ ids. Deletes ids w' (delete_executions api realm execs w'))
          (sym (cleared_ids_lem execs)) (delete_executions-Deletes execs w'))
