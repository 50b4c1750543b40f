-- ===== src/Deletion.antt =====
-- TryToDelete and TryRemoveFinalizer of internal/controller/helper/controller_helper.go: how the
-- other controllers add their finalizer, and take it away once Keycloak has deleted a resource.
pub mod Order
use keycloak_config_sync_ope.Base.{
  ℕ, zero, suc, ◌+◌, ◌-◌, ◌≤◌, ◌<◌, ◌<>◌, ◌≡◌, refl, sym, ap, ◌∙◌, subst, ◌≢◌, ◌↔◌, ◌⊎◌, inl, inr,
  Bool, true, false, not, ◌&&◌, ◌||◌, Option, none, some, List, [], ◌∷◌, ◌++◌, map, arith, String,
  ltb, leb, nat_eq, if◌then◌else◌, Bool-cases, Option-cases, ◌==◌, String_discrete, ==_refl,
  eq_of_==, contains, or_empty, length, get_elem?, select, All, All-append, All-get_elem?, All-map,
  Err, errorf, wrapf, sentinel, Result, ok, err, is_ok, Extends, same, more, Extends-trans,
  Extends-after, Result-cases, Act, pure, fail, ◌>>=◌, ◌>>◌, wrap,
}
use keycloak_config_sync_ope.AuthFlow.Cluster.{without}

-- The call of the terminator, and an update with the finalizers that it sends.
pub data Step : Type 0 where
  delete_resource : Step
  save : List String → Step

-- What they answer, from the steps so far.
pub record Answers : Type 0 where
  pub on_delete : List Step → Result (Unit {0})
  pub on_save : List Step → List String → Result (Unit {0})

-- The finalizers of the object in memory, and the steps so far, newest first.
pub record Tracked : Type 0 where
  pub finalizers : List String
  pub steps : List Step

module _ (answers : Answers) where
  -- `h.client.Update`
  abbrev pub save_object : Act Tracked (Unit {0})
  save_object t =
      (answers.on_save t.steps t.finalizers, record t { steps = save t.finalizers ∷ t.steps })

  -- `terminator.DeleteResource`
  abbrev pub terminate : Act Tracked (Unit {0})
  terminate t = (answers.on_delete t.steps, record t { steps = delete_resource ∷ t.steps })

  -- `if controllerutil.RemoveFinalizer(obj, finalizer) { ... }`
  unfoldable pub drop_finalizer : String → Act Tracked (Unit {0})
  unfolding without
  drop_finalizer finalizer t =
      if contains finalizer t.finalizers
      then wrap "unable to update instance: %w" [] save_object
          (record t { finalizers = without finalizer t.finalizers })
      else (ok tt, t)

  -- `if controllerutil.AddFinalizer(obj, finalizer) { ... }`
  unfoldable pub keep_finalizer : String → Act Tracked (Unit {0})
  keep_finalizer finalizer t =
      if contains finalizer t.finalizers
      then (ok tt, t)
      else wrap "unable to update deletable object: %w" [] save_object
          (record t { finalizers = t.finalizers ++ (finalizer ∷ []) })

  unfoldable pub try_remove_finalizer : Bool → String → Act Tracked (Unit {0})
  unfolding drop_finalizer
  try_remove_finalizer deleting finalizer = if deleting then drop_finalizer finalizer else pure tt

  unfoldable pub try_to_delete : Bool → String → Act Tracked Bool
  unfolding drop_finalizer keep_finalizer
  try_to_delete deleting finalizer =
      if not deleting
      then keep_finalizer finalizer >> pure false
      else (wrap "error during keycloak resource deletion: %w" [] terminate
          >> (drop_finalizer finalizer >> pure true))
