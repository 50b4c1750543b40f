-- ===== src/Deletion/Order.antt =====
-- The order of a deletion: the finalizer goes last.
use keycloak_config_sync_ope.Base.{
  ◌≡◌, refl, ◌⊎◌, inl, inr, Bool, true, false, not, ◌&&◌, ◌||◌, List, [], ◌∷◌, ◌++◌, arith, String,
  Bool-cases, ◌==◌, contains, ok, Result-cases,
}
use keycloak_config_sync_ope.AuthFlow.Cluster.{without}
use keycloak_config_sync_ope.Deletion.{
  Step, delete_resource, save, Answers, Tracked, drop_finalizer, keep_finalizer, try_to_delete,
}

contains-without :
    (f g : String) (fs : List String) → contains g (without f fs) ≡ (contains g fs && not (g == f))
unfolding without
contains-without f g [] = refl
contains-without f g (x ∷ fs) = ground (arith, contains-without f g fs)

contains_last :
    (f g : String) (fs : List String) → contains g (fs ++ (f ∷ [])) ≡ (contains g fs || g == f)
contains_last f g [] = ground arith
contains_last f g (x ∷ fs) = ground (arith, contains_last f g fs)

-- Nothing is sent and nothing changed, or one update with the finalizers is sent and accepted, after
-- which there are exactly the wanted ones. The first is for an object that has them already.
abbrev pub IsSaved : Answers → Bool → (String → Bool) → List String → List Step → Tracked → Type 0
IsSaved answers as_wanted wanted finalizers steps t' =
    ((as_wanted ≡ true) × (t'.finalizers ≡ finalizers) × (t'.steps ≡ steps))
    ⊎ ((as_wanted ≡ false)
        × (t'.steps ≡ save t'.finalizers ∷ steps)
        × (answers.on_save steps t'.finalizers ≡ ok tt)
        × ((g : String) → contains g t'.finalizers ≡ wanted g))

-- From a start to an end with an answer: the object is not being deleted, and has the finalizer
-- beside its own; or it is being deleted, Keycloak has deleted the resource first, and the object
-- has its finalizers but that one.
abbrev pub IsSettled : Answers → Bool → String → Tracked → Bool → Tracked → Type 0
IsSettled answers deleting finalizer t false t' =
    (deleting ≡ false)
    × IsSaved answers (contains finalizer t.finalizers)
        (λ g. contains g t.finalizers || g == finalizer) t.finalizers t.steps t'
IsSettled answers deleting finalizer t true t' =
    (deleting ≡ true)
    × (answers.on_delete t.steps ≡ ok tt)
    × IsSaved answers (not (contains finalizer t.finalizers))
        (λ g. contains g t.finalizers && not (g == finalizer)) t.finalizers
        (delete_resource ∷ t.steps) t'

keep_finalizer-IsSaved :
    (answers : Answers) (finalizer : String) (t : Tracked)
    → (keep_finalizer answers finalizer t).0 ≡ ok tt
    → IsSaved answers
        (contains finalizer t.finalizers)
        (λ g. contains g t.finalizers || g == finalizer)
        t.finalizers
        t.steps
        (keep_finalizer answers finalizer t).1
unfolding keep_finalizer
keep_finalizer-IsSaved answers finalizer t h = elim (Bool-cases (contains finalizer t.finalizers)) [
  | inl present ↦ rw (present) (inl (refl, refl, refl))
  | inr absent ↦ elim (Result-cases (answers.on_save t.steps (t.finalizers ++ (finalizer ∷ [])))) [
    | inl (a, e) ↦ rw (absent) (inr (refl, refl, e, λ g. contains_last finalizer g t.finalizers))
    | inr (x, e) ↦ cc (rw (e) at (rw (absent) at h))
  ]
]

drop_finalizer-IsSaved :
    (answers : Answers) (finalizer : String) (t : Tracked)
    → (drop_finalizer answers finalizer t).0 ≡ ok tt
    → IsSaved answers
        (not (contains finalizer t.finalizers))
        (λ g. contains g t.finalizers && not (g == finalizer))
        t.finalizers
        t.steps
        (drop_finalizer answers finalizer t).1
unfolding drop_finalizer
drop_finalizer-IsSaved answers finalizer t h = elim (Bool-cases (contains finalizer t.finalizers)) [
  | inr absent ↦ rw (absent) (inl (refl, refl, refl))
  | inl present ↦ elim (Result-cases (answers.on_save t.steps (without finalizer t.finalizers))) [
    | inl (a, e) ↦
        rw (present) (inr (refl, refl, e, λ g. contains-without finalizer g t.finalizers))
    | inr (x, e) ↦ cc (rw (e) at (rw (present) at h))
  ]
]

-- When the handling of a finalizer reports success, either the object is not being deleted and it
-- has its finalizers and this one, or the object is being deleted, Keycloak has accepted the
-- deletion of the resource as the first step, and it has its finalizers but this one. If that
-- changes the finalizers, one update with the new ones is the last step and is accepted; if not,
-- none is sent. The reported Boolean says which.
pub try_to_delete-IsSettled :
    (answers : Answers) (deleting : Bool) (finalizer : String) (t : Tracked) {b : Bool}
    → (try_to_delete answers deleting finalizer t).0 ≡ ok b
    → IsSettled answers deleting finalizer t b (try_to_delete answers deleting finalizer t).1
unfolding try_to_delete
try_to_delete-IsSettled answers false finalizer t {b = false} h =
    elim (Result-cases (keep_finalizer answers finalizer t).0) [
      | inr (x, e) ↦ cc (rw (e) at h)
      | inl (a, e) ↦ rw (e) (refl, keep_finalizer-IsSaved answers finalizer t e)
    ]
try_to_delete-IsSettled answers false finalizer t {b = true} h = ground arith
try_to_delete-IsSettled answers true finalizer t {b = true} h =
    let t1 : Tracked = record t { steps = delete_resource ∷ t.steps } in
    elim (Result-cases (answers.on_delete t.steps)) [
      | inr (x, e) ↦ cc (rw (e) at h)
      | inl (a, accepted) ↦ elim (Result-cases (drop_finalizer answers finalizer t1).0) [
        | inr (x, e) ↦ cc (rw (e) at (rw (accepted) at h))
        | inl (u, e) ↦
            rw (accepted) (rw (e) (refl, refl, drop_finalizer-IsSaved answers finalizer t1 e))
      ]
    ]
try_to_delete-IsSettled answers true finalizer t {b = false} h = ground arith
