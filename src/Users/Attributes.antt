-- ===== src/Users/Attributes.antt =====
-- The attributes of a user that is updated.
use keycloak_config_sync_ope.Base.{
  ◌≡◌, refl, subst, ◌∙◌, inl, inr, true, false, ◌||◌, Option, none, some, List, [], ◌∷◌, ◌++◌,
  arith, String, if◌then◌else◌, Bool-cases, Option-cases, ◌==◌, eq_of_==, contains,
}
use keycloak_config_sync_ope.Base.Dict
use keycloak_config_sync_ope.Base.Dict.{Dict}
use keycloak_config_sync_ope.Directory.Roles.{is_some}
use keycloak_config_sync_ope.Users.{
  append_new, or_no_values, merge_attributes, keep_desired, or_empty_map, make_user_attributes,
}

-- No key stands twice, as in a Go map.
abbrev pub IsMap : Dict (List String) → Type 0
IsMap [] = Unit
IsMap ((key, values) ∷ m) = (Dict.lookup key m ≡ none) × IsMap m

contains-append :
    (v : String) (xs ys : List String) → contains v (xs ++ ys) ≡ (contains v xs || contains v ys)
contains-append v [] ys = refl
contains-append v (x ∷ xs) ys = let rest = contains-append v xs ys in ground arith

contains-append_new :
    (v : String) (current vs : List String)
    → contains v (append_new current vs) ≡ (contains v current || contains v vs)
unfolding append_new
contains-append_new v current [] = ground arith
contains-append_new v current (w ∷ ws) = elim (Bool-cases (contains w current)) [
  | inl known ↦ let rest = contains-append_new v current ws in rw (known) (grind arith)
  | inr new ↦
      let rest = contains-append_new v (current ++ w ∷ []) ws in
      let longer = contains-append v current (w ∷ []) in rw (new) (grind arith)
]

-- The first of two, or else the second.
abbrev or_else : {A : Type 0} → Option A → Option A → Option A
or_else none b = b
or_else (some a) b = some a

lookup-merge_attributes :
    (key : String) (desired attrs : Dict (List String))
    → IsMap desired
    → Dict.lookup key (merge_attributes false attrs desired)
      ≡ or_else (Dict.lookup key desired) (Dict.lookup key attrs)
unfolding merge_attributes Dict.lookup
lookup-merge_attributes key [] attrs h = refl
lookup-merge_attributes key ((k, vs) ∷ desired) attrs h =
    let rest = lookup-merge_attributes key desired (Dict.insert k vs attrs) h.1 in
    let stored = Dict.lookup-insert attrs k key vs in
    elim (Bool-cases (k == key)) [
      | inl same_key ↦
          let absent = subst (λ x. Dict.lookup x desired ≡ none) (eq_of_== k key same_key) h.0 in
          rest ∙ rw (stored) (rw (same_key) (rw (absent) refl))
      | inr other ↦ rest ∙ rw (stored) (rw (other) refl)
    ]

lookup-keep_desired :
    (key : String) (desired attrs : Dict (List String))
    → Dict.lookup key (keep_desired desired attrs)
      ≡ (if is_some (Dict.lookup key desired) then Dict.lookup key attrs else none)
unfolding keep_desired Dict.lookup
lookup-keep_desired key desired [] = ground arith
lookup-keep_desired key desired ((k, vs) ∷ attrs) =
    let rest = lookup-keep_desired key desired attrs in
    elim (Bool-cases (is_some (Dict.lookup k desired))) [
      | inl kept ↦ rw (kept) (grind arith)
      | inr gone ↦ rw (gone) (grind arith)
    ]

values-merge_attributes :
    (key v : String) (desired attrs : Dict (List String))
    → IsMap desired
    → contains v (or_no_values (Dict.lookup key (merge_attributes true attrs desired))) ≡ (
        contains v (or_no_values (Dict.lookup key attrs))
        || contains v (or_no_values (Dict.lookup key desired)))
unfolding merge_attributes Dict.lookup
values-merge_attributes key v [] attrs h = ground arith
values-merge_attributes key v ((k, vs) ∷ desired) attrs h =
    let more = append_new (or_no_values (Dict.lookup k attrs)) vs in
    let rest = values-merge_attributes key v desired (Dict.insert k more attrs) h.1 in
    let stored = Dict.lookup-insert attrs k key more in
    let joined = contains-append_new v (or_no_values (Dict.lookup k attrs)) vs in
    elim (Bool-cases (k == key)) [
      | inl same_key ↦
          let absent = subst (λ x. Dict.lookup x desired ≡ none) (eq_of_== k key same_key) h.0 in
          let before =
            subst
              (λ x.
                contains v more
                ≡ (contains v (or_no_values (Dict.lookup x attrs)) || contains v vs))
              (eq_of_== k key same_key) joined in
          rest ∙ rw (stored) (rw (same_key) (rw (absent) (rw (before) (ground arith))))
      | inr other ↦ rest ∙ rw (stored) (rw (other) refl)
    ]

-- With the strategy full the attributes are those of the spec, whose keys differ, and no others; if
-- attributes are only added there are, for each key, the values that it had and those of the spec.
pub make_user_attributes_lem :
    (existing : Option (Dict (List String))) (desired : Dict (List String)) (key v : String)
    → IsMap desired
    → (Dict.lookup key (make_user_attributes existing desired false) ≡ Dict.lookup key desired)
      × (contains v (or_no_values (Dict.lookup key (make_user_attributes existing desired true)))
          ≡ (contains v (or_no_values (Dict.lookup key (or_empty_map existing)))
              || contains v (or_no_values (Dict.lookup key desired))))
unfolding make_user_attributes
make_user_attributes_lem existing desired key v h =
    let attrs = or_empty_map existing in
    let merged = lookup-merge_attributes key desired attrs h in
    let kept = lookup-keep_desired key desired (merge_attributes false attrs desired) in
    (
      kept ∙ elim (Option-cases (Dict.lookup key desired)) [
        | inl absent ↦ rw (absent) refl
        | inr (values, present) ↦ rw (merged) (rw (present) refl)
      ],
      values-merge_attributes key v desired attrs h,
    )
