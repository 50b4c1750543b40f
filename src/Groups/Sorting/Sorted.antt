-- ===== src/Groups/Sorting/Sorted.antt =====
-- What a sort of the groups of a realm returns.
use keycloak_config_sync_ope.Base.{
  ℕ, zero, suc, ◌≡◌, ◌⊎◌, refl, sym, inl, inr, Bool, true, false, Option, none, some, List, [], ◌∷◌,
  arith, subst, String, Bool-cases, Option-cases, ==_refl, contains, select, All,
}
use mathlib.Core.List.{Memᴰ}
use keycloak_config_sync_ope.Groups.Sorting.Members.{
  Memᴰ-select, All-of_members, All-select, each_member, each-All, each_with_parent, visit_parts,
  visit_member, visit-All, visit_with_parent,
}
use keycloak_config_sync_ope.Groups.{Group}
use keycloak_config_sync_ope.Groups.Sorting.{
  has_parent, is_root, children, visit, sort_realm_group_by_parent,
}
use keycloak_config_sync_ope.Groups.Sorting.Order.{
  group_names, is_rooted, all_rooted, parents_first, each-parents_first,
}

child-rooted :
    (name : String) (seen : List String) (g : Group)
    → has_parent name g ≡ true
    → is_rooted (name ∷ seen) g ≡ true
child-rooted name seen g child = elim (Option-cases g.parent_group) [
  | inl nil ↦ rw (nil) refl
  | inr (p, refers) ↦ rw (refers) (let same_name = rw (refers) at child in ground arith)
]

root-rooted : (g : Group) → is_root g ≡ true → is_rooted [] g ≡ true
root-rooted g root = elim (Option-cases g.parent_group) [
  | inl nil ↦ rw (nil) refl
  | inr (p, refers) ↦ cc (rw (refers) at root)
]

select-rooted :
    (test : Group → Bool) (seen : List String) (items : List Group)
    → ((g : Group) → test g ≡ true → is_rooted seen g ≡ true)
    → all_rooted seen (select test items) ≡ true
select-rooted test seen [] fine = refl
select-rooted test seen (g ∷ gs) fine =
    let rest = select-rooted test seen gs fine in
    elim (Bool-cases (test g)) [
      | inl passes ↦ rw (passes) (let here = fine g passes in ground arith)
      | inr fails ↦ rw (fails) rest
    ]

children-rooted :
    (name : String) (seen : List String) (items : List Group)
    → all_rooted (name ∷ seen) (children items name) ≡ true
children-rooted name seen items =
    select-rooted (has_parent name) (name ∷ seen) items (child-rooted name seen)

module _ (items : List Group) where
  visit-parents_first :
      (k : ℕ) (g : Group) (seen : List String) (r : List Group)
      → visit k items g ≡ some r
      → is_rooted seen g ≡ true
      → parents_first seen r ≡ true
  unfolding visit
  visit-parents_first zero g seen r h rooted = cc
  visit-parents_first (suc k) g seen r h rooted =
      let (ys, there, whole) = visit_parts items k g r h in
      let rest =
        each-parents_first (visit k items) (children items g.name) (g.name ∷ seen) ys
          (visit-parents_first k) there (children-rooted g.name seen items) in
      subst (λ x. parents_first seen x ≡ true) whole (ground arith)

-- A group of the spec is listed, unless it names a parent that is not.
abbrev pub IsListed : List Group → Option String → Group → Type 0
IsListed r none g = Memᴰ g r
IsListed r (some p) g = (contains p (group_names r) ≡ false) ⊎ Memᴰ g r

-- A result of the sort lists each group after the one that it names as its parent; it has only
-- groups of the spec, unchanged, and each group of the spec that names no parent, or one that is
-- listed.
pub sort_realm_group_by_parent-parents_first :
    (fuel : ℕ) (items r : List Group)
    → sort_realm_group_by_parent fuel items ≡ some r
    → (parents_first [] r ≡ true)
      × All (λ g. Memᴰ g items) r
      × All (λ g. IsListed r g.parent_group g) items
unfolding sort_realm_group_by_parent
sort_realm_group_by_parent-parents_first fuel items r h =
    let f = visit fuel items in
    let roots = select is_root items in
    let members = All-of_members (λ g. Memᴰ g items) items (λ g m. m) in
    (
      each-parents_first f roots [] r (visit-parents_first items fuel) h
          (select-rooted is_root [] items root-rooted),
      each-All f (λ g. Memᴰ g items) roots r
          (λ g l. visit-All items (λ x. Memᴰ x items) fuel g l members) h
          (All-select (λ g. Memᴰ g items) is_root items members),
      All-of_members (λ g. IsListed r g.parent_group g) items
          (λ g m. elim (Option-cases g.parent_group) [
            | inl nil ↦
                let root : is_root g ≡ true = rw (nil) refl in
                subst (λ o. IsListed r o g) (sym nil)
                  (each_member f roots r (visit_member items fuel) h
                    (Memᴰ-select is_root items root m))
            | inr (p, refers) ↦
                let child : has_parent p g ≡ true = rw (refers) (==_refl p) in
                subst (λ o. IsListed r o g) (sym refers)
                  (elim (Bool-cases (contains p (group_names r))) [
                    | inr other ↦ inl other
                    | inl listed ↦ inr (
                        each_with_parent f items roots r p (visit_with_parent items fuel p) h listed
                          (Memᴰ-select (has_parent p) items child m))
                  ])
          ]),
    )
