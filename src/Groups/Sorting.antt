-- ===== src/Groups/Sorting.antt =====
-- `SortRealmGroupByParent` and `SortRealmGroupByParentFirstChild` of
-- internal/controller/helper/controller_helper.go. The recursion of `visit` has fuel: it need not
-- end where the references to parents form a cycle.
pub mod Termination
pub mod Order
pub mod Members
pub mod Sorted
use keycloak_config_sync_ope.Base.{
  ℕ, zero, suc, Bool, true, false, not, Option, none, some, List, [], ◌∷◌, ◌++◌, map, String, ◌==◌,
  select,
}
use keycloak_config_sync_ope.Groups.{Group}

-- The map `children` at a name: the groups that refer to it as their parent, in order.
abbrev pub has_parent : String → Group → Bool
has_parent name g = elim g.parent_group [ none ↦ false | some parent ↦ parent == name ]

abbrev pub is_root : Group → Bool
is_root g = elim g.parent_group [ none ↦ true | some parent ↦ false ]

abbrev pub children : List Group → String → List Group
children items name = select (has_parent name) items

abbrev pub append_results : Option (List Group) → Option (List Group) → Option (List Group)
append_results none ys = none
append_results (some xs) none = none
append_results (some xs) (some ys) = some (xs ++ ys)

unfoldable pub visit_each : (Group → Option (List Group)) → List Group → Option (List Group)
visit_each f [] = some []
visit_each f (g ∷ gs) = append_results (f g) (visit_each f gs)

-- `visit`: the node, then what a visit of its children appends.
unfoldable pub visit : ℕ → List Group → Group → Option (List Group)
unfolding visit_each
visit zero items g = none
visit (suc fuel) items g =
    append_results (some (g ∷ [])) (visit_each (visit fuel items) (children items g.name))

unfoldable pub sort_realm_group_by_parent : ℕ → List Group → Option (List Group)
unfolding visit visit_each
sort_realm_group_by_parent fuel items = visit_each (visit fuel items) (select is_root items)

-- The `visit` of the other order: the children, then the node.
unfoldable pub visit_first_child : ℕ → List Group → Group → Option (List Group)
unfolding visit_each
visit_first_child zero items g = none
visit_first_child (suc fuel) items g =
    append_results (visit_each (visit_first_child fuel items) (children items g.name))
      (some (g ∷ []))

unfoldable pub sort_realm_group_by_parent_first_child : ℕ → List Group → Option (List Group)
unfolding visit_first_child visit_each
sort_realm_group_by_parent_first_child fuel items =
    visit_each (visit_first_child fuel items) (select is_root items)
