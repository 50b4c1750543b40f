-- ===== src/Groups/Sorting/Termination.antt =====
-- The sorts end where the references to parents form no cycle.
use keycloak_config_sync_ope.Base.{
  ℕ, zero, suc, ◌+◌, ◌≤◌, ◌<◌, ◌≡◌, refl, inl, inr, Bool, true, Option, none, some, List, [], ◌∷◌,
  ◌++◌, arith, subst, String, Bool-cases, Option-cases, eq_of_==, select, All,
}
use keycloak_config_sync_ope.Groups.{Group}
use keycloak_config_sync_ope.Groups.Sorting.{
  has_parent, is_root, children, visit_each, visit, sort_realm_group_by_parent, visit_first_child,
  sort_realm_group_by_parent_first_child,
}

-- A level for each name, above that of the parent.
abbrev pub IsLevelled : (String → ℕ) → ℕ → Group → Type 0
IsLevelled level top g =
    (level g.name ≤ top)
    × elim g.parent_group [ none ↦ Unit | some parent ↦ level parent < level g.name ]

-- A result that a function has at some arguments, whatever fuel it is given.
Agrees : (ℕ → Group → Option (List Group)) → ℕ → Group → Type 0
Agrees f low g = (r : List Group) × ((fuel : ℕ) → low ≤ fuel → f fuel g ≡ some r)

each-Agrees :
    (f : ℕ → Group → Option (List Group)) (low : ℕ) (gs : List Group)
    → All (λ g. Agrees f low g) gs
    → (r : List Group) × ((fuel : ℕ) → low ≤ fuel → visit_each (f fuel) gs ≡ some r)
unfolding visit_each Agrees
each-Agrees f low [] h = ([], λ fuel enough. refl)
each-Agrees f low (g ∷ gs) h =
    let (xs, here) = h.0 in
    let (ys, rest) = each-Agrees f low gs h.1 in
    (xs ++ ys, λ fuel enough. rw (here fuel enough) (rw (rest fuel enough) refl))

All-select :
    (P Q : Group → Type 0) (test : Group → Bool) (gs : List Group)
    → ((g : Group) → test g ≡ true → P g → Q g)
    → All P gs
    → All Q (select test gs)
All-select P Q test [] f h = tt
All-select P Q test (g ∷ gs) f h = elim (Bool-cases (test g)) [
  | inl passes ↦ rw (passes) (f g passes h.0, All-select P Q test gs f h.1)
  | inr fails ↦ rw (fails) (All-select P Q test gs f h.1)
]

-- A child is a level above its parent.
child_level :
    (level : String → ℕ) (top : ℕ) (name : String) (g : Group)
    → has_parent name g ≡ true
    → IsLevelled level top g
    → (level name < level g.name) × (level g.name ≤ top)
child_level level top name g child h = elim (Option-cases g.parent_group) [
  | inl nil ↦ cc (rw (nil) at child)
  | inr (parent, refers) ↦
      let above : level parent < level g.name = (rw (refers) at h).1 in
      let same_name = eq_of_== parent name (rw (refers) at child) in
      (subst (λ p. level p < level g.name) same_name above, h.0)
]

module _ (level : String → ℕ) (top : ℕ) (items : List Group) (f : ℕ → Group → Option (List Group))
    (step : (low : ℕ) (g : Group)
      → (r : List Group) × ((fuel : ℕ)
          → low ≤ fuel
          → visit_each (f fuel) (children items g.name) ≡ some r)
      → Agrees f (suc low) g) where
  visit-Agrees :
      (gap : ℕ) (g : Group)
      → All (IsLevelled level top) items
      → top ≤ gap + level g.name
      → Agrees f (suc gap) g
  visit-Agrees zero g levelled h = step zero g (
      each-Agrees f zero (children items g.name) (
        All-select (IsLevelled level top) (Agrees f zero) (has_parent g.name) items
          (λ c child lev.
            let (above, below) = child_level level top g.name c child lev in absurd (omega arith))
          levelled))
  visit-Agrees (suc gap) g levelled h = step (suc gap) g (
      each-Agrees f (suc gap) (children items g.name) (
        All-select (IsLevelled level top) (Agrees f (suc gap)) (has_parent g.name) items
          (λ c child lev.
            let (above, below) = child_level level top g.name c child lev in
            visit-Agrees gap c levelled (omega arith))
          levelled))

  roots-Agree :
      All (IsLevelled level top) items
      → (r : List Group) × ((fuel : ℕ)
          → suc top ≤ fuel
          → visit_each (f fuel) (select is_root items) ≡ some r)
  roots-Agree levelled = each-Agrees f (suc top) (select is_root items) (
      All-select (IsLevelled level top) (Agrees f (suc top)) is_root items
        (λ g root lev. visit-Agrees top g levelled (omega arith)) levelled)

visit_fuel :
    (items : List Group) (low : ℕ) (g : Group) (r : List Group)
    → ((fuel : ℕ) → low ≤ fuel → visit_each (visit fuel items) (children items g.name) ≡ some r)
    → (fuel : ℕ) → suc low ≤ fuel
    → visit fuel items g ≡ some (g ∷ r)
unfolding visit
visit_fuel items low g r h zero enough = absurd (omega arith)
visit_fuel items low g r h (suc fuel) enough = rw (h fuel (omega arith)) refl

visit_first_child_fuel :
    (items : List Group) (low : ℕ) (g : Group) (r : List Group)
    → ((fuel : ℕ)
        → low ≤ fuel
        → visit_each (visit_first_child fuel items) (children items g.name) ≡ some r)
    → (fuel : ℕ) → suc low ≤ fuel
    → visit_first_child fuel items g ≡ some (r ++ g ∷ [])
unfolding visit_first_child
visit_first_child_fuel items low g r h zero enough = absurd (omega arith)
visit_first_child_fuel items low g r h (suc fuel) enough = rw (h fuel (omega arith)) refl

-- Where each group is a level above its parent, up to `top`, the sort has one result at any fuel
-- above `top`.
pub sort_realm_group_by_parent_ends :
    (level : String → ℕ) (top : ℕ) (items : List Group)
    → All (IsLevelled level top) items
    → (r : List Group) × ((fuel : ℕ) → top < fuel → sort_realm_group_by_parent fuel items ≡ some r)
unfolding sort_realm_group_by_parent Agrees
sort_realm_group_by_parent_ends level top items levelled =
    roots-Agree level top items (λ fuel. visit fuel items)
      (λ low g each. (g ∷ each.0, visit_fuel items low g each.0 each.1)) levelled

-- So has the sort that puts children first.
pub sort_realm_group_by_parent_first_child_ends :
    (level : String → ℕ) (top : ℕ) (items : List Group)
    → All (IsLevelled level top) items
    → (r : List Group) × ((fuel : ℕ)
        → top < fuel
        → sort_realm_group_by_parent_first_child fuel items ≡ some r)
unfolding sort_realm_group_by_parent_first_child Agrees
sort_realm_group_by_parent_first_child_ends level top items levelled =
    roots-Agree level top items (λ fuel. visit_first_child fuel items)
      (λ low g each. (each.0 ++ g ∷ [], visit_first_child_fuel items low g each.0 each.1)) levelled
