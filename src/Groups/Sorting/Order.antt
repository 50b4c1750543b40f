-- ===== src/Groups/Sorting/Order.antt =====
-- The order of what the sort lists: parents before their children.
use keycloak_config_sync_ope.Base.{
  ◌≡◌, refl, inl, inr, Bool, true, ◌&&◌, ◌||◌, Option, none, some, List, [], ◌∷◌, ◌++◌, map, arith,
  subst, String, Option-cases, contains,
}
use mathlib.Core.Option.{some-injective}
use keycloak_config_sync_ope.Groups.{Group}
use keycloak_config_sync_ope.Groups.Sorting.{append_results, visit_each}

abbrev pub group_names : List Group → List String
group_names gs = map (λ g. g.name) gs

-- The parent of a group, if it has one, is among the names.
abbrev pub is_rooted : List String → Group → Bool
is_rooted seen g = elim g.parent_group [ none ↦ true | some parent ↦ contains parent seen ]

abbrev pub all_rooted : List String → List Group → Bool
all_rooted seen [] = true
all_rooted seen (g ∷ gs) = is_rooted seen g && all_rooted seen gs

-- Each group comes after its parent, which may also be among the names seen before.
abbrev pub parents_first : List String → List Group → Bool
parents_first seen [] = true
parents_first seen (g ∷ gs) = is_rooted seen g && parents_first (g.name ∷ seen) gs

pub contains-group_names :
    (n : String) (xs ys : List Group)
    → contains n (group_names (xs ++ ys))
      ≡ (contains n (group_names xs) || contains n (group_names ys))
contains-group_names n [] ys = refl
contains-group_names n (x ∷ xs) ys = let rest = contains-group_names n xs ys in ground arith

is_rooted_more :
    (seen more : List String) (g : Group)
    → ((n : String) → contains n seen ≡ true → contains n more ≡ true)
    → is_rooted seen g ≡ true
    → is_rooted more g ≡ true
is_rooted_more seen more g incl h = elim (Option-cases g.parent_group) [
  | inl nil ↦ rw (nil) refl
  | inr (p, refers) ↦ rw (refers) (incl p (rw (refers) at h))
]

parents_first_more :
    (gs : List Group) (seen more : List String)
    → ((n : String) → contains n seen ≡ true → contains n more ≡ true)
    → parents_first seen gs ≡ true
    → parents_first more gs ≡ true
parents_first_more [] seen more incl h = refl
parents_first_more (g ∷ gs) seen more incl h =
    let here = is_rooted_more seen more g incl (ground arith) in
    let there =
      parents_first_more gs (g.name ∷ seen) (g.name ∷ more)
        (λ n listed. let wider = incl n in grind arith) (ground arith) in
    ground arith

parents_first-append :
    (xs ys : List Group) (seen : List String)
    → parents_first seen xs ≡ true
    → parents_first seen ys ≡ true
    → parents_first seen (xs ++ ys) ≡ true
parents_first-append [] ys seen h k = k
parents_first-append (x ∷ xs) ys seen h k =
    let wider = parents_first_more ys seen (x.name ∷ seen) (λ n listed. ground arith) k in
    let rest = parents_first-append xs ys (x.name ∷ seen) (ground arith) wider in ground arith

-- A result of `append_results` has two parts.
pub parts_of :
    (a b : Option (List Group)) (r : List Group)
    → append_results a b ≡ some r
    → (xs : List Group) × (ys : List Group) × (a ≡ some xs) × (b ≡ some ys) × (xs ++ ys ≡ r)
parts_of none b r h = cc
parts_of (some xs) none r h = cc
parts_of (some xs) (some ys) r h = (xs, ys, refl, refl, some-injective (xs ++ ys) r h)

-- A property of the groups of a result that parts have from what is visited.
module _ (f : Group → Option (List Group)) where
  pub each-parents_first :
      (gs : List Group) (seen : List String) (r : List Group)
      → ((g : Group) (seen : List String) (r : List Group)
          → f g ≡ some r
          → is_rooted seen g ≡ true
          → parents_first seen r ≡ true)
      → visit_each f gs ≡ some r
      → all_rooted seen gs ≡ true
      → parents_first seen r ≡ true
  unfolding visit_each
  each-parents_first [] seen r first h rooted =
      subst (λ x. parents_first seen x ≡ true) (some-injective [] r h) refl
  each-parents_first (g ∷ gs) seen r first h rooted =
      let (xs, ys, here, there, whole) = parts_of (f g) (visit_each f gs) r h in
      let fine = first g seen xs here (ground arith) in
      let rest = each-parents_first gs seen ys first there (ground arith) in
      subst (λ x. parents_first seen x ≡ true) whole (parents_first-append xs ys seen fine rest)
