-- ===== src/Groups/Sorting/Members.antt =====
-- Which groups a sort lists.
use mathlib.Core.List.{Memᴰ}
use mathlib.Core.List.Memᴰ
use mathlib.Core.Option.{some-injective}
use keycloak_config_sync_ope.Base.{
  ℕ, zero, suc, ◌≡◌, refl, sym, inl, inr, Bool, true, Option, some, List, [], ◌∷◌, arith, subst,
  String, Bool-cases, Option-cases, ◌==◌, eq_of_==, contains, select, All, All-append,
}
use keycloak_config_sync_ope.Groups.{Group}
use keycloak_config_sync_ope.Groups.Sorting.{children, has_parent, visit_each, visit}
use keycloak_config_sync_ope.Groups.Sorting.Order.{group_names, contains-group_names, parts_of}

pub Memᴰ-select :
    (test : Group → Bool) {g : Group} (gs : List Group)
    → test g ≡ true
    → Memᴰ g gs
    → Memᴰ g (select test gs)
Memᴰ-select test [] passes m = elim m [ ]
Memᴰ-select test (x ∷ xs) passes (Memᴰ.head same) =
    rw (subst (λ y. test y ≡ true) same passes) (Memᴰ.head same)
Memᴰ-select test (x ∷ xs) passes (Memᴰ.tail m) =
    let rest = Memᴰ-select test xs passes m in
    elim (Bool-cases (test x)) [
      | inl kept ↦ rw (kept) (Memᴰ.tail rest)
      | inr other ↦ rw (other) rest
    ]

pub All-of_members :
    (P : Group → Type 0) (gs : List Group) → ((g : Group) → Memᴰ g gs → P g) → All P gs
All-of_members P [] h = tt
All-of_members P (g ∷ gs) h = (h g (Memᴰ.head refl), All-of_members P gs (λ x m. h x (Memᴰ.tail m)))

pub All-select :
    (P : Group → Type 0) (test : Group → Bool) (gs : List Group) → All P gs → All P (select test gs)
All-select P test [] h = tt
All-select P test (g ∷ gs) h =
    let rest = All-select P test gs h.1 in
    elim (Bool-cases (test g)) [ inl kept ↦ rw (kept) (h.0, rest) | inr other ↦ rw (other) rest ]

module _ (f : Group → Option (List Group)) where
  -- Each group that is visited is listed.
  pub each_member :
      (gs : List Group) (r : List Group) {g : Group}
      → ((g : Group) (r : List Group) → f g ≡ some r → Memᴰ g r)
      → visit_each f gs ≡ some r
      → Memᴰ g gs
      → Memᴰ g r
  unfolding visit_each
  each_member [] r self h m = elim m [ ]
  each_member (x ∷ xs) r {g} self h m =
      let (ys, zs, here, there, whole) = parts_of (f x) (visit_each f xs) r h in
      subst (λ l. Memᴰ g l) whole
        (elim (Memᴰ.cases_cons m) [
          | inl same ↦ Memᴰ.append_left zs (Memᴰ.cast same (self x ys here))
          | inr later ↦ Memᴰ.append_right ys (each_member xs zs self there later)
        ])

  -- What holds of the groups that are visited, and passes on to those that a visit lists.
  pub each-All :
      (P : Group → Type 0) (gs : List Group) (r : List Group)
      → ((g : Group) (r : List Group) → f g ≡ some r → P g → All P r)
      → visit_each f gs ≡ some r
      → All P gs
      → All P r
  unfolding visit_each
  each-All P [] r below h all = subst (All P) (some-injective [] r h) tt
  each-All P (x ∷ xs) r below h all =
      let (ys, zs, here, there, whole) = parts_of (f x) (visit_each f xs) r h in
      subst (All P) whole
        (All-append P ys zs (below x ys here all.0) (each-All P xs zs below there all.1))

  -- A child is listed with its parent if each visit does so.
  pub each_with_parent :
      (items gs : List Group) (r : List Group) (p : String) {c : Group}
      → ((g : Group) (r : List Group)
          → f g ≡ some r
          → contains p (group_names r) ≡ true
          → Memᴰ c (children items p)
          → Memᴰ c r)
      → visit_each f gs ≡ some r
      → contains p (group_names r) ≡ true
      → Memᴰ c (children items p)
      → Memᴰ c r
  unfolding visit_each
  each_with_parent items [] r p closed h listed child =
      let empty =
        subst (λ x. contains p (group_names x) ≡ true) (sym (some-injective [] r h)) listed in
      cc
  each_with_parent items (g ∷ gs) r p {c} closed h listed child =
      let (xs, ys, here, there, whole) = parts_of (f g) (visit_each f gs) r h in
      let split = subst (λ x. contains p (group_names x) ≡ true) (sym whole) listed in
      let in_both = contains-group_names p xs ys in
      subst (λ l. Memᴰ c l) whole
        (elim (Bool-cases (contains p (group_names xs))) [
          | inl first ↦ Memᴰ.append_left ys (closed g xs here first child)
          | inr other ↦
              Memᴰ.append_right xs
                (each_with_parent items gs ys p closed there (ground arith) child)
        ])

module _ (items : List Group) where
  -- A visit lists the group and then what the visits of its children list.
  pub visit_parts :
      (k : ℕ) (g : Group) (r : List Group)
      → visit (suc k) items g ≡ some r
      → (ys : List Group) × (visit_each (visit k items) (children items g.name) ≡ some ys)
        × (g ∷ ys ≡ r)
  unfolding visit
  visit_parts k g r h = elim (Option-cases (visit_each (visit k items) (children items g.name))) [
    | inl nil ↦ cc (rw (nil) at h)
    | inr (ys, e) ↦ (ys, e, some-injective (g ∷ ys) r (rw (e) at h))
  ]

  pub visit_member : (k : ℕ) (g : Group) (r : List Group) → visit k items g ≡ some r → Memᴰ g r
  unfolding visit
  visit_member zero g r h = cc
  visit_member (suc k) g r h =
      let (ys, there, whole) = visit_parts k g r h in subst (λ l. Memᴰ g l) whole (Memᴰ.head refl)

  pub visit-All :
      (P : Group → Type 0) (k : ℕ) (g : Group) (r : List Group)
      → All P items
      → visit k items g ≡ some r
      → P g
      → All P r
  unfolding visit
  visit-All P zero g r all h here = cc
  visit-All P (suc k) g r all h here =
      let (ys, there, whole) = visit_parts k g r h in
      subst (All P) whole (
        here,
        each-All (visit k items) P (children items g.name) ys (λ x l. visit-All P k x l all) there
            (All-select P (has_parent g.name) items all),
      )

  pub visit_with_parent :
      (k : ℕ) (p : String) {c : Group} (g : Group) (r : List Group)
      → visit k items g ≡ some r
      → contains p (group_names r) ≡ true
      → Memᴰ c (children items p)
      → Memᴰ c r
  unfolding visit
  visit_with_parent zero p g r h listed child = cc
  visit_with_parent (suc k) p {c} g r h listed child =
      let (ys, there, whole) = visit_parts k g r h in
      let split = subst (λ x. contains p (group_names x) ≡ true) (sym whole) listed in
      subst (λ l. Memᴰ c l) whole
        (elim (Bool-cases (p == g.name)) [
          | inl same_name ↦ Memᴰ.tail (
              each_member (visit k items) (children items g.name) ys (visit_member k) there
                (subst (λ x. Memᴰ c (children items x)) (eq_of_== p g.name same_name) child))
          | inr other ↦ Memᴰ.tail (
              each_with_parent (visit k items) items (children items g.name) ys p
                (visit_with_parent k p) there (ground arith) child)
        ])
