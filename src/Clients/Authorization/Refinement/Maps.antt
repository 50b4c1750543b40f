-- ===== src/Clients/Authorization/Refinement/Maps.antt =====
-- The map of the parts that are listed, without the entries of the items, and the tests on its keys.
use keycloak_config_sync_ope.Base.{
  ◌≡◌, refl, sym, ◌∙◌, inl, inr, Bool, true, false, not, ◌&&◌, ◌||◌, Option, none, some, List, [],
  ◌∷◌, arith, String, if◌then◌else◌, Bool-cases, Option-cases, ◌==◌, eq_of_==, contains,
}
use keycloak_config_sync_ope.Base.Dict
use keycloak_config_sync_ope.Base.Dict.{Dict}
use keycloak_config_sync_ope.Directory.Roles.{is_some}
use keycloak_config_sync_ope.RealmRoles.Composites.{erase}
use keycloak_config_sync_ope.Clients.{Entity}
use keycloak_config_sync_ope.Clients.Authorization.{remaining}

lookup-erase :
    {V : Type 0} (m : Dict V) (key other : String)
    → Dict.lookup other (erase key m) ≡ (if key == other then none else Dict.lookup other m)
unfolding erase Dict.lookup
lookup-erase [] key other = ground arith
lookup-erase ((k, v) ∷ m) key other =
    let rest = lookup-erase m key other in
    elim (Bool-cases (k == key)) [
      | inl same ↦ let e = eq_of_== k key same in rw (same) (rest ∙ rw (e) (ground arith))
      | inr differs ↦ rw (differs) (ground (arith, rest))
    ]

pub lookup-remaining :
    (m : Dict Entity) (key other : String)
    → Dict.lookup other (remaining key m) ≡ (if key == other then none else Dict.lookup other m)
lookup-remaining m key other = elim (Option-cases (Dict.lookup key m)) [
  | inl absent ↦ elim (Bool-cases (key == other)) [
    | inl same ↦ rw (absent) (rw (same) (rw⁻¹ (eq_of_== key other same) absent))
    | inr differs ↦ rw (absent) (rw (differs) refl)
  ]
  | inr (e, found) ↦ rw (found) (lookup-erase m key other)
]

pub is_some-remaining :
    (m : Dict Entity) (key other : String)
    → is_some (Dict.lookup other (remaining key m)) ≡ true
    → is_some (Dict.lookup other m) ≡ true
is_some-remaining m key other h =
    let left = rw (lookup-remaining m key other) at h in
    elim (Bool-cases (key == other)) [
      | inl same ↦ cc (rw (same) at left)
      | inr differs ↦ rw (differs) at left
    ]

pub ==_sym : (s t : String) → (s == t) ≡ (t == s)
==_sym s t = ground arith

-- A key that does not count, and one that does, at the head of the keys that are visited.
pub head_skipped :
    (P : String → Bool) (name k : String) (c : Bool)
    → P k ≡ false
    → (c && P name) ≡ ((name == k || c) && P name)
head_skipped P name k c h = elim (Bool-cases (name == k)) [
  | inl same ↦
      let out : P name ≡ false = rw (eq_of_== name k same) h in rw (same) (rw (out) (ground arith))
  | inr differs ↦ rw (differs) refl
]

pub head_counted :
    (P : String → Bool) (name k : String) (c b : Bool)
    → P k ≡ true
    → ((not (k == name) && b) && not (c && P name)) ≡ (b && not ((name == k || c) && P name))
head_counted P name k c b h = rw (==_sym k name) (elim (Bool-cases (name == k)) [
  | inl same ↦
      let counts : P name ≡ true = rw (eq_of_== name k same) h in
      rw (same) (rw (counts) (ground arith))
  | inr differs ↦ rw (differs) refl
])

-- A name at the head of the items, whose part is made unless it is listed.
pub head_put :
    (m : Dict Entity) (n name : String) (c b : Bool)
    → (is_some (Dict.lookup name m) ≡ true → b ≡ true)
    → (c || (n == name && not (is_some (Dict.lookup n m)) || b)) ≡ ((name == n || c) || b)
head_put m n name c b told = rw (==_sym n name) (elim (Bool-cases (name == n)) [
  | inr differs ↦ rw (differs) refl
  | inl same ↦ rw (same) (
      rw⁻¹ (eq_of_== name n same) (elim (Bool-cases (is_some (Dict.lookup name m))) [
        | inl listed ↦ let put = told listed in ground arith
        | inr absent ↦ rw (absent) (ground arith)
      ]))
])

-- The keys after the head, where the head is not among what is left.
pub if_either :
    {V : Type 0} (a b : Bool) (o : Option V)
    → (if b then none else if a then none else o) ≡ (if a || b then none else o)
if_either a b o = ground arith

pub found_before :
    (m left : Dict Entity) (names : List String)
    → ((k : String) → Dict.lookup k left ≡ (if contains k names then none else Dict.lookup k m))
    → (k : String) (e : Entity) → Dict.lookup k left ≡ some e
    → Dict.lookup k m ≡ some e
found_before m left names lefts k e found =
    let here = sym (lefts k) ∙ found in
    elim (Bool-cases (contains k names)) [
      | inl known ↦ cc (rw (known) at here)
      | inr other ↦ rw (other) at here
    ]

pub is_left :
    (c : Bool) (o : Option Entity) (d b : Bool)
    → (b && not (is_some (if c then none else o) && (is_some (if c then none else o) && d)))
      ≡ (b && not (not c && is_some o && d))
is_left true o d b = ground arith
is_left false none d b = ground arith
is_left false (some e) d b = ground arith

pub recorded :
    (c l a d : Bool) → ((c || l) && not (not a && not c && l && not d)) ≡ (c || l && (a || d))
recorded true l a d = ground arith
recorded false true true d = ground arith
recorded false true false d = ground arith
recorded false false a d = ground arith
